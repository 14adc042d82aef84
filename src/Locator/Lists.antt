-- ===== src/Locator/Lists.antt =====
-- lispd/liblisp/lisp_locator.c: locators and lists of them. A locator is its pointer `at` with what it
-- points to.
use lispmob.Prelude.{ℕ, ◌-◌, Bool, ◌&&◌, ◌||◌, Option, none, some, List, ◌∷◌, ◌==◌, if◌then◌else◌}
use lispmob.Address.{Addr, Cmp, unsupported, is_equal, lisp_addr_cmp, lisp_addr_cmp_afi}
use lispmob.Locator.{Locator}
use lispmob.Glist.{Glist, take_first}

pub record LoctPtr : Type 0 where
  pub at : ℕ
  pub loct : Locator

abbrev pub LoctList : Type 0
LoctList = Glist LoctPtr

-- the numbers of defs.h
pub data Status : Type 0 where
  good bad err_exist err_no_exist : Status

unfoldable pub locator_cmp : Locator → Locator → ℕ
locator_cmp l1 l2 =
    if is_equal (lisp_addr_cmp l1.addr l2.addr)
      && (l1.priority == l2.priority
          && (l1.weight == l2.weight && (l1.mpriority == l2.mpriority && l1.mweight == l2.mweight)))
    then 0
    else 1

unfoldable pub locator_cmp_addr : LoctPtr → LoctPtr → Cmp
locator_cmp_addr a b = lisp_addr_cmp a.loct.addr b.loct.addr

-- whether two pointers are one
abbrev pub same_ptr : LoctPtr → LoctPtr → Bool
same_ptr a b = a.at == b.at

-- a list whose size is not 0 has a first locator
abbrev pub cmp_first : List LoctPtr → List LoctPtr → Cmp
cmp_first (a ∷ rest_a) (b ∷ rest_b) = lisp_addr_cmp_afi a.loct.addr b.loct.addr
cmp_first _ _ = unsupported

unfoldable pub locator_list_cmp_afi : LoctList → LoctList → Cmp
locator_list_cmp_afi a b =
    if a.size == 0 || b.size == 0 then unsupported else cmp_first a.elems b.elems

abbrev pub has_addr : Addr → LoctPtr → Bool
has_addr addr l = is_equal (lisp_addr_cmp l.loct.addr addr)

unfoldable pub locator_list_extract_locator_with_addr : LoctList → Addr → Option LoctPtr × LoctList
locator_list_extract_locator_with_addr g addr =
    if g.size == 0 then (none, g) else elim (take_first (has_addr addr) g.elems) [
      | none ↦ (none, g)
      | some r ↦ (some r.0, record g { size = g.size - 1; elems = r.1 })
    ]

unfoldable pub locator_list_get_locator_with_addr : LoctList → Addr → Option LoctPtr
locator_list_get_locator_with_addr g addr =
    if g.size == 0
    then none
    else elim (take_first (has_addr addr) g.elems) [ none ↦ none | some r ↦ some r.0 ]

unfoldable pub locator_list_extract_locator_with_ptr : LoctList → LoctPtr → Status × LoctList
locator_list_extract_locator_with_ptr g l =
    if g.size == 0 then (bad, g) else elim (take_first (λ x. same_ptr x l) g.elems) [
      | none ↦ (err_no_exist, g)
      | some r ↦ (good, record g { size = g.size - 1; elems = r.1 })
    ]
