-- ===== src/Mapping/Compare.antt =====
-- lispd/liblisp/lisp_mapping.c: comparing, copying and renewing mappings. The loops over two lists at once
-- are entered with lists of one size, as the source tests before each.
use lispmob.Prelude.{
  ℕ, ◌+◌, ◌%◌, ◌^◌, Bool, true, false, not, Option, none, some, List, [], ◌∷◌, ◌==◌, if◌then◌else◌,
  Run, ok, fault, null_pointer, ◌>>=◌,
}
use lispmob.Address.{is_equal, lisp_addr_cmp, lisp_addr_is_no_addr}
use lispmob.Locator.Lists.{LoctPtr, LoctList, locator_cmp, locator_cmp_addr, locator_list_cmp_afi}
use lispmob.Glist.{Glist, glist_new_complete, glist_add}
use lispmob.Mapping.{Mapping, mapping_new_init}

unfoldable pub same_locators : List LoctPtr → List LoctPtr → Bool
same_locators (a ∷ as_) (b ∷ bs) =
    let rest = same_locators as_ bs in if locator_cmp a.loct b.loct == 0 then rest else false
same_locators _ _ = true

unfoldable pub same_lists : List LoctList → List LoctList → Bool
unfolding same_locators
same_lists (g ∷ gs) (h ∷ hs) =
    let rest = same_lists gs hs in
    if g.size == h.size then (if same_locators g.elems h.elems then rest else false) else false
same_lists _ _ = true

-- 0 if they are the same and 1 otherwise
unfoldable pub mapping_cmp : Mapping → Mapping → ℕ
unfolding same_lists
mapping_cmp m n =
    if not (is_equal (lisp_addr_cmp m.eid_prefix n.eid_prefix))
    then 1
    else if not (m.locator_count == n.locator_count)
    then 1
    else if not (m.locators_lists.size == n.locators_lists.size)
    then 1
    else if same_lists m.locators_lists.elems n.locators_lists.elems
    then 0
    else 1

-- a mapping without locators: those of the other are not cloned, their number is
unfoldable pub mapping_clone : Mapping → Mapping
unfolding mapping_new_init
mapping_clone m = record m { locators_lists = glist_new_complete (some locator_list_cmp_afi) true }

-- The clones are new objects, numbered from `fresh` on; the list, and the next number.
unfoldable pub clone_loop : List LoctPtr → ℕ → LoctList → LoctList × ℕ
clone_loop [] fresh g = (g, fresh)
clone_loop (l ∷ ls) fresh g = clone_loop ls (fresh + 1) (glist_add (record l { at = fresh }) g).1

-- `none` is NULL, for an empty list
unfoldable pub locator_list_clone : LoctList → ℕ → Option LoctList × ℕ
unfolding clone_loop
locator_list_clone g fresh =
    if g.size == 0
    then (none, fresh)
    else (let r = clone_loop g.elems fresh (glist_new_complete (some locator_cmp_addr) true) in
        (some r.0, r.1))

abbrev pub locators_in : LoctList → List LoctPtr → ℕ
locators_in g [] = 0
locators_in g (l ∷ ls) = if lisp_addr_is_no_addr l.loct.addr then 0 else g.size

-- The loop over the lists: a list that is NULL is asked for its first locator.
unfoldable pub renew_lists : List LoctList → ℕ → Glist LoctList → ℕ → Run (Glist LoctList × ℕ)
unfolding locator_list_clone
renew_lists [] fresh to count = ok (to, count)
renew_lists (g ∷ gs) fresh to count =
    let r = locator_list_clone g fresh in
    elim r.0 [
      | none ↦ fault null_pointer
      | some h ↦ renew_lists gs r.1 (glist_add h to).1 (count + locators_in h h.elems)
    ]

unfoldable pub mapping_update_locators : Mapping → Glist LoctList → ℕ → Run Mapping
unfolding renew_lists
mapping_update_locators m lists fresh =
    renew_lists lists.elems fresh (record m.locators_lists { size = 0; elems = [] }) 0
    >>= (λ r. ok (record m { locators_lists = r.0; locator_count = r.1 % 2 ^ 16 }))
