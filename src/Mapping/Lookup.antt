-- ===== src/Mapping/Lookup.antt =====
-- lispd/liblisp/lisp_mapping.c: the list of a kind of address, and the count of locators.
use lispmob.Prelude.{
  ℕ, suc, ◌+◌, ◌^◌, ◌<◌, ◌≡◌, ◌≢◌, ◌⊎◌, inl, inr, refl, ap, ◌∙◌, arith, Bool, true, false, ◌&&◌,
  Bool-cases, Option, none, some, List, [], ◌∷◌, ◌==◌, get_elem?, take, All, ok, Returns,
}
use lispmob.Address.{
  Addr, no_addr, ip, ippref, lcaf, lisp_addr_lafi, lisp_addr_ip_afi_lcaf_type, lisp_addr_is_no_addr,
}
use lispmob.Locator.{Locator}
use lispmob.Locator.Lists.{
  LoctPtr, LoctList, Status, good, bad, err_exist, err_no_exist,
  locator_list_extract_locator_with_ptr,
}
use lispmob.Mapping.{
  Mapping, afi_verdict, lists_loop, mapping_get_loct_lst_with_afi,
  mapping_get_loct_lst_with_addr_type, keep_list, count_up, count_down, remove_from, remove_at,
  mapping_remove_locator,
}

-- The two addresses are of one kind: none, IP of one family, or LCAF of one type.
abbrev pub same_kind : Addr → Addr → Bool
same_kind a b =
    lisp_addr_lafi a == lisp_addr_lafi b
    && lisp_addr_ip_afi_lcaf_type a == lisp_addr_ip_afi_lcaf_type b

-- The list has a first locator.
abbrev pub IsFilled : LoctList → Type 0
IsFilled g = (l : LoctPtr) × (ls : List LoctPtr) × (g.elems ≡ l ∷ ls)

-- The first locator of the list is of the kind of the address, or is not.
abbrev pub IsOfKind : Bool → Addr → LoctList → Type 0
IsOfKind b addr g =
    (l : LoctPtr) × (ls : List LoctPtr) × (g.elems ≡ l ∷ ls) × (same_kind l.loct.addr addr ≡ b)

-- The first list of the kind of the address, if there is one.
abbrev pub IsFirstOfKind : Addr → List LoctList → Option ℕ → Type 0
IsFirstOfKind addr lists none = All (IsOfKind false addr) lists
IsFirstOfKind addr lists (some i) =
    ((g : LoctList) × (get_elem? lists i ≡ some g) × IsOfKind true addr g)
    × All (IsOfKind false addr) (take i lists)

afi_verdict-kind :
    (a b : Addr)
    → lisp_addr_lafi b ≢ 2
    → afi_verdict a (lisp_addr_lafi b) (lisp_addr_ip_afi_lcaf_type b) ≡ some (same_kind a b)
unfolding afi_verdict lisp_addr_lafi lisp_addr_ip_afi_lcaf_type
afi_verdict-kind no_addr no_addr h = refl
afi_verdict-kind no_addr (ip b) h = refl
afi_verdict-kind no_addr (lcaf b) h = refl
afi_verdict-kind (ip a) no_addr h = refl
afi_verdict-kind (ip a) (ip b) h = refl
afi_verdict-kind (ip a) (lcaf b) h = refl
afi_verdict-kind (ippref a n) no_addr h = refl
afi_verdict-kind (ippref a n) (ip b) h = refl
afi_verdict-kind (ippref a n) (lcaf b) h = refl
afi_verdict-kind (lcaf a) no_addr h = refl
afi_verdict-kind (lcaf a) (ip b) h = refl
afi_verdict-kind (lcaf a) (lcaf b) h = refl
afi_verdict-kind a (ippref b m) h = absurd (h refl)

abbrev Loops : Addr → List LoctList → ℕ → Type 0
Loops b lists k =
    let run = lists_loop lists (lisp_addr_lafi b) (lisp_addr_ip_afi_lcaf_type b) k in
    ((run ≡ ok none) × IsFirstOfKind b lists none)
    ⊎ ((i : ℕ) × (run ≡ ok (some (k + i))) × IsFirstOfKind b lists (some i))

loop_next :
    (b : Addr) (g : LoctList) (lists : List LoctList) (k : ℕ)
    → IsOfKind false b g
    → lists_loop (g ∷ lists) (lisp_addr_lafi b) (lisp_addr_ip_afi_lcaf_type b) k
      ≡ lists_loop lists (lisp_addr_lafi b) (lisp_addr_ip_afi_lcaf_type b) (k + 1)
    → Loops b lists (k + 1)
    → Loops b (g ∷ lists) k
loop_next b g lists k other e (inl (f, all)) = inl (e ∙ f, (other, all))
loop_next b g lists k other e (inr (i, f, (found, before))) =
    inr (suc i, e ∙ (f ∙ ap (λ n. ok (some n)) (omega arith)), (found, (other, before)))

lists_loop-Loops :
    (b : Addr) (lists : List LoctList) (k : ℕ)
    → lisp_addr_lafi b ≢ 2
    → All IsFilled lists
    → Loops b lists k
unfolding lists_loop
lists_loop-Loops b [] k h all = inl (refl, tt)
lists_loop-Loops b (g ∷ lists) k h ((l, ls, e), all) =
    let v = afi_verdict-kind l.loct.addr b h in
    elim (Bool-cases (same_kind l.loct.addr b)) [
      | inl same ↦ inr (
        0,
        rw (lists_loop, e, v, same) (ap (λ n. ok (some n)) (omega arith)),
        ((g, refl, (l, ls, e, same)), tt),
      )
      | inr other ↦
          loop_next b g lists k (l, ls, e, other) (rw (lists_loop, e, v, other) refl)
            (lists_loop-Loops b lists (k + 1) h all)
    ]

-- Where no list is empty, the search for the list of an address other than a prefix meets no NULL
-- and finds the first list whose first locator is of the kind of the address, or NULL if there is
-- none.
pub mapping_get_loct_lst-IsFirstOfKind :
    (m : Mapping) (addr : Addr)
    → All IsFilled m.locators_lists.elems
    → lisp_addr_lafi addr ≢ 2
    → Returns
        (mapping_get_loct_lst_with_addr_type m addr)
        (IsFirstOfKind addr m.locators_lists.elems)
unfolding mapping_get_loct_lst_with_addr_type mapping_get_loct_lst_with_afi
mapping_get_loct_lst-IsFirstOfKind m addr all h =
    elim (lists_loop-Loops addr m.locators_lists.elems 0 h all) [
      | inl (e, f) ↦ (none, e, f)
      | inr (i, e, f) ↦ (some i, e ∙ ap (λ n. ok (some n)) (omega arith), f)
    ]

up-down :
    (l : Locator) (m : Mapping)
    → m.locator_count < 2 ^ 16
    → (count_up l (count_down l m)).locator_count ≡ m.locator_count
unfolding count_up count_down
up-down l m h = elim (Bool-cases (lisp_addr_is_no_addr l.addr)) [
  | inl e ↦ rw e refl
  | inr e ↦ rw e (omega arith)
]

keep_list-count :
    (m : Mapping) (i : ℕ) (g : LoctList) → (keep_list m i g).locator_count ≡ m.locator_count
keep_list-count m i g = elim (Bool-cases (g.size == 0)) [ inl e ↦ rw e refl | inr e ↦ rw e refl ]

abbrev Keeps : Mapping → Status × Mapping → Type 0
Keeps m r = (r.0 ≡ good) × (r.1.locator_count ≡ m.locator_count)

remove_from-Keeps :
    (m : Mapping) (l : LoctPtr) (i : ℕ) (r : Status × LoctList)
    → m.locator_count < 2 ^ 16
    → Keeps m (remove_from m l i r)
unfolding remove_from
remove_from-Keeps m l i (good, g) h =
    let same = keep_list-count m i g in (refl, up-down l.loct (keep_list m i g) (rw same h) ∙ same)
remove_from-Keeps m l i (bad, g) h = (refl, refl)
remove_from-Keeps m l i (err_exist, g) h = (refl, refl)
remove_from-Keeps m l i (err_no_exist, g) h = (refl, refl)

removed :
    (m : Mapping) (l : LoctPtr) (o : Option ℕ)
    → m.locator_count < 2 ^ 16
    → mapping_get_loct_lst_with_addr_type m l.loct.addr ≡ ok o
    → IsFirstOfKind l.loct.addr m.locators_lists.elems o
    → Returns (mapping_remove_locator m l) (Keeps m)
unfolding mapping_remove_locator
removed m l none small e f = ((good, m), rw (mapping_remove_locator, e) refl, (refl, refl))
removed m l (some i) small e ((g, at, kind), before) =
    let r = locator_list_extract_locator_with_ptr g l in
    (
      remove_from m l i r,
      rw (mapping_remove_locator, e, at, remove_at) refl,
      remove_from-Keeps m l i r small,
    )

-- Where no list of a mapping is empty, removing a locator that is no prefix meets no NULL, answers
-- GOOD whether the locator was found or not, and leaves the count of locators as it was, because
-- what the code takes off it is added again.
pub mapping_remove_locator-count :
    (m : Mapping) (l : LoctPtr)
    → All IsFilled m.locators_lists.elems
    → lisp_addr_lafi l.loct.addr ≢ 2
    → m.locator_count < 2 ^ 16
    → Returns
        (mapping_remove_locator m l)
        (λ r. (r.0 ≡ good) × (r.1.locator_count ≡ m.locator_count))
mapping_remove_locator-count m l all h small =
    let (o, e, f) = mapping_get_loct_lst-IsFirstOfKind m l.loct.addr all h in
    removed m l o small e f
