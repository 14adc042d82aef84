-- ===== src/Mapping.antt =====
-- lispd/liblisp/lisp_mapping.c: a mapping and the lists of its locators, one for each kind of
-- address. A list stands in the list of lists once, so its place there is its pointer.
pub mod Lookup
pub mod Compare
mod Tests
use lispmob.Prelude.{
  ℕ, zero, suc, ◌+◌, ◌-◌, ◌%◌, ◌^◌, Bool, true, false, not, ◌&&◌, ◌||◌, Option, none, some, List,
  [], ◌∷◌, ◌++◌, ltb, ◌==◌, if◌then◌else◌, get_elem?, set, take, drop, Run, ok, fault, null_pointer,
  ◌>>=◌,
}
use lispmob.Address.{
  Addr, no_addr, ip, ippref, lcaf, Cmp, unsupported, is_equal, ip_addr_afi, lcaf_type,
  lisp_addr_lafi, lisp_addr_is_no_addr, lisp_addr_cmp, lisp_addr_cmp_afi,
  lisp_addr_ip_afi_lcaf_type,
}
use lispmob.Locator.{Locator}
use lispmob.Locator.Lists.{
  LoctPtr, LoctList, Status, good, bad, err_exist, err_no_exist, locator_cmp_addr, same_ptr,
  locator_list_cmp_afi, locator_list_extract_locator_with_addr, locator_list_get_locator_with_addr,
  locator_list_extract_locator_with_ptr,
}
use lispmob.Prefixes.{lisp_addr_ip_to_ippref}
use lispmob.Glist.{
  Glist, glist_new_complete, glist_add, glist_contain, glist_remove_obj_with_ptr, take_first,
}

-- `mapping_t`
pub record Mapping : Type 0 where
  pub eid_prefix : Addr
  pub locator_count : ℕ
  pub locators_lists : Glist LoctList
  pub ttl : ℕ
  pub action : ℕ
  pub authoritative : ℕ

unfoldable pub mapping_new_init : Addr → Mapping
mapping_new_init eid = record {
  eid_prefix = elim eid [ ip a ↦ lisp_addr_ip_to_ippref (ip a) | e ↦ e ];
  locator_count = 0;
  locators_lists = glist_new_complete (some locator_list_cmp_afi) true;
  ttl = 0;
  action = 0;
  authoritative = 0;
}

-- The test of the first address of a list; `none` ends the search with NULL.
unfoldable pub afi_verdict : Addr → ℕ → ℕ → Option Bool
afi_verdict no_addr lafi afi = some (lafi == 0)
afi_verdict (ip a) lafi afi = some (lafi == 1 && ip_addr_afi a == afi)
afi_verdict (ippref a n) lafi afi = if lafi == 2 then none else some false
afi_verdict (lcaf l) lafi afi = some (lafi == 3 && lcaf_type l == afi)

-- The loop over the lists, from place `at` on. The first entry of an empty list is the head, whose
-- pointer is NULL.
unfoldable pub lists_loop : List LoctList → ℕ → ℕ → ℕ → Run (Option ℕ)
unfolding afi_verdict
lists_loop [] lafi afi at = ok none
lists_loop (g ∷ lists) lafi afi at =
    let rest = lists_loop lists lafi afi (at + 1) in
    elim g.elems [
      | [] ↦ fault null_pointer
      | l ∷ ls ↦ elim (afi_verdict l.loct.addr lafi afi) [
        | none ↦ ok none
        | some v ↦ if v then ok (some at) else rest
      ]
    ]

-- the place of the list, `none` for NULL
unfoldable pub mapping_get_loct_lst_with_afi : Mapping → ℕ → ℕ → Run (Option ℕ)
unfolding lists_loop
mapping_get_loct_lst_with_afi m lafi afi = lists_loop m.locators_lists.elems lafi afi 0

unfoldable pub mapping_get_loct_lst_with_addr_type : Mapping → Addr → Run (Option ℕ)
unfolding mapping_get_loct_lst_with_afi
mapping_get_loct_lst_with_addr_type m addr =
    mapping_get_loct_lst_with_afi m (lisp_addr_lafi addr) (lisp_addr_ip_afi_lcaf_type addr)

-- the list at a place
abbrev pub list_at : Mapping → Option ℕ → Option LoctList
list_at m none = none
list_at m (some i) = get_elem? m.locators_lists.elems i

unfoldable pub mapping_get_loct_with_addr : Mapping → Addr → Run (Option LoctPtr)
unfolding mapping_get_loct_lst_with_addr_type
mapping_get_loct_with_addr m addr = mapping_get_loct_lst_with_addr_type m addr >>= (λ i.
    elim (list_at m i) [ none ↦ ok none | some g ↦ ok (locator_list_get_locator_with_addr g addr) ])

unfoldable pub any_ptr : LoctPtr → List LoctPtr → Bool
any_ptr l [] = false
any_ptr l (x ∷ xs) = if same_ptr l x then true else any_ptr l xs

unfoldable pub mapping_has_locator : Mapping → LoctPtr → Run Bool
unfolding mapping_get_loct_lst_with_addr_type
mapping_has_locator m l = mapping_get_loct_lst_with_addr_type m l.loct.addr >>= (λ i.
    elim (list_at m i) [
      | none ↦ ok false
      | some g ↦ ok (if g.size == 0 then false else any_ptr l g.elems)
    ])

abbrev pub put_list : Mapping → ℕ → LoctList → Mapping
put_list m i g = record m {
  locators_lists = record (m.locators_lists) { elems = set m.locators_lists.elems i g };
}

-- `glist_remove_obj_with_ptr` of the list at place `i` of the list of lists
abbrev pub drop_list : Mapping → ℕ → Mapping
drop_list m i = record m {
  locators_lists = record (m.locators_lists) {
    size = m.locators_lists.size - 1;
    elems = take i m.locators_lists.elems ++ drop (i + 1) m.locators_lists.elems;
  };
}

-- the list with the change, taken out if it is empty
abbrev pub keep_list : Mapping → ℕ → LoctList → Mapping
keep_list m i g = if g.size == 0 then drop_list m i else put_list m i g

-- `locator_count++` on 16 bits, for a locator that has an address
unfoldable pub count_up : Locator → Mapping → Mapping
count_up l m =
    if lisp_addr_is_no_addr l.addr
    then m
    else record m { locator_count = (m.locator_count + 1) % 2 ^ 16 }

unfoldable pub count_down : Locator → Mapping → Mapping
count_down l m =
    if lisp_addr_is_no_addr l.addr
    then m
    else record m { locator_count = (m.locator_count + 2 ^ 16 - 1) % 2 ^ 16 }

-- the first locator of its kind
unfoldable pub add_first : Mapping → LoctPtr → Status × Mapping
unfolding count_up
add_first m l =
    let g = (glist_add l (glist_new_complete (some locator_cmp_addr) true)).1 in
    let r = glist_add g m.locators_lists in
    if r.0 then (good, count_up l.loct (record m { locators_lists = r.1 })) else (bad, m)

-- the locator already in the list gives way to one of a better priority
unfoldable pub add_again :
    Mapping → ℕ → LoctList → LoctPtr → Option LoctPtr → Run (Status × Mapping)
add_again m i g l none = fault null_pointer
add_again m i g l (some aux) =
    if ltb l.loct.priority aux.loct.priority
    then (let r = glist_add l (glist_remove_obj_with_ptr same_ptr aux g).1 in
        ok (if r.0 then good else bad, put_list m i r.1))
    else ok (err_exist, m)

unfoldable pub add_new : Mapping → ℕ → LoctList → LoctPtr → Status × Mapping
unfolding count_up
add_new m i g l =
    let r = glist_add l g in
    if r.0 then (good, count_up l.loct (put_list m i r.1)) else (bad, keep_list m i r.1)

unfoldable pub add_to : Mapping → LoctPtr → Option ℕ → Run (Status × Mapping)
unfolding add_first add_again add_new
add_to m l none = ok (add_first m l)
add_to m l (some i) = elim (list_at m (some i)) [
  | none ↦ ok (add_first m l)
  | some g ↦
      if glist_contain same_ptr l g
      then mapping_get_loct_with_addr m l.loct.addr >>= (λ aux. add_again m i g l aux)
      else ok (add_new m i g l)
]

unfoldable pub mapping_add_locator : Mapping → LoctPtr → Run (Status × Mapping)
unfolding add_to
mapping_add_locator m l = mapping_get_loct_lst_with_addr_type m l.loct.addr >>= (λ i. add_to m l i)

-- what is done with the answer of the extraction; the count goes down and up again
unfoldable pub remove_from : Mapping → LoctPtr → ℕ → Status × LoctList → Status × Mapping
unfolding count_up count_down
remove_from m l i (good, g) = (good, count_up l.loct (count_down l.loct (keep_list m i g)))
remove_from m l i (s, g) = (good, m)

unfoldable pub remove_at : Mapping → LoctPtr → ℕ → Option LoctList → Run (Status × Mapping)
unfolding remove_from
remove_at m l i none = ok (good, m)
remove_at m l i (some g) = ok (remove_from m l i (locator_list_extract_locator_with_ptr g l))

unfoldable pub mapping_remove_locator : Mapping → LoctPtr → Run (Status × Mapping)
unfolding remove_at
mapping_remove_locator m l =
    mapping_get_loct_lst_with_addr_type m l.loct.addr
    >>= (λ i. elim i [ none ↦ ok (good, m) | some j ↦ remove_at m l j (list_at m (some j)) ])

-- the locator of an address is taken out and put in again, in its place after a change
unfoldable pub sort_list : Mapping → ℕ → Option LoctPtr × LoctList → Status × Mapping
sort_list m i (none, g) = (bad, m)
sort_list m i (some l, g) = let r = glist_add l g in (if r.0 then good else bad, put_list m i r.1)

unfoldable pub mapping_sort_locators : Mapping → Addr → Run (Status × Mapping)
unfolding sort_list
mapping_sort_locators m addr = mapping_get_loct_lst_with_addr_type m addr >>= (λ i. elim i [
  | none ↦ ok (bad, m)
  | some j ↦ elim (list_at m (some j)) [
    | none ↦ ok (bad, m)
    | some g ↦ ok (sort_list m j (locator_list_extract_locator_with_addr g addr))
  ]
])

-- The locator, which had no address, gets one.
unfoldable pub mapping_activate_locator : Mapping → LoctPtr → Addr → Run (Status × Mapping)
unfolding mapping_add_locator mapping_remove_locator
mapping_activate_locator m l new_addr = mapping_get_loct_lst_with_afi m 0 0 >>= (λ i. elim i [
  | none ↦ ok (bad, m)
  | some j ↦
      mapping_remove_locator m l
      >>= (λ r. mapping_add_locator r.1 (record l { loct = record (l.loct) { addr = new_addr } }))
])
