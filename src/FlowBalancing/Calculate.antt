-- ===== src/FlowBalancing/Calculate.antt =====
-- lispd/fwd_policies/flow_balancing/flow_balancing.c `fb_locators_classify_in_4_6` and
-- `balancing_vectors_calculate`. A vector pointer is `none` for NULL, and a pointer to the vector
-- of one family a copy of it.
pub mod Balanced
pub mod Joint
use lispmob.Prelude.{
  ℕ, ◌+◌, Bool, true, false, not, List, [], ◌∷◌, ◌++◌, Option, none, some, ltb, ◌==◌, if◌then◌else◌,
  length, Run, ok, fault, out_of_bounds, ◌>>=◌,
}
use lispmob.Address.{Addr, af_inet, lisp_addr_is_no_addr, lisp_addr_ip_afi}
use lispmob.Locator.{Locator, unused_rloc_priority}
use lispmob.FlowBalancing.Address.{fb_lisp_addr_get_fwd_ip_addr}
use lispmob.FlowBalancing.Hcf.{highest_common_factor}
use lispmob.FlowBalancing.Select.{row_size, select_best_priority_locators}
use lispmob.FlowBalancing.Fill.{Vector, get_hcf_locators_weight, set_balancing_vector}

-- The two lists without a comparison function, to whose front `glist_add` adds.
abbrev pub Families : Type 0
Families = List Locator × List Locator

unfoldable pub classify_one : Locator → Option Addr → Families → Families
classify_one l none f = f
classify_one l (some a) f = if lisp_addr_ip_afi a == af_inet then (l ∷ f.0, f.1) else (f.0, l ∷ f.1)

-- a list is skipped if it is empty or of locators with no address
unfoldable pub is_skipped : List Locator → Bool
is_skipped [] = true
is_skipped (l ∷ ls) = lisp_addr_is_no_addr l.addr

module _ (rlocs : List Addr) where
  unfoldable pub classify_list : List Locator → Families → Run Families
  classify_list [] f = ok f
  classify_list (l ∷ ls) f =
      fb_lisp_addr_get_fwd_ip_addr rlocs l.addr >>= (λ a. classify_list ls (classify_one l a f))

  unfoldable pub fb_locators_classify_in_4_6 : List (List Locator) → Families → Run Families
  fb_locators_classify_in_4_6 [] f = ok f
  fb_locators_classify_in_4_6 (ls ∷ lists) f =
      (if is_skipped ls then ok f else classify_list ls f)
      >>= (λ g. fb_locators_classify_in_4_6 lists g)

-- What the function computes for one family: `min_priority`, `locators`, `total_weight`, `hcf`
-- and the vector with its length.
pub record Half : Type 0 where
  pub min_priority : ℕ
  pub row : List Locator
  pub total_weight : ℕ
  pub hcf : ℕ
  pub vec : Option (Vector × ℕ)

abbrev pub no_half : Half
no_half = record {
  min_priority = unused_rloc_priority;
  row = [];
  total_weight = 0;
  hcf = 0;
  vec = none;
}

unfoldable pub fill_half : ℕ × List Locator → Run Half
fill_half r =
    if r.0 == unused_rloc_priority
    then ok no_half
    else (let w = get_hcf_locators_weight r.1 in
        set_balancing_vector r.1 w.0 w.1 >>= (λ v.
          ok (record {
            min_priority = r.0;
            row = r.1;
            total_weight = w.0;
            hcf = w.1;
            vec = some v;
          })))

unfoldable pub balance_half : List Locator → Run Half
unfolding fill_half
balance_half [] = ok no_half
balance_half (l ∷ ls) = select_best_priority_locators (l ∷ ls) >>= (λ r. fill_half r)

-- The copy of both rows into `locators[2]`, which is an array of 33 pointers too.
unfoldable pub join_rows : List Locator → List Locator → Run (List Locator)
join_rows a b = if ltb (length a + length b) row_size then ok (a ++ b) else fault out_of_bounds

unfoldable pub join_halves : Half → Half → Run (Option (Vector × ℕ))
join_halves a b =
    if ltb a.min_priority b.min_priority
    then ok a.vec
    else (if ltb b.min_priority a.min_priority
        then ok b.vec
        else (join_rows a.row b.row >>= (λ row.
            set_balancing_vector row (a.total_weight + b.total_weight)
              (highest_common_factor a.hcf b.hcf)
            >>= (λ v. ok (some v)))))

-- the joint vector, where both families have one
unfoldable pub balance_both : Half → Half → Run (Option (Vector × ℕ))
unfolding join_halves
balance_both a b = elim a.vec [
  | none ↦ ok none
  | some v ↦ elim b.vec [ none ↦ ok none | some w ↦ join_halves a b ]
]

-- `balancing_locators_vecs`, each vector with its length
pub record BalancingLocatorsVecs : Type 0 where
  pub v4_vec : Option (Vector × ℕ)
  pub v6_vec : Option (Vector × ℕ)
  pub both_vec : Option (Vector × ℕ)

unfoldable pub balance_families : Families → Run BalancingLocatorsVecs
balance_families f = balance_half f.0 >>= (λ a. balance_half f.1 >>= (λ b.
    balance_both a b >>= (λ v. ok (record { v4_vec = a.vec; v6_vec = b.vec; both_vec = v }))))

-- What stood in the vectors before is freed and overwritten.
unfoldable pub balancing_vectors_calculate :
    List Addr → List (List Locator) → Run BalancingLocatorsVecs
balancing_vectors_calculate rlocs lists =
    fb_locators_classify_in_4_6 rlocs lists ([], []) >>= (λ f. balance_families f)
