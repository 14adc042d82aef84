-- ===== src/FlowBalancing/Fill.antt =====
-- lispd/fwd_policies/flow_balancing/flow_balancing.c `get_hcf_locators_weight` and
-- `set_balancing_vector`: the vector in which each locator of a row stands as often as its weight
-- asks. A position that `xmalloc` has reserved and nothing has written is `none`.
pub mod Weigh
use native.Mathlib.Nat.{
  dvd_refl, dvd-zero, dvd_trans, dvd-add, div-mul_cancel, div-add-mod, zero-div,
}
use mathlib.Core.List.{append-nil, append_assoc, map-append}
use lispmob.Prelude.{
  ℕ, zero, suc, ◌+◌, ◌*◌, ◌/◌, ◌<◌, ◌≤◌, ◌∣◌, ◌≡◌, ◌⊎◌, inl, inr, ◌≢◌, Bool, true, false, List, [],
  ◌∷◌, ◌++◌, map, Option, none, some, Bool-cases, refl, ap, ◌∙◌, not, ◌&&◌, arith, ltb, ◌==◌,
  if◌then◌else◌, ==→eq, ==→ne, length, All, set, replicate, length-append, length-replicate, Run,
  ok, fault, out_of_bounds, division_by_zero, ◌>>=◌, Returns,
}
use lispmob.Locator.{Locator}
use lispmob.FlowBalancing.Hcf.{
  highest_common_factor, highest_common_factor-IsHcf, highest_common_factor_pos,
}

abbrev pub Vector : Type 0
Vector = List (Option Locator)

hcf_weight_loop : List Locator → ℕ → ℕ → ℕ × ℕ
hcf_weight_loop [] weight hcf = (weight, hcf)
hcf_weight_loop (l ∷ ls) weight hcf =
    hcf_weight_loop ls (weight + l.weight) (highest_common_factor hcf l.weight)

-- the total weight and the highest common factor of a row
pub get_hcf_locators_weight : List Locator → ℕ × ℕ
unfolding hcf_weight_loop
get_hcf_locators_weight [] = (0, 0)
get_hcf_locators_weight (l ∷ ls) = hcf_weight_loop (l ∷ ls) 0 l.weight

-- `for (ctr1 = 0; ctr1 < used_pos; ctr1++)`, on the rounds left
fill_positions : ℕ → Locator → ℕ → Vector → Run (ℕ × Vector)
fill_positions zero l pos vec = ok (pos, vec)
fill_positions (suc n) l pos vec =
    if ltb pos (length vec)
    then fill_positions n l (pos + 1) (set vec pos (some l))
    else fault out_of_bounds

-- the positions of a locator: its share of the weights, or one each where all weights are 0
abbrev pub used_pos : ℕ → ℕ → Locator → ℕ
used_pos total_weight hcf l = if total_weight == 0 then 1 else l.weight / hcf

fill_loop : ℕ → ℕ → List Locator → ℕ → Vector → Run Vector
unfolding fill_positions
fill_loop total_weight hcf [] pos vec = ok vec
fill_loop total_weight hcf (l ∷ ls) pos vec =
    fill_positions (used_pos total_weight hcf l) l pos vec
    >>= (λ r. fill_loop total_weight hcf ls r.0 r.1)

abbrev pub vector_length : List Locator → ℕ → ℕ → ℕ
vector_length row total_weight hcf = if total_weight == 0 then length row else total_weight / hcf

-- The vector and its length. The divisions fault if `hcf` is 0 under a total that is not.
pub set_balancing_vector : List Locator → ℕ → ℕ → Run (Vector × ℕ)
set_balancing_vector row total_weight hcf =
    if not (total_weight == 0) && hcf == 0
    then fault division_by_zero
    else (fill_loop total_weight hcf row 0 (replicate (vector_length row total_weight hcf) none)
        >>= (λ vec. ok (vec, vector_length row total_weight hcf)))

-- What the vector is meant to hold: each locator of the row in its own positions, in order.
abbrev pub shares : ℕ → ℕ → List Locator → List Locator
shares total_weight hcf [] = []
shares total_weight hcf (l ∷ ls) =
    replicate (used_pos total_weight hcf l) l ++ shares total_weight hcf ls

module _ {A : Type 0} where
  set-append : (xs ys : List A) (a b : A) → set (xs ++ a ∷ ys) (length xs) b ≡ xs ++ b ∷ ys
  set-append [] ys a b = refl
  set-append (x ∷ xs) ys a b = ap (λ zs. x ∷ zs) (set-append xs ys a b)

  replicate-add : (n k : ℕ) (a : A) → replicate (n + k) a ≡ replicate n a ++ replicate k a
  replicate-add zero k a = let e : zero + k ≡ k = omega arith in rw e
  replicate-add (suc n) k a =
      let e : suc n + k ≡ suc (n + k) = omega arith in rw (e, replicate-add n k a)

map-replicate : (n : ℕ) (l : Locator) → map some (replicate n l) ≡ replicate n (some l)
map-replicate zero l = refl
map-replicate (suc n) l = ap (λ zs. some l ∷ zs) (map-replicate n l)

-- Written positions `xs`, then `n` and `rest` positions that are not: the loop writes the next `n`.
fill_positions_lem :
    (n : ℕ) (l : Locator) (xs rest : Vector)
    → fill_positions n l (length xs) (xs ++ (replicate n none ++ rest))
      ≡ ok (length xs + n, xs ++ (replicate n (some l) ++ rest))
unfolding fill_positions
fill_positions_lem zero l xs rest = ground arith
fill_positions_lem (suc n) l xs rest =
    let tail = replicate n none ++ rest in
    let inside : ltb (length xs) (length (xs ++ none ∷ tail)) ≡ true =
      ground (arith, length-append xs (none ∷ tail)) in
    let more = fill_positions_lem n l (xs ++ some l ∷ []) rest in
    rw (inside, set-append)
      (ground (
        arith,
        more,
        length-append xs (some l ∷ []),
        append_assoc xs (some l ∷ []) tail,
        append_assoc xs (some l ∷ []) (replicate n (some l) ++ rest),
      ))

fill_loop_lem :
    (total hcf : ℕ) (row : List Locator) (xs : Vector)
    → fill_loop total hcf row (length xs) (xs ++ replicate (length (shares total hcf row)) none)
      ≡ ok (xs ++ map some (shares total hcf row))
unfolding fill_loop
fill_loop_lem total hcf [] xs = refl
fill_loop_lem total hcf (l ∷ ls) xs =
    let u = used_pos total hcf l in
    let ih = fill_loop_lem total hcf ls (xs ++ replicate u (some l)) in
    rw
      (
        length-append, length-replicate, replicate-add, fill_positions_lem, map-append,
        map-replicate,
      )
      (simp (length-append, length-replicate, append_assoc) at ih)
