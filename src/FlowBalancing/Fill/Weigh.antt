-- ===== src/FlowBalancing/Fill/Weigh.antt =====
-- lispd/fwd_policies/flow_balancing/flow_balancing.c: the weights of a row, and the vector that they give.
use native.Mathlib.Nat.{
  dvd_refl, dvd-zero, dvd_trans, dvd-add, div-mul_cancel, eq_of_mul-eq-mul_right,
}
use lispmob.Prelude.{
  ℕ, zero, suc, ◌+◌, ◌*◌, ◌/◌, ◌<◌, ◌∣◌, ◌≡◌, ◌⊎◌, inl, inr, false, List, [], ◌∷◌, ◌++◌, map, some,
  refl, ◌∙◌, sym, subst, not, ◌&&◌, arith, ◌==◌, length, All, All-append, length-append,
  length-replicate, Returns, ne→==,
}
use lispmob.Locator.{Locator}
use lispmob.FlowBalancing.Hcf.{
  highest_common_factor, IsHcf, highest_common_factor-IsHcf, highest_common_factor_pos,
}
use lispmob.FlowBalancing.Fill.{
  Vector, hcf_weight_loop, get_hcf_locators_weight, used_pos, vector_length, shares, fill_loop_lem,
  set_balancing_vector,
}

abbrev pub total_of : List Locator → ℕ
total_of [] = 0
total_of (l ∷ ls) = l.weight + total_of ls

-- `total` is the sum of the weights of the row and `hcf` their highest common factor, which is
-- not 0 unless all weights are.
pub record IsWeighed (row : List Locator) (total hcf : ℕ) : Type 0 where
  pub sum : total ≡ total_of row
  pub divides : All (λ l. hcf ∣ l.weight) row
  pub greatest : (k : ℕ) → All (λ l. k ∣ l.weight) row → k ∣ hcf
  pub positive : 0 < total → 0 < hcf

pub IsWeighed-nil : IsWeighed [] 0 0
IsWeighed-nil = record {
  sum = refl;
  divides = tt;
  greatest = λ k all. dvd-zero k;
  positive = λ p. p;
}

All-dvd :
    (h k : ℕ) (ls : List Locator) → h ∣ k → All (λ l. k ∣ l.weight) ls → All (λ l. h ∣ l.weight) ls
All-dvd h k [] d all = tt
All-dvd h k (l ∷ ls) d all = (dvd_trans h d all.0, All-dvd h k ls d all.1)

record Weighs (ls : List Locator) (w h : ℕ) (r : ℕ × ℕ) : Type 0 where
  sum : r.0 ≡ w + total_of ls
  start : r.1 ∣ h
  divides : All (λ l. r.1 ∣ l.weight) ls
  greatest : (k : ℕ) → k ∣ h → All (λ l. k ∣ l.weight) ls → k ∣ r.1
  positive : (0 < h) ⊎ (0 < total_of ls) → 0 < r.1

weight_pos :
    (h v rest : ℕ) {d : ℕ}
    → 0 < v + rest
    → ((0 < highest_common_factor h v) ⊎ (0 < rest) → 0 < d)
    → 0 < d
weight_pos h zero rest q f = f (inr (omega arith))
weight_pos h (suc v) rest q f = f (inl (highest_common_factor_pos h (suc v) (inr (omega arith))))

hcf_weight_loop-Weighs : (ls : List Locator) (w h : ℕ) → Weighs ls w h (hcf_weight_loop ls w h)
unfolding hcf_weight_loop
hcf_weight_loop-Weighs [] w h = record {
  sum = omega arith;
  start = dvd_refl h;
  divides = tt;
  greatest = λ k d all. d;
  positive = λ p. omega arith;
}
hcf_weight_loop-Weighs (l ∷ ls) w h =
    let v = l.weight in
    let g = highest_common_factor-IsHcf h v in
    let ih = hcf_weight_loop-Weighs ls (w + v) (highest_common_factor h v) in
    let r = hcf_weight_loop ls (w + v) (highest_common_factor h v) in
    record {
      sum = omega (arith, ih.sum);
      start = dvd_trans r.1 ih.start g.left;
      divides = (dvd_trans r.1 ih.start g.right, ih.divides);
      greatest = λ k d all. ih.greatest k (g.greatest k d all.0) all.1;
      positive = λ p. elim p [
        | inl q ↦ ih.positive (inl (highest_common_factor_pos h v (inl q)))
        | inr q ↦ weight_pos h v (total_of ls) q ih.positive
      ];
    }

-- `get_hcf_locators_weight` computes the sum of the weights of a row and their greatest common
-- divisor.
pub get_hcf_locators_weight-IsWeighed :
    (row : List Locator)
    → IsWeighed row (get_hcf_locators_weight row).0 (get_hcf_locators_weight row).1
unfolding get_hcf_locators_weight
get_hcf_locators_weight-IsWeighed [] = IsWeighed-nil
get_hcf_locators_weight-IsWeighed (l ∷ ls) =
    let w = hcf_weight_loop-Weighs (l ∷ ls) 0 l.weight in
    record {
      sum = omega (arith, w.sum);
      divides = w.divides;
      greatest = λ k all. w.greatest k all.0 all;
      positive = λ p. w.positive (inr (omega (arith, w.sum)));
    }

total_of-append : (a b : List Locator) → total_of (a ++ b) ≡ total_of a + total_of b
total_of-append [] b = omega arith
total_of-append (l ∷ a) b = omega (arith, total_of-append a b)

All-split :
    (k : ℕ) (a b : List Locator)
    → All (λ l. k ∣ l.weight) (a ++ b)
    → All (λ l. k ∣ l.weight) a × All (λ l. k ∣ l.weight) b
All-split k [] b all = (tt, all)
All-split k (l ∷ a) b all = let (left, right) = All-split k a b all.1 in ((all.0, left), right)

positive_parts :
    (t u h k : ℕ) → 0 < t + u → (0 < t → 0 < h) → (0 < u → 0 < k) → 0 < highest_common_factor h k
positive_parts zero u h k p f g = highest_common_factor_pos h k (inr (g (omega arith)))
positive_parts (suc t) u h k p f g = highest_common_factor_pos h k (inl (f (omega arith)))

-- Two rows weighed apart and joined: the totals add, and the factors have a common one.
pub IsWeighed-append :
    (a b : List Locator) {t u h k : ℕ}
    → IsWeighed a t h
    → IsWeighed b u k
    → IsWeighed (a ++ b) (t + u) (highest_common_factor h k)
IsWeighed-append a b {t} {u} {h} {k} x y = record {
  sum = omega (arith, x.sum, y.sum, total_of-append a b);
  divides = All-append _ a b (All-dvd d h a g.left x.divides) (All-dvd d k b g.right y.divides);
  greatest = λ e all.
      let (left, right) = All-split e a b all in
      g.greatest e (x.greatest e left) (y.greatest e right);
  positive = λ p. positive_parts t u h k p x.positive y.positive;
}
  where
    d : ℕ
    d = highest_common_factor h k

    g : IsHcf h k d
    g = highest_common_factor-IsHcf h k

-- The vector of a row: every position holds a locator, the reserved length is filled exactly, each
-- locator has the share of its weight, and a row that is not empty has a vector that is not.
pub record IsSpread (row : List Locator) (total hcf : ℕ) (r : Vector × ℕ) : Type 0 where
  pub cells : r.0 ≡ map some (shares total hcf row)
  pub filled : length (shares total hcf row) ≡ r.1
  pub proportional : 0 < total → All (λ l. used_pos total hcf l * hcf ≡ l.weight) row
  pub nonempty : 0 < length row → 0 < r.1

module _ (h : ℕ) (pos : 0 < h) where
  -- Shares of the weights take `total / hcf` positions together.
  length-shares_weighted :
      (total : ℕ) (ls : List Locator)
      → 0 < total
      → All (λ l. h ∣ l.weight) ls
      → length (shares total h ls) * h ≡ total_of ls
  length-shares_weighted total [] p all = omega arith
  length-shares_weighted total (l ∷ ls) p all =
      rw (ne→== total 0 (omega arith), length-append, length-replicate)
        (omega (arith, div-mul_cancel h all.0, length-shares_weighted total ls p all.1))

  proportional_weighted :
      (total : ℕ) (ls : List Locator)
      → 0 < total
      → All (λ l. h ∣ l.weight) ls
      → All (λ l. used_pos total h l * h ≡ l.weight) ls
  proportional_weighted total [] p all = tt
  proportional_weighted total (l ∷ ls) p all = (
    rw (ne→== total 0 (omega arith)) (div-mul_cancel h all.0),
    proportional_weighted total ls p all.1,
  )

length-shares_even : (h : ℕ) (ls : List Locator) → length (shares 0 h ls) ≡ length ls
length-shares_even h [] = refl
length-shares_even h (l ∷ ls) = omega (arith, length-shares_even h ls)

dvd-total_of : (h : ℕ) (ls : List Locator) → All (λ l. h ∣ l.weight) ls → h ∣ total_of ls
dvd-total_of h [] all = dvd-zero h
dvd-total_of h (l ∷ ls) all = dvd-add h all.0 (dvd-total_of h ls all.1)

quotient_pos : (q h t : ℕ) → q * h ≡ suc t → 0 < q
quotient_pos zero h t e = absurd (omega arith)
quotient_pos (suc q) h t e = omega arith

length-shares :
    (row : List Locator) (total h : ℕ)
    → IsWeighed row total h
    → length (shares total h row) ≡ vector_length row total h
length-shares row zero h w = length-shares_even h row
length-shares row (suc t) h w =
    let pos = w.positive (omega arith) in
    let whole : h ∣ suc t = subst (λ n. h ∣ n) (sym w.sum) (dvd-total_of h row w.divides) in
    rw (ne→== (suc t) 0 (omega arith)) (
      eq_of_mul-eq-mul_right h pos (length (shares (suc t) h row)) (suc t / h) (
        length-shares_weighted h pos (suc t) row (omega arith) w.divides
        ∙ sym w.sum
        ∙ sym (div-mul_cancel h whole)))

vector_length_pos :
    (row : List Locator) (total h : ℕ)
    → IsWeighed row total h
    → 0 < length row
    → 0 < vector_length row total h
vector_length_pos row zero h w p = p
vector_length_pos row (suc t) h w p =
    let pos = w.positive (omega arith) in
    let whole : h ∣ suc t = subst (λ n. h ∣ n) (sym w.sum) (dvd-total_of h row w.divides) in
    rw (ne→== (suc t) 0 (omega arith)) (quotient_pos (suc t / h) h t (div-mul_cancel h whole))

proportional :
    (row : List Locator) (total h : ℕ)
    → IsWeighed row total h
    → 0 < total
    → All (λ l. used_pos total h l * h ≡ l.weight) row
proportional row total h w p = proportional_weighted h (w.positive p) total row p w.divides

no_division_by_zero :
    (row : List Locator) (total h : ℕ)
    → IsWeighed row total h
    → (not (total == 0) && h == 0) ≡ false
no_division_by_zero row total h w = ground (arith, w.positive)

-- `set_balancing_vector` on the weights of a row divides by no zero, writes inside the vector that
-- it has reserved and leaves no position of it unwritten; each locator takes the positions of its
-- share, and a row that is not empty gives a vector that is not.
pub set_balancing_vector-IsSpread :
    (row : List Locator) (total h : ℕ)
    → IsWeighed row total h
    → Returns (set_balancing_vector row total h) (IsSpread row total h)
unfolding set_balancing_vector
set_balancing_vector-IsSpread row total h w =
    let filled = length-shares row total h w in
    (
      (map some (shares total h row), vector_length row total h),
      rw (no_division_by_zero row total h w, ← filled, fill_loop_lem total h row []),
      record {
        cells = refl;
        filled = filled;
        proportional = proportional row total h w;
        nonempty = vector_length_pos row total h w;
      },
    )
