-- ===== src/FlowBalancing/Calculate/Balanced.antt =====
-- lispd/fwd_policies/flow_balancing/flow_balancing.c: what the three vectors of a mapping are.
use mathlib.Core.List.{append-nil}
use lispmob.Prelude.{
  ℕ, min, ◌<◌, ◌≡◌, inl, inr, List, [], ◌∷◌, ◌++◌, Option, none, some, arith, ◌==◌, length, Returns,
  refl, sym, ap, subst, ◌∙◌, Bool-cases, ==→eq, ==→ne,
}
use lispmob.Locator.{Locator, unused_rloc_priority}
use lispmob.FlowBalancing.Select.{
  row_size, best, with_priority, IsBestRow, select_best-IsBestRow, best-le, best-append, best-min,
  with_priority-unused, with_priority-append, with_priority-below,
}
use lispmob.FlowBalancing.Fill.{Vector, get_hcf_locators_weight}
use lispmob.FlowBalancing.Fill.Weigh.{
  IsWeighed, IsSpread, IsWeighed-nil, get_hcf_locators_weight-IsWeighed,
  set_balancing_vector-IsSpread,
}
use lispmob.FlowBalancing.Calculate.{Half, no_half, fill_half, balance_half}

-- The locators that a list's traffic is shared among: the usable ones of the best priority.
abbrev pub best_row : List Locator → List Locator
best_row ls = with_priority (best unused_rloc_priority ls) ls

-- The vector and length `r` share the traffic among the best row of `ls`, which is not empty.
pub record IsFamilyVec (ls : List Locator) (r : Vector × ℕ) : Type 0 where
  pub total : ℕ
  pub hcf : ℕ
  pub weighed : IsWeighed (best_row ls) total hcf
  pub spread : IsSpread (best_row ls) total hcf r
  pub usable : best unused_rloc_priority ls < unused_rloc_priority
  pub nonempty : 0 < length (best_row ls)

-- A family has a vector exactly if one of its locators is usable.
abbrev pub IsFamily : List Locator → Option (Vector × ℕ) → Type 0
IsFamily ls none = best unused_rloc_priority ls ≡ unused_rloc_priority
IsFamily ls (some r) = IsFamilyVec ls r

pub record IsHalf (ls : List Locator) (h : Half) : Type 0 where
  pub priority : h.min_priority ≡ best unused_rloc_priority ls
  pub row : h.row ≡ best_row ls
  pub weighed : IsWeighed h.row h.total_weight h.hcf
  pub vec : IsFamily ls h.vec

fill_half-IsHalf :
    (ls : List Locator)
    → IsBestRow ls (best unused_rloc_priority ls, best_row ls)
    → Returns (fill_half (best unused_rloc_priority ls, best_row ls)) (IsHalf ls)
unfolding fill_half
fill_half-IsHalf ls r = elim (Bool-cases (best unused_rloc_priority ls == unused_rloc_priority)) [
  | inl e ↦
      let unused = ==→eq (best unused_rloc_priority ls) unused_rloc_priority e in
      (
        no_half,
        rw e,
        record {
          priority = sym unused;
          row = sym (rw unused (with_priority-unused ls));
          weighed = IsWeighed-nil;
          vec = unused;
        },
      )
  | inr e ↦
      let row = best_row ls in
      let w = get_hcf_locators_weight row in
      let weighed = get_hcf_locators_weight-IsWeighed row in
      let (v, run, spread) = set_balancing_vector-IsSpread row w.0 w.1 weighed in
      let usable : best unused_rloc_priority ls < unused_rloc_priority =
        omega (arith, ==→ne (best unused_rloc_priority ls) unused_rloc_priority e, r.bounded) in
      (
        record {
          min_priority = best unused_rloc_priority ls;
          row = row;
          total_weight = w.0;
          hcf = w.1;
          vec = some v;
        },
        rw (e, run),
        record {
          priority = refl;
          row = refl;
          weighed = weighed;
          vec = record {
            total = w.0;
            hcf = w.1;
            weighed = weighed;
            spread = spread;
            usable = usable;
            nonempty = r.found usable;
          };
        },
      )
]

pub balance_half-IsHalf :
    (ls : List Locator) → length ls < row_size → Returns (balance_half ls) (IsHalf ls)
unfolding balance_half best
balance_half-IsHalf [] small =
    (no_half, refl, record { priority = refl; row = refl; weighed = IsWeighed-nil; vec = refl })
balance_half-IsHalf (l ∷ ls) small =
    let all = l ∷ ls in
    let (r, run, best_r) = select_best-IsBestRow all (omega arith) small in
    let e : r ≡ (best unused_rloc_priority all, best_row all) =
      ground (arith, best_r.priority, best_r.row) in
    rw run (
      subst (λ q. Returns (fill_half q) (IsHalf all)) (sym e)
        (fill_half-IsHalf all (subst (IsBestRow all) e best_r)))

pub best-join :
    (a b : List Locator)
    → best unused_rloc_priority (a ++ b)
      ≡ min (best unused_rloc_priority a) (best unused_rloc_priority b)
best-join a b =
    let p = best unused_rloc_priority a in
    let low : min p unused_rloc_priority ≡ p = omega (arith, best-le unused_rloc_priority a) in
    best-append unused_rloc_priority a b
    ∙ ap (λ (q : ℕ). best q b) (sym low)
    ∙ best-min p unused_rloc_priority b

-- The best row of both lists together, by which of them has the better priority.
pub best_row-left :
    (a b : List Locator)
    → best unused_rloc_priority a < best unused_rloc_priority b
    → best_row (a ++ b) ≡ best_row a
best_row-left a b h =
    let p = best unused_rloc_priority a in
    let e : best unused_rloc_priority (a ++ b) ≡ p = omega (arith, best-join a b) in
    rw (e, with_priority-append p a b, with_priority-below p unused_rloc_priority b h)
      (append-nil (with_priority p a))

pub best_row-right :
    (a b : List Locator)
    → best unused_rloc_priority b < best unused_rloc_priority a
    → best_row (a ++ b) ≡ best_row b
best_row-right a b h =
    let p = best unused_rloc_priority b in
    let e : best unused_rloc_priority (a ++ b) ≡ p = omega (arith, best-join a b) in
    rw (e, with_priority-append p a b, with_priority-below p unused_rloc_priority a h)

pub best_row-both :
    (a b : List Locator)
    → best unused_rloc_priority a ≡ best unused_rloc_priority b
    → best_row (a ++ b) ≡ best_row a ++ best_row b
best_row-both a b h =
    let p = best unused_rloc_priority a in
    let e : best unused_rloc_priority (a ++ b) ≡ p = omega (arith, best-join a b) in
    rw (e, with_priority-append p a b, ← h)
