-- ===== src/FlowBalancing/Calculate/Joint.antt =====
-- lispd/fwd_policies/flow_balancing/flow_balancing.c `balancing_vectors_calculate`: the joint vector.
use lispmob.Prelude.{
  ℕ, ◌+◌, ◌<◌, ◌≤◌, ◌≡◌, true, false, List, ◌++◌, Option, none, some, arith, ltb, ◌==◌, ◌&&◌,
  length, length-append, length-filter-le, ok, fault, out_of_bounds, Returns, refl, sym, subst, ap,
  ◌∙◌, Bool-cases, inl, inr, lt→ltb, ge→ltb, ltb→lt, ltb→ge, Option-cases,
}
use lispmob.Locator.{Locator, unused_rloc_priority}
use lispmob.FlowBalancing.Hcf.{highest_common_factor}
use lispmob.FlowBalancing.Select.{row_size, best, is_usable}
use lispmob.FlowBalancing.Fill.{Vector}
use lispmob.FlowBalancing.Fill.Weigh.{
  IsWeighed, IsSpread, IsWeighed-append, set_balancing_vector-IsSpread,
}
use lispmob.FlowBalancing.Calculate.{
  Half, join_rows, join_halves, balance_both, BalancingLocatorsVecs, balance_families,
}
use lispmob.FlowBalancing.Calculate.Balanced.{
  best_row, IsFamilyVec, IsFamily, IsHalf, balance_half-IsHalf, best-join, best_row-left,
  best_row-right, best_row-both,
}

-- The joint vector is there exactly if both families have one, and is the vector of the list of
-- all locators.
abbrev pub IsJoint :
    List Locator → Option (Vector × ℕ) → Option (Vector × ℕ) → Option (Vector × ℕ) → Type 0
IsJoint ls none w r = r ≡ none
IsJoint ls (some v) none r = r ≡ none
IsJoint ls (some v) (some w) none = ⊥
IsJoint ls (some v) (some w) (some r) = IsFamilyVec ls r

IsFamilyVec-transfer :
    {a c : List Locator} {v : Vector × ℕ}
    → best_row c ≡ best_row a
    → best unused_rloc_priority c < unused_rloc_priority
    → IsFamilyVec a v
    → IsFamilyVec c v
IsFamilyVec-transfer {a} {c} {v} e u f = record {
  total = f.total;
  hcf = f.hcf;
  weighed = subst (λ row. IsWeighed row f.total f.hcf) (sym e) f.weighed;
  spread = subst (λ row. IsSpread row f.total f.hcf v) (sym e) f.spread;
  usable = u;
  nonempty = subst (λ row. 0 < length row) (sym e) f.nonempty;
}

module _ (a b : List Locator) (x y : Half) (hx : IsHalf a x) (hy : IsHalf b y) (v w : Vector × ℕ)
    (ex : x.vec ≡ some v) (ey : y.vec ≡ some w) (small : length a + length b < row_size) where
  fv : IsFamilyVec a v
  fv = subst (IsFamily a) ex hx.vec

  fw : IsFamilyVec b w
  fw = subst (IsFamily b) ey hy.vec

  abbrev IsDone : Option (Vector × ℕ) → Type 0
  IsDone r = (u : Vector × ℕ) × (r ≡ some u) × IsFamilyVec (a ++ b) u

  join_rows-fits : join_rows x.row y.row ≡ ok (best_row a ++ best_row b)
  unfolding join_rows
  join_rows-fits =
      let p = best unused_rloc_priority a in
      let q = best unused_rloc_priority b in
      rw (hx.row, hy.row)
        (ground (
          arith,
          length-filter-le (λ l. is_usable l && l.priority == p) a,
          length-filter-le (λ l. is_usable l && l.priority == q) b,
        ))

  join_equal :
      best unused_rloc_priority a ≡ best unused_rloc_priority b → Returns (join_halves x y) IsDone
  unfolding join_halves
  join_equal same =
      let e = best_row-both a b same in
      let low : ltb x.min_priority y.min_priority ≡ false =
        ge→ltb _ _ (omega (arith, hx.priority, hy.priority)) in
      let high : ltb y.min_priority x.min_priority ≡ false =
        ge→ltb _ _ (omega (arith, hx.priority, hy.priority)) in
      let t = x.total_weight + y.total_weight in
      let h = highest_common_factor x.hcf y.hcf in
      let weighed : IsWeighed (best_row a ++ best_row b) (x.total_weight + y.total_weight)
          (highest_common_factor x.hcf y.hcf) =
        IsWeighed-append (best_row a) (best_row b)
          (subst (λ row. IsWeighed row x.total_weight x.hcf) hx.row hx.weighed)
          (subst (λ row. IsWeighed row y.total_weight y.hcf) hy.row hy.weighed) in
      let (u, run, spread) = set_balancing_vector-IsSpread _ _ _ weighed in
      (
        some u,
        rw (low, high, join_rows-fits, run),
        (
          u,
          refl,
          record {
            total = t;
            hcf = h;
            weighed = subst (λ row. IsWeighed row t h) (sym e) weighed;
            spread = subst (λ row. IsSpread row t h u) (sym e) spread;
            usable = omega (arith, best-join a b, fv.usable);
            nonempty = rw (e, length-append) (omega (arith, fv.nonempty));
          },
        ),
      )

  join_left :
      best unused_rloc_priority a < best unused_rloc_priority b → Returns (join_halves x y) IsDone
  unfolding join_halves
  join_left less =
      let low : ltb x.min_priority y.min_priority ≡ true =
        lt→ltb _ _ (omega (arith, hx.priority, hy.priority)) in
      let usable : best unused_rloc_priority (a ++ b) < unused_rloc_priority =
        omega (arith, best-join a b, fv.usable) in
      (x.vec, rw low, (v, ex, IsFamilyVec-transfer (best_row-left a b less) usable fv))

  join_right :
      best unused_rloc_priority b < best unused_rloc_priority a → Returns (join_halves x y) IsDone
  unfolding join_halves
  join_right more =
      let low : ltb x.min_priority y.min_priority ≡ false =
        ge→ltb _ _ (omega (arith, hx.priority, hy.priority)) in
      let high : ltb y.min_priority x.min_priority ≡ true =
        lt→ltb _ _ (omega (arith, hx.priority, hy.priority)) in
      let usable : best unused_rloc_priority (a ++ b) < unused_rloc_priority =
        omega (arith, best-join a b, fw.usable) in
      (y.vec, rw (low, high), (w, ey, IsFamilyVec-transfer (best_row-right a b more) usable fw))

  join_halves-IsDone : Returns (join_halves x y) IsDone
  join_halves-IsDone =
      let p = best unused_rloc_priority a in
      let q = best unused_rloc_priority b in
      elim (Bool-cases (ltb p q)) [
        | inl less ↦ join_left (ltb→lt p q less)
        | inr e ↦ elim (Bool-cases (ltb q p)) [
          | inl more ↦ join_right (ltb→lt q p more)
          | inr f ↦ join_equal (omega (arith, ltb→ge p q e, ltb→ge q p f))
        ]
      ]

balance_both-some :
    (x y : Half) {v w : Vector × ℕ}
    → x.vec ≡ some v
    → y.vec ≡ some w
    → balance_both x y ≡ join_halves x y
unfolding balance_both
balance_both-some x y ex ey = ground arith

module _ (a b : List Locator) (x y : Half) (hx : IsHalf a x) (hy : IsHalf b y)
    (small : length a + length b < row_size) where
  balance_both-cases :
      (v w : Option (Vector × ℕ))
      → x.vec ≡ v
      → y.vec ≡ w
      → Returns (balance_both x y) (IsJoint (a ++ b) v w)
  unfolding balance_both
  balance_both-cases none w ex ey = (none, rw (ex, balance_both), refl)
  balance_both-cases (some v) none ex ey = (none, rw (ex, ey, balance_both), refl)
  balance_both-cases (some v) (some w) ex ey =
      let (r, run, (u, e, f)) = join_halves-IsDone a b x y hx hy v w ex ey small in
      (some u, balance_both-some x y ex ey ∙ run ∙ ap ok e, f)

-- What the three vectors of a mapping are, for its locators of one family `a` and the other `b`.
pub record IsBalanced (a b : List Locator) (vecs : BalancingLocatorsVecs) : Type 0 where
  pub v4 : IsFamily a vecs.v4_vec
  pub v6 : IsFamily b vecs.v6_vec
  pub joint : IsJoint (a ++ b) vecs.v4_vec vecs.v6_vec vecs.both_vec

-- With at most 32 locators in both families together the three vectors are computed without a
-- write out of bounds or a division by zero. Each family has a vector exactly if one of its
-- locators is usable, and it shares the traffic among the usable locators of the best priority by
-- their weights; there is a joint vector exactly if both have one, and it is the one that the
-- locators of both families together would have.
pub balance_families-IsBalanced :
    (a b : List Locator)
    → length a + length b < row_size
    → Returns (balance_families (a, b)) (IsBalanced a b)
unfolding balance_families
balance_families-IsBalanced a b small =
    let (x, run_x, hx) = balance_half-IsHalf a (omega arith) in
    let (y, run_y, hy) = balance_half-IsHalf b (omega arith) in
    let (r, run, joint) = balance_both-cases a b x y hx hy small x.vec y.vec refl refl in
    (
      record { v4_vec = x.vec; v6_vec = y.vec; both_vec = r },
      rw (run_x, run_y, run),
      record { v4 = hx.vec; v6 = hy.vec; joint = joint },
    )

vec_of_usable :
    {ls : List Locator} {h : Half}
    → IsHalf ls h
    → best unused_rloc_priority ls < unused_rloc_priority
    → (v : Vector × ℕ) × (h.vec ≡ some v)
vec_of_usable {ls} {h} hh less = elim (Option-cases h.vec) [
  | inl e ↦ absurd (omega (arith, subst (IsFamily ls) e hh.vec))
  | inr found ↦ found
]

-- Two families of at most 32 locators each, whose best usable locators have the same priority and
-- are more than 32 together, make the copy into the joint row write past its end.
pub balance_families-overflow :
    (a b : List Locator)
    → length a < row_size
    → length b < row_size
    → best unused_rloc_priority a ≡ best unused_rloc_priority b
    → best unused_rloc_priority a < unused_rloc_priority
    → row_size ≤ length (best_row a) + length (best_row b)
    → balance_families (a, b) ≡ fault out_of_bounds
unfolding balance_families join_halves join_rows
balance_families-overflow a b small_a small_b same usable big =
    let (x, run_x, hx) = balance_half-IsHalf a small_a in
    let (y, run_y, hy) = balance_half-IsHalf b small_b in
    let (v, ex) = vec_of_usable hx usable in
    let (w, ey) = vec_of_usable hy (omega arith) in
    let low : ltb x.min_priority y.min_priority ≡ false =
      ge→ltb _ _ (omega (arith, hx.priority, hy.priority)) in
    let high : ltb y.min_priority x.min_priority ≡ false =
      ge→ltb _ _ (omega (arith, hx.priority, hy.priority)) in
    let full : ltb (length x.row + length y.row) row_size ≡ false =
      ge→ltb _ _ (omega (arith, ap length hx.row, ap length hy.row)) in
    rw (run_x, run_y, balance_both-some x y ex ey, low, high, full)
