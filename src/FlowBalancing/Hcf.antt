-- ===== src/FlowBalancing/Hcf.antt =====
-- lispd/fwd_policies/flow_balancing/flow_balancing.c `highest_common_factor`.
use native.Mathlib.Nat.{dvd_refl, dvd-zero, dvd-mod_iff, pos_of_dvd_of_pos, mod-lt}
use lispmob.Prelude.{
  ℕ, zero, suc, ◌%◌, ◌<◌, ◌≡◌, refl, sym, ap, subst, ◌∙◌, Run, ok, fault, out_of_fuel, Returns, ◌∣◌,
  ◌⊎◌, inl, inr, Bool-cases, arith, ◌==◌, if◌then◌else◌, ==→eq, ==→ne,
}

-- The loop `while (b != 0)`, on numbers that are not negative, as weights are. Its divisor falls in each
-- round, so `b` rounds are enough.
unfoldable pub hcf_loop : ℕ → ℕ → ℕ → Run ℕ
hcf_loop zero a b = fault out_of_fuel
hcf_loop (suc fuel) a b = let rest = hcf_loop fuel b (a % b) in if b == 0 then ok a else rest

-- The exchange for `a < b` assigns `a` back to itself, so it changes nothing; the first round of
-- the loop exchanges the two.
unfoldable pub hcf_run : ℕ → ℕ → Run ℕ
unfolding hcf_loop
hcf_run a b = if b == 0 then ok a else if a == 0 then ok b else hcf_loop (suc b) a b

-- A run that did not end would have no answer.
abbrev pub answer_of : Run ℕ → ℕ
answer_of (ok d) = d
answer_of (fault e) = 0

-- what the run answers, which always ends
unfoldable pub highest_common_factor : ℕ → ℕ → ℕ
unfolding hcf_run
highest_common_factor a b = answer_of (hcf_run a b)

-- `d` is a common divisor of `a` and `b` that every common divisor divides.
pub record IsHcf (a b d : ℕ) : Type 0 where
  pub left : d ∣ a
  pub right : d ∣ b
  pub greatest : (k : ℕ) → k ∣ a → k ∣ b → k ∣ d

IsHcf-zero : (a : ℕ) → IsHcf a 0 a
IsHcf-zero a = record { left = dvd_refl a; right = dvd-zero a; greatest = λ k h h'. h }

IsHcf-step : {a b d : ℕ} → IsHcf b (a % b) d → IsHcf a b d
IsHcf-step {a} {b} {d} h = record {
  left = (dvd-mod_iff d h.left).0 h.right;
  right = h.left;
  greatest = λ k ka kb. h.greatest k kb ((dvd-mod_iff k kb).1 ka);
}

IsHcf-symm : {a b d : ℕ} → IsHcf a b d → IsHcf b a d
IsHcf-symm h = record { left = h.right; right = h.left; greatest = λ k kb ka. h.greatest k ka kb }

hcf_loop-IsHcf : (fuel a b : ℕ) → b < fuel → Returns (hcf_loop fuel a b) (IsHcf a b)
unfolding hcf_loop
hcf_loop-IsHcf zero a b h = absurd (omega arith)
hcf_loop-IsHcf (suc fuel) a b h = elim (Bool-cases (b == 0)) [
  | inl e ↦ (a, rw e refl, subst (λ c. IsHcf a c a) (sym (==→eq b 0 e)) (IsHcf-zero a))
  | inr e ↦
      let small : a % b < b = mod-lt a (omega (arith, ==→ne b 0 e)) in
      let (d, run, g) = hcf_loop-IsHcf fuel b (a % b) (omega arith) in (d, rw e run, IsHcf-step g)
]

run-IsHcf : (a b : ℕ) → Returns (hcf_run a b) (IsHcf a b)
unfolding hcf_run
run-IsHcf a b = elim (Bool-cases (b == 0)) [
  | inl e ↦ (a, rw e refl, subst (λ c. IsHcf a c a) (sym (==→eq b 0 e)) (IsHcf-zero a))
  | inr e ↦ elim (Bool-cases (a == 0)) [
    | inl z ↦ (
      b,
      rw (e, z) refl,
      subst (λ c. IsHcf c b b) (sym (==→eq a 0 z)) (IsHcf-symm (IsHcf-zero b)),
    )
    | inr z ↦
        let (d, run, g) = hcf_loop-IsHcf (suc b) a b (omega arith) in
        (
          d,
          ap (λ t. if t then ok a else if a == 0 then ok b else hcf_loop (suc b) a b) e
              ∙ ap (λ t. if t then ok b else hcf_loop (suc b) a b) z
              ∙ run,
          g,
        )
  ]
]

-- The run of highest_common_factor ends for all arguments that are not negative, in either order, and
-- answers their greatest common divisor.
pub hcf_run-IsHcf :
    (a b : ℕ) → Returns (hcf_run a b) (λ d. (highest_common_factor a b ≡ d) × IsHcf a b d)
unfolding highest_common_factor
hcf_run-IsHcf a b = let (d, run, g) = run-IsHcf a b in (d, run, (ap answer_of run, g))

pub highest_common_factor-IsHcf : (a b : ℕ) → IsHcf a b (highest_common_factor a b)
highest_common_factor-IsHcf a b =
    let (d, run, (same, g)) = hcf_run-IsHcf a b in subst (IsHcf a b) (sym same) g

-- It is positive as soon as one of its arguments is.
pub highest_common_factor_pos : (a b : ℕ) → (0 < a) ⊎ (0 < b) → 0 < highest_common_factor a b
highest_common_factor_pos a b (inl h) = pos_of_dvd_of_pos (highest_common_factor-IsHcf a b).left h
highest_common_factor_pos a b (inr h) = pos_of_dvd_of_pos (highest_common_factor-IsHcf a b).right h
