-- ===== src/Timers/Endless.antt =====
-- lispd/lib/timers.c `handle_timers`: a callback that starts its timer again at once.
use lispmob.Prelude.{
  ℕ, zero, suc, ◌+◌, ◌-◌, ◌%◌, ◌<◌, ◌≡◌, refl, ap, ◌∙◌, arith, true, some, [], ◌∷◌, leb, eq→==,
  fault, out_of_fuel,
}
use lispmob.Timers.{
  wheel_size, Wheel, is_linked, unlink, insert_timer, take_out, lmtimer_start, start, act, act_all,
  Callback, first_on, decrement, expire, visit, expire_loop,
}

-- starts the expired timer for 0 seconds
abbrev pub again : Callback
again t n = start t 0 ∷ []

abbrev pub alone : ℕ → ℕ → ℕ → ℕ → Wheel
alone t c rotations n = record {
  current_spoke = c;
  linked = record { timer = t; spoke = c; rotation_count = rotations } ∷ [];
  running_timers = 1;
  expirations = n;
}

-- a timer at the current spoke, with its last rotation
expire-again :
    (t c n : ℕ)
    → c < wheel_size
    → visit again (record { timer = t; spoke = c; rotation_count = 0 }) (alone t c 0 n)
      ≡ alone t c 0 (n + 1)
unfolding visit expire unlink act_all act lmtimer_start take_out is_linked insert_timer
expire-again t c n inside =
    let self = eq→== t t refl in
    let same : (c + 0) % wheel_size ≡ c = omega arith in rw (self, same) refl

first-alone :
    (t c r n : ℕ)
    → first_on c (alone t c r n).linked ≡ some (record { timer = t; spoke = c; rotation_count = r })
unfolding first_on
first-alone t c r n = rw (eq→== c c refl) refl

visit-rotation :
    (t c r n : ℕ)
    → visit again (record { timer = t; spoke = c; rotation_count = suc r }) (alone t c (suc r) n)
      ≡ alone t c r n
unfolding visit decrement
visit-rotation t c r n =
    let more : leb 1 (suc r) ≡ true = ground arith in
    let here = eq→== c c refl in
    let less : suc r - 1 ≡ r = omega arith in rw (more, here, less) refl

-- While a timer is alone on the wheel, at the current spoke, and its callback starts it again for 0
-- seconds, the loop of handle_timers ends with no fuel whatever.
pub expire_loop-again :
    (fuel t c r n : ℕ) → c < wheel_size → expire_loop again fuel (alone t c r n) ≡ fault out_of_fuel
unfolding expire_loop
expire_loop-again zero t c r n inside = refl
expire_loop-again (suc fuel) t c zero n inside =
    let next = ap (λ v. expire_loop again fuel v) (expire-again t c n inside) in
    rw (expire_loop, first-alone t c 0 n) (next ∙ expire_loop-again fuel t c zero (n + 1) inside)
expire_loop-again (suc fuel) t c (suc r) n inside =
    let next = ap (λ v. expire_loop again fuel v) (visit-rotation t c r n) in
    rw (expire_loop, first-alone t c (suc r) n) (next ∙ expire_loop-again fuel t c r n inside)
