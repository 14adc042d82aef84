-- ===== src/Timers/Fires.antt =====
-- lispd/lib/timers.c: when a started timer expires.
use lispmob.Prelude.{
  ℕ, zero, suc, ◌+◌, ◌%◌, ◌<◌, ◌≤◌, ◌≡◌, ◌≢◌, inl, inr, refl, sym, ap, ◌∙◌, arith, true, false, ltb,
  lt→ltb, ge→ltb, ◌==◌, if◌then◌else◌, Returns,
}
use lispmob.Timers.{
  wheel_size, Wheel, placed, is_linked, insert_timer, take_out, lmtimer_start, lmtimer_stop, start,
  act, Callback, ticks,
}
use lispmob.Timers.Entries.{unlinked-IsAt, append-IsAt, is_linked-append}
use lispmob.Timers.Expire.{IsElsewhere, act-current_spoke, take_out-current_spoke}
use lispmob.Timers.Waits.{Spares, Waits, tick-Waits, tick-fires, taken_out}

started :
    (t d : ℕ) (w : Wheel)
    → Waits t ((w.current_spoke + d % wheel_size) % wheel_size) true (lmtimer_start t d w).linked
unfolding lmtimer_start insert_timer
started t d w =
    let s = (w.current_spoke + d % wheel_size) % wheel_size in
    let rest = (take_out t w).linked in
    let last = placed t d (take_out t w).current_spoke in
    let there : last.spoke ≡ s =
      ap (λ c. (c + d % wheel_size) % wheel_size) (take_out-current_spoke t w) in
    let free = taken_out t w in
    let now = is_linked-append t rest last in
    (append-IsAt t s rest last (unlinked-IsAt t s rest free) (inr there), ground arith)

-- the ticks until a timer of `d` seconds expires
abbrev pub due : ℕ → ℕ
due d = if d % wheel_size == 0 then wheel_size else d % wheel_size

due_spoke : (c k d : ℕ) → k ≡ c → (c + d % wheel_size) % wheel_size ≡ (k + due d) % wheel_size
due_spoke c k d same = ground arith

ticks-gone :
    (callback : Callback) (n t s : ℕ) (w : Wheel)
    → ((u n : ℕ) → IsElsewhere (callback u n))
    → ((u n : ℕ) → Spares t (callback u n))
    → Waits t s false w.linked
    → Returns (ticks callback n w) (λ v. is_linked t v.linked ≡ false)
unfolding ticks
ticks-gone callback zero t s w elsewhere spares (at_s, l) = (w, refl, l)
ticks-gone callback (suc n) t s w elsewhere spares waits =
    let (v, run, (left, at_c)) =
      tick-Waits callback t s false w elsewhere spares (inr refl) waits in
    let (u, runs, gone) = ticks-gone callback n t s v elsewhere spares left in
    (u, rw (run) runs, gone)

ticks-due :
    (callback : Callback) (n t s k : ℕ) (w : Wheel)
    → ((u n : ℕ) → IsElsewhere (callback u n))
    → ((u n : ℕ) → Spares t (callback u n))
    → 1 ≤ k
    → k ≤ wheel_size
    → s ≡ (w.current_spoke + k) % wheel_size
    → Waits t s true w.linked
    → Returns (ticks callback n w) (λ v. is_linked t v.linked ≡ ltb n k)
unfolding ticks
ticks-due callback zero t s k w elsewhere spares some_left fits here (at_s, l) =
    (w, refl, l ∙ sym (lt→ltb 0 k (omega arith)))
ticks-due callback (suc n) t s zero w elsewhere spares some_left fits here waits =
    absurd (omega arith)
ticks-due callback (suc n) t s (suc zero) w elsewhere spares some_left fits here (at_s, l) =
    let (v, run, (left, at_c)) = tick-fires callback t s w elsewhere spares here at_s in
    let (u, runs, gone) = ticks-gone callback n t s v elsewhere spares left in
    (u, rw (run) runs, gone ∙ sym (ge→ltb (suc n) 1 (omega arith)))
ticks-due callback (suc n) t s (suc (suc k)) w elsewhere spares some_left fits here waits =
    let away : s ≢ (w.current_spoke + 1) % wheel_size = λ e. absurd (omega arith) in
    let (v, run, (left, at_c)) = tick-Waits callback t s true w elsewhere spares (inl away) waits in
    let (u, runs, due_then) =
      ticks-due callback n t s (suc k) v elsewhere spares (omega arith) (omega arith) (omega arith)
        left in
    (u, rw (run) runs, due_then ∙ (ground arith))

-- A timer that is started for `d` seconds, on a wheel whose current spoke is in range, while no
-- callback starts or stops it and none starts a timer for a multiple of the wheel's size: after `n`
-- ticks it is still linked exactly if `n` is less than `d % wheel_size`, or than the size where that is
-- 0. All ticks end.
pub lmtimer_start-due :
    (callback : Callback) (t d n : ℕ) (w : Wheel)
    → w.current_spoke < wheel_size
    → ((u m : ℕ) → IsElsewhere (callback u m))
    → ((u m : ℕ) → Spares t (callback u m))
    → Returns (ticks callback n (lmtimer_start t d w)) (λ v. is_linked t v.linked ≡ ltb n (due d))
unfolding act
lmtimer_start-due callback t d n w inside elsewhere spares =
    let v = lmtimer_start t d w in
    let same = act-current_spoke (start t d) w in
    ticks-due callback n t ((w.current_spoke + d % wheel_size) % wheel_size) (due d) v elsewhere
      spares (ground arith) (ground arith) (due_spoke w.current_spoke v.current_spoke d same)
      (started t d w)

-- A stopped timer does not come back, however often the clock ticks, while no callback starts or stops
-- it and none starts a timer for a multiple of the wheel's size. All ticks end.
pub lmtimer_stop-ticks :
    (callback : Callback) (t n : ℕ) (w : Wheel)
    → ((u m : ℕ) → IsElsewhere (callback u m))
    → ((u m : ℕ) → Spares t (callback u m))
    → Returns (ticks callback n (lmtimer_stop t w)) (λ v. is_linked t v.linked ≡ false)
unfolding lmtimer_stop
lmtimer_stop-ticks callback t n w elsewhere spares =
    let off = taken_out t w in
    ticks-gone callback n t 0 (take_out t w) elsewhere spares
      (unlinked-IsAt t 0 (take_out t w).linked off, off)
