-- ===== src/Timers/Tests.antt =====
-- lispd/lib/timers.c: runs of a wheel with two timers, one of which starts itself again.
use lispmob.Prelude.{ℕ, ◌<◌, ◌≡◌, arith, false, ltb, [], ◌∷◌, Returns}
use lispmob.Timers.{
  wheel_size, Wheel, lmtimers_init, lmtimer_start, lmtimer_stop, is_linked, start, Callback, ticks,
}
use lispmob.Timers.Expire.{IsElsewhere}
use lispmob.Timers.Waits.{Spares}
use lispmob.Timers.Fires.{due, lmtimer_start-due, lmtimer_stop-ticks}
use lispmob.Timers.Invariant.{IsWheel, Reaches, here, after, starts, stops, reached-IsWheel}

-- timer 1 sends a Map-Register every minute
abbrev map_register : Callback
map_register t n = start 1 60 ∷ []

elsewhere : (u m : ℕ) → IsElsewhere (map_register u m)
elsewhere u m = (λ e. absurd (omega arith), tt)

spares : (u m : ℕ) → Spares 2 (map_register u m)
spares u m = (λ e. absurd (omega arith), tt)

abbrev registering : Wheel
registering = lmtimer_start 1 60 lmtimers_init

inside : registering.current_spoke < wheel_size
unfolding lmtimer_start lmtimers_init
inside = omega arith

lmtimer_start-due_example :
    Returns
      (ticks map_register 86400 (lmtimer_start 2 86400 registering))
      (λ v. is_linked 2 v.linked ≡ ltb 86400 (due 86400))
lmtimer_start-due_example =
    lmtimer_start-due map_register 2 86400 86400 registering inside elsewhere spares

lmtimer_stop-ticks_example :
    Returns
      (ticks map_register 5000 (lmtimer_stop 2 registering))
      (λ v. is_linked 2 v.linked ≡ false)
lmtimer_stop-ticks_example = lmtimer_stop-ticks map_register 2 5000 registering elsewhere spares

started_and_stopped : Reaches map_register lmtimers_init (lmtimer_stop 1 registering)
started_and_stopped =
    after lmtimers_init registering (lmtimer_stop 1 registering) (starts 1 60 lmtimers_init) (
      after registering (lmtimer_stop 1 registering) (lmtimer_stop 1 registering)
        (stops 1 registering) (here (lmtimer_stop 1 registering)))

reached-IsWheel_example : IsWheel (lmtimer_stop 1 registering)
reached-IsWheel_example =
    reached-IsWheel map_register (lmtimer_stop 1 registering) started_and_stopped
