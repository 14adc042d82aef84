-- ===== src/Timers.antt =====
-- lispd/lib/timers.c: the timer wheel. A timer is its pointer. The circular lists of the spokes are one
-- list of the linked timers, each with its spoke, in the order in which they were linked; the list of
-- a spoke is the part with that spoke. The links of a timer are NULL if it has no entry. A callback
-- reaches the wheel only by `lmtimer_start` and `lmtimer_stop`, so it is the list of those calls. The
-- durations are those of `uint32_t ticks`. What `lmtimer_stop` frees is outside the wheel.
pub mod Entries
pub mod Expire
pub mod Waits
pub mod Fires
pub mod Invariant
pub mod Endless
mod Tests
use lispmob.Prelude.{
  ℕ, zero, suc, ◌+◌, ◌-◌, ◌*◌, ◌/◌, ◌%◌, Bool, true, false, ◌||◌, Option, none, some, List, [], ◌∷◌,
  ◌++◌, ◌==◌, leb, if◌then◌else◌, Run, ok, fault, out_of_fuel, ◌>>=◌,
}

abbrev pub wheel_size : ℕ
wheel_size = 4096

pub record Entry : Type 0 where
  pub timer : ℕ
  pub spoke : ℕ
  pub rotation_count : ℕ

pub record Wheel : Type 0 where
  pub current_spoke : ℕ
  pub linked : List Entry
  pub running_timers : ℕ
  pub expirations : ℕ

unfoldable pub lmtimers_init : Wheel
lmtimers_init = record { current_spoke = 0; linked = []; running_timers = 0; expirations = 0 }

-- whether the links of a timer are set
unfoldable pub is_linked : ℕ → List Entry → Bool
is_linked t [] = false
is_linked t (e ∷ es) = (e.timer == t) || is_linked t es

-- A timer has one pair of links, so it stands in one list at most.
unfoldable pub unlink : ℕ → List Entry → List Entry
unlink t [] = []
unlink t (e ∷ es) = let rest = unlink t es in if e.timer == t then rest else e ∷ rest

-- a timer on its spoke, from the current one on
abbrev pub placed : ℕ → ℕ → ℕ → Entry
placed t ticks current = record {
  timer = t;
  spoke = (current + ticks % wheel_size) % wheel_size;
  rotation_count = ticks / wheel_size;
}

unfoldable pub insert_timer : ℕ → ℕ → Wheel → Wheel
insert_timer t ticks w = record w { linked = w.linked ++ placed t ticks w.current_spoke ∷ [] }

-- the links of a timer are taken out of its list and set to NULL
unfoldable pub take_out : ℕ → Wheel → Wheel
unfolding is_linked unlink
take_out t w =
    if is_linked t w.linked
    then record w { linked = unlink t w.linked; running_timers = w.running_timers - 1 }
    else w

unfoldable pub lmtimer_start : ℕ → ℕ → Wheel → Wheel
unfolding take_out insert_timer
lmtimer_start t sexpiry w =
    let v = insert_timer t sexpiry (take_out t w) in
    record v { running_timers = v.running_timers + 1 }

-- a timer that is not NULL
unfoldable pub lmtimer_stop : ℕ → Wheel → Wheel
unfolding take_out
lmtimer_stop t w = take_out t w

pub data Action : Type 0 where
  start : ℕ → ℕ → Action
  stop : ℕ → Action

unfoldable pub act : Action → Wheel → Wheel
unfolding lmtimer_start lmtimer_stop
act (start t d) w = lmtimer_start t d w
act (stop t) w = lmtimer_stop t w

unfoldable pub act_all : List Action → Wheel → Wheel
unfolding act
act_all [] w = w
act_all (a ∷ more) w = act_all more (act a w)

-- what the callback of a timer does; it may depend on all that happened before, which the number of
-- expirations stands for
abbrev pub Callback : Type 0
Callback = ℕ → ℕ → List Action

unfoldable pub first_on : ℕ → List Entry → Option Entry
first_on c [] = none
first_on c (e ∷ es) = let rest = first_on c es in if e.spoke == c then some e else rest

-- one rotation less for the first timer of a spoke
unfoldable pub decrement : ℕ → List Entry → List Entry
decrement c [] = []
decrement c (e ∷ es) =
    let rest = decrement c es in
    if e.spoke == c then record e { rotation_count = e.rotation_count - 1 } ∷ es else e ∷ rest

unfoldable pub expire : Callback → Entry → Wheel → Wheel
unfolding unlink act_all
expire callback e w = act_all (callback e.timer w.expirations) (record w {
  linked = unlink e.timer w.linked;
  running_timers = w.running_timers - 1;
  expirations = w.expirations + 1;
})

-- one round of the loop of `handle_timers`, on the first timer of the spoke
unfoldable pub visit : Callback → Entry → Wheel → Wheel
unfolding expire decrement
visit callback e w =
    if leb 1 e.rotation_count
    then record w { linked = decrement w.current_spoke w.linked }
    else expire callback e w

-- The loop goes on with what stands behind the entry before the one that it looked at. It begins
-- behind the head of the spoke, and so it stays there: it always looks at the first timer.
unfoldable pub expire_loop : Callback → ℕ → Wheel → Run Wheel
unfolding first_on visit
expire_loop callback zero w = fault out_of_fuel
expire_loop callback (suc fuel) w = elim (first_on w.current_spoke w.linked) as (λ _. Run Wheel) [
  | none ↦ ok w
  | some e ↦ expire_loop callback fuel (visit callback e w)
]

-- the rounds that a spoke needs: one for each rotation and one for each timer
unfoldable pub work : ℕ → List Entry → ℕ
work c [] = 0
work c (e ∷ es) = (if e.spoke == c then suc e.rotation_count else 0) + work c es

unfoldable pub handle_timers : Callback → Wheel → Run Wheel
unfolding expire_loop work
handle_timers callback w =
    let turned = record w { current_spoke = (w.current_spoke + 1) % wheel_size } in
    expire_loop callback (suc (work turned.current_spoke turned.linked)) turned

unfoldable pub ticks : Callback → ℕ → Wheel → Run Wheel
unfolding handle_timers
ticks callback zero w = ok w
ticks callback (suc n) w = handle_timers callback w >>= (λ v. ticks callback n v)
