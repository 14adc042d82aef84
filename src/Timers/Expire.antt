-- ===== src/Timers/Expire.antt =====
-- lispd/lib/timers.c `handle_timers`: the loop over a spoke ends, and what every round keeps holds after
-- it.
use lispmob.Prelude.{
  ℕ, zero, suc, ◌+◌, ◌-◌, ◌%◌, ◌<◌, ◌≤◌, ◌≡◌, ◌≢◌, inl, inr, refl, subst, ap, ◌∙◌, arith, none,
  some, Option-cases, List, [], ◌∷◌, leb, Bool-cases, Returns,
}
use lispmob.Timers.{
  wheel_size, Entry, Wheel, unlink, insert_timer, placed, take_out, lmtimer_start, lmtimer_stop,
  Action, start, stop, act, act_all, Callback, first_on, expire, visit, expire_loop, work,
}
use lispmob.Timers.Entries.{work-unlink, work-append, work-decrement, work-expire}

-- The calls start no timer on the spoke that is being looked at.
abbrev pub IsElsewhere : List Action → Type 0
IsElsewhere [] = Unit
IsElsewhere (start t d ∷ more) = (d % wheel_size ≢ 0) × IsElsewhere more
IsElsewhere (stop t ∷ more) = IsElsewhere more

pub take_out-current_spoke : (t : ℕ) (w : Wheel) → (take_out t w).current_spoke ≡ w.current_spoke
unfolding take_out
take_out-current_spoke t w = ground arith

take_out-work : (c t : ℕ) (w : Wheel) → work c (take_out t w).linked ≤ work c w.linked
unfolding take_out
take_out-work c t w = let less = work-unlink c t w.linked in ground arith

pub act-current_spoke : (a : Action) (w : Wheel) → (act a w).current_spoke ≡ w.current_spoke
unfolding act lmtimer_start insert_timer lmtimer_stop
act-current_spoke (start t d) w = take_out-current_spoke t w
act-current_spoke (stop t) w = take_out-current_spoke t w

start-work :
    (t d : ℕ) (w : Wheel)
    → w.current_spoke < wheel_size
    → d % wheel_size ≢ 0
    → work w.current_spoke (lmtimer_start t d w).linked ≤ work w.current_spoke w.linked
unfolding lmtimer_start insert_timer
start-work t d w inside h =
    let same = take_out-current_spoke t w in
    let less = take_out-work w.current_spoke t w in
    let there = placed t d (take_out t w).current_spoke in
    let elsewhere : there.spoke ≢ w.current_spoke = λ e. absurd (omega arith) in
    let more = work-append w.current_spoke (take_out t w).linked there elsewhere in
    omega (arith, less, more)

abbrev IsQuiet : ℕ → Wheel → Wheel → Type 0
IsQuiet c w v = (work c v.linked ≤ work c w.linked) × (v.current_spoke ≡ c)

act_all-IsQuiet :
    (c : ℕ) (calls : List Action) (w : Wheel)
    → c < wheel_size
    → w.current_spoke ≡ c
    → IsElsewhere calls
    → IsQuiet c w (act_all calls w)
unfolding act_all act lmtimer_stop
act_all-IsQuiet c [] w inside at_c h = (omega arith, at_c)
act_all-IsQuiet c (start t d ∷ more) w inside at_c (h, rest) =
    let v = lmtimer_start t d w in
    let first : work c v.linked ≤ work c w.linked =
      subst (λ k. work k v.linked ≤ work k w.linked) at_c (start-work t d w (omega arith) h) in
    let (less, same) =
      act_all-IsQuiet c more v inside (act-current_spoke (start t d) w ∙ at_c) rest in
    (omega arith, same)
act_all-IsQuiet c (stop t ∷ more) w inside at_c rest =
    let first = take_out-work c t w in
    let (less, same) =
      act_all-IsQuiet c more (take_out t w) inside (take_out-current_spoke t w ∙ at_c) rest in
    (omega arith, same)

-- A round leaves less to do on the spoke.
visit-IsLess :
    (callback : Callback) (c : ℕ) (e : Entry) (w : Wheel)
    → c < wheel_size
    → w.current_spoke ≡ c
    → IsElsewhere (callback e.timer w.expirations)
    → first_on c w.linked ≡ some e
    → (suc (work c (visit callback e w).linked) ≤ work c w.linked)
      × ((visit callback e w).current_spoke ≡ c)
unfolding visit expire
visit-IsLess callback c e w inside at_c h first = elim (Bool-cases (leb 1 e.rotation_count)) [
  | inl more ↦
      let less = work-decrement c w.linked e first (ground arith) in
      (rw (more, at_c) (omega arith), rw (more) at_c)
  | inr none_left ↦
      let gone = record w {
        linked = unlink e.timer w.linked;
        running_timers = w.running_timers - 1;
        expirations = w.expirations + 1;
      } in
      let less = work-expire c w.linked e first in
      let (quiet, same) = act_all-IsQuiet c (callback e.timer w.expirations) gone inside at_c h in
      (rw (none_left) (omega arith), rw (none_left) same)
]

-- With more fuel than there is work on the spoke the loop ends, no timer is left there, and what every
-- round keeps holds.
pub expire_loop-Returns {ℓ} :
    (callback : Callback) (P : Wheel → Type ℓ) (c fuel : ℕ) (w : Wheel)
    → c < wheel_size
    → ((t n : ℕ) → IsElsewhere (callback t n))
    → ((v : Wheel) (e : Entry)
        → P v
        → v.current_spoke ≡ c
        → first_on c v.linked ≡ some e
        → P (visit callback e v))
    → work c w.linked < fuel
    → w.current_spoke ≡ c
    → P w
    → Returns
        (expire_loop callback fuel w)
        (λ v. P v × (v.current_spoke ≡ c) × (first_on c v.linked ≡ none))
unfolding expire_loop
expire_loop-Returns callback P c zero w inside h keeps enough at_c p = absurd (omega arith)
expire_loop-Returns callback P c (suc fuel) w inside h keeps enough at_c p =
    let here = ap (λ k. first_on k w.linked) at_c in
    elim (Option-cases (first_on c w.linked)) [
      | inl nobody ↦ (w, rw (expire_loop, here ∙ nobody) refl, (p, at_c, nobody))
      | inr (e, first) ↦
          let (less, same) =
            visit-IsLess callback c e w inside at_c (h e.timer w.expirations) first in
          let kept = keeps w e p at_c first in
          let (v, run, rest) =
            expire_loop-Returns callback P c fuel (visit callback e w) inside h keeps (omega arith)
              same kept in
          (v, rw (expire_loop, here ∙ first) run, rest)
    ]
