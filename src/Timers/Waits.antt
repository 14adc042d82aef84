-- ===== src/Timers/Waits.antt =====
-- lispd/lib/timers.c: one timer, through the calls of callbacks and through a tick.
use lispmob.Prelude.{
  ℕ, suc, ◌+◌, ◌-◌, ◌%◌, ◌<◌, ◌≡◌, ◌≢◌, ◌⊎◌, inl, inr, refl, sym, subst, ◌∙◌, arith, Bool, true,
  false, some, List, [], ◌∷◌, leb, if◌then◌else◌, Bool-cases, Returns,
}
use lispmob.Timers.{
  wheel_size, Entry, Wheel, placed, is_linked, unlink, insert_timer, take_out, lmtimer_start,
  lmtimer_stop, Action, start, stop, act, act_all, Callback, first_on, expire, visit, work,
  handle_timers,
}
use lispmob.Timers.Entries.{
  IsAt, unlink-IsAt, append-IsAt, decrement-IsAt, is_linked-unlink, is_linked-unlink_other,
  is_linked-append, is_linked-decrement, first_on-some, first_on-other, first_on-none,
}
use lispmob.Timers.Expire.{IsElsewhere, expire_loop-Returns}

-- The calls are all for other timers.
abbrev pub Spares : ℕ → List Action → Type 0
Spares t [] = Unit
Spares t (start u d ∷ more) = (t ≢ u) × Spares t more
Spares t (stop u ∷ more) = (t ≢ u) × Spares t more

-- The timer is linked or not, and if so, at one spoke.
abbrev pub Waits : ℕ → ℕ → Bool → List Entry → Type 0
Waits t s b es = IsAt t s es × (is_linked t es ≡ b)

pub unlink-Waits :
    (t s u : ℕ) (b : Bool) (es : List Entry) → t ≢ u → Waits t s b es → Waits t s b (unlink u es)
unlink-Waits t s u b es h (at_s, l) =
    (unlink-IsAt t s u es at_s, is_linked-unlink_other t u es h ∙ l)

pub take_out-Waits :
    (t s u : ℕ) (b : Bool) (w : Wheel)
    → t ≢ u
    → Waits t s b w.linked
    → Waits t s b (take_out u w).linked
unfolding take_out
take_out-Waits t s u b w h waits =
    let gone = record w { linked = unlink u w.linked; running_timers = w.running_timers - 1 } in
    elim (is_linked u w.linked) as (λ c. Waits t s b (if c then gone else w).linked) [
      | true ↦ unlink-Waits t s u b w.linked h waits
      | false ↦ waits
    ]

pub start-Waits :
    (t s u d : ℕ) (b : Bool) (w : Wheel)
    → t ≢ u
    → Waits t s b w.linked
    → Waits t s b (lmtimer_start u d w).linked
unfolding lmtimer_start insert_timer
start-Waits t s u d b w h waits =
    let (at_s, l) = take_out-Waits t s u b w h waits in
    let rest = (take_out u w).linked in
    let last = placed u d (take_out u w).current_spoke in
    let same = is_linked-append t rest last in
    (append-IsAt t s rest last at_s (inl (λ e. h (sym e))), ground arith)

pub act_all-Waits :
    (t s : ℕ) (b : Bool) (calls : List Action) (w : Wheel)
    → Spares t calls
    → Waits t s b w.linked
    → Waits t s b (act_all calls w).linked
unfolding act_all act lmtimer_stop
act_all-Waits t s b [] w h waits = waits
act_all-Waits t s b (start u d ∷ more) w (h, rest) waits =
    act_all-Waits t s b more (lmtimer_start u d w) rest (start-Waits t s u d b w h waits)
act_all-Waits t s b (stop u ∷ more) w (h, rest) waits =
    act_all-Waits t s b more (take_out u w) rest (take_out-Waits t s u b w h waits)

pub visit-IsAt :
    (callback : Callback) (t s : ℕ) (e : Entry) (w : Wheel)
    → Spares t (callback e.timer w.expirations)
    → IsAt t s w.linked
    → IsAt t s (visit callback e w).linked
unfolding visit expire
visit-IsAt callback t s e w h at_s = elim (Bool-cases (leb 1 e.rotation_count)) [
  | inl more ↦ rw (more) (decrement-IsAt t s w.current_spoke w.linked at_s)
  | inr none_left ↦
      let gone = record w {
        linked = unlink e.timer w.linked;
        running_timers = w.running_timers - 1;
        expirations = w.expirations + 1;
      } in
      let waits : Waits t s (is_linked t gone.linked) gone.linked =
        (unlink-IsAt t s e.timer w.linked at_s, refl) in
      rw (none_left)
        (act_all-Waits t s (is_linked t gone.linked) (callback e.timer w.expirations) gone h
          waits).0
]

pub visit-Waits :
    (callback : Callback) (t s : ℕ) (b : Bool) (e : Entry) (w : Wheel)
    → Spares t (callback e.timer w.expirations)
    → t ≢ e.timer
    → Waits t s b w.linked
    → Waits t s b (visit callback e w).linked
unfolding visit expire
visit-Waits callback t s b e w h other (at_s, l) = elim (Bool-cases (leb 1 e.rotation_count)) [
  | inl more ↦
      let c = w.current_spoke in
      rw (more) (decrement-IsAt t s c w.linked at_s, is_linked-decrement t c w.linked ∙ l)
  | inr none_left ↦
      let gone = record w {
        linked = unlink e.timer w.linked;
        running_timers = w.running_timers - 1;
        expirations = w.expirations + 1;
      } in
      let waits = unlink-Waits t s e.timer b w.linked other (at_s, l) in
      rw (none_left) (act_all-Waits t s b (callback e.timer w.expirations) gone h waits)
]

-- A spoke where the timer is not has another timer at its head.
pub other_timer :
    (t s c : ℕ) (b : Bool) (e : Entry) (es : List Entry)
    → first_on c es ≡ some e
    → (s ≢ c) ⊎ (b ≡ false)
    → Waits t s b es
    → t ≢ e.timer
other_timer t s c b e es first away (at_s, l) =
    let other = first_on-other c t s es e first at_s in
    let (_, linked) = first_on-some c es e first in
    let linked_t : t ≡ e.timer → is_linked t es ≡ true =
      λ same. subst (λ u. is_linked u es ≡ true) (sym same) linked in
    λ same. let now = linked_t same in ground arith

pub next_spoke : (c : ℕ) → (c + 1) % wheel_size < wheel_size
next_spoke c = omega arith

-- A tick that turns to another spoke leaves the timer as it is, and so does every tick if it is not
-- linked.
pub tick-Waits :
    (callback : Callback) (t s : ℕ) (b : Bool) (w : Wheel)
    → ((u n : ℕ) → IsElsewhere (callback u n))
    → ((u n : ℕ) → Spares t (callback u n))
    → (s ≢ (w.current_spoke + 1) % wheel_size) ⊎ (b ≡ false)
    → Waits t s b w.linked
    → Returns
        (handle_timers callback w)
        (λ v. Waits t s b v.linked × (v.current_spoke ≡ (w.current_spoke + 1) % wheel_size))
unfolding handle_timers
tick-Waits callback t s b w elsewhere spares away waits =
    let c = (w.current_spoke + 1) % wheel_size in
    let (v, run, (left, at_c, nobody)) =
      expire_loop-Returns callback (λ v. Waits t s b v.linked) c (suc (work c w.linked))
        (record w { current_spoke = c }) (next_spoke w.current_spoke) elsewhere
        (λ v e waits at_c first.
          visit-Waits callback t s b e v (spares e.timer v.expirations)
            (other_timer t s c b e v.linked first away waits) waits)
        (omega arith) refl waits in
    (v, run, (left, at_c))

-- A tick that turns to the spoke of the timer takes it off the wheel.
pub tick-fires :
    (callback : Callback) (t s : ℕ) (w : Wheel)
    → ((u n : ℕ) → IsElsewhere (callback u n))
    → ((u n : ℕ) → Spares t (callback u n))
    → s ≡ (w.current_spoke + 1) % wheel_size
    → IsAt t s w.linked
    → Returns
        (handle_timers callback w)
        (λ v. Waits t s false v.linked × (v.current_spoke ≡ (w.current_spoke + 1) % wheel_size))
unfolding handle_timers
tick-fires callback t s w elsewhere spares here at_s =
    let c = (w.current_spoke + 1) % wheel_size in
    let (v, run, (at_v, at_c, nobody)) =
      expire_loop-Returns callback (λ v. IsAt t s v.linked) c (suc (work c w.linked))
        (record w { current_spoke = c }) (next_spoke w.current_spoke) elsewhere
        (λ v e at_v at_c first. visit-IsAt callback t s e v (spares e.timer v.expirations) at_v)
        (omega arith) refl at_s in
    (
      v,
      run,
      ((at_v, first_on-none c t v.linked nobody (subst (λ k. IsAt t k v.linked) here at_v)), at_c),
    )

pub taken_out : (t : ℕ) (w : Wheel) → is_linked t (take_out t w).linked ≡ false
unfolding take_out
taken_out t w =
    let gone = record w { linked = unlink t w.linked; running_timers = w.running_timers - 1 } in
    elim (Bool-cases (is_linked t w.linked)) [
      | inl l ↦ rw (l) (is_linked-unlink t w.linked)
      | inr l ↦ rw (l) l
    ]
