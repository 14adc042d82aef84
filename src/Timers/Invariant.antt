-- ===== src/Timers/Invariant.antt =====
-- lispd/lib/timers.c: the wheel as a state machine, and what every state that it reaches satisfies.
use lispmob.Prelude.{
  ℕ, zero, suc, ◌+◌, ◌-◌, ◌%◌, ◌<◌, ◌≡◌, refl, ◌∙◌, subst, arith, true, false, some, Option-cases,
  List, [], ◌∷◌, ◌++◌, length, length-append, leb, ◌==◌, if◌then◌else◌, Bool-cases, inl, inr, ok,
  ok_injective,
}
use lispmob.Timers.{
  wheel_size, Entry, Wheel, placed, lmtimers_init, is_linked, unlink, insert_timer, take_out,
  lmtimer_start, lmtimer_stop, Action, start, stop, act, act_all, Callback, first_on, decrement,
  expire, visit, expire_loop, work, handle_timers,
}
use lispmob.Timers.Entries.{is_linked-append, is_linked-decrement, first_on-some}
use lispmob.Timers.Waits.{taken_out}

-- No timer has two entries.
abbrev pub IsDistinct : List Entry → Type 0
IsDistinct [] = Unit
IsDistinct (e ∷ es) = (is_linked e.timer es ≡ false) × IsDistinct es

unlinked_still :
    (t u : ℕ) (es : List Entry) → is_linked t es ≡ false → is_linked t (unlink u es) ≡ false
unfolding is_linked unlink
unlinked_still t u [] h = refl
unlinked_still t u (e ∷ es) h = let rest = unlinked_still t u es in ground arith

unlink-IsDistinct : (t : ℕ) (es : List Entry) → IsDistinct es → IsDistinct (unlink t es)
unfolding unlink
unlink-IsDistinct t [] h = tt
unlink-IsDistinct t (e ∷ es) (new, h) =
    let rest = unlink-IsDistinct t es h in
    elim (e.timer == t) as (λ b. IsDistinct (if b then unlink t es else e ∷ unlink t es)) [
      | true ↦ rest
      | false ↦ (unlinked_still e.timer t es new, rest)
    ]

append-IsDistinct :
    (es : List Entry) (e : Entry)
    → is_linked e.timer es ≡ false
    → IsDistinct es
    → IsDistinct (es ++ e ∷ [])
unfolding is_linked
append-IsDistinct [] e new h = (refl, tt)
append-IsDistinct (x ∷ es) e new (first, h) =
    let last = is_linked-append x.timer es e in
    (ground arith, append-IsDistinct es e (ground arith) h)

decrement-IsDistinct : (c : ℕ) (es : List Entry) → IsDistinct es → IsDistinct (decrement c es)
unfolding decrement
decrement-IsDistinct c [] h = tt
decrement-IsDistinct c (e ∷ es) (new, h) =
    let rest = decrement-IsDistinct c es h in
    let less = record e { rotation_count = e.rotation_count - 1 } in
    elim (e.spoke == c) as (λ b. IsDistinct (if b then less ∷ es else e ∷ decrement c es)) [
      | true ↦ (new, h)
      | false ↦ (is_linked-decrement e.timer c es ∙ new, rest)
    ]

length-decrement : (c : ℕ) (es : List Entry) → length (decrement c es) ≡ length es
unfolding decrement
length-decrement c [] = refl
length-decrement c (e ∷ es) = let rest = length-decrement c es in ground arith

length-unlink_none :
    (t : ℕ) (es : List Entry) → is_linked t es ≡ false → length (unlink t es) ≡ length es
unfolding unlink is_linked
length-unlink_none t [] h = refl
length-unlink_none t (e ∷ es) h = let rest = length-unlink_none t es in ground arith

length-unlink :
    (t : ℕ) (es : List Entry)
    → IsDistinct es
    → is_linked t es ≡ true
    → suc (length (unlink t es)) ≡ length es
unfolding unlink is_linked
length-unlink t [] h l = absurd (cc)
length-unlink t (e ∷ es) (new, h) l =
    let rest = length-unlink t es h in
    let none_left : e.timer ≡ t → length (unlink t es) ≡ length es =
      λ same. length-unlink_none t es (subst (λ u. is_linked u es ≡ false) same new) in
    ground arith

-- The counter counts the linked timers, each once, and the current spoke is one of the wheel's.
pub record IsWheel (w : Wheel) : Type 0 where
  pub inside : w.current_spoke < wheel_size
  pub counted : w.running_timers ≡ length w.linked
  pub distinct : IsDistinct w.linked

init-IsWheel : IsWheel lmtimers_init
unfolding lmtimers_init
init-IsWheel = record { inside = omega arith; counted = refl; distinct = tt }

take_out-IsWheel : (t : ℕ) (w : Wheel) → IsWheel w → IsWheel (take_out t w)
unfolding take_out
take_out-IsWheel t w h = elim (Bool-cases (is_linked t w.linked)) [
  | inl l ↦
      let fewer = length-unlink t w.linked h.distinct l in
      rw (l) record {
        inside = h.inside;
        counted = omega (arith, h.counted);
        distinct = unlink-IsDistinct t w.linked h.distinct;
      }
  | inr l ↦ rw (l) h
]

lmtimer_start-IsWheel : (t d : ℕ) (w : Wheel) → IsWheel w → IsWheel (lmtimer_start t d w)
unfolding lmtimer_start insert_timer
lmtimer_start-IsWheel t d w h =
    let out = take_out-IsWheel t w h in
    let last = placed t d (take_out t w).current_spoke in
    let more = length-append (take_out t w).linked (last ∷ []) in
    record {
      inside = out.inside;
      counted = omega (arith, out.counted);
      distinct = append-IsDistinct (take_out t w).linked last (taken_out t w) out.distinct;
    }

act_all-IsWheel : (calls : List Action) (w : Wheel) → IsWheel w → IsWheel (act_all calls w)
unfolding act_all act lmtimer_stop
act_all-IsWheel [] w h = h
act_all-IsWheel (start t d ∷ more) w h =
    act_all-IsWheel more (lmtimer_start t d w) (lmtimer_start-IsWheel t d w h)
act_all-IsWheel (stop t ∷ more) w h = act_all-IsWheel more (take_out t w) (take_out-IsWheel t w h)

visit-IsWheel :
    (callback : Callback) (e : Entry) (w : Wheel)
    → first_on w.current_spoke w.linked ≡ some e
    → IsWheel w
    → IsWheel (visit callback e w)
unfolding visit expire
visit-IsWheel callback e w first h = elim (Bool-cases (leb 1 e.rotation_count)) [
  | inl more ↦
      let same = length-decrement w.current_spoke w.linked in
      rw (more) record {
        inside = h.inside;
        counted = omega (arith, h.counted);
        distinct = decrement-IsDistinct w.current_spoke w.linked h.distinct;
      }
  | inr none_left ↦
      let gone = record w {
        linked = unlink e.timer w.linked;
        running_timers = w.running_timers - 1;
        expirations = w.expirations + 1;
      } in
      let (_, linked) = first_on-some w.current_spoke w.linked e first in
      let fewer = length-unlink e.timer w.linked h.distinct linked in
      let gone-IsWheel : IsWheel gone = record {
        inside = h.inside;
        counted = omega (arith, h.counted);
        distinct = unlink-IsDistinct e.timer w.linked h.distinct;
      } in
      rw (none_left) (act_all-IsWheel (callback e.timer w.expirations) gone gone-IsWheel)
]

expire_loop-IsWheel :
    (callback : Callback) (fuel : ℕ) (w v : Wheel)
    → expire_loop callback fuel w ≡ ok v
    → IsWheel w
    → IsWheel v
unfolding expire_loop
expire_loop-IsWheel callback zero w v run h = absurd (cc)
expire_loop-IsWheel callback (suc fuel) w v run h =
    elim (Option-cases (first_on w.current_spoke w.linked)) [
      | inl nobody ↦
          let same = (rw (expire_loop, nobody) at run) in
          subst (λ u. IsWheel u) (ok_injective same) h
      | inr (e, first) ↦
          let runs = (rw (expire_loop, first) at run) in
          expire_loop-IsWheel callback fuel (visit callback e w) v runs
            (visit-IsWheel callback e w first h)
    ]

-- What can happen to the wheel: the program starts or stops a timer, or the clock ticks.
pub data Step (callback : Callback) : Wheel → Wheel → Type 0 where
  starts : (t d : ℕ) (w : Wheel) → Step callback w (lmtimer_start t d w)
  stops : (t : ℕ) (w : Wheel) → Step callback w (lmtimer_stop t w)
  turns : (w v : Wheel) → handle_timers callback w ≡ ok v → Step callback w v

pub data Reaches (callback : Callback) : Wheel → Wheel → Type 0 where
  here : (w : Wheel) → Reaches callback w w
  after : (w v u : Wheel) → Step callback w v → Reaches callback v u → Reaches callback w u

Step-IsWheel : (callback : Callback) (w v : Wheel) → Step callback w v → IsWheel w → IsWheel v
unfolding lmtimer_stop handle_timers
Step-IsWheel callback _ _ (starts t d w) h = lmtimer_start-IsWheel t d w h
Step-IsWheel callback _ _ (stops t w) h = take_out-IsWheel t w h
Step-IsWheel callback _ _ (turns w v run) h =
    let c = (w.current_spoke + 1) % wheel_size in
    expire_loop-IsWheel callback (suc (work c w.linked)) (record w { current_spoke = c }) v run
      record { inside = omega arith; counted = h.counted; distinct = h.distinct }

keeps-IsWheel : (callback : Callback) (w v : Wheel) → Reaches callback w v → IsWheel w → IsWheel v
keeps-IsWheel callback _ _ (here w) h = h
keeps-IsWheel callback _ _ (after w v u step rest) h =
    keeps-IsWheel callback v u rest (Step-IsWheel callback w v step h)

-- Whatever is started, stopped and expires after lmtimers_init, callbacks included: no timer is linked
-- twice, running_timers is the number of the linked timers, and the current spoke is less than the
-- wheel's size.
pub reached-IsWheel :
    (callback : Callback) (w : Wheel) → Reaches callback lmtimers_init w → IsWheel w
reached-IsWheel callback w path = keeps-IsWheel callback lmtimers_init w path init-IsWheel
