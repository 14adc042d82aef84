-- ===== src/TimerTables/Stopped.antt =====
-- lispd/lib/timers_utils.c: what is left of the timers of an object that are stopped.
use lispmob.Prelude.{
  ℕ, ◌≡◌, inl, inr, refl, ap, ◌∙◌, Bool, true, false, ◌||◌, Bool-cases, Option, none, some, List,
  [], ◌∷◌, ◌==◌, if◌then◌else◌, Run, ok, fault, dangling_pointer, ◌>>=◌, Returns,
}
use lispmob.Locator.Lists.{Status, good, bad}
use lispmob.Nonces.{Khash, htable_nonces_lookup}
use lispmob.Nonces.Lists.{holds, IsDistinct}
use lispmob.Nonces.Refine.{get-del_if}
use lispmob.Timers.{is_linked, lmtimer_stop}
use lispmob.TimerTables.{
  Timer, set_timer, Ptrs, htable_ptrs_lookup, htable_ptrs_remove, htable_ptrs_timers_rm, Clock,
  reset_nonces, stop_one, stop_all, stop_timers_from_obj,
}
use lispmob.TimerTables.Awaited.{
  in_list, is_awaited, AllLive, none_either, reset_nonces-get, reset_nonces-lists,
  is_awaited-set_timer, AllLive-set_timer, take_out-linked,
}

either {ℓ} :
    {A : Type ℓ} (a b : Bool) (x y : A)
    → (if b then x else (if a then x else y)) ≡ (if a || b then x else y)
either true true x y = refl
either true false x y = refl
either false b x y = refl

abbrev at_timer : Option Timer → Run Timer
at_timer none = fault dangling_pointer
at_timer (some x) = ok x

rm-found :
    (kh : Khash) (obj p : ℕ) (s : Ptrs kh)
    → htable_ptrs_lookup kh obj s ≡ some p
    → htable_ptrs_timers_rm kh obj s ≡ (some p, record s { ht = kh.kh_del s.ht obj })
unfolding htable_ptrs_lookup htable_ptrs_timers_rm htable_ptrs_remove
rm-found kh obj p s found =
    ap
      (λ o. elim o as (λ _. Option ℕ × Ptrs kh) [
        | none ↦ (none, s)
        | some val ↦ (some val, record s { ht = kh.kh_del s.ht obj })
      ])
      found

module _ {kp kn : Khash} where
  -- what stopping timers does to the timers, the wheel and the nonces
  record IsStopped (ts : List ℕ) (s : Clock kp kn) (r : Clock kp kn) : Type 1 where
    ptrs : r.ptrs ≡ s.ptrs
    timers : (t : ℕ) → r.timers t ≡ (if holds t ts then none else s.timers t)
    wheel :
        (t : ℕ)
        → is_linked t r.wheel.linked ≡ (if holds t ts then false else is_linked t s.wheel.linked)
    nonces :
        (k : ℕ)
        → htable_nonces_lookup kn k r.nonces ≡ (
            if is_awaited s.timers s.nonces.lists k ts
            then none
            else htable_nonces_lookup kn k s.nonces)

  abbrev stopped : ℕ → Timer → Clock kp kn → Clock kp kn
  stopped t x s = record s {
    nonces = reset_nonces {kn = kn} x.nonces_lst s.nonces;
    wheel = lmtimer_stop t s.wheel;
    timers = set_timer t none s.timers;
  }

  stop_one-ok :
      (t : ℕ) (x : Timer) (s : Clock kp kn)
      → s.timers t ≡ some x
      → stop_one t s ≡ ok (stopped t x s)
  unfolding stop_one
  stop_one-ok t x s at = ap (λ o. at_timer o >>= (λ y. ok (stopped t y s))) at

  -- the nonces of the first timer, and then those of the others
  nonces-cons :
      (t k : ℕ) (x : Timer) (ts : List ℕ) (s : Clock kp kn)
      → s.timers t ≡ some x
      → holds t ts ≡ false
      → (if is_awaited (stopped t x s).timers (stopped t x s).nonces.lists k ts
          then none
          else kn.kh_get (stopped t x s).nonces.ht k)
        ≡ (if is_awaited s.timers s.nonces.lists k (t ∷ ts) then none else kn.kh_get s.nonces.ht k)
  unfolding is_awaited
  nonces-cons t k x ts s at new =
      let table = reset_nonces-get kn x.nonces_lst k s.nonces in
      let awaited = is_awaited (stopped t x s).timers (stopped t x s).nonces.lists k ts in
      rw (at) (elim (Bool-cases (in_list s.nonces.lists k x.nonces_lst)) [
        | inl there ↦ rw (there) (
            ap (λ o. if awaited then none else o) (table ∙ (rw (there) refl))
            ∙ none_either awaited none refl)
        | inr apart ↦
            let lists = reset_nonces-lists kn x.nonces_lst k s.nonces apart in
            let same =
              is_awaited-set_timer (stopped t x s).nonces.lists s.nonces.lists k t s.timers ts new
                lists in
            rw (apart) (
              ap (λ o. if awaited then none else o) (table ∙ (rw (apart) refl))
              ∙ ap (λ b. if b then none else kn.kh_get s.nonces.ht k) same)
      ])

  cons-IsStopped :
      (t : ℕ) (x : Timer) (ts : List ℕ) (s r : Clock kp kn)
      → s.timers t ≡ some x
      → holds t ts ≡ false
      → IsStopped ts (stopped t x s) r
      → IsStopped (t ∷ ts) s r
  unfolding holds lmtimer_stop htable_nonces_lookup
  cons-IsStopped t x ts s r at new h = record {
    ptrs = h.ptrs;
    timers = λ u. h.timers u ∙ either (t == u) (holds u ts) none (s.timers u);
    wheel = λ u.
        h.wheel u
        ∙ ap (λ b. if holds u ts then false else b) (take_out-linked u t s.wheel)
        ∙ either (t == u) (holds u ts) false (is_linked u s.wheel.linked);
    nonces = λ k. h.nonces k ∙ nonces-cons t k x ts s at new;
  }

  stop_all-IsStopped :
      (ts : List ℕ) (s : Clock kp kn)
      → IsDistinct ts
      → AllLive s.timers ts
      → Returns (stop_all ts s) (IsStopped ts s)
  unfolding stop_all holds is_awaited
  stop_all-IsStopped [] s distinct live =
      (s, refl, record { ptrs = refl; timers = λ t. refl; wheel = λ t. refl; nonces = λ k. refl })
  stop_all-IsStopped (t ∷ ts) s (new, distinct) ((x, at), live) =
      let (r, e, h) =
        stop_all-IsStopped ts (stopped t x s) distinct (AllLive-set_timer t s.timers ts new live) in
      (r, rw (stop_one-ok t x s at) e, cons-IsStopped t x ts s r at new h)

  -- The timers of an object, which are live and listed once, are stopped by stop_timers_from_obj: it
  -- answers GOOD and forgets the list of the object and no other. Of the timers exactly these are
  -- freed, and on the wheel exactly these are not linked any more. Exactly the nonces in their
  -- lists are not found any more, and the others as before.
  pub stop_timers_from_obj-IsStopped :
      (obj o t k p : ℕ) (s : Clock kp kn)
      → htable_ptrs_lookup kp obj s.ptrs ≡ some p
      → IsDistinct (s.ptrs.lists p).elems
      → AllLive s.timers (s.ptrs.lists p).elems
      → Returns (stop_timers_from_obj obj s) (λ r.
        (r.0 ≡ good)
        × (htable_ptrs_lookup kp o r.1.ptrs
            ≡ (if obj == o then none else htable_ptrs_lookup kp o s.ptrs))
        × (r.1.timers t ≡ (if holds t (s.ptrs.lists p).elems then none else s.timers t))
        × (is_linked t r.1.wheel.linked
            ≡ (if holds t (s.ptrs.lists p).elems then false else is_linked t s.wheel.linked))
        × (htable_nonces_lookup kn k r.1.nonces ≡ (
            if is_awaited s.timers s.nonces.lists k (s.ptrs.lists p).elems
            then none
            else htable_nonces_lookup kn k s.nonces)))
  unfolding stop_timers_from_obj htable_ptrs_lookup
  stop_timers_from_obj-IsStopped obj o t k p s found distinct live =
      let ptrs = record (s.ptrs) { ht = kp.kh_del s.ptrs.ht obj } in
      let ts = (s.ptrs.lists p).elems in
      let after : Option ℕ × Ptrs kp → Run (Status × Clock kp kn) = λ v.
        elim v.0 as (λ _. Run (Status × Clock kp kn)) [
          | none ↦ ok (bad, s)
          | some q ↦
              stop_all (s.ptrs.lists q).elems (record s { ptrs = v.1 }) >>= (λ r. ok (good, r))
        ] in
      let (r, e, h) = stop_all-IsStopped ts (record s { ptrs = ptrs }) distinct live in
      (
        (good, r),
        ap after (rm-found kp obj p s.ptrs found) ∙ ap (λ c. c >>= (λ r. ok (good, r))) e,
        (
          refl,
          ap (λ q. kp.kh_get q.ht o) h.ptrs ∙ get-del_if kp s.ptrs.ht obj o,
          h.timers t,
          h.wheel t,
          h.nonces k,
        ),
      )
