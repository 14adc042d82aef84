-- ===== src/TimerTables.antt =====
-- lispd/lib/pointers_table.c and timers_utils.c: the timers that belong to an object, and stopping them. The
-- hash table of pointers is khash again. Lists and timers are their pointers, with what these point to; a
-- timer that was freed points to nothing. A list of nonces that is freed is not used again.
pub mod Awaited
pub mod Stopped
mod Tests
use lispmob.Prelude.{
  ℕ, ◌-◌, Bool, true, false, Option, none, some, List, [], ◌∷◌, ◌==◌, if◌then◌else◌, length, filter,
  not, Run, ok, fault, dangling_pointer, ◌>>=◌,
}
use lispmob.Glist.{Glist, glist_new, glist_add, glist_remove_obj}
use lispmob.Locator.Lists.{Status, good, bad, err_no_exist}
use lispmob.Nonces.{Khash, Nonces, nonces_list_new_init, set_list, htable_nonces_reset_nonces_lst}
use lispmob.Timers.{Wheel, lmtimer_stop}

-- of `lmtimer_t`: its type and the pointer to its nonces
pub record Timer : Type 0 where
  pub type : ℕ
  pub nonces_lst : Option ℕ

-- a timer that is not freed
abbrev pub timer_at : (ℕ → Option Timer) → ℕ → Run Timer
timer_at timers t = elim (timers t) as (λ _. Run Timer) [
  | none ↦ fault dangling_pointer
  | some x ↦ ok x
]

abbrev pub set_timer : ℕ → Option Timer → (ℕ → Option Timer) → ℕ → Option Timer
set_timer t o timers u = if t == u then o else timers u

-- whether a timer has the type
unfoldable pub is_of_type : (ℕ → Option Timer) → ℕ → ℕ → Run Bool
is_of_type timers type t = timer_at timers t >>= (λ x. ok (type == x.type))

-- The loops over the timers: those of the type, each added before the last, and the others.
unfoldable pub by_type : (ℕ → Option Timer) → ℕ → List ℕ → Glist ℕ × List ℕ → Run (Glist ℕ × List ℕ)
unfolding is_of_type glist_add
by_type timers type [] s = ok s
by_type timers type (t ∷ ts) s =
    is_of_type timers type t
    >>= (λ b. by_type timers type ts (if b then ((glist_add t s.0).1, s.1) else (s.0, t ∷ s.1)))

unfoldable pub reversed : List ℕ → List ℕ → List ℕ
reversed [] ys = ys
reversed (x ∷ xs) ys = reversed xs (x ∷ ys)

module _ (kh : Khash) where
  -- `htable_ptrs_t` with the lists that its values point to
  pub record Ptrs : Type 0 where
    pub ht : kh.Table
    pub lists : ℕ → Glist ℕ

  unfoldable pub htable_ptrs_new : Ptrs
  unfolding glist_new
  htable_ptrs_new = record { ht = kh.kh_init; lists = λ p. glist_new }

  unfoldable pub htable_ptrs_insert : ℕ → ℕ → Ptrs → Ptrs
  htable_ptrs_insert key val s = record s { ht = kh.kh_put s.ht key val }

  unfoldable pub htable_ptrs_remove : ℕ → Ptrs → Option ℕ × Ptrs
  htable_ptrs_remove key s = elim (kh.kh_get s.ht key) as (λ _. Option ℕ × Ptrs) [
    | none ↦ (none, s)
    | some val ↦ (some val, record s { ht = kh.kh_del s.ht key })
  ]

  unfoldable pub htable_ptrs_lookup : ℕ → Ptrs → Option ℕ
  htable_ptrs_lookup key s = kh.kh_get s.ht key

  -- the list of an object; `new` is the pointer to a list that is made if there is none
  unfoldable pub own_list : ℕ → ℕ → Ptrs → ℕ × Ptrs
  unfolding htable_ptrs_lookup htable_ptrs_insert glist_new
  own_list key new s = elim (htable_ptrs_lookup key s) as (λ _. ℕ × Ptrs) [
    | none ↦ (new, htable_ptrs_insert key new (record s { lists = set_list new glist_new s.lists }))
    | some p ↦ (p, s)
  ]

  unfoldable pub htable_ptrs_timers_add : ℕ → ℕ → ℕ → Ptrs → Bool × Ptrs
  unfolding own_list glist_add
  htable_ptrs_timers_add key timer new s =
      let (p, t) = own_list key new s in
      let added = glist_add timer (t.lists p) in
      (added.0, record t { lists = set_list p added.1 t.lists })

  unfoldable pub htable_ptrs_timers_get_timers : ℕ → Ptrs → Option ℕ
  unfolding htable_ptrs_lookup
  htable_ptrs_timers_get_timers key s = htable_ptrs_lookup key s

  unfoldable pub htable_ptrs_timers_get_timers_of_type :
      (ℕ → Option Timer) → ℕ → ℕ → Ptrs → Run (Option (Glist ℕ))
  unfolding htable_ptrs_lookup by_type glist_new
  htable_ptrs_timers_get_timers_of_type timers key type s =
      elim (htable_ptrs_lookup key s) as (λ _. Run (Option (Glist ℕ))) [
        | none ↦ ok none
        | some p ↦ by_type timers type (s.lists p).elems (glist_new, []) >>= (λ r. ok (some r.0))
      ]

  unfoldable pub htable_ptrs_timers_rm : ℕ → Ptrs → Option ℕ × Ptrs
  unfolding htable_ptrs_remove
  htable_ptrs_timers_rm key s = htable_ptrs_remove key s

  -- the list without the timers of the type, which are counted off one by one
  unfoldable pub htable_ptrs_timers_rm_timers_of_type :
      (ℕ → Option Timer) → ℕ → ℕ → Ptrs → Run (Glist ℕ × Ptrs)
  unfolding htable_ptrs_lookup by_type glist_new reversed
  htable_ptrs_timers_rm_timers_of_type timers key type s =
      elim (htable_ptrs_lookup key s) as (λ _. Run (Glist ℕ × Ptrs)) [
        | none ↦ ok (glist_new, s)
        | some p ↦
            let g = s.lists p in
            by_type timers type g.elems (glist_new, []) >>= (λ r.
              let left = record g { size = g.size - r.0.size; elems = reversed r.1 [] } in
              ok (r.0, record s { lists = set_list p left s.lists }))
      ]

  unfoldable pub htable_ptrs_timers_rm_timer : ℕ → ℕ → Ptrs → Status × Ptrs
  unfolding htable_ptrs_lookup glist_remove_obj
  htable_ptrs_timers_rm_timer key timer s =
      elim (htable_ptrs_lookup key s) as (λ _. Status × Ptrs) [
        | none ↦ (err_no_exist, s)
        | some p ↦
            let g = (glist_remove_obj (λ a b. a == b) timer (s.lists p)).1 in
            (good, record s { lists = set_list p g s.lists })
      ]

-- the table of the objects, that of the nonces, the timers and the wheel
pub record Clock (ptrs_ht nonces_ht : Khash) : Type 0 where
  pub ptrs : Ptrs ptrs_ht
  pub nonces : Nonces nonces_ht
  pub timers : ℕ → Option Timer
  pub wheel : Wheel

module _ {kn : Khash} where
  unfoldable pub reset_nonces : Option ℕ → Nonces kn → Nonces kn
  unfolding htable_nonces_reset_nonces_lst
  reset_nonces none n = n
  reset_nonces (some p) n = htable_nonces_reset_nonces_lst kn p n

module _ {kp kn : Khash} where
  -- the new timer at the pointer `t`, its list of nonces at `p`
  unfoldable pub lmtimer_with_nonce_new : ℕ → ℕ → ℕ → Clock kp kn → Clock kp kn
  unfolding nonces_list_new_init
  lmtimer_with_nonce_new type t p s = record s {
    timers = set_timer t (some (record { type = type; nonces_lst = some p })) s.timers;
    nonces = record (s.nonces) { lists = set_list p nonces_list_new_init s.nonces.lists };
  }

  -- the body of the loops: `lmtimer_stop` also frees the timer
  unfoldable pub stop_one : ℕ → Clock kp kn → Run (Clock kp kn)
  unfolding reset_nonces lmtimer_stop
  stop_one t s = timer_at s.timers t >>= (λ x. ok (record s {
    nonces = reset_nonces x.nonces_lst s.nonces;
    wheel = lmtimer_stop t s.wheel;
    timers = set_timer t none s.timers;
  }))

  unfoldable pub stop_all : List ℕ → Clock kp kn → Run (Clock kp kn)
  unfolding stop_one
  stop_all [] s = ok s
  stop_all (t ∷ ts) s = stop_one t s >>= (λ r. stop_all ts r)

  unfoldable pub stop_timer_from_obj : ℕ → ℕ → Clock kp kn → Run (Clock kp kn)
  unfolding stop_one htable_ptrs_timers_rm_timer
  stop_timer_from_obj obj t s =
      stop_one t (record s { ptrs = (htable_ptrs_timers_rm_timer kp obj t s.ptrs).1 })

  unfoldable pub stop_timers_from_obj : ℕ → Clock kp kn → Run (Status × Clock kp kn)
  unfolding stop_all htable_ptrs_timers_rm
  stop_timers_from_obj obj s =
      let (found, ptrs) = htable_ptrs_timers_rm kp obj s.ptrs in
      elim found as (λ _. Run (Status × Clock kp kn)) [
        | none ↦ ok (bad, s)
        | some p ↦
            stop_all (s.ptrs.lists p).elems (record s { ptrs = ptrs }) >>= (λ r. ok (good, r))
      ]

  unfoldable pub stop_timers_of_type_from_obj : ℕ → ℕ → Clock kp kn → Run (Clock kp kn)
  unfolding stop_all htable_ptrs_timers_rm_timers_of_type
  stop_timers_of_type_from_obj obj type s =
      htable_ptrs_timers_rm_timers_of_type kp s.timers obj type s.ptrs
      >>= (λ r. stop_all r.0.elems (record s { ptrs = r.1 }))
