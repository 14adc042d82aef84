-- ===== src/TimerTables/Awaited.antt =====
-- lispd/lib/timers_utils.c: the nonces that the timers of a list wait for, and what is left of a list of
-- nonces.
use lispmob.Prelude.{
  ℕ, ◌-◌, ◌≡◌, ◌≢◌, inl, inr, refl, sym, ap, subst, ◌∙◌, arith, Bool, true, false, ◌||◌, Bool-cases,
  Option, none, some, Option-cases, List, [], ◌∷◌, ◌==◌, ==→eq, ==→ne, eq→==, ne→==, if◌then◌else◌,
  length,
}
use lispmob.Glist.{Glist}
use lispmob.Nonces.{Khash, Nonces, reset_loop, htable_nonces_reset_nonces_lst}
use lispmob.Nonces.Lists.{holds, set_list-elim}
use lispmob.Nonces.Refine.{get-del_if, both}
use lispmob.Timers.{Wheel, is_linked, unlink, take_out}
use lispmob.Timers.Entries.{is_linked-unlink, is_linked-unlink_other}
use lispmob.TimerTables.{Timer, set_timer, reset_nonces}

-- whether a nonce stands in a list of nonces, and in that of a timer
abbrev pub in_list : (ℕ → Glist ℕ) → ℕ → Option ℕ → Bool
in_list lists k none = false
in_list lists k (some q) = holds k (lists q).elems

abbrev pub has_nonce : (ℕ → Glist ℕ) → ℕ → Option Timer → Bool
has_nonce lists k none = false
has_nonce lists k (some x) = in_list lists k x.nonces_lst

-- whether one of the timers waits for the answer with a nonce
unfoldable pub is_awaited : (ℕ → Option Timer) → (ℕ → Glist ℕ) → ℕ → List ℕ → Bool
is_awaited timers lists k [] = false
is_awaited timers lists k (t ∷ ts) = has_nonce lists k (timers t) || is_awaited timers lists k ts

-- none of the timers is freed
abbrev pub AllLive : (ℕ → Option Timer) → List ℕ → Type 0
AllLive timers [] = Unit
AllLive timers (t ∷ ts) = ((x : Timer) × (timers t ≡ some x)) × AllLive timers ts

pub none_either : (b : Bool) (o : Option ℕ) → o ≡ none → (if b then o else o) ≡ none
none_either true o h = h
none_either false o h = h

module _ (kh : Khash) where
  pub reset_loop-get :
      (k : ℕ) (ns : List ℕ) (t : kh.Table)
      → kh.kh_get (reset_loop kh ns t).1 k ≡ (if holds k ns then none else kh.kh_get t k)
  unfolding reset_loop holds
  reset_loop-get k [] t = refl
  reset_loop-get k (n ∷ ns) t = elim (Option-cases (kh.kh_get t n)) [
    | inl gone ↦
        let rest = reset_loop-get k ns t in
        rw (reset_loop, gone)
          (elim (Bool-cases (n == k)) [
            | inl same ↦
                let missing = subst (λ l. kh.kh_get t l ≡ none) (==→eq n k same) gone in
                let both_ways = none_either (holds k ns) none refl in
                rw (same) (rest ∙ ap (λ o. if holds k ns then none else o) missing ∙ both_ways)
            | inr other ↦ rw (other) rest
          ])
    | inr (p, found) ↦
        rw (reset_loop, found)
          (reset_loop-get k ns (kh.kh_del t n)
            ∙ ap (λ o. if holds k ns then none else o) (get-del_if kh t n k)
            ∙ both (n == k) (holds k ns) (kh.kh_get t k))
  ]

  -- What stays in the list was there.
  pub reset_loop-missed :
      (k : ℕ) (ns : List ℕ) (t : kh.Table)
      → holds k ns ≡ false
      → holds k (reset_loop kh ns t).0 ≡ false
  unfolding reset_loop holds
  reset_loop-missed k [] t h = refl
  reset_loop-missed k (n ∷ ns) t h = elim (Option-cases (kh.kh_get t n)) [
    | inl gone ↦
        let rest = reset_loop-missed k ns t (ground arith) in rw (reset_loop, gone) (ground arith)
    | inr (p, found) ↦
        rw (reset_loop, found) (reset_loop-missed k ns (kh.kh_del t n) (ground arith))
  ]

  pub reset_nonces-get :
      (o : Option ℕ) (k : ℕ) (n : Nonces kh)
      → kh.kh_get (reset_nonces {kn = kh} o n).ht k
        ≡ (if in_list n.lists k o then none else kh.kh_get n.ht k)
  unfolding reset_nonces htable_nonces_reset_nonces_lst
  reset_nonces-get none k n = refl
  reset_nonces-get (some q) k n = reset_loop-get k (n.lists q).elems n.ht

  -- A list that lacks a nonce still does, and the others are as they were.
  pub reset_nonces-lists :
      (o : Option ℕ) (k : ℕ) (n : Nonces kh)
      → in_list n.lists k o ≡ false
      → (r : ℕ) → holds k ((reset_nonces {kn = kh} o n).lists r).elems ≡ holds k (n.lists r).elems
  unfolding reset_nonces htable_nonces_reset_nonces_lst
  reset_nonces-lists none k n h r = refl
  reset_nonces-lists (some q) k n h r =
      let g = n.lists q in
      let left = reset_loop kh g.elems n.ht in
      set_list-elim (λ r l. holds k l.elems ≡ holds k (n.lists r).elems) q
        (record g { size = g.size - (length g.elems - length left.0); elems = left.0 }) n.lists
        (reset_loop-missed k g.elems n.ht h ∙ sym h) (λ r ne. refl) r

pub same_nonce :
    (l m : ℕ → Glist ℕ) (k : ℕ) (o : Option Timer)
    → ((r : ℕ) → holds k (l r).elems ≡ holds k (m r).elems)
    → has_nonce l k o ≡ has_nonce m k o
same_nonce l m k none h = refl
same_nonce l m k (some x) h = elim x.nonces_lst as (λ o. in_list l k o ≡ in_list m k o) [
  | none ↦ refl
  | some q ↦ h q
]

pub set_timer-other :
    (t : ℕ) (o : Option Timer) (timers : ℕ → Option Timer) (u : ℕ)
    → u ≢ t
    → set_timer t o timers u ≡ timers u
set_timer-other t o timers u h = rw (ne→== t u (λ e. h (sym e))) refl

-- Freeing a timer changes nothing for the others.
pub is_awaited-set_timer :
    (l m : ℕ → Glist ℕ) (k t : ℕ) (timers : ℕ → Option Timer) (ts : List ℕ)
    → holds t ts ≡ false
    → ((r : ℕ) → holds k (l r).elems ≡ holds k (m r).elems)
    → is_awaited (set_timer t none timers) l k ts ≡ is_awaited timers m k ts
unfolding is_awaited holds
is_awaited-set_timer l m k t timers [] new h = refl
is_awaited-set_timer l m k t timers (u ∷ ts) new h =
    let other : u ≢ t = λ e. let yes = eq→== u t e in ground arith in
    let rest = is_awaited-set_timer l m k t timers ts (ground arith) h in
    let first =
      ap (has_nonce l k) (set_timer-other t none timers u other) ∙ same_nonce l m k (timers u) h in
    ap (λ b. b || is_awaited (set_timer t none timers) l k ts) first
    ∙ ap (λ b. has_nonce m k (timers u) || b) rest

pub AllLive-set_timer :
    (t : ℕ) (timers : ℕ → Option Timer) (ts : List ℕ)
    → holds t ts ≡ false
    → AllLive timers ts
    → AllLive (set_timer t none timers) ts
unfolding holds
AllLive-set_timer t timers [] new h = tt
AllLive-set_timer t timers (u ∷ ts) new ((x, live), h) =
    let other : u ≢ t = λ e. let yes = eq→== u t e in ground arith in
    (
      (x, set_timer-other t none timers u other ∙ live),
      AllLive-set_timer t timers ts (ground arith) h,
    )

pub take_out-linked :
    (u t : ℕ) (w : Wheel)
    → is_linked u (take_out t w).linked ≡ (if t == u then false else is_linked u w.linked)
unfolding take_out
take_out-linked u t w = elim (Bool-cases (is_linked t w.linked)) [
  | inl there ↦ elim (Bool-cases (t == u)) [
    | inl same ↦
        rw (there, same)
          (subst (λ v. is_linked v (unlink t w.linked) ≡ false) (==→eq t u same)
            (is_linked-unlink t w.linked))
    | inr other ↦
        rw (there, other) (is_linked-unlink_other u t w.linked (λ e. ==→ne t u other (sym e)))
  ]
  | inr free ↦ elim (Bool-cases (t == u)) [
    | inl same ↦ rw (free, same) (subst (λ v. is_linked v w.linked ≡ false) (==→eq t u same) free)
    | inr other ↦ rw (free, other) refl
  ]
]
