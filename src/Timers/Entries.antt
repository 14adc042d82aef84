-- ===== src/Timers/Entries.antt =====
-- lispd/lib/timers.c: the entries of the linked timers under linking, unlinking and a lost rotation.
use lispmob.Prelude.{
  ℕ, suc, ◌-◌, ◌≤◌, ◌≡◌, ◌≢◌, ◌⊎◌, refl, arith, true, false, ◌||◌, none, some, List, [], ◌∷◌, ◌++◌,
  ◌==◌, if◌then◌else◌,
}
use lispmob.Timers.{Entry, is_linked, unlink, first_on, decrement, work}

pub is_linked-unlink : (t : ℕ) (es : List Entry) → is_linked t (unlink t es) ≡ false
unfolding is_linked unlink
is_linked-unlink t [] = refl
is_linked-unlink t (e ∷ es) = let rest = is_linked-unlink t es in ground arith

pub is_linked-unlink_other :
    (t u : ℕ) (es : List Entry) → t ≢ u → is_linked t (unlink u es) ≡ is_linked t es
unfolding is_linked unlink
is_linked-unlink_other t u [] h = refl
is_linked-unlink_other t u (e ∷ es) h = let rest = is_linked-unlink_other t u es h in ground arith

pub is_linked-append :
    (t : ℕ) (es : List Entry) (e : Entry)
    → is_linked t (es ++ e ∷ []) ≡ is_linked t es || (e.timer == t)
unfolding is_linked
is_linked-append t [] e = ground arith
is_linked-append t (x ∷ es) e = let rest = is_linked-append t es e in ground arith

pub is_linked-decrement :
    (t c : ℕ) (es : List Entry) → is_linked t (decrement c es) ≡ is_linked t es
unfolding is_linked decrement
is_linked-decrement t c [] = refl
is_linked-decrement t c (e ∷ es) = let rest = is_linked-decrement t c es in ground arith

pub work-unlink : (c t : ℕ) (es : List Entry) → work c (unlink t es) ≤ work c es
unfolding work unlink
work-unlink c t [] = omega arith
work-unlink c t (e ∷ es) = let rest = work-unlink c t es in ground arith

pub work-append :
    (c : ℕ) (es : List Entry) (e : Entry) → e.spoke ≢ c → work c (es ++ e ∷ []) ≡ work c es
unfolding work
work-append c [] e h = ground arith
work-append c (x ∷ es) e h = let rest = work-append c es e h in ground arith

pub work-decrement :
    (c : ℕ) (es : List Entry) (e : Entry)
    → first_on c es ≡ some e
    → 1 ≤ e.rotation_count
    → suc (work c (decrement c es)) ≡ work c es
unfolding work decrement first_on
work-decrement c [] e h r = absurd (cc)
work-decrement c (x ∷ es) e h r = let rest = work-decrement c es e in ground arith

pub work-expire :
    (c : ℕ) (es : List Entry) (e : Entry)
    → first_on c es ≡ some e
    → suc (work c (unlink e.timer es)) ≤ work c es
unfolding work unlink first_on
work-expire c [] e h = absurd (cc)
work-expire c (x ∷ es) e h =
    let rest = work-expire c es e in let less = work-unlink c e.timer es in ground arith

-- Every entry of a timer is at one spoke.
abbrev pub IsAt : ℕ → ℕ → List Entry → Type 0
IsAt t s [] = Unit
IsAt t s (e ∷ es) = ((e.timer ≢ t) ⊎ (e.spoke ≡ s)) × IsAt t s es

pub unlink-IsAt : (t s u : ℕ) (es : List Entry) → IsAt t s es → IsAt t s (unlink u es)
unfolding unlink
unlink-IsAt t s u [] h = tt
unlink-IsAt t s u (e ∷ es) (first, h) =
    let rest = unlink-IsAt t s u es h in
    elim (e.timer == u) as (λ b. IsAt t s (if b then unlink u es else e ∷ unlink u es)) [
      | true ↦ rest
      | false ↦ (first, rest)
    ]

pub unlinked-IsAt : (t s : ℕ) (es : List Entry) → is_linked t es ≡ false → IsAt t s es
unfolding is_linked
unlinked-IsAt t s [] h = tt
unlinked-IsAt t s (e ∷ es) h = (ground arith, unlinked-IsAt t s es (ground arith))

pub append-IsAt :
    (t s : ℕ) (es : List Entry) (e : Entry)
    → IsAt t s es
    → (e.timer ≢ t) ⊎ (e.spoke ≡ s)
    → IsAt t s (es ++ e ∷ [])
append-IsAt t s [] e h last = (last, tt)
append-IsAt t s (x ∷ es) e (first, h) last = (first, append-IsAt t s es e h last)

pub decrement-IsAt : (t s c : ℕ) (es : List Entry) → IsAt t s es → IsAt t s (decrement c es)
unfolding decrement
decrement-IsAt t s c [] h = tt
decrement-IsAt t s c (e ∷ es) (first, h) =
    let rest = decrement-IsAt t s c es h in
    let less = record e { rotation_count = e.rotation_count - 1 } in
    elim (e.spoke == c) as (λ b. IsAt t s (if b then less ∷ es else e ∷ decrement c es)) [
      | true ↦ (first, h)
      | false ↦ (first, rest)
    ]

-- The first timer of a spoke is linked there.
pub first_on-some :
    (c : ℕ) (es : List Entry) (e : Entry)
    → first_on c es ≡ some e
    → (e.spoke ≡ c) × (is_linked e.timer es ≡ true)
unfolding first_on is_linked
first_on-some c [] e h = absurd (cc)
first_on-some c (x ∷ es) e h = let rest = first_on-some c es e in (ground arith, ground arith)

-- It is a timer whose entries are all elsewhere only if it is another one.
pub first_on-other :
    (c t s : ℕ) (es : List Entry) (e : Entry)
    → first_on c es ≡ some e
    → IsAt t s es
    → (e.timer ≢ t) ⊎ (s ≡ c)
unfolding first_on
first_on-other c t s [] e h at_s = absurd (cc)
first_on-other c t s (x ∷ es) e h (first, at_s) =
    let rest = first_on-other c t s es e in ground arith

pub first_on-none :
    (c t : ℕ) (es : List Entry) → first_on c es ≡ none → IsAt t c es → is_linked t es ≡ false
unfolding first_on is_linked
first_on-none c t [] h at_c = refl
first_on-none c t (e ∷ es) h (first, at_c) = let rest = first_on-none c t es in ground arith
