-- ===== src/Nonces/Spec.antt =====
-- lispd/lib/nonces_table.c: the map from nonces to lists that the table stands for.
use lispmob.Prelude.{
  ℕ, ◌≡◌, ◌≢◌, inl, inr, refl, sym, ap, ◌∙◌, Bool, true, false, Bool-cases, Option, none, some,
  List, [], ◌∷◌, ◌==◌, ==→eq, ne→==, if◌then◌else◌,
}

-- what the table promises: a map from nonces to the lists that they belong to
abbrev pub Spec : Type 0
Spec = ℕ → Option ℕ

abbrev pub is_owner : ℕ → Option ℕ → Bool
is_owner p none = false
is_owner p (some q) = q == p

abbrev pub spec_insert : ℕ → ℕ → Spec → Spec
spec_insert n p m k = if n == k then some p else m k

abbrev pub spec_reset : ℕ → Spec → Spec
spec_reset p m k = if is_owner p (m k) then none else m k

pub data Op : Type 0 where
  insert : ℕ → ℕ → Op
  reset : ℕ → Op

abbrev pub spec_run : List Op → Spec → Spec
spec_run [] m = m
spec_run (insert n p ∷ ops) m = spec_run ops (spec_insert n p m)
spec_run (reset p ∷ ops) m = spec_run ops (spec_reset p m)

-- Each nonce is new when it is inserted.
abbrev pub IsFresh : List Op → Spec → Type 0
IsFresh [] m = Unit
IsFresh (insert n p ∷ ops) m = (m n ≡ none) × IsFresh ops (spec_insert n p m)
IsFresh (reset p ∷ ops) m = IsFresh ops (spec_reset p m)

pub owner_eq : (p : ℕ) (o : Option ℕ) → is_owner p o ≡ true → o ≡ some p
owner_eq p none h = absurd (cc)
owner_eq p (some q) h = ap some (==→eq q p h)

pub no_owner : (p : ℕ) (o : Option ℕ) → false ≡ is_owner p (if is_owner p o then none else o)
no_owner p o = elim (Bool-cases (is_owner p o)) [
  | inl own ↦ rw (own) refl
  | inr other ↦ rw (other) (sym other)
]

pub same_owner :
    (p q : ℕ) (o : Option ℕ) → q ≢ p → is_owner q o ≡ is_owner q (if is_owner p o then none else o)
same_owner p q o ne = elim (Bool-cases (is_owner p o)) [
  | inl own ↦
      let it = owner_eq p o own in
      let apart = ne→== p q (λ e. ne (sym e)) in rw (own) (ap (λ x. is_owner q x) it ∙ apart)
  | inr other ↦ rw (other) refl
]
