-- ===== src/Glist/Insert.antt =====
-- lispd/lib/generic_list.c `glist_add` with a comparison function.
use lispmob.Prelude.{
  ℕ, zero, suc, ◌+◌, ◌≤◌, ◌≡◌, ◌≢◌, ◌⊎◌, inl, inr, refl, sym, subst, Bool, true, false, none, some,
  List, [], ◌∷◌, ◌==◌, if◌then◌else◌, get_elem?, length, take, drop, All, arith, Bool-cases, ==→eq,
  ap, ◌∙◌,
}
use lispmob.Address.{Cmp, equal, bigger, smaller, different, unsupported, is_negative}
use lispmob.Glist.{Glist, add_loop, insert_at, add_sorted, add_by, glist_add}
use lispmob.Glist.Counted.{IsCounted}

module _ {ℓ} {A : Type ℓ} (cmp : A → A → Cmp) where
  -- the first entry is bigger than `x`, or there is none
  abbrev pub IsBelow : A → List A → Type 0
  IsBelow x [] = Unit
  IsBelow x (y ∷ ys) = cmp x y ≡ smaller

  -- No entry is bigger than one after it.
  abbrev pub IsSorted : List A → Type 0
  IsSorted [] = Unit
  IsSorted (x ∷ xs) = All (λ y. cmp y x ≢ smaller) xs × IsSorted xs

  -- `m` entries come before `x`, none of them bigger, and the next one is bigger.
  abbrev pub IsPlace : A → List A → ℕ → Type 0
  IsPlace x xs m =
      (m ≤ length xs) × All (λ y. cmp x y ≢ smaller) (take m xs) × IsBelow x (drop m xs)

  abbrev pub FailsAt : A → List A → ℕ → Type ℓ
  FailsAt x xs n = (y : A) × (get_elem? xs n ≡ some y) × (is_negative (cmp x y) ≡ true)

  abbrev Loops : A → List A → ℕ → Type ℓ
  Loops x xs k =
      ((add_loop cmp x xs k ≡ none) × (n : ℕ) × FailsAt x xs n)
      ⊎ ((m : ℕ) × (add_loop cmp x xs k ≡ some (k + m)) × IsPlace x xs m)

  loop_skip :
      (x y : A) (ys : List A) (k : ℕ)
      → cmp x y ≢ smaller
      → add_loop cmp x (y ∷ ys) k ≡ add_loop cmp x ys (k + 1)
      → Loops x ys (k + 1)
      → Loops x (y ∷ ys) k
  loop_skip x y ys k h e (inl (f, n, b)) = inl (e ∙ f, suc n, b)
  loop_skip x y ys k h e (inr (m, f, b)) =
      inr (suc m, e ∙ (f ∙ ap some (omega arith)), (omega (arith, b.0), (h, b.1), b.2))

  loop_step :
      (x y : A) (ys : List A) (k : ℕ) (c : Cmp)
      → cmp x y ≡ c
      → Loops x ys (k + 1)
      → Loops x (y ∷ ys) k
  unfolding add_loop
  loop_step x y ys k smaller e h =
      inr (0, rw (add_loop, e) (ap some (omega arith)), (omega arith, tt, e))
  loop_step x y ys k different e h = inl (rw (add_loop, e) refl, 0, (y, refl, rw e refl))
  loop_step x y ys k unsupported e h = inl (rw (add_loop, e) refl, 0, (y, refl, rw e refl))
  loop_step x y ys k equal e h = loop_skip x y ys k (λ z. cc) (rw (add_loop, e) refl) h
  loop_step x y ys k bigger e h = loop_skip x y ys k (λ z. cc) (rw (add_loop, e) refl) h

  add_loop-Loops : (x : A) (xs : List A) (k : ℕ) → Loops x xs k
  unfolding add_loop
  add_loop-Loops x [] k = inr (0, ap some (omega arith), (omega arith, tt, tt))
  add_loop-Loops x (y ∷ ys) k = loop_step x y ys k (cmp x y) refl (add_loop-Loops x ys (k + 1))

  insert_end :
      (x : A) (xs : List A) (m : ℕ) → m ≡ length xs → insert_at (length xs) x xs ≡ insert_at m x xs
  insert_end x xs m e = rw e refl

  -- What `glist_add` answers: BAD with the list as it was, if the comparison with some element
  -- fails, or GOOD with `x` in its place.
  abbrev pub IsAdded : A → Glist A → Bool × Glist A → Type ℓ
  IsAdded x g r =
      ((r ≡ (false, g)) × (n : ℕ) × FailsAt x g.elems n)
      ⊎ ((m : ℕ) × (r ≡ (true, record g { size = g.size + 1; elems = insert_at m x g.elems }))
          × IsPlace x g.elems m)

  add_at_ctr :
      (x : A) (g : Glist A) (m : ℕ)
      → IsCounted g
      → insert_at (if m == g.size then length g.elems else m) x g.elems ≡ insert_at m x g.elems
  add_at_ctr x g m h = elim (Bool-cases (m == g.size)) [
    | inl e ↦ rw e (insert_end x g.elems m (==→eq _ _ e ∙ h))
    | inr e ↦ rw e refl
  ]

  added :
      (x : A) (g : Glist A) (m : ℕ)
      → IsCounted g
      → add_loop cmp x g.elems 0 ≡ some m
      → add_sorted cmp x g ≡ (true, record g { size = g.size + 1; elems = insert_at m x g.elems })
  unfolding add_sorted
  added x g m h e = rw (add_sorted, e, add_at_ctr x g m h) refl

  add_sorted-IsAdded : (x : A) (g : Glist A) → IsCounted g → IsAdded x g (add_sorted cmp x g)
  unfolding add_sorted
  add_sorted-IsAdded x g h = elim (add_loop-Loops x g.elems 0) [
    | inl (e, n, b) ↦ inl (rw (add_sorted, e) refl, n, b)
    | inr (m, e, b) ↦ inr (m, added x g m h (e ∙ ap some (omega arith)), b)
  ]

  empty-IsPlace : (x : A) (xs : List A) → length xs ≡ 0 → IsPlace x xs 0
  empty-IsPlace x [] h = (omega arith, tt, tt)
  empty-IsPlace x (y ∷ ys) h = absurd (omega arith)

  add_by-IsAdded : (x : A) (g : Glist A) → IsCounted g → IsAdded x g (add_by (some cmp) x g)
  unfolding add_by
  add_by-IsAdded x g h = elim (Bool-cases (g.size == 0)) [
    | inl z ↦ inr (0, rw z refl, empty-IsPlace x g.elems (sym h ∙ ==→eq _ _ z))
    | inr z ↦ subst (IsAdded x g) (rw z refl) (add_sorted-IsAdded x g h)
  ]

  -- Adding to a counted list with a comparison function either answers BAD, where the comparison
  -- with some element fails, and leaves the list as it was, or answers GOOD and puts the element
  -- before the first that is bigger, behind elements that are not, and nothing else changes.
  pub glist_add-IsAdded :
      (x : A) (g : Glist A) → IsCounted g → g.cmp_fct ≡ some cmp → IsAdded x g (glist_add x g)
  unfolding glist_add
  glist_add-IsAdded x g h e = subst (λ o. IsAdded x g (add_by o x g)) (sym e) (add_by-IsAdded x g h)

  All-insert_at {κ} :
      (P : A → Type κ) (m : ℕ) (x : A) (xs : List A) → P x → All P xs → All P (insert_at m x xs)
  All-insert_at P zero x xs p h = (p, h)
  All-insert_at P (suc m) x [] p h = (p, tt)
  All-insert_at P (suc m) x (y ∷ ys) p h = (h.0, All-insert_at P m x ys p h.1)

  -- "Smaller" is a strict order, as far as sorting needs.
  abbrev pub IsStrict : Type ℓ
  IsStrict =
      ((a b : A) → cmp a b ≡ smaller → cmp b a ≢ smaller)
      × ((a b c : A) → cmp a b ≡ smaller → cmp b c ≡ smaller → cmp a c ≡ smaller)

  module _ (strict : IsStrict) where
    above :
        (x y : A) (ys : List A)
        → cmp x y ≡ smaller
        → All (λ z. cmp z y ≢ smaller) ys
        → All (λ z. cmp z x ≢ smaller) ys
    above x y [] e h = tt
    above x y (z ∷ ys) e h = (λ s. h.0 (strict.1 z x y s e), above x y ys e h.1)

    insert_at-IsSorted :
        (x : A) (xs : List A) (m : ℕ) → IsPlace x xs m → IsSorted xs → IsSorted (insert_at m x xs)
    insert_at-IsSorted x [] zero p s = (tt, tt)
    insert_at-IsSorted x [] (suc m) p s = (tt, tt)
    insert_at-IsSorted x (y ∷ ys) zero p s = ((strict.0 x y p.2, above x y ys p.2 s.0), s)
    insert_at-IsSorted x (y ∷ ys) (suc m) p s = (
      All-insert_at (λ z. cmp z y ≢ smaller) m x ys p.1.0 s.0,
      insert_at-IsSorted x ys m (omega (arith, p.0), p.1.1, p.2) s.1,
    )

    -- A sorted list whose comparison is a strict order stays sorted, whatever `glist_add` answers.
    pub glist_add-IsSorted :
        (x : A) (g : Glist A)
        → IsCounted g
        → g.cmp_fct ≡ some cmp
        → IsSorted g.elems
        → IsSorted (glist_add x g).1.elems
    glist_add-IsSorted x g h e s = elim (glist_add-IsAdded x g h e) [
      | inl (r, n, b) ↦ rw r s
      | inr (m, r, p) ↦ rw r (insert_at-IsSorted x g.elems m p s)
    ]
