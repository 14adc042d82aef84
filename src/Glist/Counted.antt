-- ===== src/Glist/Counted.antt =====
-- lispd/lib/generic_list.c: the counter of the list.
use lispmob.Prelude.{
  ℕ, zero, suc, ◌≡◌, ◌⊎◌, inl, inr, refl, Bool, Option, none, some, List, [], ◌∷◌, ◌==◌,
  if◌then◌else◌, length, length-append, arith, Bool-cases, Option-cases, ap,
}
use lispmob.Address.{Cmp}
use lispmob.Glist.{
  Glist, add_loop, insert_at, add_sorted, add_by, glist_add, glist_add_tail, take_first,
  remove_first, matches, glist_remove_obj, glist_remove_obj_with_ptr, glist_remove_all,
}

module _ {ℓ} {A : Type ℓ} where
  abbrev pub IsCounted : Glist A → Type 0
  IsCounted g = g.size ≡ length g.elems

  length-insert_at : (n : ℕ) (x : A) (xs : List A) → length (insert_at n x xs) ≡ suc (length xs)
  length-insert_at zero x xs = refl
  length-insert_at (suc n) x [] = refl
  length-insert_at (suc n) x (y ∷ xs) = omega (arith, length-insert_at n x xs)

  add_sorted-IsCounted :
      (cmp : A → A → Cmp) (x : A) (g : Glist A) → IsCounted g → IsCounted (add_sorted cmp x g).1
  unfolding add_sorted
  add_sorted-IsCounted cmp x g h = elim (Option-cases (add_loop cmp x g.elems 0)) [
    | inl e ↦ rw (add_sorted, e) h
    | inr (ctr, e) ↦
        rw (add_sorted, e)
          (omega
            (arith, length-insert_at (if ctr == g.size then length g.elems else ctr) x g.elems))
  ]

  add_by-IsCounted :
      (o : Option (A → A → Cmp)) (x : A) (g : Glist A) → IsCounted g → IsCounted (add_by o x g).1
  unfolding add_by
  add_by-IsCounted none x g h = omega arith
  add_by-IsCounted (some cmp) x g h = elim (Bool-cases (g.size == 0)) [
    | inl z ↦ rw z (omega arith)
    | inr z ↦ rw z (add_sorted-IsCounted cmp x g h)
  ]

  add-IsCounted : (x : A) (g : Glist A) → IsCounted g → IsCounted (glist_add x g).1
  unfolding glist_add
  add-IsCounted x g h = add_by-IsCounted g.cmp_fct x g h

  tail-IsCounted : (x : A) (g : Glist A) → IsCounted g → IsCounted (glist_add_tail x g).1
  unfolding glist_add_tail
  tail-IsCounted x g h = elim (Option-cases g.cmp_fct) [
    | inl e ↦ rw e (omega (arith, length-append g.elems (x ∷ [])))
    | inr (cmp, e) ↦ rw e h
  ]

  length-take_first :
      (p : A → Bool) (xs : List A)
      → (take_first p xs ≡ none)
        ⊎ ((r : A × List A) × (take_first p xs ≡ some r) × (suc (length (r.1)) ≡ length xs))
  unfolding take_first
  length-take_first p [] = inl refl
  length-take_first p (x ∷ xs) = elim (Bool-cases (p x)) [
    | inl e ↦ inr ((x, xs), rw e refl, refl)
    | inr e ↦ elim (length-take_first p xs) [
      | inl n ↦ inl (rw (e, n) refl)
      | inr (r, n, l) ↦ inr ((r.0, x ∷ r.1), rw (e, n) refl, ap suc l)
    ]
  ]

  remove_first-IsCounted :
      (p : A → Bool) (g : Glist A) → IsCounted g → IsCounted (remove_first p g).1
  unfolding remove_first
  remove_first-IsCounted p g h = elim (length-take_first p g.elems) [
    | inl e ↦ rw (remove_first, e) h
    | inr (r, e, l) ↦ rw (remove_first, e) (omega arith)
  ]

  obj-IsCounted :
      (same : A → A → Bool) (x : A) (g : Glist A)
      → IsCounted g
      → IsCounted (glist_remove_obj same x g).1
  unfolding glist_remove_obj
  obj-IsCounted same x g h = elim (Bool-cases (g.size == 0)) [
    | inl z ↦ rw z h
    | inr z ↦ rw z (remove_first-IsCounted (matches same g.cmp_fct x) g h)
  ]

  ptr-IsCounted :
      (same : A → A → Bool) (x : A) (g : Glist A)
      → IsCounted g
      → IsCounted (glist_remove_obj_with_ptr same x g).1
  unfolding glist_remove_obj_with_ptr
  ptr-IsCounted same x g h = elim (Bool-cases (g.size == 0)) [
    | inl z ↦ rw z h
    | inr z ↦ rw z (remove_first-IsCounted (λ y. same y x) g h)
  ]

  all-IsCounted : (g : Glist A) → IsCounted g → IsCounted (glist_remove_all g).1
  unfolding glist_remove_all
  all-IsCounted g h = elim (Bool-cases (g.size == 0)) [
    | inl z ↦ rw z h
    | inr z ↦ rw z (omega arith)
  ]

  -- Each operation that changes a list keeps its counter equal to the number of its elements.
  pub glist_IsCounted :
      (same : A → A → Bool) (x : A) (g : Glist A)
      → IsCounted g
      → IsCounted (glist_add x g).1
        × IsCounted (glist_add_tail x g).1
        × IsCounted (glist_remove_obj same x g).1
        × IsCounted (glist_remove_obj_with_ptr same x g).1
        × IsCounted (glist_remove_all g).1
  glist_IsCounted same x g h = (
    add-IsCounted x g h,
    tail-IsCounted x g h,
    obj-IsCounted same x g h,
    ptr-IsCounted same x g h,
    all-IsCounted g h,
  )
