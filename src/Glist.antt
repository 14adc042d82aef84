-- ===== src/Glist.antt =====
-- lispd/lib/generic_list.c: the list of pointers that the control plane keeps its objects in. An element
-- is the pointer with what it points to, `cmp_fct` compares two of them (`none` is NULL) and
-- `same` tells whether two pointers are one. `size` is the counter of the structure.
pub mod Counted
pub mod Insert
mod Tests
use lispmob.Prelude.{
  ℕ, ◌+◌, ◌-◌, Bool, true, false, not, Option, none, some, List, [], ◌∷◌, ◌++◌, ◌==◌, if◌then◌else◌,
  length, take, drop,
}
use lispmob.Address.{Cmp, equal, bigger, smaller, different, unsupported, is_equal, is_negative}

-- `glist_t`
pub record Glist {ℓ} (A : Type ℓ) : Type ℓ where
  pub cmp_fct : Option (A → A → Cmp)
  pub has_del : Bool
  pub size : ℕ
  pub elems : List A

module _ {ℓ} {A : Type ℓ} where
  unfoldable pub glist_new_complete : Option (A → A → Cmp) → Bool → Glist A
  glist_new_complete cmp del = record { cmp_fct = cmp; has_del = del; size = 0; elems = [] }

  unfoldable pub glist_new : Glist A
  unfolding glist_new_complete
  glist_new = glist_new_complete none false

  unfoldable pub glist_new_managed : Glist A
  unfolding glist_new_complete
  glist_new_managed = glist_new_complete none true

  -- The loop of `glist_add`: the number of entries before the first that is bigger than `x`, or
  -- `none` if the comparison fails before.
  unfoldable pub add_loop : (A → A → Cmp) → A → List A → ℕ → Option ℕ
  add_loop cmp x [] ctr = some ctr
  add_loop cmp x (y ∷ ys) ctr =
      let rest = add_loop cmp x ys (ctr + 1) in
      elim (cmp x y) [
        | smaller ↦ some ctr
        | different ↦ none
        | unsupported ↦ none
        | equal ↦ rest
        | bigger ↦ rest
      ]

  -- the list with `x` before the entry at `n`
  abbrev pub insert_at : ℕ → A → List A → List A
  insert_at n x xs = take n xs ++ (x ∷ drop n xs)

  -- GOOD is `true`
  unfoldable pub add_sorted : (A → A → Cmp) → A → Glist A → Bool × Glist A
  unfolding add_loop
  add_sorted cmp x g = elim (add_loop cmp x g.elems 0) [
    | none ↦ (false, g)
    | some ctr ↦ (
      true,
      record g {
        size = g.size + 1;
        elems = insert_at (if ctr == g.size then length g.elems else ctr) x g.elems;
      },
    )
  ]

  unfoldable pub add_by : Option (A → A → Cmp) → A → Glist A → Bool × Glist A
  unfolding add_sorted
  add_by none x g = (true, record g { size = g.size + 1; elems = x ∷ g.elems })
  add_by (some cmp) x g =
      if g.size == 0
      then (true, record g { size = g.size + 1; elems = x ∷ g.elems })
      else add_sorted cmp x g

  unfoldable pub glist_add : A → Glist A → Bool × Glist A
  unfolding add_by
  glist_add x g = add_by g.cmp_fct x g

  unfoldable pub glist_add_tail : A → Glist A → Bool × Glist A
  glist_add_tail x g = elim g.cmp_fct [
    | some cmp ↦ (false, g)
    | none ↦ (true, record g { size = g.size + 1; elems = g.elems ++ (x ∷ []) })
  ]

  unfoldable pub any : (A → Bool) → List A → Bool
  any p [] = false
  any p (x ∷ xs) = if p x then true else any p xs

  -- the entries without the first that satisfies `p`, and what was taken out
  unfoldable pub take_first : (A → Bool) → List A → Option (A × List A)
  take_first p [] = none
  take_first p (x ∷ xs) =
      let rest = take_first p xs in
      if p x then some (x, xs) else elim rest [ none ↦ none | some r ↦ some (r.0, x ∷ r.1) ]

  -- `glist_remove` of the first entry that satisfies `p`; the elements that `del_fct` is called on
  -- come with the list
  unfoldable pub remove_first : (A → Bool) → Glist A → List A × Glist A
  unfolding take_first
  remove_first p g = elim (take_first p g.elems) [
    | none ↦ ([], g)
    | some r ↦ (if g.has_del then r.0 ∷ [] else [], record g { size = g.size - 1; elems = r.1 })
  ]

  module _ (same : A → A → Bool) where
    -- the test of an entry against `x`: by `cmp_fct`, or by the pointer if there is none
    unfoldable pub matches : Option (A → A → Cmp) → A → A → Bool
    matches none x y = same y x
    matches (some cmp) x y = is_equal (cmp x y)

    unfoldable pub glist_contain : A → Glist A → Bool
    unfolding matches any
    glist_contain x g = if g.size == 0 then false else any (matches g.cmp_fct x) g.elems

    unfoldable pub glist_contain_using_cmp_fct : A → Glist A → Option (A → A → Cmp) → Bool
    unfolding matches any
    glist_contain_using_cmp_fct x g cmp = if g.size == 0 then false else any (matches cmp x) g.elems

    unfoldable pub glist_remove_obj : A → Glist A → List A × Glist A
    unfolding matches remove_first
    glist_remove_obj x g = if g.size == 0 then ([], g) else remove_first (matches g.cmp_fct x) g

    unfoldable pub glist_remove_obj_with_ptr : A → Glist A → List A × Glist A
    unfolding remove_first
    glist_remove_obj_with_ptr x g = if g.size == 0 then ([], g) else remove_first (λ y. same y x) g

  unfoldable pub glist_remove_all : Glist A → List A × Glist A
  glist_remove_all g = if g.size == 0 then ([], g) else (
    if g.has_del then g.elems else [],
    record g { size = g.size - length g.elems; elems = [] },
  )
