-- ===== src/Nonces/Lists.antt =====
-- lispd/lib/nonces_table.c: the list of the nonces of a request.
use lispmob.Prelude.{
  ℕ, zero, suc, ◌+◌, ◌≡◌, ◌≢◌, inl, inr, refl, sym, ap, subst, ◌∙◌, arith, Bool, false, ◌||◌,
  Bool-cases, some, List, [], ◌∷◌, ◌==◌, ==→eq, ==→ne, if◌then◌else◌, length,
}
use lispmob.Glist.{Glist, glist_add, add_by, add_sorted, add_loop, insert_at}
use lispmob.Nonces.{nonce_list_cmp_nonce, set_list}

unfoldable pub holds : ℕ → List ℕ → Bool
holds n [] = false
holds n (x ∷ xs) = (x == n) || holds n xs

add_loop-nonce :
    (x : ℕ) (ys : List ℕ) (ctr : ℕ)
    → add_loop nonce_list_cmp_nonce x ys ctr ≡ some (length ys + ctr)
unfolding add_loop nonce_list_cmp_nonce
add_loop-nonce x [] ctr = ap some (omega arith)
add_loop-nonce x (y ∷ ys) ctr =
    let rest = add_loop-nonce x ys (ctr + 1) in
    let count : length ys + (ctr + 1) ≡ suc (length ys) + ctr = omega arith in
    elim (Bool-cases (x == y)) [
      | inl same ↦ rw (add_loop, nonce_list_cmp_nonce, same) (rest ∙ ap some count)
      | inr other ↦ rw (add_loop, nonce_list_cmp_nonce, other) (rest ∙ ap some count)
    ]

pub holds-insert_at :
    (n k x : ℕ) (xs : List ℕ) → holds n (insert_at k x xs) ≡ (x == n) || holds n xs
unfolding holds
holds-insert_at n zero x xs = refl
holds-insert_at n (suc k) x [] = refl
holds-insert_at n (suc k) x (y ∷ ys) = let rest = holds-insert_at n k x ys in ground arith

-- A nonce is added somewhere in its list, whose comparison never fails.
pub record IsAdded (x : ℕ) (g : Glist ℕ) (h : Glist ℕ) : Type 0 where
  pub place : ℕ
  pub elems : h.elems ≡ insert_at place x g.elems
  pub cmp : h.cmp_fct ≡ some nonce_list_cmp_nonce

pub glist_add-IsAdded :
    (x : ℕ) (g : Glist ℕ) → g.cmp_fct ≡ some nonce_list_cmp_nonce → IsAdded x g (glist_add x g).1
unfolding glist_add add_by add_sorted
glist_add-IsAdded x g cmp =
    let all = add_loop-nonce x g.elems 0 in
    elim (Bool-cases (g.size == 0)) [
      | inl empty ↦ record {
        place = 0;
        elems = rw (glist_add, cmp, add_by, empty) refl;
        cmp = rw (glist_add, cmp, add_by, empty) refl;
      }
      | inr more ↦ record {
        place = if length g.elems + 0 == g.size then length g.elems else length g.elems + 0;
        elems = rw (glist_add, cmp, add_by, more, add_sorted, all) refl;
        cmp = rw (glist_add, cmp, add_by, more, add_sorted, all) refl;
      }
    ]

abbrev pub IsDistinct : List ℕ → Type 0
IsDistinct [] = Unit
IsDistinct (x ∷ xs) = (holds x xs ≡ false) × IsDistinct xs

pub insert_at-IsDistinct :
    (k x : ℕ) (xs : List ℕ) → holds x xs ≡ false → IsDistinct xs → IsDistinct (insert_at k x xs)
unfolding holds
insert_at-IsDistinct zero x xs new h = (new, h)
insert_at-IsDistinct (suc k) x [] new h = (refl, tt)
insert_at-IsDistinct (suc k) x (y ∷ ys) new (first, h) =
    let there = holds-insert_at y k x ys in
    (ground arith, insert_at-IsDistinct k x ys (ground arith) h)

pub set_list-elim {ℓ} :
    (Q : ℕ → Glist ℕ → Type ℓ) (p : ℕ) (g : Glist ℕ) (lists : ℕ → Glist ℕ)
    → Q p g
    → ((q : ℕ) → q ≢ p → Q q (lists q))
    → (q : ℕ) → Q q (set_list p g lists q)
set_list-elim Q p g lists set rest q = elim (Bool-cases (q == p)) [
  | inl same ↦ rw (same) (subst (λ r. Q r g) (sym (==→eq q p same)) set)
  | inr other ↦ rw (other) (rest q (==→ne q p other))
]
