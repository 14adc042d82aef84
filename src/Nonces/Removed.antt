-- ===== src/Nonces/Removed.antt =====
-- lispd/lib/nonces_table.c `htable_nonces_remove`: the table and the list part.
use lispmob.Prelude.{
  ℕ, ◌≡◌, ◌≢◌, refl, ap, sym, ◌∙◌, Bool, true, false, not, some, none, List, ◌∷◌, ◌==◌, eq→==,
  ne→==,
}
use lispmob.Glist.{Glist, glist_remove_obj, remove_first, take_first, matches}
use lispmob.Nonces.{Khash, nonce_list_cmp_nonce, Nonces, htable_nonces_lookup, htable_nonces_remove}

take_first-second :
    (p : ℕ → Bool) (n m : ℕ) (rest : List ℕ)
    → p n ≡ false
    → p m ≡ true
    → take_first p (n ∷ m ∷ rest) ≡ some (m, n ∷ rest)
unfolding take_first
take_first-second p n m rest other one = rw (other, one) refl

matches-nonce :
    (n m : ℕ) (b : Bool)
    → (n == m) ≡ b
    → matches (λ a b. a == b) (some nonce_list_cmp_nonce) n m ≡ not b
unfolding matches nonce_list_cmp_nonce
matches-nonce n m true h = rw h refl
matches-nonce n m false h = rw h refl

-- the first nonce that is another one is taken out
remove-second :
    (n m : ℕ) (rest : List ℕ) (g : Glist ℕ)
    → n ≢ m
    → g.size ≢ 0
    → g.cmp_fct ≡ some nonce_list_cmp_nonce
    → g.elems ≡ n ∷ m ∷ rest
    → (glist_remove_obj (λ a b. a == b) n g).1.elems ≡ n ∷ rest
unfolding glist_remove_obj remove_first
remove-second n m rest g other some_left cmp elems =
    let by = matches (λ a b. a == b) g.cmp_fct n in
    let keep : by n ≡ false =
      ap (λ c. matches (λ a b. a == b) c n n) cmp ∙ matches-nonce n n true (eq→== n n refl) in
    let take : by m ≡ true =
      ap (λ c. matches (λ a b. a == b) c n m) cmp ∙ matches-nonce n m false (ne→== n m other) in
    let first = ap (λ xs. take_first by xs) elems ∙ take_first-second by n m rest keep take in
    let more = ne→== g.size 0 some_left in rw (more, remove_first, first) refl

-- Removing the first of two different nonces of a list of a request takes it out of the table, but
-- out of the list it takes the second, because the comparison function is the wrong way round.
pub htable_nonces_remove-list :
    (kh : Khash) (n m p : ℕ) (rest : List ℕ) (s : Nonces kh)
    → n ≢ m
    → htable_nonces_lookup kh n s ≡ some p
    → (s.lists p).size ≢ 0
    → (s.lists p).cmp_fct ≡ some nonce_list_cmp_nonce
    → (s.lists p).elems ≡ n ∷ m ∷ rest
    → (htable_nonces_lookup kh n (htable_nonces_remove kh n s).1 ≡ none)
      × (htable_nonces_lookup kh m (htable_nonces_remove kh n s).1 ≡ htable_nonces_lookup kh m s)
      × (((htable_nonces_remove kh n s).1.lists p).elems ≡ n ∷ rest)
unfolding htable_nonces_lookup htable_nonces_remove
htable_nonces_remove-list kh n m p rest s other found some_left cmp elems =
    let self = eq→== p p refl in
    (
      rw (htable_nonces_remove, found) (kh.get-del s.ht n),
      rw (htable_nonces_remove, found) (kh.get-del_other s.ht n m (λ e. other (sym e))),
      rw (htable_nonces_remove, found, self)
          (remove-second n m rest (s.lists p) other some_left cmp elems),
    )
