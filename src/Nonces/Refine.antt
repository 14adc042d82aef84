-- ===== src/Nonces/Refine.antt =====
-- lispd/lib/nonces_table.c against a map from nonces to lists.
use lispmob.Prelude.{
  ℕ, ◌-◌, ◌≡◌, ◌≢◌, inl, inr, refl, sym, ap, subst, ◌∙◌, arith, Bool, true, false, ◌||◌, Bool-cases,
  Option, none, some, List, [], ◌∷◌, ◌==◌, ==→eq, ==→ne, eq→==, ne→==, if◌then◌else◌, length,
}
use lispmob.Glist.{Glist, glist_new_complete, glist_add}
use lispmob.Nonces.{
  Khash, nonce_list_cmp_nonce, nonces_list_new_init, Nonces, htable_nonces_new,
  htable_nonces_insert, htable_nonces_lookup, reset_loop, htable_nonces_reset_nonces_lst,
}
use lispmob.Nonces.Lists.{
  holds, holds-insert_at, glist_add-IsAdded, IsDistinct, insert_at-IsDistinct, set_list-elim,
}
use lispmob.Nonces.Spec.{
  Spec, is_owner, spec_insert, spec_reset, Op, spec_run, IsFresh, owner_eq, no_owner, same_owner,
  insert, reset,
}

pub both :
    (a b : Bool) (o : Option ℕ)
    → (if b then none else (if a then none else o)) ≡ (if a || b then none else o)
both true true o = refl
both true false o = refl
both false b o = refl

owned-set :
    (n p k : ℕ) (m : Spec) (elems : List ℕ)
    → holds k elems ≡ (n == k) || is_owner p (m k)
    → holds k elems ≡ is_owner p (spec_insert n p m k)
owned-set n p k m elems h = elim (Bool-cases (n == k)) [
  | inl same ↦ let own = eq→== p p refl in rw (same, own) (rw (same) at h)
  | inr other ↦ rw (other) (rw (other) at h)
]

owned-other :
    (n p q k : ℕ) (m : Spec) (b : Bool)
    → m n ≡ none
    → q ≢ p
    → b ≡ is_owner q (m k)
    → b ≡ is_owner q (spec_insert n p m k)
owned-other n p q k m b new ne h = elim (Bool-cases (n == k)) [
  | inl same ↦
      let free : m k ≡ none = subst (λ l. m l ≡ none) (==→eq n k same) new in
      let apart = ne→== p q (λ e. ne (sym e)) in rw (same, apart) (rw (free) at h)
  | inr other ↦ rw (other) h
]

module _ (kh : Khash) where
  -- the calls on the table
  abbrev pub run : List Op → Nonces kh → Nonces kh
  run [] s = s
  run (insert n p ∷ ops) s = run ops (htable_nonces_insert kh n p s)
  run (reset p ∷ ops) s = run ops (htable_nonces_reset_nonces_lst kh p s)

  -- The table is the map, and each list has the nonces that belong to it, once.
  record Implements (s : Nonces kh) (m : Spec) : Type 1 where
    table : (k : ℕ) → kh.kh_get s.ht k ≡ m k
    owned : (k p : ℕ) → holds k (s.lists p).elems ≡ is_owner p (m k)
    distinct : (p : ℕ) → IsDistinct (s.lists p).elems
    cmp : (p : ℕ) → (s.lists p).cmp_fct ≡ some nonce_list_cmp_nonce

  new-Implements : Implements (htable_nonces_new kh) (λ k. none)
  unfolding htable_nonces_new nonces_list_new_init glist_new_complete holds
  new-Implements = record {
    table = λ k. kh.get-init k;
    owned = λ k p. refl;
    distinct = λ p. tt;
    cmp = λ p. refl;
  }

  get-put_if :
      (t : kh.Table) (n p k : ℕ)
      → kh.kh_get (kh.kh_put t n p) k ≡ (if n == k then some p else kh.kh_get t k)
  get-put_if t n p k = elim (Bool-cases (n == k)) [
    | inl same ↦
        let e = ==→eq n k same in
        rw (same) (subst (λ l. kh.kh_get (kh.kh_put t n p) l ≡ some p) e (kh.get-put t n p))
    | inr other ↦ rw (other) (kh.get-put_other t n p k (λ e. ==→ne n k other (sym e)))
  ]

  insert-Implements :
      (n p : ℕ) (s : Nonces kh) (m : Spec)
      → m n ≡ none
      → Implements s m
      → Implements (htable_nonces_insert kh n p s) (spec_insert n p m)
  unfolding htable_nonces_insert
  insert-Implements n p s m new h =
      let added = glist_add-IsAdded n (s.lists p) (h.cmp p) in
      record {
        table = λ k. get-put_if s.ht n p k ∙ ap (λ o. if n == k then some p else o) (h.table k);
        owned = λ k q.
            set_list-elim (λ r g. holds k g.elems ≡ is_owner r (spec_insert n p m k)) p
              (glist_add n (s.lists p)).1 s.lists
              (owned-set n p k m (glist_add n (s.lists p)).1.elems (
                ap (λ xs. holds k xs) added.elems
                ∙ holds-insert_at k added.place n (s.lists p).elems
                ∙ ap (λ b. (n == k) || b) (h.owned k p)))
              (λ r ne. owned-other n p r k m (holds k (s.lists r).elems) new ne (h.owned k r)) q;
        distinct = λ q.
            set_list-elim (λ r g. IsDistinct g.elems) p (glist_add n (s.lists p)).1 s.lists
              (subst (λ xs. IsDistinct xs) (sym added.elems)
                (insert_at-IsDistinct added.place n (s.lists p).elems
                  (h.owned n p ∙ ap (λ o. is_owner p o) new) (h.distinct p)))
              (λ r ne. h.distinct r) q;
        cmp = λ q.
            set_list-elim (λ r g. g.cmp_fct ≡ some nonce_list_cmp_nonce) p
              (glist_add n (s.lists p)).1 s.lists added.cmp (λ r ne. h.cmp r) q;
      }

  -- the entries of a list that all stand in the table
  abbrev AllFound : ℕ → List ℕ → kh.Table → Type 0
  AllFound p [] t = Unit
  AllFound p (n ∷ ns) t = (kh.kh_get t n ≡ some p) × AllFound p ns t

  pub get-del_if :
      (t : kh.Table) (n k : ℕ)
      → kh.kh_get (kh.kh_del t n) k ≡ (if n == k then none else kh.kh_get t k)
  get-del_if t n k = elim (Bool-cases (n == k)) [
    | inl same ↦
        let e = ==→eq n k same in
        rw (same) (subst (λ l. kh.kh_get (kh.kh_del t n) l ≡ none) e (kh.get-del t n))
    | inr other ↦ rw (other) (kh.get-del_other t n k (λ e. ==→ne n k other (sym e)))
  ]

  del-AllFound :
      (p n : ℕ) (ns : List ℕ) (t : kh.Table)
      → holds n ns ≡ false
      → AllFound p ns t
      → AllFound p ns (kh.kh_del t n)
  unfolding holds
  del-AllFound p n [] t new h = tt
  del-AllFound p n (k ∷ ns) t new (found, h) =
      let other : k ≢ n = λ e. let yes = eq→== k n e in ground arith in
      (kh.get-del_other t n k other ∙ found, del-AllFound p n ns t (ground arith) h)

  owned-AllFound :
      (p : ℕ) (ns : List ℕ) (t : kh.Table)
      → ((k : ℕ) → holds k ns ≡ true → kh.kh_get t k ≡ some p)
      → AllFound p ns t
  unfolding holds
  owned-AllFound p [] t h = tt
  owned-AllFound p (n ∷ ns) t h =
      (h n (ground arith), owned-AllFound p ns t (λ k there. h k (ground arith)))

  -- The loop takes every nonce of the list from the table and from the list.
  reset_loop-clears :
      (p : ℕ) (ns : List ℕ) (t : kh.Table)
      → IsDistinct ns
      → AllFound p ns t
      → ((reset_loop kh ns t).0 ≡ [])
        × ((k : ℕ)
            → kh.kh_get (reset_loop kh ns t).1 k ≡ (if holds k ns then none else kh.kh_get t k))
  unfolding reset_loop holds
  reset_loop-clears p [] t h all = (refl, λ k. refl)
  reset_loop-clears p (n ∷ ns) t (new, h) (found, all) =
      let (empty, table) =
        reset_loop-clears p ns (kh.kh_del t n) h (del-AllFound p n ns t new all) in
      (
        rw (reset_loop, found) empty,
        λ k.
            rw (reset_loop, found)
              (table k
                ∙ ap (λ o. if holds k ns then none else o) (get-del_if t n k)
                ∙ both (n == k) (holds k ns) (kh.kh_get t k)),
      )

  reset-Implements :
      (p : ℕ) (s : Nonces kh) (m : Spec)
      → Implements s m
      → Implements (htable_nonces_reset_nonces_lst kh p s) (spec_reset p m)
  unfolding htable_nonces_reset_nonces_lst holds
  reset-Implements p s m h =
      let elems = (s.lists p).elems in
      let all =
        owned-AllFound p elems s.ht
          (λ k there. h.table k ∙ owner_eq p (m k) (sym (h.owned k p) ∙ there)) in
      let (empty, table) = reset_loop-clears p elems s.ht (h.distinct p) all in
      let g = s.lists p in
      let left = reset_loop kh elems s.ht in
      let cleared : Glist ℕ = record g {
        size = g.size - (length elems - length left.0);
        elems = left.0;
      } in
      record {
        table = λ k.
            table k
            ∙ ap (λ b. if b then none else kh.kh_get s.ht k) (h.owned k p)
            ∙ ap (λ o. if is_owner p (m k) then none else o) (h.table k);
        owned = λ k q.
            set_list-elim (λ r l. holds k l.elems ≡ is_owner r (spec_reset p m k)) p cleared s.lists
              (ap (λ xs. holds k xs) empty ∙ no_owner p (m k))
              (λ r ne. h.owned k r ∙ same_owner p r (m k) ne) q;
        distinct = λ q.
            set_list-elim (λ r l. IsDistinct l.elems) p cleared s.lists
              (subst (λ xs. IsDistinct xs) (sym empty) tt) (λ r ne. h.distinct r) q;
        cmp = λ q.
            set_list-elim (λ r l. l.cmp_fct ≡ some nonce_list_cmp_nonce) p cleared s.lists (h.cmp p)
              (λ r ne. h.cmp r) q;
      }

  run-Implements :
      (ops : List Op) (s : Nonces kh) (m : Spec)
      → IsFresh ops m
      → Implements s m
      → Implements (run ops s) (spec_run ops m)
  run-Implements [] s m fresh h = h
  run-Implements (insert n p ∷ ops) s m (new, fresh) h =
      run-Implements ops (htable_nonces_insert kh n p s) (spec_insert n p m) fresh
        (insert-Implements n p s m new h)
  run-Implements (reset p ∷ ops) s m fresh h =
      run-Implements ops (htable_nonces_reset_nonces_lst kh p s) (spec_reset p m) fresh
        (reset-Implements p s m h)

  -- After any insertions of new nonces and resets of lists on a new table, looking up a nonce answers
  -- what a map from nonces to lists does on which an insertion sets one nonce and a reset removes every
  -- nonce of the list.
  pub htable_nonces_lookup-run :
      (ops : List Op) (k : ℕ)
      → IsFresh ops (λ n. none)
      → htable_nonces_lookup kh k (run ops (htable_nonces_new kh)) ≡ spec_run ops (λ n. none) k
  unfolding htable_nonces_lookup
  htable_nonces_lookup-run ops k fresh =
      (run-Implements ops (htable_nonces_new kh) (λ n. none) fresh new-Implements).table k
