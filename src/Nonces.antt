-- ===== src/Nonces.antt =====
-- lispd/lib/nonces_table.c: the nonces of the requests under way, each with the list of the request that it
-- belongs to. The hash table is khash of lispd/elibs, given by its operations. A list is its pointer, and
-- `lists` is what the pointers point to.
pub mod Lists
pub mod Spec
pub mod Refine
pub mod Removed
pub mod Functions
mod Tests
use lispmob.Prelude.{
  ℕ, ◌+◌, ◌-◌, ◌≡◌, ◌≢◌, Bool, true, false, Option, none, some, List, [], ◌∷◌, ◌==◌, if◌then◌else◌,
  length,
}
use lispmob.Address.{Cmp, bigger, equal}
use lispmob.Glist.{Glist, glist_new_complete, glist_add, glist_remove_obj}

-- `khash_t(nonces)`, from 64-bit numbers to pointers, with what the functions of khash.h do
pub record Khash : Type 1 where
  pub Table : Type 0
  pub kh_init : Table
  pub kh_get : Table → ℕ → Option ℕ
  pub kh_put : Table → ℕ → ℕ → Table
  pub kh_del : Table → ℕ → Table
  pub get-init : (k : ℕ) → kh_get kh_init k ≡ none
  pub get-put : (t : Table) (k v : ℕ) → kh_get (kh_put t k v) k ≡ some v
  pub get-put_other : (t : Table) (k v l : ℕ) → l ≢ k → kh_get (kh_put t k v) l ≡ kh_get t l
  pub get-del : (t : Table) (k : ℕ) → kh_get (kh_del t k) k ≡ none
  pub get-del_other : (t : Table) (k l : ℕ) → l ≢ k → kh_get (kh_del t k) l ≡ kh_get t l

-- 1 for equal nonces and 0 for others
unfoldable pub nonce_list_cmp_nonce : ℕ → ℕ → Cmp
nonce_list_cmp_nonce a b = if a == b then bigger else equal

unfoldable pub nonces_list_new_init : Glist ℕ
unfolding nonce_list_cmp_nonce glist_new_complete
nonces_list_new_init = glist_new_complete (some nonce_list_cmp_nonce) true

unfoldable pub nonces_list_size : Glist ℕ → ℕ
nonces_list_size g = g.size

abbrev pub set_list : ℕ → Glist ℕ → (ℕ → Glist ℕ) → ℕ → Glist ℕ
set_list p g lists q = if q == p then g else lists q

module _ (kh : Khash) where
  pub record Nonces : Type 0 where
    pub ht : kh.Table
    pub lists : ℕ → Glist ℕ

  -- with what the pointers to lists will point to
  unfoldable pub htable_nonces_new : Nonces
  unfolding nonces_list_new_init
  htable_nonces_new = record { ht = kh.kh_init; lists = λ p. nonces_list_new_init }

  unfoldable pub htable_nonces_insert : ℕ → ℕ → Nonces → Nonces
  unfolding glist_add
  htable_nonces_insert nonce p s = record {
    ht = kh.kh_put s.ht nonce p;
    lists = set_list p (glist_add nonce (s.lists p)).1 s.lists;
  }

  unfoldable pub htable_nonces_lookup : ℕ → Nonces → Option ℕ
  htable_nonces_lookup nonce s = kh.kh_get s.ht nonce

  unfoldable pub htable_nonces_remove : ℕ → Nonces → Option ℕ × Nonces
  unfolding glist_remove_obj
  htable_nonces_remove nonce s = elim (kh.kh_get s.ht nonce) as (λ _. Option ℕ × Nonces) [
    | none ↦ (none, s)
    | some p ↦ (
      some p,
      record {
        ht = kh.kh_del s.ht nonce;
        lists = set_list p (glist_remove_obj (λ a b. a == b) nonce (s.lists p)).1 s.lists;
      },
    )
  ]

  -- the loop over the entries: the nonces that stay in the list, and the table
  unfoldable pub reset_loop : List ℕ → kh.Table → List ℕ × kh.Table
  reset_loop [] t = ([], t)
  reset_loop (n ∷ ns) t =
      let found = reset_loop ns (kh.kh_del t n) in
      let missed = reset_loop ns t in
      elim (kh.kh_get t n) as (λ _. List ℕ × kh.Table) [
        | none ↦ (n ∷ missed.0, missed.1)
        | some p ↦ found
      ]

  unfoldable pub htable_nonces_reset_nonces_lst : ℕ → Nonces → Nonces
  unfolding reset_loop
  htable_nonces_reset_nonces_lst p s =
      let g = s.lists p in
      let left = reset_loop g.elems s.ht in
      record {
        ht = left.1;
        lists =
            set_list p
              (record g { size = g.size - (length g.elems - length left.0); elems = left.0 })
              s.lists;
      }
