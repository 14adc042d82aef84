-- ===== src/MappingDb/Tree.antt =====
-- lispd/lib/mapping_db.c: what an addition and a removal do to the tree of a family.
use lispmob.Prelude.{
  ℕ, zero, suc, ◌≡◌, refl, sym, ap, ap₂, ◌∙◌, Bool, true, false, ◌&&◌, inl, inr, Option, none, some,
  Option-cases, ◌==◌, ==→eq, if◌then◌else◌, ok,
}
use lispmob.Address.{Ip}
use lispmob.MappingDb.{Patricia, fits, in_block, longest, pt_find_ip_node_exact, pt_remove_ippref}

abbrev pub or_else : Option ℕ → Option ℕ → Option ℕ
or_else none o = o
or_else (some v) o = some v

both_true : (a b : Bool) → a && b ≡ true → (a ≡ true) × (b ≡ true)
both_true true b h = (refl, h)
both_true false b h = absurd (cc)

set_new :
    (c : Bool) (o : Option ℕ) (entry : ℕ)
    → (c ≡ true → o ≡ none)
    → (if c then some entry else o) ≡ (if c then or_else o (some entry) else o)
set_new true o entry h = ap (λ x. or_else x (some entry)) (sym (h refl))
set_new false o entry h = refl

keep_old :
    (c : Bool) (o : Option ℕ) (entry old : ℕ)
    → (c ≡ true → o ≡ some old)
    → o ≡ (if c then or_else o (some entry) else o)
keep_old true o entry old h = h refl ∙ ap (λ x. or_else x (some entry)) (sym (h refl))
keep_old false o entry old h = refl

pub longest-same : (w : ℕ) (f g : ℕ → Option ℕ) → ((k : ℕ) → f k ≡ g k) → longest f w ≡ longest g w
unfolding longest
longest-same zero f g h = h 0
longest-same (suc w) f g h =
    ap₂ (λ o rest. elim o as (λ _. Option ℕ) [ some v ↦ some v | none ↦ rest ]) (h (suc w))
      (longest-same w f g h)

keep_none : (c : Bool) (o : Option ℕ) → (c ≡ true → o ≡ none) → o ≡ (if c then none else o)
keep_none true o h = h refl
keep_none false o h = refl

module _ (pt : Patricia) where
  -- A prefix has one entry, however it is written.
  pub there :
      (t : pt.Tree ℕ) (a : Ip) (n : ℕ) (b : Ip) (k : ℕ)
      → (k == n) && in_block n a b ≡ true
      → pt.search_exact t b k ≡ pt.search_exact t a n
  there t a n b k h =
      let (len, block) = both_true (k == n) (in_block n a b) h in
      ap (λ l. pt.search_exact t b l) (==→eq k n len) ∙ sym (pt.exact-block t a n b block)

  -- what an addition does to a tree
  unfoldable pub added : pt.Tree ℕ → Ip → ℕ → ℕ → pt.Tree ℕ
  added t a n entry = elim (pt.search_exact t a n) [ some old ↦ t | none ↦ pt.set_data t a n entry ]

  pub added-bits :
      (t : pt.Tree ℕ) (a : Ip) (n entry : ℕ) → pt.maxbits (added t a n entry) ≡ pt.maxbits t
  unfolding added
  added-bits t a n entry = elim (Option-cases (pt.search_exact t a n)) [
    | inl new ↦ rw (added, new) (pt.maxbits-set t a n entry)
    | inr (old, e) ↦ rw (added, e) refl
  ]

  pub added-exact :
      (t : pt.Tree ℕ) (a : Ip) (n entry : ℕ) (b : Ip) (k : ℕ)
      → pt.search_exact (added t a n entry) b k ≡ (
          if (k == n) && in_block n a b
          then or_else (pt.search_exact t b k) (some entry)
          else pt.search_exact t b k)
  unfolding added
  added-exact t a n entry b k = elim (Option-cases (pt.search_exact t a n)) [
    | inl new ↦
        rw (added, new)
          (pt.exact-set t a n entry b k
            ∙ set_new ((k == n) && in_block n a b) (pt.search_exact t b k) entry
                (λ same. there t a n b k same ∙ new))
    | inr (old, e) ↦
        rw (added, e)
          (keep_old ((k == n) && in_block n a b) (pt.search_exact t b k) entry old
            (λ same. there t a n b k same ∙ e))
  ]

  -- what a removal does to a tree
  unfoldable pub removed : pt.Tree ℕ → Ip → ℕ → Option ℕ × pt.Tree ℕ
  removed t a n = elim (pt.search_exact t a n) as (λ _. Option ℕ × pt.Tree ℕ) [
    | none ↦ (none, t)
    | some entry ↦ (some entry, pt.remove_node t a n)
  ]

  pub pt_remove_ippref-removed :
      (t : pt.Tree ℕ) (a : Ip) (n : ℕ)
      → fits a n (pt.maxbits t) ≡ true
      → pt_remove_ippref pt t a n ≡ ok (removed t a n)
  unfolding pt_remove_ippref pt_find_ip_node_exact removed
  pt_remove_ippref-removed t a n good = elim (Option-cases (pt.search_exact t a n)) [
    | inl missed ↦ rw (pt_remove_ippref, good, missed, removed) refl
    | inr (old, e) ↦ rw (pt_remove_ippref, good, e, removed) refl
  ]

  pub removed-bits : (t : pt.Tree ℕ) (a : Ip) (n : ℕ) → pt.maxbits (removed t a n).1 ≡ pt.maxbits t
  unfolding removed
  removed-bits t a n = elim (Option-cases (pt.search_exact t a n)) [
    | inl missed ↦ rw (removed, missed) refl
    | inr (old, e) ↦ rw (removed, e) (pt.maxbits-remove t a n)
  ]

  pub removed-exact :
      (t : pt.Tree ℕ) (a : Ip) (n : ℕ) (b : Ip) (k : ℕ)
      → pt.search_exact (removed t a n).1 b k
        ≡ (if (k == n) && in_block n a b then none else pt.search_exact t b k)
  unfolding removed
  removed-exact t a n b k = elim (Option-cases (pt.search_exact t a n)) [
    | inl missed ↦
        rw (removed, missed)
          (keep_none ((k == n) && in_block n a b) (pt.search_exact t b k)
            (λ same. there t a n b k same ∙ missed))
    | inr (old, e) ↦ rw (removed, e) (pt.exact-remove t a n b k)
  ]
