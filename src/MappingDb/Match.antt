-- ===== src/MappingDb/Match.antt =====
-- lispd/lib/mapping_db.c: IP EIDs against a map from prefixes to entries, with the longest match.
use lispmob.Prelude.{
  ℕ, ◌+◌, arith, ◌≡◌, refl, ap, ◌∙◌, true, ◌&&◌, Option, none, some, List, [], ◌∷◌, leb, ◌==◌,
  if◌then◌else◌, Run, ok, ◌>>=◌, Returns,
}
use lispmob.Address.{Ip, unspec, v4, v6, ip, ippref, ip_addr_afi}
use lispmob.Prefixes.{ip_addr_afi_to_default_mask, ip_afi_to_default_mask}
use lispmob.MappingDb.{
  Patricia, Mdb, mdb_new, fits, in_block, longest, pt_add_node, pt_find_ip_node_exact,
  pt_find_ip_node, get_ip_pt_from_afi, add_ippref_entry, remove_ippref, find_ip_node,
}
use lispmob.MappingDb.Entries.{
  mdb_add_entry, mdb_remove_entry, mdb_lookup_entry, mdb_lookup_entry_exact, find_node, discounted,
}
use lispmob.MappingDb.Tree.{
  or_else, longest-same, added, added-bits, added-exact, removed, removed-bits, removed-exact,
  pt_remove_ippref-removed,
}
use lispmob.MappingDb.Spec.{
  Spec, same_prefix, spec_add, spec_remove, Op, is_prefix, ArePrefixes, spec_run, same_prefix_self,
  twice, add, remove,
}

module _ (pt : Patricia) where
  abbrev pub run : List Op → Mdb pt → Run (Mdb pt)
  run [] db = ok db
  run (add a n entry ∷ ops) db = mdb_add_entry pt db (ippref a n) entry >>= (λ r. run ops r.1)
  run (remove a n ∷ ops) db = mdb_remove_entry pt db (ippref a n) >>= (λ r. run ops r.1)

  -- the tree of a family is the map on that family
  record Implements (db : Mdb pt) (m : Spec) : Type 1 where
    v4_bits : pt.maxbits db.af4_ip ≡ 32
    v6_bits : pt.maxbits db.af6_ip ≡ 128
    v4_tree : (b k : ℕ) → pt.search_exact db.af4_ip (v4 b) k ≡ m (v4 b) k
    v6_tree : (b k : ℕ) → pt.search_exact db.af6_ip (v6 b) k ≡ m (v6 b) k

  new-Implements : Implements (mdb_new pt) (λ b k. none)
  unfolding mdb_new
  new-Implements = record {
    v4_bits = pt.maxbits-new 32;
    v6_bits = pt.maxbits-new 128;
    v4_tree = λ b k. pt.exact-new 32 (v4 b) k;
    v6_tree = λ b k. pt.exact-new 128 (v6 b) k;
  }

  add-Implements :
      (a : Ip) (n entry : ℕ) (db : Mdb pt) (m : Spec)
      → is_prefix a n ≡ true
      → Implements db m
      → Returns
          (mdb_add_entry pt db (ippref a n) entry)
          (λ r. Implements r.1 (spec_add a n entry m) × (r.1.n_entries ≡ db.n_entries + 1))
  unfolding mdb_add_entry add_ippref_entry get_ip_pt_from_afi pt_add_node added
  add-Implements unspec n entry db m good h = absurd (cc)
  add-Implements (v4 a) n entry db m good h =
      let all : leb n 32 && leb n 32 ≡ true = rw (good) refl in
      let t = added pt db.af4_ip (v4 a) n entry in
      (
        (true, record db { af4_ip = t; n_entries = db.n_entries + 1 }),
        rw (h.v4_bits, all) refl,
        (
          record {
            v4_bits = added-bits pt db.af4_ip (v4 a) n entry ∙ h.v4_bits;
            v6_bits = h.v6_bits;
            v4_tree = λ b k.
                added-exact pt db.af4_ip (v4 a) n entry (v4 b) k
                ∙ ap
                    (λ o.
                      if (k == n) && in_block n (v4 a) (v4 b) then or_else o (some entry) else o)
                    (h.v4_tree b k);
            v6_tree = λ b k. h.v6_tree b k;
          },
          refl,
        ),
      )
  add-Implements (v6 a) n entry db m good h =
      let all : leb n 128 && leb n 128 ≡ true = rw (good) refl in
      let t = added pt db.af6_ip (v6 a) n entry in
      (
        (true, record db { af6_ip = t; n_entries = db.n_entries + 1 }),
        rw (h.v6_bits, all) refl,
        (
          record {
            v4_bits = h.v4_bits;
            v6_bits = added-bits pt db.af6_ip (v6 a) n entry ∙ h.v6_bits;
            v4_tree = λ b k. h.v4_tree b k;
            v6_tree = λ b k.
                added-exact pt db.af6_ip (v6 a) n entry (v6 b) k
                ∙ ap
                    (λ o.
                      if (k == n) && in_block n (v6 a) (v6 b) then or_else o (some entry) else o)
                    (h.v6_tree b k);
          },
          refl,
        ),
      )

  discounted-Implements :
      (o : Option ℕ) (db : Mdb pt) (m : Spec)
      → Implements db m
      → Implements (discounted pt (o, db)).1 m
  discounted-Implements none db m h = h
  discounted-Implements (some entry) db m h = record {
    v4_bits = h.v4_bits;
    v6_bits = h.v6_bits;
    v4_tree = h.v4_tree;
    v6_tree = h.v6_tree;
  }

  remove-Implements :
      (a : Ip) (n : ℕ) (db : Mdb pt) (m : Spec)
      → is_prefix a n ≡ true
      → Implements db m
      → Returns (mdb_remove_entry pt db (ippref a n)) (λ r. Implements r.1 (spec_remove a n m))
  unfolding mdb_remove_entry remove_ippref get_ip_pt_from_afi
  remove-Implements unspec n db m good h = absurd (cc)
  remove-Implements (v4 a) n db m good h =
      let all : fits (v4 a) n (pt.maxbits db.af4_ip) ≡ true = rw (h.v4_bits, good) refl in
      let step = pt_remove_ippref-removed pt db.af4_ip (v4 a) n all in
      let r = removed pt db.af4_ip (v4 a) n in
      let v = record db { af4_ip = r.1 } in
      (
        discounted pt (r.0, v),
        rw (step) refl,
        discounted-Implements r.0 v (spec_remove (v4 a) n m) record {
          v4_bits = removed-bits pt db.af4_ip (v4 a) n ∙ h.v4_bits;
          v6_bits = h.v6_bits;
          v4_tree = λ b k.
              removed-exact pt db.af4_ip (v4 a) n (v4 b) k
              ∙ ap (λ o. if (k == n) && in_block n (v4 a) (v4 b) then none else o) (h.v4_tree b k);
          v6_tree = λ b k. h.v6_tree b k;
        },
      )
  remove-Implements (v6 a) n db m good h =
      let all : fits (v6 a) n (pt.maxbits db.af6_ip) ≡ true = rw (h.v6_bits, good) refl in
      let step = pt_remove_ippref-removed pt db.af6_ip (v6 a) n all in
      let r = removed pt db.af6_ip (v6 a) n in
      let v = record db { af6_ip = r.1 } in
      (
        discounted pt (r.0, v),
        rw (step) refl,
        discounted-Implements r.0 v (spec_remove (v6 a) n m) record {
          v4_bits = h.v4_bits;
          v6_bits = removed-bits pt db.af6_ip (v6 a) n ∙ h.v6_bits;
          v4_tree = λ b k. h.v4_tree b k;
          v6_tree = λ b k.
              removed-exact pt db.af6_ip (v6 a) n (v6 b) k
              ∙ ap (λ o. if (k == n) && in_block n (v6 a) (v6 b) then none else o) (h.v6_tree b k);
        },
      )

  run-Implements :
      (ops : List Op) (db : Mdb pt) (m : Spec)
      → ArePrefixes ops
      → Implements db m
      → Returns (run ops db) (λ v. Implements v (spec_run ops m))
  run-Implements [] db m all h = (db, refl, h)
  run-Implements (add a n entry ∷ ops) db m (good, all) h =
      let (r, step, (next, _)) = add-Implements a n entry db m good h in
      let (v, runs, left) = run-Implements ops r.1 (spec_add a n entry m) all next in
      (v, rw (step) runs, left)
  run-Implements (remove a n ∷ ops) db m (good, all) h =
      let (r, step, next) = remove-Implements a n db m good h in
      let (v, runs, left) = run-Implements ops r.1 (spec_remove a n m) all next in
      (v, rw (step) runs, left)

  lookup-Implements :
      (a : Ip) (n : ℕ) (db : Mdb pt) (m : Spec)
      → is_prefix a n ≡ true
      → Implements db m
      → (mdb_lookup_entry pt db (ip a) ≡ ok (longest (λ k. m a k) (ip_addr_afi_to_default_mask a)))
        × (mdb_lookup_entry_exact pt db (ippref a n) ≡ ok (m a n))
  unfolding mdb_lookup_entry mdb_lookup_entry_exact find_node find_ip_node get_ip_pt_from_afi
      pt_find_ip_node pt_find_ip_node_exact ip_addr_afi_to_default_mask ip_afi_to_default_mask
      ip_addr_afi
  lookup-Implements unspec n db m good h = absurd (cc)
  lookup-Implements (v4 a) n db m good h =
      let all : fits (v4 a) n (pt.maxbits db.af4_ip) ≡ true = rw (h.v4_bits, good) refl in
      (
        rw (h.v4_bits, pt.best-longest db.af4_ip (v4 a) 32)
            (ap ok (longest-same 32 _ _ (λ k. h.v4_tree a k))),
        rw (all) (ap ok (h.v4_tree a n)),
      )
  lookup-Implements (v6 a) n db m good h =
      let all : fits (v6 a) n (pt.maxbits db.af6_ip) ≡ true = rw (h.v6_bits, good) refl in
      (
        rw (h.v6_bits, pt.best-longest db.af6_ip (v6 a) 128)
            (ap ok (longest-same 128 _ _ (λ k. h.v6_tree a k))),
        rw (all) (ap ok (h.v6_tree a n)),
      )

  -- After any additions and removals of IP prefixes on a new database, of lengths that they can have,
  -- looking up an address answers the entry of the longest prefix that covers it, and an exact search
  -- that of the prefix, in a map on which an addition leaves the entry that a prefix has.
  pub mdb_lookup_entry-longest :
      (ops : List Op) (a : Ip) (n : ℕ)
      → ArePrefixes ops
      → is_prefix a n ≡ true
      → Returns (run ops (mdb_new pt)) (λ db.
        (mdb_lookup_entry pt db (ip a)
          ≡ ok (longest (λ k. spec_run ops (λ b l. none) a k) (ip_addr_afi_to_default_mask a)))
        × (mdb_lookup_entry_exact pt db (ippref a n) ≡ ok (spec_run ops (λ b l. none) a n)))
  mdb_lookup_entry-longest ops a n all good =
      let (db, runs, h) = run-Implements ops (mdb_new pt) (λ b l. none) all new-Implements in
      (db, runs, lookup-Implements a n db (spec_run ops (λ b l. none)) good h)

  -- After any additions and removals of IP prefixes, of lengths that they can have, adding two entries
  -- for one prefix ends with the entry that the prefix had, or else the first of the two; but both
  -- additions are counted.
  pub mdb_add_entry-again :
      (ops : List Op) (a : Ip) (n first second : ℕ)
      → ArePrefixes ops
      → is_prefix a n ≡ true
      → Returns (run ops (mdb_new pt)) (λ before.
        Returns (run (add a n first ∷ add a n second ∷ []) before) (λ db.
          (mdb_lookup_entry_exact pt db (ippref a n)
            ≡ ok (or_else (spec_run ops (λ b l. none) a n) (some first)))
          × (db.n_entries ≡ before.n_entries + 2)))
  mdb_add_entry-again ops a n first second all good =
      let m = spec_run ops (λ b l. none) in
      let (before, runs, h) = run-Implements ops (mdb_new pt) (λ b l. none) all new-Implements in
      let (r, one, (next, more)) = add-Implements a n first before m good h in
      let (q, two, (last, most)) = add-Implements a n second r.1 (spec_add a n first m) good next in
      let (_, exact) =
        lookup-Implements a n q.1 (spec_add a n second (spec_add a n first m)) good last in
      let self = same_prefix_self a n good in
      let kept = twice (same_prefix a n a n) (m a n) first second self in
      (before, runs, (q.1, rw (one, two) refl, (exact ∙ ap ok kept, omega (arith, more, most))))
