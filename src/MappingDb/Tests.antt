-- ===== src/MappingDb/Tests.antt =====
-- lispd/lib/mapping_db.c: a run on a tree that is a list.
use lispmob.Prelude.{◌+◌, ◌≡◌, refl, none, some, List, [], ◌∷◌, ok, Returns}
use lispmob.Address.{v4, ip, ippref}
use lispmob.Prefixes.{ip_addr_afi_to_default_mask}
use lispmob.MappingDb.{mdb_new, longest}
use lispmob.MappingDb.Listed.{changes}
use lispmob.MappingDb.Entries.{mdb_lookup_entry, mdb_lookup_entry_exact}
use lispmob.MappingDb.Spec.{Op, add, remove, spec_run}
use lispmob.MappingDb.Match.{run, mdb_lookup_entry-longest, mdb_add_entry-again}
use lispmob.MappingDb.Tree.{or_else}

-- a default mapping, 10.0.0.0/8 and 10.1.0.0/16, of which the last goes again
abbrev mappings : List Op
mappings =
    add (v4 0) 0 1
    ∷ add (v4 167772160) 8 2
    ∷ add (v4 167837696) 16 3
    ∷ remove (v4 167837696) 16
    ∷ []

-- the way to 10.1.2.3
mdb_lookup_entry-longest_example : Returns (run changes mappings (mdb_new changes)) (λ db.
    (mdb_lookup_entry changes db (ip (v4 167838211))
      ≡ ok (
          longest
            (λ k. spec_run mappings (λ b l. none) (v4 167838211) k)
            (ip_addr_afi_to_default_mask (v4 167838211))))
    × (mdb_lookup_entry_exact changes db (ippref (v4 167838211) 24)
        ≡ ok (spec_run mappings (λ b l. none) (v4 167838211) 24)))
mdb_lookup_entry-longest_example =
    mdb_lookup_entry-longest changes mappings (v4 167838211) 24 (refl, (refl, (refl, (refl, tt))))
      refl

mdb_add_entry-again_example : Returns (run changes mappings (mdb_new changes)) (λ before.
    Returns (run changes (add (v4 167772160) 8 7 ∷ add (v4 167772160) 8 9 ∷ []) before) (λ db.
      (mdb_lookup_entry_exact changes db (ippref (v4 167772160) 8)
        ≡ ok (or_else (spec_run mappings (λ b l. none) (v4 167772160) 8) (some 7)))
      × (db.n_entries ≡ before.n_entries + 2)))
mdb_add_entry-again_example =
    mdb_add_entry-again changes mappings (v4 167772160) 8 7 9 (refl, (refl, (refl, (refl, tt))))
      refl
