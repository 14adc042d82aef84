-- ===== src/MappingDb/Entries.antt =====
-- lispd/lib/mapping_db.c: adding, removing and looking up, for IP and for multicast EIDs. The node of a
-- source has the tree of its groups as data.
use lispmob.Prelude.{
  ℕ, ◌+◌, ◌-◌, Bool, true, false, Option, none, some, if◌then◌else◌, Run, ok, fault,
  assertion_failed, ◌>>=◌,
}
use lispmob.Address.{Ip, unspec, v4, v6, Addr, no_addr, ip, ippref, lcaf, Lcaf, mc}
use lispmob.Prefixes.{ip_addr_afi_to_default_mask, lisp_addr_get_plen}
use lispmob.MappingDb.{
  Patricia, Mdb, pt_add_node, pt_find_ip_node_exact, pt_find_ip_node, add_ippref_entry,
  remove_ippref, find_ip_node,
}

-- the bits of a tree for the groups of a source
abbrev pub bits_of : Ip → ℕ
bits_of unspec = 0
bits_of (v4 a) = 32
bits_of (v6 a) = 128

module _ (pt : Patricia) where
  abbrev pub Sources : Type 0
  Sources = pt.Tree (pt.Tree ℕ)

  -- a source that is found or made, with the tree of its groups
  abbrev pub groups_of : Option (pt.Tree ℕ) → Ip → pt.Tree ℕ
  groups_of none grp = pt.new_patricia (bits_of grp)
  groups_of (some gtrie) grp = gtrie

  unfoldable pub pt_add_mc_addr : Sources → Ip → ℕ → Ip → ℕ → ℕ → Run Sources
  unfolding pt_add_node pt_find_ip_node_exact
  pt_add_mc_addr strie src splen grp gplen entry =
      pt_find_ip_node_exact pt strie src splen >>= (λ o.
        pt_add_node pt (groups_of o grp) grp gplen entry
        >>= (λ gtrie. ok (pt.set_data strie src splen gtrie)))

  -- an empty tree of groups goes, with the node of its source
  unfoldable pub remove_grp : Sources → Ip → ℕ → pt.Tree ℕ → Ip → ℕ → Sources
  remove_grp strie src splen gtrie grp gplen =
      let left = pt.remove_node gtrie grp gplen in
      if pt.is_empty left then pt.remove_node strie src splen else pt.set_data strie src splen left

  unfoldable pub pt_remove_mc_addr : Sources → Ip → ℕ → Ip → ℕ → Run (Option ℕ × Sources)
  unfolding pt_find_ip_node_exact remove_grp
  pt_remove_mc_addr strie src splen grp gplen = pt_find_ip_node_exact pt strie src splen >>= (λ o.
      elim o as (λ _. Run (Option ℕ × Sources)) [
        | none ↦ ok (none, strie)
        | some gtrie ↦ pt_find_ip_node_exact pt gtrie grp gplen >>= (λ e.
            elim e as (λ _. Run (Option ℕ × Sources)) [
              | none ↦ ok (none, strie)
              | some entry ↦ ok (some entry, remove_grp strie src splen gtrie grp gplen)
            ])
      ])

  -- The group is looked for by its best match, also for an exact search.
  unfoldable pub pt_find_mc_node : Sources → Ip → ℕ → Ip → Bool → Run (Option ℕ)
  unfolding pt_find_ip_node_exact pt_find_ip_node
  pt_find_mc_node strie src splen grp exact =
      (if exact then pt_find_ip_node_exact pt strie src splen else pt_find_ip_node pt strie src)
      >>= (λ o. elim o as (λ _. Run (Option ℕ)) [
        | none ↦ ok none
        | some gtrie ↦ pt_find_ip_node pt gtrie grp
      ])

  -- the sources of the family of an address; it has none otherwise
  abbrev pub get_mc_pt_from_afi : Ip → Mdb pt → Option Sources
  get_mc_pt_from_afi unspec db = none
  get_mc_pt_from_afi (v4 a) db = some db.af4_mc
  get_mc_pt_from_afi (v6 a) db = some db.af6_mc

  abbrev pub put_mc_pt : Ip → Sources → Mdb pt → Mdb pt
  put_mc_pt unspec t db = db
  put_mc_pt (v4 a) t db = record db { af4_mc = t }
  put_mc_pt (v6 a) t db = record db { af6_mc = t }

  -- GOOD is `true`
  unfoldable pub add_lcaf_entry : Mdb pt → ℕ → Lcaf → Run (Bool × Mdb pt)
  unfolding pt_add_mc_addr
  add_lcaf_entry db entry (mc splen gplen n (ip src) (ip grp)) =
      elim (get_mc_pt_from_afi src db) as (λ _. Run (Bool × Mdb pt)) [
        | none ↦ fault assertion_failed
        | some strie ↦
            pt_add_mc_addr strie src splen grp gplen entry >>= (λ t. ok (true, put_mc_pt src t db))
      ]
  add_lcaf_entry db entry _ = ok (false, db)

  abbrev pub counted : Bool × Mdb pt → Bool × Mdb pt
  counted (false, db) = (false, db)
  counted (true, db) = (true, record db { n_entries = db.n_entries + 1 })

  unfoldable pub mdb_add_entry : Mdb pt → Addr → ℕ → Run (Bool × Mdb pt)
  unfolding add_lcaf_entry add_ippref_entry
  mdb_add_entry db (ippref a n) entry =
      add_ippref_entry pt db entry a n >>= (λ r. ok (counted (true, r)))
  mdb_add_entry db (lcaf l) entry = add_lcaf_entry db entry l >>= (λ r. ok (counted r))
  mdb_add_entry db _ entry = ok (false, db)

  unfoldable pub del_lcaf_entry : Mdb pt → Lcaf → Run (Option ℕ × Mdb pt)
  unfolding pt_remove_mc_addr
  del_lcaf_entry db (mc splen gplen n (ip src) (ip grp)) =
      elim (get_mc_pt_from_afi src db) as (λ _. Run (Option ℕ × Mdb pt)) [
        | none ↦ ok (none, db)
        | some strie ↦
            pt_remove_mc_addr strie src splen grp gplen >>= (λ r. ok (r.0, put_mc_pt src r.1 db))
      ]
  del_lcaf_entry db _ = ok (none, db)

  abbrev pub discounted : Option ℕ × Mdb pt → Option ℕ × Mdb pt
  discounted (none, db) = (none, db)
  discounted (some entry, db) = (some entry, record db { n_entries = db.n_entries - 1 })

  unfoldable pub mdb_remove_entry : Mdb pt → Addr → Run (Option ℕ × Mdb pt)
  unfolding del_lcaf_entry remove_ippref
  mdb_remove_entry db (ip a) =
      remove_ippref pt db a (ip_addr_afi_to_default_mask a) >>= (λ r. ok (discounted r))
  mdb_remove_entry db (ippref a n) = remove_ippref pt db a n >>= (λ r. ok (discounted r))
  mdb_remove_entry db (lcaf l) = del_lcaf_entry db l >>= (λ r. ok (discounted r))
  mdb_remove_entry db no_addr = ok (none, db)

  -- The tree is that of the family of the group.
  unfoldable pub find_lcaf_node : Mdb pt → Lcaf → Bool → Run (Option ℕ)
  unfolding pt_find_mc_node
  find_lcaf_node db (mc splen gplen n (ip src) (ip grp)) exact =
      elim (get_mc_pt_from_afi grp db) as (λ _. Run (Option ℕ)) [
        | none ↦ ok none
        | some strie ↦ pt_find_mc_node strie src splen grp exact
      ]
  find_lcaf_node db _ exact = ok none

  unfoldable pub find_node : Mdb pt → Addr → Bool → Run (Option ℕ)
  unfolding find_lcaf_node find_ip_node lisp_addr_get_plen
  find_node db (ip a) exact = find_ip_node pt db a (ip_addr_afi_to_default_mask a) exact
  find_node db (ippref a n) exact = find_ip_node pt db a n exact
  find_node db (lcaf l) exact = find_lcaf_node db l exact
  find_node db no_addr exact = ok none

  unfoldable pub mdb_lookup_entry : Mdb pt → Addr → Run (Option ℕ)
  unfolding find_node
  mdb_lookup_entry db a = find_node db a false

  unfoldable pub mdb_lookup_entry_exact : Mdb pt → Addr → Run (Option ℕ)
  unfolding find_node
  mdb_lookup_entry_exact db a = find_node db a true
