-- ===== src/MappingDb.antt =====
-- lispd/lib/mapping_db.c: the mappings by their EID, for the map cache and the local database. The Patricia
-- trees are those of lispd/elibs, given by their operations; an entry is a pointer that is not NULL. The
-- trees of the IP EIDs are those that hang on the nodes of length 0 which mdb_new makes.
pub mod Entries
pub mod Tree
pub mod Spec
pub mod Match
pub mod Listed
mod Tests
use lispmob.Prelude.{
  ℕ, zero, suc, ◌+◌, ◌-◌, ◌*◌, ◌/◌, ◌^◌, ◌≡◌, Bool, true, false, ◌&&◌, Option, none, some, leb,
  ◌==◌, if◌then◌else◌, Run, ok, fault, assertion_failed, ◌>>=◌,
}
use lispmob.Address.{Ip, unspec, v4, v6, Addr, no_addr, ip, ippref, lcaf, Lcaf, mc}
use lispmob.Prefixes.{ip_addr_afi_to_default_mask, lisp_addr_get_plen}

-- the number of an address in the 128 bits that a tree compares from the first one on
abbrev pub aligned : Ip → ℕ
aligned unspec = 0
aligned (v4 n) = n * 2 ^ 96
aligned (v6 n) = n

-- whether two addresses agree on their first `n` bits
abbrev pub in_block : ℕ → Ip → Ip → Bool
in_block n a b = aligned a / 2 ^ (128 - n) == aligned b / 2 ^ (128 - n)

-- the value at the longest length up to `n`
unfoldable pub longest {ℓ} : {V : Type ℓ} → (ℕ → Option V) → ℕ → Option V
longest at zero = at zero
longest at (suc n) = let rest = longest at n in elim (at (suc n)) [ some v ↦ some v | none ↦ rest ]

-- `patricia_tree_t`, with what the functions of patricia.c do; a prefix is an address and a length
pub record Patricia : Type 1 where
  pub Tree : Type 0 → Type 0
  pub new_patricia : {V : Type 0} → ℕ → Tree V
  pub maxbits : {V : Type 0} → Tree V → ℕ
  pub search_exact : {V : Type 0} → Tree V → Ip → ℕ → Option V
  pub search_best : {V : Type 0} → Tree V → Ip → ℕ → Option V
  pub set_data : {V : Type 0} → Tree V → Ip → ℕ → V → Tree V
  pub remove_node : {V : Type 0} → Tree V → Ip → ℕ → Tree V
  pub is_empty : {V : Type 0} → Tree V → Bool
  pub maxbits-new : {V : Type 0} (w : ℕ) → maxbits {V = V} (new_patricia w) ≡ w
  pub maxbits-set :
      {V : Type 0} (t : Tree V) (a : Ip) (n : ℕ) (v : V) → maxbits (set_data t a n v) ≡ maxbits t
  pub maxbits-remove :
      {V : Type 0} (t : Tree V) (a : Ip) (n : ℕ) → maxbits (remove_node t a n) ≡ maxbits t
  pub exact-new :
      {V : Type 0} (w : ℕ) (a : Ip) (n : ℕ) → search_exact {V = V} (new_patricia w) a n ≡ none
  pub exact-set :
      {V : Type 0} (t : Tree V) (a : Ip) (n : ℕ) (v : V) (b : Ip) (k : ℕ)
      → search_exact (set_data t a n v) b k
        ≡ (if (k == n) && in_block n a b then some v else search_exact t b k)
  pub exact-remove :
      {V : Type 0} (t : Tree V) (a : Ip) (n : ℕ) (b : Ip) (k : ℕ)
      → search_exact (remove_node t a n) b k
        ≡ (if (k == n) && in_block n a b then none else search_exact t b k)
  pub exact-block :
      {V : Type 0} (t : Tree V) (a : Ip) (n : ℕ) (b : Ip)
      → in_block n a b ≡ true
      → search_exact t a n ≡ search_exact t b n
  pub best-longest :
      {V : Type 0} (t : Tree V) (a : Ip) (n : ℕ)
      → search_best t a n ≡ longest (λ k. search_exact t a k) n

-- What pt_make_ip_prefix and the tree assert of a prefix; an address without family has none.
abbrev pub fits : Ip → ℕ → ℕ → Bool
fits unspec n bits = false
fits (v4 a) n bits = leb n 32 && leb n bits
fits (v6 a) n bits = leb n 128 && leb n bits

abbrev pub asserted {ℓ} : {X : Type ℓ} → Bool → X → Run X
asserted true x = ok x
asserted false x = fault assertion_failed

module _ (pt : Patricia) where
  pub record Mdb : Type 0 where
    pub af4_ip : pt.Tree ℕ
    pub af6_ip : pt.Tree ℕ
    pub af4_mc : pt.Tree (pt.Tree ℕ)
    pub af6_mc : pt.Tree (pt.Tree ℕ)
    pub n_entries : ℕ

  unfoldable pub mdb_new : Mdb
  mdb_new = record {
    af4_ip = pt.new_patricia 32;
    af6_ip = pt.new_patricia 128;
    af4_mc = pt.new_patricia 32;
    af6_mc = pt.new_patricia 128;
    n_entries = 0;
  }

  -- A node that has data keeps them.
  unfoldable pub pt_add_node : {V : Type 0} → pt.Tree V → Ip → ℕ → V → Run (pt.Tree V)
  pt_add_node t a n entry =
      asserted (fits a n (pt.maxbits t))
        (elim (pt.search_exact t a n) [ some old ↦ t | none ↦ pt.set_data t a n entry ])

  unfoldable pub pt_find_ip_node_exact : {V : Type 0} → pt.Tree V → Ip → ℕ → Run (Option V)
  pt_find_ip_node_exact t a n = asserted (fits a n (pt.maxbits t)) (pt.search_exact t a n)

  unfoldable pub pt_find_ip_node : {V : Type 0} → pt.Tree V → Ip → Run (Option V)
  pt_find_ip_node t a =
      let n = ip_addr_afi_to_default_mask a in
      asserted (fits a n (pt.maxbits t)) (pt.search_best t a n)

  -- the tree of the family of an address, NULL for another, which the calls of the tree assert against
  unfoldable pub get_ip_pt_from_afi : Ip → Mdb → Run (pt.Tree ℕ)
  get_ip_pt_from_afi unspec db = fault assertion_failed
  get_ip_pt_from_afi (v4 a) db = ok db.af4_ip
  get_ip_pt_from_afi (v6 a) db = ok db.af6_ip

  abbrev pub put_ip_pt : Ip → pt.Tree ℕ → Mdb → Mdb
  put_ip_pt unspec t db = db
  put_ip_pt (v4 a) t db = record db { af4_ip = t }
  put_ip_pt (v6 a) t db = record db { af6_ip = t }

  unfoldable pub add_ippref_entry : Mdb → ℕ → Ip → ℕ → Run Mdb
  unfolding get_ip_pt_from_afi pt_add_node
  add_ippref_entry db entry a n =
      get_ip_pt_from_afi a db >>= (λ t. pt_add_node t a n entry >>= (λ u. ok (put_ip_pt a u db)))

  unfoldable pub pt_remove_ippref : pt.Tree ℕ → Ip → ℕ → Run (Option ℕ × pt.Tree ℕ)
  unfolding pt_find_ip_node_exact
  pt_remove_ippref t a n =
      pt_find_ip_node_exact t a n
      >>= (λ o. elim o [ none ↦ ok (none, t) | some entry ↦ ok (some entry, pt.remove_node t a n) ])

  unfoldable pub remove_ippref : Mdb → Ip → ℕ → Run (Option ℕ × Mdb)
  unfolding get_ip_pt_from_afi pt_remove_ippref
  remove_ippref db a n =
      get_ip_pt_from_afi a db
      >>= (λ t. pt_remove_ippref t a n >>= (λ r. ok (r.0, put_ip_pt a r.1 db)))

  -- with or without an exact match
  unfoldable pub find_ip_node : Mdb → Ip → ℕ → Bool → Run (Option ℕ)
  unfolding get_ip_pt_from_afi pt_find_ip_node_exact pt_find_ip_node
  find_ip_node db a n exact =
      get_ip_pt_from_afi a db
      >>= (λ t. if exact then pt_find_ip_node_exact t a n else pt_find_ip_node t a)
