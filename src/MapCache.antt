-- ===== src/MapCache.antt =====
-- lispd/control/lisp_map_cache.c and lisp_local_db.c, with the entries of lispd/lib/map_cache_entry.c and
-- map_local_entry.c: the mappings that lispd learned, and its own. An entry is a pointer; one that is
-- freed points to nothing, and with it goes its mapping. The timers of an entry are those of its pointer.
use lispmob.Prelude.{
  ℕ, Bool, true, false, Option, none, some, leb, if◌then◌else◌, Run, ok, fault, null_pointer,
  dangling_pointer, ◌==◌, ◌>>=◌,
}
use lispmob.Address.{Addr}
use lispmob.Mapping.{Mapping}
use lispmob.MappingDb.{Patricia, Mdb, mdb_new}
use lispmob.MappingDb.Entries.{
  mdb_add_entry, mdb_remove_entry, mdb_lookup_entry, mdb_lookup_entry_exact,
}
use lispmob.Nonces.{Khash}
use lispmob.TimerTables.{Clock, stop_timers_from_obj}

-- `mcache_entry_t` without its timestamp: learned from a Map-Reply or by configuration
pub record McacheEntry : Type 0 where
  pub active : Bool
  pub is_static : Bool
  pub mapping : Option Mapping

unfoldable pub mcache_entry_new : McacheEntry
mcache_entry_new = record { active = false; is_static = false; mapping = none }

unfoldable pub mcache_entry_init : Mapping → McacheEntry → McacheEntry
mcache_entry_init m e = record e { mapping = some m; is_static = false }

unfoldable pub mcache_entry_init_static : Mapping → McacheEntry → McacheEntry
mcache_entry_init_static m e = record e { active = true; mapping = some m; is_static = true }

unfoldable pub mcache_has_locators : McacheEntry → Run Bool
mcache_has_locators e = elim e.mapping as (λ _. Run Bool) [
  | none ↦ fault null_pointer
  | some m ↦ ok (leb 1 m.locator_count)
]

-- `map_local_entry_t`: the forwarding information with the function that deletes it, both NULL at first
pub record MapLocalEntry : Type 0 where
  pub mapping : Mapping
  pub fwd_info : Option ℕ
  pub fwd_inf_del : Option ℕ

unfoldable pub map_local_entry_new_init : Mapping → MapLocalEntry
map_local_entry_new_init m = record { mapping = m; fwd_info = none; fwd_inf_del = none }

unfoldable pub map_local_entry_set_fwd_info : Option ℕ → Option ℕ → MapLocalEntry → MapLocalEntry
map_local_entry_set_fwd_info info del e = record e { fwd_info = info; fwd_inf_del = del }

unfoldable pub map_local_entry_eid : MapLocalEntry → Addr
map_local_entry_eid e = e.mapping.eid_prefix

-- A call through a NULL pointer, if there is something to delete, is a fault.
abbrev pub delete_fwd_info : Option ℕ → Option ℕ → Run Bool
delete_fwd_info none del = ok false
delete_fwd_info (some i) none = fault null_pointer
delete_fwd_info (some i) (some f) = ok true

abbrev pub local_at : (ℕ → Option MapLocalEntry) → ℕ → Run MapLocalEntry
local_at entries p = elim (entries p) as (λ _. Run MapLocalEntry) [
  | none ↦ fault dangling_pointer
  | some e ↦ ok e
]

module _ {pt : Patricia} where
  -- the map cache is its database
  unfoldable pub mcache_new : Mdb pt
  unfolding mdb_new
  mcache_new = mdb_new pt

  unfoldable pub mcache_add_entry : Addr → ℕ → Mdb pt → Run (Bool × Mdb pt)
  unfolding mdb_add_entry
  mcache_add_entry key mce db = mdb_add_entry pt db key mce

  unfoldable pub mcache_remove_entry : Addr → Mdb pt → Run (Option ℕ × Mdb pt)
  unfolding mdb_remove_entry
  mcache_remove_entry key db = mdb_remove_entry pt db key

  unfoldable pub mcache_lookup : Addr → Mdb pt → Run (Option ℕ)
  unfolding mdb_lookup_entry
  mcache_lookup laddr db = mdb_lookup_entry pt db laddr

  unfoldable pub mcache_lookup_exact : Addr → Mdb pt → Run (Option ℕ)
  unfolding mdb_lookup_entry_exact
  mcache_lookup_exact laddr db = mdb_lookup_entry_exact pt db laddr

-- the local database, the entries and the timers
pub record LocalDb (pt : Patricia) (kp kn : Khash) : Type 0 where
  pub db : Mdb pt
  pub entries : ℕ → Option MapLocalEntry
  pub clock : Clock kp kn

module _ {pt : Patricia} {kp kn : Khash} where
  unfoldable pub local_map_db_add_entry : ℕ → LocalDb pt kp kn → Run (Bool × LocalDb pt kp kn)
  unfolding mdb_add_entry map_local_entry_eid
  local_map_db_add_entry p s = local_at s.entries p >>= (λ e.
      mdb_add_entry pt s.db (map_local_entry_eid e) p >>= (λ r. ok (r.0, record s { db = r.1 })))

  unfoldable pub local_map_db_lookup_eid : Addr → LocalDb pt kp kn → Run (Option ℕ)
  unfolding mdb_lookup_entry
  local_map_db_lookup_eid eid s = mdb_lookup_entry pt s.db eid

  unfoldable pub local_map_db_lookup_eid_exact : Addr → LocalDb pt kp kn → Run (Option ℕ)
  unfolding mdb_lookup_entry_exact
  local_map_db_lookup_eid_exact eid s = mdb_lookup_entry_exact pt s.db eid

  -- The timers are stopped, the forwarding information is deleted and the entry freed; whether it
  -- had timers is not asked.
  unfoldable pub map_local_entry_del : ℕ → LocalDb pt kp kn → Run (LocalDb pt kp kn)
  unfolding stop_timers_from_obj
  map_local_entry_del p s = local_at s.entries p >>= (λ e. stop_timers_from_obj p s.clock >>= (λ r.
      delete_fwd_info e.fwd_info e.fwd_inf_del >>= (λ _.
        ok (record s { clock = r.1; entries = λ q. if q == p then none else s.entries q }))))

  unfoldable pub local_map_db_del_entry : Addr → LocalDb pt kp kn → Run (LocalDb pt kp kn)
  unfolding mdb_remove_entry map_local_entry_del
  local_map_db_del_entry eid s = mdb_remove_entry pt s.db eid >>= (λ r.
      elim r.0 as (λ _. Run (LocalDb pt kp kn)) [
        | none ↦ ok (record s { db = r.1 })
        | some p ↦ map_local_entry_del p (record s { db = r.1 })
      ])
