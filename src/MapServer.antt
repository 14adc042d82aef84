-- ===== src/MapServer.antt =====
-- lispd/control/lisp_ms.c: the Map-Server. Its databases are those of lispd/lib/mapping_db.c; an entry is the
-- place of a configured site or of a registered mapping in its list. A timer is the place of the
-- registration that it will end; all run for the same time, and the list has the one started last
-- first.
pub mod Registration
pub mod Authentic
pub mod Undefined
mod Tests
use lispmob.Prelude.{
  ℕ, zero, suc, ◌+◌, ◌*◌, ◌/◌, ◌%◌, Bool, true, false, not, ◌&&◌, ◌||◌, Option, none, some, List,
  [], ◌∷◌, ◌++◌, ◌==◌, if◌then◌else◌, get_elem?, length, filter, Run, ok, fault, null_pointer,
  dangling_pointer, invalid_free, ◌>>=◌,
}
use lispmob.Address.{
  Addr, no_addr, af_inet, af_inet6, lisp_addr_lafi, lisp_addr_ip_afi, lisp_addr_get_ip_addr,
}
use lispmob.Wire.{Bytes}
use lispmob.Wire.Parse.{byte}
use lispmob.Locator.{Locator, down}
use lispmob.Locator.Lists.{LoctPtr, LoctList, Status, good, bad}
use lispmob.Mapping.{Mapping}
use lispmob.MappingDb.{Patricia, Mdb}
use lispmob.MappingDb.Entries.{mdb_add_entry, mdb_remove_entry, mdb_lookup_entry}
use lispmob.Messages.{Msg, map_reply, put_at, byte_of, lisp_msg_create}
use lispmob.Messages.Records.{lisp_msg_put_mapping, lisp_msg_neg_mrep_create, put_le}
use lispmob.Messages.Parse.{
  lisp_msg_parse_addr, lisp_msg_parse_eid_rec, lisp_msg_parse_itr_rlocs, lisp_msg_pull_hdr,
}

-- `lisp_site_prefix_t`
pub record Site : Type 0 where
  pub eid_prefix : Addr
  pub key : Bytes
  pub proxy_reply : Bool
  pub accept_more_specifics : Bool
  pub merge : Bool

-- what leaves the device; `forward` carries the request on to an address
pub data Sent : Type 0 where
  reply : Msg → Sent
  forward : Addr → Sent
  notify : Msg → Sent

-- `lisp_ms_t` with the objects of its databases, and the address families of the control plane
pub record Ms (pt : Patricia) : Type 0 where
  pub lisp_sites_db : Mdb pt
  pub reg_sites_db : Mdb pt
  pub sites : List Site
  pub regs : List Mapping
  pub timers : List ℕ
  pub ipv4_support : Bool
  pub ipv6_support : Bool

abbrev pub at_pointer {ℓ} : {A : Type ℓ} → Option A → Run A
at_pointer none = fault dangling_pointer
at_pointer (some a) = ok a

-- `locator_list_lafi_type` and the test on it, for a list by its first locator
abbrev pub passed_over : List LoctPtr → ℕ → Bool
passed_over [] afi = true
passed_over (l ∷ ls) afi =
    (lisp_addr_lafi l.loct.addr == 0)
    || ((lisp_addr_lafi l.loct.addr == 1) && not (lisp_addr_ip_afi l.loct.addr == afi))

-- in a list: the IP address of the first locator that is not down and has the family
unfoldable pub rloc_in_list : List LoctPtr → ℕ → Run (Option Addr)
rloc_in_list [] afi = ok none
rloc_in_list (l ∷ ls) afi =
    let rest = rloc_in_list ls afi in
    if l.loct.state == down then rest else elim (lisp_addr_get_ip_addr l.loct.addr) [
      | none ↦ fault null_pointer
      | some a ↦ if lisp_addr_ip_afi a == afi then ok (some a) else rest
    ]

-- `get_locator_with_afi`, and the IP address of what it found
unfoldable pub get_locator_with_afi : List LoctList → ℕ → Run (Option Addr)
unfolding rloc_in_list
get_locator_with_afi [] afi = ok none
get_locator_with_afi (g ∷ lists) afi =
    let rest = get_locator_with_afi lists afi in
    if passed_over g.elems afi
    then rest
    else (rloc_in_list g.elems afi >>= (λ o. elim o [ none ↦ rest | some a ↦ ok (some a) ]))

abbrev pub when_supported : Bool → Run (Option Addr) → Run (Option Addr)
when_supported true next = next
when_supported false next = ok none

abbrev pub forwarded : Option Addr → List Sent
forwarded none = []
forwarded (some a) = forward a ∷ []

-- A map-reply that was sent is destroyed, and its variable keeps the pointer.
pub data Mrep : Type 0 where
  null freed : Mrep

abbrev pub destroy_mrep : Mrep → Run Mrep
destroy_mrep null = ok null
destroy_mrep freed = fault invalid_free

-- The authoritative bit of the record is cleared and the nonce set, if the record was put.
unfoldable pub proxy_reply_msg : Mapping → ℕ → Run Msg
unfolding lisp_msg_create lisp_msg_put_mapping
proxy_reply_msg m nonce = lisp_msg_create map_reply >>= (λ b.
    lisp_msg_put_mapping b m none >>= (λ r.
      if r.0
      then (let flags = byte_of r.1.bytes 18 in
          let c = put_at r.1 18 (flags / 32 * 32 + flags % 16) in
          ok (record c { bytes = put_le 8 4 nonce c.bytes }))
      else fault null_pointer))

-- an entry of a database and the object it points to
abbrev pub object {ℓ} : {A : Type ℓ} → List A → Option ℕ → Run (Option A)
object xs none = ok none
object xs (some p) = at_pointer (get_elem? xs p) >>= (λ a. ok (some a))

-- the number of the eight bytes of the nonce, as it is in memory
abbrev pub nonce_of : Bytes → ℕ → ℕ → Run ℕ
nonce_of bs i zero = ok 0
nonce_of bs i (suc k) = byte i bs >>= (λ b. nonce_of bs (i + 1) k >>= (λ r. ok (b + 256 * r)))

module _ {pt : Patricia} where
  -- `forward_mreq`; BAD, for no locator, is not asked for
  unfoldable pub forward_mreq : Ms pt → Mapping → Run (List Sent)
  unfolding get_locator_with_afi
  forward_mreq ms m =
      let v4s =
        when_supported ms.ipv4_support (get_locator_with_afi m.locators_lists.elems af_inet) in
      let v6s =
        when_supported ms.ipv6_support (get_locator_with_afi m.locators_lists.elems af_inet6) in
      v4s
      >>= (λ o. elim o [ none ↦ v6s >>= (λ p. ok (forwarded p)) | some a ↦ ok (forward a ∷ []) ])

  -- what is sent for one EID, by its site and its registration
  unfoldable pub answer :
      Ms pt → ℕ → Addr → Mrep → Option Site → Option Mapping → Run (List Sent × Mrep)
  unfolding lisp_msg_neg_mrep_create forward_mreq proxy_reply_msg
  answer ms nonce eid mrep none none =
      lisp_msg_neg_mrep_create eid 15 1 1 nonce >>= (λ b. ok (reply b ∷ [], freed))
  answer ms nonce eid mrep (some site) none =
      lisp_msg_neg_mrep_create eid 1 1 1 nonce >>= (λ b. ok (reply b ∷ [], freed))
  answer ms nonce eid mrep none (some m) =
      proxy_reply_msg m nonce >>= (λ b. ok (reply b ∷ [], freed))
  answer ms nonce eid mrep (some site) (some m) =
      if site.proxy_reply
      then (proxy_reply_msg m nonce >>= (λ b. ok (reply b ∷ [], freed)))
      else (forward_mreq ms m >>= (λ s. destroy_mrep mrep >>= (λ p. ok (s, p))))

  unfoldable pub answer_eid : Ms pt → ℕ → Addr → Mrep → Run (List Sent × Mrep)
  unfolding answer mdb_lookup_entry
  answer_eid ms nonce eid mrep = mdb_lookup_entry pt ms.lisp_sites_db eid >>= (λ i.
      mdb_lookup_entry pt ms.reg_sites_db eid >>= (λ j.
        object ms.sites i
        >>= (λ site. object ms.regs j >>= (λ m. answer ms nonce eid mrep site m))))

  -- the loop over the records, with what was sent so far
  unfoldable pub answer_records : Ms pt → ℕ → ℕ → Mrep → Bytes → Run (List Sent)
  unfolding answer_eid lisp_msg_parse_eid_rec
  answer_records ms nonce zero mrep bs = ok []
  answer_records ms nonce (suc n) mrep bs = lisp_msg_parse_eid_rec bs >>= (λ r.
      answer_eid ms nonce r.0 mrep
      >>= (λ s. answer_records ms nonce n s.1 r.1 >>= (λ rest. ok (s.0 ++ rest))))

  -- A probe or a solicit is discarded, with BAD.
  unfoldable pub ms_recv_map_request : Ms pt → Bytes → Run (Status × List Sent)
  unfolding answer_records lisp_msg_pull_hdr lisp_msg_parse_addr lisp_msg_parse_itr_rlocs
  ms_recv_map_request ms buf = lisp_msg_parse_addr no_addr (lisp_msg_pull_hdr buf) >>= (λ s.
      byte 0 buf >>= (λ flags.
        if (flags / 2 % 2 == 1) || (flags % 2 == 1)
        then ok (bad, [])
        else (lisp_msg_parse_itr_rlocs buf s.1 >>= (λ t. byte 3 buf >>= (λ n.
            nonce_of buf 4 8
            >>= (λ nonce. answer_records ms nonce n null t.1 >>= (λ out. ok (good, out))))))))

  -- The registration whose timer expired leaves the database.
  unfoldable pub lsite_entry_expiration_timer_cb : Ms pt → ℕ → Run (Ms pt)
  unfolding mdb_remove_entry
  lsite_entry_expiration_timer_cb ms p = at_pointer (get_elem? ms.regs p) >>= (λ m.
      mdb_remove_entry pt ms.reg_sites_db m.eid_prefix >>= (λ r.
        ok (record ms { reg_sites_db = r.1; timers = filter (λ t. not (t == p)) ms.timers })))

  -- BAD for an addition that is refused
  unfoldable pub ms_add_lisp_site_prefix : Ms pt → Site → Run (Status × Ms pt)
  unfolding mdb_add_entry
  ms_add_lisp_site_prefix ms s =
      mdb_add_entry pt ms.lisp_sites_db s.eid_prefix (length ms.sites) >>= (λ r. ok (
        if r.0 then good else bad,
        record ms { lisp_sites_db = r.1; sites = ms.sites ++ (s ∷ []) },
      ))

  unfoldable pub ms_add_registered_site_prefix : Ms pt → Mapping → Run (Status × Ms pt)
  unfolding mdb_add_entry
  ms_add_registered_site_prefix ms m =
      mdb_add_entry pt ms.reg_sites_db m.eid_prefix (length ms.regs) >>= (λ r.
        ok
          (if r.0 then good else bad, record ms { reg_sites_db = r.1; regs = ms.regs ++ (m ∷ []) }))
