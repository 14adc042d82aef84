-- ===== src/Messages/Records.antt =====
-- lispd/liblisp/liblisp.c: the records that a message carries, and the messages made of them.
use lispmob.Prelude.{
  ℕ, zero, suc, ◌+◌, ◌-◌, ◌*◌, ◌/◌, ◌%◌, Bool, true, false, Option, none, some, List, [], ◌∷◌, ◌++◌,
  ◌==◌, if◌then◌else◌, length, set, Run, ok, fault, null_pointer, ◌>>=◌,
}
use lispmob.Address.{Addr, is_equal, lisp_addr_is_no_addr, lisp_addr_cmp, lisp_addr_get_ip_addr}
use lispmob.Wire.{Bytes, be}
use lispmob.Locator.{Locator, down}
use lispmob.Locator.Lists.{LoctPtr, LoctList}
use lispmob.Mapping.{Mapping}
use lispmob.Prefixes.{lisp_addr_get_plen}
use lispmob.Messages.{
  Msg, map_request, map_reply, put_at, byte_of, msg_put, lisp_msg_create, increment_record_count,
  lisp_msg_put_addr, locator_flags, lisp_msg_put_locator,
}

-- `mapping_record_hdr_t` with a version of 0
unfoldable pub mapping_record_hdr : ℕ → ℕ → ℕ → ℕ → ℕ → Bytes
mapping_record_hdr ttl count plen action auth =
    be 4 ttl ++ (count % 256 ∷ plen % 256 ∷ (action % 8 * 32 + auth % 2 * 16) ∷ 0 ∷ 0 ∷ 0 ∷ [])

abbrev pub default_data_cache_ttl : ℕ
default_data_cache_ttl = 10

-- `mapping_record_init_hdr`, which the next two change
unfoldable pub mapping_record_init_hdr : Bytes
unfolding mapping_record_hdr
mapping_record_init_hdr = mapping_record_hdr default_data_cache_ttl 1 0 0 1

-- whether the probed address is that of the locator; NULL is no address's
abbrev pub is_probed : Option Addr → Addr → Bool
is_probed none a = false
is_probed (some p) a = elim (lisp_addr_get_ip_addr a) [
  | none ↦ false
  | some i ↦ is_equal (lisp_addr_cmp i p)
]

-- one locator that is not down, and its flag if it is the probed one
unfoldable pub put_probed : Option Addr → Locator → Msg → Run Msg
unfolding lisp_msg_put_locator
put_probed probed l b = lisp_msg_put_locator b l >>= (λ c.
    ok (if is_probed probed l.addr then put_at c (length b.bytes + 5) (locator_flags l 1) else c))

-- the loop over a list, with the number of locators put so far
unfoldable pub put_loct_list : Option Addr → List LoctPtr → ℕ × Msg → Run (ℕ × Msg)
unfolding put_probed
put_loct_list probed [] s = ok s
put_loct_list probed (l ∷ ls) s =
    if l.loct.state == down
    then put_loct_list probed ls s
    else (put_probed probed l.loct s.1 >>= (λ c. put_loct_list probed ls (s.0 + 1, c)))

-- The loop over the lists; one of a locator without address is left out. The first entry of an
-- empty list is its head, whose pointer is NULL.
unfoldable pub put_loct_lists : Option Addr → List LoctList → ℕ × Msg → Run (ℕ × Msg)
unfolding put_loct_list
put_loct_lists probed [] s = ok s
put_loct_lists probed (g ∷ lists) s = elim g.elems [
  | [] ↦ fault null_pointer
  | l ∷ ls ↦
      if lisp_addr_is_no_addr l.loct.addr
      then put_loct_lists probed lists s
      else (put_loct_list probed g.elems s >>= (λ t. put_loct_lists probed lists t))
]

-- the count of the record that begins at `at`, then that of the message
abbrev pub counted_record : ℕ → ℕ × Msg → Msg
counted_record at s = increment_record_count (put_at s.1 (at + 4) (s.0 % 256))

-- The header is that of `lisp_msg_put_mapping_hdr` with its fields set; the action is left at 0. The
-- answer is false for NULL.
unfoldable pub lisp_msg_put_mapping : Msg → Mapping → Option Addr → Run (Bool × Msg)
unfolding msg_put lisp_msg_put_addr put_loct_lists mapping_record_hdr
lisp_msg_put_mapping b m probed =
    let hdr = mapping_record_hdr m.ttl 1 (lisp_addr_get_plen m.eid_prefix) 0 m.authoritative in
    msg_put b hdr >>= (λ c. lisp_msg_put_addr c m.eid_prefix >>= (λ r.
      if r.0
      then put_loct_lists probed m.locators_lists.elems (0, r.1)
        >>= (λ s. ok (true, counted_record (length b.bytes) s))
      else ok (false, r.1)))

unfoldable pub lisp_msg_put_neg_mapping : Msg → Addr → ℕ → ℕ → ℕ → Run (Bool × Msg)
unfolding msg_put lisp_msg_put_addr mapping_record_hdr increment_record_count
lisp_msg_put_neg_mapping b eid ttl act a =
    msg_put b (mapping_record_hdr ttl 0 (lisp_addr_get_plen eid) act a) >>= (λ c.
      lisp_msg_put_addr c eid >>= (λ r. ok (r.0, if r.0 then increment_record_count r.1 else r.1)))

-- the loop over the addresses; `none` for NULL
unfoldable pub put_addrs : Msg → List Addr → Run (Option Msg)
unfolding lisp_msg_put_addr
put_addrs b [] = ok (some b)
put_addrs b (a ∷ rest) =
    lisp_msg_put_addr b a >>= (λ r. if r.0 then put_addrs r.1 rest else ok none)

-- The number less one goes into five bits of the header.
abbrev pub set_itr_rloc_count : ℕ → Msg → Msg
set_itr_rloc_count n b = put_at b 2 (byte_of b.bytes 2 - byte_of b.bytes 2 % 32 + (n - 1) % 32)

unfoldable pub lisp_msg_put_itr_rlocs : Msg → List Addr → Run (Option Msg)
unfolding put_addrs
lisp_msg_put_itr_rlocs b [] = ok none
lisp_msg_put_itr_rlocs b (a ∷ rest) = put_addrs b (a ∷ rest) >>= (λ o.
    ok (elim o [ none ↦ none | some c ↦ some (set_itr_rloc_count (length (a ∷ rest)) c) ]))

unfoldable pub lisp_msg_put_eid_rec : Msg → Addr → Run Msg
unfolding msg_put lisp_msg_put_addr increment_record_count
lisp_msg_put_eid_rec b eid =
    msg_put b (0 ∷ lisp_addr_get_plen eid % 256 ∷ [])
    >>= (λ c. lisp_msg_put_addr c eid >>= (λ r. ok (increment_record_count r.1)))

abbrev pub then_put : (Msg → Run (Option Msg)) → Option Msg → Run (Option Msg)
then_put next none = ok none
then_put next (some b) = next b

-- A record is asked for NULL, which `lisp_msg_put_eid_rec` never answers.
unfoldable pub lisp_msg_mreq_create : Addr → List Addr → Addr → Run (Option Msg)
unfolding lisp_msg_create lisp_msg_put_addr lisp_msg_put_itr_rlocs lisp_msg_put_eid_rec
lisp_msg_mreq_create seid itr_rlocs deid = lisp_msg_create map_request >>= (λ b.
    lisp_msg_put_addr b seid >>= (λ r.
      if r.0
      then lisp_msg_put_itr_rlocs r.1 itr_rlocs
        >>= (λ o. then_put (λ c. lisp_msg_put_eid_rec c deid >>= (λ d. ok (some d))) o)
      else ok none))

-- the eight bytes of a number from place `i` on, the lowest first, as it is in memory
abbrev pub put_le : ℕ → ℕ → ℕ → Bytes → Bytes
put_le zero i n bs = bs
put_le (suc k) i n bs = put_le k (i + 1) (n / 256) (set bs i (n % 256))

-- Whether the record was written is not asked: if not, the bytes of its header and of the room
-- for the address are sent with a record count of 0.
unfoldable pub lisp_msg_neg_mrep_create : Addr → ℕ → ℕ → ℕ → ℕ → Run Msg
unfolding lisp_msg_create lisp_msg_put_neg_mapping
lisp_msg_neg_mrep_create eid ttl ac a nonce = lisp_msg_create map_reply >>= (λ b.
    lisp_msg_put_neg_mapping b eid ttl ac a
    >>= (λ r. ok (record (r.1) { bytes = put_le 8 4 nonce r.1.bytes })))
