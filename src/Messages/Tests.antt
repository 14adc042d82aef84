-- ===== src/Messages/Tests.antt =====
-- Messages that lispd exchanges.
use lispmob.Prelude.{
  reverse, ℕ, ◌+◌, ◌≡◌, ◌↔◌, refl, arith, true, Option, none, some, [], ◌∷◌, ◌++◌, length,
  replicate, ok, Returns,
}
use lispmob.Address.{ip, ippref, v4, ip_addr_afi, lisp_addr_is_no_addr}
use lispmob.Wire.{
  Bytes, lisp_addr_size_to_write, ip_addr_get_size_to_write, ip_addr_get_size, ip_sock_afi_to_size,
}
use lispmob.Wire.Parse.{byte, ntohs_at, read_be}
use lispmob.Locator.Lists.{LoctPtr, LoctList, good}
use lispmob.Mapping.{Mapping}
use lispmob.Messages.{Msg, increment_record_count}
use lispmob.Messages.Records.{lisp_msg_put_mapping, lisp_msg_put_eid_rec}
use lispmob.Messages.Parse.{lisp_msg_parse_mapping_record_split, lisp_msg_parse_eid_rec}
use lispmob.Messages.Auth.{
  lisp_msg_fill_auth_data, lisp_msg_check_auth_field, lisp_msg_nat_mreg_create,
}
use lispmob.Messages.Written.{extend}
use lispmob.Messages.RoundTrip.{locators, record_size, lisp_msg_parse_mapping_record_split-put}
use lispmob.Messages.MapRequest.{lisp_msg_parse_eid_rec-put}
use lispmob.Messages.Signed.{signed, until_nul}
use lispmob.Messages.Register.{lisp_msg_check_auth_field-fill, lisp_msg_check_auth_field-until_nul}
use lispmob.Messages.Nat.{lisp_msg_nat_mreg_create-flags}

abbrev rloc : ℕ → ℕ → LoctPtr
rloc at state = record {
  at = at;
  loct = record {
    addr = ip (v4 (3232235776 + at));
    state = state;
    priority = 1;
    weight = 50;
    mpriority = 255;
    mweight = 0;
  };
}

abbrev rlocs : LoctList
rlocs = record {
  cmp_fct = none;
  has_del = true;
  size = 3;
  elems = rloc 1 1 ∷ rloc 2 0 ∷ rloc 3 1 ∷ [];
}

-- 10.0.0.0/8 at two locators that are up and one that is down
abbrev site_map : Mapping
site_map = record {
  eid_prefix = ippref (v4 167772160) 8;
  locator_count = 3;
  locators_lists = record { cmp_fct = none; has_del = true; size = 1; elems = rlocs ∷ [] };
  ttl = 1440;
  action = 0;
  authoritative = 1;
}

-- a Map-Reply without records
abbrev reply : Msg
reply = record { bytes = 32 ∷ replicate 11 0; room = 4084 }

lisp_msg_parse_mapping_record_split-put_example :
    Returns (lisp_msg_put_mapping reply site_map none) (λ r.
      (w : Bytes) × (r ≡ (true, increment_record_count (extend reply w)))
      × (length w ≡ record_size site_map)
      × (lisp_msg_parse_mapping_record_split (w ++ (7 ∷ []))
          ≡ ok (
              some (
                ippref (v4 167772160) 8,
                record { locs = reverse (locators site_map); probed = none; rest = 7 ∷ [] },
              )))
      × (read_be 4 0 (w ++ (7 ∷ [])) ≡ ok 1440))
unfolding lisp_addr_size_to_write ip_addr_get_size_to_write ip_addr_get_size ip_sock_afi_to_size
    ip_addr_afi lisp_addr_is_no_addr
lisp_msg_parse_mapping_record_split-put_example =
    lisp_msg_parse_mapping_record_split-put reply site_map (7 ∷ []) (omega arith, omega arith)
      ((λ e. cc), tt) ((refl, omega arith), ((refl, omega arith), tt)) (omega arith) (omega arith)
      (omega arith)

lisp_msg_parse_eid_rec-put_example :
    Returns (lisp_msg_put_eid_rec reply (ippref (v4 167772160) 8)) (λ c.
      (front : Bytes) × (x : ℕ) × (y : ℕ) × (c
        ≡ increment_record_count (extend reply (front ++ (x ∷ y ∷ []))))
      × (lisp_msg_parse_eid_rec ((front ++ (x ∷ y ∷ [])) ++ (0 ∷ 32 ∷ []))
          ≡ ok (ippref (v4 167772160) 8, x ∷ y ∷ 0 ∷ 32 ∷ [])))
unfolding lisp_addr_size_to_write ip_addr_get_size_to_write ip_addr_get_size ip_sock_afi_to_size
    ip_addr_afi lisp_addr_is_no_addr
lisp_msg_parse_eid_rec-put_example =
    lisp_msg_parse_eid_rec-put reply (ippref (v4 167772160) 8) (0 ∷ 32 ∷ [])
      (omega arith, omega arith) (omega arith)

-- an HMAC of the length of the packet, with a byte that is 0
abbrev sum_of : Bytes → Bytes → Option Bytes
sum_of key packet = some (length key ∷ 0 ∷ length packet ∷ replicate 17 5)

abbrev unsigned : Msg
unsigned = record { bytes = signed (48 ∷ replicate 11 0) (replicate 20 0) (9 ∷ []); room = 4059 }

lisp_msg_check_auth_field-fill_example :
    Returns (lisp_msg_fill_auth_data sum_of unsigned 1 (97 ∷ [])) (λ r.
      (r.0 ≡ good) × (lisp_msg_check_auth_field sum_of r.1.bytes (97 ∷ []) ≡ ok (good, r.1.bytes)))
lisp_msg_check_auth_field-fill_example =
    lisp_msg_check_auth_field-fill sum_of unsigned (97 ∷ []) (48 ∷ replicate 11 0) (replicate 20 0)
      (9 ∷ []) (1 ∷ 0 ∷ 37 ∷ replicate 17 5) refl refl refl refl refl

-- only the first two bytes are those of the HMAC
lisp_msg_check_auth_field-until_nul_example :
    Returns
      (lisp_msg_check_auth_field sum_of
        (signed (48 ∷ replicate 11 0) (1 ∷ replicate 19 0) (9 ∷ []))
        (97 ∷ []))
      (λ r. r.0 ≡ good ↔ until_nul (1 ∷ 0 ∷ 37 ∷ replicate 17 5) ≡ until_nul (1 ∷ replicate 19 0))
lisp_msg_check_auth_field-until_nul_example =
    lisp_msg_check_auth_field-until_nul sum_of (97 ∷ []) (48 ∷ replicate 11 0) (1 ∷ replicate 19 0)
      (9 ∷ []) (1 ∷ 0 ∷ 37 ∷ replicate 17 5) refl refl refl refl

lisp_msg_nat_mreg_create-flags_example :
    Returns
      (lisp_msg_nat_mreg_create sum_of site_map (97 ∷ []) (replicate 8 1) (replicate 16 2) 1)
      (λ o. (c : Msg) × (o ≡ some c) × (byte 0 c.bytes ≡ ok 48) × (ntohs_at 12 c.bytes ≡ ok 2817))
unfolding lisp_addr_size_to_write ip_addr_get_size_to_write ip_addr_get_size ip_sock_afi_to_size
    ip_addr_afi lisp_addr_is_no_addr
lisp_msg_nat_mreg_create-flags_example =
    lisp_msg_nat_mreg_create-flags sum_of site_map (97 ∷ []) (replicate 8 1) (replicate 16 2)
      (omega arith, omega arith) ((λ e. cc), tt) ((refl, omega arith), ((refl, omega arith), tt))
      (omega arith) (omega arith) (omega arith) (λ packet. (_, refl))
