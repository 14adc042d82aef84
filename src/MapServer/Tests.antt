-- ===== src/MapServer/Tests.antt =====
-- A Map-Server with one site, 10.0.0.0/8, that is registered.
use lispmob.Prelude.{
  ◌≡◌, ◌⊎◌, refl, true, false, Option, none, some, List, [], ◌∷◌, ◌++◌, replicate, fault,
  null_pointer, invalid_free,
}
use lispmob.Address.{
  ippref, ip, v4, ip_addr_afi, lisp_addr_lafi, lisp_addr_ip_afi, lisp_addr_get_ip_addr,
}
use lispmob.Wire.{
  Bytes, be, lisp_addr_write, lisp_addr_size_to_write, ip_addr_get_size_to_write, ip_addr_get_size,
  ip_sock_afi_to_size,
}
use lispmob.Locator.Lists.{LoctPtr, LoctList, bad}
use lispmob.Mapping.{Mapping}
use lispmob.MappingDb.{Mdb, longest}
use lispmob.MappingDb.Listed.{changes, search}
use lispmob.MappingDb.Entries.{mdb_lookup_entry}
use lispmob.Messages.{
  lisp_msg_create, lisp_msg_create_buf, map_reply_hdr_init, msg_put, lisp_msg_put_addr,
  increment_record_count, lisp_msg_type,
}
use lispmob.Messages.Records.{
  mapping_record_hdr, lisp_msg_put_neg_mapping, lisp_msg_neg_mrep_create,
}
use lispmob.Messages.Parse.{
  lisp_msg_parse_eid_rec, lisp_msg_parse_mapping_record, lisp_msg_pull_hdr,
}
use lispmob.Wire.Parse.{lisp_addr_parse, read_be}
use lispmob.Prefixes.{ip_addr_afi_to_default_mask, lisp_addr_get_plen, band}
use lispmob.MapServer.{Ms, Site, Sent, null, answer_eid, answer, answer_records, forward_mreq}
use lispmob.MapServer.Registration.{new_notify, ms_recv_map_register}
use lispmob.MapServer.Authentic.{IsAuthentic, ms_recv_map_register-IsAuthentic}
use lispmob.MapServer.Undefined.{answer_records-invalid_free, ms_recv_map_register-null_pointer}

abbrev rloc : LoctPtr
rloc = record {
  at = 0;
  loct = record {
    addr = ip (v4 3232235777);
    state = 1;
    priority = 1;
    weight = 100;
    mpriority = 255;
    mweight = 0;
  };
}

abbrev rlocs : LoctList
rlocs = record { cmp_fct = none; has_del = true; size = 1; elems = rloc ∷ [] }

abbrev site_map : Mapping
site_map = record {
  eid_prefix = ippref (v4 167772160) 8;
  locator_count = 1;
  locators_lists = record { cmp_fct = none; has_del = true; size = 1; elems = rlocs ∷ [] };
  ttl = 1440;
  action = 0;
  authoritative = 1;
}

abbrev site : Site
site = record {
  eid_prefix = ippref (v4 167772160) 8;
  key = 97 ∷ 98 ∷ [];
  proxy_reply = false;
  accept_more_specifics = true;
  merge = false;
}

-- 10.0.0.0/8 with the entry 0
abbrev db : Mdb changes
unfolding changes
db = record {
  af4_ip = (32, record { addr = v4 167772160; plen = 8; now = some 0 } ∷ []);
  af6_ip = (128, []);
  af4_mc = (32, []);
  af6_mc = (128, []);
  n_entries = 1;
}

abbrev ms : Ms changes
ms = record {
  lisp_sites_db = db;
  reg_sites_db = db;
  sites = site ∷ [];
  regs = site_map ∷ [];
  timers = 0 ∷ [];
  ipv4_support = true;
  ipv6_support = false;
}

-- an HMAC that accepts nothing but 20 bytes of 3
abbrev threes : Bytes → Bytes → Option Bytes
threes key packet = some (replicate 20 3)

-- 20.0.0.1, which nobody has, and behind it 10.0.0.2
abbrev two_eids : Bytes
two_eids = 0 ∷ 32 ∷ 0 ∷ 1 ∷ 20 ∷ 0 ∷ 0 ∷ 1 ∷ 0 ∷ 1 ∷ 10 ∷ 0 ∷ 0 ∷ 2 ∷ []

answer_records-invalid_free_example : answer_records ms 7 2 null two_eids ≡ fault invalid_free
unfolding db search lisp_msg_parse_eid_rec lisp_addr_parse answer_eid ip_addr_afi_to_default_mask
    ip_addr_afi answer lisp_msg_neg_mrep_create mdb_lookup_entry lisp_msg_create lisp_msg_create_buf
    map_reply_hdr_init lisp_msg_put_neg_mapping mapping_record_hdr be lisp_addr_write
    lisp_addr_size_to_write ip_addr_get_size_to_write ip_addr_get_size ip_sock_afi_to_size
    lisp_addr_get_plen increment_record_count lisp_msg_type forward_mreq lisp_addr_lafi
    lisp_addr_ip_afi lisp_addr_get_ip_addr msg_put lisp_msg_put_addr longest
answer_records-invalid_free_example =
    answer_records-invalid_free ms 7 0 two_eids (0 ∷ 1 ∷ 0 ∷ 1 ∷ 10 ∷ 0 ∷ 0 ∷ 2 ∷ []) (0 ∷ 2 ∷ [])
      (ippref (v4 335544321) 32) (ippref (v4 167772162) 1) _ _ 0 0 site site_map refl refl refl refl
      refl refl refl refl refl

-- a Map-Register of one record, for an EID that is a multicast LCAF without group
abbrev lcaf_record : Bytes
lcaf_record =
    48 ∷ 0 ∷ 1 ∷ 1 ∷ replicate 8 0
    ++ (0 ∷ 1 ∷ 0 ∷ 20 ∷ replicate 20 9)
    ++ (0 ∷ 0 ∷ 5 ∷ 160 ∷ 0 ∷ 32 ∷ 16 ∷ 0 ∷ 0 ∷ 0 ∷ [])
    ++ (64 ∷ 3 ∷ 0 ∷ 0 ∷ 9 ∷ 0 ∷ 0 ∷ 12 ∷ 0 ∷ 0 ∷ 0 ∷ 0 ∷ 0 ∷ 0 ∷ 0 ∷ 0 ∷ 0 ∷ 0 ∷ 0 ∷ 0 ∷ [])

ms_recv_map_register-null_pointer_example :
    ms_recv_map_register threes ms 1 lcaf_record ≡ fault null_pointer
unfolding lisp_msg_parse_mapping_record read_be lisp_msg_pull_hdr lisp_addr_parse
ms_recv_map_register-null_pointer_example =
    ms_recv_map_register-null_pointer threes ms 1 lcaf_record 48 1 0 0 _ _ _ refl refl refl refl
      refl refl

-- a Map-Register of one record, 10.0.0.0/8 without locators, whose HMAC is wrong
abbrev forged : Bytes
forged =
    48 ∷ 0 ∷ 1 ∷ 1 ∷ replicate 8 0
    ++ (0 ∷ 1 ∷ 0 ∷ 20 ∷ replicate 20 9)
    ++ (0 ∷ 0 ∷ 5 ∷ 160 ∷ 0 ∷ 8 ∷ 16 ∷ 0 ∷ 0 ∷ 0 ∷ 0 ∷ 1 ∷ 10 ∷ 0 ∷ 0 ∷ 0 ∷ [])

abbrev nothing : List Sent
nothing = []

ms_recv_map_register-IsAuthentic_example :
    ((ms ≡ ms) × (nothing ≡ [])) ⊎ IsAuthentic threes ms forged
unfolding ms_recv_map_register new_notify read_be lisp_addr_parse ip_addr_afi_to_default_mask
    ip_addr_afi changes longest band
ms_recv_map_register-IsAuthentic_example =
    ms_recv_map_register-IsAuthentic threes ms 1 forged (bad, ms, nothing) refl
