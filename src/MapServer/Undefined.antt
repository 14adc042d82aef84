-- ===== src/MapServer/Undefined.antt =====
-- lispd/control/lisp_ms.c: messages that are answered in ways the source does not mean.
use mathlib.Core.List.{append_assoc}
use lispmob.Prelude.{
  ℕ, suc, ◌+◌, ◌≡◌, refl, ap, ◌∙◌, arith, true, false, Option, none, some, List, [], ◌∷◌, ◌++◌,
  length, get_elem?, ok, fault, null_pointer, invalid_free,
}
use lispmob.Address.{Addr, Lcaf, lcaf, no_addr}
use lispmob.Prefixes.{pref_get_network_address}
use lispmob.Wire.{Bytes, be}
use lispmob.Wire.Parse.{byte}
use lispmob.Mapping.{Mapping, mapping_new_init}
use lispmob.MappingDb.{Patricia}
use lispmob.MappingDb.Entries.{mdb_lookup_entry}
use lispmob.Messages.{Msg, lisp_msg_create, lisp_msg_create_buf, map_notify_hdr_init, msg_put}
use lispmob.Messages.Parse.{
  Locs, msg_pull, lisp_msg_pull_hdr, lisp_msg_parse_eid_rec, lisp_msg_parse_mapping_record,
}
use lispmob.Messages.Auth.{
  sha1_auth_data_len, strncmp_is_0, lisp_msg_put_empty_auth_record, auth_data_get_len_for_type,
}
use lispmob.MapServer.{
  Ms, Site, Sent, null, freed, forward_mreq, answer, answer_eid, answer_records, nonce_of,
}
use lispmob.MapServer.Registration.{
  Loop, Flags, flags_of, pass, new_notify, check_key, register_record, register_records, start_loop,
  ms_recv_map_register,
}

answer-forward :
    {pt : Patricia} (ms : Ms pt) (nonce : ℕ) (eid : Addr) (site : Site) (m : Mapping)
    (out : List Sent)
    → site.proxy_reply ≡ false
    → forward_mreq ms m ≡ ok out
    → answer ms nonce eid freed (some site) (some m) ≡ fault invalid_free
unfolding answer
answer-forward ms nonce eid site m out off e = rw (off, e) refl

answer_eid-forward :
    {pt : Patricia} (ms : Ms pt) (nonce : ℕ) (eid : Addr) (i j : ℕ) (site : Site) (m : Mapping)
    (out : List Sent)
    → mdb_lookup_entry pt ms.lisp_sites_db eid ≡ ok (some i)
    → get_elem? ms.sites i ≡ some site
    → mdb_lookup_entry pt ms.reg_sites_db eid ≡ ok (some j)
    → get_elem? ms.regs j ≡ some m
    → site.proxy_reply ≡ false
    → forward_mreq ms m ≡ ok out
    → answer_eid ms nonce eid freed ≡ fault invalid_free
unfolding answer_eid
answer_eid-forward ms nonce eid i j site m out l1 g1 l2 g2 off f =
    rw (l1, l2, g1, g2, answer-forward ms nonce eid site m out off f) refl

-- Of two records of a Map-Request, the first gets a Map-Reply of its own and the second is for an EID
-- that is registered and whose site wants no proxy replies: then the loop of ms_recv_map_request
-- over them, whatever follows, frees the Map-Reply of the first a second time.
pub answer_records-invalid_free :
    {pt : Patricia} (ms : Ms pt) (nonce n : ℕ) (bs bs2 bs3 : Bytes) (eid eid2 : Addr)
    (out out2 : List Sent) (i j : ℕ) (site : Site) (m : Mapping)
    → lisp_msg_parse_eid_rec bs ≡ ok (eid, bs2)
    → answer_eid ms nonce eid null ≡ ok (out, freed)
    → lisp_msg_parse_eid_rec bs2 ≡ ok (eid2, bs3)
    → mdb_lookup_entry pt ms.lisp_sites_db eid2 ≡ ok (some i)
    → get_elem? ms.sites i ≡ some site
    → mdb_lookup_entry pt ms.reg_sites_db eid2 ≡ ok (some j)
    → get_elem? ms.regs j ≡ some m
    → site.proxy_reply ≡ false
    → forward_mreq ms m ≡ ok out2
    → answer_records ms nonce (2 + n) null bs ≡ fault invalid_free
unfolding answer_records
answer_records-invalid_free ms nonce n bs bs2 bs3 eid eid2 out out2 i j site m p1 a1 p2 l1 g1 l2 g2
      off f =
    let two : 2 + n ≡ suc (suc n) = omega arith in
    let second : answer_eid ms nonce eid2 freed ≡ fault invalid_free =
      answer_eid-forward ms nonce eid2 i j site m out2 l1 g1 l2 g2 off f in
    rw (two, p1, a1, p2, second) refl

no_network : (l : Lcaf) → pref_get_network_address (lcaf l) ≡ ok none
unfolding pref_get_network_address
no_network l = refl

register_record-lcaf :
    (hmac : Bytes → Bytes → Option Bytes) {pt : Patricia} (buf : Bytes) (flags : Flags)
    (s : Loop pt) (l : Lcaf) (m : Mapping) (t : Locs)
    → lisp_msg_parse_mapping_record (mapping_new_init no_addr) s.fresh s.rest ≡ ok (some (m, t))
    → m.eid_prefix ≡ lcaf l
    → register_record hmac buf flags s ≡ fault null_pointer
unfolding register_record
register_record-lcaf hmac buf flags s l m t parsed eid =
    rw (parsed, ap pref_get_network_address eid ∙ no_network l) refl

register_records-lcaf :
    (hmac : Bytes → Bytes → Option Bytes) {pt : Patricia} (buf : Bytes) (flags : Flags) (n : ℕ)
    (s : Loop pt) (l : Lcaf) (m : Mapping) (t : Locs)
    → lisp_msg_parse_mapping_record (mapping_new_init no_addr) s.fresh s.rest ≡ ok (some (m, t))
    → m.eid_prefix ≡ lcaf l
    → register_records hmac buf flags (suc n) s ≡ fault null_pointer
unfolding register_records
register_records-lcaf hmac buf flags n s l m t parsed eid =
    rw (register_record-lcaf hmac buf flags s l m t parsed eid) refl

new_notify-ok : (mntf : Msg) × (new_notify ≡ ok mntf)
unfolding new_notify lisp_msg_create lisp_msg_create_buf map_notify_hdr_init msg_put
    lisp_msg_put_empty_auth_record be auth_data_get_len_for_type
new_notify-ok = (_, refl)

ms_recv_map_register-records :
    (hmac : Bytes → Bytes → Option Bytes) {pt : Patricia} (ms : Ms pt) (fresh : ℕ) (buf : Bytes)
    (a b n nonce : ℕ) (mntf : Msg)
    → byte 0 buf ≡ ok a
    → byte 2 buf ≡ ok b
    → byte 3 buf ≡ ok n
    → new_notify ≡ ok mntf
    → nonce_of buf 4 8 ≡ ok nonce
    → register_records hmac buf (flags_of a b) n (
        start_loop hmac ms fresh
          (msg_pull sha1_auth_data_len (msg_pull 4 (lisp_msg_pull_hdr buf)))
          mntf)
      ≡ fault null_pointer
    → ms_recv_map_register hmac ms fresh buf ≡ fault null_pointer
unfolding ms_recv_map_register
ms_recv_map_register-records hmac ms fresh buf a b n nonce mntf ea eb en made ek stopped =
    rw (ea, eb, en, made, ek, stopped) refl

-- A Map-Register with records, the first of which is read and is for an EID that is an LCAF, makes
-- ms_recv_map_register copy the address at NULL, before any authentication is checked.
pub ms_recv_map_register-null_pointer :
    (hmac : Bytes → Bytes → Option Bytes) {pt : Patricia} (ms : Ms pt) (fresh : ℕ) (buf : Bytes)
    (a b n nonce : ℕ) (l : Lcaf) (m : Mapping) (t : Locs)
    → byte 0 buf ≡ ok a
    → byte 2 buf ≡ ok b
    → byte 3 buf ≡ ok (suc n)
    → nonce_of buf 4 8 ≡ ok nonce
    → lisp_msg_parse_mapping_record
        (mapping_new_init no_addr)
        fresh
        (msg_pull sha1_auth_data_len (msg_pull 4 (lisp_msg_pull_hdr buf)))
      ≡ ok (some (m, t))
    → m.eid_prefix ≡ lcaf l
    → ms_recv_map_register hmac ms fresh buf ≡ fault null_pointer
ms_recv_map_register-null_pointer hmac {pt} ms fresh buf a b n nonce l m t ea eb en ek parsed eid =
    let start =
      start_loop hmac ms fresh (msg_pull sha1_auth_data_len (msg_pull 4 (lisp_msg_pull_hdr buf))) in
    let (mntf, made) = new_notify-ok in
    let stopped = register_records-lcaf hmac buf (flags_of a b) n (start mntf) l m t parsed eid in
    ms_recv_map_register-records hmac ms fresh buf a b (suc n) nonce mntf ea eb en made ek stopped

strncmp-prefix : (key rest : Bytes) → strncmp_is_0 (length key) key (key ++ rest) ≡ true
unfolding strncmp_is_0
strncmp-prefix [] rest = refl
strncmp-prefix (x ∷ key) rest = let ih = strncmp-prefix key rest in ground arith

-- When a record of a Map-Register was accepted with a key, a later record is accepted without another
-- check for every site whose key begins with that one.
pub check_key-prefix :
    (hmac : Bytes → Bytes → Option Bytes) (buf key suffix : Bytes) (site : Site)
    → site.key ≡ key ++ suffix
    → check_key hmac buf (some key) site ≡ ok pass
unfolding check_key
check_key-prefix hmac buf key suffix site e =
    rw (e, append_assoc key suffix (0 ∷ []), strncmp-prefix key (suffix ++ (0 ∷ []))) refl
