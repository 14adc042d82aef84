-- ===== src/Messages/Nat.antt =====
-- lispd/liblisp/liblisp.c: what a Map-Register behind a NAT carries.
use lispmob.Prelude.{
  ℕ, ◌+◌, ◌^◌, ◌<◌, ◌≤◌, ◌≡◌, refl, ap, subst, ◌∙◌, arith, true, Option, none, some, [], ◌∷◌, ◌++◌,
  leb, le→leb, length, length-append, take, drop, All, ok, Returns,
}
use lispmob.Wire.{Bytes, be}
use lispmob.Wire.Parse.{byte, ntohs_at}
use lispmob.Locator.Lists.{Status, good}
use lispmob.Mapping.{Mapping}
use lispmob.Messages.{
  Msg, msg_put, increment_record_count, lisp_msg_create, lisp_msg_create_buf, lisp_msg_type,
  map_register_hdr_init, max_ip_pkt_len,
}
use lispmob.Messages.Records.{lisp_msg_put_mapping}
use lispmob.Messages.Written.{extend, msg_put-room}
use lispmob.Messages.Locators.{IsSendable, NoneEmpty}
use lispmob.Messages.RoundTrip.{
  IsEid, locators, record_size, lisp_msg_parse_mapping_record_split-put,
}
use lispmob.Messages.Auth.{
  zeroed, complete_auth_fields, lisp_msg_fill_auth_data, auth_data_get_len_for_type,
  lisp_msg_put_empty_auth_record, nat_mreg_begin, nat_mreg_end, lisp_msg_nat_mreg_create,
}
use lispmob.Messages.Signed.{take-append, no_data}

-- the start of a Map-Register behind a NAT with `n` records
abbrev nat_hdr : ℕ → Bytes
nat_hdr n = 48 ∷ 0 ∷ 1 ∷ n ∷ 0 ∷ 0 ∷ 0 ∷ 0 ∷ 0 ∷ 0 ∷ 0 ∷ 0 ∷ 11 ∷ 1 ∷ 0 ∷ 20 ∷ []

abbrev nat_front : ℕ → Msg
nat_front n = record { bytes = nat_hdr n ++ no_data; room = 4060 }

nat_front-count :
    (w : Bytes) → increment_record_count (extend (nat_front 0) w) ≡ extend (nat_front 1) w
unfolding increment_record_count lisp_msg_type
nat_front-count w = refl

module _ (hmac : Bytes → Bytes → Option Bytes) where
  -- Filling in leaves what stands before the authentication data.
  fill-front :
      (b : Msg) (key front rest : Bytes)
      → b.bytes ≡ front ++ rest
      → length front ≡ 16
      → 20 ≤ length rest
      → ((packet : Bytes) → (tag : Bytes) × (hmac key packet ≡ some tag))
      → Returns
          (lisp_msg_fill_auth_data hmac b 1 key)
          (λ r. (r.0 ≡ good) × (y : Bytes) × (r.1.bytes ≡ front ++ y))
  unfolding lisp_msg_fill_auth_data complete_auth_fields
  fill-front b key front rest at h long works =
      let (tag, e) = works (zeroed b.bytes 16) in
      let size : leb 36 (length b.bytes) ≡ true =
        le→leb 36 _ (omega (arith, ap length at, length-append front rest)) in
      let kept : (bs : Bytes) → take 16 (front ++ bs) ≡ front =
        λ bs. subst (λ k. take k (front ++ bs) ≡ front) h (take-append front bs) in
      let x = no_data ++ drop 36 b.bytes in
      let first : take 16 b.bytes ≡ front = ap (take 16) at ∙ kept rest in
      let second : take 16 (zeroed b.bytes 16) ≡ front =
        ap (λ z. take 16 (z ++ x)) first ∙ kept x in
      let y = tag ++ drop (16 + length tag) (zeroed b.bytes 16) in
      let r : Status × Msg = (good, record b { bytes = take 16 (zeroed b.bytes 16) ++ y }) in
      (r, rw (size, e) refl, (refl, y, ap (λ z. z ++ y) second))

  nat_mreg-begin :
      (m : Mapping) (key site_id xtr_id : Bytes)
      → lisp_msg_nat_mreg_create hmac m key site_id xtr_id 1
        ≡ nat_mreg_end hmac (nat_front 0) m key site_id xtr_id 1
  unfolding lisp_msg_nat_mreg_create nat_mreg_begin lisp_msg_create lisp_msg_create_buf
      map_register_hdr_init lisp_msg_put_empty_auth_record msg_put be auth_data_get_len_for_type
  nat_mreg-begin m key site_id xtr_id = refl

  nat_mreg-end :
      (b c : Msg) (m : Mapping) (key site_id xtr_id : Bytes) (r : Status × Msg)
      → lisp_msg_put_mapping b m none ≡ ok (true, c)
      → length xtr_id + length site_id ≤ c.room
      → lisp_msg_fill_auth_data hmac (extend (extend c xtr_id) site_id) 1 key ≡ ok r
      → r.0 ≡ good
      → nat_mreg_end hmac b m key site_id xtr_id 1 ≡ ok (some r.1)
  unfolding nat_mreg_end
  nat_mreg-end b c m key site_id xtr_id r put room filled done =
      rw
        (
          put,
          msg_put-room c xtr_id (omega arith),
          msg_put-room (extend c xtr_id) site_id (omega arith),
          filled,
          done,
        )
        refl

  -- A mapping as in the round trip of its record, with room for the message, is sent behind a NAT:
  -- whenever the HMAC can be computed, the Map-Register of lisp_msg_nat_mreg_create has a first byte
  -- that says its type and none of the flags P, I and R, and a key id of 2817 where the flags are.
  pub lisp_msg_nat_mreg_create-flags :
      (m : Mapping) (key site_id xtr_id : Bytes)
      → IsEid m.eid_prefix
      → NoneEmpty m.locators_lists.elems
      → All IsSendable (locators m)
      → length (locators m) < 256
      → m.ttl < 256 ^ 4
      → 36 + record_size m + length xtr_id + length site_id ≤ max_ip_pkt_len
      → ((packet : Bytes) → (tag : Bytes) × (hmac key packet ≡ some tag))
      → Returns (lisp_msg_nat_mreg_create hmac m key site_id xtr_id 1) (λ o.
        (c : Msg) × (o ≡ some c) × (byte 0 c.bytes ≡ ok 48) × (ntohs_at 12 c.bytes ≡ ok 2817))
  lisp_msg_nat_mreg_create-flags m key site_id xtr_id is_eid full sendable few small fits works =
      let (p, put, (w, e, size, read, ttl)) =
        lisp_msg_parse_mapping_record_split-put (nat_front 0) m [] is_eid full sendable few small
          (omega arith) in
      let b = extend (nat_front 1) w in
      let c = extend (extend b xtr_id) site_id in
      let rest = ((no_data ++ w) ++ xtr_id) ++ site_id in
      let (r, filled, (done, behind, bytes)) =
        fill-front c key (nat_hdr 1) rest refl refl
          (omega (
            arith,
            length-append ((no_data ++ w) ++ xtr_id) site_id,
            length-append (no_data ++ w) xtr_id,
            length-append no_data w,
          ))
          works in
      (
        _,
        nat_mreg-begin m key site_id xtr_id
            ∙ nat_mreg-end (nat_front 0) b m key site_id xtr_id r
                (put ∙ ap ok (e ∙ ap (λ x. (true, x)) (nat_front-count w))) (omega (arith, size))
                filled done,
        (r.1, refl, ap (byte 0) bytes, ap (ntohs_at 12) bytes),
      )
