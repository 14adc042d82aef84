-- ===== src/Messages/Register.antt =====
-- lispd/lib/hmac.c: which messages the check of the authentication accepts.
use lispmob.Prelude.{
  ◌≡◌, refl, sym, subst, ◌∙◌, ◌↔◌, Bool, true, false, Option, some, if◌then◌else◌, length, ok,
  Returns,
}
use lispmob.Wire.{Bytes}
use lispmob.Locator.Lists.{good, bad}
use lispmob.Messages.{Msg}
use lispmob.Messages.Auth.{
  strncmp_is_0, check_auth_field, complete_auth_fields, lisp_msg_fill_auth_data,
  lisp_msg_check_auth_field, auth_data_get_len_for_type,
}
use lispmob.Messages.Signed.{
  signed, no_data, until_nul, strncmp-until_nul, signed-overwrite, signed-size, signed-data,
  signed-ntohs,
}

accepted : (c : Bool) → (if c then good else bad) ≡ good → c ≡ true
accepted true e = refl
accepted false e = absurd (cc)

module _ (hmac : Bytes → Bytes → Option Bytes) where
  check-field :
      (key hdr d rest tag : Bytes)
      → length hdr ≡ 12
      → length d ≡ 20
      → length tag ≡ 20
      → hmac key (signed hdr no_data rest) ≡ some tag
      → check_auth_field hmac 1 key (signed hdr d rest) 16
        ≡ ok (if strncmp_is_0 20 tag d then good else bad, signed hdr tag rest)
  unfolding check_auth_field
  check-field key hdr d rest tag h hd ht e =
      rw
        (
          signed-size hdr d rest h hd,
          signed-data hdr d rest h hd,
          signed-overwrite hdr d rest h hd no_data refl,
          e,
          signed-overwrite hdr no_data rest h refl tag ht,
        )
        refl

  check-signed :
      (key hdr d rest tag : Bytes)
      → length hdr ≡ 12
      → length d ≡ 20
      → length tag ≡ 20
      → hmac key (signed hdr no_data rest) ≡ some tag
      → lisp_msg_check_auth_field hmac (signed hdr d rest) key
        ≡ ok (if strncmp_is_0 20 tag d then good else bad, signed hdr tag rest)
  unfolding lisp_msg_check_auth_field auth_data_get_len_for_type
  check-signed key hdr d rest tag h hd ht e =
      let (keyid, len) = signed-ntohs hdr d rest h hd in
      rw (keyid, len) (check-field key hdr d rest tag h hd ht e)

  fill-signed :
      (b : Msg) (key hdr d rest tag : Bytes)
      → b.bytes ≡ signed hdr d rest
      → length hdr ≡ 12
      → length d ≡ 20
      → length tag ≡ 20
      → hmac key (signed hdr no_data rest) ≡ some tag
      → lisp_msg_fill_auth_data hmac b 1 key ≡ ok (good, record b { bytes = signed hdr tag rest })
  unfolding lisp_msg_fill_auth_data complete_auth_fields
  fill-signed b key hdr d rest tag at h hd ht e =
      rw
        (
          at,
          signed-size hdr d rest h hd,
          signed-overwrite hdr d rest h hd no_data refl,
          e,
          signed-overwrite hdr no_data rest h refl tag ht,
        )
        refl

  -- A message of at least 36 bytes that has a record for HMAC-SHA1 is filled in by
  -- lisp_msg_fill_auth_data, when the HMAC of the message with 20 zeros in the record has 20 bytes, and
  -- lisp_msg_check_auth_field with the same key accepts it and leaves it as it is.
  pub lisp_msg_check_auth_field-fill :
      (b : Msg) (key hdr d rest tag : Bytes)
      → b.bytes ≡ signed hdr d rest
      → length hdr ≡ 12
      → length d ≡ 20
      → length tag ≡ 20
      → hmac key (signed hdr no_data rest) ≡ some tag
      → Returns (lisp_msg_fill_auth_data hmac b 1 key) (λ r.
        (r.0 ≡ good) × (lisp_msg_check_auth_field hmac r.1.bytes key ≡ ok (good, r.1.bytes)))
  lisp_msg_check_auth_field-fill b key hdr d rest tag at h hd ht e =
      let same = (strncmp-until_nul tag tag refl).1 refl in
      let same20 : strncmp_is_0 20 tag tag ≡ true =
        subst (λ k. strncmp_is_0 k tag tag ≡ true) ht same in
      (
        _,
        fill-signed b key hdr d rest tag at h hd ht e,
        (refl, rw (check-signed key hdr tag rest tag h ht ht e, same20) refl),
      )

  -- A message with a record for HMAC-SHA1 whose HMAC, with 20 zeros in the record, has 20 bytes is
  -- accepted by lisp_msg_check_auth_field exactly if the 20 bytes in the record agree with the HMAC up
  -- to its first byte that is 0, that byte included: what follows it is not compared.
  pub lisp_msg_check_auth_field-until_nul :
      (key hdr d rest tag : Bytes)
      → length hdr ≡ 12
      → length d ≡ 20
      → length tag ≡ 20
      → hmac key (signed hdr no_data rest) ≡ some tag
      → Returns
          (lisp_msg_check_auth_field hmac (signed hdr d rest) key)
          (λ r. r.0 ≡ good ↔ until_nul tag ≡ until_nul d)
  lisp_msg_check_auth_field-until_nul key hdr d rest tag h hd ht e =
      let cmp = strncmp-until_nul tag d (ht ∙ sym hd) in
      let cmp20 : strncmp_is_0 20 tag d ≡ true ↔ until_nul tag ≡ until_nul d =
        subst (λ k. strncmp_is_0 k tag d ≡ true ↔ until_nul tag ≡ until_nul d) ht cmp in
      (
        _,
        check-signed key hdr d rest tag h hd ht e,
        (λ r. cmp20.0 (accepted _ r), λ r. rw (cmp20.1 r) refl),
      )
