-- ===== src/Messages/Auth.antt =====
-- lispd/lib/hmac.c and the authentication of lispd/liblisp/liblisp.c: the record that authenticates a
-- Map-Register or Map-Notify. The HMAC is that of lispd/elibs/mbedtls, a parameter: `hmac key packet`
-- is `none` for an error. A key is the bytes of a string, without its NUL.
use lispmob.Prelude.{
  ℕ, zero, suc, ◌+◌, ◌-◌, ◌*◌, ◌/◌, ◌%◌, Bool, true, false, Option, none, some, ◌∷◌, ◌++◌, leb,
  ◌==◌, if◌then◌else◌, length, take, drop, replicate, Run, ok, fault, out_of_bounds, ◌>>=◌,
}
use lispmob.Wire.{Bytes, be}
use lispmob.Wire.Parse.{ntohs_at}
use lispmob.Locator.Lists.{Status, good, bad}
use lispmob.Mapping.{Mapping}
use lispmob.Messages.{Msg, map_register, put_at, byte_of, msg_put, lisp_msg_create}
use lispmob.Messages.Records.{lisp_msg_put_mapping}

abbrev pub hmac_sha_1_96 : ℕ
hmac_sha_1_96 = 1

abbrev pub sha1_auth_data_len : ℕ
sha1_auth_data_len = 20

-- the same for every key
unfoldable pub auth_data_get_len_for_type : ℕ → ℕ
auth_data_get_len_for_type keyid = sha1_auth_data_len

-- bytes from place `at` on replaced
abbrev pub overwrite : Bytes → ℕ → Bytes → Bytes
overwrite bs at new = take at bs ++ (new ++ drop (at + length new) bs)

abbrev pub zeroed : Bytes → ℕ → Bytes
zeroed packet pos = overwrite packet pos (replicate sha1_auth_data_len 0)

-- `strncmp` of at most `n` bytes, whether it is 0: it ends at a NUL that both have
unfoldable pub strncmp_is_0 : ℕ → Bytes → Bytes → Bool
strncmp_is_0 zero xs ys = true
strncmp_is_0 (suc n) (x ∷ xs) (y ∷ ys) =
    let rest = strncmp_is_0 n xs ys in if x == y then (if x == 0 then true else rest) else false
strncmp_is_0 (suc n) _ _ = false

-- the 20 bytes that are read or written lie in the packet
abbrev pub in_packet {ℓ} : {A : Type ℓ} → Bytes → ℕ → Run A → Run A
in_packet packet pos next =
    if leb (pos + sha1_auth_data_len) (length packet) then next else fault out_of_bounds

-- `lisp_msg_auth_record` is behind the 12 bytes of the header, its data 4 bytes further on
abbrev pub auth_data_pos : ℕ
auth_data_pos = 16

unfoldable pub lisp_msg_put_empty_auth_record : Msg → ℕ → Run Msg
unfolding msg_put be auth_data_get_len_for_type
lisp_msg_put_empty_auth_record b keyid =
    let len = auth_data_get_len_for_type keyid in
    msg_put b (be 2 keyid ++ (be 2 len ++ replicate len 0))

unfoldable pub lisp_msg_mreg_create : Mapping → ℕ → Run (Option Msg)
unfolding lisp_msg_create lisp_msg_put_empty_auth_record lisp_msg_put_mapping
lisp_msg_mreg_create m keyid = lisp_msg_create map_register >>= (λ b.
    lisp_msg_put_empty_auth_record b keyid
    >>= (λ c. lisp_msg_put_mapping c m none >>= (λ r. ok (if r.0 then some r.1 else none))))

-- the bits of `proxy_reply`, `ibit` and `rbit` in the first byte of a header
abbrev pub with_nat_bits : ℕ → ℕ
with_nat_bits v = v + (1 - v % 2) + 2 * (1 - v / 2 % 2) + 8 * (1 - v / 8 % 2)

-- The three flags of a Map-Register behind a NAT are set through the pointer to the authentication
-- record, at `length b.bytes`.
unfoldable pub nat_mreg_begin : ℕ → Run Msg
unfolding lisp_msg_create lisp_msg_put_empty_auth_record
nat_mreg_begin keyid = lisp_msg_create map_register >>= (λ b.
    lisp_msg_put_empty_auth_record b keyid
    >>= (λ c. let hdr = length b.bytes in ok (put_at c hdr (with_nat_bits (byte_of c.bytes hdr)))))

module _ (hmac : Bytes → Bytes → Option Bytes) where
  abbrev pub completed : Bytes → ℕ → Option Bytes → Status × Bytes
  completed packet pos none = (bad, packet)
  completed packet pos (some tag) = (good, overwrite packet pos tag)

  -- The key id comes in 8 bits. The answer, and the packet as it is left.
  unfoldable pub complete_auth_fields : ℕ → Bytes → Bytes → ℕ → Run (Status × Bytes)
  complete_auth_fields key_id key packet pos =
      if key_id % 256 == hmac_sha_1_96
      then in_packet packet pos
          (ok (completed (zeroed packet pos) pos (hmac key (zeroed packet pos))))
      else ok (bad, packet)

  abbrev pub compared : Bytes → Bytes → ℕ → Option Bytes → Status × Bytes
  compared copy packet pos none = (bad, packet)
  compared copy packet pos (some tag) =
      (if strncmp_is_0 sha1_auth_data_len tag copy then good else bad, overwrite packet pos tag)

  unfoldable pub check_auth_field : ℕ → Bytes → Bytes → ℕ → Run (Status × Bytes)
  unfolding strncmp_is_0
  check_auth_field key_id key packet pos =
      if key_id % 256 == hmac_sha_1_96
      then in_packet packet pos (
          ok (
            compared (take sha1_auth_data_len (drop pos packet)) (zeroed packet pos) pos
              (hmac key (zeroed packet pos))))
      else ok (bad, packet)

  unfoldable pub lisp_msg_fill_auth_data : Msg → ℕ → Bytes → Run (Status × Msg)
  unfolding complete_auth_fields
  lisp_msg_fill_auth_data b keyid key =
      complete_auth_fields keyid key b.bytes auth_data_pos
      >>= (λ r. ok (r.0, record b { bytes = r.1 }))

  unfoldable pub lisp_msg_check_auth_field : Bytes → Bytes → Run (Status × Bytes)
  unfolding check_auth_field auth_data_get_len_for_type
  lisp_msg_check_auth_field bs key = ntohs_at 12 bs >>= (λ keyid. ntohs_at 14 bs >>= (λ len.
      if auth_data_get_len_for_type keyid == len
      then check_auth_field keyid key bs auth_data_pos
      else ok (bad, bs)))

  unfoldable pub nat_mreg_end : Msg → Mapping → Bytes → Bytes → Bytes → ℕ → Run (Option Msg)
  unfolding lisp_msg_put_mapping msg_put lisp_msg_fill_auth_data
  nat_mreg_end b m key site_id xtr_id keyid = lisp_msg_put_mapping b m none >>= (λ r.
      if r.0
      then (msg_put r.1 xtr_id >>= (λ e. msg_put e site_id >>= (λ f.
          lisp_msg_fill_auth_data f keyid key
          >>= (λ s. ok (elim s.0 [ good ↦ some s.1 | _ ↦ none ])))))
      else ok none)

  unfoldable pub lisp_msg_nat_mreg_create : Mapping → Bytes → Bytes → Bytes → ℕ → Run (Option Msg)
  unfolding nat_mreg_begin nat_mreg_end
  lisp_msg_nat_mreg_create m key site_id xtr_id keyid =
      nat_mreg_begin keyid >>= (λ b. nat_mreg_end b m key site_id xtr_id keyid)
