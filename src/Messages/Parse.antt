-- ===== src/Messages/Parse.antt =====
-- lispd/liblisp/liblisp.c: reading messages. A buffer is the list of its bytes from its data on, and a
-- read behind the last one is a fault.
use lispmob.Prelude.{
  ℕ, zero, suc, ◌+◌, ◌/◌, ◌%◌, Bool, ◌&&◌, Option, none, some, List, [], ◌∷◌, ltb, ◌==◌,
  if◌then◌else◌, length, drop, Run, ok, ◌>>=◌,
}
use lispmob.Address.{Addr, no_addr, lisp_addr_is_no_addr}
use lispmob.Wire.{Bytes}
use lispmob.Wire.Parse.{byte, read_be, lisp_addr_parse}
use lispmob.Locator.{Locator, up, down}
use lispmob.Locator.Lists.{good, err_exist}
use lispmob.Prefixes.{lisp_addr_set_plen}
use lispmob.Mapping.{Mapping, mapping_add_locator}
use lispmob.Messages.{Kind, map_request, map_reply, map_register, map_notify, lisp_msg_type}

-- `lbuf_pull`. More than there is leaves the buffer as it is; no caller asks for the NULL.
abbrev pub msg_pull : ℕ → Bytes → Bytes
msg_pull n bs = if ltb (length bs) n then bs else drop n bs

-- An unknown address family leaves the address that was there.
abbrev pub left_in : Addr → ℕ × Addr → Addr
left_in old r = if (r.0 == 0) && lisp_addr_is_no_addr r.1 then old else r.1

-- It never refuses: BAD is 0, and only a negative length is asked for.
unfoldable pub lisp_msg_parse_addr : Addr → Bytes → Run (Addr × Bytes)
lisp_msg_parse_addr old bs = lisp_addr_parse bs >>= (λ r. ok (left_in old r, msg_pull r.0 bs))

-- The length of the address is taken off the buffer, and not the two bytes of the record's header.
unfoldable pub lisp_msg_parse_eid_rec : Bytes → Run (Addr × Bytes)
unfolding lisp_addr_set_plen
lisp_msg_parse_eid_rec bs =
    lisp_addr_parse (drop 2 bs)
    >>= (λ r. byte 1 bs >>= (λ plen. ok (lisp_addr_set_plen r.1 plen, msg_pull r.0 bs)))

-- The loop, with one address for all its rounds. The list has no comparison, so `glist_add` puts each
-- address at its front.
unfoldable pub parse_rlocs : ℕ → Addr → List Addr → Bytes → Run (List Addr × Bytes)
unfolding lisp_msg_parse_addr
parse_rlocs zero old rlocs bs = ok (rlocs, bs)
parse_rlocs (suc n) old rlocs bs =
    lisp_msg_parse_addr old bs >>= (λ r. parse_rlocs n r.0 (r.0 ∷ rlocs) r.1)

-- `hdr` is the message from its LISP header on
unfoldable pub lisp_msg_parse_itr_rlocs : Bytes → Bytes → Run (List Addr × Bytes)
unfolding parse_rlocs
lisp_msg_parse_itr_rlocs hdr bs = byte 2 hdr >>= (λ irc. parse_rlocs (suc (irc % 32)) no_addr [] bs)

abbrev pub locator_status : ℕ → ℕ
locator_status flags = if (flags % 2 == 0) && (flags / 4 % 2 == 1) then down else up

-- the locator and how many bytes it took; `none` is BAD
unfoldable pub locator_parse : Bytes → Run (Option (ℕ × Locator))
locator_parse bs = byte 5 bs >>= (λ flags. lisp_addr_parse (drop 6 bs) >>= (λ r.
    if r.0 == 0
    then ok none
    else (byte 0 bs >>= (λ p. byte 1 bs >>= (λ w. byte 2 bs >>= (λ mp. byte 3 bs >>= (λ mw. ok (
        some (
          6 + r.0,
          record {
            addr = r.1;
            state = locator_status flags;
            priority = p;
            weight = w;
            mpriority = mp;
            mweight = mw;
          },
        )))))))))

unfoldable pub lisp_msg_parse_loc : Bytes → Run (Option (Locator × Bytes))
unfolding locator_parse
lisp_msg_parse_loc bs =
    locator_parse bs >>= (λ o. ok (elim o [ none ↦ none | some r ↦ some (r.1, msg_pull r.0 bs) ]))

-- the list of the locators that were read, for the probed one its place in the message, and what is left
pub record Locs : Type 0 where
  pub locs : List Locator
  pub probed : Option ℕ
  pub rest : Bytes

-- Only the first probed locator counts.
abbrev pub first_probed : Bool → ℕ → Option ℕ → Option ℕ
first_probed flag at (some i) = some i
first_probed flag at none = if flag then some at else none

-- The loop, from place `at` on. The list has no comparison, so `glist_add` puts each locator at its
-- front.
unfoldable pub parse_locs : ℕ → ℕ → Option ℕ → List Locator → Bytes → Run (Option Locs)
unfolding lisp_msg_parse_loc
parse_locs zero at probed locs bs = ok (some (record { locs = locs; probed = probed; rest = bs }))
parse_locs (suc n) at probed locs bs = lisp_msg_parse_loc bs >>= (λ o. elim o [
  | none ↦ ok none
  | some r ↦ byte 5 bs >>= (λ flags.
      parse_locs n (at + 1) (first_probed (flags / 2 % 2 == 1) at probed) (r.0 ∷ locs) r.1)
])

-- with the EID prefix; `none` is BAD
unfoldable pub lisp_msg_parse_mapping_record_split : Bytes → Run (Option (Addr × Locs))
unfolding parse_locs lisp_addr_set_plen
lisp_msg_parse_mapping_record_split bs = lisp_addr_parse (msg_pull 10 bs) >>= (λ r.
    if r.0 == 0
    then ok none
    else (byte 5 bs >>= (λ plen. byte 4 bs >>= (λ count.
        parse_locs count 0 none [] (msg_pull r.0 (msg_pull 10 bs))
        >>= (λ o. ok (elim o [ none ↦ none | some t ↦ some (lisp_addr_set_plen r.1 plen, t) ]))))))

-- Each locator is a new object, numbered from `fresh` on. One that the mapping has is dropped, any
-- other refusal is BAD.
unfoldable pub add_locators : Mapping → ℕ → List Locator → Run (Option Mapping)
add_locators m fresh [] = ok (some m)
add_locators m fresh (l ∷ ls) = mapping_add_locator m (record { at = fresh; loct = l }) >>= (λ r.
    elim r.0 [
      | good ↦ add_locators r.1 (fresh + 1) ls
      | err_exist ↦ add_locators r.1 (fresh + 1) ls
      | _ ↦ ok none
    ])

-- into a mapping; the place of the probed locator and what is left are in the second part
unfoldable pub lisp_msg_parse_mapping_record : Mapping → ℕ → Bytes → Run (Option (Mapping × Locs))
unfolding lisp_msg_parse_mapping_record_split add_locators
lisp_msg_parse_mapping_record m fresh bs = read_be 4 0 bs >>= (λ ttl. byte 6 bs >>= (λ flags.
    lisp_msg_parse_mapping_record_split bs >>= (λ o. elim o [
      | none ↦ ok none
      | some (eid, t) ↦
          let n = record m {
            eid_prefix = eid;
            ttl = ttl;
            action = flags / 32;
            authoritative = flags / 16 % 2;
          } in
          add_locators n fresh t.locs >>= (λ q. ok (elim q [ none ↦ none | some c ↦ some (c, t) ]))
    ])))

-- All four headers have 12 bytes.
unfoldable pub msg_type_to_hdr_len : Option Kind → ℕ
msg_type_to_hdr_len (some map_request) = 12
msg_type_to_hdr_len (some map_reply) = 12
msg_type_to_hdr_len (some map_register) = 12
msg_type_to_hdr_len (some map_notify) = 12
msg_type_to_hdr_len _ = 0

unfoldable pub lisp_msg_pull_hdr : Bytes → Bytes
unfolding lisp_msg_type msg_type_to_hdr_len
lisp_msg_pull_hdr bs = msg_pull (msg_type_to_hdr_len (lisp_msg_type bs)) bs
