-- ===== src/MapServer/Registration.antt =====
-- lispd/control/lisp_ms.c `ms_recv_map_register`: the records of a Map-Register, and the Map-Notify that
-- answers it. New objects are numbered from `fresh` on.
use lispmob.Prelude.{
  not, filter, ℕ, zero, suc, ◌+◌, ◌/◌, ◌%◌, Bool, true, false, Option, none, some, List, [], ◌∷◌,
  ◌++◌, ◌==◌, if◌then◌else◌, get_elem?, set, length, Run, ok, fault, null_pointer, ◌>>=◌,
}
use lispmob.Address.{Addr, no_addr, is_equal, lisp_addr_cmp}
use lispmob.Prefixes.{pref_get_network_prefix, pref_is_prefix_b_part_of_a}
use lispmob.Wire.{Bytes}
use lispmob.Wire.Parse.{byte}
use lispmob.Locator.Lists.{Status, good, bad}
use lispmob.Mapping.{Mapping, mapping_new_init}
use lispmob.Mapping.Compare.{mapping_cmp, mapping_update_locators}
use lispmob.MappingDb.{Patricia}
use lispmob.MappingDb.Entries.{mdb_add_entry, mdb_lookup_entry, mdb_lookup_entry_exact}
use lispmob.Messages.{Msg, map_notify, lisp_msg_create}
use lispmob.Messages.Records.{lisp_msg_put_mapping, put_le}
use lispmob.Messages.Parse.{msg_pull, lisp_msg_parse_mapping_record, lisp_msg_pull_hdr}
use lispmob.Messages.Auth.{
  hmac_sha_1_96, sha1_auth_data_len, strncmp_is_0, lisp_msg_fill_auth_data,
  lisp_msg_check_auth_field, lisp_msg_put_empty_auth_record,
}
use lispmob.MapServer.{Ms, Site, Sent, notify, at_pointer, nonce_of}

-- What the loop keeps: the device, the key of the first record that was accepted, the Map-Notify with
-- whether it has a record, the bytes that are left and the next number.
pub record Loop (pt : Patricia) : Type 0 where
  pub ms : Ms pt
  pub key : Option Bytes
  pub mntf : Msg
  pub valid_records : Bool
  pub rest : Bytes
  pub fresh : ℕ

-- the first byte and the third of the header
pub record Flags : Type 0 where
  pub proxy_reply : Bool
  pub want_map_notify : Bool

abbrev pub flags_of : ℕ → ℕ → Flags
flags_of a b = record { proxy_reply = a / 8 % 2 == 1; want_map_notify = b % 2 == 1 }

-- the mapping of a record, with the network prefix of its EID, which for other EIDs is NULL
abbrev pub with_prefix : Mapping → Option Addr → Run Mapping
with_prefix m none = fault null_pointer
with_prefix m (some eid) = ok (record m { eid_prefix = eid })

-- whether the prefix of a site lets it register the EID
unfoldable pub is_accepted : Site → Addr → Run Bool
unfolding pref_is_prefix_b_part_of_a
is_accepted site eid =
    if site.accept_more_specifics
    then pref_is_prefix_b_part_of_a site.eid_prefix eid >>= (λ r. ok r.0)
    else ok (is_equal (lisp_addr_cmp site.eid_prefix eid))

-- `BAD` ends the loop
pub data Verdict : Type 0 where
  pass skip refuse : Verdict

-- the Map-Notify before its records
unfoldable pub new_notify : Run Msg
unfolding lisp_msg_create lisp_msg_put_empty_auth_record
new_notify = lisp_msg_create map_notify >>= (λ c. lisp_msg_put_empty_auth_record c hmac_sha_1_96)

module _ {pt : Patricia} where
  abbrev pub set_proxy_reply : Bool → ℕ → Site → Ms pt → Ms pt
  set_proxy_reply flag i site ms = record ms {
    sites = set ms.sites i (record site { proxy_reply = flag });
  }

  -- The list of the timers of a registration is NULL if none was ever started for it, as for one of the
  -- configuration, and its size is read all the same.
  unfoldable pub lsite_entry_update_expiration_timer : ℕ → Ms pt → Run (Ms pt)
  lsite_entry_update_expiration_timer j ms =
      if 1 == length (filter (λ t. t == j) ms.timers)
      then ok (record ms { timers = j ∷ filter (λ t. not (t == j)) ms.timers })
      else fault null_pointer

  -- A registration that is there: its locators are renewed if it changed, and not merged; its timer is
  -- started again.
  unfoldable pub renew : Flags → ℕ → Site → ℕ → Mapping → Mapping → ℕ → Ms pt → Run (Ms pt)
  unfolding mapping_cmp mapping_update_locators lsite_entry_update_expiration_timer
  renew flags i site j old m fresh ms =
      (if mapping_cmp old m == 0
        then ok ms
        else if site.merge
        then ok (set_proxy_reply flags.proxy_reply i site ms)
        else (mapping_update_locators old m.locators_lists fresh >>= (λ new.
            ok
              (set_proxy_reply flags.proxy_reply i site (record ms { regs = set ms.regs j new })))))
      >>= (λ renewed. lsite_entry_update_expiration_timer j renewed)

  -- a new one, whose timer is started; whether the database takes it is not asked
  unfoldable pub enter : Flags → ℕ → Site → Mapping → Ms pt → Run (Ms pt)
  unfolding mdb_add_entry
  enter flags i site m ms =
      let j = length ms.regs in
      mdb_add_entry pt ms.reg_sites_db m.eid_prefix j >>= (λ r. ok (
        set_proxy_reply flags.proxy_reply i site
          (record ms { reg_sites_db = r.1; regs = ms.regs ++ (m ∷ []); timers = j ∷ ms.timers })))

  unfoldable pub register_mapping : Flags → ℕ → Site → Mapping → ℕ → Ms pt → Run (Ms pt)
  unfolding renew enter mdb_lookup_entry_exact
  register_mapping flags i site m fresh ms =
      mdb_lookup_entry_exact pt ms.reg_sites_db m.eid_prefix >>= (λ o. elim o [
        | none ↦ enter flags i site m ms
        | some j ↦ at_pointer (get_elem? ms.regs j) >>= (λ old. renew flags i site j old m fresh ms)
      ])

  -- the Map-Notify gets the mapping of the record
  unfoldable pub notified : Bool → Mapping → Loop pt → Run (Loop pt)
  unfolding lisp_msg_put_mapping
  notified false m s = ok s
  notified true m s =
      lisp_msg_put_mapping s.mntf m none
      >>= (λ r. ok (record s { mntf = r.1; valid_records = true }))

  -- one record of a site that may register, after the check of the key
  unfoldable pub accept_record : Flags → ℕ → Site → Mapping → Loop pt → Run (Loop pt)
  unfolding is_accepted register_mapping notified
  accept_record flags i site m s = is_accepted site m.eid_prefix >>= (λ may.
      if may
      then (register_mapping flags i site m (s.fresh + 256) s.ms
          >>= (λ ms. notified flags.want_map_notify m (record s { ms = ms })))
      else ok s)

module _ (hmac : Bytes → Bytes → Option Bytes) where
  -- The first record is checked with the key of its site; a later one must have a key that begins
  -- with that one.
  unfoldable pub check_key : Bytes → Option Bytes → Site → Run Verdict
  unfolding lisp_msg_check_auth_field strncmp_is_0
  check_key buf none site =
      lisp_msg_check_auth_field hmac buf site.key
      >>= (λ r. ok (elim r.0 [ good ↦ pass | _ ↦ refuse ]))
  check_key buf (some key) site =
      ok (if strncmp_is_0 (length key) key (site.key ++ (0 ∷ [])) then pass else skip)

  abbrev pub key_after : Option Bytes → Site → Option Bytes
  key_after none site = some site.key
  key_after (some key) site = some key

  module _ {pt : Patricia} where
    -- a record of a site that is configured
    unfoldable pub site_record :
        Bytes → Flags → ℕ → Site → Mapping → Loop pt → Run (Status × Loop pt)
    unfolding check_key accept_record
    site_record buf flags i site m s = check_key buf s.key site >>= (λ v. elim v [
      | refuse ↦ ok (bad, s)
      | skip ↦ ok (good, s)
      | pass ↦
          accept_record flags i site m (record s { key = key_after s.key site })
          >>= (λ t. ok (good, t))
    ])

    unfoldable pub find_site : Bytes → Flags → Mapping → Loop pt → Run (Status × Loop pt)
    unfolding site_record mdb_lookup_entry
    find_site buf flags m s = mdb_lookup_entry pt s.ms.lisp_sites_db m.eid_prefix >>= (λ o. elim o [
      | none ↦ ok (good, s)
      | some i ↦ at_pointer (get_elem? s.ms.sites i) >>= (λ site. site_record buf flags i site m s)
    ])

    -- One round of the loop. Up to 255 locators are new objects.
    unfoldable pub register_record : Bytes → Flags → Loop pt → Run (Status × Loop pt)
    unfolding find_site lisp_msg_parse_mapping_record pref_get_network_prefix mapping_new_init
    register_record buf flags s =
        lisp_msg_parse_mapping_record (mapping_new_init no_addr) s.fresh s.rest >>= (λ o. elim o [
          | none ↦ ok (bad, s)
          | some (m, t) ↦ pref_get_network_prefix m.eid_prefix >>= (λ p.
              with_prefix m p
              >>= (λ n. find_site buf flags n (record s { rest = t.rest; fresh = s.fresh + 512 })))
        ])

    unfoldable pub register_records : Bytes → Flags → ℕ → Loop pt → Run (Status × Loop pt)
    unfolding register_record
    register_records buf flags zero s = ok (good, s)
    register_records buf flags (suc n) s =
        register_record buf flags s
        >>= (λ r. elim r.0 [ good ↦ register_records buf flags n r.1 | _ ↦ ok (bad, r.1) ])

    -- The Map-Notify has the nonce of the Map-Register.
    unfoldable pub send_notify : Flags → ℕ → Loop pt → Run (List Sent)
    unfolding lisp_msg_fill_auth_data
    send_notify flags nonce s =
        if flags.want_map_notify
        then elim s.key [
          | none ↦ ok []
          | some key ↦
              if s.valid_records
              then (lisp_msg_fill_auth_data hmac
                    (record s.mntf { bytes = put_le 8 4 nonce s.mntf.bytes }) hmac_sha_1_96 key
                  >>= (λ r. ok (notify r.1 ∷ [])))
              else ok []
        ]
        else ok []

    abbrev pub start_loop : Ms pt → ℕ → Bytes → Msg → Loop pt
    start_loop ms fresh rest mntf = record {
      ms = ms;
      key = none;
      mntf = mntf;
      valid_records = false;
      rest = rest;
      fresh = fresh;
    }

    abbrev pub finish : Flags → ℕ → Status × Loop pt → Run (Status × Ms pt × List Sent)
    finish flags nonce (good, s) = send_notify flags nonce s >>= (λ out. ok (good, s.ms, out))
    finish flags nonce (_, s) = ok (bad, s.ms, [])

    -- The authentication record is pulled off by the 20 bytes that every key has.
    unfoldable pub ms_recv_map_register : Ms pt → ℕ → Bytes → Run (Status × Ms pt × List Sent)
    unfolding register_records send_notify lisp_msg_pull_hdr
    ms_recv_map_register ms fresh buf = byte 0 buf >>= (λ a. byte 2 buf >>= (λ b.
        byte 3 buf >>= (λ n. new_notify >>= (λ mntf.
          let rest = msg_pull sha1_auth_data_len (msg_pull 4 (lisp_msg_pull_hdr buf)) in
          let flags = flags_of a b in
          nonce_of buf 4 8 >>= (λ nonce.
            register_records buf flags n (start_loop ms fresh rest mntf)
            >>= (λ r. finish flags nonce r))))))
