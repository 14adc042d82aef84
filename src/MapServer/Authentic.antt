-- ===== src/MapServer/Authentic.antt =====
-- lispd/control/lisp_ms.c: what a Map-Register can do without a valid authentication.
use lispmob.Prelude.{
  ℕ, zero, suc, ◌+◌, ◌≡◌, refl, sym, ◌∙◌, subst, ap, ◌⊎◌, inl, inr, Bool, true, false, Option, none,
  some, List, [], if◌then◌else◌, get_elem?, Bool-cases, Run, ok, ◌>>=◌, bind-ok, ok_injective,
}
use lispmob.Wire.{Bytes}
use lispmob.Locator.Lists.{Status, good, bad, err_exist, err_no_exist}
use lispmob.Mapping.{Mapping}
use lispmob.MappingDb.{Patricia}
use lispmob.Messages.Records.{lisp_msg_put_mapping}
use lispmob.Prelude.{arith}
use lispmob.Wire.Parse.{byte}
use lispmob.Messages.Auth.{sha1_auth_data_len, lisp_msg_check_auth_field}
use lispmob.MapServer.{Ms, Site, Sent, at_pointer, nonce_of}
use lispmob.MappingDb.Entries.{mdb_lookup_entry}
use lispmob.Address.{no_addr}
use lispmob.Mapping.{mapping_new_init}
use lispmob.Prefixes.{pref_get_network_prefix}
use lispmob.Messages.Parse.{Locs, msg_pull, lisp_msg_pull_hdr, lisp_msg_parse_mapping_record}
use lispmob.MapServer.Registration.{
  Loop, Flags, new_notify, flags_of, with_prefix, is_accepted, register_mapping, Verdict, pass,
  skip, refuse, notified, accept_record, check_key, key_after, site_record, find_site,
  register_record, register_records, send_notify, start_loop, finish, ms_recv_map_register,
}

notified-key :
    {pt : Patricia} (want : Bool) (m : Mapping) (s t : Loop pt)
    → notified want m s ≡ ok t
    → t.key ≡ s.key
unfolding notified
notified-key false m s t e = ap (λ x. x.key) (sym (ok_injective e))
notified-key true m s t e =
    let (r, _, f) = bind-ok (lisp_msg_put_mapping s.mntf m none) _ t e in
    ap (λ x. x.key) (sym (ok_injective f))

registered-key :
    {pt : Patricia} (may : Bool) (r : Run (Ms pt)) (want : Bool) (m : Mapping) (s t : Loop pt)
    → (if may then (r >>= (λ ms. notified want m (record s { ms = ms }))) else ok s) ≡ ok t
    → t.key ≡ s.key
registered-key true r want m s t e =
    let (ms, _, f) = bind-ok r _ t e in notified-key want m (record s { ms = ms }) t f
registered-key false r want m s t e = ap (λ x. x.key) (sym (ok_injective e))

accept_record-key :
    {pt : Patricia} (flags : Flags) (i : ℕ) (site : Site) (m : Mapping) (s t : Loop pt)
    → accept_record flags i site m s ≡ ok t
    → t.key ≡ s.key
unfolding accept_record
accept_record-key flags i site m s t e =
    let (may, _, f) = bind-ok (is_accepted site m.eid_prefix) _ t e in
    registered-key may (register_mapping flags i site m (s.fresh + 256) s.ms) flags.want_map_notify
      m s t f

at_pointer-some {ℓ} : {A : Type ℓ} (o : Option A) (a : A) → at_pointer o ≡ ok a → o ≡ some a
at_pointer-some none a e = absurd (cc)
at_pointer-some (some x) a e = ap some (ok_injective e)

-- A site of the device whose key makes the message authentic.
abbrev pub IsAuthentic : (Bytes → Bytes → Option Bytes) → {pt : Patricia} → Ms pt → Bytes → Type 0
IsAuthentic hmac ms buf =
    (i : ℕ) × (site : Site) × (get_elem? ms.sites i ≡ some site)
    × (bs : Bytes) × (lisp_msg_check_auth_field hmac buf site.key ≡ ok (good, bs))

module _ (hmac : Bytes → Bytes → Option Bytes) {pt : Patricia} (ms : Ms pt) (buf : Bytes) where
  -- A site of the device whose key makes the message authentic.
  abbrev pub HasAuthor : Option Bytes → Type 0
  HasAuthor key =
      (i : ℕ) × (site : Site) × (get_elem? ms.sites i ≡ some site)
      × (key ≡ some site.key)
      × (bs : Bytes) × (lisp_msg_check_auth_field hmac buf site.key ≡ ok (good, bs))

  abbrev IsGuarded : Loop pt → Type 0
  IsGuarded s = ((s.ms ≡ ms) × (s.key ≡ none)) ⊎ HasAuthor s.key

  passed : (st : Status) → elim st as (λ x. Verdict) [ good ↦ pass | _ ↦ refuse ] ≡ pass → st ≡ good
  passed st e = ground arith

  -- what the verdict on a key leads to
  verdict-IsGuarded :
      (v : Verdict) (flags : Flags) (i : ℕ) (site : Site) (m : Mapping) (s : Loop pt)
      (r : Status × Loop pt)
      → IsGuarded s
      → (v ≡ pass → HasAuthor (key_after hmac s.key site))
      → elim v as (λ x. Run (Status × Loop pt)) [
        | refuse ↦ ok (bad, s)
        | skip ↦ ok (good, s)
        | pass ↦
            accept_record flags i site m (record s { key = key_after hmac s.key site })
            >>= (λ t. ok (good, t))
      ]
        ≡ ok r
      → IsGuarded r.1
  verdict-IsGuarded refuse flags i site m s r g h e = subst (λ x. IsGuarded x.1) (ok_injective e) g
  verdict-IsGuarded skip flags i site m s r g h e = subst (λ x. IsGuarded x.1) (ok_injective e) g
  verdict-IsGuarded pass flags i site m s r g h e =
      let next = record s { key = key_after hmac s.key site } in
      let (t, made, f) = bind-ok (accept_record flags i site m next) _ r e in
      let key = accept_record-key flags i site m next t made in
      let author = subst HasAuthor (sym key) (h refl) in
      subst (λ x. IsGuarded x.1) (ok_injective f) (inr author)

  first_key :
      (site : Site)
      → check_key hmac buf none site ≡ ok pass
      → (bs : Bytes) × (lisp_msg_check_auth_field hmac buf site.key ≡ ok (good, bs))
  unfolding check_key
  first_key site e =
      let (r, found, f) = bind-ok (lisp_msg_check_auth_field hmac buf site.key) _ pass e in
      let is_good = passed r.0 (ok_injective f) in (r.1, found ∙ ap (λ x. ok (x, r.1)) is_good)

  checked :
      (s : Loop pt) (i : ℕ) (site : Site)
      → IsGuarded s
      → get_elem? s.ms.sites i ≡ some site
      → (v : Verdict) → check_key hmac buf s.key site ≡ ok v
      → v ≡ pass
      → HasAuthor (key_after hmac s.key site)
  checked s i site (inl (same, fresh)) at v e p =
      let now : check_key hmac buf none site ≡ ok pass =
        subst (λ k. check_key hmac buf k site ≡ ok pass) fresh (e ∙ ap ok p) in
      let (bs, valid) = first_key site now in
      let key : key_after hmac s.key site ≡ some site.key = rw (fresh) refl in
      let there : get_elem? ms.sites i ≡ some site =
        subst (λ x. get_elem? x.sites i ≡ some site) same at in
      (i, site, there, key, bs, valid)
  checked s i site (inr (j, other, there, key, bs, found)) at v e p =
      let kept : key_after hmac s.key site ≡ some other.key = rw (key) refl in
      (j, other, there, kept, bs, found)

  site_record-IsGuarded :
      (flags : Flags) (i : ℕ) (site : Site) (m : Mapping) (s : Loop pt) (r : Status × Loop pt)
      → IsGuarded s
      → get_elem? s.ms.sites i ≡ some site
      → site_record hmac buf flags i site m s ≡ ok r
      → IsGuarded r.1
  unfolding site_record
  site_record-IsGuarded flags i site m s r g at e =
      let (v, found, f) = bind-ok (check_key hmac buf s.key site) _ r e in
      verdict-IsGuarded v flags i site m s r g (checked s i site g at v found) f

  site-IsGuarded :
      (flags : Flags) (m : Mapping) (s : Loop pt) (r : Status × Loop pt) (o : Option ℕ)
      → IsGuarded s
      → elim o as (λ x. Run (Status × Loop pt)) [
        | none ↦ ok (good, s)
        | some i ↦
            at_pointer (get_elem? s.ms.sites i) >>= (λ site. site_record hmac buf flags i site m s)
      ]
        ≡ ok r
      → IsGuarded r.1
  site-IsGuarded flags m s r none g e = subst (λ x. IsGuarded x.1) (ok_injective e) g
  site-IsGuarded flags m s r (some i) g e =
      let (site, found, f) = bind-ok (at_pointer (get_elem? s.ms.sites i)) _ r e in
      site_record-IsGuarded flags i site m s r g (at_pointer-some _ site found) f

  find_site-IsGuarded :
      (flags : Flags) (m : Mapping) (s : Loop pt) (r : Status × Loop pt)
      → IsGuarded s
      → find_site hmac buf flags m s ≡ ok r
      → IsGuarded r.1
  unfolding find_site
  find_site-IsGuarded flags m s r g e =
      let (o, _, f) = bind-ok (mdb_lookup_entry pt s.ms.lisp_sites_db m.eid_prefix) _ r e in
      site-IsGuarded flags m s r o g f

  parsed-IsGuarded :
      (flags : Flags) (s : Loop pt) (r : Status × Loop pt) (o : Option (Mapping × Locs))
      → IsGuarded s
      → elim o as (λ x. Run (Status × Loop pt)) [
        | none ↦ ok (bad, s)
        | some (m, t) ↦ pref_get_network_prefix m.eid_prefix >>= (λ p. with_prefix m p >>= (λ n.
            find_site hmac buf flags n (record s { rest = t.rest; fresh = s.fresh + 512 })))
      ]
        ≡ ok r
      → IsGuarded r.1
  parsed-IsGuarded flags s r none g e = subst (λ x. IsGuarded x.1) (ok_injective e) g
  parsed-IsGuarded flags s r (some (m, t)) g e =
      let (p, _, f) = bind-ok (pref_get_network_prefix m.eid_prefix) _ r e in
      let (n, _, h) = bind-ok (with_prefix m p) _ r f in
      find_site-IsGuarded flags n (record s { rest = t.rest; fresh = s.fresh + 512 }) r g h

  register_record-IsGuarded :
      (flags : Flags) (s : Loop pt) (r : Status × Loop pt)
      → IsGuarded s
      → register_record hmac buf flags s ≡ ok r
      → IsGuarded r.1
  unfolding register_record
  register_record-IsGuarded flags s r g e =
      let (o, _, f) =
        bind-ok (lisp_msg_parse_mapping_record (mapping_new_init no_addr) s.fresh s.rest) _ r e in
      parsed-IsGuarded flags s r o g f

  after-IsGuarded :
      (flags : Flags) (n : ℕ) (r : Status × Loop pt)
      → ((t : Loop pt) (r : Status × Loop pt)
          → IsGuarded t
          → register_records hmac buf flags n t ≡ ok r
          → IsGuarded r.1)
      → (st : Status) (t : Loop pt) → IsGuarded t
      → elim st as (λ x. Run (Status × Loop pt)) [
        | good ↦ register_records hmac buf flags n t
        | _ ↦ ok (bad, t)
      ]
        ≡ ok r
      → IsGuarded r.1
  after-IsGuarded flags n r next good t h f = next t r h f
  after-IsGuarded flags n r next bad t h f = subst (λ x. IsGuarded x.1) (ok_injective f) h
  after-IsGuarded flags n r next err_exist t h f = subst (λ x. IsGuarded x.1) (ok_injective f) h
  after-IsGuarded flags n r next err_no_exist t h f = subst (λ x. IsGuarded x.1) (ok_injective f) h

  -- without a key no Map-Notify is sent
  no_notify :
      (flags : Flags) (nonce : ℕ) (s : Loop pt)
      → s.key ≡ none
      → send_notify hmac flags nonce s ≡ ok []
  unfolding send_notify
  no_notify flags nonce s e = elim (Bool-cases flags.want_map_notify) [
    | inl w ↦ rw (w, e) refl
    | inr w ↦ rw (w) refl
  ]

  unchanged :
      (s : Loop pt) (r : Status × Ms pt × List Sent)
      → s.ms ≡ ms
      → ok (bad, s.ms, []) ≡ ok r
      → ((r.1 ≡ ms) × (r.2 ≡ [])) ⊎ HasAuthor s.key
  unchanged s r same e =
      inl (subst (λ x. x.1 ≡ ms) (ok_injective e) same, subst (λ x. x.2 ≡ []) (ok_injective e) refl)

  or_IsAuthentic :
      (key : Option Bytes) (r : Status × Ms pt × List Sent)
      → ((r.1 ≡ ms) × (r.2 ≡ [])) ⊎ HasAuthor key
      → ((r.1 ≡ ms) × (r.2 ≡ [])) ⊎ IsAuthentic hmac ms buf
  or_IsAuthentic key r (inl same) = inl same
  or_IsAuthentic key r (inr (i, site, there, k, bs, found)) = inr (i, site, there, bs, found)

  register_records-IsGuarded :
      (flags : Flags) (n : ℕ) (s : Loop pt) (r : Status × Loop pt)
      → IsGuarded s
      → register_records hmac buf flags n s ≡ ok r
      → IsGuarded r.1
  unfolding register_records
  register_records-IsGuarded flags zero s r g e = subst (λ x. IsGuarded x.1) (ok_injective e) g
  register_records-IsGuarded flags (suc n) s r g e =
      let (a, made, f) = bind-ok (register_record hmac buf flags s) _ r e in
      let now = register_record-IsGuarded flags s a g made in
      after-IsGuarded flags n r (register_records-IsGuarded flags n) a.0 a.1 now f

  finish-IsGuarded :
      (flags : Flags) (nonce : ℕ) (st : Status) (s : Loop pt) (r : Status × Ms pt × List Sent)
      → IsGuarded s
      → finish hmac flags nonce (st, s) ≡ ok r
      → ((r.1 ≡ ms) × (r.2 ≡ [])) ⊎ HasAuthor s.key
  finish-IsGuarded flags nonce st s r (inr author) e = inr author
  finish-IsGuarded flags nonce good s r (inl (same, fresh)) e =
      let (out, sent, f) = bind-ok (send_notify hmac flags nonce s) _ r e in
      let quiet = ok_injective (sym sent ∙ no_notify flags nonce s fresh) in
      inl
        (subst (λ x. x.1 ≡ ms) (ok_injective f) same, subst (λ x. x.2 ≡ []) (ok_injective f) quiet)
  finish-IsGuarded flags nonce bad s r (inl (same, fresh)) e = unchanged s r same e
  finish-IsGuarded flags nonce err_exist s r (inl (same, fresh)) e = unchanged s r same e
  finish-IsGuarded flags nonce err_no_exist s r (inl (same, fresh)) e = unchanged s r same e

-- Whatever message ms_recv_map_register runs to its end on, the device is as it was and nothing is
-- sent, unless lisp_msg_check_auth_field accepts the message with the key of one of the sites that are
-- configured.
pub ms_recv_map_register-IsAuthentic :
    (hmac : Bytes → Bytes → Option Bytes) {pt : Patricia} (ms : Ms pt) (fresh : ℕ) (buf : Bytes)
    (r : Status × Ms pt × List Sent)
    → ms_recv_map_register hmac ms fresh buf ≡ ok r
    → ((r.1 ≡ ms) × (r.2 ≡ [])) ⊎ IsAuthentic hmac ms buf
unfolding ms_recv_map_register
ms_recv_map_register-IsAuthentic hmac {pt} ms fresh buf r e =
    let (a, _, e1) = bind-ok (byte 0 buf) _ r e in
    let (b, _, e2) = bind-ok (byte 2 buf) _ r e1 in
    let (n, _, e3) = bind-ok (byte 3 buf) _ r e2 in
    let (mntf, _, e5) = bind-ok new_notify _ r e3 in
    let (nonce, _, e6) = bind-ok (nonce_of buf 4 8) _ r e5 in
    let rest = msg_pull sha1_auth_data_len (msg_pull 4 (lisp_msg_pull_hdr buf)) in
    let start : Loop pt = start_loop hmac ms fresh rest mntf in
    let (q, made, e7) = bind-ok (register_records hmac buf (flags_of a b) n start) _ r e6 in
    let now =
      register_records-IsGuarded hmac ms buf (flags_of a b) n start q (inl (refl, refl)) made in
    or_IsAuthentic hmac ms buf q.1.key r
      (finish-IsGuarded hmac ms buf (flags_of a b) nonce q.0 q.1 r now e7)
