-- ===== src/Messages/RoundTrip.antt =====
-- lispd/liblisp/liblisp.c: the record of a mapping, and the mapping read back.
use mathlib.Core.List.{append_assoc}
use lispmob.Prelude.{
  ℕ, suc, ◌+◌, ◌-◌, ◌*◌, ◌%◌, ◌^◌, ◌<◌, ◌≤◌, ◌≡◌, refl, ap, ap₂, ◌∙◌, arith, true, Option, none,
  some, List, [], ◌∷◌, ◌++◌, ne→==, reverse, length, set, length-append, length-set, All, ok,
  Returns,
}
use lispmob.Address.{Addr, unspec, v4, v6, no_addr, ip, ippref, lcaf}
use lispmob.Prefixes.{lisp_addr_get_plen, lisp_addr_set_plen}
use lispmob.Wire.{Bytes, be, lisp_addr_size_to_write}
use lispmob.Wire.Parse.{read_be}
use lispmob.Wire.Bytes.{read_be-be}
use lispmob.Wire.RoundTrip.{IsWireLcaf}
use lispmob.Locator.{Locator}
use lispmob.Mapping.{Mapping}
use lispmob.Messages.{Msg, put_at, increment_record_count}
use lispmob.Messages.Records.{
  mapping_record_hdr, put_loct_lists, counted_record, lisp_msg_put_mapping,
}
use lispmob.Messages.Parse.{Locs, msg_pull, lisp_msg_parse_mapping_record_split}
use lispmob.Messages.Written.{
  Form, wire-Form, v4-Form, v6-Form, extend, extend-extend, msg_put-room, lisp_msg_put_addr-Form,
  msg_pull-append,
}
use lispmob.Messages.Locators.{
  sent_lists, IsSendable, locators_size, LocatorBytes, NoneEmpty, put_loct_lists-LocatorBytes,
}

-- The EIDs of mappings: IPv4 and IPv6 prefixes, and LCAFs that can be read back.
abbrev pub IsEid : Addr → Type 0
IsEid (ippref (v4 n) k) = (n < 256 ^ 4) × (k < 256)
IsEid (ippref (v6 n) k) = (n < 256 ^ 16) × (k < 256)
IsEid (lcaf l) = IsWireLcaf l
IsEid _ = ⊥

-- The bytes of an EID give it back with the length of its prefix.
pub eid-Form :
    (a : Addr)
    → IsEid a
    → (r : Addr) × Form a r × (lisp_addr_set_plen r (lisp_addr_get_plen a % 256) ≡ a)
unfolding lisp_addr_get_plen lisp_addr_set_plen
eid-Form no_addr h = absurd h
eid-Form (ip a) h = absurd h
eid-Form (ippref unspec k) h = absurd h
eid-Form (ippref (v4 n) k) (small, fits) =
    let plen : k % 256 % 256 ≡ k = omega arith in
    (ip (v4 n), v4-Form n k small, ap (ippref (v4 n)) plen)
eid-Form (ippref (v6 n) k) (small, fits) =
    let plen : k % 256 % 256 ≡ k = omega arith in
    (ip (v6 n), v6-Form n k small, ap (ippref (v6 n)) plen)
eid-Form (lcaf l) h = (lcaf l, wire-Form (lcaf l) h, refl)

length-hdr :
    (ttl count plen action auth : ℕ) → length (mapping_record_hdr ttl count plen action auth) ≡ 10
unfolding mapping_record_hdr be
length-hdr ttl count plen action auth = refl

set-append {ℓ} :
    {A : Type ℓ} (xs ys : List A) (i : ℕ) (v : A)
    → set (xs ++ ys) (length xs + i) v ≡ xs ++ set ys i v
set-append [] ys i v = let at : 0 + i ≡ i = omega arith in rw (at) refl
set-append (x ∷ xs) ys i v =
    let at : suc (length xs) + i ≡ suc (length xs + i) = omega arith in
    rw (at) (ap (λ zs. x ∷ zs) (set-append xs ys i v))

put_at-extend :
    (b : Msg) (w : Bytes) (i v : ℕ)
    → put_at (extend b w) (length b.bytes + i) v ≡ extend b (set w i v)
put_at-extend b w i v = rw (set-append b.bytes w i v, length-set w i v) refl

set_count :
    (ttl plen action auth count : ℕ) (w : Bytes)
    → set (mapping_record_hdr ttl 1 plen action auth ++ w) 4 (count % 256)
      ≡ mapping_record_hdr ttl count plen action auth ++ w
unfolding mapping_record_hdr be
set_count ttl plen action auth count w = refl

counted_record-extend :
    (b : Msg) (ttl plen action auth count : ℕ) (w : Bytes)
    → counted_record
        (length b.bytes)
        (count, extend b (mapping_record_hdr ttl 1 plen action auth ++ w))
      ≡ increment_record_count (extend b (mapping_record_hdr ttl count plen action auth ++ w))
counted_record-extend b ttl plen action auth count w = ap increment_record_count (
    put_at-extend b (mapping_record_hdr ttl 1 plen action auth ++ w) 4 (count % 256)
    ∙ ap (extend b) (set_count ttl plen action auth count w))

-- the locators of a mapping that are sent
abbrev pub locators : Mapping → List Locator
locators m = sent_lists m.locators_lists.elems

abbrev sent_count : Mapping → ℕ
sent_count m = length (locators m)

abbrev first_hdr : Mapping → Bytes
first_hdr m = mapping_record_hdr m.ttl 1 (lisp_addr_get_plen m.eid_prefix) 0 m.authoritative

abbrev pub record_size : Mapping → ℕ
record_size m = 10 + lisp_addr_size_to_write m.eid_prefix + locators_size (locators m)

-- the bytes of a record: its header, then the EID and the locators
abbrev record_bytes : Mapping → Bytes → Bytes → Bytes
record_bytes m eid locs =
    mapping_record_hdr m.ttl (sent_count m) (lisp_addr_get_plen m.eid_prefix) 0 m.authoritative
    ++ (eid ++ locs)

put_record :
    (b : Msg) (m : Mapping) {r : Addr} (f : Form m.eid_prefix r) (v : Bytes)
    → record_size m ≤ b.room
    → put_loct_lists none m.locators_lists.elems (0, extend b (first_hdr m ++ f.bytes))
      ≡ ok (sent_count m, extend b ((first_hdr m ++ f.bytes) ++ v))
    → lisp_msg_put_mapping b m none
      ≡ ok (true, increment_record_count (extend b (record_bytes m f.bytes v)))
unfolding lisp_msg_put_mapping
put_record b m f v fits e =
    let hdr = first_hdr m in
    let len : length hdr ≡ 10 =
      length-hdr m.ttl 1 (lisp_addr_get_plen m.eid_prefix) 0 m.authoritative in
    let room : lisp_addr_size_to_write m.eid_prefix ≤ b.room - length hdr = omega (arith, len) in
    rw
      (
        msg_put-room b hdr (omega (arith, len)),
        lisp_msg_put_addr-Form f (extend b hdr) room,
        extend-extend b hdr f.bytes,
        e,
        append_assoc hdr f.bytes v,
      )
      (ap (λ c. ok (true, c)) (counted_record-extend b _ _ 0 _ _ (f.bytes ++ v)))

split_record :
    (ttl count plen auth : ℕ) {a r : Addr} (f : Form a r) (ls : List Locator) (v rest : Bytes)
    → LocatorBytes ls v
    → length ls ≡ count
    → count < 256
    → lisp_msg_parse_mapping_record_split
        (mapping_record_hdr ttl count plen 0 auth ++ (f.bytes ++ (v ++ rest)))
      ≡ ok (
          some (
            lisp_addr_set_plen r (plen % 256),
            record { locs = reverse ls; probed = none; rest = rest },
          ))
unfolding lisp_msg_parse_mapping_record_split mapping_record_hdr be
split_record ttl count plen auth f ls v rest lb n small =
    let bs = mapping_record_hdr ttl count plen 0 auth ++ (f.bytes ++ (v ++ rest)) in
    let behind : msg_pull 10 bs ≡ f.bytes ++ (v ++ rest) =
      msg_pull-append (mapping_record_hdr ttl count plen 0 auth) (f.bytes ++ (v ++ rest)) in
    let same : count % 256 ≡ length ls = omega arith in
    rw
      (
        behind,
        f.reads (v ++ rest),
        ne→== (length f.bytes) 0 (omega (arith, f.two)),
        msg_pull-append f.bytes (v ++ rest),
        same,
        lb.reads 0 [] rest,
      )
      refl

read_ttl :
    (ttl count plen action auth : ℕ) (rest : Bytes)
    → ttl < 256 ^ 4
    → read_be 4 0 (mapping_record_hdr ttl count plen action auth ++ rest) ≡ ok ttl
unfolding mapping_record_hdr be
read_ttl ttl count plen action auth rest small =
    read_be-be 4 ttl
      ((count % 256 ∷ plen % 256 ∷ (action % 8 * 32 + auth % 2 * 16) ∷ 0 ∷ 0 ∷ 0 ∷ []) ++ rest)
      small

-- A mapping of an EID that can be read back, none of whose lists is empty, whose sent locators are up
-- and have addresses that can be read back, fewer than 256 of them, is put by lisp_msg_put_mapping
-- into a message with room for it, whose record count goes up by one. From the bytes that it appends,
-- 10 and those of the EID and of each sent locator, whatever follows them,
-- lisp_msg_parse_mapping_record_split reads the EID prefix with its length and a list of the sent
-- locators, the last one first, none of them probed, and leaves what follows; the first four bytes are
-- the time to live.
pub lisp_msg_parse_mapping_record_split-put :
    (b : Msg) (m : Mapping) (rest : Bytes)
    → IsEid m.eid_prefix
    → NoneEmpty m.locators_lists.elems
    → All IsSendable (locators m)
    → length (locators m) < 256
    → m.ttl < 256 ^ 4
    → record_size m ≤ b.room
    → Returns (lisp_msg_put_mapping b m none) (λ r.
      (w : Bytes) × (r ≡ (true, increment_record_count (extend b w)))
      × (length w ≡ record_size m)
      × (lisp_msg_parse_mapping_record_split (w ++ rest)
          ≡ ok (
              some
                (m.eid_prefix, record { locs = reverse (locators m); probed = none; rest = rest })))
      × (read_be 4 0 (w ++ rest) ≡ ok m.ttl))
lisp_msg_parse_mapping_record_split-put b m rest is_eid full good_ few small fits =
    let (r, f, plen) = eid-Form m.eid_prefix is_eid in
    let len : length (first_hdr m) ≡ 10 =
      length-hdr m.ttl 1 (lisp_addr_get_plen m.eid_prefix) 0 m.authoritative in
    let c = extend b (first_hdr m ++ f.bytes) in
    let room : locators_size (locators m) ≤ b.room - length (first_hdr m ++ f.bytes) =
      omega (arith, len, f.size, length-append (first_hdr m) f.bytes) in
    let (v, e, lb) = put_loct_lists-LocatorBytes m.locators_lists.elems 0 c full good_ room in
    let count : 0 + length (locators m) ≡ length (locators m) = omega arith in
    let e2 = e ∙ ap ok (ap₂ (λ n x. (n, x)) count (extend-extend b (first_hdr m ++ f.bytes) v)) in
    let hdr =
      mapping_record_hdr m.ttl (length (locators m)) (lisp_addr_get_plen m.eid_prefix) 0
        m.authoritative in
    let tail = append_assoc hdr (f.bytes ++ v) rest in
    let same = tail ∙ ap (λ x. hdr ++ x) (append_assoc f.bytes v rest) in
    let split =
      split_record m.ttl _ (lisp_addr_get_plen m.eid_prefix) m.authoritative f (locators m) v rest
        lb refl few in
    let found : Addr → Locs → Option (Addr × Locs) = λ a t. some (a, t) in
    (
      _,
      put_record b m f v fits e2,
      (
        record_bytes m f.bytes v,
        refl,
        omega (
          arith,
          length-hdr m.ttl (length (locators m)) (lisp_addr_get_plen m.eid_prefix) 0
              m.authoritative,
          length-append hdr (f.bytes ++ v),
          length-append f.bytes v,
          f.size,
          lb.size,
        ),
        ap lisp_msg_parse_mapping_record_split same
            ∙ split
            ∙ ap
                (λ a.
                  ok (found a (record { locs = reverse (locators m); probed = none; rest = rest })))
                plen,
        ap (read_be 4 0) tail ∙ read_ttl m.ttl _ _ 0 _ _ small,
      ),
    )
