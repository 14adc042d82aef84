-- ===== src/Messages/MapRequest.antt =====
-- lispd/liblisp/liblisp.c: the Map-Request that is created, read the way a device reads it.
use lispmob.Prelude.{
  ℕ, zero, suc, ◌+◌, ◌-◌, ◌%◌, ◌≤◌, ◌≡◌, refl, sym, ap, ◌∙◌, arith, false, ltb, ge→ltb, List, [],
  ◌∷◌, ◌++◌, length, drop, replicate, length-append, Run, ok, ◌>>=◌, Returns,
}
use lispmob.Address.{Addr, no_addr}
use lispmob.Prefixes.{lisp_addr_get_plen, lisp_addr_set_plen}
use lispmob.Wire.{Bytes, lisp_addr_size_to_write}
use lispmob.Messages.{Msg, increment_record_count}
use lispmob.Messages.Records.{lisp_msg_put_eid_rec}
use lispmob.Messages.Parse.{
  lisp_msg_parse_addr, lisp_msg_parse_eid_rec, lisp_msg_parse_itr_rlocs, lisp_msg_pull_hdr,
}
use lispmob.Messages.Written.{Form, extend, extend-extend, msg_put-room, lisp_msg_put_addr-Form}
use lispmob.Messages.RoundTrip.{IsEid, eid-Form}

drop-append_le {ℓ} :
    {A : Type ℓ} (n : ℕ) (xs ys : List A) → n ≤ length xs → drop n (xs ++ ys) ≡ drop n xs ++ ys
drop-append_le zero xs ys h = refl
drop-append_le (suc n) [] ys h = absurd (omega arith)
drop-append_le (suc n) (x ∷ xs) ys h = drop-append_le n xs ys (omega arith)

abbrev eid_bytes : Addr → Bytes → Bytes
eid_bytes a w = 0 ∷ lisp_addr_get_plen a % 256 ∷ w

put_eid-Form :
    {a r : Addr} (f : Form a r) (b : Msg)
    → 2 + lisp_addr_size_to_write a ≤ b.room
    → lisp_msg_put_eid_rec b a ≡ ok (increment_record_count (extend b (eid_bytes a f.bytes)))
unfolding lisp_msg_put_eid_rec
put_eid-Form {a} f b fits =
    let hdr = 0 ∷ lisp_addr_get_plen a % 256 ∷ [] in
    rw (msg_put-room b hdr (omega arith), lisp_msg_put_addr-Form f (extend b hdr) (omega arith))
      (ap (λ c. ok (increment_record_count c)) (extend-extend b hdr f.bytes))

read_eid-Form :
    {a r : Addr} (f : Form a r) (rest : Bytes)
    → lisp_addr_set_plen r (lisp_addr_get_plen a % 256) ≡ a
    → lisp_msg_parse_eid_rec (eid_bytes a f.bytes ++ rest)
      ≡ ok (a, drop (length f.bytes) (eid_bytes a f.bytes) ++ rest)
unfolding lisp_msg_parse_eid_rec
read_eid-Form {a} f rest plen =
    let bs = eid_bytes a f.bytes in
    let enough : ltb (length (bs ++ rest)) (length f.bytes) ≡ false =
      ge→ltb _ _ (omega (arith, length-append f.bytes rest)) in
    rw (f.reads rest, plen, enough, drop-append_le (length f.bytes) bs rest (omega arith)) refl

-- the last two bytes
two_left :
    (n : ℕ) (bs : Bytes)
    → length bs ≡ 2 + n
    → (front : Bytes) × (x : ℕ) × (y : ℕ) × (bs ≡ front ++ (x ∷ y ∷ [])) × (drop n bs ≡ x ∷ y ∷ [])
two_left zero (x ∷ y ∷ []) h = ([], x, y, refl, refl)
two_left (suc n) (b ∷ bs) h =
    let (front, x, y, e, d) = two_left n bs (omega arith) in
    (b ∷ front, x, y, ap (λ zs. b ∷ zs) e, d)
two_left n bs h = absurd (omega arith)

-- An EID that can be read back is put by lisp_msg_put_eid_rec into a message with room for it, whose
-- record count goes up by one. From the bytes that it appends, whatever follows them,
-- lisp_msg_parse_eid_rec reads the EID with its length, and leaves the last two of them unread before
-- what follows.
pub lisp_msg_parse_eid_rec-put :
    (b : Msg) (a : Addr) (rest : Bytes)
    → IsEid a
    → 2 + lisp_addr_size_to_write a ≤ b.room
    → Returns (lisp_msg_put_eid_rec b a) (λ c.
      (front : Bytes) × (x : ℕ) × (y : ℕ) × (c
        ≡ increment_record_count (extend b (front ++ (x ∷ y ∷ []))))
      × (lisp_msg_parse_eid_rec ((front ++ (x ∷ y ∷ [])) ++ rest) ≡ ok (a, x ∷ y ∷ rest)))
lisp_msg_parse_eid_rec-put b a rest h fits =
    let (r, f, plen) = eid-Form a h in
    let (front, x, y, e, d) = two_left (length f.bytes) (eid_bytes a f.bytes) (omega arith) in
    let read = read_eid-Form f rest plen in
    (
      _,
      put_eid-Form f b fits,
      (
        front,
        x,
        y,
        ap (λ w. increment_record_count (extend b w)) e,
        ap (λ w. lisp_msg_parse_eid_rec (w ++ rest)) (sym e) ∙ read ∙ ap (λ w. ok (a, w ++ rest)) d,
      ),
    )

abbrev pub addrs_size : List Addr → ℕ
addrs_size [] = 0
addrs_size (a ∷ as_) = lisp_addr_size_to_write a + addrs_size as_

-- as `ms_recv_map_request` and `tr_recv_map_request` read a request with one record
abbrev pub read_map_request : Bytes → Run (Addr × List Addr × Addr)
read_map_request bs = lisp_msg_parse_addr no_addr (lisp_msg_pull_hdr bs) >>= (λ s.
    lisp_msg_parse_itr_rlocs bs s.1
    >>= (λ t. lisp_msg_parse_eid_rec t.1 >>= (λ u. ok (s.0, t.0, u.0))))

-- the bytes of a Map-Request
abbrev mreq_bytes : ℕ → Bytes → Bytes
mreq_bytes n w = 16 ∷ 0 ∷ (0 - 0 % 32 + (n - 1) % 32) ∷ 1 ∷ (replicate 8 0 ++ w)
