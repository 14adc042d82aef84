-- ===== src/Messages/Written.antt =====
-- lispd/liblisp/liblisp.c: what the writers append to a message that has the room for it, and what the
-- readers make of it.
use mathlib.Core.List.{append_assoc, append-nil}
use lispmob.Prelude.{
  ℕ, ◌+◌, ◌-◌, ◌^◌, ◌<◌, ◌≤◌, ◌≡◌, refl, sym, ap, ◌∙◌, arith, true, false, some, [], ◌++◌, ltb,
  ge→ltb, lt→ltb, ne→==, length, length-append, drop-append, ok, ok_injective,
}
use lispmob.Address.{v4, v6, Addr, ip, ippref}
use lispmob.Wire.{Bytes, lisp_addr_write, lisp_addr_size_to_write}
use lispmob.Wire.Parse.{lisp_addr_parse}
use lispmob.Wire.RoundTrip.{IsWire, lisp_addr_parse-write}
use lispmob.Locator.{Locator, up}
use lispmob.Messages.{
  Msg, msg_put, lisp_msg_put_addr, announced, locator_hdr, locator_flags, lisp_msg_put_locator,
}
use lispmob.Messages.Parse.{msg_pull, locator_status, locator_parse, lisp_msg_parse_loc}

abbrev pub extend : Msg → Bytes → Msg
extend b w = record { bytes = b.bytes ++ w; room = b.room - length w }

-- The bytes of an address `a`, which are read as `r`.
pub record Form (a r : Addr) : Type 0 where
  pub bytes : Bytes
  pub writes : lisp_addr_write a ≡ ok bytes
  pub size : length bytes ≡ lisp_addr_size_to_write a
  pub two : 2 ≤ length bytes
  pub reads : (rest : Bytes) → lisp_addr_parse (bytes ++ rest) ≡ ok (length bytes, r)

reads-other :
    (a : Addr) (h : IsWire a) (w rest : Bytes)
    → lisp_addr_write a ≡ ok w
    → lisp_addr_parse (w ++ rest) ≡ ok (length w, a)
reads-other a h w rest e =
    let (v, ev, (s, two, read)) = lisp_addr_parse-write a rest h in
    let same : v ≡ w = ok_injective (sym ev ∙ e) in (rw (same) at read)

pub wire-Form : (a : Addr) → IsWire a → Form a a
wire-Form a h =
    let (w, e, (s, two, read)) = lisp_addr_parse-write a [] h in
    record { bytes = w; writes = e; size = s; two = two; reads = λ rest. reads-other a h w rest e }

pub v4-Form : (n k : ℕ) → n < 256 ^ 4 → Form (ippref (v4 n) k) (ip (v4 n))
unfolding lisp_addr_write lisp_addr_size_to_write
v4-Form n k h =
    let f = wire-Form (ip (v4 n)) h in
    record { bytes = f.bytes; writes = f.writes; size = f.size; two = f.two; reads = f.reads }

pub v6-Form : (n k : ℕ) → n < 256 ^ 16 → Form (ippref (v6 n) k) (ip (v6 n))
unfolding lisp_addr_write lisp_addr_size_to_write
v6-Form n k h =
    let f = wire-Form (ip (v6 n)) h in
    record { bytes = f.bytes; writes = f.writes; size = f.size; two = f.two; reads = f.reads }

pub msg_put-room : (b : Msg) (w : Bytes) → length w ≤ b.room → msg_put b w ≡ ok (extend b w)
unfolding msg_put
msg_put-room b w h = rw (ge→ltb b.room (length w) h) refl

announced-all : (n : ℕ) (w : Bytes) → length w ≡ n → announced n w ≡ w
announced-all n w h = let over : n - length w ≡ 0 = omega arith in rw (over) (append-nil w)

pub lisp_msg_put_addr-Form :
    {a r : Addr} (f : Form a r) (b : Msg)
    → lisp_addr_size_to_write a ≤ b.room
    → lisp_msg_put_addr b a ≡ ok (true, extend b f.bytes)
unfolding lisp_msg_put_addr
lisp_msg_put_addr-Form {a} f b h =
    rw
      (
        f.writes,
        announced-all (lisp_addr_size_to_write a) f.bytes f.size,
        msg_put-room b f.bytes (omega (arith, f.size)),
        lt→ltb 0 (length f.bytes) (omega (arith, f.two)),
      )
      refl

pub extend-extend : (b : Msg) (v w : Bytes) → extend (extend b v) w ≡ extend b (v ++ w)
extend-extend b v w =
    let room : b.room - length v - length w ≡ b.room - length (v ++ w) =
      omega (arith, length-append v w) in
    rw (append_assoc b.bytes v w, room) refl

pub extend-nil : (b : Msg) → extend b [] ≡ b
extend-nil b = let room : b.room - 0 ≡ b.room = omega arith in rw (append-nil b.bytes, room) refl

pub lisp_msg_put_locator-Form :
    (l : Locator) {r : Addr} (f : Form l.addr r) (b : Msg)
    → 6 + lisp_addr_size_to_write l.addr ≤ b.room
    → lisp_msg_put_locator b l ≡ ok (extend b (locator_hdr l ++ f.bytes))
unfolding lisp_msg_put_locator
lisp_msg_put_locator-Form l f b h =
    rw
      (
        msg_put-room b (locator_hdr l) (omega arith),
        lisp_msg_put_addr-Form f (extend b (locator_hdr l)) (omega arith),
      )
      (ap ok (extend-extend b (locator_hdr l) f.bytes))

pub msg_pull-append : (v rest : Bytes) → msg_pull (length v) (v ++ rest) ≡ rest
msg_pull-append v rest =
    let enough : ltb (length (v ++ rest)) (length v) ≡ false =
      ge→ltb _ _ (omega (arith, length-append v rest)) in
    rw (enough) (drop-append v rest)

pub msg_pull-front :
    (front v rest : Bytes) → msg_pull (length front + length v) (front ++ (v ++ rest)) ≡ rest
msg_pull-front front v rest =
    let n : length front + length v ≡ length (front ++ v) = omega (arith, length-append front v) in
    rw (n, sym (append_assoc front v rest)) (msg_pull-append (front ++ v) rest)

pub lisp_msg_parse_loc-Form :
    (l : Locator) (f : Form l.addr l.addr) (rest : Bytes)
    → l.state ≡ up
    → lisp_msg_parse_loc (locator_hdr l ++ (f.bytes ++ rest)) ≡ ok (some (l, rest))
unfolding lisp_msg_parse_loc locator_parse
lisp_msg_parse_loc-Form l f rest h =
    let seen : locator_status (locator_flags l 0) ≡ l.state = rw (h) refl in
    let pulled : msg_pull (6 + length f.bytes) (locator_hdr l ++ (f.bytes ++ rest)) ≡ rest =
      msg_pull-front (locator_hdr l) f.bytes rest in
    rw (f.reads rest, ne→== (length f.bytes) 0 (omega (arith, f.two)), seen, pulled) refl
