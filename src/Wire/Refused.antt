-- ===== src/Wire/Refused.antt =====
-- lispd/liblisp/lisp_lcaf.c: addresses that lispd writes or receives and that its parser does not take.
use lispmob.Prelude.{
  ℕ, ◌+◌, ◌*◌, ◌<◌, ◌≤◌, ◌≡◌, refl, arith, true, false, leb, ◌∷◌, ◌++◌, length, length-append, ok,
  fault, out_of_bounds, ◌==◌, ne→==, Returns,
}
use lispmob.Address.{Addr, lcaf, iid, other}
use lispmob.Wire.{Bytes, be, lcaf_hdr, lisp_addr_size_to_write, lisp_addr_write}
use lispmob.Wire.Parse.{parse_addr, read_le32, lisp_addr_parse}
use lispmob.Wire.Reads.{Reads, three_more, two_bytes}
use lispmob.Wire.RoundTrip.{IsWire, addr-Reads}

parse_addr-iid :
    (fuel n m : ℕ) (a : Addr) (v rest : Bytes)
    → 2 * length v + 3 ≤ fuel
    → 12 + lisp_addr_size_to_write a < 65536
    → Reads a v
    → parse_addr fuel ((lcaf_hdr 2 m (12 + lisp_addr_size_to_write a) ++ (be 4 n ++ v)) ++ rest)
      ≡ ok (0, lcaf (other 2))
unfolding be parse_addr read_le32
parse_addr-iid fuel n m a v rest enough fits rv =
    let (f, e) = three_more fuel (omega arith) in
    let len = two_bytes (12 + lisp_addr_size_to_write a) fits in
    let nested = rv.read f rest (omega arith) in
    let short : (length v + 12 == 12 + lisp_addr_size_to_write a + 8) ≡ false =
      ne→== _ _ (omega (arith, rv.size)) in
    rw (e, parse_addr, nested, len, short) refl

parse_addr-overflow :
    (fuel type x y z : ℕ) (rest : Bytes)
    → 3 ≤ fuel
    → 16 ≤ type
    → parse_addr fuel (64 ∷ 3 ∷ y ∷ z ∷ type ∷ x ∷ rest) ≡ fault out_of_bounds
unfolding parse_addr
parse_addr-overflow fuel type x y z rest enough h =
    let (f, e) = three_more fuel enough in
    let outside : leb 16 type ≡ true = ground arith in rw (e, parse_addr, outside) refl

-- An instance id with an address that lisp_addr_parse could read by itself is written, but
-- lisp_addr_parse does not read it back: the length that iid_type_write_to_pkt gives the header is
-- that of the whole LCAF, so the parser answers BAD.
pub lisp_addr_parse-iid :
    (n m : ℕ) (a : Addr) (rest : Bytes)
    → IsWire a
    → 12 + lisp_addr_size_to_write a < 65536
    → Returns
        (lisp_addr_write (lcaf (iid n m a)))
        (λ w. lisp_addr_parse (w ++ rest) ≡ ok (0, lcaf (other 2)))
unfolding lisp_addr_write lisp_addr_parse
lisp_addr_parse-iid n m a rest h fits =
    let (v, ev, rv) = addr-Reads a h in
    let bytes = lcaf_hdr 2 m (12 + lisp_addr_size_to_write a) ++ (be 4 n ++ v) in
    let refused =
      parse_addr-iid (2 * length (bytes ++ rest) + 4) n m a v rest
        (omega (arith, length-append v rest)) fits rv in
    (bytes, rw (ev) refl, refused)

-- Bytes that start with the header of an LCAF whose type is 16 or more make lisp_addr_parse read
-- its table of parsers behind the end.
pub lisp_addr_parse-overflow :
    (type x y z : ℕ) (rest : Bytes)
    → 16 ≤ type
    → lisp_addr_parse (64 ∷ 3 ∷ y ∷ z ∷ type ∷ x ∷ rest) ≡ fault out_of_bounds
unfolding lisp_addr_parse
lisp_addr_parse-overflow type x y z rest h =
    parse_addr-overflow (2 * length (64 ∷ 3 ∷ y ∷ z ∷ type ∷ x ∷ rest) + 4) type x y z rest
      (omega arith) h
