-- ===== src/Wire/RoundTrip.antt =====
-- lispd/liblisp/lisp_address.c: what `lisp_addr_parse` reads of what `lisp_addr_write` wrote.
use lispmob.Prelude.{
  ◌+◌, ◌*◌, ◌^◌, ◌<◌, ◌≤◌, ◌≡◌, refl, arith, some, [], ◌∷◌, ◌++◌, length, length-append, ok,
  Returns,
}
use lispmob.Address.{
  unspec, v4, v6, Addr, no_addr, ip, ippref, lcaf, Lcaf, afi_list, iid, mc, elp, rle, other,
  ElpNodes, end, node, RleNodes, none_left, replica,
}
use lispmob.Wire.{
  Bytes, bit, lisp_addr_size_to_write, elp_type_get_size_to_write, rle_type_get_size_to_write,
  lisp_addr_write, lcaf_addr_write, elp_type_write_to_pkt, rle_type_write_to_pkt,
}
use lispmob.Wire.Parse.{lisp_addr_parse}
use lispmob.Wire.Bytes.{add_node-some}
use lispmob.Wire.Reads.{
  Reads, ReadsElp, ReadsRle, none-Reads, v4-Reads, v6-Reads, elp-Reads, rle-Reads, mc-Reads,
  end-ReadsElp, node-ReadsElp, none_left-ReadsRle, replica-ReadsRle,
}

-- The addresses with a form that can be read back: IPv4 and IPv6 addresses, none, and multicast,
-- ELP and RLE addresses of such, whose numbers fit their fields.
abbrev mutual
  pub IsWire : Addr → Type 0
  IsWire no_addr = Unit
  IsWire (ip unspec) = ⊥
  IsWire (ip (v4 n)) = n < 256 ^ 4
  IsWire (ip (v6 n)) = n < 256 ^ 16
  IsWire (ippref a n) = ⊥
  IsWire (lcaf l) = IsWireLcaf l

  pub IsWireLcaf : Lcaf → Type 0
  IsWireLcaf (mc s g n a b) =
      (n < 256 ^ 4)
      × (8 + lisp_addr_size_to_write a + lisp_addr_size_to_write b < 65536)
      × IsWire a
      × IsWire b
  IsWireLcaf (elp ns) = (elp_type_get_size_to_write ns < 65536) × IsWireElp ns
  IsWireLcaf (rle ns) = (rle_type_get_size_to_write ns < 65536) × IsWireRle ns
  IsWireLcaf _ = ⊥

  pub IsWireElp : ElpNodes → Type 0
  IsWireElp end = Unit
  IsWireElp (node l s p a ns) = IsWire a × IsWireElp ns

  pub IsWireRle : RleNodes → Type 0
  IsWireRle none_left = Unit
  IsWireRle (replica k a ns) = IsWire a × IsWireRle ns

mutual
  unfolding lisp_addr_write

  pub addr-Reads : (a : Addr) → IsWire a → Returns (lisp_addr_write a) (Reads a)
  addr-Reads no_addr h = (0 ∷ 0 ∷ [], refl, none-Reads)
  addr-Reads (ip unspec) h = absurd h
  addr-Reads (ip (v4 n)) h = (_, refl, v4-Reads n h)
  addr-Reads (ip (v6 n)) h = (_, refl, v6-Reads n h)
  addr-Reads (ippref a n) h = absurd h
  addr-Reads (lcaf l) h = lcaf-Reads l h

  lcaf-Reads : (l : Lcaf) → IsWireLcaf l → Returns (lcaf_addr_write l) (Reads (lcaf l))
  lcaf-Reads (afi_list xs) h = absurd h
  lcaf-Reads (iid n m a) h = absurd h
  lcaf-Reads (mc s g n a b) (small, fits, ha, hb) =
      let (v, ev, rv) = addr-Reads a ha in
      let (w, ew, rw_) = addr-Reads b hb in
      let read = mc-Reads s g n a b v w small (omega (arith, rv.size, rw_.size)) rv rw_ in
      (_, rw (ev, ew) refl, read)
  lcaf-Reads (elp ns) (fits, h) =
      let (w, e, r) = elp-Writes ns h in (_, rw (e) refl, elp-Reads ns w (omega (arith, r.size)) r)
  lcaf-Reads (rle ns) (fits, h) =
      let (w, e, r) = rle-Writes ns h in (_, rw (e) refl, rle-Reads ns w (omega (arith, r.size)) r)
  lcaf-Reads (other t) h = absurd h

  elp-Writes :
      (ns : ElpNodes)
      → IsWireElp ns
      → (w : Bytes) × (elp_type_write_to_pkt ns ≡ ok (some w)) × ReadsElp ns w
  elp-Writes end h = ([], refl, end-ReadsElp)
  elp-Writes (node l s p a ns) (ha, hs) =
      let (v, ev, rv) = addr-Reads a ha in
      let (w, ew, rs) = elp-Writes ns hs in
      let front = 0 ∷ (bit s + 2 * bit p + 4 * bit l) ∷ [] in
      (
        _,
        rw (ev, ew) (add_node-some front v w (omega (arith, rv.wrote))),
        node-ReadsElp l s p a ns v w rv rs,
      )

  rle-Writes :
      (ns : RleNodes)
      → IsWireRle ns
      → (w : Bytes) × (rle_type_write_to_pkt ns ≡ ok (some w)) × ReadsRle ns w
  rle-Writes none_left h = ([], refl, none_left-ReadsRle)
  rle-Writes (replica k a ns) (ha, hs) =
      let (v, ev, rv) = addr-Reads a ha in
      let (w, ew, rs) = rle-Writes ns hs in
      (
        _,
        rw (ev, ew) (add_node-some (0 ∷ 0 ∷ 0 ∷ k ∷ []) v w (omega (arith, rv.wrote))),
        replica-ReadsRle k a ns v w rv rs,
      )

-- An address of these is written into as many bytes as lisp_addr_size_to_write announces, at least
-- two, and lisp_addr_parse, on those bytes and whatever follows them, reads them all and gives the
-- address back.
pub lisp_addr_parse-write :
    (a : Addr) (rest : Bytes)
    → IsWire a
    → Returns (lisp_addr_write a) (λ w.
      (length w ≡ lisp_addr_size_to_write a)
      × (2 ≤ length w)
      × (lisp_addr_parse (w ++ rest) ≡ ok (length w, a)))
unfolding lisp_addr_parse
lisp_addr_parse-write a rest h =
    let (w, e, r) = addr-Reads a h in
    let both = length-append w rest in
    (w, e, (r.size, r.wrote, r.read (2 * length (w ++ rest) + 4) rest (omega (arith, both))))
