-- ===== src/Wire/Reads.antt =====
-- lispd/liblisp/lisp_ip.c and lisp_lcaf.c: what each parser reads of the bytes of one address.
use mathlib.Core.List.{append_assoc}
use lispmob.Prelude.{
  ℕ, zero, suc, ◌+◌, ◌-◌, ◌*◌, ◌/◌, ◌%◌, ◌^◌, ◌<◌, ◌≤◌, ◌≡◌, refl, ap, arith, Bool, true, false,
  some, [], ◌∷◌, ◌++◌, length, length-append, drop-append, ok, ◌==◌, ne→==, eq→==, ◌>>=◌,
}
use lispmob.Address.{
  v4, v6, Addr, no_addr, ip, lcaf, mc, elp, rle, ElpNodes, end, node, RleNodes, none_left, replica,
  ip_addr_afi,
}
use lispmob.Wire.{
  Bytes, be, bit, lcaf_hdr, with_hdr, lisp_addr_size_to_write, elp_type_get_size_to_write,
  rle_type_get_size_to_write, ip_addr_get_size_to_write, ip_addr_get_size, ip_sock_afi_to_size,
  ip_sock_to_iana_afi, ip_addr_get_iana_afi, ip_iana_afi_to_size, ip_addr_write_to_pkt,
}
use lispmob.Wire.Parse.{parse_addr, parse_elp, parse_rle, ip_addr_parse}
use lispmob.Wire.Bytes.{read_be-be, bits}

-- What the parsers make of the bytes `w`, whatever follows them.
pub record Reads (a : Addr) (w : Bytes) : Type 0 where
  pub size : length w ≡ lisp_addr_size_to_write a
  pub wrote : 2 ≤ length w
  pub read :
      (fuel : ℕ) (rest : Bytes)
      → 2 * length w ≤ fuel
      → parse_addr fuel (w ++ rest) ≡ ok (length w, a)

pub record ReadsElp (ns : ElpNodes) (w : Bytes) : Type 0 where
  pub size : length w ≡ elp_type_get_size_to_write ns
  pub read :
      (fuel : ℕ) (rest : Bytes)
      → 2 * length w + 1 ≤ fuel
      → parse_elp fuel (length w) (w ++ rest) ≡ ok (some (length w, ns))

pub record ReadsRle (ns : RleNodes) (w : Bytes) : Type 0 where
  pub size : length w ≡ rle_type_get_size_to_write ns
  pub read :
      (fuel : ℕ) (rest : Bytes)
      → 2 * length w + 1 ≤ fuel
      → parse_rle fuel (length w) (w ++ rest) ≡ ok (some (length w, ns))

one_more : (n : ℕ) → 1 ≤ n → (m : ℕ) × (n ≡ suc m)
one_more zero h = absurd (omega arith)
one_more (suc m) h = (m, refl)

pub three_more : (n : ℕ) → 3 ≤ n → (m : ℕ) × (n ≡ suc (suc (suc m)))
three_more n h = (n - 3, omega arith)

pub none-Reads : Reads no_addr (0 ∷ 0 ∷ [])
unfolding lisp_addr_size_to_write parse_addr
none-Reads = record {
  size = refl;
  wrote = omega arith;
  read = λ fuel rest h. let (f, e) = one_more fuel (omega arith) in rw (e, parse_addr) refl;
}

pub v4-Reads : (n : ℕ) → n < 256 ^ 4 → Reads (ip (v4 n)) (ip_addr_write_to_pkt (v4 n))
unfolding lisp_addr_size_to_write ip_addr_get_size_to_write ip_addr_get_size ip_sock_afi_to_size
    ip_addr_afi ip_addr_write_to_pkt ip_addr_get_iana_afi ip_sock_to_iana_afi be parse_addr
    ip_addr_parse ip_iana_afi_to_size
v4-Reads n h = record {
  size = refl;
  wrote = omega arith;
  read = λ fuel rest enough.
      let (f, e) = one_more fuel (omega arith) in
      let same = read_be-be 4 n rest h in rw e (ap (λ r. r >>= (λ m. ok (6, ip (v4 m)))) same);
}

pub v6-Reads : (n : ℕ) → n < 256 ^ 16 → Reads (ip (v6 n)) (ip_addr_write_to_pkt (v6 n))
unfolding lisp_addr_size_to_write ip_addr_get_size_to_write ip_addr_get_size ip_sock_afi_to_size
    ip_addr_afi ip_addr_write_to_pkt ip_addr_get_iana_afi ip_sock_to_iana_afi be parse_addr
    ip_addr_parse ip_iana_afi_to_size
v6-Reads n h = record {
  size = refl;
  wrote = omega arith;
  read = λ fuel rest enough.
      let (f, e) = one_more fuel (omega arith) in
      let same = read_be-be 16 n rest h in rw e (ap (λ r. r >>= (λ m. ok (18, ip (v6 m)))) same);
}

pub two_bytes : (n : ℕ) → n < 65536 → n / 256 % 256 * 256 + n % 256 ≡ n
two_bytes n h = omega arith

four_bytes :
    (n : ℕ)
    → n < 256 ^ 4
    → (((0 * 256 + n / 256 / 256 / 256 % 256) * 256 + n / 256 / 256 % 256) * 256 + n / 256 % 256)
          * 256
        + n % 256
      ≡ n
four_bytes n h = omega arith

pub elp-Reads :
    (ns : ElpNodes) (w : Bytes)
    → length w < 65536
    → ReadsElp ns w
    → Reads (lcaf (elp ns)) (with_hdr 10 (some w))
unfolding lisp_addr_size_to_write be parse_addr
elp-Reads ns w fits r = record {
  size = omega (arith, r.size);
  wrote = omega arith;
  read = λ fuel rest enough.
      let (f, e) = three_more fuel (omega arith) in
      let len = two_bytes (length w) fits in
      let nodes = r.read f rest (omega arith) in
      let whole : (length w + 8 == length w + 8) ≡ true = eq→== _ _ refl in
      let all : length w + 8 ≡ suc (suc (suc (suc (suc (suc (suc (suc (length w)))))))) =
        omega arith in
      rw (e, parse_addr, len, nodes, whole, all) refl;
}

pub rle-Reads :
    (ns : RleNodes) (w : Bytes)
    → length w < 65536
    → ReadsRle ns w
    → Reads (lcaf (rle ns)) (with_hdr 13 (some w))
unfolding lisp_addr_size_to_write be parse_addr
rle-Reads ns w fits r = record {
  size = omega (arith, r.size);
  wrote = omega arith;
  read = λ fuel rest enough.
      let (f, e) = three_more fuel (omega arith) in
      let len = two_bytes (length w) fits in
      let nodes = r.read f rest (omega arith) in
      let whole : (length w + 8 == length w + 8) ≡ true = eq→== _ _ refl in
      let all : length w + 8 ≡ suc (suc (suc (suc (suc (suc (suc (suc (length w)))))))) =
        omega arith in
      rw (e, parse_addr, len, nodes, whole, all) refl;
}

pub end-ReadsElp : ReadsElp end []
unfolding elp_type_get_size_to_write parse_elp
end-ReadsElp = record {
  size = refl;
  read = λ fuel rest h. let (f, e) = one_more fuel (omega arith) in rw (e, parse_elp) refl;
}

pub node-ReadsElp :
    (l s p : Bool) (a : Addr) (ns : ElpNodes) (v w : Bytes)
    → Reads a v
    → ReadsElp ns w
    → ReadsElp (node l s p a ns) (0 ∷ (bit s + 2 * bit p + 4 * bit l) ∷ (v ++ w))
unfolding elp_type_get_size_to_write parse_elp
node-ReadsElp l s p a ns v w ra rn =
    let both = length-append v w in
    record {
      size = omega (arith, ra.size, rn.size, both);
      read = λ fuel rest enough.
          let (f, e) = one_more fuel (omega arith) in
          let addr = ra.read f (w ++ rest) (omega (arith, both)) in
          let nodes = rn.read f rest (omega (arith, both)) in
          let more : (length v == 0) ≡ false = ne→== _ _ (omega (arith, ra.wrote)) in
          let left : (suc (suc (length (v ++ w))) == 0) ≡ false = ne→== _ _ (omega arith) in
          let rest_len : suc (suc (length (v ++ w))) - 2 - length v ≡ length w =
            omega (arith, both) in
          let sum : 2 + length v + length w ≡ suc (suc (length (v ++ w))) = omega (arith, both) in
          let (b4, b1, b2) = bits l s p in
          rw
            (
              e,
              parse_elp,
              left,
              append_assoc,
              addr,
              more,
              drop-append v,
              rest_len,
              nodes,
              b4,
              b1,
              b2,
              sum,
            )
            refl;
    }

pub none_left-ReadsRle : ReadsRle none_left []
unfolding rle_type_get_size_to_write parse_rle
none_left-ReadsRle = record {
  size = refl;
  read = λ fuel rest h. let (f, e) = one_more fuel (omega arith) in rw (e, parse_rle) refl;
}

pub replica-ReadsRle :
    (k : ℕ) (a : Addr) (ns : RleNodes) (v w : Bytes)
    → Reads a v
    → ReadsRle ns w
    → ReadsRle (replica k a ns) (0 ∷ 0 ∷ 0 ∷ k ∷ (v ++ w))
unfolding rle_type_get_size_to_write parse_rle
replica-ReadsRle k a ns v w ra rn =
    let both = length-append v w in
    record {
      size = omega (arith, ra.size, rn.size, both);
      read = λ fuel rest enough.
          let (f, e) = one_more fuel (omega arith) in
          let addr = ra.read f (w ++ rest) (omega (arith, both)) in
          let nodes = rn.read f rest (omega (arith, both)) in
          let more : (length v == 0) ≡ false = ne→== _ _ (omega (arith, ra.wrote)) in
          let len = suc (suc (suc (suc (length (v ++ w))))) in
          let left : (len == 0) ≡ false = ne→== _ _ (omega arith) in
          let rest_len : len - 4 - length v ≡ length w = omega (arith, both) in
          let sum : 4 + length v + length w ≡ len = omega (arith, both) in
          rw (e, parse_rle, left, append_assoc, addr, more, drop-append v, rest_len, nodes, sum)
            refl;
    }

pub mc-Reads :
    (s g n : ℕ) (a b : Addr) (v w : Bytes)
    → n < 256 ^ 4
    → length v + length w + 8 < 65536
    → Reads a v
    → Reads b w
    → Reads
        (lcaf (mc s g n a b))
        (lcaf_hdr 9 0 (length v + length w + 8) ++ (be 4 n ++ (0 ∷ 0 ∷ s ∷ g ∷ (v ++ w))))
unfolding lisp_addr_size_to_write be parse_addr
mc-Reads s g n a b v w small fits ra rb =
    let both = length-append v w in
    record {
      size = omega (arith, ra.size, rb.size, both);
      wrote = omega arith;
      read = λ fuel rest enough.
          let (f, e) = three_more fuel (omega arith) in
          let len = two_bytes (length v + length w + 8) fits in
          let src = ra.read f (w ++ rest) (omega (arith, both)) in
          let grp = rb.read f rest (omega (arith, both)) in
          let id = four_bytes n small in
          let whole : (16 + length v + length w == length v + length w + 8 + 8) ≡ true =
            eq→== _ _ (omega arith) in
          rw (e, parse_addr, append_assoc, id, src, drop-append v, grp, len, whole, both)
            (ap (λ x. ok (x, lcaf (mc s g n a b))) (omega arith));
    }
