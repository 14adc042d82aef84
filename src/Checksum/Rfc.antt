-- ===== src/Checksum/Rfc.antt =====
-- lispd/lib/cksum.c: the checksums are those of RFC 1071, RFC 768 and RFC 2460.
use lispmob.Prelude.{
  ℕ, zero, suc, ◌+◌, ◌-◌, ◌/◌, ◌%◌, ◌^◌, ◌<◌, ◌≤◌, ◌≡◌, sym, ap, ◌∙◌, arith, [], ◌∷◌, ◌++◌, length,
  length-append, ok, ◌>>=◌,
}
use lispmob.Address.{af_inet, af_inet6}
use lispmob.Wire.{Bytes, be}
use lispmob.Wire.Bytes.{length-be}
use lispmob.Checksum.{
  complement, ip_sum, ip_checksum, udp_sum, add_carries, carry_rounds, htons, udp_ipv4_checksum,
  udp_ipv6_checksum, udp_checksum,
}
use lispmob.Checksum.Sums.{
  ones_sum, total, canon, AreBytes, canon-small, canon-congruent, ip_sum-total, total-bound,
  ones_sum-canon, udp_sum-canon, add_carries-canon, total-append,
}

canon-range : (s : ℕ) → canon s < 65536
unfolding canon
canon-range s = ground arith

complement-canon : (s : ℕ) → complement (canon s) ≡ 65535 - canon s
complement-canon s = let fits = canon-range s in omega arith

folded_twice :
    (s : ℕ)
    → s < 2 ^ 32
    → complement
        (((s / 65536 + s % 65536) % 2 ^ 32 + (s / 65536 + s % 65536) % 2 ^ 32 / 65536) % 2 ^ 32)
      ≡ 65535 - canon s
unfolding canon
folded_twice s h = ground arith

sum-canon : (bs : Bytes) → AreBytes bs → ones_sum 0 bs ≡ canon (total bs)
sum-canon bs h =
    ap (λ s. ones_sum s bs) (sym (canon-small 0 (omega arith)))
    ∙ ones_sum-canon 0 bs h
    ∙ ap canon (omega arith)

append-AreBytes : (xs ys : Bytes) → AreBytes xs → AreBytes ys → AreBytes (xs ++ ys)
append-AreBytes [] ys hx hy = hy
append-AreBytes (x ∷ xs) ys (first, hx) hy = (first, append-AreBytes xs ys hx hy)

be-AreBytes : (k n : ℕ) → AreBytes (be k n)
unfolding be
be-AreBytes zero n = tt
be-AreBytes (suc k) n =
    append-AreBytes (be k (n / 256)) (n % 256 ∷ []) (be-AreBytes k (n / 256)) (omega arith, tt)

-- with the carries added and complemented
finished :
    (s t : ℕ)
    → s < 2 ^ 32
    → canon s ≡ canon t
    → (add_carries carry_rounds s >>= (λ r. ok (complement r))) ≡ ok (65535 - canon t)
finished s t fits same =
    ap (λ r. r >>= (λ c. ok (complement c))) (add_carries-canon s fits ∙ ap ok same)
    ∙ ap ok (complement-canon t)

-- The checksum of up to 65536 bytes is the complement of the ones' complement sum of their words.
pub ip_checksum-ones :
    (buffer : Bytes)
    → AreBytes buffer
    → length buffer ≤ 65536
    → ip_checksum buffer ≡ 65535 - ones_sum 0 buffer
unfolding ip_checksum
ip_checksum-ones buffer h fits =
    let bound = total-bound buffer h in
    let all : ip_sum 0 buffer ≡ total buffer = ip_sum-total 0 buffer (omega arith) ∙ omega arith in
    rw (all)
      (folded_twice (total buffer) (omega arith) ∙ ap (λ s. 65535 - s) (sym (sum-canon buffer h)))

-- what stands before the datagram in the sum of RFC 768
abbrev pub ipv4_header : Bytes → Bytes → ℕ → Bytes
ipv4_header src dst len = src ++ (dst ++ (0 ∷ 17 ∷ be 2 len))

total-be : (n : ℕ) → n < 65536 → total (be 2 n) ≡ htons n
unfolding be total htons
total-be n h = omega arith

total-ipv4_header :
    (src dst : Bytes) (n : ℕ)
    → length src ≡ 4
    → length dst ≡ 4
    → n < 65536
    → (total (ipv4_header src dst n) ≡ total src + (total dst + (htons 17 + htons n)))
      × (length (ipv4_header src dst n) ≡ 12)
unfolding total htons
total-ipv4_header src dst n hs hd fits =
    let one = total-append src (dst ++ (0 ∷ 17 ∷ be 2 n)) (omega arith) in
    let two = total-append dst (0 ∷ 17 ∷ be 2 n) (omega arith) in
    let three = total-be n fits in
    let a = length-append src (dst ++ (0 ∷ 17 ∷ be 2 n)) in
    let b = length-append dst (0 ∷ 17 ∷ be 2 n) in
    let c = length-be 2 n in (omega arith, omega arith)

ipv4_header-AreBytes :
    (src dst : Bytes) (n : ℕ) → AreBytes src → AreBytes dst → AreBytes (ipv4_header src dst n)
ipv4_header-AreBytes src dst n hs hd =
    append-AreBytes src (dst ++ (0 ∷ 17 ∷ be 2 n)) hs
      (append-AreBytes dst (0 ∷ 17 ∷ be 2 n) hd (omega arith, (omega arith, be-AreBytes 2 n)))

htons-range : (n : ℕ) → htons n < 65536
unfolding htons
htons-range n = omega arith

-- For IPv4 addresses of 4 bytes, the checksum of a datagram of less than 65536 bytes is the complement
-- of the ones' complement sum of the pseudo-header and the datagram.
pub udp_checksum-ipv4 :
    (buf src dst : Bytes)
    → AreBytes buf
    → AreBytes src
    → AreBytes dst
    → length src ≡ 4
    → length dst ≡ 4
    → length buf < 65536
    → udp_checksum buf src dst af_inet
      ≡ ok (65535 - ones_sum 0 (ipv4_header src dst (length buf) ++ buf))
unfolding udp_checksum udp_ipv4_checksum
udp_checksum-ipv4 buf src dst hb hs hd four four_too fits =
    let (header, even) = total-ipv4_header src dst (length buf) four four_too fits in
    let whole = total-append (ipv4_header src dst (length buf)) buf (omega arith) in
    let (low, data_sum) = udp_sum-canon 0 buf hb (omega arith) in
    let d = total src + (total dst + (htons 17 + htons (length buf))) in
    let bound_src = total-bound src hs in
    let bound_dst = total-bound dst hd in
    let small = htons-range (length buf) in
    let small_too = htons-range 17 in
    let u = udp_sum 0 buf in
    let first : ip_sum u src ≡ u + total src = ip_sum-total u src (omega arith) in
    let both : ip_sum (ip_sum u src) dst ≡ u + total src + total dst =
      ap (λ s. ip_sum s dst) first ∙ ip_sum-total (u + total src) dst (omega arith) in
    let sum = ((ip_sum (ip_sum u src) dst + htons 17) % 2 ^ 32 + htons (length buf)) % 2 ^ 32 in
    let added : sum ≡ u + d = omega arith in
    let bytes =
      append-AreBytes (ipv4_header src dst (length buf)) buf
        (ipv4_header-AreBytes src dst (length buf) hs hd) hb in
    finished sum (total (ipv4_header src dst (length buf) ++ buf)) (omega arith)
      (ap canon added ∙ canon-congruent u (0 + total buf) d data_sum ∙ ap canon (omega arith))
    ∙ ap (λ s. ok (65535 - s)) (sym (sum-canon (ipv4_header src dst (length buf) ++ buf) bytes))

-- what stands before the datagram in the sum of RFC 2460
abbrev pub ipv6_header : Bytes → Bytes → ℕ → Bytes
ipv6_header src dst len = src ++ (dst ++ (be 4 len ++ (0 ∷ 0 ∷ 0 ∷ 17 ∷ [])))

length-ipv6_header :
    (src dst : Bytes) (n : ℕ)
    → length src ≡ 16
    → length dst ≡ 16
    → length (ipv6_header src dst n) ≡ 40
length-ipv6_header src dst n hs hd =
    let tail : Bytes = 0 ∷ 0 ∷ 0 ∷ 17 ∷ [] in
    let a = length-append src (dst ++ (be 4 n ++ tail)) in
    let b = length-append dst (be 4 n ++ tail) in
    let c = length-append (be 4 n) tail in let d = length-be 4 n in omega arith

ipv6_header-AreBytes :
    (src dst : Bytes) (n : ℕ) → AreBytes src → AreBytes dst → AreBytes (ipv6_header src dst n)
ipv6_header-AreBytes src dst n hs hd =
    let tail : Bytes = 0 ∷ 0 ∷ 0 ∷ 17 ∷ [] in
    append-AreBytes src (dst ++ (be 4 n ++ tail)) hs (
      append-AreBytes dst (be 4 n ++ tail) hd (
        append-AreBytes (be 4 n) tail (be-AreBytes 4 n)
          (omega arith, (omega arith, (omega arith, (omega arith, tt))))))

-- For IPv6 addresses of 16 bytes, the checksum of a datagram of less than 65536 bytes is the
-- complement of the ones' complement sum of the pseudo-header and the datagram.
pub udp_checksum-ipv6 :
    (buf src dst : Bytes)
    → AreBytes buf
    → AreBytes src
    → AreBytes dst
    → length src ≡ 16
    → length dst ≡ 16
    → length buf < 65536
    → udp_checksum buf src dst af_inet6
      ≡ ok (65535 - ones_sum 0 (ipv6_header src dst (length buf) ++ buf))
unfolding udp_checksum udp_ipv6_checksum
udp_checksum-ipv6 buf src dst hb hs hd sixteen sixteen_too fits =
    let front = ipv6_header src dst (length buf) in
    let even : length front ≡ 40 = length-ipv6_header src dst (length buf) sixteen sixteen_too in
    let whole = total-append front buf (omega arith) in
    let front_bytes = ipv6_header-AreBytes src dst (length buf) hs hd in
    let bound_front = total-bound front front_bytes in
    let bound_buf = total-bound buf hb in
    let first : ip_sum 0 front ≡ total front = ip_sum-total 0 front (omega arith) ∙ omega arith in
    let both : ip_sum (ip_sum 0 front) buf ≡ total front + total buf =
      ap (λ s. ip_sum s buf) first ∙ ip_sum-total (total front) buf (omega arith) in
    finished (ip_sum (ip_sum 0 front) buf) (total (front ++ buf)) (omega arith)
      (ap canon (omega arith))
    ∙ ap (λ s. ok (65535 - s))
        (sym (sum-canon (front ++ buf) (append-AreBytes front buf front_bytes hb)))
