-- ===== src/Checksum.antt =====
-- lispd/lib/cksum.c: the Internet checksums. Memory is a list of bytes, and a 16-bit word is read from it as
-- the machine does, the low byte first; sums are 32 bits wide.
pub mod Sums
pub mod Rfc
mod Tests
use lispmob.Prelude.{
  ℕ, zero, suc, ◌+◌, ◌-◌, ◌*◌, ◌/◌, ◌%◌, ◌^◌, List, [], ◌∷◌, ◌++◌, leb, ◌==◌, if◌then◌else◌, length,
  Run, ok, fault, out_of_fuel, ◌>>=◌,
}
use lispmob.Address.{af_inet, af_inet6}
use lispmob.Wire.{Bytes, be}

abbrev pub word : ℕ → ℕ → ℕ
word a b = a + 256 * b

-- `~sum`, cut to 16 bits
abbrev pub complement : ℕ → ℕ
complement sum = 65535 - sum % 65536

unfoldable pub ip_sum : ℕ → Bytes → ℕ
ip_sum sum [] = sum
ip_sum sum (a ∷ []) = (sum + a) % 2 ^ 32
ip_sum sum (a ∷ b ∷ rest) = ip_sum ((sum + word a b) % 2 ^ 32) rest

unfoldable pub ip_checksum : Bytes → ℕ
unfolding ip_sum
ip_checksum buffer =
    let cksum = ip_sum 0 buffer in
    let folded = (cksum / 65536 + cksum % 65536) % 2 ^ 32 in
    complement ((folded + folded / 65536) % 2 ^ 32)

-- a sum whose highest bit is set is folded
abbrev pub fold_high : ℕ → ℕ
fold_high sum = if leb 2147483648 sum then (sum % 65536 + sum / 65536) % 2 ^ 32 else sum

unfoldable pub udp_sum : ℕ → Bytes → ℕ
udp_sum sum [] = sum
udp_sum sum (a ∷ []) = (sum + a) % 2 ^ 32
udp_sum sum (a ∷ b ∷ rest) = udp_sum (fold_high ((sum + word a b) % 2 ^ 32)) rest

-- the loop that adds the carries
unfoldable pub add_carries : ℕ → ℕ → Run ℕ
add_carries zero sum = fault out_of_fuel
add_carries (suc fuel) sum =
    let rest = add_carries fuel ((sum % 65536 + sum / 65536) % 2 ^ 32) in
    if sum / 65536 == 0 then ok sum else rest

-- Three rounds are enough for the carries of 32 bits.
abbrev pub carry_rounds : ℕ
carry_rounds = 3

unfoldable pub htons : ℕ → ℕ
htons n = word (n / 256 % 256) (n % 256)

-- the addresses of 4 bytes, as they are in the header
unfoldable pub udp_ipv4_checksum : Bytes → Bytes → Bytes → Run ℕ
unfolding udp_sum ip_sum add_carries htons
udp_ipv4_checksum buf src dst =
    let data_sum = udp_sum 0 buf in
    let addresses = ip_sum (ip_sum data_sum src) dst in
    let sum = ((addresses + htons 17) % 2 ^ 32 + htons (length buf)) % 2 ^ 32 in
    add_carries carry_rounds sum >>= (λ s. ok (complement s))

-- the addresses of 16 bytes, the length and the protocol
abbrev pub pseudo_header : Bytes → Bytes → ℕ → Bytes
pseudo_header src dst len = src ++ (dst ++ (be 4 len ++ (0 ∷ 0 ∷ 0 ∷ 17 ∷ [])))

unfoldable pub udp_ipv6_checksum : Bytes → Bytes → Bytes → Run ℕ
unfolding ip_sum add_carries be
udp_ipv6_checksum src dst buf =
    let sum = ip_sum (ip_sum 0 (pseudo_header src dst (length buf))) buf in
    add_carries carry_rounds sum >>= (λ s. ok (complement s))

-- another family is answered with -1, cut to 16 bits
unfoldable pub udp_checksum : Bytes → Bytes → Bytes → ℕ → Run ℕ
unfolding udp_ipv4_checksum udp_ipv6_checksum
udp_checksum buf src dst afi =
    if afi == af_inet
    then udp_ipv4_checksum buf src dst
    else if afi == af_inet6
    then udp_ipv6_checksum src dst buf
    else ok 65535
