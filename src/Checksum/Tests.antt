-- ===== src/Checksum/Tests.antt =====
-- lispd/lib/cksum.c: checksums of short packets.
use lispmob.Prelude.{◌≡◌, ◌-◌, refl, arith, [], ◌∷◌, ◌++◌, length, ok}
use lispmob.Address.{af_inet, af_inet6}
use lispmob.Wire.{Bytes}
use lispmob.Checksum.{ip_checksum, udp_checksum}
use lispmob.Checksum.Sums.{ones_sum, AreBytes}
use lispmob.Checksum.Rfc.{
  ipv6_header, ip_checksum-ones, ipv4_header, udp_checksum-ipv4, udp_checksum-ipv6,
}

-- a word and an odd byte
abbrev packet : Bytes
packet = 255 ∷ 255 ∷ 7 ∷ []

packet-AreBytes : AreBytes packet
packet-AreBytes = (omega arith, (omega arith, (omega arith, tt)))

ip_checksum-ones_example : ip_checksum packet ≡ 65535 - ones_sum 0 packet
ip_checksum-ones_example = ip_checksum-ones packet packet-AreBytes (omega arith)

-- 10.0.0.1
abbrev host : Bytes
host = 10 ∷ 0 ∷ 0 ∷ 1 ∷ []

host-AreBytes : AreBytes host
host-AreBytes = (omega arith, (omega arith, (omega arith, (omega arith, tt))))

udp_checksum-ipv4_example :
    udp_checksum packet host host af_inet
    ≡ ok (65535 - ones_sum 0 (ipv4_header host host (length packet) ++ packet))
udp_checksum-ipv4_example =
    udp_checksum-ipv4 packet host host packet-AreBytes host-AreBytes host-AreBytes refl refl
      (omega arith)

abbrev host6 : Bytes
host6 = 10 ∷ 0 ∷ 0 ∷ 1 ∷ 10 ∷ 0 ∷ 0 ∷ 1 ∷ 10 ∷ 0 ∷ 0 ∷ 1 ∷ 10 ∷ 0 ∷ 0 ∷ 1 ∷ []

host6-AreBytes : AreBytes host6
host6-AreBytes = ground arith

udp_checksum-ipv6_example :
    udp_checksum packet host6 host6 af_inet6
    ≡ ok (65535 - ones_sum 0 (ipv6_header host6 host6 (length packet) ++ packet))
udp_checksum-ipv6_example =
    udp_checksum-ipv6 packet host6 host6 packet-AreBytes host6-AreBytes host6-AreBytes refl refl
      (omega arith)
