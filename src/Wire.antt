-- ===== src/Wire.antt =====
-- lispd/liblisp/lisp_address.c, lisp_ip.c and lisp_lcaf.c: addresses on the wire. A packet is a list
-- of bytes, and what is written at a pointer is the list of the bytes from there on. A write returns
-- the number of its bytes, so one that returns 0 (BAD) is the empty list. The machine is little-endian.
pub mod Parse
pub mod Bytes
pub mod Reads
pub mod RoundTrip
pub mod Refused
mod Tests
use lispmob.Prelude.{
  ℕ, zero, suc, ◌+◌, ◌*◌, ◌/◌, ◌%◌, Bool, true, false, Option, none, some, List, [], ◌∷◌, ◌++◌,
  ◌==◌, if◌then◌else◌, length, Run, ok, fault, stray_write, ◌>>=◌,
}
use lispmob.Address.{
  Ip, unspec, v4, v6, Addr, no_addr, ip, ippref, lcaf, Lcaf, afi_list, iid, mc, elp, rle, other,
  Addrs, nil, cons, ElpNodes, end, node, RleNodes, none_left, replica, af_inet, af_inet6,
  ip_addr_afi,
}

abbrev pub Bytes : Type 0
Bytes = List ℕ

-- `n` in `k` bytes, the highest first; what does not fit is cut off
unfoldable pub be : ℕ → ℕ → Bytes
be zero n = []
be (suc k) n = be k (n / 256) ++ (n % 256 ∷ [])

abbrev pub lisp_afi_lcaf : ℕ
lisp_afi_lcaf = 16387

unfoldable pub ip_sock_to_iana_afi : ℕ → ℕ
ip_sock_to_iana_afi afi = if afi == af_inet then 1 else if afi == af_inet6 then 2 else 0

unfoldable pub ip_iana_to_sock_afi : ℕ → ℕ
ip_iana_to_sock_afi afi = if afi == 1 then af_inet else if afi == 2 then af_inet6 else 0

unfoldable pub ip_sock_afi_to_size : ℕ → ℕ
ip_sock_afi_to_size afi = if afi == af_inet then 4 else if afi == af_inet6 then 16 else 0

unfoldable pub ip_iana_afi_to_size : ℕ → ℕ
ip_iana_afi_to_size afi = if afi == 1 then 4 else if afi == 2 then 16 else 0

unfoldable pub ip_addr_get_iana_afi : Ip → ℕ
unfolding ip_sock_to_iana_afi
ip_addr_get_iana_afi a = ip_sock_to_iana_afi (ip_addr_afi a)

unfoldable pub ip_addr_get_size : Ip → ℕ
unfolding ip_sock_afi_to_size
ip_addr_get_size a = ip_sock_afi_to_size (ip_addr_afi a)

unfoldable pub ip_addr_get_size_to_write : Ip → ℕ
unfolding ip_addr_get_size
ip_addr_get_size_to_write a = ip_addr_get_size a + 2

-- the number of an address; `AF_UNSPEC` has none
abbrev pub ip_number : Ip → ℕ
ip_number unspec = 0
ip_number (v4 n) = n
ip_number (v6 n) = n

-- called without conversion only
unfoldable pub ip_addr_write_to_pkt : Ip → Bytes
unfolding ip_addr_get_iana_afi ip_addr_get_size be
ip_addr_write_to_pkt a = be 2 (ip_addr_get_iana_afi a) ++ be (ip_addr_get_size a) (ip_number a)

abbrev pub iid_type_get_size_to_write : ℕ → ℕ
iid_type_get_size_to_write size = 12 + size

abbrev pub mc_type_get_size_to_write : ℕ → ℕ → ℕ
mc_type_get_size_to_write src grp = 16 + src + grp

unfoldable mutual
  unfolding ip_addr_get_size_to_write

  pub lisp_addr_size_to_write : Addr → ℕ
  lisp_addr_size_to_write no_addr = 2
  lisp_addr_size_to_write (ip a) = ip_addr_get_size_to_write a
  lisp_addr_size_to_write (ippref a n) = ip_addr_get_size_to_write a
  lisp_addr_size_to_write (lcaf l) = lcaf_addr_get_size_to_write l

  pub lcaf_addr_get_size_to_write : Lcaf → ℕ
  lcaf_addr_get_size_to_write (afi_list xs) = 8 + afi_list_type_get_size_to_write xs
  lcaf_addr_get_size_to_write (iid n m a) = iid_type_get_size_to_write (lisp_addr_size_to_write a)
  lcaf_addr_get_size_to_write (mc s g n a b) =
      mc_type_get_size_to_write (lisp_addr_size_to_write a) (lisp_addr_size_to_write b)
  lcaf_addr_get_size_to_write (elp ns) = 8 + elp_type_get_size_to_write ns
  lcaf_addr_get_size_to_write (rle ns) = 8 + rle_type_get_size_to_write ns
  lcaf_addr_get_size_to_write (other t) = 0

  -- the loops, from the end of the header on
  pub afi_list_type_get_size_to_write : Addrs → ℕ
  afi_list_type_get_size_to_write nil = 0
  afi_list_type_get_size_to_write (cons a xs) =
      lisp_addr_size_to_write a + afi_list_type_get_size_to_write xs

  pub elp_type_get_size_to_write : ElpNodes → ℕ
  elp_type_get_size_to_write end = 0
  elp_type_get_size_to_write (node l s p a ns) =
      2 + lisp_addr_size_to_write a + elp_type_get_size_to_write ns

  pub rle_type_get_size_to_write : RleNodes → ℕ
  rle_type_get_size_to_write none_left = 0
  rle_type_get_size_to_write (replica k a ns) =
      4 + lisp_addr_size_to_write a + rle_type_get_size_to_write ns

-- `lcaf_hdr_t`: the AFI, two bytes of 0, the type, `x` and the length
abbrev pub lcaf_hdr : ℕ → ℕ → ℕ → Bytes
lcaf_hdr type x len = 64 ∷ 3 ∷ 0 ∷ 0 ∷ type ∷ x ∷ be 2 len

-- an instance id, on what `lisp_addr_write` makes of its address
abbrev pub iid_type_write_to_pkt : ℕ → ℕ → ℕ → Bytes → Bytes
iid_type_write_to_pkt n m size w = lcaf_hdr 2 m size ++ (be 4 n ++ w)

-- multicast information, on what `lisp_addr_write` makes of source and group
abbrev pub mc_type_write_to_pkt : ℕ → ℕ → ℕ → Bytes → Bytes → Bytes
mc_type_write_to_pkt s g n v w =
    lcaf_hdr 9 0 (length v + length w + 8) ++ (be 4 n ++ (0 ∷ 0 ∷ s ∷ g ∷ (v ++ w)))

-- what follows the header, with the length that it has
abbrev pub with_hdr : ℕ → Option Bytes → Bytes
with_hdr type none = []
with_hdr type (some body) = lcaf_hdr type 0 (length body) ++ body

abbrev pub bit : Bool → ℕ
bit true = 1
bit false = 0

abbrev pub append_to : Bytes → Option Bytes → Option Bytes
append_to front none = none
append_to front (some rest) = some (front ++ rest)

-- One round of a loop over nodes: the fixed bytes and the address of a node, before what the rounds
-- after it write. It is left with BAD if the address wrote nothing.
abbrev pub add_node : Bytes → Bytes → Run (Option Bytes) → Run (Option Bytes)
add_node fixed [] rest = ok none
add_node fixed (b ∷ bs) rest = rest >>= (λ o. ok (append_to (fixed ++ b ∷ bs) o))

-- An AFI list writes its length not into the header but six bytes behind its last address, behind the
-- bytes of the address, be it inside the buffer or not.
abbrev pub misplaced_length : Option Bytes → Run Bytes
misplaced_length none = ok []
misplaced_length (some body) = fault stray_write

unfoldable mutual
  unfolding ip_addr_write_to_pkt be lcaf_addr_get_size_to_write

  pub lisp_addr_write : Addr → Run Bytes
  lisp_addr_write no_addr = ok (0 ∷ 0 ∷ [])
  lisp_addr_write (ip a) = ok (ip_addr_write_to_pkt a)
  lisp_addr_write (ippref a n) = ok (ip_addr_write_to_pkt a)
  lisp_addr_write (lcaf l) = lcaf_addr_write l

  pub lcaf_addr_write : Lcaf → Run Bytes
  lcaf_addr_write (afi_list xs) = afi_list_type_write_to_pkt xs >>= (λ o. misplaced_length o)
  lcaf_addr_write (iid n m a) =
      lisp_addr_write a
      >>= (λ w. ok (iid_type_write_to_pkt n m (lcaf_addr_get_size_to_write (iid n m a)) w))
  lcaf_addr_write (mc s g n a b) =
      lisp_addr_write a >>= (λ v. lisp_addr_write b >>= (λ w. ok (mc_type_write_to_pkt s g n v w)))
  lcaf_addr_write (elp ns) = elp_type_write_to_pkt ns >>= (λ o. ok (with_hdr 10 o))
  lcaf_addr_write (rle ns) = rle_type_write_to_pkt ns >>= (λ o. ok (with_hdr 13 o))
  lcaf_addr_write (other t) = ok []

  pub afi_list_type_write_to_pkt : Addrs → Run (Option Bytes)
  afi_list_type_write_to_pkt nil = ok (some [])
  afi_list_type_write_to_pkt (cons a xs) =
      lisp_addr_write a >>= (λ w. add_node [] w (afi_list_type_write_to_pkt xs))

  pub elp_type_write_to_pkt : ElpNodes → Run (Option Bytes)
  elp_type_write_to_pkt end = ok (some [])
  elp_type_write_to_pkt (node l s p a ns) =
      lisp_addr_write a
      >>= (λ w. add_node (0 ∷ (bit s + 2 * bit p + 4 * bit l) ∷ []) w (elp_type_write_to_pkt ns))

  pub rle_type_write_to_pkt : RleNodes → Run (Option Bytes)
  rle_type_write_to_pkt none_left = ok (some [])
  rle_type_write_to_pkt (replica k a ns) =
      lisp_addr_write a >>= (λ w. add_node (0 ∷ 0 ∷ 0 ∷ k ∷ []) w (rle_type_write_to_pkt ns))
