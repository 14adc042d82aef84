-- ===== src/Prefixes.antt =====
-- lispd/lib/prefixes.c, with the prefix lengths of lispd/liblisp/lisp_address.c: the network that a prefix
-- stands for, and which prefix holds another. An IPv6 address is four words of 32 bits, the first
-- one the highest, and a shift by a negative count is a fault.
pub mod Mask
pub mod Part
mod Tests
use lispmob.Prelude.{
  ℕ, zero, suc, ◌+◌, ◌-◌, ◌*◌, ◌/◌, ◌%◌, ◌^◌, min, Bool, true, false, not, ◌&&◌, ◌||◌, Option, none,
  some, ltb, leb, ◌==◌, if◌then◌else◌, Run, ok, fault, out_of_bounds, null_pointer, bad_shift,
  ◌>>=◌,
}
use lispmob.Address.{
  Ip, unspec, v4, v6, Addr, no_addr, ip, ippref, lcaf, ip_addr_afi, lisp_addr_ip_afi, lisp_addr_cmp,
  is_equal, af_inet, af_inet6,
}

abbrev pub word_mod : ℕ
word_mod = 2 ^ 32

abbrev pub all_ones : ℕ
all_ones = 4294967295

-- `a & b` on words of `w` bits
unfoldable pub band : ℕ → ℕ → ℕ → ℕ
band zero a b = 0
band (suc w) a b = band w (a / 2) (b / 2) * 2 + min (a % 2) (b % 2)

unfoldable pub ip_afi_to_default_mask : ℕ → ℕ
ip_afi_to_default_mask afi = if afi == af_inet then 32 else if afi == af_inet6 then 128 else 0

unfoldable pub ip_addr_afi_to_default_mask : Ip → ℕ
unfolding ip_afi_to_default_mask
ip_addr_afi_to_default_mask a = ip_afi_to_default_mask (ip_addr_afi a)

unfoldable pub lisp_addr_is_ip_pref : Addr → Bool
lisp_addr_is_ip_pref (ippref a n) = true
lisp_addr_is_ip_pref _ = false

unfoldable pub lisp_addr_get_plen : Addr → ℕ
lisp_addr_get_plen (ip a) = ip_addr_afi_to_default_mask a
lisp_addr_get_plen (ippref a n) = n
lisp_addr_get_plen _ = 0

-- the length is stored in 8 bits
unfoldable pub lisp_addr_set_plen : Addr → ℕ → Addr
lisp_addr_set_plen (ip a) n = ippref a (n % 256)
lisp_addr_set_plen (ippref a m) n = ippref a (n % 256)
lisp_addr_set_plen a n = a

unfoldable pub lisp_addr_ip_to_ippref : Addr → Addr
lisp_addr_ip_to_ippref (ip a) = ippref a (ip_addr_afi_to_default_mask a)
lisp_addr_ip_to_ippref (ippref a n) = ippref a (ip_addr_afi_to_default_mask a)
lisp_addr_ip_to_ippref a = a

-- `0xFFFFFFFF << count`
unfoldable pub ones_above : ℕ → ℕ
ones_above count = (all_ones * 2 ^ count) % word_mod

unfoldable pub pref_get_network_address_v4 : ℕ → ℕ → Run Addr
unfolding ones_above
pref_get_network_address_v4 a n =
    if n == 0
    then ok (ip (v4 (band 32 a 0)))
    else if leb n 32
    then ok (ip (v4 (band 32 a (ones_above (32 - n)))))
    else fault bad_shift

-- `mask[i]` for a prefix of `n` bits
unfoldable pub mask_word : ℕ → ℕ → ℕ
unfolding ones_above
mask_word n i =
    if ltb i (n / 32)
    then all_ones
    else if i == n / 32 && not (n % 32 == 0)
    then ones_above (32 - n % 32)
    else 0

-- word `i` of the network address
unfoldable pub network_word : ℕ → ℕ → ℕ → ℕ
unfolding mask_word
network_word a n i = band 32 (a / 2 ^ (32 * (3 - i)) % word_mod) (mask_word n i)

-- The masks of a prefix longer than 128 bits do not fit the array.
unfoldable pub pref_get_network_address_v6 : ℕ → ℕ → Run Addr
unfolding network_word
pref_get_network_address_v6 a n =
    if leb n 128
    then ok (
        ip (
          v6 (
            ((network_word a n 0 * word_mod + network_word a n 1) * word_mod + network_word a n 2)
              * word_mod
            + network_word a n 3)))
    else fault out_of_bounds

-- `none` is NULL
unfoldable pub pref_get_network_address : Addr → Run (Option Addr)
unfolding pref_get_network_address_v4 pref_get_network_address_v6
pref_get_network_address (ippref (v4 a) n) = pref_get_network_address_v4 a n >>= (λ r. ok (some r))
pref_get_network_address (ippref (v6 a) n) = pref_get_network_address_v6 a n >>= (λ r. ok (some r))
pref_get_network_address _ = ok none

unfoldable pub pref_get_network_prefix : Addr → Run (Option Addr)
unfolding pref_get_network_address lisp_addr_set_plen
pref_get_network_prefix a = pref_get_network_address a >>= (λ r. elim r [
  | none ↦ ok none
  | some x ↦ ok (some (lisp_addr_set_plen x (lisp_addr_get_plen a)))
])

-- `lisp_addr_cmp` answers -1 for NULL
unfoldable pub same_network : Option Addr → Option Addr → Bool
same_network (some x) (some y) = is_equal (lisp_addr_cmp x y)
same_network _ _ = false

-- The answer, and the prefix `b`, whose length is changed and set back.
unfoldable pub pref_is_prefix_b_part_of_a : Addr → Addr → Run (Bool × Addr)
unfolding pref_get_network_address lisp_addr_set_plen same_network
pref_is_prefix_b_part_of_a a b =
    if not (lisp_addr_is_ip_pref a) || not (lisp_addr_is_ip_pref b)
    then ok (false, b)
    else if not (lisp_addr_ip_afi a == lisp_addr_ip_afi b)
    then ok (false, b)
    else if ltb (lisp_addr_get_plen b) (lisp_addr_get_plen a)
    then ok (false, b)
    else (let b' = lisp_addr_set_plen b (lisp_addr_get_plen a) in
        pref_get_network_address a >>= (λ x.
          pref_get_network_address b'
          >>= (λ y. ok (same_network x y, lisp_addr_set_plen b' (lisp_addr_get_plen b)))))
