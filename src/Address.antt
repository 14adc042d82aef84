-- ===== src/Address.antt =====
-- lispd/liblisp/lisp_address.c, lispd/liblisp/lisp_ip.c and the comparison and address lookup of
-- lispd/liblisp/lisp_lcaf.c: the address values of the control plane. The union of `lisp_addr_t` and its
-- tag `lafi` are one data type; an IP address is its big-endian number, so `memcmp` on the bytes is
-- the order of the numbers. `AF_UNSPEC` has no bytes.
pub mod Order
mod Tests
use lispmob.Prelude.{
  ℕ, ◌≡◌, Bool, true, false, Option, none, some, List, [], ◌∷◌, ltb, ◌==◌, if◌then◌else◌, ◌&&◌,
  ◌||◌, not,
}

-- `ip_addr_t`
pub data Ip : Type 0 where
  unspec : Ip
  v4 : ℕ → Ip
  v6 : ℕ → Ip

-- The results of the comparison functions: 0, 1, 2, -1 and -2.
pub data Cmp : Type 0 where
  equal bigger smaller different unsupported : Cmp

-- `lisp_addr_t`, `lcaf_addr_t` and the lists inside an LCAF. `other` is an LCAF of a type number
-- for which the tables of lisp_lcaf.c hold no comparison and no address lookup.
mutual
  pub data Addr : Type 0 where
    no_addr : Addr
    ip : Ip → Addr
    ippref : Ip → ℕ → Addr
    lcaf : Lcaf → Addr

  pub data Lcaf : Type 0 where
    afi_list : Addrs → Lcaf
    iid : ℕ → ℕ → Addr → Lcaf
    mc : ℕ → ℕ → ℕ → Addr → Addr → Lcaf
    elp : ElpNodes → Lcaf
    rle : RleNodes → Lcaf
    other : ℕ → Lcaf

  pub data Addrs : Type 0 where
    nil : Addrs
    cons : Addr → Addrs → Addrs

  pub data ElpNodes : Type 0 where
    end : ElpNodes
    node : Bool → Bool → Bool → Addr → ElpNodes → ElpNodes

  pub data RleNodes : Type 0 where
    none_left : RleNodes
    replica : ℕ → Addr → RleNodes → RleNodes

abbrev pub af_unspec : ℕ
af_unspec = 0

abbrev pub af_inet : ℕ
af_inet = 2

abbrev pub af_inet6 : ℕ
af_inet6 = 10

unfoldable pub ip_addr_afi : Ip → ℕ
ip_addr_afi unspec = af_unspec
ip_addr_afi (v4 a) = af_inet
ip_addr_afi (v6 a) = af_inet6

-- `lm_afi_t`
unfoldable pub lisp_addr_lafi : Addr → ℕ
lisp_addr_lafi no_addr = 0
lisp_addr_lafi (ip a) = 1
lisp_addr_lafi (ippref a n) = 2
lisp_addr_lafi (lcaf l) = 3

-- `lcaf_type_e`
unfoldable pub lcaf_type : Lcaf → ℕ
lcaf_type (afi_list xs) = 1
lcaf_type (iid n m a) = 2
lcaf_type (mc s g n a b) = 9
lcaf_type (elp ns) = 10
lcaf_type (rle ns) = 13
lcaf_type (other t) = t

unfoldable pub lisp_addr_is_no_addr : Addr → Bool
lisp_addr_is_no_addr no_addr = true
lisp_addr_is_no_addr _ = false

-- Anything but an address or a prefix answers 0.
unfoldable pub lisp_addr_ip_afi : Addr → ℕ
lisp_addr_ip_afi no_addr = 0
lisp_addr_ip_afi (ip a) = ip_addr_afi a
lisp_addr_ip_afi (ippref a n) = ip_addr_afi a
lisp_addr_ip_afi (lcaf l) = 0

unfoldable pub lisp_addr_ip_afi_lcaf_type : Addr → ℕ
lisp_addr_ip_afi_lcaf_type no_addr = 0
lisp_addr_ip_afi_lcaf_type (ip a) = ip_addr_afi a
lisp_addr_ip_afi_lcaf_type (ippref a n) = ip_addr_afi a
lisp_addr_ip_afi_lcaf_type (lcaf l) = lcaf_type l

unfoldable pub cmp_nat : ℕ → ℕ → Cmp
cmp_nat a b = if ltb b a then bigger else if ltb a b then smaller else equal

unfoldable pub ip_addr_cmp : Ip → Ip → Cmp
unfolding cmp_nat
ip_addr_cmp unspec unspec = equal
ip_addr_cmp (v4 a) (v4 b) = cmp_nat a b
ip_addr_cmp (v6 a) (v6 b) = cmp_nat a b
ip_addr_cmp _ _ = different

unfoldable pub lisp_addr_cmp_afi : Addr → Addr → Cmp
unfolding lisp_addr_lafi cmp_nat lcaf_type ip_addr_afi
lisp_addr_cmp_afi no_addr no_addr = equal
lisp_addr_cmp_afi (ip a) (ip b) = cmp_nat (ip_addr_afi a) (ip_addr_afi b)
lisp_addr_cmp_afi (ippref a n) (ippref b m) = unsupported
lisp_addr_cmp_afi (lcaf a) (lcaf b) = cmp_nat (lcaf_type a) (lcaf_type b)
lisp_addr_cmp_afi a b = cmp_nat (lisp_addr_lafi a) (lisp_addr_lafi b)

abbrev pub is_equal : Cmp → Bool
is_equal equal = true
is_equal _ = false

abbrev pub is_negative : Cmp → Bool
is_negative different = true
is_negative unsupported = true
is_negative _ = false

-- `ret != 0` returns `ret`, and the rest runs otherwise
abbrev pub or_next : Cmp → Cmp → Cmp
or_next equal rest = rest
or_next c rest = c

abbrev pub bool_eq : Bool → Bool → Bool
bool_eq true b = b
bool_eq false b = not b

unfoldable pub addrs_size : Addrs → ℕ
addrs_size nil = 0
addrs_size (cons a xs) = Prim.Native.Nat.suc (addrs_size xs)

-- The last argument is the comparison of the two inner addresses.
unfoldable pub iid_type_cmp : ℕ → ℕ → ℕ → ℕ → Cmp → Cmp
unfolding cmp_nat
iid_type_cmp n m n' m' addrs = or_next (cmp_nat n n') (or_next (cmp_nat m m') addrs)

-- The last arguments are the comparisons of the sources and of the groups.
unfoldable pub mc_type_cmp : ℕ → ℕ → ℕ → ℕ → ℕ → ℕ → Cmp → Cmp → Cmp
mc_type_cmp s g n s' g' n' srcs grps =
    if n == n' && (s == s' && g == g') then or_next srcs grps else different

-- `lisp_addr_cmp` and the comparison of each LCAF type. Two `LM_AFI_NO_ADDR` objects compare as 2
-- (the code compares their pointers, and the addresses compared are two objects). The ELP loop
-- steps by `glist_prev` from the first entry, so it ends at the list's head after one node.
unfoldable mutual
  unfolding ip_addr_cmp iid_type_cmp mc_type_cmp lisp_addr_cmp_afi cmp_nat addrs_size

  pub lisp_addr_cmp : Addr → Addr → Cmp
  lisp_addr_cmp no_addr no_addr = smaller
  lisp_addr_cmp (ip a) (ip b) = ip_addr_cmp a b
  lisp_addr_cmp (ippref a n) (ippref b m) = ip_addr_cmp a b
  lisp_addr_cmp (lcaf a) (lcaf b) = lcaf_addr_cmp a b
  lisp_addr_cmp _ _ = different

  pub lcaf_addr_cmp : Lcaf → Lcaf → Cmp
  lcaf_addr_cmp (afi_list xs) (afi_list ys) =
      or_next (cmp_nat (addrs_size xs) (addrs_size ys)) (afi_list_type_cmp xs ys)
  lcaf_addr_cmp (iid n m a) (iid n' m' b) = iid_type_cmp n m n' m' (lisp_addr_cmp a b)
  lcaf_addr_cmp (mc s g n a b) (mc s' g' n' a' b') =
      mc_type_cmp s g n s' g' n' (lisp_addr_cmp a a') (lisp_addr_cmp b b')
  lcaf_addr_cmp (elp ns) (elp ms) = elp_type_cmp ns ms
  lcaf_addr_cmp (rle ns) (rle ms) = rle_type_cmp ns ms
  lcaf_addr_cmp _ _ = different

  pub afi_list_type_cmp : Addrs → Addrs → Cmp
  afi_list_type_cmp nil ys = equal
  afi_list_type_cmp (cons a xs) nil = equal
  afi_list_type_cmp (cons a xs) (cons b ys) = or_next (lisp_addr_cmp a b) (afi_list_type_cmp xs ys)

  pub elp_type_cmp : ElpNodes → ElpNodes → Cmp
  elp_type_cmp end ms = equal
  elp_type_cmp (node l s p a ns) end = equal
  elp_type_cmp (node l s p a ns) (node l' s' p' b ms) =
      let c = lisp_addr_cmp a b in
      if is_equal c
      then (if bool_eq l l' && (bool_eq s s' && bool_eq p p') then equal else bigger)
      else (if is_negative c then lisp_addr_cmp_afi a b else c)

  pub rle_type_cmp : RleNodes → RleNodes → Cmp
  rle_type_cmp none_left ms = equal
  rle_type_cmp (replica k a ns) none_left = equal
  rle_type_cmp (replica k a ns) (replica j b ms) =
      if k == j
      then or_next (lisp_addr_cmp a b) (rle_type_cmp ns ms)
      else (if ltb k j then bigger else smaller)

-- `lisp_addr_get_ip_addr` and `lcaf_get_ip_addr`; `none` is NULL.
unfoldable mutual
  pub lisp_addr_get_ip_addr : Addr → Option Addr
  lisp_addr_get_ip_addr no_addr = none
  lisp_addr_get_ip_addr (ip a) = some (ip a)
  lisp_addr_get_ip_addr (ippref a n) = none
  lisp_addr_get_ip_addr (lcaf l) = lcaf_get_ip_addr l

  pub lcaf_get_ip_addr : Lcaf → Option Addr
  lcaf_get_ip_addr (afi_list xs) = afi_list_type_get_ip_addr xs
  lcaf_get_ip_addr (iid n m a) = lisp_addr_get_ip_addr a
  lcaf_get_ip_addr (mc s g n a b) = lisp_addr_get_ip_addr a
  lcaf_get_ip_addr (elp ns) = elp_type_get_ip_addr ns
  lcaf_get_ip_addr (rle ns) = none
  lcaf_get_ip_addr (other t) = none

  pub afi_list_type_get_ip_addr : Addrs → Option Addr
  afi_list_type_get_ip_addr nil = none
  afi_list_type_get_ip_addr (cons a xs) = elim (lisp_addr_get_ip_addr a) [
    | some b ↦ some b
    | none ↦ afi_list_type_get_ip_addr xs
  ]

  -- the address of the last node
  pub elp_type_get_ip_addr : ElpNodes → Option Addr
  elp_type_get_ip_addr end = none
  elp_type_get_ip_addr (node l s p a end) = lisp_addr_get_ip_addr a
  elp_type_get_ip_addr (node l s p a (node l' s' p' b ns)) =
      elp_type_get_ip_addr (node l' s' p' b ns)
