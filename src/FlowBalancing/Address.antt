-- ===== src/FlowBalancing/Address.antt =====
-- lispd/fwd_policies/flow_balancing/fb_lisp_addr_func.c: the IP address that packets for a locator are
-- sent to. `none` is NULL; an ELP with no node is a read through NULL.
use lispmob.Prelude.{
  ℕ, Bool, true, false, Option, none, some, List, [], ◌∷◌, ltb, if◌then◌else◌, Run, ok, fault,
  null_pointer,
}
use lispmob.Address.{
  Addr, no_addr, ip, ippref, lcaf, Lcaf, afi_list, iid, mc, elp, rle, other, ElpNodes, end, node,
  RleNodes, none_left, replica, is_equal, lisp_addr_cmp, lisp_addr_get_ip_addr,
}

-- `glist_contain_using_cmp_fct` with `lisp_addr_cmp`; NULL compares as -1 with everything
unfoldable pub contains : Option Addr → List Addr → Bool
contains none rlocs = false
contains (some a) [] = false
contains (some a) (b ∷ rlocs) =
    if is_equal (lisp_addr_cmp a b) then true else contains (some a) rlocs

-- the first node of the highest level, which starts at -1; `best` is the level plus one
unfoldable pub rle_fwd_loop : RleNodes → ℕ → Option Addr → Option Addr
rle_fwd_loop none_left best addr = addr
rle_fwd_loop (replica level a ns) best addr =
    rle_fwd_loop ns (if ltb level best then best else Prim.Native.Nat.suc level)
      (if ltb level best then addr else some a)

unfoldable pub next_hop : ElpNodes → Option Addr → Option Addr
next_hop end last = last
next_hop (node l s p a ns) last = lisp_addr_get_ip_addr a

-- what the code answers when no local locator is on the path: the first node
unfoldable pub first_hop : ElpNodes → Run (Option Addr)
first_hop end = fault null_pointer
first_hop (node l s p a ns) = ok (lisp_addr_get_ip_addr a)

module _ (rlocs : List Addr) where
  -- an IP address is looked for among the local ones; a nested path is asked for its own hop
  unfoldable mutual
    unfolding contains rle_fwd_loop next_hop first_hop

    pub fb_lisp_addr_get_fwd_ip_addr : Addr → Run (Option Addr)
    fb_lisp_addr_get_fwd_ip_addr no_addr = ok none
    fb_lisp_addr_get_fwd_ip_addr (ip a) = ok (some (ip a))
    fb_lisp_addr_get_fwd_ip_addr (ippref a n) = ok none
    fb_lisp_addr_get_fwd_ip_addr (lcaf l) = fb_lcaf_get_fwd_ip_addr l

    pub fb_lcaf_get_fwd_ip_addr : Lcaf → Run (Option Addr)
    fb_lcaf_get_fwd_ip_addr (afi_list xs) = ok none
    fb_lcaf_get_fwd_ip_addr (iid n m a) = ok none
    fb_lcaf_get_fwd_ip_addr (mc s g n a b) = ok none
    fb_lcaf_get_fwd_ip_addr (elp ns) = fb_elp_loop ns (first_hop ns)
    fb_lcaf_get_fwd_ip_addr (rle ns) = ok (rle_fwd_loop ns 0 none)
    fb_lcaf_get_fwd_ip_addr (other t) = ok none

    -- `fallback` is the answer after the loop
    pub fb_elp_loop : ElpNodes → Run (Option Addr) → Run (Option Addr)
    fb_elp_loop end fallback = fallback
    fb_elp_loop (node l s p a ns) fallback = fb_elp_node a ns (fb_elp_loop ns fallback)

    -- one round: `rest` is what the rounds after it answer
    pub fb_elp_node : Addr → ElpNodes → Run (Option Addr) → Run (Option Addr)
    fb_elp_node no_addr ns rest = rest
    fb_elp_node (ip a) ns rest =
        if contains (some (ip a)) rlocs then ok (next_hop ns (some (ip a))) else rest
    fb_elp_node (ippref a n) ns rest = rest
    fb_elp_node (lcaf l) ns rest = fb_elp_lcaf l ns rest

    pub fb_elp_lcaf : Lcaf → ElpNodes → Run (Option Addr) → Run (Option Addr)
    fb_elp_lcaf (elp ms) ns rest = elim (fb_elp_loop ms (first_hop ms)) [
      | ok none ↦ rest
      | ok (some b) ↦ ok (some b)
      | fault e ↦ fault e
    ]
    fb_elp_lcaf l ns rest =
        let found = lisp_addr_get_ip_addr (lcaf l) in
        if contains found rlocs then ok (next_hop ns found) else rest
