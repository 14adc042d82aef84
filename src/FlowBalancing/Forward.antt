-- ===== src/FlowBalancing/Forward.antt =====
-- lispd/fwd_policies/flow_balancing/flow_balancing.c `fb_get_fw_entry`: the locators that a packet's
-- hash chooses. `hash` stands for `pkt_tuple_hash`, whose `hashword` is Bob Jenkins' lookup3.
pub mod Safe
pub mod Ready
use lispmob.Prelude.{
  ℕ, ◌%◌, List, Option, none, some, ◌==◌, if◌then◌else◌, get_elem?, Run, ok, fault, out_of_bounds,
  division_by_zero, null_pointer, dangling_pointer, ◌>>=◌,
}
use lispmob.Address.{Addr, af_inet, af_inet6, lisp_addr_ip_afi}
use lispmob.Locator.{Locator}
use lispmob.FlowBalancing.Address.{fb_lisp_addr_get_fwd_ip_addr}
use lispmob.FlowBalancing.Fill.{Vector}
use lispmob.FlowBalancing.Calculate.{BalancingLocatorsVecs}

-- `v`, where neither `v` nor `w` is NULL
abbrev pub if_both :
    Option (Vector × ℕ) → Option (Vector × ℕ) → Option (Vector × ℕ) → Option (Vector × ℕ)
if_both none w rest = rest
if_both (some v) none rest = rest
if_both (some v) (some w) rest = some v

-- the vector for the source: the joint one, else that of IPv6, else that of IPv4
unfoldable pub source_vec : BalancingLocatorsVecs → BalancingLocatorsVecs → Option (Vector × ℕ)
source_vec src dst =
    if_both src.both_vec dst.both_vec
      (if_both src.v6_vec dst.v6_vec (if_both src.v4_vec dst.v4_vec none))

-- `vec[hash % len]`; a position that was never written holds no pointer
read_cell : Option (Option Locator) → Run Locator
read_cell none = fault out_of_bounds
read_cell (some none) = fault dangling_pointer
read_cell (some (some l)) = ok l

unfoldable pub locator_at : Vector × ℕ → ℕ → Run Locator
unfolding read_cell
locator_at v hash =
    if v.1 == 0 then fault division_by_zero else read_cell (get_elem? v.0 (hash % v.1))

-- the vector of one family of the destination, of length 0 if it is NULL
unfoldable pub destination_at : Option (Vector × ℕ) → ℕ → Run Locator
unfolding locator_at
destination_at none hash = fault division_by_zero
destination_at (some v) hash = locator_at v hash

abbrev pub not_null {ℓ} : {A : Type ℓ} → Option A → Run A
not_null none = fault null_pointer
not_null (some a) = ok a

module _ (rlocs : List Addr) where
  -- the IP address that a locator's packets go to, read through its pointer
  unfoldable pub hop : Locator → Run Addr
  hop l = fb_lisp_addr_get_fwd_ip_addr rlocs l.addr >>= (λ a. not_null a)

  unfoldable pub destination_entry : Option (Vector × ℕ) → Addr → ℕ → Run (Option (Addr × Addr))
  destination_entry v src_ip hash =
      destination_at v hash >>= (λ l. hop l >>= (λ dst_ip. ok (some (src_ip, dst_ip))))

  -- The addresses of the new forwarding entry; `none` leaves `fwd_info` as it was.
  unfoldable pub fb_get_fw_entry :
      BalancingLocatorsVecs → BalancingLocatorsVecs → ℕ → Run (Option (Addr × Addr))
  fb_get_fw_entry src dst hash = elim (source_vec src dst) [
    | none ↦ ok none
    | some v ↦ locator_at v hash >>= (λ l. hop l >>= (λ src_ip.
        if lisp_addr_ip_afi src_ip == af_inet
        then destination_entry dst.v4_vec src_ip hash
        else (if lisp_addr_ip_afi src_ip == af_inet6
            then destination_entry dst.v6_vec src_ip hash
            else ok none)))
  ]
