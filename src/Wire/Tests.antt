-- ===== src/Wire/Tests.antt =====
-- Runs of the theorems on addresses and bytes that lispd exchanges.
use lispmob.Prelude.{◌+◌, ◌<◌, ◌≤◌, ◌≡◌, arith, true, false, [], ◌∷◌, ◌++◌, length, ok, Returns}
use lispmob.Address.{Addr, no_addr, ip, v4, lcaf, mc, elp, iid, node, end, other, ip_addr_afi}
use lispmob.Wire.{
  Bytes, ip_addr_get_size_to_write, ip_addr_get_size, ip_sock_afi_to_size, lisp_addr_write,
  lisp_addr_size_to_write,
}
use lispmob.Wire.Parse.{lisp_addr_parse}
use lispmob.Wire.RoundTrip.{IsWire, lisp_addr_parse-write}
use lispmob.Wire.Refused.{lisp_addr_parse-iid}

-- a multicast address from a path through two routers to a group
abbrev path : Addr
path = lcaf (
    mc 32 32 7
      (lcaf (elp (node true false true (ip (v4 167772161)) (node false false false no_addr end))))
      (ip (v4 3758096385)))

path-IsWire : IsWire path
unfolding lisp_addr_size_to_write ip_addr_get_size_to_write ip_addr_get_size ip_sock_afi_to_size
    ip_addr_afi
path-IsWire = (omega arith, omega arith, (omega arith, (omega arith, (tt, tt))), omega arith)

-- the start of a Map-Reply behind the address
abbrev behind : Bytes
behind = 0 ∷ 255 ∷ []

lisp_addr_parse-write_example : Returns (lisp_addr_write path) (λ w.
    (length w ≡ lisp_addr_size_to_write path)
    × (2 ≤ length w)
    × (lisp_addr_parse (w ++ behind) ≡ ok (length w, path)))
lisp_addr_parse-write_example = lisp_addr_parse-write path behind path-IsWire

v4-IsWire : IsWire (ip (v4 167772161))
v4-IsWire = omega arith

iid-fits : 12 + lisp_addr_size_to_write (ip (v4 167772161)) < 65536
unfolding lisp_addr_size_to_write ip_addr_get_size_to_write ip_addr_get_size ip_sock_afi_to_size
    ip_addr_afi
iid-fits = omega arith

lisp_addr_parse-iid_example :
    Returns
      (lisp_addr_write (lcaf (iid 5 24 (ip (v4 167772161)))))
      (λ w. lisp_addr_parse (w ++ behind) ≡ ok (0, lcaf (other 2)))
lisp_addr_parse-iid_example = lisp_addr_parse-iid 5 24 (ip (v4 167772161)) behind v4-IsWire iid-fits
