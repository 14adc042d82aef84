-- ===== src/Wire/Parse.antt =====
-- lispd/liblisp/lisp_address.c `lisp_addr_parse`, with the parsers of lisp_ip.c and lisp_lcaf.c. They
-- take a pointer and no length, so a read behind the last byte is a fault. A parser answers how many
-- bytes it read, 0 for BAD, and the address, which is a fresh one before. What a failed parse leaves
-- of an LCAF is reduced to its type.
pub mod Total
use lispmob.Prelude.{
  ℕ, zero, suc, ◌+◌, ◌-◌, ◌*◌, ◌/◌, ◌%◌, Bool, true, false, Option, none, some, List, [], ◌∷◌, leb,
  ◌==◌, if◌then◌else◌, get_elem?, drop, length, Run, ok, fault, out_of_bounds, out_of_fuel, ◌>>=◌,
}
use lispmob.Address.{
  Ip, v4, v6, Addr, no_addr, ip, lcaf, Lcaf, iid, mc, elp, rle, other, ElpNodes, end, node,
  RleNodes, none_left, replica,
}
use lispmob.Wire.{Bytes, lisp_afi_lcaf, ip_iana_afi_to_size}

abbrev pub or_fault : Option ℕ → Run ℕ
or_fault none = fault out_of_bounds
or_fault (some b) = ok b

abbrev pub byte : ℕ → Bytes → Run ℕ
byte i bs = or_fault (get_elem? bs i)

abbrev pub ntohs_at : ℕ → Bytes → Run ℕ
ntohs_at i bs = byte i bs >>= (λ a. byte (i + 1) bs >>= (λ b. ok (a * 256 + b)))

-- the number of the next `k` bytes, the highest first
unfoldable pub read_be : ℕ → ℕ → Bytes → Run ℕ
read_be zero acc bs = ok acc
read_be (suc k) acc [] = fault out_of_bounds
read_be (suc k) acc (b ∷ bs) = read_be k (acc * 256 + b) bs

-- four bytes taken as they are in memory
unfoldable pub read_le32 : Bytes → Run ℕ
read_le32 bs = byte 0 bs >>= (λ a.
    byte 1 bs
    >>= (λ b. byte 2 bs >>= (λ c. byte 3 bs >>= (λ d. ok (a + 256 * (b + 256 * (c + 256 * d)))))))

abbrev pub ip_of : ℕ → ℕ → Ip
ip_of afi n = if afi == 1 then v4 n else v6 n

-- called for IPv4 and IPv6 only
unfoldable pub ip_addr_parse : ℕ → Bytes → Run (ℕ × Addr)
unfolding read_be ip_iana_afi_to_size
ip_addr_parse afi bs =
    read_be (ip_iana_afi_to_size afi) 0 (drop 2 bs)
    >>= (λ n. ok (ip_iana_afi_to_size afi + 2, ip (ip_of afi n)))

abbrev pub bit_at : ℕ → ℕ → Bool
bit_at n flags = flags / n % 2 == 1

-- The length that a parser read against the one of the header; a parser that the table does not
-- hold is `none`.
abbrev pub checked : ℕ → ℕ → Option (ℕ × Lcaf) → ℕ × Addr
checked type len none = (0, lcaf (other type))
checked type len (some r) = if r.0 == len + 8 then (r.0, lcaf r.1) else (0, lcaf (other type))

abbrev pub elp_done : Option (ℕ × ElpNodes) → Option (ℕ × Lcaf)
elp_done none = some (0, other 10)
elp_done (some r) = some (r.0 + 8, elp r.1)

abbrev pub rle_done : Option (ℕ × RleNodes) → Option (ℕ × Lcaf)
rle_done none = some (0, other 13)
rle_done (some r) = some (r.0 + 8, rle r.1)

-- The list that was read is given back to nobody: the pointer to it is a local variable.
abbrev pub afi_done : Option ℕ → Option (ℕ × Lcaf)
afi_done none = some (0, other 1)
afi_done (some n) = some (n + 8, other 1)

abbrev pub add_elp : ℕ → ℕ → Addr → Option (ℕ × ElpNodes) → Option (ℕ × ElpNodes)
add_elp flags len a none = none
add_elp flags len a (some r) =
    some (2 + len + r.0, node (bit_at 4 flags) (bit_at 1 flags) (bit_at 2 flags) a r.1)

abbrev pub add_rle : ℕ → ℕ → Addr → Option (ℕ × RleNodes) → Option (ℕ × RleNodes)
add_rle level len a none = none
add_rle level len a (some r) = some (4 + len + r.0, replica level a r.1)

abbrev pub add_len : ℕ → Option ℕ → Option ℕ
add_len len none = none
add_len len (some n) = some (len + n)

-- The parsers of the types, on `lisp_addr_parse` or on the loop that follows the header.
abbrev pub afi_list_type_parse : (ℕ → Bytes → Run (Option ℕ)) → Bytes → Run (Option (ℕ × Lcaf))
afi_list_type_parse loop bs =
    ntohs_at 6 bs >>= (λ len. loop len (drop 8 bs) >>= (λ r. ok (afi_done r)))

abbrev pub iid_type_parse : (Bytes → Run (ℕ × Addr)) → Bytes → Run (Option (ℕ × Lcaf))
iid_type_parse parse bs = byte 5 bs >>= (λ m.
    read_le32 (drop 8 bs)
    >>= (λ n. parse (drop 12 bs) >>= (λ r. ok (some (r.0 + 12, iid n m r.1)))))

abbrev pub geo_type_parse : (Bytes → Run (ℕ × Addr)) → Bytes → Run (Option (ℕ × Lcaf))
geo_type_parse parse bs =
    byte 19 bs >>= (λ x. parse (drop 20 bs) >>= (λ r. ok (some (r.0 + 20, other 6))))

abbrev pub mc_type_parse : (Bytes → Run (ℕ × Addr)) → Bytes → Run (Option (ℕ × Lcaf))
mc_type_parse parse bs = read_be 4 0 (drop 8 bs) >>= (λ n. byte 14 bs >>= (λ s. byte 15 bs >>= (λ g.
    parse (drop 16 bs) >>= (λ a.
      parse (drop a.0 (drop 16 bs)) >>= (λ b. ok (some (16 + a.0 + b.0, mc s g n a.1 b.1)))))))

abbrev pub elp_type_parse :
    (ℕ → Bytes → Run (Option (ℕ × ElpNodes))) → Bytes → Run (Option (ℕ × Lcaf))
elp_type_parse loop bs = ntohs_at 6 bs >>= (λ len. loop len (drop 8 bs) >>= (λ r. ok (elp_done r)))

abbrev pub rle_type_parse :
    (ℕ → Bytes → Run (Option (ℕ × RleNodes))) → Bytes → Run (Option (ℕ × Lcaf))
rle_type_parse loop bs = ntohs_at 6 bs >>= (λ len. loop len (drop 8 bs) >>= (λ r. ok (rle_done r)))

-- `parse_fcts` has 16 entries
abbrev pub max_lcafs : ℕ
max_lcafs = 16

-- Each function is on fuel.
unfoldable mutual
  unfolding ip_addr_parse read_be read_le32

  pub parse_addr : ℕ → Bytes → Run (ℕ × Addr)
  parse_addr zero bs = fault out_of_fuel
  parse_addr (suc fuel) bs = ntohs_at 0 bs >>= (λ afi.
      if afi == 1
      then ip_addr_parse 1 bs
      else if afi == 2
      then ip_addr_parse 2 bs
      else if afi == lisp_afi_lcaf
      then parse_lcaf fuel bs
      else if afi == 0
      then ok (2, no_addr)
      else ok (0, no_addr))

  pub parse_lcaf : ℕ → Bytes → Run (ℕ × Addr)
  parse_lcaf zero bs = fault out_of_fuel
  parse_lcaf (suc fuel) bs = byte 4 bs >>= (λ type.
      if leb max_lcafs type
      then fault out_of_bounds
      else (parse_type fuel type bs >>= (λ r. ntohs_at 6 bs >>= (λ len. ok (checked type len r)))))

  pub parse_type : ℕ → ℕ → Bytes → Run (Option (ℕ × Lcaf))
  parse_type zero type bs = fault out_of_fuel
  parse_type (suc fuel) type bs =
      if type == 1
      then afi_list_type_parse (λ len b. parse_addrs fuel len b) bs
      else if type == 2
      then iid_type_parse (λ b. parse_addr fuel b) bs
      else if type == 6
      then geo_type_parse (λ b. parse_addr fuel b) bs
      else if type == 9
      then mc_type_parse (λ b. parse_addr fuel b) bs
      else if type == 10
      then elp_type_parse (λ len b. parse_elp fuel len b) bs
      else if type == 13
      then rle_type_parse (λ len b. parse_rle fuel len b) bs
      else ok none

  -- the loops: the bytes that are left by the header's length
  pub parse_addrs : ℕ → ℕ → Bytes → Run (Option ℕ)
  parse_addrs zero left bs = fault out_of_fuel
  parse_addrs (suc fuel) left bs =
      if left == 0
      then ok (some 0)
      else (parse_addr fuel bs >>= (λ a.
          if a.0 == 0
          then ok none
          else (parse_addrs fuel (left - a.0) (drop a.0 bs) >>= (λ r. ok (add_len a.0 r)))))

  pub parse_elp : ℕ → ℕ → Bytes → Run (Option (ℕ × ElpNodes))
  parse_elp zero left bs = fault out_of_fuel
  parse_elp (suc fuel) left bs =
      if left == 0
      then ok (some (0, end))
      else (byte 1 bs >>= (λ flags. parse_addr fuel (drop 2 bs) >>= (λ a.
          if a.0 == 0
          then ok none
          else (parse_elp fuel (left - 2 - a.0) (drop a.0 (drop 2 bs))
              >>= (λ r. ok (add_elp flags a.0 a.1 r))))))

  pub parse_rle : ℕ → ℕ → Bytes → Run (Option (ℕ × RleNodes))
  parse_rle zero left bs = fault out_of_fuel
  parse_rle (suc fuel) left bs =
      if left == 0
      then ok (some (0, none_left))
      else (byte 3 bs >>= (λ level. parse_addr fuel (drop 4 bs) >>= (λ a.
          if a.0 == 0
          then ok none
          else (parse_rle fuel (left - 4 - a.0) (drop a.0 (drop 4 bs))
              >>= (λ r. ok (add_rle level a.0 a.1 r))))))

-- More fuel than twice the bytes is enough.
unfoldable pub lisp_addr_parse : Bytes → Run (ℕ × Addr)
unfolding parse_addr
lisp_addr_parse bs = parse_addr (2 * length bs + 4) bs
