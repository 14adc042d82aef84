-- ===== src/Wire/Parse/Total.antt =====
-- lispd/liblisp/lisp_address.c `lisp_addr_parse`: the recursion over nested addresses ends.
use lispmob.Prelude.{
  ℕ, zero, suc, ◌+◌, ◌-◌, ◌*◌, ◌≤◌, ◌<◌, ◌≡◌, refl, arith, Bool, true, false, Option, none, some,
  [], ◌∷◌, leb, ◌==◌, ==→ne, if◌then◌else◌, get_elem?, drop, length, length-drop, Run, ok, fault,
  out_of_bounds, division_by_zero, null_pointer, dangling_pointer, invalid_free, bad_shift,
  assertion_failed, stray_write, out_of_fuel, ◌>>=◌, bind-ok,
}
use lispmob.Address.{Addr}
use lispmob.Wire.{Bytes, lisp_afi_lcaf, ip_iana_afi_to_size}
use lispmob.Wire.Parse.{
  or_fault, byte, ntohs_at, read_be, read_le32, ip_addr_parse, max_lcafs, parse_addr, parse_lcaf,
  parse_type, iid_type_parse, geo_type_parse, mc_type_parse, parse_addrs, parse_elp, parse_rle,
}

-- The run ends in a value or with a read out of bounds.
abbrev IsTotal {ℓ} : {A : Type ℓ} → Run A → Type 0
IsTotal (ok a) = Unit
IsTotal (fault out_of_bounds) = Unit
IsTotal (fault _) = ⊥

bind-IsTotal {ℓ κ} :
    {A : Type ℓ} {B : Type κ} (r : Run A) (f : A → Run B)
    → IsTotal r
    → ((a : A) → r ≡ ok a → IsTotal (f a))
    → IsTotal (r >>= f)
bind-IsTotal (ok a) f h rest = rest a refl
bind-IsTotal (fault out_of_bounds) f h rest = tt
bind-IsTotal (fault division_by_zero) f h rest = h
bind-IsTotal (fault null_pointer) f h rest = h
bind-IsTotal (fault dangling_pointer) f h rest = h
bind-IsTotal (fault invalid_free) f h rest = h
bind-IsTotal (fault bad_shift) f h rest = h
bind-IsTotal (fault assertion_failed) f h rest = h
bind-IsTotal (fault stray_write) f h rest = h
bind-IsTotal (fault out_of_fuel) f h rest = h

if-IsTotal {ℓ} :
    {A : Type ℓ} (c : Bool) (r s : Run A)
    → IsTotal r
    → (c ≡ false → IsTotal s)
    → IsTotal (if c then r else s)
if-IsTotal true r s hr hs = hr
if-IsTotal false r s hr hs = hs refl

or_fault-IsTotal : (o : Option ℕ) → IsTotal (or_fault o)
or_fault-IsTotal none = tt
or_fault-IsTotal (some b) = tt

byte-IsTotal : (i : ℕ) (bs : Bytes) → IsTotal (byte i bs)
byte-IsTotal i bs = or_fault-IsTotal (get_elem? bs i)

byte-inside : (i : ℕ) (bs : Bytes) (b : ℕ) → byte i bs ≡ ok b → i < length bs
byte-inside i [] b e = absurd (cc)
byte-inside zero (x ∷ bs) b e = omega arith
byte-inside (suc i) (x ∷ bs) b e = omega (arith, byte-inside i bs b e)

ntohs-IsTotal : (i : ℕ) (bs : Bytes) → IsTotal (ntohs_at i bs)
ntohs-IsTotal i bs =
    bind-IsTotal _ _ (byte-IsTotal i bs)
      (λ a e. bind-IsTotal _ _ (byte-IsTotal (i + 1) bs) (λ b e2. tt))

ntohs-inside : (i : ℕ) (bs : Bytes) (n : ℕ) → ntohs_at i bs ≡ ok n → i < length bs
ntohs-inside i bs n e = let (a, ea, _) = bind-ok (byte i bs) _ n e in byte-inside i bs a ea

read_be-IsTotal : (k acc : ℕ) (bs : Bytes) → IsTotal (read_be k acc bs)
unfolding read_be
read_be-IsTotal zero acc bs = tt
read_be-IsTotal (suc k) acc [] = tt
read_be-IsTotal (suc k) acc (b ∷ bs) = read_be-IsTotal k (acc * 256 + b) bs

read_le32-IsTotal : (bs : Bytes) → IsTotal (read_le32 bs)
unfolding read_le32
read_le32-IsTotal bs = bind-IsTotal _ _ (byte-IsTotal 0 bs) (λ a _.
    bind-IsTotal _ _ (byte-IsTotal 1 bs) (λ b _.
      bind-IsTotal _ _ (byte-IsTotal 2 bs)
        (λ c _. bind-IsTotal _ _ (byte-IsTotal 3 bs) (λ d _. tt))))

ip_addr_parse-IsTotal : (afi : ℕ) (bs : Bytes) → IsTotal (ip_addr_parse afi bs)
unfolding ip_addr_parse
ip_addr_parse-IsTotal afi bs =
    bind-IsTotal _ _ (read_be-IsTotal (ip_iana_afi_to_size afi) 0 (drop 2 bs)) (λ n _. tt)

less : (n : ℕ) (bs : Bytes) → length (drop n bs) ≡ length bs - n
less n bs = length-drop n bs

-- a loop on the bytes that the header announces
list-IsTotal {ℓ κ} :
    {A : Type ℓ} {B : Type κ} (loop : ℕ → Run A) (answer : A → B) (bs : Bytes)
    → ((len : ℕ) → IsTotal (loop len))
    → IsTotal (ntohs_at 6 bs >>= (λ len. loop len >>= (λ r. ok (answer r))))
list-IsTotal loop answer bs h =
    bind-IsTotal _ _ (ntohs-IsTotal 6 bs) (λ len _. bind-IsTotal _ _ (h len) (λ r _. tt))

addr-inside : (fuel : ℕ) (bs : Bytes) (r : ℕ × Addr) → parse_addr fuel bs ≡ ok r → 0 < length bs
unfolding parse_addr
addr-inside zero bs r e = absurd (cc)
addr-inside (suc fuel) bs r e =
    let (afi, read, _) = bind-ok (ntohs_at 0 bs) _ r e in ntohs-inside 0 bs afi read

iid-IsTotal :
    (parse : Bytes → Run (ℕ × Addr)) (bs : Bytes)
    → ((b : Bytes) → length b ≤ length bs - 12 → IsTotal (parse b))
    → IsTotal (iid_type_parse parse bs)
iid-IsTotal parse bs h =
    let rest = less 12 bs in
    bind-IsTotal _ _ (byte-IsTotal 5 bs) (λ m _.
      bind-IsTotal _ _ (read_le32-IsTotal (drop 8 bs))
        (λ n _. bind-IsTotal _ _ (h (drop 12 bs) (omega arith)) (λ r _. tt)))

geo-IsTotal :
    (parse : Bytes → Run (ℕ × Addr)) (bs : Bytes)
    → ((b : Bytes) → length b ≤ length bs - 12 → IsTotal (parse b))
    → IsTotal (geo_type_parse parse bs)
geo-IsTotal parse bs h =
    let rest = less 20 bs in
    bind-IsTotal _ _ (byte-IsTotal 19 bs)
      (λ x _. bind-IsTotal _ _ (h (drop 20 bs) (omega arith)) (λ r _. tt))

mc-IsTotal :
    (parse : Bytes → Run (ℕ × Addr)) (bs : Bytes)
    → ((b : Bytes) → length b ≤ length bs - 12 → IsTotal (parse b))
    → IsTotal (mc_type_parse parse bs)
mc-IsTotal parse bs h =
    let rest = less 16 bs in
    bind-IsTotal _ _ (read_be-IsTotal 4 0 (drop 8 bs)) (λ n _.
      bind-IsTotal _ _ (byte-IsTotal 14 bs) (λ s _. bind-IsTotal _ _ (byte-IsTotal 15 bs) (λ g _.
        bind-IsTotal _ _ (h (drop 16 bs) (omega arith)) (λ a _.
          let rest2 = less a.0 (drop 16 bs) in
          bind-IsTotal _ _ (h (drop a.0 (drop 16 bs)) (omega arith)) (λ b _. tt)))))

-- The fuel that each parser needs.
mutual
  unfolding parse_addr

  addr-IsTotal : (fuel : ℕ) (bs : Bytes) → 2 * length bs + 1 ≤ fuel → IsTotal (parse_addr fuel bs)
  addr-IsTotal zero bs h = absurd (omega arith)
  addr-IsTotal (suc fuel) bs h = bind-IsTotal _ _ (ntohs-IsTotal 0 bs) (λ afi e.
      let more = ntohs-inside 0 bs afi e in
      if-IsTotal (afi == 1) _ _ (ip_addr_parse-IsTotal 1 bs) (λ _.
        if-IsTotal (afi == 2) _ _ (ip_addr_parse-IsTotal 2 bs) (λ _.
          if-IsTotal (afi == lisp_afi_lcaf) _ _ (lcaf-IsTotal fuel bs more (omega arith))
            (λ _. if-IsTotal (afi == 0) _ _ tt (λ _. tt)))))

  lcaf-IsTotal :
      (fuel : ℕ) (bs : Bytes) → 1 ≤ length bs → 2 * length bs ≤ fuel → IsTotal (parse_lcaf fuel bs)
  lcaf-IsTotal zero bs some_left h = absurd (omega arith)
  lcaf-IsTotal (suc fuel) bs some_left h = bind-IsTotal _ _ (byte-IsTotal 4 bs) (λ type e.
      if-IsTotal (leb max_lcafs type) _ _ tt (λ _.
        bind-IsTotal _ _ (type-IsTotal fuel type bs (byte-inside 4 bs type e) (omega arith))
          (λ r _. bind-IsTotal _ _ (ntohs-IsTotal 6 bs) (λ len _. tt))))

  type-IsTotal :
      (fuel type : ℕ) (bs : Bytes)
      → 5 ≤ length bs
      → 2 * length bs ≤ fuel + 1
      → IsTotal (parse_type fuel type bs)
  type-IsTotal zero type bs more h = absurd (omega arith)
  type-IsTotal (suc fuel) type bs more h =
      let rest = less 8 bs in
      let nested : (b : Bytes) → length b ≤ length bs - 12 → IsTotal (parse_addr fuel b) =
        λ b shorter. addr-IsTotal fuel b (omega arith) in
      if-IsTotal (type == 1) _ _
        (list-IsTotal _ _ bs (λ len. addrs-IsTotal fuel len (drop 8 bs) (omega arith)))
        (λ _. if-IsTotal (type == 2) _ _ (iid-IsTotal _ bs nested) (λ _.
          if-IsTotal (type == 6) _ _ (geo-IsTotal _ bs nested) (λ _.
            if-IsTotal (type == 9) _ _ (mc-IsTotal _ bs nested) (λ _.
              if-IsTotal (type == 10) _ _
                (list-IsTotal _ _ bs (λ len. elp-IsTotal fuel len (drop 8 bs) (omega arith)))
                (λ _.
                  if-IsTotal (type == 13) _ _
                    (list-IsTotal _ _ bs (λ len. rle-IsTotal fuel len (drop 8 bs) (omega arith)))
                    (λ _. tt))))))

  addrs-IsTotal :
      (fuel left : ℕ) (bs : Bytes) → 2 * length bs + 2 ≤ fuel → IsTotal (parse_addrs fuel left bs)
  addrs-IsTotal zero left bs h = absurd (omega arith)
  addrs-IsTotal (suc fuel) left bs h = if-IsTotal (left == 0) _ _ tt (λ _.
      bind-IsTotal _ _ (addr-IsTotal fuel bs (omega arith)) (λ a e.
        if-IsTotal (a.0 == 0) _ _ tt (λ ne.
          let some_read = ==→ne _ _ ne in
          let more = addr-inside fuel bs a e in
          let rest = less a.0 bs in
          bind-IsTotal _ _ (addrs-IsTotal fuel (left - a.0) (drop a.0 bs) (omega (arith)))
            (λ r _. tt))))

  elp-IsTotal :
      (fuel left : ℕ) (bs : Bytes) → 2 * length bs + 1 ≤ fuel → IsTotal (parse_elp fuel left bs)
  elp-IsTotal zero left bs h = absurd (omega arith)
  elp-IsTotal (suc fuel) left bs h = if-IsTotal (left == 0) _ _ tt (λ _.
      bind-IsTotal _ _ (byte-IsTotal 1 bs) (λ flags e.
        let more = byte-inside 1 bs flags e in
        let rest = less 2 bs in
        bind-IsTotal _ _ (addr-IsTotal fuel (drop 2 bs) (omega (arith, rest))) (λ a _.
          if-IsTotal (a.0 == 0) _ _ tt (λ _.
            let rest2 = less a.0 (drop 2 bs) in
            bind-IsTotal _ _
              (elp-IsTotal fuel (left - 2 - a.0) (drop a.0 (drop 2 bs))
                (omega (arith, rest, rest2)))
              (λ r _. tt)))))

  rle-IsTotal :
      (fuel left : ℕ) (bs : Bytes) → 2 * length bs + 1 ≤ fuel → IsTotal (parse_rle fuel left bs)
  rle-IsTotal zero left bs h = absurd (omega arith)
  rle-IsTotal (suc fuel) left bs h = if-IsTotal (left == 0) _ _ tt (λ _.
      bind-IsTotal _ _ (byte-IsTotal 3 bs) (λ level e.
        let more = byte-inside 3 bs level e in
        let rest = less 4 bs in
        bind-IsTotal _ _ (addr-IsTotal fuel (drop 4 bs) (omega (arith, rest))) (λ a _.
          if-IsTotal (a.0 == 0) _ _ tt (λ _.
            let rest2 = less a.0 (drop 4 bs) in
            bind-IsTotal _ _
              (rle-IsTotal fuel (left - 4 - a.0) (drop a.0 (drop 4 bs))
                (omega (arith, rest, rest2)))
              (λ r _. tt)))))
