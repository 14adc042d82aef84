-- ===== src/Prefixes/Part.antt =====
-- lispd/lib/prefixes.c `pref_is_prefix_b_part_of_a` on IPv4 prefixes.
use lispmob.Prelude.{
  ℕ, ◌+◌, ◌-◌, ◌*◌, ◌%◌, ◌^◌, ◌≤◌, ◌<◌, ◌≡◌, ◌↔◌, refl, sym, ◌∙◌, arith, true, false, ltb, ◌==◌,
  Bool-cases, inl, inr, ==→eq, eq→==, ltb→lt, ltb→ge, ge→ltb, ok, Returns, some,
}
use native.Mathlib.Nat.{mul-le-mul_right}
use lispmob.Address.{
  ip, ippref, v4, lisp_addr_cmp, ip_addr_cmp, cmp_nat, is_equal, ip_addr_afi, lisp_addr_ip_afi,
}
use lispmob.Prefixes.{
  word_mod, lisp_addr_is_ip_pref, lisp_addr_get_plen, lisp_addr_set_plen, pref_get_network_address,
  same_network, pref_is_prefix_b_part_of_a, pref_get_network_address_v4, pref_get_network_prefix,
}
use lispmob.Prefixes.Mask.{IsStart, network_v4-IsStart}

-- `a` and `b` lie in the same aligned block of `2 ^ k` addresses.
abbrev pub SameBlock : ℕ → ℕ → ℕ → Type 0
SameBlock k a b =
    (q : ℕ) × (q * 2 ^ k ≤ a) × (a < q * 2 ^ k + 2 ^ k) × (q * 2 ^ k ≤ b) × (b < q * 2 ^ k + 2 ^ k)

block_below : (p j i : ℕ) → j < i → j * p + p ≤ i * p
block_below p j i h = grind (arith, mul-le-mul_right p h)

block_unique : (p q r a : ℕ) → q * p ≤ a → a < q * p + p → r * p ≤ a → a < r * p + p → q ≡ r
block_unique p q r a h1 h2 h3 h4 =
    let lt_of : (i j : ℕ) → i * p ≤ a → a < j * p + p → i ≤ j =
      λ i j low up. grind (arith, block_below p j i) in
    omega (arith, lt_of q r h1 h4, lt_of r q h3 h2)

starts-SameBlock : (k a b x y : ℕ) → IsStart k a x → IsStart k b y → (x ≡ y) ↔ SameBlock k a b
starts-SameBlock k a b x y (q, e, le, up) (r, f, le', up') = (
  λ g. (q, omega arith, omega arith, omega arith, omega arith),
  λ (s, a1, a2, b1, b2).
      let qs : q ≡ s = block_unique (2 ^ k) q s a (omega arith) (omega arith) a1 a2 in
      let rs : r ≡ s = block_unique (2 ^ k) r s b (omega arith) (omega arith) b1 b2 in
      e ∙ (rw (qs, rs) refl ∙ sym f),
)

v4_equal : (x y : ℕ) → is_equal (lisp_addr_cmp (ip (v4 x)) (ip (v4 y))) ≡ (x == y)
unfolding lisp_addr_cmp ip_addr_cmp cmp_nat
v4_equal x y = ground arith

part_run :
    (a b n m x y : ℕ)
    → n ≤ m
    → m ≤ 32
    → pref_get_network_address_v4 a n ≡ ok (ip (v4 x))
    → pref_get_network_address_v4 b n ≡ ok (ip (v4 y))
    → pref_is_prefix_b_part_of_a (ippref (v4 a) n) (ippref (v4 b) m) ≡ ok (x == y, ippref (v4 b) m)
unfolding pref_is_prefix_b_part_of_a lisp_addr_is_ip_pref lisp_addr_get_plen lisp_addr_set_plen
    pref_get_network_address same_network lisp_addr_ip_afi ip_addr_afi
part_run a b n m x y le small e f =
    let order : ltb m n ≡ false = ge→ltb _ _ le in
    let short : n % 256 ≡ n = omega arith in
    let back : m % 256 ≡ m = omega arith in
    rw
      (
        order,
        e,
        lisp_addr_set_plen,
        short,
        pref_get_network_address,
        f,
        same_network,
        v4_equal x y,
        back,
      )
      refl

-- An IPv4 prefix b of at most 32 bits is part of a prefix a exactly if it is at least as long and
-- both addresses lie in the same block of the size of a. The test meets no undefined behaviour and
-- gives b back as it was.
pub pref_is_prefix_b_part_of_a-IsPart :
    (a b n m : ℕ)
    → a < word_mod
    → b < word_mod
    → n ≤ 32
    → m ≤ 32
    → Returns
        (pref_is_prefix_b_part_of_a (ippref (v4 a) n) (ippref (v4 b) m))
        (λ r. (r.1 ≡ ippref (v4 b) m) × ((r.0 ≡ true) ↔ ((n ≤ m) × SameBlock (32 - n) a b)))
unfolding pref_is_prefix_b_part_of_a lisp_addr_is_ip_pref lisp_addr_get_plen lisp_addr_ip_afi
    ip_addr_afi
pref_is_prefix_b_part_of_a-IsPart a b n m la lb ln lm = elim (Bool-cases (ltb m n)) [
  | inl z ↦
      let shorter : m < n = ltb→lt _ _ z in
      ((false, ippref (v4 b) m), rw z refl, (refl, (λ e. cc, λ h. absurd (omega (arith, h.0)))))
  | inr z ↦
      let (x, e, s) = network_v4-IsStart a n la ln in
      let (y, f, t) = network_v4-IsStart b n lb ln in
      let same = starts-SameBlock (32 - n) a b x y s t in
      (
        (x == y, ippref (v4 b) m),
        part_run a b n m x y (ltb→ge _ _ z) lm e f,
        (refl, (λ r. (ltb→ge _ _ z, same.0 (==→eq _ _ r)), λ h. eq→== _ _ (same.1 h.1))),
      )
]

-- The network prefix of an IPv4 prefix has its length and the first address of its block.
pub pref_get_network_prefix-IsStart :
    (a n : ℕ)
    → a < word_mod
    → n ≤ 32
    → Returns
        (pref_get_network_prefix (ippref (v4 a) n))
        (λ o. (r : ℕ) × (o ≡ some (ippref (v4 r) n)) × IsStart (32 - n) a r)
unfolding pref_get_network_prefix pref_get_network_address lisp_addr_set_plen lisp_addr_get_plen
pref_get_network_prefix-IsStart a n la ln =
    let (r, e, s) = network_v4-IsStart a n la ln in
    let short : n % 256 ≡ n = omega arith in
    (some (ippref (v4 r) n), rw (e, short) refl, (r, refl, s))
