-- ===== src/Prefixes/Mask.antt =====
-- lispd/lib/prefixes.c: what the mask of a prefix keeps of an address.
use lispmob.Prelude.{
  ℕ, zero, suc, ◌+◌, ◌-◌, ◌*◌, ◌/◌, ◌%◌, ◌^◌, ◌≤◌, ◌<◌, ◌≡◌, refl, subst, arith, sym, ok, ◌==◌,
  Bool-cases, inl, inr, ==→eq, le→leb,
}
use lispmob.Address.{ip, v4}
use lispmob.Prefixes.{band, ones_above, pref_get_network_address_v4, word_mod}

-- `r` is the start of the block of `2 ^ k` addresses that `a` lies in.
abbrev pub IsStart : ℕ → ℕ → ℕ → Type 0
IsStart k a r = (q : ℕ) × (r ≡ q * 2 ^ k) × (r ≤ a) × (a < r + 2 ^ k)

pow_le : (w k : ℕ) → k ≤ w → 2 ^ k ≤ 2 ^ w
pow_le zero zero h = omega arith
pow_le zero (suc k) h = absurd (omega arith)
pow_le (suc w) zero h = omega (arith, pow_le w zero (omega arith))
pow_le (suc w) (suc k) h = omega (arith, pow_le w k (omega arith))

pow_pos : (k : ℕ) → 1 ≤ 2 ^ k
pow_pos k = omega (arith, pow_le k zero (omega arith))

twice : (q k t : ℕ) → t ≡ q * 2 ^ k → t * 2 ≡ q * 2 ^ suc k
twice q k t e = grind arith

band-IsStart : (w k a : ℕ) → k ≤ w → a < 2 ^ w → IsStart k a (band w a (2 ^ w - 2 ^ k))
unfolding band
band-IsStart zero zero a h lt = (0, omega arith, omega arith, omega arith)
band-IsStart zero (suc k) a h lt = absurd (omega arith)
band-IsStart (suc w) zero a h lt =
    let (q, e, le, up) = band-IsStart w zero (a / 2) (omega arith) (omega arith) in
    let half : (2 ^ suc w - 2 ^ zero) / 2 ≡ 2 ^ w - 2 ^ zero = omega (arith, pow_pos w) in
    let odd : (2 ^ suc w - 2 ^ zero) % 2 ≡ 1 = omega (arith, pow_pos w) in
    rw (half, odd) (a, omega arith, omega arith, omega arith)
band-IsStart (suc w) (suc k) a h lt =
    let (q, e, le, up) = band-IsStart w k (a / 2) (omega arith) (omega arith) in
    let half : (2 ^ suc w - 2 ^ suc k) / 2 ≡ 2 ^ w - 2 ^ k = omega arith in
    let even : (2 ^ suc w - 2 ^ suc k) % 2 ≡ 0 = omega arith in
    rw (half, even) (q, omega (arith, twice q k _ e), omega arith, omega arith)

ones_above_mask : (k : ℕ) → k ≤ 32 → ones_above k ≡ 2 ^ 32 - 2 ^ k
unfolding ones_above
ones_above_mask k h = omega (arith, pow_le 32 k h, pow_pos k)

-- The network of an IPv4 address is the start of its block, which has 32 - n bits.
pub network_v4-IsStart :
    (a n : ℕ)
    → a < word_mod
    → n ≤ 32
    → (r : ℕ) × (pref_get_network_address_v4 a n ≡ ok (ip (v4 r))) × IsStart (32 - n) a r
unfolding pref_get_network_address_v4
network_v4-IsStart a n lt h = elim (Bool-cases (n == 0)) [
  | inl z ↦
      let s : IsStart 32 a (band 32 a (2 ^ 32 - 2 ^ 32)) = band-IsStart 32 32 a (omega arith) lt in
      let k : n ≡ 0 = ==→eq _ _ z in
      (band 32 a 0, rw z refl, subst (λ m. IsStart (32 - m) a (band 32 a 0)) (sym k) s)
  | inr z ↦
      let s = band-IsStart 32 (32 - n) a (omega arith) lt in
      let mask : ones_above (32 - n) ≡ 2 ^ 32 - 2 ^ (32 - n) =
        ones_above_mask (32 - n) (omega arith) in
      (
        band 32 a (ones_above (32 - n)),
        rw (z, le→leb _ _ h) refl,
        subst (λ m. IsStart (32 - n) a (band 32 a m)) (sym mask) s,
      )
]
