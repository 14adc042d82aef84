-- ===== src/Checksum/Sums.antt =====
-- lispd/lib/cksum.c: a sum up to its carries.
use lispmob.Prelude.{
  ℕ, ◌+◌, ◌-◌, ◌*◌, ◌/◌, ◌%◌, ◌^◌, ◌<◌, ◌≤◌, ◌≡◌, sym, ap, ◌∙◌, arith, [], ◌∷◌, ◌++◌, ◌==◌,
  if◌then◌else◌, length, ok,
}
use lispmob.Wire.{Bytes}
use lispmob.Checksum.{word, ip_sum, udp_sum, fold_high, add_carries, carry_rounds}

-- RFC 1071: the ones' complement sum of 16-bit words, whose carry is added at once
unfoldable pub ones_add : ℕ → ℕ → ℕ
ones_add a b = (a + b) % 65536 + (a + b) / 65536

unfoldable pub ones_sum : ℕ → Bytes → ℕ
unfolding ones_add
ones_sum sum [] = sum
ones_sum sum (a ∷ []) = ones_add sum a
ones_sum sum (a ∷ b ∷ rest) = ones_sum (ones_add sum (word a b)) rest

-- the sum of the words
unfoldable pub total : Bytes → ℕ
total [] = 0
total (a ∷ []) = a
total (a ∷ b ∷ rest) = word a b + total rest

-- the one of 0 to 65535 that stands for a sum
unfoldable pub canon : ℕ → ℕ
canon s = if s == 0 then 0 else (s - 1) % 65535 + 1

abbrev pub AreBytes : Bytes → Type 0
AreBytes [] = Unit
AreBytes (b ∷ bs) = (b < 256) × AreBytes bs

pub canon-add : (s w : ℕ) → w < 65536 → canon (s + w) ≡ ones_add (canon s) w
unfolding canon ones_add
canon-add s w h = ground arith

pub canon-fold : (s : ℕ) → canon (s % 65536 + s / 65536) ≡ canon s
unfolding canon
canon-fold s = ground arith

pub canon-small : (s : ℕ) → s < 65536 → canon s ≡ s
unfolding canon
canon-small s h = ground arith

pub canon-congruent : (s t d : ℕ) → canon s ≡ canon t → canon (s + d) ≡ canon (t + d)
unfolding canon
canon-congruent s t d h = ground arith

pub ip_sum-total : (s : ℕ) (bs : Bytes) → s + total bs < 2 ^ 32 → ip_sum s bs ≡ s + total bs
unfolding ip_sum total
ip_sum-total s [] h = omega arith
ip_sum-total s (a ∷ []) h = omega arith
ip_sum-total s (a ∷ b ∷ rest) h =
    let small : (s + word a b) % 2 ^ 32 ≡ s + word a b = omega arith in
    rw (small) (ip_sum-total (s + word a b) rest (omega arith) ∙ omega arith)

pub total-bound : (bs : Bytes) → AreBytes bs → 2 * total bs ≤ 65535 * (length bs + 1)
unfolding total
total-bound [] h = omega arith
total-bound (a ∷ []) (ha, h) = omega arith
total-bound (a ∷ b ∷ rest) (ha, (hb, h)) = let less = total-bound rest h in omega arith

pub ones_sum-canon :
    (s : ℕ) (bs : Bytes) → AreBytes bs → ones_sum (canon s) bs ≡ canon (s + total bs)
unfolding ones_sum total
ones_sum-canon s [] h = ap canon (omega arith)
ones_sum-canon s (a ∷ []) (ha, h) = sym (canon-add s a (omega arith))
ones_sum-canon s (a ∷ b ∷ rest) (ha, (hb, h)) =
    let next = sym (canon-add s (word a b) (omega arith)) in
    let all : s + word a b + total rest ≡ s + (word a b + total rest) = omega arith in
    rw (next) (ones_sum-canon (s + word a b) rest h ∙ ap canon all)

fold_high-canon :
    (s : ℕ) → s < 2 ^ 32 → (fold_high s < 2147483648) × (canon (fold_high s) ≡ canon s)
unfolding canon
fold_high-canon s h = (ground arith, ground arith)

-- The sum of a packet never passes 32 bits, however long it is.
pub udp_sum-canon :
    (s : ℕ) (bs : Bytes)
    → AreBytes bs
    → s < 2147483648
    → (udp_sum s bs < 2147549184) × (canon (udp_sum s bs) ≡ canon (s + total bs))
unfolding udp_sum total
udp_sum-canon s [] h small = (omega arith, ap canon (omega arith))
udp_sum-canon s (a ∷ []) (ha, h) small =
    let same : (s + a) % 2 ^ 32 ≡ s + a = omega arith in (omega arith, ap canon same)
udp_sum-canon s (a ∷ b ∷ rest) (ha, (hb, h)) small =
    let same : (s + word a b) % 2 ^ 32 ≡ s + word a b = omega arith in
    let (low, fold) = fold_high-canon (s + word a b) (omega arith) in
    let (fits, sum) = udp_sum-canon (fold_high (s + word a b)) rest h low in
    let all : s + word a b + total rest ≡ s + (word a b + total rest) = omega arith in
    (
      rw (same) fits,
      rw (same) (
          sum
          ∙ canon-congruent (fold_high (s + word a b)) (s + word a b) (total rest) fold
          ∙ ap canon all),
    )

pub add_carries-canon : (s : ℕ) → s < 2 ^ 32 → add_carries carry_rounds s ≡ ok (canon s)
unfolding add_carries canon
add_carries-canon s h = ground arith

pub total-append : (xs ys : Bytes) → length xs % 2 ≡ 0 → total (xs ++ ys) ≡ total xs + total ys
unfolding total
total-append [] ys h = omega arith
total-append (a ∷ []) ys h = absurd (omega arith)
total-append (a ∷ b ∷ xs) ys h = let rest = total-append xs ys (omega arith) in omega arith
