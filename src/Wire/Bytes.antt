-- ===== src/Wire/Bytes.antt =====
-- The bytes of a number, and which addresses have a form on the wire.
use mathlib.Core.List.{append_assoc}
use lispmob.Prelude.{
  ℕ, zero, suc, ◌+◌, ◌*◌, ◌/◌, ◌%◌, ◌^◌, ◌<◌, ◌≡◌, refl, ap, ◌∙◌, arith, Bool, true, false, some,
  [], ◌∷◌, ◌++◌, length, length-append, ok,
}
use lispmob.Wire.{Bytes, be, bit, add_node}
use lispmob.Wire.Parse.{read_be, bit_at, ntohs_at}

pub length-be : (k n : ℕ) → length (be k n) ≡ k
unfolding be
length-be zero n = refl
length-be (suc k) n =
    omega (arith, length-append (be k (n / 256)) (n % 256 ∷ []), length-be k (n / 256))

carry : (acc p m : ℕ) → (acc * p + m / 256) * 256 + m % 256 ≡ acc * (256 * p) + m
carry acc p m = grind arith

read_be-step :
    (j k acc m : ℕ) (rest : Bytes)
    → m < 256 ^ k
    → read_be (k + j) acc (be k m ++ rest) ≡ read_be j (acc * 256 ^ k + m) rest
unfolding read_be be
read_be-step j zero acc m rest h =
    let none_left : 0 + j ≡ j = omega arith in
    let same : acc * 1 + m ≡ acc = omega arith in rw (none_left, same) refl
read_be-step j (suc k) acc m rest h =
    let count : suc k + j ≡ k + suc j = omega arith in
    let value : (acc * 256 ^ k + m / 256) * 256 + m % 256 ≡ acc * 256 ^ suc k + m =
      carry acc (256 ^ k) m ∙ ap (λ p. acc * p + m) (omega arith) in
    rw (count, append_assoc)
      (read_be-step (suc j) k acc (m / 256) (m % 256 ∷ rest) (omega arith)
        ∙ ap (λ v. read_be j v rest) value)

-- Reading `k` bytes gives back the number that they were written from.
pub read_be-be : (k m : ℕ) (rest : Bytes) → m < 256 ^ k → read_be k 0 (be k m ++ rest) ≡ ok m
unfolding read_be
read_be-be k m rest h =
    let all : k + 0 ≡ k = omega arith in
    let value : 0 * 256 ^ k + m ≡ m = omega arith in
    (rw (all, value) at (read_be-step 0 k 0 m rest h))

pub ntohs-be : (n : ℕ) (rest : Bytes) → n < 65536 → ntohs_at 0 (be 2 n ++ rest) ≡ ok n
unfolding be
ntohs-be n rest h = ap ok (omega arith)

pub bits :
    (l s p : Bool)
    → (bit_at 4 (bit s + 2 * bit p + 4 * bit l) ≡ l)
      × (bit_at 1 (bit s + 2 * bit p + 4 * bit l) ≡ s)
      × (bit_at 2 (bit s + 2 * bit p + 4 * bit l) ≡ p)
bits true true true = (refl, refl, refl)
bits true true false = (refl, refl, refl)
bits true false true = (refl, refl, refl)
bits true false false = (refl, refl, refl)
bits false true true = (refl, refl, refl)
bits false true false = (refl, refl, refl)
bits false false true = (refl, refl, refl)
bits false false false = (refl, refl, refl)

-- A node whose address wrote something stands before the nodes after it.
pub add_node-some :
    (fixed w r : Bytes)
    → 0 < length w
    → add_node fixed w (ok (some r)) ≡ ok (some ((fixed ++ w) ++ r))
add_node-some fixed [] r h = absurd (omega arith)
add_node-some fixed (b ∷ bs) r h = refl
