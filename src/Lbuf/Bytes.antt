-- ===== src/Lbuf/Bytes.antt =====
-- Segments of a memory: what `take`, `drop` and a write do to `pre ++ (mid ++ post)`.
use lispmob.Prelude.{
  ℕ, zero, suc, ◌+◌, ◌≡◌, List, [], ◌∷◌, ◌++◌, arith, leb, true, length, take, drop, replicate,
  length-append, drop-append, ok, refl, ap, min,
}
use lispmob.Lbuf.{Memory, write_at}

module _ {A : Type 0} where
  pub take-append-add : (xs ys : List A) (k : ℕ) → take (length xs + k) (xs ++ ys) ≡ xs ++ take k ys
  take-append-add [] ys k = let e : 0 + k ≡ k = omega arith in rw e
  take-append-add (x ∷ xs) ys k =
      let e : suc (length xs) + k ≡ suc (length xs + k) = omega arith in
      rw (e, take-append-add xs ys k)

  pub drop-append-add : (xs ys : List A) (k : ℕ) → drop (length xs + k) (xs ++ ys) ≡ drop k ys
  drop-append-add [] ys k = let e : 0 + k ≡ k = omega arith in rw e
  drop-append-add (x ∷ xs) ys k =
      let e : suc (length xs) + k ≡ suc (length xs + k) = omega arith in
      rw (e, drop-append-add xs ys k)

  pub take-append : (xs ys : List A) → take (length xs) (xs ++ ys) ≡ xs
  take-append [] ys = refl
  take-append (x ∷ xs) ys = ap (λ zs. x ∷ zs) (take-append xs ys)

  pub take-append-drop : (n : ℕ) (xs : List A) → take n xs ++ drop n xs ≡ xs
  take-append-drop zero xs = refl
  take-append-drop (suc n) [] = refl
  take-append-drop (suc n) (x ∷ xs) = rw (take-append-drop n xs)

  pub length-take : (n : ℕ) (xs : List A) → length (take n xs) ≡ min n (length xs)
  length-take zero xs = omega arith
  length-take (suc n) [] = omega arith
  length-take (suc n) (x ∷ xs) = omega (arith, length-take n xs)

  pub replicate-split : (n m : ℕ) (a : A) → replicate (n + m) a ≡ replicate n a ++ replicate m a
  replicate-split zero m a = let e : zero + m ≡ m = omega arith in rw e
  replicate-split (suc n) m a =
      let e : suc n + m ≡ suc (n + m) = omega arith in rw (e, replicate-split n m a)

-- A write over a segment of its own length replaces that segment.
pub write_at-segment :
    (pre old new post : Memory)
    → length old ≡ length new
    → write_at (pre ++ (old ++ post)) (length pre) new ≡ ok (pre ++ (new ++ post))
unfolding write_at
write_at-segment pre old new post e =
    let n = length new in
    let inside : leb (length pre + n) (length (pre ++ (old ++ post))) ≡ true =
      ground (arith, length-append pre (old ++ post), length-append old post) in
    rw (inside, take-append, drop-append-add, ← e, drop-append)
