-- ===== src/Lbuf/Whole.antt =====
-- lispd/lib/lbuf.c: the whole buffer after bytes are put or pushed, its memory, rooms and header offsets
-- included.
use lispmob.Prelude.{
  ℕ, zero, suc, ◌+◌, ◌-◌, ◌%◌, ◌<◌, ◌≤◌, ◌≡◌, ◌++◌, Option, List, [], ◌∷◌, none, arith, ltb, leb,
  le→leb, ltb→ge, ltb→lt, ne→==, true, if◌then◌else◌, length, take, drop, replicate, length-append,
  length-replicate, ok, refl, ap, ap₂, ◌∙◌, max, Bool-cases, inl, inr, eq→==,
}
use lispmob.Lbuf.{
  is_heap, Memory, Lbuf, u32_mod, tailroom, contents, shift_marks, reallocated, new_allocated,
  moved, write_at, lbuf_resize, lbuf_prealloc_tailroom, lbuf_prealloc_headroom, lbuf_put_uninit,
  lbuf_put, lbuf_push_uninit, lbuf_push,
}
use lispmob.Lbuf.Resize.{Holds, contents-Holds, tailroom-Holds, moved_write}

-- The buffer with room for `n` bytes behind those in use: memory that was never written is added, so
-- that there are at least 64 bytes, if there is no room.
abbrev pub with_tailroom : Lbuf → ℕ → Lbuf
with_tailroom b n = record b {
  mem = if ltb (tailroom b) n then b.mem ++ replicate (max n 64 - tailroom b) none else b.mem;
  allocated = if ltb (tailroom b) n then b.head + b.size + max n 64 else b.allocated;
}

-- the buffer with bytes behind those in use, in a memory with room for them
abbrev pub appended : Lbuf → Memory → Lbuf
appended p bytes = record p {
  size = p.size + length bytes;
  mem = take (p.head + p.size) p.mem ++ (bytes ++ drop (p.head + p.size + length bytes) p.mem);
}

-- The buffer with room for `n` bytes before those in use. If there is no room, the bytes in use go
-- into a new memory, with at least 64 bytes before them, and the header offsets go with them.
abbrev pub with_headroom : Lbuf → ℕ → Lbuf
with_headroom b n = record b {
  mem =
      if ltb b.head n
      then replicate (max n 64) none ++ (contents b ++ replicate (tailroom b) none)
      else b.mem;
  allocated = if ltb b.head n then max n 64 + b.size + tailroom b else b.allocated;
  marks =
      if ltb b.head n
      then shift_marks ((max n 64 + u32_mod - b.head) % u32_mod) b.marks
      else b.marks;
  head = if ltb b.head n then max n 64 else b.head;
}

-- the buffer with bytes before those in use, in a memory with room for them
abbrev pub prepended : Lbuf → Memory → Lbuf
prepended p bytes = record p {
  head = p.head - length bytes;
  size = p.size + length bytes;
  mem = take (p.head - length bytes) p.mem ++ (bytes ++ drop p.head p.mem);
}

take_all {ℓ} : {A : Type ℓ} (n : ℕ) (xs : List A) → length xs ≤ n → take n xs ≡ xs
take_all zero [] h = refl
take_all zero (x ∷ xs) h = absurd (omega arith)
take_all (suc n) [] h = refl
take_all (suc n) (x ∷ xs) h = ap (λ ys. x ∷ ys) (take_all n xs (omega arith))

length-mem : {b : Lbuf} {c : Memory} → Holds b c → length b.mem ≡ b.allocated
length-mem {b} {c} h =
    ap length h.split
    ∙ omega (
      arith,
      length-append h.pre (c ++ h.post),
      length-append c h.post,
      h.at_head,
      h.in_use,
      h.total,
    )

module _ (b : Lbuf) (c : Memory) (h : Holds b c) (heap : is_heap b.source ≡ true) where
  prealloc-tailroom :
      (n : ℕ)
      → b.head + b.size + max n 64 < u32_mod
      → lbuf_prealloc_tailroom b n ≡ ok (with_tailroom b n)
  unfolding lbuf_prealloc_tailroom lbuf_resize
  prealloc-tailroom n fits = elim (Bool-cases (ltb (tailroom b) n)) [
    | inl e ↦
        let room = tailroom-Holds h in
        let size = length-mem h in
        let total : new_allocated b b.head (max n 64) ≡ b.head + b.size + max n 64 = omega arith in
        let all : length b.mem ≤ b.head + b.size + max n 64 =
          omega (arith, size, h.total, room, ltb→lt (tailroom b) n e) in
        let gap : b.head + b.size + max n 64 - length b.mem ≡ max n 64 - tailroom b =
          omega (arith, size, room, h.total) in
        let grown : reallocated b.mem (b.head + b.size + max n 64)
            ≡ b.mem ++ replicate (max n 64 - tailroom b) none =
          ap₂ (λ xs k. xs ++ replicate k none) (take_all (b.head + b.size + max n 64) b.mem all)
            gap in
        rw (e, heap, eq→== b.head b.head refl, total)
          (ap (λ m. ok (record b { mem = m; allocated = b.head + b.size + max n 64 })) grown)
    | inr e ↦ rw e refl
  ]

  prealloc-headroom :
      (n : ℕ)
      → max n 64 + b.allocated < u32_mod
      → lbuf_prealloc_headroom b n ≡ ok (with_headroom b n)
  unfolding lbuf_prealloc_headroom lbuf_resize moved
  prealloc-headroom n fits = elim (Bool-cases (ltb b.head n)) [
    | inl e ↦
        let less = ltb→lt b.head n e in
        let other = ne→== (max n 64) b.head (omega (arith, less)) in
        let room = tailroom-Holds h in
        let total : new_allocated b (max n 64) (tailroom b) ≡ max n 64 + b.size + tailroom b =
          omega (arith, h.total, room) in
        let used : length (contents b) ≡ b.size = ap length (contents-Holds h) ∙ h.in_use in
        let sizes : max n 64 + b.size + tailroom b ≡ max n 64 + (length (contents b) + tailroom b) =
          omega (arith, used) in
        let written =
          moved_write (max n 64 + b.size + tailroom b) (max n 64) (contents b) (tailroom b)
            (contents b) refl sizes in
        rw (e, heap, other, total, written) refl
    | inr e ↦ rw e refl
  ]

  length-with_tailroom : (n : ℕ) → b.head + b.size + n ≤ length (with_tailroom b n).mem
  length-with_tailroom n = elim (Bool-cases (ltb (tailroom b) n)) [
    | inl e ↦
        let size = length-mem h in
        let less = ltb→lt (tailroom b) n e in
        let gap = length-replicate {A = Option ℕ} (max n 64 - tailroom b) none in
        rw e (
          omega (
            arith,
            length-append b.mem (replicate (max n 64 - tailroom b) none),
            size,
            less,
            gap,
            tailroom-Holds h,
            h.total,
          ))
    | inr e ↦
        let size = length-mem h in
        let more = ltb→ge (tailroom b) n e in
        rw e (omega (arith, size, more, tailroom-Holds h, h.total))
  ]

  head-with_headroom :
      (n : ℕ)
      → (n ≤ (with_headroom b n).head) × ((with_headroom b n).head ≤ length (with_headroom b n).mem)
  head-with_headroom n = elim (Bool-cases (ltb b.head n)) [
    | inl e ↦
        let whole =
          length-append (replicate (max n 64) none) (contents b ++ replicate (tailroom b) none) in
        let front = length-replicate {A = Option ℕ} (max n 64) none in
        rw e (omega arith, omega arith)
    | inr e ↦
        let size = length-mem h in
        let more = ltb→ge b.head n e in rw e (more, omega (arith, size, h.total))
  ]

  pub lbuf_put-appended :
      (bytes : Memory)
      → b.head + b.size + max (length bytes) 64 < u32_mod
      → lbuf_put b bytes ≡ ok (b.head + b.size, appended (with_tailroom b (length bytes)) bytes)
  unfolding lbuf_put lbuf_put_uninit write_at
  lbuf_put-appended bytes fits =
      let n = length bytes in
      let p = with_tailroom b n in
      let size : (b.size + n) % u32_mod ≡ b.size + n = omega arith in
      let inside : leb (b.head + b.size + n) (length p.mem) ≡ true =
        le→leb _ _ (length-with_tailroom n) in
      rw (prealloc-tailroom n fits, inside, size) refl

  pub lbuf_push-prepended :
      (bytes : Memory)
      → max (length bytes) 64 + b.allocated < u32_mod
      → lbuf_push b bytes ≡ ok (prepended (with_headroom b (length bytes)) bytes)
  unfolding lbuf_push lbuf_push_uninit write_at
  lbuf_push-prepended bytes fits =
      let n = length bytes in
      let p = with_headroom b n in
      let (room, within) = head-with_headroom n in
      let back : p.head - n + n ≡ p.head = omega (arith, room) in
      let size : (b.size + n) % u32_mod ≡ b.size + n = omega (arith, h.total) in
      let inside : leb p.head (length p.mem) ≡ true = le→leb _ _ within in
      rw (prealloc-headroom n fits, back, inside, size) refl
