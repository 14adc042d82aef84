-- ===== src/Lbuf/Resize.antt =====
-- lispd/lib/lbuf.c `lbuf_resize_` and the two functions that make room by it.
use mathlib.Core.List.{append_assoc}
use lispmob.Prelude.{
  drop-append, ℕ, ◌+◌, ◌-◌, ◌%◌, ◌<◌, ◌≤◌, ◌≡◌, ◌++◌, Option, none, arith, ltb, ◌==◌, true, false,
  length, take, replicate, length-append, length-replicate, ok, fault, invalid_free, Returns, refl,
  sym, subst, max, Bool-cases, inl, inr, ==→eq, ltb→ge, ltb,
}
use lispmob.Lbuf.{
  is_heap, Memory, Lbuf, u32_mod, headroom, tailroom, contents, reallocated, new_allocated, moved,
  shift_marks, lbuf_resize, lbuf_prealloc_tailroom, lbuf_prealloc_headroom, write_at,
}
use lispmob.Lbuf.Bytes.{
  take-append-add, take-append, length-take, replicate-split, write_at-segment,
}

-- The buffer's memory is `pre`, the bytes `c` in use and `post`, as its fields say, and its size
-- fits 32 bits.
pub record Holds (b : Lbuf) (c : Memory) : Type 0 where
  pub pre : Memory
  pub post : Memory
  pub split : b.mem ≡ pre ++ (c ++ post)
  pub at_head : length pre ≡ b.head
  pub in_use : length c ≡ b.size
  pub total : b.head + b.size + length post ≡ b.allocated
  pub word : b.allocated < u32_mod

-- The bytes in use are what `contents` reads.
pub contents-Holds : {b : Lbuf} {c : Memory} → Holds b c → contents b ≡ c
contents-Holds {b} {c} h =
    rw (h.split, ← h.at_head, ← h.in_use, drop-append h.pre (c ++ h.post)) (take-append c h.post)

pub tailroom-Holds : {b : Lbuf} {c : Memory} (h : Holds b c) → tailroom b ≡ length h.post
tailroom-Holds h = omega (arith, h.total, h.word)

-- What resizing to a headroom and a tailroom gives: the same bytes in use, and exactly that room.
pub record IsResized (b : Lbuf) (c : Memory) (head tail : ℕ) (r : Lbuf) : Type 0 where
  pub holds : Holds r c
  pub headroom : r.head ≡ head
  pub tailroom : length holds.post ≡ tail
  pub size : r.size ≡ b.size
  pub source : r.source ≡ b.source

reallocated-split :
    (pre c post : Memory) (tail : ℕ)
    → reallocated (pre ++ (c ++ post)) (length pre + (length c + tail))
      ≡ pre ++ (c ++ (take tail post ++ replicate (tail - length post) none))
reallocated-split pre c post tail =
    let gap : length pre + (length c + tail) - length (pre ++ (c ++ post)) ≡ tail - length post =
      omega (arith, length-append pre (c ++ post), length-append c post) in
    rw (gap, take-append-add, take-append-add, append_assoc, append_assoc)

abbrev blank : ℕ → Memory
blank k = replicate k none

pub moved_write :
    (n head : ℕ) (c : Memory) (tail : ℕ) (from : Memory)
    → from ≡ c
    → n ≡ head + (length c + tail)
    → write_at (blank n) head from ≡ ok (blank head ++ (c ++ blank tail))
moved_write n head c tail from same sizes =
    let width : length (blank (length c)) ≡ length c = length-replicate (length c) none in
    let at : length (blank head) ≡ head = length-replicate head none in
    rw (same, sizes, replicate-split head (length c + tail), replicate-split (length c) tail)
      (subst
        (λ (i : ℕ).
          write_at (blank head ++ (blank (length c) ++ blank tail)) i c
          ≡ ok (blank head ++ (c ++ blank tail)))
        at (write_at-segment (blank head) (blank (length c)) c (blank tail) width))

-- A buffer on the heap is resized to any headroom and tailroom with which its size fits 32 bits: the
-- bytes in use are kept, and both rooms are as asked for.
pub lbuf_resize-IsResized :
    (b : Lbuf) (c : Memory) (head tail : ℕ)
    → Holds b c
    → is_heap b.source ≡ true
    → head + b.size + tail < u32_mod
    → Returns (lbuf_resize b head tail) (IsResized b c head tail)
unfolding lbuf_resize moved
lbuf_resize-IsResized b c head tail h heap fits =
    let n : ℕ = head + b.size + tail in
    let whole : new_allocated b head tail ≡ n = omega arith in
    elim (Bool-cases (head == b.head)) [
      | inl e ↦
          let same = ==→eq head b.head e in
          let parts : n ≡ length h.pre + (length c + tail) = omega (arith, h.at_head, h.in_use) in
          let post = take tail h.post ++ replicate (tail - length h.post) none in
          let post_length : length post ≡ tail = omega (
            arith,
            length-append (take tail h.post) (replicate (tail - length h.post) none),
            length-take tail h.post,
            length-replicate {A = Option ℕ} (tail - length h.post) none,
          ) in
          (
            record b { mem = reallocated b.mem n; allocated = n },
            rw (heap, whole, e),
            record {
              holds = record {
                pre = h.pre;
                post = post;
                split = rw (h.split, parts) (reallocated-split h.pre c h.post tail);
                at_head = h.at_head;
                in_use = h.in_use;
                total = omega (arith, post_length);
                word = fits;
              };
              headroom = sym same;
              tailroom = post_length;
              size = refl;
              source = refl;
            },
          )
      | inr e ↦
          let none_of = λ (k : ℕ). replicate {A = Option ℕ} k none in
          let written : write_at (none_of n) head (contents b)
              ≡ ok (none_of head ++ (c ++ none_of tail)) =
            moved_write n head c tail (contents b) (contents-Holds h) (omega (arith, h.in_use)) in
          (
            record b {
              mem = none_of head ++ (c ++ none_of tail);
              allocated = n;
              marks = shift_marks ((head + u32_mod - b.head) % u32_mod) b.marks;
              head = head;
            },
            rw (heap, whole, e, written),
            record {
              holds = record {
                pre = none_of head;
                post = none_of tail;
                split = refl;
                at_head = length-replicate head none;
                in_use = h.in_use;
                total = omega (arith, length-replicate {A = Option ℕ} tail none);
                word = fits;
              };
              headroom = refl;
              tailroom = length-replicate tail none;
              size = refl;
              source = refl;
            },
          )
    ]

-- A buffer on the stack is never resized: its memory would be given to `free`.
lbuf_resize-stack :
    (b : Lbuf) (head tail : ℕ)
    → is_heap b.source ≡ false
    → lbuf_resize b head tail ≡ fault invalid_free
unfolding lbuf_resize
lbuf_resize-stack b head tail e = rw e

-- Room for `n` bytes behind the ones in use, which stay where they are.
pub record HasTail (b : Lbuf) (c : Memory) (n : ℕ) (r : Lbuf) : Type 0 where
  pub holds : Holds r c
  pub room : n ≤ length holds.post
  pub head : r.head ≡ b.head
  pub source : r.source ≡ b.source

pub lbuf_prealloc_tailroom-HasTail :
    (b : Lbuf) (c : Memory) (n : ℕ)
    → Holds b c
    → is_heap b.source ≡ true
    → b.head + b.size + max n 64 < u32_mod
    → Returns (lbuf_prealloc_tailroom b n) (HasTail b c n)
unfolding lbuf_prealloc_tailroom
lbuf_prealloc_tailroom-HasTail b c n h heap fits = elim (Bool-cases (ltb (tailroom b) n)) [
  | inl e ↦
      let (r, run, z) = lbuf_resize-IsResized b c b.head (max n 64) h heap fits in
      (
        r,
        rw (e, run),
        record {
          holds = z.holds;
          room = omega (arith, z.tailroom);
          head = z.headroom;
          source = z.source;
        },
      )
  | inr e ↦ (
    b,
    rw e,
    record {
      holds = h;
      room = omega (arith, ltb→ge (tailroom b) n e, tailroom-Holds h);
      head = refl;
      source = refl;
    },
  )
]

-- Room for `n` bytes before the ones in use, which keep their number and the room behind them.
pub record HasHead (b : Lbuf) (c : Memory) (n : ℕ) (r : Lbuf) : Type 0 where
  pub holds : Holds r c
  pub room : n ≤ r.head
  pub source : r.source ≡ b.source

pub lbuf_prealloc_headroom-HasHead :
    (b : Lbuf) (c : Memory) (n : ℕ)
    → Holds b c
    → is_heap b.source ≡ true
    → max n 64 + b.allocated < u32_mod
    → Returns (lbuf_prealloc_headroom b n) (HasHead b c n)
unfolding lbuf_prealloc_headroom
lbuf_prealloc_headroom-HasHead b c n h heap fits = elim (Bool-cases (ltb (headroom b) n)) [
  | inl e ↦
      let room = tailroom-Holds h in
      let (r, run, z) =
        lbuf_resize-IsResized b c (max n 64) (tailroom b) h heap (omega (arith, h.total)) in
      (
        r,
        rw (e, run),
        record { holds = z.holds; room = omega (arith, z.headroom); source = z.source },
      )
  | inr e ↦ (b, rw e, record { holds = h; room = ltb→ge (headroom b) n e; source = refl })
]
