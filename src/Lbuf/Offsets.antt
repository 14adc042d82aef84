-- ===== src/Lbuf/Offsets.antt =====
-- lispd/lib/lbuf.c and lispd/lib/lbuf.h: the header offsets, which are 16 bits wide.
use lispmob.Prelude.{
  ℕ, ◌+◌, ◌-◌, ◌%◌, ◌^◌, ◌<◌, ◌≤◌, ◌≡◌, some, arith, ltb, ◌==◌, true, false, Run, ok, fault,
  ok_injective, ◌>>=◌, Returns, refl, subst, Bool-cases, ==→eq, ==→ne, ◌⊎◌, ◌≢◌, ltb→lt, ltb→ge,
  inl, inr, ge→ltb, ne→==, ◌∙◌,
}
use lispmob.Lbuf.{
  Marks, is_heap, Memory, reallocated, new_allocated, Lbuf, u32_mod, uint16_max, shift_mark,
  shift_marks, moved, lbuf_resize, lbuf_pull, point_to, here, lbuf_reset_ip, lbuf_reset_udp,
  lbuf_reset_lisp_hdr, lbuf_reset_l3, lbuf_reset_l4, lbuf_reset_lisp, lbuf_point_to_ip,
  lbuf_point_to_udp, lbuf_point_to_lisp_hdr, lbuf_point_to_l3, lbuf_point_to_l4, lbuf_point_to_lisp,
}
use lispmob.Lbuf.Resize.{Holds, lbuf_resize-IsResized}

-- The offset `m'` under the data at `head'` is `m` under the data at `head`: it is not set, or is
-- as far from the data as before, or that distance cannot be written in 16 bits.
abbrev pub Follows : (head head' m m' : ℕ) → Type 0
Follows head head' m m' =
    ((m ≡ uint16_max) × (m' ≡ uint16_max))
    ⊎ ((m ≢ uint16_max)
        × ((m' + head ≡ m + head') ⊎ ((m + head' < head) ⊎ (head + uint16_max ≤ m + head'))))

shifted :
    (head head' m : ℕ)
    → head < u32_mod
    → head' < u32_mod
    → ((m + (head' + u32_mod - head) % u32_mod) % 2 ^ 16 + head ≡ m + head')
      ⊎ ((m + head' < head) ⊎ (head + uint16_max ≤ m + head'))
shifted head head' m h h' = elim (Bool-cases (ltb (m + head') head)) [
  | inl low ↦ inr (inl (ltb→lt _ _ low))
  | inr low ↦ elim (Bool-cases (ltb (m + head') (head + uint16_max))) [
    | inl fits ↦ inl (omega (arith, ltb→lt _ _ fits, ltb→ge _ _ low))
    | inr far ↦ inr (inr (ltb→ge _ _ far))
  ]
]

shift_mark-Follows :
    (head head' m : ℕ)
    → head < u32_mod
    → head' < u32_mod
    → Follows head head' m (shift_mark ((head' + u32_mod - head) % u32_mod) m)
shift_mark-Follows head head' m h h' = elim (Bool-cases (m == uint16_max)) [
  | inl e ↦ inl (==→eq _ _ e, rw e (==→eq _ _ e))
  | inr e ↦ rw e (inr (==→ne _ _ e, shifted head head' m h h'))
]

pub record AllFollow (b r : Lbuf) : Type 0 where
  pub ip : Follows b.head r.head b.marks.ip r.marks.ip
  pub udp : Follows b.head r.head b.marks.udp r.marks.udp
  pub lhdr : Follows b.head r.head b.marks.lhdr r.marks.lhdr
  pub l3 : Follows b.head r.head b.marks.l3 r.marks.l3
  pub l4 : Follows b.head r.head b.marks.l4 r.marks.l4
  pub lisp : Follows b.head r.head b.marks.lisp r.marks.lisp

Follows-same : (head m : ℕ) → Follows head head m m
Follows-same head m = elim (Bool-cases (m == uint16_max)) [
  | inl e ↦ inl (==→eq _ _ e, ==→eq _ _ e)
  | inr e ↦ inr (==→ne _ _ e, inl refl)
]

moved-AllFollow :
    (b : Lbuf) (head n : ℕ) (mem : Memory)
    → b.head < u32_mod
    → head < u32_mod
    → AllFollow b (record b {
      mem = mem;
      allocated = n;
      marks = shift_marks ((head + u32_mod - b.head) % u32_mod) b.marks;
      head = head;
    })
moved-AllFollow b head n mem old new = record {
  ip = shift_mark-Follows b.head head b.marks.ip old new;
  udp = shift_mark-Follows b.head head b.marks.udp old new;
  lhdr = shift_mark-Follows b.head head b.marks.lhdr old new;
  l3 = shift_mark-Follows b.head head b.marks.l3 old new;
  l4 = shift_mark-Follows b.head head b.marks.l4 old new;
  lisp = shift_mark-Follows b.head head b.marks.lisp old new;
}

same-AllFollow :
    (b : Lbuf) (n : ℕ) (mem : Memory) → AllFollow b (record b { mem = mem; allocated = n })
same-AllFollow b n mem = record {
  ip = Follows-same b.head b.marks.ip;
  udp = Follows-same b.head b.marks.udp;
  lhdr = Follows-same b.head b.marks.lhdr;
  l3 = Follows-same b.head b.marks.l3;
  l4 = Follows-same b.head b.marks.l4;
  lisp = Follows-same b.head b.marks.lisp;
}

moved_cases :
    (b : Lbuf) (head n : ℕ) (w : Run Memory) {r : Lbuf}
    → b.head < u32_mod
    → head < u32_mod
    → (w >>= (λ mem. ok (record b {
      mem = mem;
      allocated = n;
      marks = shift_marks ((head + u32_mod - b.head) % u32_mod) b.marks;
      head = head;
    })))
      ≡ ok r
    → AllFollow b r
moved_cases b head n (ok mem) old new e =
    subst (AllFollow b) (cc) (moved-AllFollow b head n mem old new)
moved_cases b head n (fault x) old new e = cc

resize_cases :
    (b : Lbuf) (head tail : ℕ) {r : Lbuf}
    → b.head < u32_mod
    → head < u32_mod
    → is_heap b.source ≡ true
    → lbuf_resize b head tail ≡ ok r
    → AllFollow b r
unfolding lbuf_resize moved
resize_cases b head tail old new heap e =
    let n = new_allocated b head tail in
    elim (Bool-cases (head == b.head)) [
      | inl same ↦
          subst (AllFollow b) (ok_injective (rw (heap, same) at e))
            (same-AllFollow b n (reallocated b.mem n))
      | inr other ↦ moved_cases b head n _ old new (rw (heap, other) at e)
    ]

-- When a heap buffer is resized within 32 bits, an offset that is not set stays so, and every other
-- one keeps its distance from the data, if the new offset can be written in 16 bits.
pub lbuf_resize-AllFollow :
    (b : Lbuf) (c : Memory) (head tail : ℕ)
    → Holds b c
    → is_heap b.source ≡ true
    → head + b.size + tail < u32_mod
    → Returns (lbuf_resize b head tail) (AllFollow b)
lbuf_resize-AllFollow b c head tail h heap fits =
    let (r, run, z) = lbuf_resize-IsResized b c head tail h heap fits in
    (r, run, resize_cases b head tail (omega (arith, h.total, h.word)) (omega arith) heap run)

point_to-pull :
    (c : Lbuf) (mark : Marks → ℕ) (n : ℕ)
    → mark c.marks ≡ here c
    → c.head < uint16_max
    → n ≤ c.size
    → c.size < u32_mod
    → point_to (mark (lbuf_pull c n).1.marks) (lbuf_pull c n).1 ≡ some c
unfolding lbuf_pull point_to
point_to-pull c mark n marked low le small =
    let pulled : ltb c.size n ≡ false = ge→ltb _ _ le in
    let start : mark c.marks ≡ c.head = marked ∙ omega arith in
    let set : (c.head == uint16_max) ≡ false = ne→== _ _ (omega arith) in
    let back : (c.head + n + (c.size - n) + u32_mod - c.head) % u32_mod ≡ c.size = omega arith in
    rw (pulled, start, set, back)

-- A header that is marked where the data starts is found again after any number of bytes was
-- pulled: pointing back to it restores the start and the size, while the data starts below 65535.
pub lbuf_point_to-reset :
    (b : Lbuf) (n : ℕ)
    → b.head < uint16_max
    → n ≤ b.size
    → b.size < u32_mod
    → (lbuf_point_to_ip (lbuf_pull (lbuf_reset_ip b) n).1 ≡ some (lbuf_reset_ip b))
      × (lbuf_point_to_udp (lbuf_pull (lbuf_reset_udp b) n).1 ≡ some (lbuf_reset_udp b))
      × (lbuf_point_to_lisp_hdr (lbuf_pull (lbuf_reset_lisp_hdr b) n).1
          ≡ some (lbuf_reset_lisp_hdr b))
      × (lbuf_point_to_l3 (lbuf_pull (lbuf_reset_l3 b) n).1 ≡ some (lbuf_reset_l3 b))
      × (lbuf_point_to_l4 (lbuf_pull (lbuf_reset_l4 b) n).1 ≡ some (lbuf_reset_l4 b))
      × (lbuf_point_to_lisp (lbuf_pull (lbuf_reset_lisp b) n).1 ≡ some (lbuf_reset_lisp b))
unfolding lbuf_reset_ip lbuf_reset_udp lbuf_reset_lisp_hdr lbuf_reset_l3 lbuf_reset_l4
    lbuf_reset_lisp lbuf_point_to_ip lbuf_point_to_udp lbuf_point_to_lisp_hdr lbuf_point_to_l3
    lbuf_point_to_l4 lbuf_point_to_lisp
lbuf_point_to-reset b n low le small = (
  point_to-pull (lbuf_reset_ip b) (λ m. m.ip) n refl low le small,
  point_to-pull (lbuf_reset_udp b) (λ m. m.udp) n refl low le small,
  point_to-pull (lbuf_reset_lisp_hdr b) (λ m. m.lhdr) n refl low le small,
  point_to-pull (lbuf_reset_l3 b) (λ m. m.l3) n refl low le small,
  point_to-pull (lbuf_reset_l4 b) (λ m. m.l4) n refl low le small,
  point_to-pull (lbuf_reset_lisp b) (λ m. m.lisp) n refl low le small,
)
