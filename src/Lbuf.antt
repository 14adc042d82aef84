-- ===== src/Lbuf.antt =====
-- lispd/lib/lbuf.c and lispd/lib/lbuf.h: the packet buffer. The memory at `base` is a list of `allocated`
-- bytes, a byte that was never written is `none`, and `data` is its distance from `base`.
pub mod Bytes
pub mod Resize
pub mod Whole
pub mod Contents
pub mod Offsets
mod Tests
use lispmob.Prelude.{
  ℕ, ◌+◌, ◌-◌, ◌%◌, ◌^◌, max, Bool, true, false, List, [], ◌∷◌, ◌++◌, map, Option, none, some, ltb,
  leb, ◌==◌, if◌then◌else◌, length, take, drop, replicate, Run, ok, fault, out_of_bounds,
  invalid_free, ◌>>=◌,
}

-- `lbuf_source_e`
pub data Source : Type 0 where
  malloc stack : Source

abbrev pub is_heap : Source → Bool
is_heap malloc = true
is_heap stack = false

abbrev pub Memory : Type 0
Memory = List (Option ℕ)

-- the offsets of the headers from `base`; `uint16_max` is an offset that is not set
pub record Marks : Type 0 where
  pub ip : ℕ
  pub udp : ℕ
  pub lhdr : ℕ
  pub l3 : ℕ
  pub l4 : ℕ
  pub lisp : ℕ

-- `lbuf_t`
pub record Lbuf : Type 0 where
  pub mem : Memory
  pub allocated : ℕ
  pub size : ℕ
  pub marks : Marks
  pub source : Source
  pub head : ℕ

abbrev pub uint16_max : ℕ
uint16_max = 65535

abbrev pub u32_mod : ℕ
u32_mod = 2 ^ 32

abbrev pub unset_marks : Marks
unset_marks = record {
  ip = uint16_max;
  udp = uint16_max;
  lhdr = uint16_max;
  l3 = uint16_max;
  l4 = uint16_max;
  lisp = uint16_max;
}

-- `lbuf_use` and `lbuf_use_stack` on memory of `allocated` bytes
unfoldable pub lbuf_use : Source → Memory → ℕ → Lbuf
lbuf_use source mem allocated = record {
  mem = mem;
  allocated = allocated;
  size = 0;
  marks = unset_marks;
  source = source;
  head = 0;
}

-- `xzalloc` fills with zeros
unfoldable pub lbuf_new : ℕ → Lbuf
unfolding lbuf_use
lbuf_new size = lbuf_use malloc (replicate size (some 0)) size

abbrev pub headroom : Lbuf → ℕ
headroom b = b.head

-- `end - tail`, as `uint32_t`
abbrev pub tailroom : Lbuf → ℕ
tailroom b = (b.allocated + u32_mod - (b.head + b.size)) % u32_mod

-- an offset that is set moves by `diff`, modulo the width of the field
abbrev pub shift_mark : ℕ → ℕ → ℕ
shift_mark diff m = if m == uint16_max then m else (m + diff) % 2 ^ 16

abbrev pub shift_marks : ℕ → Marks → Marks
shift_marks diff m = record {
  ip = shift_mark diff m.ip;
  udp = shift_mark diff m.udp;
  lhdr = shift_mark diff m.lhdr;
  l3 = shift_mark diff m.l3;
  l4 = shift_mark diff m.l4;
  lisp = shift_mark diff m.lisp;
}

-- `realloc` keeps the first bytes; what it adds is not written
abbrev pub reallocated : Memory → ℕ → Memory
reallocated mem n = take n mem ++ replicate (n - length mem) none

-- `memcpy` of `bytes` to offset `at` of the memory
unfoldable pub write_at : Memory → ℕ → Memory → Run Memory
write_at mem at bytes =
    if leb (at + length bytes) (length mem)
    then ok (take at mem ++ (bytes ++ drop (at + length bytes) mem))
    else fault out_of_bounds

-- the bytes in use
abbrev pub contents : Lbuf → Memory
contents b = take b.size (drop b.head b.mem)

-- `lbuf_resize_`. It gives the old memory back by `realloc` or `free`, which memory on the stack
-- does not allow.
abbrev pub new_allocated : Lbuf → ℕ → ℕ → ℕ
new_allocated b new_headroom new_tailroom = (new_headroom + b.size + new_tailroom) % u32_mod

unfoldable pub moved : Lbuf → ℕ → ℕ → Run Lbuf
moved b new_headroom allocated =
    write_at (replicate allocated none) new_headroom (contents b) >>= (λ mem. ok (record b {
      mem = mem;
      allocated = allocated;
      marks = shift_marks ((new_headroom + u32_mod - b.head) % u32_mod) b.marks;
      head = new_headroom;
    }))

unfoldable pub lbuf_resize : Lbuf → ℕ → ℕ → Run Lbuf
lbuf_resize b new_headroom new_tailroom =
    let n = new_allocated b new_headroom new_tailroom in
    if is_heap b.source
    then (if new_headroom == b.head
        then ok (record b { mem = reallocated b.mem n; allocated = n })
        else moved b new_headroom n)
    else fault invalid_free

unfoldable pub lbuf_prealloc_tailroom : Lbuf → ℕ → Run Lbuf
lbuf_prealloc_tailroom b size =
    if ltb (tailroom b) size then lbuf_resize b (headroom b) (max size 64) else ok b

unfoldable pub lbuf_prealloc_headroom : Lbuf → ℕ → Run Lbuf
lbuf_prealloc_headroom b size =
    if ltb (headroom b) size then lbuf_resize b (max size 64) (tailroom b) else ok b

-- the old tail and the buffer
unfoldable pub lbuf_put_uninit : Lbuf → ℕ → Run (ℕ × Lbuf)
lbuf_put_uninit b size =
    lbuf_prealloc_tailroom b size
    >>= (λ c. ok (c.head + c.size, record c { size = (c.size + size) % u32_mod }))

unfoldable pub lbuf_put : Lbuf → Memory → Run (ℕ × Lbuf)
lbuf_put b bytes =
    lbuf_put_uninit b (length bytes)
    >>= (λ r. write_at r.1.mem r.0 bytes >>= (λ mem. ok (r.0, record (r.1) { mem = mem })))

-- after the reservation `size ≤ head`
unfoldable pub lbuf_push_uninit : Lbuf → ℕ → Run Lbuf
lbuf_push_uninit b size =
    lbuf_prealloc_headroom b size
    >>= (λ c. ok (record c { head = c.head - size; size = (c.size + size) % u32_mod }))

unfoldable pub lbuf_push : Lbuf → Memory → Run Lbuf
lbuf_push b bytes =
    lbuf_push_uninit b (length bytes)
    >>= (λ c. write_at c.mem c.head bytes >>= (λ mem. ok (record c { mem = mem })))

-- `none` is NULL, with nothing changed; else the first byte removed is at the old `head`
unfoldable pub lbuf_pull : Lbuf → ℕ → Option ℕ × Lbuf
lbuf_pull b size =
    if ltb b.size size
    then (none, b)
    else (some b.head, record b { head = b.head + size; size = b.size - size })

unfoldable pub lbuf_reserve : Lbuf → ℕ → Run Lbuf
lbuf_reserve b size = lbuf_prealloc_tailroom b size >>= (λ c. ok (record c { head = size }))

unfoldable pub lbuf_new_with_headroom : ℕ → ℕ → Run Lbuf
lbuf_new_with_headroom size head = lbuf_reserve (lbuf_new ((size + head) % u32_mod)) head

unfoldable pub lbuf_at : Lbuf → ℕ → ℕ → Option ℕ
lbuf_at b offset size =
    if leb ((offset + size) % u32_mod) b.size then some (b.head + offset) else none

-- `lbuf_reset_ip` and the like store the distance of `data` in 16 bits
abbrev pub here : Lbuf → ℕ
here b = b.head % 2 ^ 16

unfoldable pub lbuf_reset_ip : Lbuf → Lbuf
lbuf_reset_ip b = record b { marks = record (b.marks) { ip = here b } }

unfoldable pub lbuf_reset_udp : Lbuf → Lbuf
lbuf_reset_udp b = record b { marks = record (b.marks) { udp = here b } }

unfoldable pub lbuf_reset_lisp_hdr : Lbuf → Lbuf
lbuf_reset_lisp_hdr b = record b { marks = record (b.marks) { lhdr = here b } }

unfoldable pub lbuf_reset_l3 : Lbuf → Lbuf
lbuf_reset_l3 b = record b { marks = record (b.marks) { l3 = here b } }

unfoldable pub lbuf_reset_l4 : Lbuf → Lbuf
lbuf_reset_l4 b = record b { marks = record (b.marks) { l4 = here b } }

unfoldable pub lbuf_reset_lisp : Lbuf → Lbuf
lbuf_reset_lisp b = record b { marks = record (b.marks) { lisp = here b } }

-- `lbuf_point_to_ip` and the like: BAD is `none`; the tail stays where it is
unfoldable pub point_to : ℕ → Lbuf → Option Lbuf
point_to mark b =
    if mark == uint16_max
    then none
    else some (record b { size = (b.head + b.size + u32_mod - mark) % u32_mod; head = mark })

unfoldable pub lbuf_point_to_ip : Lbuf → Option Lbuf
lbuf_point_to_ip b = point_to b.marks.ip b

unfoldable pub lbuf_point_to_udp : Lbuf → Option Lbuf
lbuf_point_to_udp b = point_to b.marks.udp b

unfoldable pub lbuf_point_to_lisp_hdr : Lbuf → Option Lbuf
lbuf_point_to_lisp_hdr b = point_to b.marks.lhdr b

unfoldable pub lbuf_point_to_l3 : Lbuf → Option Lbuf
lbuf_point_to_l3 b = point_to b.marks.l3 b

unfoldable pub lbuf_point_to_l4 : Lbuf → Option Lbuf
lbuf_point_to_l4 b = point_to b.marks.l4 b

unfoldable pub lbuf_point_to_lisp : Lbuf → Option Lbuf
lbuf_point_to_lisp b = point_to b.marks.lisp b
