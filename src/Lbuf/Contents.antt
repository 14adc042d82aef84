-- ===== src/Lbuf/Contents.antt =====
-- lispd/lib/lbuf.c: what putting, pushing and pulling do to the bytes in use.
use mathlib.Core.List.{append_assoc}
use lispmob.Prelude.{
  length-drop, ℕ, suc, suc, ◌+◌, ◌-◌, ◌%◌, ◌<◌, ◌≡◌, ◌++◌, none, some, arith, ltb, true, false,
  length, take, drop, length-append, ok, ok_injective, Returns, sym, ap, ◌∙◌, max, ge→ltb,
}
use lispmob.Lbuf.{
  is_heap, Memory, Lbuf, u32_mod, contents, write_at, lbuf_put_uninit, lbuf_put, lbuf_push_uninit,
  lbuf_push, lbuf_pull,
}
use lispmob.Lbuf.Bytes.{take-append-drop, length-take, write_at-segment}
use lispmob.Lbuf.Whole.{
  with_tailroom, appended, with_headroom, prepended, lbuf_put-appended, lbuf_push-prepended,
}
use lispmob.Lbuf.Resize.{
  Holds, contents-Holds, lbuf_prealloc_tailroom-HasTail, lbuf_prealloc_headroom-HasHead,
}

-- A write at an offset that is the length of what stands before it.
write_segment :
    (mem pre old new post : Memory) (at : ℕ)
    → mem ≡ pre ++ (old ++ post)
    → at ≡ length pre
    → length old ≡ length new
    → write_at mem at new ≡ ok (pre ++ (new ++ post))
write_segment mem pre old new post at e f same = rw (e, f) (write_at-segment pre old new post same)

-- where bytes were put behind those in use, and what the buffer holds then
record PutHeld (b : Lbuf) (c bytes : Memory) (r : ℕ × Lbuf) : Type 0 where
  holds : Holds (r.1) (c ++ bytes)
  head : r.1.head ≡ b.head
  source : r.1.source ≡ b.source
  at : r.0 ≡ b.head + b.size

lbuf_put-PutHeld :
    (b : Lbuf) (c bytes : Memory)
    → Holds b c
    → is_heap b.source ≡ true
    → b.head + b.size + max (length bytes) 64 < u32_mod
    → Returns (lbuf_put b bytes) (PutHeld b c bytes)
unfolding lbuf_put lbuf_put_uninit
lbuf_put-PutHeld b c bytes h heap fits =
    let n = length bytes in
    let (r, run, t) = lbuf_prealloc_tailroom-HasTail b c n h heap fits in
    let o = t.holds in
    let old = take n o.post in
    let rest = drop n o.post in
    let size : (r.size + n) % u32_mod ≡ r.size + n = omega (arith, t.room, o.total, o.word) in
    let split : r.mem ≡ (o.pre ++ c) ++ (old ++ rest) =
      rw (take-append-drop n o.post, append_assoc) o.split in
    let at : r.head + r.size ≡ length (o.pre ++ c) =
      omega (arith, length-append o.pre c, o.at_head, o.in_use) in
    let width : length old ≡ n = omega (arith, length-take n o.post, t.room) in
    let same_size : r.size ≡ b.size = sym o.in_use ∙ h.in_use in
    (
      (
        r.head + r.size,
        record r { size = (r.size + n) % u32_mod; mem = (o.pre ++ c) ++ (bytes ++ rest) },
      ),
      rw (run, write_segment r.mem (o.pre ++ c) old bytes rest (r.head + r.size) split at width),
      record {
        holds = record {
          pre = o.pre;
          post = rest;
          split = rw (append_assoc, append_assoc);
          at_head = o.at_head;
          in_use = omega (arith, length-append c bytes, o.in_use);
          total = omega (arith, o.total, t.room, length-drop n o.post);
          word = o.word;
        };
        head = t.head;
        source = t.source;
        at = omega (arith, t.head, same_size);
      },
    )

-- The buffer after bytes were put behind those in use: where they went, what it holds, and all of it.
pub record IsPut (b : Lbuf) (c bytes : Memory) (r : ℕ × Lbuf) : Type 0 where
  pub holds : Holds (r.1) (c ++ bytes)
  pub head : r.1.head ≡ b.head
  pub source : r.1.source ≡ b.source
  pub at : r.0 ≡ b.head + b.size
  pub whole : r.1 ≡ appended (with_tailroom b (length bytes)) bytes

-- lbuf_put on a heap buffer, while the buffer's size fits 32 bits, appends its bytes at the old tail,
-- behind which memory that was never written is added first if there is no room. The rest of the
-- memory, the start of the data and all header offsets stay as they were.
pub lbuf_put-IsPut :
    (b : Lbuf) (c bytes : Memory)
    → Holds b c
    → is_heap b.source ≡ true
    → b.head + b.size + max (length bytes) 64 < u32_mod
    → Returns (lbuf_put b bytes) (IsPut b c bytes)
lbuf_put-IsPut b c bytes h heap fits =
    let (r, run, p) = lbuf_put-PutHeld b c bytes h heap fits in
    let same = ok_injective (sym run ∙ lbuf_put-appended b c h heap bytes fits) in
    (
      r,
      run,
      record {
        holds = p.holds;
        head = p.head;
        source = p.source;
        at = p.at;
        whole = ap (λ x. x.1) same;
      },
    )

-- what the buffer holds after bytes were pushed before those in use
record PushHeld (b : Lbuf) (c bytes : Memory) (r : Lbuf) : Type 0 where
  holds : Holds r (bytes ++ c)
  source : r.source ≡ b.source

lbuf_push-PushHeld :
    (b : Lbuf) (c bytes : Memory)
    → Holds b c
    → is_heap b.source ≡ true
    → max (length bytes) 64 + b.allocated < u32_mod
    → Returns (lbuf_push b bytes) (PushHeld b c bytes)
unfolding lbuf_push lbuf_push_uninit
lbuf_push-PushHeld b c bytes h heap fits =
    let n = length bytes in
    let (r, run, t) = lbuf_prealloc_headroom-HasHead b c n h heap fits in
    let o = t.holds in
    let keep = r.head - n in
    let before = take keep o.pre in
    let old = drop keep o.pre in
    let cut : before ++ (old ++ (c ++ o.post)) ≡ o.pre ++ (c ++ o.post) =
      sym (append_assoc before old (c ++ o.post))
      ∙ ap (λ xs. xs ++ (c ++ o.post)) (take-append-drop keep o.pre) in
    let at : keep ≡ length before = omega (arith, length-take keep o.pre, o.at_head) in
    let width : length old ≡ n = omega (arith, length-drop keep o.pre, o.at_head, t.room) in
    let size : (r.size + n) % u32_mod ≡ r.size + n = omega (arith, t.room, o.total, o.word) in
    (
      record r {
        head = keep;
        size = (r.size + n) % u32_mod;
        mem = before ++ (bytes ++ (c ++ o.post));
      },
      rw (
        run,
        write_segment r.mem before old bytes (c ++ o.post) keep (o.split ∙ sym cut) at width,
      ),
      record {
        holds = record {
          pre = before;
          post = o.post;
          split = rw append_assoc;
          at_head = sym at;
          in_use = omega (arith, length-append bytes c, o.in_use);
          total = omega (arith, o.total, t.room);
          word = o.word;
        };
        source = t.source;
      },
    )

-- The buffer after bytes were pushed before those in use: what it holds, and all of it.
pub record IsPushed (b : Lbuf) (c bytes : Memory) (r : Lbuf) : Type 0 where
  pub holds : Holds r (bytes ++ c)
  pub source : r.source ≡ b.source
  pub whole : r ≡ prepended (with_headroom b (length bytes)) bytes

-- lbuf_push on a heap buffer, while the buffer's size fits 32 bits, prepends its bytes. If there is room,
-- the rest of the memory and all header offsets stay as they were; if not, the bytes in use go first
-- into a new memory, with the same room behind them, and the header offsets are shifted with them.
pub lbuf_push-IsPushed :
    (b : Lbuf) (c bytes : Memory)
    → Holds b c
    → is_heap b.source ≡ true
    → max (length bytes) 64 + b.allocated < u32_mod
    → Returns (lbuf_push b bytes) (IsPushed b c bytes)
lbuf_push-IsPushed b c bytes h heap fits =
    let (r, run, p) = lbuf_push-PushHeld b c bytes h heap fits in
    let same = ok_injective (sym run ∙ lbuf_push-prepended b c h heap bytes fits) in
    (r, run, record { holds = p.holds; source = p.source; whole = same })

-- `lbuf_pull` of as many bytes as the first part of those in use removes that part, and a pull of
-- more bytes than are in use is NULL and changes nothing.
pub lbuf_pull_lem :
    (b : Lbuf) (first c : Memory) (n : ℕ)
    → Holds b (first ++ c)
    → b.size < n
    → ((lbuf_pull b (length first)).0 ≡ some b.head)
      × Holds (lbuf_pull b (length first)).1 c
      × (lbuf_pull b n ≡ (none, b))
unfolding lbuf_pull
lbuf_pull_lem b first c n h more =
    let size : length first + length c ≡ b.size = omega (arith, length-append first c, h.in_use) in
    let enough : ltb b.size (length first) ≡ false = ge→ltb _ _ (omega arith) in
    (
      rw enough,
      rw enough (record {
        pre = h.pre ++ first;
        post = h.post;
        split = rw (append_assoc) (h.split ∙ ap (λ xs. h.pre ++ xs) (append_assoc first c h.post));
        at_head = omega (arith, length-append h.pre first, h.at_head);
        in_use = omega (arith, size);
        total = omega (arith, h.total, size);
        word = h.word;
      }),
      ground arith,
    )

-- Pulling what was pushed on a heap buffer gives back the bytes in use, whatever the headroom was.
pub lbuf_pull-push :
    (b : Lbuf) (c bytes : Memory)
    → Holds b c
    → is_heap b.source ≡ true
    → max (length bytes) 64 + b.allocated < u32_mod
    → Returns
        (lbuf_push b bytes)
        λ r. (contents r ≡ bytes ++ c) × (contents (lbuf_pull r (length bytes)).1 ≡ c)
lbuf_pull-push b c bytes h heap fits =
    let (r, run, p) = lbuf_push-IsPushed b c bytes h heap fits in
    (
      r,
      run,
      (
        contents-Holds p.holds,
        contents-Holds (lbuf_pull_lem r bytes c (suc r.size) p.holds (omega arith)).1,
      ),
    )
