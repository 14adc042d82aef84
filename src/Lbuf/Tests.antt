-- ===== src/Lbuf/Tests.antt =====
-- lispd/lib/lbuf.c: the theorems at a buffer of ten bytes, three of them in use behind a headroom of two.
use lispmob.Prelude.{◌≡◌, refl, arith, [], ◌∷◌, ◌++◌, replicate, length, none, some, Returns}
use lispmob.Lbuf.{
  malloc, Memory, Lbuf, unset_marks, contents, lbuf_resize, lbuf_put, lbuf_push, lbuf_pull,
}
use lispmob.Lbuf.Resize.{Holds}
use lispmob.Lbuf.Contents.{IsPut, IsPushed, lbuf_put-IsPut, lbuf_push-IsPushed, lbuf_pull-push}
use lispmob.Lbuf.Offsets.{AllFollow, lbuf_resize-AllFollow}

abbrev used : Memory
used = some 7 ∷ some 8 ∷ some 9 ∷ []

abbrev ones : Memory
ones = replicate 8 (some 1)

abbrev buffer : Lbuf
buffer = record {
  mem = (some 0 ∷ some 0 ∷ []) ++ (used ++ replicate 5 none);
  allocated = 10;
  size = 3;
  marks = unset_marks;
  source = malloc;
  head = 2;
}

buffer-Holds : Holds buffer used
buffer-Holds = record {
  pre = some 0 ∷ some 0 ∷ [];
  post = replicate 5 none;
  split = refl;
  at_head = refl;
  in_use = refl;
  total = refl;
  word = omega arith;
}

lbuf_resize-AllFollow_example : Returns (lbuf_resize buffer 20 40) (AllFollow buffer)
lbuf_resize-AllFollow_example =
    lbuf_resize-AllFollow buffer used 20 40 buffer-Holds refl (omega arith)

lbuf_put-IsPut_example : Returns (lbuf_put buffer ones) (IsPut buffer used ones)
lbuf_put-IsPut_example = lbuf_put-IsPut buffer used ones buffer-Holds refl (omega arith)

lbuf_push-IsPushed_example : Returns (lbuf_push buffer ones) (IsPushed buffer used ones)
lbuf_push-IsPushed_example = lbuf_push-IsPushed buffer used ones buffer-Holds refl (omega arith)

lbuf_pull-push_example :
    Returns
      (lbuf_push buffer ones)
      λ r. (contents r ≡ ones ++ used) × (contents (lbuf_pull r (length ones)).1 ≡ used)
lbuf_pull-push_example = lbuf_pull-push buffer used ones buffer-Holds refl (omega arith)
