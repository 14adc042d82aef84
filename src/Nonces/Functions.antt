-- ===== src/Nonces/Functions.antt =====
-- lispd/elibs/khash as lispd/lib/nonces_table.c uses it: a table that is a function, for the runs.
use lispmob.Prelude.{ℕ, refl, ne→==, eq→==, Option, some, none, ◌==◌, if◌then◌else◌}
use lispmob.Nonces.{Khash}

abbrev pub functions : Khash
functions = record {
  Table = ℕ → Option ℕ;
  kh_init = λ k. none;
  kh_get = λ t k. t k;
  kh_put = λ t k v l. if l == k then some v else t l;
  kh_del = λ t k l. if l == k then none else t l;
  get-init = λ k. refl;
  get-put = λ t k v. rw (eq→== k k refl) refl;
  get-put_other = λ t k v l h. rw (ne→== l k h) refl;
  get-del = λ t k. rw (eq→== k k refl) refl;
  get-del_other = λ t k l h. rw (ne→== l k h) refl;
}
