-- ===== src/MappingDb/Spec.antt =====
-- lispd/lib/mapping_db.c: the map from prefixes to entries that the database stands for.
use lispmob.Prelude.{
  ℕ, ◌-◌, ◌*◌, ◌/◌, ◌^◌, eq→==, ◌≡◌, refl, Bool, true, false, ◌&&◌, Option, none, some, List, [],
  ◌∷◌, leb, ◌==◌, if◌then◌else◌,
}
use lispmob.Address.{Ip, unspec, v4, v6}
use lispmob.MappingDb.{in_block}
use lispmob.MappingDb.Tree.{or_else}

-- a map from the prefixes of a family to entries
abbrev pub Spec : Type 0
Spec = Ip → ℕ → Option ℕ

abbrev pub same_family : Ip → Ip → Bool
same_family (v4 a) (v4 b) = true
same_family (v6 a) (v6 b) = true
same_family _ _ = false

abbrev pub same_prefix : Ip → ℕ → Ip → ℕ → Bool
same_prefix a n b k = same_family a b && ((k == n) && in_block n a b)

-- an addition leaves the entry that a prefix has
abbrev pub spec_add : Ip → ℕ → ℕ → Spec → Spec
spec_add a n entry m b k = if same_prefix a n b k then or_else (m b k) (some entry) else m b k

abbrev pub spec_remove : Ip → ℕ → Spec → Spec
spec_remove a n m b k = if same_prefix a n b k then none else m b k

pub data Op : Type 0 where
  add : Ip → ℕ → ℕ → Op
  remove : Ip → ℕ → Op

-- an address with a family, and a length that it can have
abbrev pub is_prefix : Ip → ℕ → Bool
is_prefix unspec n = false
is_prefix (v4 a) n = leb n 32
is_prefix (v6 a) n = leb n 128

abbrev pub ArePrefixes : List Op → Type 0
ArePrefixes [] = Unit
ArePrefixes (add a n entry ∷ ops) = (is_prefix a n ≡ true) × ArePrefixes ops
ArePrefixes (remove a n ∷ ops) = (is_prefix a n ≡ true) × ArePrefixes ops

abbrev pub spec_run : List Op → Spec → Spec
spec_run [] m = m
spec_run (add a n entry ∷ ops) m = spec_run ops (spec_add a n entry m)
spec_run (remove a n ∷ ops) m = spec_run ops (spec_remove a n m)

pub same_prefix_self : (a : Ip) (n : ℕ) → is_prefix a n ≡ true → same_prefix a n a n ≡ true
same_prefix_self unspec n h = absurd (cc)
same_prefix_self (v4 a) n h =
    let len = eq→== n n refl in
    let block = eq→== (a * 2 ^ 96 / 2 ^ (128 - n)) _ refl in rw (len, block) refl
same_prefix_self (v6 a) n h =
    let len = eq→== n n refl in let block = eq→== (a / 2 ^ (128 - n)) _ refl in rw (len, block) refl

pub twice :
    (c : Bool) (o : Option ℕ) (first second : ℕ)
    → c ≡ true
    → (if c
        then or_else (if c then or_else o (some first) else o) (some second)
        else (if c then or_else o (some first) else o))
      ≡ or_else o (some first)
twice true none first second h = refl
twice true (some old) first second h = refl
twice false o first second h = absurd (cc)
