-- ===== src/MappingDb/Listed.antt =====
-- lispd/lib/mapping_db.c: a tree that is the list of its changes, to run the database on.
use lispmob.Prelude.{
  ℕ, ◌≡◌, ◌-◌, ◌/◌, ◌^◌, refl, subst, ap₂, Bool, true, false, ◌&&◌, Bool-cases, inl, inr, Option,
  none, some, List, [], ◌∷◌, ◌==◌, ==→eq, if◌then◌else◌,
}
use lispmob.Address.{Ip}
use lispmob.MappingDb.{Patricia, in_block, aligned, longest}

-- a change of a tree: what a prefix has from then on
pub record Change (V : Type 0) : Type 0 where
  pub addr : Ip
  pub plen : ℕ
  pub now : Option V

unfoldable pub search : {V : Type 0} → List (Change V) → Ip → ℕ → Option V
search [] b k = none
search (c ∷ cs) b k =
    let rest = search cs b k in if (k == c.plen) && in_block c.plen c.addr b then c.now else rest

same_blocks :
    (n k : ℕ) (c a b : Ip)
    → in_block n a b ≡ true
    → (n == k) && in_block k c a ≡ (n == k) && in_block k c b
same_blocks n k c a b h = elim (Bool-cases (n == k)) [
  | inl same ↦
      let block = ==→eq (aligned a / 2 ^ (128 - n)) (aligned b / 2 ^ (128 - n)) h in
      let there =
        subst (λ l. aligned a / 2 ^ (128 - l) ≡ aligned b / 2 ^ (128 - l)) (==→eq n k same) block in
      rw (same, there) refl
  | inr other ↦ rw (other) refl
]

pub search-block :
    {V : Type 0} (cs : List (Change V)) (a : Ip) (n : ℕ) (b : Ip)
    → in_block n a b ≡ true
    → search cs a n ≡ search cs b n
unfolding search
search-block [] a n b h = refl
search-block (c ∷ cs) a n b h =
    ap₂ (λ same rest. if same then c.now else rest) (same_blocks n c.plen c.addr a b h)
      (search-block cs a n b h)

unfoldable pub changes : Patricia
unfolding search
changes = record {
  Tree = λ V. ℕ × List (Change V);
  new_patricia = λ w. (w, []);
  maxbits = λ t. t.0;
  search_exact = λ t a n. search t.1 a n;
  search_best = λ t a n. longest (λ k. search t.1 a k) n;
  set_data = λ t a n v. (t.0, record { addr = a; plen = n; now = some v } ∷ t.1);
  remove_node = λ t a n. (t.0, record { addr = a; plen = n; now = none } ∷ t.1);
  is_empty = λ t. elim t.1 as (λ _. Bool) [ [] ↦ true | c ∷ cs ↦ false ];
  maxbits-new = λ w. refl;
  maxbits-set = λ t a n v. refl;
  maxbits-remove = λ t a n. refl;
  exact-new = λ w a n. refl;
  exact-set = λ t a n v b k. refl;
  exact-remove = λ t a n b k. refl;
  exact-block = λ t a n b h. search-block t.1 a n b h;
  best-longest = λ t a n. refl;
}
