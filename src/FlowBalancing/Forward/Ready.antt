-- ===== src/FlowBalancing/Forward/Ready.antt =====
-- lispd/fwd_policies/flow_balancing/flow_balancing.c `balancing_vectors_calculate`, from the locator
-- lists of a mapping to its vectors.
use lispmob.Prelude.{
  ℕ, suc, ◌+◌, ◌<◌, ◌≤◌, ◌≡◌, ◌⊎◌, inl, inr, List, [], ◌∷◌, Option, none, some, arith, length, All,
  ◌++◌, ◌==◌, Bool, false, if◌then◌else◌, filter, reverse, reverse_aux, Run, ◌>>=◌, ok_injective,
  ap, ap₂, sym, subst, ◌∙◌, ok, Returns, refl, Bool-cases, eq→==, ne→==,
}
use lispmob.Address.{Addr, af_inet, af_inet6, lisp_addr_ip_afi, lisp_addr_is_no_addr}
use lispmob.Locator.{Locator}
use lispmob.FlowBalancing.Address.{fb_lisp_addr_get_fwd_ip_addr}
use lispmob.FlowBalancing.Select.{row_size}
use lispmob.FlowBalancing.Calculate.{
  Families, classify_one, classify_list, is_skipped, fb_locators_classify_in_4_6,
  balancing_vectors_calculate,
}
use lispmob.FlowBalancing.Calculate.Joint.{IsBalanced, balance_families-IsBalanced}
use lispmob.FlowBalancing.Forward.Safe.{HasHop, IsReady}

abbrev pub count_all : List (List Locator) → ℕ
count_all [] = 0
count_all (ls ∷ lists) = length ls + count_all lists

module _ (rlocs : List Addr) where
  -- The locator has no address to send to, or it is one of IPv4 or IPv6.
  abbrev pub IsRoutable : Locator → Type 0
  IsRoutable l =
      (fb_lisp_addr_get_fwd_ip_addr rlocs l.addr ≡ ok none)
      ⊎ (HasHop rlocs af_inet l ⊎ HasHop rlocs af_inet6 l)

  record IsClassified (n : ℕ) (f : Families) : Type 0 where
    v4 : All (HasHop rlocs af_inet) f.0
    v6 : All (HasHop rlocs af_inet6) f.1
    small : length f.0 + length f.1 ≤ n

  classify_next :
      (l : Locator) (n : ℕ) (f : Families)
      → IsRoutable l
      → IsClassified n f
      → (g : Option Addr) × (fb_lisp_addr_get_fwd_ip_addr rlocs l.addr ≡ ok g)
        × IsClassified (suc n) (classify_one l g f)
  unfolding classify_one
  classify_next l n f (inl e) c =
      (none, e, record { v4 = c.v4; v6 = c.v6; small = omega (arith, c.small) })
  classify_next l n f (inr (inl (a, e, h))) c = (
    some a,
    e,
    rw (eq→== _ _ h) (record { v4 = ((a, e, h), c.v4); v6 = c.v6; small = omega (arith, c.small) }),
  )
  classify_next l n f (inr (inr (a, e, h))) c = (
    some a,
    e,
    rw (ne→== (lisp_addr_ip_afi a) af_inet (omega arith))
        (record { v4 = c.v4; v6 = ((a, e, h), c.v6); small = omega (arith, c.small) }),
  )

  classify_list-IsClassified :
      (ls : List Locator) (n : ℕ) (f : Families)
      → All IsRoutable ls
      → IsClassified n f
      → Returns (classify_list rlocs ls f) (IsClassified (length ls + n))
  unfolding classify_list
  classify_list-IsClassified [] n f all c =
      (f, refl, record { v4 = c.v4; v6 = c.v6; small = omega (arith, c.small) })
  classify_list-IsClassified (l ∷ ls) n f all c =
      let (g, run, c') = classify_next l n f all.0 c in
      let (r, run', d) = classify_list-IsClassified ls (suc n) (classify_one l g f) all.1 c' in
      (r, rw (run, run'), record { v4 = d.v4; v6 = d.v6; small = omega (arith, d.small) })

  classify-IsClassified :
      (lists : List (List Locator)) (n : ℕ) (f : Families)
      → All (All IsRoutable) lists
      → IsClassified n f
      → Returns (fb_locators_classify_in_4_6 rlocs lists f) (IsClassified (count_all lists + n))
  unfolding fb_locators_classify_in_4_6
  classify-IsClassified [] n f all c =
      (f, refl, record { v4 = c.v4; v6 = c.v6; small = omega (arith, c.small) })
  classify-IsClassified (ls ∷ lists) n f all c = elim (Bool-cases (is_skipped ls)) [
    | inl skip ↦
        let (r, run, d) = classify-IsClassified lists n f all.1 c in
        (r, rw (skip, run), record { v4 = d.v4; v6 = d.v6; small = omega (arith, d.small) })
    | inr keep ↦
        let (g, run, c') = classify_list-IsClassified ls n f all.0 c in
        let (r, run', d) = classify-IsClassified lists (length ls + n) g all.1 c' in
        (r, rw (keep, run, run'), record { v4 = d.v4; v6 = d.v6; small = omega (arith, d.small) })
  ]

  -- what the families are: the locators that are sent to by an address of the family, out of the lists
  -- that begin with one that has an address
  abbrev by_family : ℕ → Run (Option Addr) → Bool
  by_family afi (ok (some a)) = lisp_addr_ip_afi a == afi
  by_family afi _ = false

  abbrev pub sends_by : ℕ → Locator → Bool
  sends_by afi l = by_family afi (fb_lisp_addr_get_fwd_ip_addr rlocs l.addr)

  abbrev pub with_address : List (List Locator) → List Locator
  with_address [] = []
  with_address ([] ∷ lists) = with_address lists
  with_address ((l ∷ ls) ∷ lists) =
      if lisp_addr_is_no_addr l.addr then with_address lists else (l ∷ ls) ++ with_address lists

  abbrev pub family : ℕ → List (List Locator) → List Locator
  family afi lists = reverse (filter (sends_by afi) (with_address lists))

  -- both families, before what they were
  abbrev both_families : List Locator → Families → Families
  both_families ls f = (
    reverse_aux (filter (sends_by af_inet) ls) f.0,
    reverse_aux (filter (sends_by af_inet6) ls) f.1,
  )

  reverse_filter-append :
      (p : Locator → Bool) (ls ms front : List Locator)
      → reverse_aux (filter p ms) (reverse_aux (filter p ls) front)
        ≡ reverse_aux (filter p (ls ++ ms)) front
  reverse_filter-append p [] ms front = refl
  reverse_filter-append p (l ∷ ls) ms front = elim (Bool-cases (p l)) [
    | inl e ↦ rw e (reverse_filter-append p ls ms (l ∷ front))
    | inr e ↦ rw e (reverse_filter-append p ls ms front)
  ]

  classify_one-families :
      (l : Locator) (f : Families)
      → IsRoutable l
      → (g : Option Addr) × (fb_lisp_addr_get_fwd_ip_addr rlocs l.addr ≡ ok g)
        × (classify_one l g f ≡ both_families (l ∷ []) f)
  unfolding classify_one
  classify_one-families l f (inl e) = (none, e, rw e refl)
  classify_one-families l f (inr (inl (a, e, h))) =
      let other = ne→== (lisp_addr_ip_afi a) af_inet6 (omega (arith, h)) in
      (some a, e, rw (e, eq→== _ _ h, other) refl)
  classify_one-families l f (inr (inr (a, e, h))) =
      let other = ne→== (lisp_addr_ip_afi a) af_inet (omega (arith, h)) in
      (some a, e, rw (e, eq→== _ _ h, other) refl)

  both_families-append :
      (ls ms : List Locator) (f : Families)
      → both_families ms (both_families ls f) ≡ both_families (ls ++ ms) f
  both_families-append ls ms f =
      ap₂ (λ a b. (a, b)) (reverse_filter-append (sends_by af_inet) ls ms f.0)
        (reverse_filter-append (sends_by af_inet6) ls ms f.1)

  classify_list-families :
      (ls : List Locator) (f : Families)
      → All IsRoutable ls
      → classify_list rlocs ls f ≡ ok (both_families ls f)
  unfolding classify_list
  classify_list-families [] f all = refl
  classify_list-families (l ∷ ls) f all =
      let (g, run, one) = classify_one-families l f all.0 in
      ap (λ r. r >>= (λ a. classify_list rlocs ls (classify_one l a f))) run
      ∙ classify_list-families ls (classify_one l g f) all.1
      ∙ ap (λ h. ok (both_families ls h)) one
      ∙ ap ok (both_families-append (l ∷ []) ls f)

  classify-families :
      (lists : List (List Locator)) (f : Families)
      → All (All IsRoutable) lists
      → fb_locators_classify_in_4_6 rlocs lists f ≡ ok (both_families (with_address lists) f)
  unfolding fb_locators_classify_in_4_6 is_skipped
  classify-families [] f all = refl
  classify-families ([] ∷ lists) f all = classify-families lists f all.1
  classify-families ((l ∷ ls) ∷ lists) f all = elim (Bool-cases (lisp_addr_is_no_addr l.addr)) [
    | inl skip ↦ rw (skip) (classify-families lists f all.1)
    | inr keep ↦
        let first = classify_list-families (l ∷ ls) f all.0 in
        rw (keep) (
          ap (λ r. r >>= (λ g. fb_locators_classify_in_4_6 rlocs lists g)) first
          ∙ classify-families lists (both_families (l ∷ ls) f) all.1
          ∙ ap ok (both_families-append (l ∷ ls) (with_address lists) f))
  ]

  -- For a mapping of at most 32 locators, each with an IPv4 or IPv6 address to send to or with none,
  -- balancing_vectors_calculate writes nothing out of bounds, divides by no zero and reads through
  -- no NULL. Its vectors share the traffic among the best usable ones of those locators of the
  -- mapping whose address to send to is of the family, the last one first, without the lists that
  -- begin with a locator of no address; and they are ready for fb_get_fw_entry.
  pub balancing_vectors_calculate-IsReady :
      (lists : List (List Locator))
      → All (All IsRoutable) lists
      → count_all lists < row_size
      → Returns (balancing_vectors_calculate rlocs lists) (λ vecs.
        IsBalanced (family af_inet lists) (family af_inet6 lists) vecs × IsReady rlocs vecs)
  unfolding balancing_vectors_calculate
  balancing_vectors_calculate-IsReady lists all few =
      let (f, run, c) =
        classify-IsClassified lists 0 ([], []) all
          (record { v4 = tt; v6 = tt; small = omega arith }) in
      let (vecs, run', balanced) = balance_families-IsBalanced f.0 f.1 (omega (arith, c.small)) in
      let made : ok (family af_inet lists, family af_inet6 lists) ≡ ok f =
        sym (classify-families lists ([], []) all) ∙ run in
      let same : f ≡ (family af_inet lists, family af_inet6 lists) = sym (ok_injective made) in
      (
        vecs,
        rw (run, run'),
        (
          subst (λ g. IsBalanced g.0 g.1 vecs) same balanced,
          record {
            v4_locators = f.0;
            v6_locators = f.1;
            balanced = balanced;
            v4_hops = c.v4;
            v6_hops = c.v6;
          },
        ),
      )
