-- ===== src/FlowBalancing/Forward/Safe.antt =====
-- lispd/fwd_policies/flow_balancing/flow_balancing.c: from the locators of two mappings to an entry.
use lispmob.Prelude.{
  ℕ, zero, suc, ◌%◌, ◌<◌, ◌≡◌, ◌⊎◌, inl, inr, Bool, List, [], ◌∷◌, ◌++◌, map, Option, none, some,
  arith, ◌==◌, if◌then◌else◌, All, All-append, All-get_elem?, get_elem?, get_elem?_lt, ok, ◌>>=◌,
  Returns, refl, sym, subst, ap, ◌∙◌, replicate, filter, Bool-cases, ne→==, eq→==,
}
use lispmob.Address.{Addr, af_inet, af_inet6, lisp_addr_ip_afi}
use lispmob.Locator.{Locator}
use lispmob.FlowBalancing.Address.{fb_lisp_addr_get_fwd_ip_addr}
use lispmob.FlowBalancing.Fill.{Vector, shares, used_pos}
use lispmob.FlowBalancing.Calculate.{BalancingLocatorsVecs}
use lispmob.FlowBalancing.Calculate.Balanced.{best_row, IsFamilyVec, IsFamily}
use lispmob.FlowBalancing.Calculate.Joint.{IsJoint, IsBalanced}
use lispmob.FlowBalancing.Forward.{
  if_both, source_vec, locator_at, destination_at, hop, destination_entry, fb_get_fw_entry,
}

All-replicate : (P : Locator → Type 0) (n : ℕ) (l : Locator) → P l → All P (replicate n l)
All-replicate P zero l h = tt
All-replicate P (suc n) l h = (h, All-replicate P n l h)

All-filter :
    (P : Locator → Type 0) (p : Locator → Bool) (ls : List Locator) → All P ls → All P (filter p ls)
All-filter P p [] h = tt
All-filter P p (l ∷ ls) h = elim (Bool-cases (p l)) [
  | inl e ↦ rw e (h.0, All-filter P p ls h.1)
  | inr e ↦ rw e (All-filter P p ls h.1)
]

All-shares : (P : Locator → Type 0) (t h : ℕ) (ls : List Locator) → All P ls → All P (shares t h ls)
All-shares P t h [] all = tt
All-shares P t h (l ∷ ls) all =
    All-append P (replicate (used_pos t h l) l) (shares t h ls)
      (All-replicate P (used_pos t h l) l all.0) (All-shares P t h ls all.1)

get_elem?-map-some :
    (ls : List Locator) (i : ℕ) (l : Locator)
    → get_elem? ls i ≡ some l
    → get_elem? (map some ls) i ≡ some (some l)
get_elem?-map-some [] i l e = cc
get_elem?-map-some (x ∷ xs) zero l e = cc
get_elem?-map-some (x ∷ xs) (suc i) l e = get_elem?-map-some xs i l e

-- Any hash picks a locator of the family from its vector.
pub locator_at-Returns :
    (P : Locator → Type 0) (ls : List Locator) (v : Vector × ℕ) (hash : ℕ)
    → IsFamilyVec ls v
    → All P ls
    → Returns (locator_at v hash) P
unfolding locator_at
locator_at-Returns P ls v hash f all =
    let s = shares f.total f.hcf (best_row ls) in
    let pos : 0 < v.1 = f.spread.nonempty f.nonempty in
    let i = hash % v.1 in
    let (l, e) = get_elem?_lt s i (omega (arith, f.spread.filled)) in
    let held : All P s = All-shares P f.total f.hcf (best_row ls) (All-filter P _ ls all) in
    let cell : get_elem? v.0 i ≡ some (some l) =
      ap (λ xs. get_elem? xs i) f.spread.cells ∙ get_elem?-map-some s i l e in
    (l, rw (ne→== v.1 0 (omega arith), cell), All-get_elem? P s i l held e)

abbrev IsNone : Option (Vector × ℕ) → Type 0
IsNone v = v ≡ none

if_both-cases :
    (P : Option (Vector × ℕ) → Type 0) (v w rest : Option (Vector × ℕ))
    → ((x y : Vector × ℕ) → v ≡ some x → w ≡ some y → P (some x))
    → (IsNone v ⊎ IsNone w → P rest)
    → P (if_both v w rest)
if_both-cases P none w rest f g = g (inl refl)
if_both-cases P (some x) none rest f g = g (inr refl)
if_both-cases P (some x) (some y) rest f g = f x y refl refl

joint-some :
    (ls : List Locator) (v w : Option (Vector × ℕ)) (r : Vector × ℕ)
    → IsJoint ls v w (some r)
    → ((x : Vector × ℕ) × (v ≡ some x)) × ((y : Vector × ℕ) × (w ≡ some y)) × IsFamilyVec ls r
joint-some ls none w r h = cc
joint-some ls (some v) none r h = cc
joint-some ls (some v) (some w) r h = ((v, refl), (w, refl), h)

All-map :
    (P Q : Locator → Type 0) (ls : List Locator) → ((l : Locator) → P l → Q l) → All P ls → All Q ls
All-map P Q [] f h = tt
All-map P Q (l ∷ ls) f h = (f l h.0, All-map P Q ls f h.1)

destination_at-some :
    (v : Option (Vector × ℕ)) (w : Vector × ℕ) (hash : ℕ)
    → v ≡ some w
    → destination_at v hash ≡ locator_at w hash
unfolding destination_at
destination_at-some v w hash e = rw e

module _ (rlocs : List Addr) where
  -- Packets for the locator go to an IP address of the family `afi`.
  abbrev pub HasHop : ℕ → Locator → Type 0
  HasHop afi l =
      (a : Addr) × (fb_lisp_addr_get_fwd_ip_addr rlocs l.addr ≡ ok (some a))
      × (lisp_addr_ip_afi a ≡ afi)

  -- The vectors of a mapping, computed from locators that have IPv4 and IPv6 addresses to send to.
  pub record IsReady (vecs : BalancingLocatorsVecs) : Type 0 where
    pub v4_locators : List Locator
    pub v6_locators : List Locator
    pub balanced : IsBalanced v4_locators v6_locators vecs
    pub v4_hops : All (HasHop af_inet) v4_locators
    pub v6_hops : All (HasHop af_inet6) v6_locators

  -- No entry: no family has vectors on both sides. An entry: both addresses are of one IP family.
  abbrev pub IsEntry : BalancingLocatorsVecs → BalancingLocatorsVecs → Option (Addr × Addr) → Type 0
  IsEntry src dst none =
      (IsNone src.v4_vec ⊎ IsNone dst.v4_vec) × (IsNone src.v6_vec ⊎ IsNone dst.v6_vec)
  IsEntry src dst (some e) =
      (lisp_addr_ip_afi e.0 ≡ lisp_addr_ip_afi e.1)
      × ((lisp_addr_ip_afi e.0 ≡ af_inet) ⊎ (lisp_addr_ip_afi e.0 ≡ af_inet6))

  hop-Returns :
      (afi : ℕ) (l : Locator) → HasHop afi l → Returns (hop rlocs l) (λ a. lisp_addr_ip_afi a ≡ afi)
  unfolding hop
  hop-Returns afi l (a, e, h) = (a, rw e, h)

  module _ (src dst : BalancingLocatorsVecs) (s : IsReady src) (d : IsReady dst) (hash : ℕ) where
    -- a source locator and the destination vector of its family
    IsTarget : Locator → Type 0
    IsTarget l =
        (HasHop af_inet l × ((w : Vector × ℕ) × (dst.v4_vec ≡ some w)))
        ⊎ (HasHop af_inet6 l × ((w : Vector × ℕ) × (dst.v6_vec ≡ some w)))

    abbrev IsSource : Option (Vector × ℕ) → Type 0
    IsSource none = IsEntry src dst none
    IsSource (some v) = (ls : List Locator) × IsFamilyVec ls v × All IsTarget ls

    IsSource-v4 : (x y : Vector × ℕ) → src.v4_vec ≡ some x → dst.v4_vec ≡ some y → IsSource (some x)
    unfolding IsTarget
    IsSource-v4 x y e f = (
      s.v4_locators,
      subst (IsFamily s.v4_locators) e s.balanced.v4,
      All-map (HasHop af_inet) IsTarget s.v4_locators (λ l h. inl (h, (y, f))) s.v4_hops,
    )

    IsSource-v6 : (x y : Vector × ℕ) → src.v6_vec ≡ some x → dst.v6_vec ≡ some y → IsSource (some x)
    unfolding IsTarget
    IsSource-v6 x y e f = (
      s.v6_locators,
      subst (IsFamily s.v6_locators) e s.balanced.v6,
      All-map (HasHop af_inet6) IsTarget s.v6_locators (λ l h. inr (h, (y, f))) s.v6_hops,
    )

    IsSource-joint :
        (x y : Vector × ℕ) → src.both_vec ≡ some x → dst.both_vec ≡ some y → IsSource (some x)
    unfolding IsTarget
    IsSource-joint x y e f =
        let (_, _, vec) =
          joint-some (s.v4_locators ++ s.v6_locators) src.v4_vec src.v6_vec x
            (subst (IsJoint _ src.v4_vec src.v6_vec) e s.balanced.joint) in
        let (to4, to6, _) =
          joint-some (d.v4_locators ++ d.v6_locators) dst.v4_vec dst.v6_vec y
            (subst (IsJoint _ dst.v4_vec dst.v6_vec) f d.balanced.joint) in
        (
          s.v4_locators ++ s.v6_locators,
          vec,
          All-append IsTarget s.v4_locators s.v6_locators
              (All-map (HasHop af_inet) IsTarget s.v4_locators (λ l h. inl (h, to4)) s.v4_hops)
              (All-map (HasHop af_inet6) IsTarget s.v6_locators (λ l h. inr (h, to6)) s.v6_hops),
        )

    source_vec-IsSource : IsSource (source_vec src dst)
    unfolding source_vec
    source_vec-IsSource = if_both-cases IsSource _ _ _ IsSource-joint (λ no_joint.
        if_both-cases IsSource _ _ _ IsSource-v6
          (λ no_v6. if_both-cases IsSource _ _ _ IsSource-v4 (λ no_v4. (no_v4, no_v6))))

    destination_entry-IsEntry :
        (afi : ℕ) (ls : List Locator) (w : Vector × ℕ) (v : Option (Vector × ℕ)) (a : Addr)
        → v ≡ some w
        → (afi ≡ af_inet) ⊎ (afi ≡ af_inet6)
        → IsFamily ls v
        → All (HasHop afi) ls
        → lisp_addr_ip_afi a ≡ afi
        → Returns (destination_entry rlocs v a hash) (IsEntry src dst)
    unfolding destination_entry
    destination_entry-IsEntry afi ls w v a e ip fam hops ea =
        let (l, run, h) =
          locator_at-Returns (HasHop afi) ls w hash (subst (IsFamily ls) e fam) hops in
        let (b, run_b, eb) = hop-Returns afi l h in
        (
          some (a, b),
          rw (destination_at-some v w hash e, run, run_b),
          (ea ∙ sym eb, elim ip [ inl four ↦ inl (ea ∙ four) | inr six ↦ inr (ea ∙ six) ]),
        )

    IsEntry-from :
        (l : Locator)
        → IsTarget l
        → Returns
            (hop rlocs l >>= (λ src_ip.
              if lisp_addr_ip_afi src_ip == af_inet
              then destination_entry rlocs dst.v4_vec src_ip hash
              else (if lisp_addr_ip_afi src_ip == af_inet6
                  then destination_entry rlocs dst.v6_vec src_ip hash
                  else ok none)))
            (IsEntry src dst)
    unfolding IsTarget
    IsEntry-from l (inl (h, (w, e))) =
        let (a, run, ea) = hop-Returns af_inet l h in
        rw (run, eq→== _ _ ea)
          (destination_entry-IsEntry af_inet d.v4_locators w dst.v4_vec a e (inl refl) d.balanced.v4
            d.v4_hops ea)
    IsEntry-from l (inr (h, (w, e))) =
        let (a, run, ea) = hop-Returns af_inet6 l h in
        rw (run, ne→== (lisp_addr_ip_afi a) af_inet (omega arith), eq→== _ _ ea)
          (destination_entry-IsEntry af_inet6 d.v6_locators w dst.v6_vec a e (inr refl)
            d.balanced.v6 d.v6_hops ea)

    IsEntry-of :
        (v : Option (Vector × ℕ))
        → source_vec src dst ≡ v
        → IsSource v
        → Returns (fb_get_fw_entry rlocs src dst hash) (IsEntry src dst)
    unfolding fb_get_fw_entry
    IsEntry-of none e h = (none, rw (e, fb_get_fw_entry), h)
    IsEntry-of (some v) e (ls, vec, all) =
        let (l, run, target) = locator_at-Returns IsTarget ls v hash vec all in
        rw (e, fb_get_fw_entry, run) (IsEntry-from l target)

    -- For mappings whose vectors were computed from locators that have IP addresses to send to,
    -- and for every hash, the code divides by no zero and reads no position out of range, none
    -- that was never written and no NULL. It answers no entry only if no family has vectors
    -- on both sides, and the addresses of an entry are of one IP family.
    pub fb_get_fw_entry-IsEntry : Returns (fb_get_fw_entry rlocs src dst hash) (IsEntry src dst)
    fb_get_fw_entry-IsEntry = IsEntry-of (source_vec src dst) refl source_vec-IsSource
