-- ===== src/Address/Order.antt =====
-- lispd/liblisp/lisp_ip.c `ip_addr_cmp`, as the order of the address lists of a mapping.
use lispmob.Prelude.{ℕ, ◌<◌, ◌≡◌, ◌↔◌, refl, arith}
use lispmob.Address.{
  Ip, unspec, v4, v6, ip, Cmp, equal, bigger, smaller, cmp_nat, ip_addr_cmp, lisp_addr_cmp,
}

-- The result for the two addresses the other way round.
abbrev pub flip : Cmp → Cmp
flip bigger = smaller
flip smaller = bigger
flip c = c

pub cmp_nat-eq : (a b : ℕ) → (cmp_nat a b ≡ equal) ↔ (a ≡ b)
unfolding cmp_nat
cmp_nat-eq a b = ground arith

-- Comparing the other way round flips the result, so `ip_addr_cmp` is antisymmetric.
pub ip_addr_cmp-flip : (a b : Ip) → ip_addr_cmp b a ≡ flip (ip_addr_cmp a b)
unfolding ip_addr_cmp
ip_addr_cmp-flip unspec unspec = refl
ip_addr_cmp-flip (v4 a) (v4 b) = ground arith
ip_addr_cmp-flip (v6 a) (v6 b) = ground arith
ip_addr_cmp-flip _ _ = refl

pub ip_addr_cmp-eq : (a b : Ip) → ip_addr_cmp a b ≡ equal → a ≡ b
unfolding ip_addr_cmp
ip_addr_cmp-eq unspec unspec h = refl
ip_addr_cmp-eq (v4 a) (v4 b) h = ground arith
ip_addr_cmp-eq (v6 a) (v6 b) h = ground arith
ip_addr_cmp-eq _ _ h = cc

pub ip_addr_cmp_self : (a : Ip) → ip_addr_cmp a a ≡ equal
unfolding ip_addr_cmp
ip_addr_cmp_self unspec = refl
ip_addr_cmp_self (v4 a) = ground arith
ip_addr_cmp_self (v6 a) = ground arith

pub ip_addr_cmp_trans :
    (a b c : Ip) → ip_addr_cmp a b ≡ bigger → ip_addr_cmp b c ≡ bigger → ip_addr_cmp a c ≡ bigger
unfolding ip_addr_cmp
ip_addr_cmp_trans unspec unspec c h k = cc
ip_addr_cmp_trans (v4 a) (v4 b) (v4 c) h k = ground arith
ip_addr_cmp_trans (v6 a) (v6 b) (v6 c) h k = ground arith
ip_addr_cmp_trans _ _ _ h k = cc

-- The first address is of the same family as the second and comes before it as a number.
abbrev pub IsBelow : Ip → Ip → Type 0
IsBelow (v4 a) (v4 b) = a < b
IsBelow (v6 a) (v6 b) = a < b
IsBelow _ _ = ⊥

ip_addr_cmp-bigger : (a b : Ip) → (ip_addr_cmp a b ≡ bigger) ↔ IsBelow b a
unfolding ip_addr_cmp
ip_addr_cmp-bigger (v4 a) (v4 b) = ground arith
ip_addr_cmp-bigger (v6 a) (v6 b) = ground arith
ip_addr_cmp-bigger unspec unspec = (λ e. cc, λ h. absurd h)
ip_addr_cmp-bigger _ _ = (λ e. cc, λ h. absurd h)

ip_addr_cmp-smaller : (a b : Ip) → (ip_addr_cmp a b ≡ smaller) ↔ IsBelow a b
unfolding ip_addr_cmp
ip_addr_cmp-smaller (v4 a) (v4 b) = ground arith
ip_addr_cmp-smaller (v6 a) (v6 b) = ground arith
ip_addr_cmp-smaller unspec unspec = (λ e. cc, λ h. absurd h)
ip_addr_cmp-smaller _ _ = (λ e. cc, λ h. absurd h)

-- On IP addresses lisp_addr_cmp answers 0 exactly on the same address, 1 exactly if the second comes before
-- the first in one family, 2 exactly if the first comes before the second in one family, and with its
-- arguments the other way round 1 for 2 and 2 for 1, and else the same.
pub lisp_addr_cmp_order :
    (a b : Ip)
    → ((lisp_addr_cmp (ip a) (ip b) ≡ equal) ↔ (a ≡ b))
      × ((lisp_addr_cmp (ip a) (ip b) ≡ bigger) ↔ IsBelow b a)
      × ((lisp_addr_cmp (ip a) (ip b) ≡ smaller) ↔ IsBelow a b)
      × (lisp_addr_cmp (ip b) (ip a) ≡ flip (lisp_addr_cmp (ip a) (ip b)))
unfolding lisp_addr_cmp
lisp_addr_cmp_order a b = (
  (ip_addr_cmp-eq a b, λ e. rw e (ip_addr_cmp_self b)),
  ip_addr_cmp-bigger a b,
  ip_addr_cmp-smaller a b,
  ip_addr_cmp-flip a b,
)

-- An IP address bigger than one that is bigger than a third is bigger than the third.
pub lisp_addr_cmp_trans :
    (a b c : Ip)
    → lisp_addr_cmp (ip a) (ip b) ≡ bigger
    → lisp_addr_cmp (ip b) (ip c) ≡ bigger
    → lisp_addr_cmp (ip a) (ip c) ≡ bigger
unfolding lisp_addr_cmp
lisp_addr_cmp_trans a b c h k = ip_addr_cmp_trans a b c h k
