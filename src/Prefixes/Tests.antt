-- ===== src/Prefixes/Tests.antt =====
-- lispd/lib/prefixes.c: the theorems at concrete prefixes.
use lispmob.Prelude.{◌≡◌, ◌≤◌, ◌-◌, ◌↔◌, true, arith, Returns}
use lispmob.Address.{ippref, v4}
use lispmob.Prefixes.{pref_is_prefix_b_part_of_a}
use lispmob.Prefixes.Part.{SameBlock, pref_is_prefix_b_part_of_a-IsPart}

-- 10.0.0.0/8 and 10.1.2.3/24
pref_is_prefix_b_part_of_a-IsPart_example :
    Returns (pref_is_prefix_b_part_of_a (ippref (v4 167772160) 8) (ippref (v4 167838211) 24)) (λ r.
      (r.1 ≡ ippref (v4 167838211) 24)
      × ((r.0 ≡ true) ↔ ((8 ≤ 24) × SameBlock (32 - 8) 167772160 167838211)))
pref_is_prefix_b_part_of_a-IsPart_example =
    pref_is_prefix_b_part_of_a-IsPart 167772160 167838211 8 24 (omega arith) (omega arith)
      (omega arith) (omega arith)
