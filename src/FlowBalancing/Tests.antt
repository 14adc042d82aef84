-- ===== src/FlowBalancing/Tests.antt =====
-- lispd/fwd_policies/flow_balancing: the theorems at concrete locators.
use lispmob.Prelude.{
  ℕ, suc, zero, ◌<◌, ◌≡◌, inl, inr, refl, arith, List, [], ◌∷◌, replicate, All, fault,
  out_of_bounds, Returns,
}
use lispmob.Address.{ip, v4, v6, af_inet, af_inet6, lisp_addr_ip_afi, ip_addr_afi}
use lispmob.Locator.{Locator, up, unused_rloc_priority}
use lispmob.FlowBalancing.Address.{fb_lisp_addr_get_fwd_ip_addr}
use lispmob.FlowBalancing.Hcf.{highest_common_factor, hcf_run, IsHcf, hcf_run-IsHcf}
use lispmob.FlowBalancing.Select.{
  best, select_best_priority_locators, IsBestRow, select_best-IsBestRow,
}
use lispmob.FlowBalancing.Fill.{get_hcf_locators_weight, set_balancing_vector}
use lispmob.FlowBalancing.Fill.Weigh.{
  IsSpread, get_hcf_locators_weight-IsWeighed, set_balancing_vector-IsSpread,
}
use lispmob.FlowBalancing.Calculate.{balance_families, balancing_vectors_calculate}
use lispmob.FlowBalancing.Calculate.Joint.{
  IsBalanced, balance_families-IsBalanced, balance_families-overflow,
}
use lispmob.FlowBalancing.Forward.{fb_get_fw_entry}
use lispmob.FlowBalancing.Forward.Safe.{IsReady, IsEntry, fb_get_fw_entry-IsEntry}
use lispmob.FlowBalancing.Forward.Ready.{IsRoutable, family, balancing_vectors_calculate-IsReady}

abbrev four : Locator
four = record {
  addr = ip (v4 10);
  state = up;
  priority = 1;
  weight = 50;
  mpriority = 255;
  mweight = 0;
}

abbrev six : Locator
six = record {
  addr = ip (v6 7);
  state = up;
  priority = 1;
  weight = 100;
  mpriority = 255;
  mweight = 0;
}

hcf_run-IsHcf_example :
    Returns (hcf_run 12 18) (λ d. (highest_common_factor 12 18 ≡ d) × IsHcf 12 18 d)
hcf_run-IsHcf_example = hcf_run-IsHcf 12 18

select_best-IsBestRow_example :
    Returns (select_best_priority_locators (four ∷ six ∷ [])) (IsBestRow (four ∷ six ∷ []))
select_best-IsBestRow_example = select_best-IsBestRow (four ∷ six ∷ []) (omega arith) (omega arith)

All-replicate : (P : Locator → Type 0) (n : ℕ) (l : Locator) → P l → All P (replicate n l)
All-replicate P zero l h = tt
All-replicate P (suc n) l h = (h, All-replicate P n l h)

set_balancing_vector-IsSpread_example :
    Returns
      (set_balancing_vector
        (four ∷ six ∷ [])
        (get_hcf_locators_weight (four ∷ six ∷ [])).0
        (get_hcf_locators_weight (four ∷ six ∷ [])).1)
      (IsSpread
        (four ∷ six ∷ [])
        (get_hcf_locators_weight (four ∷ six ∷ [])).0
        (get_hcf_locators_weight (four ∷ six ∷ [])).1)
set_balancing_vector-IsSpread_example =
    set_balancing_vector-IsSpread (four ∷ six ∷ []) _ _
      (get_hcf_locators_weight-IsWeighed (four ∷ six ∷ []))

balance_families-IsBalanced_example :
    Returns (balance_families (four ∷ [], six ∷ [])) (IsBalanced (four ∷ []) (six ∷ []))
balance_families-IsBalanced_example =
    balance_families-IsBalanced (four ∷ []) (six ∷ []) (omega arith)

twenty_best : best unused_rloc_priority (replicate 20 four) < unused_rloc_priority
unfolding best
twenty_best = omega arith

balance_families-overflow_example :
    balance_families (replicate 20 four, replicate 20 six) ≡ fault out_of_bounds
unfolding best
balance_families-overflow_example =
    balance_families-overflow (replicate 20 four) (replicate 20 six) (omega arith) (omega arith)
      refl twenty_best (omega arith)

abbrev lists : List (List Locator)
lists = (four ∷ []) ∷ (six ∷ []) ∷ []

four-IsRoutable : IsRoutable [] four
unfolding fb_lisp_addr_get_fwd_ip_addr lisp_addr_ip_afi ip_addr_afi
four-IsRoutable = inr (inl (ip (v4 10), refl, refl))

six-IsRoutable : IsRoutable [] six
unfolding fb_lisp_addr_get_fwd_ip_addr lisp_addr_ip_afi ip_addr_afi
six-IsRoutable = inr (inr (ip (v6 7), refl, refl))

balancing_vectors_calculate-IsReady_example :
    Returns (balancing_vectors_calculate [] lists) (λ vecs.
      IsBalanced (family [] af_inet lists) (family [] af_inet6 lists) vecs × IsReady [] vecs)
balancing_vectors_calculate-IsReady_example =
    balancing_vectors_calculate-IsReady [] lists ((four-IsRoutable, tt), ((six-IsRoutable, tt), tt))
      (omega arith)

ready : Returns (balancing_vectors_calculate [] lists) (IsReady [])
ready =
    let (vecs, run, (balanced, all)) =
      balancing_vectors_calculate-IsReady [] lists
        ((four-IsRoutable, tt), ((six-IsRoutable, tt), tt)) (omega arith) in
    (vecs, run, all)

fb_get_fw_entry-IsEntry_example :
    Returns (fb_get_fw_entry [] ready.0 ready.0 5) (IsEntry [] ready.0 ready.0)
fb_get_fw_entry-IsEntry_example = fb_get_fw_entry-IsEntry [] ready.0 ready.0 ready.2 ready.2 5
