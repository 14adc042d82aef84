-- ===== src/Nonces/Tests.antt =====
-- lispd/lib/nonces_table.c: runs on a table that is a function.
use lispmob.Prelude.{◌≡◌, refl, none, List, [], ◌∷◌}
use lispmob.Nonces.{htable_nonces_new, htable_nonces_lookup}
use lispmob.Nonces.Functions.{functions}
use lispmob.Nonces.Spec.{Op, insert, reset, spec_run}
use lispmob.Nonces.Refine.{run, htable_nonces_lookup-run}

-- two requests, of which the first is answered
abbrev two_requests : List Op
two_requests = insert 1001 1 ∷ insert 1002 1 ∷ insert 2001 2 ∷ reset 1 ∷ []

htable_nonces_lookup-run_example :
    htable_nonces_lookup functions 2001 (run functions two_requests (htable_nonces_new functions))
    ≡ spec_run two_requests (λ n. none) 2001
htable_nonces_lookup-run_example =
    htable_nonces_lookup-run functions two_requests 2001 (refl, (refl, (refl, tt)))
