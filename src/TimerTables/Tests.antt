-- ===== src/TimerTables/Tests.antt =====
-- lispd/lib/timers_utils.c: runs on tables that are functions.
use lispmob.Prelude.{◌≡◌, refl, some, none, false, [], ◌∷◌, ◌==◌, if◌then◌else◌, Returns}
use lispmob.Glist.{glist_new, glist_add, add_by, glist_new_complete}
use lispmob.Locator.Lists.{good}
use lispmob.Nonces.{htable_nonces_new, htable_nonces_insert, htable_nonces_lookup}
use lispmob.Nonces.Functions.{functions}
use lispmob.Nonces.Lists.{holds}
use lispmob.Timers.{lmtimers_init, lmtimer_start, is_linked}
use lispmob.TimerTables.{
  Clock, htable_ptrs_new, htable_ptrs_lookup, htable_ptrs_insert, own_list, htable_ptrs_timers_add,
  lmtimer_with_nonce_new, stop_timers_from_obj,
}
use lispmob.TimerTables.Awaited.{is_awaited}
use lispmob.TimerTables.Stopped.{stop_timers_from_obj-IsStopped}

-- an object at 50 with the timers 1 and 2, of which the first waits for an answer, and one at 60 with 3
abbrev empty : Clock functions functions
empty = record {
  ptrs = htable_ptrs_new functions;
  nonces = htable_nonces_new functions;
  timers = λ t. none;
  wheel = lmtimers_init;
}

abbrev three : Clock functions functions
three =
    let s =
      lmtimer_with_nonce_new 7 3 903
        (lmtimer_with_nonce_new 8 2 902 (lmtimer_with_nonce_new 7 1 901 empty)) in
    record s {
      ptrs =
          (htable_ptrs_timers_add functions 60 3 600
            (htable_ptrs_timers_add functions 50 2 501
              (htable_ptrs_timers_add functions 50 1 500 s.ptrs).1).1).1;
      nonces =
          htable_nonces_insert functions 1003 903
            (htable_nonces_insert functions 1001 901 s.nonces);
      wheel = lmtimer_start 3 60 (lmtimer_start 2 10 (lmtimer_start 1 3 s.wheel));
    }

listed : htable_ptrs_lookup functions 50 three.ptrs ≡ some 500
unfolding htable_ptrs_timers_add own_list htable_ptrs_lookup htable_ptrs_insert htable_ptrs_new
    lmtimer_with_nonce_new
listed = refl

own : (three.ptrs.lists 500).elems ≡ 2 ∷ 1 ∷ []
unfolding htable_ptrs_timers_add own_list htable_ptrs_lookup htable_ptrs_insert htable_ptrs_new
    lmtimer_with_nonce_new glist_new glist_new_complete glist_add add_by
own = refl

stop_timers_from_obj-IsStopped_example : Returns (stop_timers_from_obj 50 three) (λ r.
    (r.0 ≡ good)
    × (htable_ptrs_lookup functions 60 r.1.ptrs
        ≡ (if 50 == 60 then none else htable_ptrs_lookup functions 60 three.ptrs))
    × (r.1.timers 2 ≡ (if holds 2 (three.ptrs.lists 500).elems then none else three.timers 2))
    × (is_linked 2 r.1.wheel.linked
        ≡ (if holds 2 (three.ptrs.lists 500).elems then false else is_linked 2 three.wheel.linked))
    × (htable_nonces_lookup functions 1001 r.1.nonces ≡ (
        if is_awaited three.timers three.nonces.lists 1001 (three.ptrs.lists 500).elems
        then none
        else htable_nonces_lookup functions 1001 three.nonces)))
unfolding htable_ptrs_timers_add own_list htable_ptrs_lookup htable_ptrs_insert htable_ptrs_new
    lmtimer_with_nonce_new glist_new glist_new_complete glist_add add_by holds
stop_timers_from_obj-IsStopped_example =
    stop_timers_from_obj-IsStopped 50 60 2 1001 500 three listed (refl, (refl, tt))
      ((_, refl), ((_, refl), tt))
