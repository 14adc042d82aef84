-- ===== src/FlowBalancing/Select.antt =====
-- lispd/fwd_policies/flow_balancing/flow_balancing.c `select_best_priority_locators`.
use mathlib.Core.List.{append-nil, append_assoc}
use lispmob.Prelude.{
  ℕ, ◌+◌, ◌<◌, ◌≤◌, ◌≡◌, Bool, true, false, min, Bool-cases, inl, inr, List, [], ◌∷◌, ◌++◌, refl,
  arith, ltb, subst, sym, ◌==◌, if◌then◌else◌, ◌&&◌, ◌||◌, not, length, filter, All, length-append,
  Run, ok, fault, out_of_bounds, ◌>>=◌, Returns,
}
use lispmob.Locator.{Locator, down, unused_rloc_priority}

-- `locator_t *locators[33]`
abbrev pub row_size : ℕ
row_size = 33

-- A row is what stands before its terminating NULL. The write of a locator at the end of the row
-- is followed by that of the NULL behind it, which must lie inside the array too.
unfoldable pub push_row : List Locator → Locator → Run (List Locator)
push_row row l = if ltb (length row + 1) row_size then ok (row ++ l ∷ []) else fault out_of_bounds

abbrev pub is_usable : Locator → Bool
is_usable l = not (l.state == down || l.priority == unused_rloc_priority)

unfoldable pub select_loop : List Locator → ℕ → List Locator → Run (ℕ × List Locator)
unfolding push_row
select_loop [] min_priority row = ok (min_priority, row)
select_loop (l ∷ ls) min_priority row =
    if is_usable l
    then (if l.priority == min_priority
        then push_row row l >>= (λ row'. select_loop ls min_priority row')
        else (if ltb l.priority min_priority
            then push_row [] l >>= (λ row'. select_loop ls l.priority row')
            else select_loop ls min_priority row))
    else select_loop ls min_priority row

-- The priority returned and the row; the caller's row is empty before the call. An empty list is
-- BAD, the number 0.
unfoldable pub select_best_priority_locators : List Locator → Run (ℕ × List Locator)
unfolding select_loop
select_best_priority_locators [] = ok (0, [])
select_best_priority_locators (l ∷ ls) = select_loop (l ∷ ls) unused_rloc_priority []

-- The best priority of the usable locators, from `m` on.
unfoldable pub best : ℕ → List Locator → ℕ
best m [] = m
best m (l ∷ ls) = best (if is_usable l && ltb l.priority m then l.priority else m) ls

-- The usable locators of one priority, in the order of the list.
abbrev pub with_priority : ℕ → List Locator → List Locator
with_priority p = filter (λ l. is_usable l && l.priority == p)

pub best-le : (m : ℕ) (ls : List Locator) → best m ls ≤ m
unfolding best
best-le m [] = omega arith
best-le m (l ∷ ls) = ground (arith, best-le m ls, best-le l.priority ls)

-- What the loop leaves in the row: it is extended while the priority stays, and started anew
-- when a better one is met.
abbrev row_after : ℕ → List Locator → ℕ → List Locator → List Locator
row_after m row b ls = if b == m then row ++ with_priority m ls else with_priority b ls

select_loop_lem :
    (ls : List Locator) (m : ℕ) (row : List Locator)
    → length row + length ls < row_size
    → select_loop ls m row ≡ ok (best m ls, row_after m row (best m ls) ls)
unfolding select_loop push_row best
select_loop_lem [] m row h = ground (arith, append-nil row)
select_loop_lem (l ∷ ls) m row h = ground (
  arith,
  select_loop_lem ls m row,
  select_loop_lem ls m (row ++ l ∷ []),
  select_loop_lem ls l.priority (l ∷ []),
  best-le m ls,
  best-le l.priority ls,
  length-append row (l ∷ []),
  append_assoc row (l ∷ []) (with_priority m ls),
)

best-All : (m : ℕ) (ls : List Locator) → All (λ l. is_usable l ≡ true → best m ls ≤ l.priority) ls
unfolding best
best-All m [] = tt
best-All m (l ∷ ls) = (
  λ u. ground (arith, best-le m ls, best-le l.priority ls),
  best-All (if is_usable l && ltb l.priority m then l.priority else m) ls,
)

best-found : (m : ℕ) (ls : List Locator) → best m ls < m → 0 < length (with_priority (best m ls) ls)
unfolding best
best-found m [] h = absurd (omega arith)
best-found m (l ∷ ls) h =
    ground (arith, best-found m ls, best-found l.priority ls, best-le l.priority ls)

pub with_priority-unused : (ls : List Locator) → with_priority unused_rloc_priority ls ≡ []
with_priority-unused [] = refl
with_priority-unused (l ∷ ls) = ground (arith, with_priority-unused ls)

-- The selected row `r.1` holds the usable locators of the best priority `r.0`, in list order, and
-- is empty only if no locator is usable, when the priority is 255.
pub record IsBestRow (ls : List Locator) (r : ℕ × List Locator) : Type 0 where
  pub priority : r.0 ≡ best unused_rloc_priority ls
  pub row : r.1 ≡ with_priority r.0 ls
  pub least : All (λ l. is_usable l ≡ true → r.0 ≤ l.priority) ls
  pub found : r.0 < unused_rloc_priority → 0 < length r.1
  pub bounded : r.0 ≤ unused_rloc_priority

-- A list of 1 to 32 locators is selected from without a write outside the row, and the row is the
-- best one.
pub select_best-IsBestRow :
    (ls : List Locator)
    → 0 < length ls
    → length ls < row_size
    → Returns (select_best_priority_locators ls) (IsBestRow ls)
unfolding select_best_priority_locators
select_best-IsBestRow [] h small = absurd (omega arith)
select_best-IsBestRow (l ∷ ls) h small =
    let all = l ∷ ls in
    let p = best unused_rloc_priority all in
    let same : row_after unused_rloc_priority [] p all ≡ with_priority p all =
      ground (arith, with_priority-unused all) in
    (
      (p, row_after unused_rloc_priority [] p all),
      select_loop_lem all unused_rloc_priority [] (omega arith),
      record {
        priority = refl;
        row = same;
        least = best-All unused_rloc_priority all;
        found = λ lt. rw same (best-found unused_rloc_priority all lt);
        bounded = best-le unused_rloc_priority all;
      },
    )

overflow_loop :
    (ls : List Locator) (p : ℕ) (row : List Locator)
    → All (λ l. (is_usable l ≡ true) × (l.priority ≡ p)) ls
    → length row < row_size
    → row_size ≤ length row + length ls
    → select_loop ls p row ≡ fault out_of_bounds
unfolding select_loop push_row
overflow_loop [] p row all small big = absurd (omega arith)
overflow_loop (l ∷ ls) p row all small big =
    ground (arith, overflow_loop ls p (row ++ l ∷ []) all.1, length-append row (l ∷ []))

-- More than 32 usable locators of one priority write past the end of the row.
pub select_best-overflow :
    (ls : List Locator) (p : ℕ)
    → p < unused_rloc_priority
    → All (λ l. (is_usable l ≡ true) × (l.priority ≡ p)) ls
    → row_size ≤ length ls
    → select_best_priority_locators ls ≡ fault out_of_bounds
unfolding select_best_priority_locators select_loop push_row
select_best-overflow [] p lt all big = absurd (omega arith)
select_best-overflow (l ∷ ls) p lt all big =
    let rest = overflow_loop ls p (l ∷ []) all.1 (omega arith) (omega arith) in
    let same = all.0.1 in
    let here : ltb l.priority unused_rloc_priority ≡ true = ground arith in
    let there : (l.priority == unused_rloc_priority) ≡ false = ground arith in
    rw (all.0.0, there, here)
      (subst (λ q. select_loop ls q (l ∷ []) ≡ fault out_of_bounds) (sym same) rest)

pub best-append : (m : ℕ) (a b : List Locator) → best m (a ++ b) ≡ best (best m a) b
unfolding best
best-append m [] b = refl
best-append m (l ∷ a) b =
    best-append (if is_usable l && ltb l.priority m then l.priority else m) a b

pub best-min : (m n : ℕ) (ls : List Locator) → best (min m n) ls ≡ min m (best n ls)
unfolding best
best-min m n [] = refl
best-min m n (l ∷ ls) = elim (Bool-cases (is_usable l)) [
  | inr e ↦ rw e (best-min m n ls)
  | inl e ↦ ground (
    arith,
    e,
    best-min m n ls,
    best-min m l.priority ls,
    best-min l.priority m ls,
    best-min l.priority n ls,
    best-le m ls,
    best-le n ls,
    best-le l.priority ls,
  )
]

pub with_priority-append :
    (p : ℕ) (a b : List Locator) → with_priority p (a ++ b) ≡ with_priority p a ++ with_priority p b
with_priority-append p [] b = refl
with_priority-append p (l ∷ a) b = ground (arith, with_priority-append p a b)

-- No usable locator has a priority better than the best one.
pub with_priority-below : (p m : ℕ) (ls : List Locator) → p < best m ls → with_priority p ls ≡ []
unfolding best
with_priority-below p m [] h = refl
with_priority-below p m (l ∷ ls) h = ground (
  arith,
  with_priority-below p m ls,
  with_priority-below p l.priority ls,
  best-le m ls,
  best-le l.priority ls,
)
