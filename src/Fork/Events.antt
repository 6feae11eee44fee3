-- ===== src/Fork/Events.antt =====
-- The events of forks: the ranking is within the original's rows, whichever fork they are for.
use dbos_workload.Fork.Entries.{ForkEntry, in_same_part}
use dbos_workload.Prelude.{
  Bool, Bool-cases, List, String, [], arith, compares_nat, compares_option, compares_text, eq_iff,
  false, inl, inr, none, not, refl, true, ◌&&◌, ◌==◌, ◌∷◌, ◌≡◌, ◌≤◌,
}
use dbos_workload.Schema.{EventHistoryRow}
use dbos_workload.Table.{find_row, select, count_where}
use dbos_workload.Fork.Entries.{top_ranked, joined_history, goes_over}

count_where-select-le :
    (p q : String × EventHistoryRow → Bool) (xs : List (String × EventHistoryRow))
    → count_where p (select q xs) ≤ count_where p xs
unfolding count_where select
count_where-select-le p q [] = omega arith
count_where-select-le p q (x ∷ xs) = ground (arith, count_where-select-le p q xs)

count_where-select_none :
    (p q : String × EventHistoryRow → Bool) (xs : List (String × EventHistoryRow))
    → ((x : String × EventHistoryRow) → q x ≡ true → p x ≡ false)
    → count_where p (select q xs) ≡ 0
unfolding count_where select
count_where-select_none p q [] excludes = refl
count_where-select_none p q (x ∷ xs) excludes =
    ground (arith, excludes x, count_where-select_none p q xs excludes)

top_ranked_once :
    (r : EventHistoryRow) (xs : List (String × EventHistoryRow))
    → count_where (in_same_part r) (top_ranked xs) ≤ 1
unfolding count_where top_ranked
top_ranked_once r [] = omega arith
top_ranked_once r ((fork, x) ∷ xs) =
    elim (Bool-cases (goes_over (find_row (in_same_part x) (top_ranked xs)) x)) [
      | inl t ↦ elim (Bool-cases (in_same_part r (fork, x))) [
        | inl here ↦
            let none_left =
              count_where-select_none (in_same_part r) (λ y. not (in_same_part x y)) (top_ranked xs)
                (λ y e.
                  ground
                    (arith, eq_iff x.workflow_uuid r.workflow_uuid, eq_iff x.key r.key, here, e)) in
            rw t (ground (arith, none_left))
        | inr other ↦ rw t (
            ground (
              arith,
              top_ranked_once r xs,
              count_where-select-le (in_same_part r) (λ y. not (in_same_part x y)) (top_ranked xs),
            ))
      ]
      | inr f ↦ rw f (top_ranked_once r xs)
    ]

-- However many forks of one workflow are made in one call, and from whatever steps, at most one
-- event is copied for each key of that workflow: only one of the forks has it.
pub fork_events_once :
    (mappings : List ForkEntry) (original key : String) (history : List EventHistoryRow)
    → count_where
        (λ x. x.1.workflow_uuid == original && x.1.key == key)
        (top_ranked (joined_history mappings history))
      ≤ 1
fork_events_once mappings original key history =
    top_ranked_once
      (record {
        workflow_uuid = original;
        key = key;
        value = "";
        function_id = 0;
        serialization = none;
      })
      (joined_history mappings history)
