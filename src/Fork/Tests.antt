-- ===== src/Fork/Tests.antt =====
-- A workflow with two steps and an event, forked at its second step.
use dbos_workload.Fixtures.{db0}
use dbos_workload.Fork.Entries.{ForkOptions}
use dbos_workload.Fork.Events.{fork_events_once}
use dbos_workload.Prelude.{
  String, [], compares_nat, compares_option, compares_text, none, refl, some, ℕ, ◌&&◌, ◌==◌, ◌∷◌,
  ◌≡◌, ◌≤◌,
}
use dbos_workload.Schema.{EventHistoryRow, OperationRow, SysDb}
use dbos_workload.Table.{count_where}
use dbos_workload.Table.{find_row, select, any_where, update_where}
use dbos_workload.Fork.{
  fork_workflow, fork_entries, insert_forks, insert_new, statuses_of, with_status, returning,
}
use dbos_workload.Fork.Entries.{
  zip, copy_tables, copied_steps, joined_history, top_ranked, copied_streams, replaced,
}

abbrev step_row : ℕ → String → OperationRow
step_row n name = record {
  workflow_uuid = "a";
  function_id = n;
  function_name = name;
  output = some "1";
  error = none;
  child_workflow_id = none;
  started_at_epoch_ms = some 1;
  completed_at_epoch_ms = some 2;
  serialization = none;
}

abbrev progress : EventHistoryRow
progress = record {
  workflow_uuid = "a";
  key = "progress";
  value = "half";
  function_id = 1;
  serialization = none;
}

abbrev two_steps : SysDb
two_steps = record db0 {
  operation_outputs = step_row 1 "charge" ∷ step_row 2 "ship" ∷ [];
  workflow_events_history = progress ∷ [];
}

abbrev options : ForkOptions
options = record {
  application_version = some "v2";
  queue_name = none;
  queue_partition_key = none;
  replacement_children = [];
}

-- Two forks of one workflow: the second has no event.
forked_twice :
    (fork_workflow options
      ("a" ∷ "a" ∷ [])
      ("f" ∷ "g" ∷ [])
      (2 ∷ 2 ∷ [])
      9
      two_steps).1.workflow_events
    ≡ record { workflow_uuid = "f"; key = "progress"; value = "half"; serialization = none } ∷ []
unfolding fork_workflow fork_entries insert_forks insert_new statuses_of with_status returning zip
    copy_tables copied_steps joined_history top_ranked copied_streams replaced find_row select
    any_where update_where
forked_twice = refl

fork_events_once_example :
    count_where
      (λ x. x.1.workflow_uuid == "a" && x.1.key == "progress")
      (top_ranked (
        joined_history
          (record { original = "a"; fork = "f"; start_step = 2 }
            ∷ record { original = "a"; fork = "g"; start_step = 2 }
            ∷ [])
          two_steps.workflow_events_history))
    ≤ 1
fork_events_once_example =
    fork_events_once
      (record { original = "a"; fork = "f"; start_step = 2 }
        ∷ record { original = "a"; fork = "g"; start_step = 2 }
        ∷ [])
      "a" "progress" two_steps.workflow_events_history
