-- ===== src/Debounce/Tests.antt =====
-- A delayed workflow, bounced.
use dbos_workload.Debounce.{
  Bounce, BounceAction, DebounceResult, can_bounce, classify_bounce, debounce_delayed_workflow,
  holds_key,
}
use dbos_workload.Debounce.Deadline.{
  debounce_delayed_workflow-classify_bounce, debounce_delayed_workflow_deadline,
}
use dbos_workload.Fixtures.{workflow_row}
use dbos_workload.Prelude.{[], false, refl, some, true, ℕ, ◌∷◌, ◌≡◌, ◌≤◌, ◌↔◌}
use dbos_workload.Schema.{SysDb, WorkflowRow, empty_db, is_delayed}
use dbos_workload.Steps.{find_workflow}
use dbos_workload.Table.{any_where}
use dbos_workload.Transaction.{ok}
use dbos_workload.Table.{find_row}
use dbos_workload.Schema.{delayed}

abbrev delayed_row : WorkflowRow
delayed_row = record (workflow_row "d" delayed (some "q") 1) {
  deduplication_id = some "k";
  is_debounced = true;
  delay_until_epoch_ms = some 50;
  debounce_deadline_epoch_ms = some 80;
}

abbrev delayed_db : SysDb
delayed_db = record empty_db { workflow_status = delayed_row ∷ [] }

abbrev bounce : Bounce
bounce = record {
  workflow_name = "checkout";
  queue_name = "q";
  deduplication_id = "k";
  delay_until_epoch_ms = 90;
  inputs = "[2]";
  serialization = some "plain";
}

debounce_delayed_workflow_deadline_example :
    (x : WorkflowRow) × (until : ℕ) × (find_workflow "d"
        (debounce_delayed_workflow bounce 60 delayed_db).1
      ≡ some x)
    × (x.delay_until_epoch_ms ≡ some until)
    × (until ≤ 90)
    × ((deadline : ℕ) → delayed_row.debounce_deadline_epoch_ms ≡ some deadline → until ≤ deadline)
    × (x.inputs ≡ some "[2]")
    × (is_delayed x.status ≡ true)
unfolding find_row
debounce_delayed_workflow_deadline_example =
    debounce_delayed_workflow_deadline bounce 60 delayed_db "d" delayed_row refl refl

debounce_delayed_workflow-classify_bounce_test :
    (result : DebounceResult) × ((debounce_delayed_workflow bounce 60 delayed_db).0 ≡ ok result)
    × ((classify_bounce result "checkout" ≡ BounceAction.return)
        ↔ (any_where (can_bounce bounce) delayed_db.workflow_status ≡ true))
    × ((classify_bounce result "checkout" ≡ BounceAction.enqueue)
        ↔ (any_where (holds_key bounce) delayed_db.workflow_status ≡ false))
    × (any_where (can_bounce bounce) delayed_db.workflow_status ≡ false
        → (debounce_delayed_workflow bounce 60 delayed_db).1 ≡ delayed_db)
debounce_delayed_workflow-classify_bounce_test =
    debounce_delayed_workflow-classify_bounce bounce 60 delayed_db
