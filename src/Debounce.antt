-- ===== src/Debounce.antt =====
-- Debouncing: `debounce_delayed_workflow` of dbos/_sys_db.py, and `_classify_bounce` of
-- dbos/_debouncer.py, which decides on its answer.
pub mod Deadline
mod Tests
use dbos_workload.Prelude.{
  ℕ, String, Bool, true, false, not, ◌&&◌, Option, none, some, ◌==◌, compares_text, compares_option,
  matches, ltb, if◌then◌else◌,
}
use dbos_workload.Table.{find_row}
use dbos_workload.Schema.{is_delayed, WorkflowRow, SysDb}
use dbos_workload.Transaction.{Result, ok, Tx, ◌>>=◌, ◌>>◌, pure, query, execute, begin}
use dbos_workload.Workflow.{update_workflows}

pub record DebounceResult : Type 0 where
  pub bounced_workflow_id : Option String
  pub holder_workflow_id : Option String
  pub holder_is_debounced : Bool
  pub holder_workflow_name : Option String

-- The arguments of a bounce.
pub record Bounce : Type 0 where
  pub workflow_name : String
  pub queue_name : String
  pub deduplication_id : String
  pub delay_until_epoch_ms : ℕ
  pub inputs : String
  pub serialization : Option String

-- The rows that hold the key, and those of them that a bounce extends.
abbrev pub holds_key : Bounce → WorkflowRow → Bool
holds_key b r = matches r.queue_name b.queue_name && matches r.deduplication_id b.deduplication_id

abbrev pub can_bounce : Bounce → WorkflowRow → Bool
can_bounce b r =
    matches r.name b.workflow_name && holds_key b r && is_delayed r.status && r.is_debounced

-- The new delay, with the debounce deadline as its cap.
abbrev pub capped_delay : ℕ → Option ℕ → ℕ
capped_delay until none = until
capped_delay until (some deadline) = if ltb deadline until then deadline else until

abbrev pub bounced_row : Bounce → ℕ → WorkflowRow → WorkflowRow
bounced_row b now r = record r {
  delay_until_epoch_ms = some (capped_delay b.delay_until_epoch_ms r.debounce_deadline_epoch_ms);
  inputs = some b.inputs;
  serialization = b.serialization;
  updated_at = now;
}

abbrev pub held_by : Option WorkflowRow → DebounceResult
held_by none = record {
  bounced_workflow_id = none;
  holder_workflow_id = none;
  holder_is_debounced = false;
  holder_workflow_name = none;
}
held_by (some r) = record {
  bounced_workflow_id = none;
  holder_workflow_id = some r.workflow_uuid;
  holder_is_debounced = r.is_debounced;
  holder_workflow_name = r.name;
}

abbrev pub bounced : WorkflowRow → DebounceResult
bounced r = record {
  bounced_workflow_id = some r.workflow_uuid;
  holder_workflow_id = none;
  holder_is_debounced = false;
  holder_workflow_name = none;
}

-- A row that was updated, or else the holder of the key.
unfoldable pub answer_bounce : Bounce → Option WorkflowRow → Tx DebounceResult
answer_bounce b (some r) = pure (bounced r)
answer_bounce b none = do
  holder ← query (λ db. find_row (holds_key b) db.workflow_status)
  pure (held_by holder)

-- In the transaction of a step, and in one of its own.
unfoldable pub debounce_txn : Bounce → ℕ → Tx DebounceResult
unfolding answer_bounce
debounce_txn b now = do
  updated ← query (λ db. find_row (can_bounce b) db.workflow_status)
  execute (update_workflows (can_bounce b) (bounced_row b now))
  answer_bounce b updated

unfoldable pub debounce_delayed_workflow : Bounce → ℕ → SysDb → Result DebounceResult × SysDb
unfolding debounce_txn
debounce_delayed_workflow b now = begin (debounce_txn b now)

pub data BounceAction : Type 0 where
  return enqueue raise retry : BounceAction

abbrev pub same_name : Option String → String → BounceAction
same_name name workflow_name =
    if not (name == some workflow_name) then BounceAction.raise else BounceAction.retry

unfoldable pub classify_bounce : DebounceResult → String → BounceAction
classify_bounce result workflow_name = elim result.bounced_workflow_id [
  | some id ↦ BounceAction.return
  | none ↦ elim result.holder_workflow_id [
    | none ↦ BounceAction.enqueue
    | some id ↦
        if not result.holder_is_debounced
        then BounceAction.raise
        else same_name result.holder_workflow_name workflow_name
  ]
]
