-- ===== src/Workflow.antt =====
-- The statements of dbos/_sys_db.py that move a workflow between statuses: its outcome, CANCELLED,
-- back to the queue, and out of a delay; and deletion and the reading of a result.
pub mod Lookup
pub mod Outcome
pub mod Resumed
mod Tests
use dbos_workload.Prelude.{
  ℕ, String, Bool, false, not, ◌&&◌, ◌+◌, Option, none, some, List, ◌==◌, compares_nat,
  compares_text, compares_option, matches, mem, leb, if◌then◌else◌, map, is_none, ℤ, pos, negsuc,
}
use dbos_workload.Table.{update_where, delete_where, select, any_where}
use dbos_workload.Schema.{
  Status, cancelled, enqueued, is_pending, is_cancelled, is_delayed, is_complete, WorkflowRow,
  SysDb,
}
use dbos_workload.Transaction.{
  awaited_workflow_cancelled, awaited_max_recovery_attempts, recorded, dbos_exception, Result, ok,
  err, Tx, ◌>>=◌, ◌>>◌, pure, raise, execute, query, begin, type_error,
}
use dbos_workload.Serialization.{Serializers, deserialize_value}
use dbos_workload.Steps.{by_uuid, find_workflow}

-- UPDATE workflow_status SET … WHERE …
abbrev pub update_workflows : (WorkflowRow → Bool) → (WorkflowRow → WorkflowRow) → SysDb → SysDb
update_workflows p f db = record db { workflow_status = update_where p f db.workflow_status }

abbrev pub internal_queue_name : String
internal_queue_name = "_dbos_internal_queue"

-- update_workflow_outcome's guarded UPDATE.
abbrev pub may_finish : String → WorkflowRow → Bool
may_finish id r = r.workflow_uuid == id && not (is_cancelled r.status)

abbrev pub finished : Status → Option String → Option String → ℕ → WorkflowRow → WorkflowRow
finished status output error now r = record r {
  status = status;
  output = output;
  error = error;
  deduplication_id = none;
  updated_at = now;
  completed_at = some now;
}

-- `rowcount == 0` and the re-read of the status.
unfoldable pub outcome_blocked : String → Option WorkflowRow → Tx (Unit {0})
outcome_blocked id none = pure tt
outcome_blocked id (some r) =
    if is_cancelled r.status then raise (awaited_workflow_cancelled id) else pure tt

unfoldable pub update_workflow_outcome :
    String → Status → Option String → Option String → ℕ → SysDb → Result (Unit {0}) × SysDb
unfolding outcome_blocked
update_workflow_outcome id status output error now = begin do
  matched ← query (λ db. any_where (may_finish id) db.workflow_status)
  execute (update_workflows (may_finish id) (finished status output error now))
  current ← query (find_workflow id)
  if matched then pure tt else outcome_blocked id current

abbrev pub to_cancel : List String → WorkflowRow → Bool
to_cancel ids r = mem r.workflow_uuid ids && not (is_complete r.status)

abbrev pub cancel_row : ℕ → WorkflowRow → WorkflowRow
cancel_row now r = record r {
  status = cancelled;
  queue_name = none;
  deduplication_id = none;
  started_at_epoch_ms = none;
  updated_at = now;
  completed_at = some now;
}

-- `_cancel_workflows`, and `cancel_workflows` without its children.
unfoldable pub cancel_workflows : List String → ℕ → SysDb → SysDb
cancel_workflows ids now = update_workflows (to_cancel ids) (cancel_row now)

abbrev pub resume_row : Option String → ℕ → WorkflowRow → WorkflowRow
resume_row queue now r = record r {
  status = enqueued;
  queue_name = elim queue [ none ↦ some internal_queue_name | some q ↦ some q ];
  recovery_attempts = 0;
  workflow_deadline_epoch_ms = none;
  deduplication_id = none;
  started_at_epoch_ms = none;
  updated_at = now;
  completed_at = none;
}

unfoldable pub resume_workflows : List String → Option String → ℕ → SysDb → SysDb
resume_workflows ids queue now = update_workflows (to_cancel ids) (resume_row queue now)

abbrev pub delay_row : ℕ → ℕ → WorkflowRow → WorkflowRow
delay_row until now r = record r { delay_until_epoch_ms = some until; updated_at = now }

abbrev pub is_delayed_as : String → WorkflowRow → Bool
is_delayed_as id r = r.workflow_uuid == id && is_delayed r.status

unfoldable pub set_delay : String → ℤ → ℕ → ℕ → SysDb → Result (Unit {0}) × SysDb
set_delay id (negsuc k) base now db = (err dbos_exception, db)
set_delay id (pos k) base now db =
    (ok tt, update_workflows (is_delayed_as id) (delay_row (base + k) now) db)

-- A delay in milliseconds from `clock`, the caller's time, or until a time; `now` is the
-- database's time.
unfoldable pub set_workflow_delay :
    String → Option ℤ → Option ℤ → ℕ → ℕ → SysDb → Result (Unit {0}) × SysDb
unfolding set_delay
set_workflow_delay id (some delay) (some until) clock now db = (err dbos_exception, db)
set_workflow_delay id none (some until) clock now db = set_delay id until 0 now db
set_workflow_delay id (some delay) none clock now db = set_delay id delay clock now db
set_workflow_delay id none none clock now db = (err dbos_exception, db)

unfoldable pub update_workflow_attributes : String → Option String → ℕ → SysDb → SysDb
update_workflow_attributes id attributes now =
    update_workflows (by_uuid id) (λ r. record r { attributes = attributes; updated_at = now })

-- DELETE FROM workflow_status; the foreign keys of the other tables delete with it.
unfoldable pub delete_workflows : List String → SysDb → SysDb
delete_workflows ids db = record {
  workflow_status = delete_where (λ r. mem r.workflow_uuid ids) db.workflow_status;
  operation_outputs = delete_where (λ r. mem r.workflow_uuid ids) db.operation_outputs;
  notifications = delete_where (λ r. mem r.destination_uuid ids) db.notifications;
  workflow_events = delete_where (λ r. mem r.workflow_uuid ids) db.workflow_events;
  workflow_events_history = delete_where (λ r. mem r.workflow_uuid ids) db.workflow_events_history;
  streams = delete_where (λ r. mem r.workflow_uuid ids) db.streams;
  application_versions = db.application_versions;
  queues = db.queues;
  workflow_schedules = db.workflow_schedules;
}

abbrev pub delay_expired : ℕ → WorkflowRow → Bool
delay_expired now r =
    is_delayed r.status && elim r.delay_until_epoch_ms [ none ↦ false | some t ↦ leb t now ]

abbrev pub undelay_row : WorkflowRow → WorkflowRow
undelay_row r = record r {
  status = enqueued;
  deduplication_id = if r.is_debounced then none else r.deduplication_id;
}

unfoldable pub transition_delayed_workflows : ℕ → SysDb → SysDb
transition_delayed_workflows now = update_workflows (delay_expired now) undelay_row

abbrev pub is_assigned : String → WorkflowRow → Bool
is_assigned id r = r.workflow_uuid == id && not (is_none r.queue_name) && is_pending r.status

unfoldable pub clear_queue_assignment : String → SysDb → SysDb
clear_queue_assignment id =
    update_workflows (is_assigned id)
      (λ r. record r { status = enqueued; started_at_epoch_ms = none })

-- get_pending_workflows: the IDs with their queues.
unfoldable pub get_pending_workflows : String → String → SysDb → List (String × Option String)
get_pending_workflows executor version db =
    map (λ r. (r.workflow_uuid, r.queue_name))
      (select
        (λ r.
          is_pending r.status
          && matches r.executor_id executor
          && matches r.application_version version)
        db.workflow_status)

-- check_workflow_result: `none` stands for NoResult.
result_of : {V : Type 0} → Serializers V → String → WorkflowRow → Option (Result V)
result_of s id r = elim r.status [
  | Status.success ↦ some (deserialize_value s r.output r.serialization)
  | Status.error ↦
      some (err (elim r.error [ none ↦ type_error | some e ↦ recorded e r.serialization ]))
  | Status.cancelled ↦ some (err (awaited_workflow_cancelled id))
  | Status.max_recovery_attempts_exceeded ↦ some (err (awaited_max_recovery_attempts id))
  | _ ↦ none
]

unfoldable pub check_workflow_result :
    {V : Type 0} → Serializers V → String → SysDb → Option (Result V)
unfolding result_of
check_workflow_result s id db = elim (find_workflow id db) [
  | none ↦ none
  | some r ↦ result_of s id r
]
