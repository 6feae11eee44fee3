-- ===== src/Operations.antt =====
-- The operations of dbos/_sys_db.py that clients interleave, as data, and runs of them: each is a
-- transaction, so that what executors do at the same time is some sequence of operations.
pub mod Transitions
pub mod Evolution
pub mod Keeping
pub mod Rows
pub mod Inserts
pub mod Checkpoints
pub mod Publishing
pub mod Delivering
pub mod History
mod Tests
use dbos_workload.Debounce.{Bounce, debounce_delayed_workflow}
use dbos_workload.Dequeue.{QueueConfig, dequeued, start_queued_workflows}
use dbos_workload.Events.{get_event_consume, set_event_from_step, set_event_from_workflow}
use dbos_workload.Fork.{fork_workflow}
use dbos_workload.Fork.Entries.{ForkOptions}
use dbos_workload.Messages.{Forks, SendMessage, send_bulk}
use dbos_workload.Prelude.{compares_text}
use dbos_workload.Receive.{recv_consume}
use dbos_workload.Schema.{Status, SysDb}
use dbos_workload.Serialization.{Format, Serializers}
use dbos_workload.Start.{NewWorkflow, init_workflow}
use dbos_workload.Steps.{
  OperationResult, record_child_workflow, record_get_result, record_operation_result,
}
use dbos_workload.Streams.{write_stream_from_workflow}
use dbos_workload.Workflow.{
  cancel_workflows, clear_queue_assignment, delete_workflows, resume_workflows, set_workflow_delay,
  transition_delayed_workflows, update_workflow_attributes, update_workflow_outcome,
}
use dbos_workload.Prelude.{ℕ, String, Bool, true, not, Option, List, [], ◌∷◌, mem, ℤ}

-- The statuses that the execution of a workflow ends with.
pub data Ending : Type 0 where
  succeeded failed : Ending

abbrev pub status_after : Ending → Status
status_after succeeded = Status.success
status_after failed = Status.error

pub data Operation (V : Type 0) : Type 0 where
  init : NewWorkflow → Option ℕ → Option String → Bool → Bool → ℕ → Operation V
  dequeue : QueueConfig → String → String → Option String → ℕ → ℕ → ℕ → Operation V
  finish : String → Ending → Option String → Option String → ℕ → Operation V
  cancel : List String → ℕ → Operation V
  resume : List String → Option String → ℕ → Operation V
  fork : ForkOptions → List String → List String → List ℕ → ℕ → Operation V
  delete : List String → Operation V
  put_delay : String → Option ℤ → Option ℤ → ℕ → ℕ → Operation V
  set_attributes : String → Option String → ℕ → Operation V
  undelay : ℕ → Operation V
  requeue : String → Operation V
  debounce : Bounce → ℕ → Operation V
  record_step : OperationResult → ℕ → Operation V
  record_result : String → ℕ → String → Option String → Option String → Option String → Operation V
  record_child : String → String → ℕ → String → Operation V
  send :
      (ℕ → String)
      → List (SendMessage V)
      → Option Format
      → Forks
      → Option (String × ℕ)
      → String
      → ℕ
      → ℕ
      → Operation V
  consume_message : String → ℕ → Option String → ℕ → ℕ → Operation V
  set_event : String → ℕ → String → V → Option Format → ℕ → ℕ → Operation V
  set_event_in_step : String → ℕ → String → V → Option Format → Operation V
  get_event : String → String → ℕ → ℕ → Option (String × ℕ) → Operation V
  write_stream : V → (V → Bool) → String → ℕ → String → V → Option Format → ℕ → ℕ → Operation V

module _ {V : Type 0} (s : Serializers V) (own : Option String) where
  -- The database after an operation, whether it returned or raised.
  unfoldable pub run : Operation V → SysDb → SysDb
  run (init w limit owner_xid recovery from_queue now) db =
      (init_workflow w limit owner_xid recovery from_queue now db).1
  run (dequeue q executor version key local start now) db =
      (start_queued_workflows q executor version key local start now db).1
  run (finish id ending output error now) db =
      (update_workflow_outcome id (status_after ending) output error now db).1
  run (cancel ids now) db = cancel_workflows ids now db
  run (resume ids queue now) db = resume_workflows ids queue now db
  run (fork o ids forks steps now) db = (fork_workflow o ids forks steps now db).1
  run (delete ids) db = delete_workflows ids db
  run (put_delay id delay until clock now) db = (set_workflow_delay id delay until clock now db).1
  run (set_attributes id attributes now) db = update_workflow_attributes id attributes now db
  run (undelay now) db = transition_delayed_workflows now db
  run (requeue id) db = clear_queue_assignment id db
  run (debounce b now) db = (debounce_delayed_workflow b now db).1
  run (record_step result completed) db = (record_operation_result own result completed db).1
  run (record_result id n result_id output error format) db =
      (record_get_result id n result_id output error format db).1
  run (record_child parent child n name) db = (record_child_workflow parent child n name db).1
  run (send uuid messages format forks caller name start now) db =
      (send_bulk s own uuid messages format forks caller name start now db).1
  run (consume_message id n topic start now) db = (recv_consume s own id n topic start now db).1
  run (set_event id n key v format start now) db =
      (set_event_from_workflow s own id n key v format start now db).1
  run (set_event_in_step id n key v format) db = (set_event_from_step s own id n key v format db).1
  run (get_event target key start now caller) db =
      (get_event_consume s own target key start now caller db).1
  run (write_stream sentinel is_sentinel id n key v format start now) db =
      (write_stream_from_workflow s own sentinel is_sentinel id n key v format start now db).1

  unfoldable pub run_all : List (Operation V) → SysDb → SysDb
  unfolding run
  run_all [] db = db
  run_all (op ∷ ops) db = run_all ops (run op db)

-- The operation does not delete the workflow.
abbrev pub spares : {V : Type 0} → String → Operation V → Bool
spares id (delete ids) = not (mem id ids)
spares id _ = true
