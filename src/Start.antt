-- ===== src/Start.antt =====
-- Starting a workflow: `_insert_workflow_status` and `init_workflow` of dbos/_sys_db.py. The row is
-- inserted, or found with its recovery attempts counted, and the caller learns whether to execute.
pub mod Once
pub mod Recovery
mod Tests
use dbos_workload.Prelude.{
  ℕ, String, Bool, true, false, not, ◌&&◌, ◌||◌, ◌+◌, Option, none, some, [], ◌∷◌, ◌++◌, ◌==◌,
  compares_text, compares_option, ltb, if◌then◌else◌,
}
use dbos_workload.Table.{any_where}
use dbos_workload.Schema.{
  Status, max_recovery_attempts_exceeded, is_waiting, is_pending, is_complete, WorkflowRow, SysDb,
}
use dbos_workload.Transaction.{
  queue_deduplicated, conflicting_workflow, max_recovery_attempts, Result, Tx, ◌>>=◌, ◌>>◌, pure,
  raise, execute, query, begin, commit,
}
use dbos_workload.Steps.{by_uuid, find_workflow}
use dbos_workload.Workflow.{update_workflows}
use dbos_workload.Workflow.Lookup.{same_dedup}

-- The fields of WorkflowStatusInternal that are written.
pub record NewWorkflow : Type 0 where
  pub workflow_uuid : String
  pub status : Status
  pub name : String
  pub class_name : Option String
  pub config_name : Option String
  pub output : Option String
  pub error : Option String
  pub executor_id : Option String
  pub app_version : Option String
  pub app_id : Option String
  pub authenticated_user : Option String
  pub authenticated_roles : Option String
  pub assumed_role : Option String
  pub queue_name : Option String
  pub workflow_timeout_ms : Option ℕ
  pub workflow_deadline_epoch_ms : Option ℕ
  pub deduplication_id : Option String
  pub priority : ℕ
  pub inputs : Option String
  pub serialization : Option String
  pub queue_partition_key : Option String
  pub parent_workflow_id : Option String
  pub delay_until_epoch_ms : Option ℕ
  pub attributes : Option String
  pub schedule_name : Option String
  pub debounce_deadline_epoch_ms : Option ℕ
  pub is_debounced : Bool

-- The tuple that is returned, and the serialization that is written back into the argument.
pub record Started : Type 0 where
  pub status : Status
  pub deadline : Option ℕ
  pub should_execute : Bool
  pub serialization : Option String

-- The columns that the INSERT does not name have their defaults.
abbrev pub fresh_row : NewWorkflow → Option String → ℕ → WorkflowRow
fresh_row w owner_xid now = record {
  workflow_uuid = w.workflow_uuid;
  status = w.status;
  name = some w.name;
  authenticated_user = w.authenticated_user;
  assumed_role = w.assumed_role;
  authenticated_roles = w.authenticated_roles;
  output = w.output;
  error = w.error;
  executor_id = w.executor_id;
  created_at = now;
  updated_at = now;
  application_version = w.app_version;
  application_id = w.app_id;
  class_name = w.class_name;
  config_name = w.config_name;
  recovery_attempts = if is_waiting w.status then 0 else 1;
  queue_name = w.queue_name;
  workflow_timeout_ms = w.workflow_timeout_ms;
  workflow_deadline_epoch_ms = w.workflow_deadline_epoch_ms;
  started_at_epoch_ms = none;
  deduplication_id = w.deduplication_id;
  inputs = w.inputs;
  priority = w.priority;
  queue_partition_key = w.queue_partition_key;
  forked_from = none;
  was_forked_from = false;
  owner_xid = owner_xid;
  parent_workflow_id = w.parent_workflow_id;
  serialization = w.serialization;
  delay_until_epoch_ms = w.delay_until_epoch_ms;
  rate_limited = false;
  completed_at = none;
  attributes = w.attributes;
  schedule_name = w.schedule_name;
  debounce_deadline_epoch_ms = w.debounce_deadline_epoch_ms;
  is_debounced = w.is_debounced;
}

-- `update_values`: what ON CONFLICT DO UPDATE sets.
abbrev pub restarted_row : NewWorkflow → Bool → ℕ → WorkflowRow → WorkflowRow
restarted_row w force now r = record r {
  recovery_attempts =
      if is_waiting r.status
      then r.recovery_attempts
      else r.recovery_attempts + (if force then 1 else 0);
  updated_at = now;
  executor_id = if is_waiting w.status then r.executor_id else w.executor_id;
}

abbrev pub insert_workflow : WorkflowRow → SysDb → SysDb
insert_workflow r db = record db { workflow_status = db.workflow_status ++ (r ∷ []) }

-- The INSERT: the primary key first, then the unique index of deduplication IDs.
unfoldable pub upsert : NewWorkflow → Option String → Bool → ℕ → Option WorkflowRow → Tx (Unit {0})
upsert w owner_xid force now (some old) =
    execute (update_workflows (by_uuid w.workflow_uuid) (restarted_row w force now))
upsert w owner_xid force now none = do
  taken ← query (λ db. any_where (same_dedup (fresh_row w owner_xid now)) db.workflow_status)
  if taken
      then raise (queue_deduplicated w.workflow_uuid w.queue_name w.deduplication_id)
      else execute (insert_workflow (fresh_row w owner_xid now))

abbrev pub same_function : NewWorkflow → WorkflowRow → Bool
same_function w r =
    r.name == some w.name && r.class_name == w.class_name && r.config_name == w.config_name

-- `recovery_attempts > max_recovery_attempts + 1`, with no bound where there is none.
abbrev pub exceeds : Option ℕ → ℕ → Bool
exceeds none attempts = false
exceeds (some limit) attempts = ltb (limit + 1) attempts

abbrev pub limit_of : Option ℕ → ℕ
limit_of none = 0
limit_of (some limit) = limit

abbrev pub dead_letter : WorkflowRow → WorkflowRow
dead_letter r = record r {
  status = max_recovery_attempts_exceeded;
  deduplication_id = none;
  started_at_epoch_ms = none;
  queue_name = none;
}

-- The transaction is committed before the exception is raised.
unfoldable pub give_up : String → Option ℕ → Tx Started
give_up id limit = do
  execute (update_workflows (λ r. r.workflow_uuid == id && is_pending r.status) dead_letter)
  commit
  raise (max_recovery_attempts id (limit_of limit))

unfoldable pub after_upsert :
    NewWorkflow → Option ℕ → Option String → Bool → Bool → Option WorkflowRow → Tx Started
after_upsert w limit owner_xid recovery dequeued none = pure (record {
  status = w.status;
  deadline = w.workflow_deadline_epoch_ms;
  should_execute = true;
  serialization = w.serialization;
})
after_upsert w limit owner_xid recovery dequeued (some r) =
    if not (same_function w r)
    then raise (conflicting_workflow w.workflow_uuid)
    else if not (is_complete r.status)
        && exceeds limit r.recovery_attempts
        && not (owner_xid == r.owner_xid)
    then give_up w.workflow_uuid limit
    else pure (record {
      status = r.status;
      deadline = r.workflow_deadline_epoch_ms;
      should_execute = owner_xid == r.owner_xid || dequeued || recovery;
      serialization = r.serialization;
    })

-- `limit` is max_recovery_attempts; `recovery` and `dequeued` are the two request flags.
unfoldable pub insert_workflow_status :
    NewWorkflow → Option ℕ → Option String → Bool → Bool → ℕ → Tx Started
unfolding upsert after_upsert give_up
insert_workflow_status w limit owner_xid recovery dequeued now = do
  old ← query (find_workflow w.workflow_uuid)
  upsert w owner_xid (recovery || dequeued) now old
  row ← query (find_workflow w.workflow_uuid)
  after_upsert w limit owner_xid recovery dequeued row

unfoldable pub init_workflow :
    NewWorkflow → Option ℕ → Option String → Bool → Bool → ℕ → SysDb → Result Started × SysDb
unfolding insert_workflow_status
init_workflow w limit owner_xid recovery dequeued now =
    begin (insert_workflow_status w limit owner_xid recovery dequeued now)

-- In a transaction of the caller's, neither as a recovery nor as a dequeue.
unfoldable pub init_workflow_with_connection :
    NewWorkflow → Option ℕ → Option String → ℕ → Tx Started
unfolding insert_workflow_status
init_workflow_with_connection w limit owner_xid now =
    insert_workflow_status w limit owner_xid false false now
