-- ===== src/Schema.antt =====
-- The tables of the system database (dbos/_schemas/system_database.py), a record for each row,
-- with the column defaults of dbos/_migration.py, and the workflow statuses of dbos/_sys_db.py.
use dbos_workload.Prelude.{ℕ, Bool, true, false, ◌||◌, String, Option, List, []}

-- WorkflowStatusString
pub data Status : Type 0 where
  pending success error max_recovery_attempts_exceeded cancelled enqueued delayed : Status

abbrev pub is_pending : Status → Bool
is_pending Status.pending = true
is_pending _ = false

abbrev pub is_success : Status → Bool
is_success Status.success = true
is_success _ = false

abbrev pub is_error : Status → Bool
is_error Status.error = true
is_error _ = false

abbrev pub is_cancelled : Status → Bool
is_cancelled Status.cancelled = true
is_cancelled _ = false

abbrev pub is_enqueued : Status → Bool
is_enqueued Status.enqueued = true
is_enqueued _ = false

abbrev pub is_delayed : Status → Bool
is_delayed Status.delayed = true
is_delayed _ = false

abbrev pub workflow_is_active : Status → Bool
workflow_is_active s = is_enqueued s || is_pending s || is_delayed s

-- The statuses that `cancel_workflows` and `resume_workflows` leave alone.
abbrev pub is_complete : Status → Bool
is_complete s = is_success s || is_error s

-- The statuses of a workflow that waits in a queue.
abbrev pub is_waiting : Status → Bool
is_waiting s = is_enqueued s || is_delayed s

pub record WorkflowRow : Type 0 where
  pub workflow_uuid : String
  pub status : Status
  pub name : Option String
  pub authenticated_user : Option String
  pub assumed_role : Option String
  pub authenticated_roles : Option String
  pub output : Option String
  pub error : Option String
  pub executor_id : Option String
  pub created_at : ℕ
  pub updated_at : ℕ
  pub application_version : Option String
  pub application_id : Option String
  pub class_name : Option String
  pub config_name : Option String
  pub recovery_attempts : ℕ
  pub queue_name : Option String
  pub workflow_timeout_ms : Option ℕ
  pub workflow_deadline_epoch_ms : Option ℕ
  pub started_at_epoch_ms : Option ℕ
  pub deduplication_id : Option String
  pub inputs : Option String
  pub priority : ℕ
  pub queue_partition_key : Option String
  pub forked_from : Option String
  pub was_forked_from : Bool
  pub owner_xid : Option String
  pub parent_workflow_id : Option String
  pub serialization : Option String
  pub delay_until_epoch_ms : Option ℕ
  pub rate_limited : Bool
  pub completed_at : Option ℕ
  pub attributes : Option String
  pub schedule_name : Option String
  pub debounce_deadline_epoch_ms : Option ℕ
  pub is_debounced : Bool

-- operation_outputs
pub record OperationRow : Type 0 where
  pub workflow_uuid : String
  pub function_id : ℕ
  pub function_name : String
  pub output : Option String
  pub error : Option String
  pub child_workflow_id : Option String
  pub started_at_epoch_ms : Option ℕ
  pub completed_at_epoch_ms : Option ℕ
  pub serialization : Option String

pub record NotificationRow : Type 0 where
  pub destination_uuid : String
  pub topic : String
  pub message : String
  pub created_at_epoch_ms : ℕ
  pub message_uuid : String
  pub serialization : Option String
  pub consumed : Bool

-- workflow_events
pub record EventRow : Type 0 where
  pub workflow_uuid : String
  pub key : String
  pub value : String
  pub serialization : Option String

-- workflow_events_history
pub record EventHistoryRow : Type 0 where
  pub workflow_uuid : String
  pub key : String
  pub value : String
  pub function_id : ℕ
  pub serialization : Option String

-- streams
pub record StreamRow : Type 0 where
  pub workflow_uuid : String
  pub key : String
  pub value : String
  pub offset : ℕ
  pub function_id : ℕ
  pub serialization : Option String

-- application_versions
pub record VersionRow : Type 0 where
  pub version_id : String
  pub version_name : String
  pub version_timestamp : ℕ
  pub created_at : ℕ

-- The two columns of seconds, rate_limit_period_sec and polling_interval_sec, are kept in
-- milliseconds.
pub record QueueRow : Type 0 where
  pub queue_id : String
  pub name : String
  pub concurrency : Option ℕ
  pub worker_concurrency : Option ℕ
  pub rate_limit_max : Option ℕ
  pub rate_limit_period_ms : Option ℕ
  pub priority_enabled : Bool
  pub partition_queue : Bool
  pub polling_interval_ms : ℕ
  pub created_at : ℕ
  pub updated_at : ℕ

-- workflow_schedules
pub record ScheduleRow : Type 0 where
  pub schedule_id : String
  pub schedule_name : String
  pub workflow_name : String
  pub workflow_class_name : Option String
  pub schedule : String
  pub status : String
  pub context : String
  pub last_fired_at : Option String
  pub automatic_backfill : Bool
  pub cron_timezone : Option String
  pub queue_name : Option String

pub record SysDb : Type 0 where
  pub workflow_status : List WorkflowRow
  pub operation_outputs : List OperationRow
  pub notifications : List NotificationRow
  pub workflow_events : List EventRow
  pub workflow_events_history : List EventHistoryRow
  pub streams : List StreamRow
  pub application_versions : List VersionRow
  pub queues : List QueueRow
  pub workflow_schedules : List ScheduleRow

abbrev pub empty_db : SysDb
empty_db = record {
  workflow_status = [];
  operation_outputs = [];
  notifications = [];
  workflow_events = [];
  workflow_events_history = [];
  streams = [];
  application_versions = [];
  queues = [];
  workflow_schedules = [];
}
