-- ===== src/Dequeue.antt =====
-- Dequeueing: `start_queued_workflows` and `get_queue_partitions` of dbos/_sys_db.py. One call is
-- one transaction, here run alone; rows that other transactions have locked are not modelled.
pub mod Limits
pub mod Order
pub mod Ready
pub mod Dispatch
mod Tests
use dbos_workload.Prelude.{
  ℕ, String, Bool, true, false, not, ◌&&◌, ◌||◌, ◌+◌, ◌-◌, Option, none, some, List, [], ◌∷◌, ◌++◌,
  ◌==◌, compares_text, compares_option, matches, ltb, leb, min, length, map, take, if◌then◌else◌,
  is_none, is_some, mem,
}
use dbos_workload.Table.{select, count_where, any_where}
use dbos_workload.Schema.{
  pending, is_pending, is_enqueued, is_waiting, WorkflowRow, VersionRow, SysDb,
}
use dbos_workload.Workflow.{update_workflows}

-- QueueRateLimit, its period in milliseconds.
pub record RateLimit : Type 0 where
  pub limit : ℕ
  pub period_ms : ℕ

-- The fields of a Queue that dequeueing reads.
pub record QueueConfig : Type 0 where
  pub name : String
  pub concurrency : Option ℕ
  pub worker_concurrency : Option ℕ
  pub limiter : Option RateLimit

-- `queue_name == name`, and the partition where one is given.
abbrev pub in_partition : QueueConfig → Option String → WorkflowRow → Bool
in_partition q none r = matches r.queue_name q.name
in_partition q (some key) r = matches r.queue_name q.name && matches r.queue_partition_key key

abbrev pub is_recent : QueueConfig → Option String → ℕ → ℕ → WorkflowRow → Bool
is_recent q key start period r =
    in_partition q key r
    && r.rate_limited
    && not (is_waiting r.status)
    && elim r.started_at_epoch_ms [ none ↦ false | some t ↦ ltb start (t + period) ]

abbrev pub is_running : QueueConfig → Option String → WorkflowRow → Bool
is_running q key r = in_partition q key r && is_pending r.status

-- `ORDER BY version_timestamp DESC LIMIT 1`.
unfoldable pub newer : VersionRow → Option VersionRow → VersionRow
newer v none = v
newer v (some best) = if ltb v.version_timestamp best.version_timestamp then best else v

unfoldable pub latest_version : List VersionRow → Option VersionRow
latest_version [] = none
latest_version (v ∷ vs) = some (newer v (latest_version vs))

abbrev pub is_latest : String → Option VersionRow → Bool
is_latest app_version none = true
is_latest app_version (some v) = v.version_name == app_version

-- version_predicate
abbrev pub runs_version : String → Bool → WorkflowRow → Bool
runs_version app_version latest r =
    matches r.application_version app_version || latest && is_none r.application_version

abbrev pub is_ready : QueueConfig → Option String → String → Bool → WorkflowRow → Bool
is_ready q key app_version latest r =
    in_partition q key r && is_enqueued r.status && runs_version app_version latest r

-- ORDER BY priority ASC, created_at ASC; rows that tie stay in the order of insertion.
abbrev pub goes_first : WorkflowRow → WorkflowRow → Bool
goes_first a b =
    ltb a.priority b.priority || leb a.priority b.priority && leb a.created_at b.created_at

place : WorkflowRow → List WorkflowRow → List WorkflowRow
place r [] = r ∷ []
place r (x ∷ xs) = let rest = place r xs in if goes_first r x then r ∷ x ∷ xs else x ∷ rest

in_order : List WorkflowRow → List WorkflowRow
in_order [] = []
in_order (r ∷ rs) = place r (in_order rs)

-- `max_tasks`: none stands for sys.maxsize.
abbrev pub at_most : Option ℕ → Option ℕ → Option ℕ
at_most none b = b
at_most (some a) none = some a
at_most (some a) (some b) = some (min a b)

worker_room : QueueConfig → ℕ → Option ℕ
worker_room q local = elim q.worker_concurrency [ none ↦ none | some w ↦ some (w - local) ]

global_room : QueueConfig → Option String → SysDb → Option ℕ
global_room q key db = elim q.concurrency [
  | none ↦ none
  | some c ↦ some (c - count_where (is_running q key) db.workflow_status)
]

pub max_tasks : QueueConfig → Option String → ℕ → SysDb → Option ℕ
unfolding worker_room global_room
max_tasks q key local db = at_most (worker_room q local) (global_room q key db)

abbrev pub limited : {A : Type 0} → Option ℕ → List A → List A
limited none xs = xs
limited (some n) xs = take n xs

-- The rows that the WHERE of the SELECT admits, and the rows of the SELECT.
pub ready_rows : QueueConfig → Option String → String → SysDb → List WorkflowRow
ready_rows q key app_version db =
    select
      (is_ready q key app_version (is_latest app_version (latest_version db.application_versions)))
      db.workflow_status

pub dequeued : QueueConfig → Option String → String → ℕ → SysDb → List WorkflowRow
dequeued q key app_version local db =
    limited (max_tasks q key local db) (in_order (ready_rows q key app_version db))

abbrev pub start_row : String → String → ℕ → ℕ → Bool → WorkflowRow → WorkflowRow
start_row executor app_version start now rate_limited r = record r {
  status = pending;
  application_version = some app_version;
  executor_id = some executor;
  started_at_epoch_ms = some start;
  rate_limited = rate_limited;
  workflow_deadline_epoch_ms = elim r.workflow_timeout_ms [
    | none ↦ r.workflow_deadline_epoch_ms
    | some timeout ↦ elim r.workflow_deadline_epoch_ms [
      | none ↦ some (now + timeout)
      | some d ↦ some d
    ]
  ];
}

abbrev pub is_enqueued_as : String → WorkflowRow → Bool
is_enqueued_as id r = r.workflow_uuid == id && is_enqueued r.status

-- The test of the limiter before each start.
abbrev pub limiter_stops : Option RateLimit → ℕ → ℕ → Bool
limiter_stops none recent started = false
limiter_stops (some l) recent started = leb l.limit (started + recent)

abbrev pub start_one : QueueConfig → String → String → ℕ → ℕ → String → SysDb → SysDb
start_one q executor app_version start now id =
    update_workflows (is_enqueued_as id)
      (start_row executor app_version start now (is_some q.limiter))

-- `if update_res.rowcount > 0: ret_ids.append(id)`
abbrev pub append_started : List String → String → SysDb → List String
append_started ret_ids id db =
    if any_where (is_enqueued_as id) db.workflow_status then ret_ids ++ (id ∷ []) else ret_ids

module _ (q : QueueConfig) (executor app_version : String) (start now recent : ℕ) where
  -- The loop over the dequeued IDs: `ret_ids` is passed along.
  unfoldable pub start_each : List String → List String → SysDb → List String × SysDb
  start_each ret_ids [] db = (ret_ids, db)
  start_each ret_ids (id ∷ ids) db =
      let rest =
        start_each (append_started ret_ids id db) ids
          (start_one q executor app_version start now id db) in
      if limiter_stops q.limiter recent (length ret_ids) then (ret_ids, db) else rest

abbrev pub num_recent_queries : QueueConfig → Option String → ℕ → SysDb → ℕ
num_recent_queries q key start db = elim q.limiter [
  | none ↦ 0
  | some l ↦ count_where (is_recent q key start l.period_ms) db.workflow_status
]

-- `start` is the caller's clock, `now` the database's.
unfoldable pub start_queued_workflows :
    QueueConfig → String → String → Option String → ℕ → ℕ → ℕ → SysDb → List String × SysDb
start_queued_workflows q executor app_version key local start now db =
    let recent = num_recent_queries q key start db in
    let started =
      start_each q executor app_version start now recent []
        (map (λ r. r.workflow_uuid) (dequeued q key app_version local db)) db in
    if limiter_stops q.limiter recent 0 then ([], db) else started

-- SELECT DISTINCT queue_partition_key
add_partition : Option String → List String → List String
add_partition none keys = keys
add_partition (some key) keys = if mem key keys then keys else key ∷ keys

partitions_of : List WorkflowRow → List String
partitions_of [] = []
partitions_of (r ∷ rs) = add_partition r.queue_partition_key (partitions_of rs)

unfoldable pub get_queue_partitions : String → SysDb → List String
unfolding partitions_of add_partition
get_queue_partitions name db = partitions_of (
    select (λ r. matches r.queue_name name && is_enqueued r.status && is_some r.queue_partition_key)
      db.workflow_status)
