-- ===== src/Dequeue/Limits.antt =====
-- Global concurrency, worker concurrency and rate limit of a queue.
use dbos_workload.Prelude.{
  ℕ, String, ◌≡◌, ◌≤◌, refl, Bool, ◌+◌, ◌-◌, Option, some, List, [], ◌∷◌, arith, compares_text, min,
  length, length-append, length-take-le, map, is_some, Bool-cases, inl, inr, length-map,
  Option-cases,
}
use dbos_workload.Table.{count_where}
use dbos_workload.Schema.{is_enqueued, WorkflowRow, SysDb}
use dbos_workload.Workflow.Lookup.{HasPrimaryKey, HasPrimaryKey-update, count-update_one}
use dbos_workload.Dequeue.{
  QueueConfig, is_running, max_tasks, dequeued, is_enqueued_as, start_row, limiter_stops, start_one,
  start_each, num_recent_queries, start_queued_workflows, append_started,
}

module _ (q : QueueConfig) (executor app_version : String) (start now : ℕ) where
  pub HasPrimaryKey-start_one :
      (id : String) (db : SysDb)
      → HasPrimaryKey db
      → HasPrimaryKey (start_one q executor app_version start now id db)
  HasPrimaryKey-start_one id db unique =
      HasPrimaryKey-update (is_enqueued_as id)
        (start_row executor app_version start now (is_some q.limiter)) db (λ x. refl) unique

  -- One start adds at most one row to what a test counts, and none if no ID is appended.
  count-start_one :
      (p : WorkflowRow → Bool) (ret_ids : List String) (id : String) (db : SysDb)
      → HasPrimaryKey db
      → count_where p (start_one q executor app_version start now id db).workflow_status
          + length ret_ids
        ≤ count_where p db.workflow_status + length (append_started ret_ids id db)
  count-start_one p ret_ids id db unique =
      let grown =
        count-update_one id (λ (x : WorkflowRow). is_enqueued x.status) p
          (start_row executor app_version start now (is_some q.limiter)) db.workflow_status
          unique in
      ground (arith, length-append ret_ids (id ∷ []))

  length-append_started-le :
      (ret_ids : List String) (id : String) (db : SysDb)
      → length (append_started ret_ids id db) ≤ length ret_ids + 1
  length-append_started-le ret_ids id db = ground (arith, length-append ret_ids (id ∷ []))

module _ (q : QueueConfig) (executor app_version : String) (start now recent : ℕ) where
  abbrev after_each : List String → List String → SysDb → List String × SysDb
  after_each = start_each q executor app_version start now recent

  -- Whatever a test counts grows at most by the number of IDs that are returned.
  count-start_each :
      (p : WorkflowRow → Bool) (ids ret_ids : List String) (db : SysDb)
      → HasPrimaryKey db
      → count_where p (after_each ret_ids ids db).1.workflow_status + length ret_ids
        ≤ count_where p db.workflow_status + length (after_each ret_ids ids db).0
  unfolding start_each
  count-start_each p [] ret_ids db unique = omega arith
  count-start_each p (id ∷ ids) ret_ids db unique =
      let db1 = start_one q executor app_version start now id db in
      let step = count-start_one q executor app_version start now p ret_ids id db unique in
      let rest =
        count-start_each p ids (append_started ret_ids id db) db1
          (HasPrimaryKey-start_one q executor app_version start now id db unique) in
      elim (Bool-cases (limiter_stops q.limiter recent (length ret_ids))) [
        | inl e ↦ rw e (omega arith)
        | inr e ↦ rw e (omega (arith, step, rest))
      ]

  length-start_each :
      (ids ret_ids : List String) (db : SysDb)
      → length (after_each ret_ids ids db).0 ≤ length ret_ids + length ids
  unfolding start_each
  length-start_each [] ret_ids db = omega arith
  length-start_each (id ∷ ids) ret_ids db =
      let db1 = start_one q executor app_version start now id db in
      let rest = length-start_each ids (append_started ret_ids id db) db1 in
      let step = length-append_started-le q executor app_version start now ret_ids id db in
      elim (Bool-cases (limiter_stops q.limiter recent (length ret_ids))) [
        | inl e ↦ rw e (omega arith)
        | inr e ↦ rw e (omega (arith, step, rest))
      ]

length-dequeued :
    (q : QueueConfig) (key : Option String) (app_version : String) (local : ℕ) (db : SysDb)
    (room : ℕ)
    → max_tasks q key local db ≡ some room
    → length (map (λ r. r.workflow_uuid) (dequeued q key app_version local db)) ≤ room
unfolding dequeued
length-dequeued q key app_version local db room at_room =
    rw (length-map, at_room) (length-take-le room _)

-- The loop starts no more workflows than the SELECT returned.
module _ (q : QueueConfig) (executor app_version : String) (key : Option String)
    (local start now : ℕ) (db : SysDb) where
  abbrev recent : ℕ
  recent = num_recent_queries q key start db

  abbrev ids : List String
  ids = map (λ r. r.workflow_uuid) (dequeued q key app_version local db)

  abbrev result : List String × SysDb
  result = start_queued_workflows q executor app_version key local start now db

  length-start_queued : (room : ℕ) → max_tasks q key local db ≡ some room → length result.0 ≤ room
  unfolding start_queued_workflows
  length-start_queued room at_room = ground (
    arith,
    length-start_each q executor app_version start now recent ids [] db,
    length-dequeued q key app_version local db room at_room,
  )

  count-start_queued :
      (p : WorkflowRow → Bool)
      → HasPrimaryKey db
      → count_where p result.1.workflow_status ≤ count_where p db.workflow_status + length result.0
  unfolding start_queued_workflows
  count-start_queued p unique =
      ground (arith, count-start_each q executor app_version start now recent p ids [] db unique)

max_tasks-concurrency :
    (q : QueueConfig) (key : Option String) (local : ℕ) (db : SysDb) (c : ℕ)
    → q.concurrency ≡ some c
    → (room : ℕ) × (max_tasks q key local db ≡ some room)
      × (room ≤ c - count_where (is_running q key) db.workflow_status)
unfolding max_tasks
max_tasks-concurrency q key local db c bound =
    let running = count_where (is_running q key) db.workflow_status in
    elim (Option-cases q.worker_concurrency) [
      | inl none_set ↦ (c - running, rw (none_set, bound), omega arith)
      | inr (n, set) ↦ (min (n - local) (c - running), rw (set, bound), omega arith)
    ]

max_tasks-worker :
    (q : QueueConfig) (key : Option String) (local : ℕ) (db : SysDb) (n : ℕ)
    → q.worker_concurrency ≡ some n
    → (room : ℕ) × (max_tasks q key local db ≡ some room) × (room ≤ n - local)
unfolding max_tasks
max_tasks-worker q key local db n bound = elim (Option-cases q.concurrency) [
  | inl none_set ↦ (n - local, rw (bound, none_set), omega arith)
  | inr (c, set) ↦ (
    min (n - local) (c - count_where (is_running q key) db.workflow_status),
    rw (bound, set),
    omega arith,
  )
]

-- A queue with a global concurrency of `c`, dequeued in one transaction: if at most `c` of its
-- workflows (in the partition, if one is given) were PENDING, at most `c` are afterwards; and in
-- any case the dequeue does not start more than `c` minus those that were PENDING. The workflow ID
-- is the primary key.
pub start_queued_workflows_concurrency :
    (q : QueueConfig) (executor app_version : String) (key : Option String) (local start now c : ℕ)
    (db : SysDb)
    → HasPrimaryKey db
    → q.concurrency ≡ some c
    → (count_where (is_running q key) db.workflow_status ≤ c
        → count_where
            (is_running q key)
            (start_queued_workflows q executor app_version key local start now db).1.workflow_status
          ≤ c)
      × (length (start_queued_workflows q executor app_version key local start now db).0
          ≤ c - count_where (is_running q key) db.workflow_status)
start_queued_workflows_concurrency q executor app_version key local start now c db unique bound =
    let (room, at_room, small) = max_tasks-concurrency q key local db c bound in
    let few = length-start_queued q executor app_version key local start now db room at_room in
    let grown =
      count-start_queued q executor app_version key local start now db (is_running q key) unique in
    ((λ within. omega (arith, few, grown, small)), omega (arith, few, small))

-- A worker with a concurrency of `n` on a queue, running `local` of its workflows, is given at
-- most `n` minus `local` more.
pub start_queued_workflows_worker :
    (q : QueueConfig) (executor app_version : String) (key : Option String) (local start now n : ℕ)
    (db : SysDb)
    → q.worker_concurrency ≡ some n
    → length (start_queued_workflows q executor app_version key local start now db).0 ≤ n - local
start_queued_workflows_worker q executor app_version key local start now n db bound =
    let (room, at_room, small) = max_tasks-worker q key local db n bound in
    omega
      (arith, length-start_queued q executor app_version key local start now db room at_room, small)
