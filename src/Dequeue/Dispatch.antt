-- ===== src/Dequeue/Dispatch.antt =====
-- Which workflows a dequeue starts, and that none is started twice.
use dbos_workload.Prelude.{
  ℕ, String, ◌≡◌, refl, true, false, Option, some, List, [], ◌∷◌, arith, ◌==◌, compares_text,
  eq_iff, mem, mem-append, map, Bool-cases, inl, inr, if◌then◌else◌, is_some, length, eq_refl,
  subst,
}
use dbos_workload.Table.Laws.{find_row-holds}
use dbos_workload.Schema.{is_enqueued, WorkflowRow, SysDb}
use dbos_workload.Steps.{by_uuid, find_workflow}
use dbos_workload.Workflow.Lookup.{HasPrimaryKey, any_where-find_row, find_workflow-update}
use dbos_workload.Dequeue.{
  QueueConfig, dequeued, is_enqueued_as, start_row, limiter_stops, start_one, append_started,
  start_each, num_recent_queries, start_queued_workflows,
}
use dbos_workload.Dequeue.Limits.{HasPrimaryKey-start_one}
use mathlib.Core.Bool.{false≢true}

module _ (q : QueueConfig) (executor app_version : String) (start now : ℕ) (id : String)
    (r : WorkflowRow) where
  abbrev pub starting : WorkflowRow → WorkflowRow
  starting = start_row executor app_version start now (is_some q.limiter)

  -- The row of `id` when the IDs of `ret_ids` have been started.
  abbrev pub row_after : List String → WorkflowRow
  row_after ret_ids = if mem id ret_ids then starting r else r

  -- `id` was started from ENQUEUED, if it was.
  abbrev pub WasEnqueued : List String → Type 0
  WasEnqueued ret_ids = mem id ret_ids ≡ true → is_enqueued r.status ≡ true

  abbrev pub Started : List String → SysDb → Type 0
  Started ret_ids db = (find_workflow id db ≡ some (row_after ret_ids)) × WasEnqueued ret_ids

  uuid-row_after : (ret_ids : List String) → (row_after ret_ids).workflow_uuid ≡ r.workflow_uuid
  uuid-row_after ret_ids = ground arith

  started-start_one_self :
      (ret_ids : List String) (db : SysDb)
      → HasPrimaryKey db
      → Started ret_ids db
      → Started (append_started ret_ids id db) (start_one q executor app_version start now id db)
  started-start_one_self ret_ids db unique (found, was) =
      let moved =
        find_workflow-update id (is_enqueued_as id) starting db (row_after ret_ids) (λ x. refl)
          found in
      let here = find_row-holds (by_uuid id) db.workflow_status (row_after ret_ids) found in
      let matched =
        any_where-find_row id (λ (x : WorkflowRow). is_enqueued x.status) db.workflow_status
          (row_after ret_ids) unique found in
      (
        ground (arith, mem-append id ret_ids (id ∷ []), eq_refl id),
        (λ listed. ground (arith, mem-append id ret_ids (id ∷ []), eq_refl id)),
      )

  started-start_one_other :
      (j : String) (ret_ids : List String) (db : SysDb)
      → (id == j) ≡ false
      → Started ret_ids db
      → Started (append_started ret_ids j db) (start_one q executor app_version start now j db)
  started-start_one_other j ret_ids db other (found, was) =
      let moved =
        find_workflow-update id (is_enqueued_as j) starting db (row_after ret_ids) (λ x. refl)
          found in
      let here = find_row-holds (by_uuid id) db.workflow_status (row_after ret_ids) found in
      (
        ground (
          arith,
          mem-append id ret_ids (j ∷ []),
          eq_iff (row_after ret_ids).workflow_uuid id,
          eq_iff (row_after ret_ids).workflow_uuid j,
          eq_iff id j,
        ),
        (λ listed. ground (arith, mem-append id ret_ids (j ∷ []))),
      )

  pub started-start_one :
      (j : String) (ret_ids : List String) (db : SysDb)
      → HasPrimaryKey db
      → Started ret_ids db
      → Started (append_started ret_ids j db) (start_one q executor app_version start now j db)
  started-start_one j ret_ids db unique s = elim (Bool-cases (id == j)) [
    | inl e ↦
        subst
          (λ k.
            Started (append_started ret_ids k db) (start_one q executor app_version start now k db))
          ((eq_iff id j).0 e) (started-start_one_self ret_ids db unique s)
    | inr e ↦ started-start_one_other j ret_ids db e s
  ]

  started-start_each :
      (recent : ℕ) (ids ret_ids : List String) (db : SysDb)
      → HasPrimaryKey db
      → Started ret_ids db
      → Started
          (start_each q executor app_version start now recent ret_ids ids db).0
          (start_each q executor app_version start now recent ret_ids ids db).1
  unfolding start_each
  started-start_each recent [] ret_ids db unique s = s
  started-start_each recent (j ∷ ids) ret_ids db unique s =
      let db1 = start_one q executor app_version start now j db in
      let rest =
        started-start_each recent ids (append_started ret_ids j db) db1
          (HasPrimaryKey-start_one q executor app_version start now j db unique)
          (started-start_one j ret_ids db unique s) in
      elim (Bool-cases (limiter_stops q.limiter recent (length ret_ids))) [
        | inl e ↦ rw e s
        | inr e ↦ rw e rest
      ]

-- A dequeue changes each existing workflow exactly as its answer says: one whose ID is returned was
-- ENQUEUED, and now is PENDING on this executor and version, with its start time, whether it counts
-- for the rate limit, and a deadline if it has a timeout; one whose ID is not returned has the row
-- that it had. The workflow ID is the primary key.
pub start_queued_workflows_rows :
    (q : QueueConfig) (executor app_version : String) (key : Option String) (local start now : ℕ)
    (db : SysDb) (id : String) (r : WorkflowRow)
    → HasPrimaryKey db
    → find_workflow id db ≡ some r
    → (find_workflow id (start_queued_workflows q executor app_version key local start now db).1
        ≡ some (
            if mem id (start_queued_workflows q executor app_version key local start now db).0
            then start_row executor app_version start now (is_some q.limiter) r
            else r))
      × (mem id (start_queued_workflows q executor app_version key local start now db).0 ≡ true
          → is_enqueued r.status ≡ true)
unfolding start_queued_workflows
start_queued_workflows_rows q executor app_version key local start now db id r unique found =
    let recent = num_recent_queries q key start db in
    let loop =
      started-start_each q executor app_version start now id r recent
        (map (λ x. x.workflow_uuid) (dequeued q key app_version local db)) [] db unique
        (found, (λ none_yet. cc)) in
    elim (Bool-cases (limiter_stops q.limiter recent 0)) [
      | inl e ↦ rw e (found, (λ none_yet. cc))
      | inr e ↦ rw e loop
    ]

HasPrimaryKey-start_each :
    (q : QueueConfig) (executor app_version : String) (start now recent : ℕ)
    (ids ret_ids : List String) (db : SysDb)
    → HasPrimaryKey db
    → HasPrimaryKey (start_each q executor app_version start now recent ret_ids ids db).1
unfolding start_each
HasPrimaryKey-start_each q executor app_version start now recent [] ret_ids db unique = unique
HasPrimaryKey-start_each q executor app_version start now recent (j ∷ ids) ret_ids db unique =
    elim (Bool-cases (limiter_stops q.limiter recent (length ret_ids))) [
      | inl e ↦ rw e unique
      | inr e ↦ rw e (
          HasPrimaryKey-start_each q executor app_version start now recent ids
            (append_started ret_ids j db) (start_one q executor app_version start now j db)
            (HasPrimaryKey-start_one q executor app_version start now j db unique))
    ]

pub HasPrimaryKey-start_queued :
    (q : QueueConfig) (executor app_version : String) (key : Option String) (local start now : ℕ)
    (db : SysDb)
    → HasPrimaryKey db
    → HasPrimaryKey (start_queued_workflows q executor app_version key local start now db).1
unfolding start_queued_workflows
HasPrimaryKey-start_queued q executor app_version key local start now db unique =
    let recent = num_recent_queries q key start db in
    elim (Bool-cases (limiter_stops q.limiter recent 0)) [
      | inl e ↦ rw e unique
      | inr e ↦ rw e (
          HasPrimaryKey-start_each q executor app_version start now recent
            (map (λ x. x.workflow_uuid) (dequeued q key app_version local db)) [] db unique)
    ]

-- Two executors that dequeue one after the other, from whatever queues, versions, partitions and
-- times, are given no existing workflow in common. The workflow ID is the primary key.
pub start_queued_workflows_exclusive :
    (q q' : QueueConfig) (executor executor' app_version app_version' : String)
    (key key' : Option String) (local local' start start' now now' : ℕ) (db : SysDb) (id : String)
    (r : WorkflowRow)
    → HasPrimaryKey db
    → find_workflow id db ≡ some r
    → mem id (start_queued_workflows q executor app_version key local start now db).0 ≡ true
    → mem id
        (start_queued_workflows q' executor' app_version' key' local' start' now'
          (start_queued_workflows q executor app_version key local start now db).1).0
      ≡ false
start_queued_workflows_exclusive q q' executor executor' app_version app_version' key key' local
      local' start start' now now' db id r unique found given =
    let first =
      start_queued_workflows_rows q executor app_version key local start now db id r unique found in
    let db1 = (start_queued_workflows q executor app_version key local start now db).1 in
    let second =
      start_queued_workflows_rows q' executor' app_version' key' local' start' now' db1 id
        (start_row executor app_version start now (is_some q.limiter) r)
        (HasPrimaryKey-start_queued q executor app_version key local start now db unique)
        (rw given at first.0) in
    elim (Bool-cases
      (mem id (start_queued_workflows q' executor' app_version' key' local' start' now' db1).0)) [
        | inl e ↦ absurd (false≢true (second.1 e))
        | inr e ↦ e
      ]
