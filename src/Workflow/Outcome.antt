-- ===== src/Workflow/Outcome.antt =====
-- CANCELLED is final for the code that finishes a workflow, and stops its steps.
use dbos_workload.Prelude.{
  ℕ, String, ◌≡◌, refl, true, false, not, Option, some, List, arith, eq_iff, compares_text, mem,
}
use dbos_workload.Schema.{Status, is_cancelled, is_complete, WorkflowRow, SysDb}
use dbos_workload.Transaction.{awaited_workflow_cancelled, workflow_cancelled, ok, err}
use dbos_workload.Serialization.{Serializers}
use dbos_workload.Steps.{by_uuid, find_workflow, check_operation_execution}
use dbos_workload.Steps.Call.{UserCode, call_function_as_step}
use dbos_workload.Workflow.{
  may_finish, finished, update_workflow_outcome, to_cancel, cancel_row, cancel_workflows,
  check_workflow_result,
}
use dbos_workload.Workflow.Lookup.{
  HasPrimaryKey, find_workflow-update, any_where-find_row, HasPrimaryKey-update,
}
use dbos_workload.Table.Laws.{find_row-holds}

-- `update_workflow_outcome` on an existing workflow: if the workflow is CANCELLED, it raises
-- DBOSAwaitedWorkflowCancelledError and the database is as it was; otherwise it returns, and the
-- workflow's row has the given status, output and error, and no deduplication ID. The ID is the
-- primary key.
pub update_workflow_outcome_branches :
    (id : String) (status : Status) (output error : Option String) (now : ℕ) (db : SysDb)
    (r : WorkflowRow)
    → HasPrimaryKey db
    → find_workflow id db ≡ some r
    → (is_cancelled r.status ≡ true
        → update_workflow_outcome id status output error now db
          ≡ (err (awaited_workflow_cancelled id), db))
      × (is_cancelled r.status ≡ false
          → ((update_workflow_outcome id status output error now db).0 ≡ ok tt)
            × (find_workflow id (update_workflow_outcome id status output error now db).1
                ≡ some (finished status output error now r)))
unfolding update_workflow_outcome
update_workflow_outcome_branches id status output error now db r unique found =
    let may =
      any_where-find_row id (λ x. not (is_cancelled x.status)) db.workflow_status r unique found in
    let after =
      find_workflow-update id (may_finish id) (finished status output error now) db r (λ x. refl)
        found in
    let here = find_row-holds (by_uuid id) db.workflow_status r found in
    ((λ c. ground arith), (λ c. (ground arith, ground arith)))

outcome-cancelled :
    (id : String) (status : Status) (output error : Option String) (now : ℕ) (db : SysDb)
    (r : WorkflowRow)
    → HasPrimaryKey db
    → find_workflow id db ≡ some r
    → is_cancelled r.status ≡ true
    → update_workflow_outcome id status output error now db
      ≡ (err (awaited_workflow_cancelled id), db)
outcome-cancelled id status output error now db r unique found c =
    (update_workflow_outcome_branches id status output error now db r unique found).0 c

module _ (ids : List String) (id : String) (t : ℕ) (db : SysDb) (r : WorkflowRow)
    (found : find_workflow id db ≡ some r) (listed : mem id ids ≡ true)
    (unfinished : is_complete r.status ≡ false) where
  pub find_workflow-cancel : find_workflow id (cancel_workflows ids t db) ≡ some (cancel_row t r)
  unfolding cancel_workflows
  find_workflow-cancel = ground (
    arith,
    find_workflow-update id (to_cancel ids) (cancel_row t) db r (λ x. refl) found,
    eq_iff r.workflow_uuid id,
    find_row-holds (by_uuid id) db.workflow_status r found,
  )

  check-cancel :
      (n : ℕ) (name : String)
      → check_operation_execution id n name (cancel_workflows ids t db)
        ≡ err (workflow_cancelled id)
  unfolding check_operation_execution
  check-cancel n name = ground (arith, find_workflow-cancel)

HasPrimaryKey-cancel :
    (ids : List String) (t : ℕ) (db : SysDb)
    → HasPrimaryKey db
    → HasPrimaryKey (cancel_workflows ids t db)
unfolding cancel_workflows
HasPrimaryKey-cancel ids t db unique =
    HasPrimaryKey-update (to_cancel ids) (cancel_row t) db (λ x. refl) unique

-- Cancelling workflows stops each of them that is not complete: its next step raises
-- DBOSWorkflowCancelledError with no user code run and nothing recorded, its outcome can no longer
-- be written, and whoever awaits its result gets DBOSAwaitedWorkflowCancelledError. The workflow
-- exists, and the ID is the primary key.
pub cancel_workflows_stops :
    {V W : Type 0} (s : Serializers V) (own : Option String) (ids : List String) (id : String)
    (t n : ℕ) (name : String) (fn : UserCode W V) (start now : ℕ) (status : Status)
    (output error : Option String) (db : SysDb) (w : W) (r : WorkflowRow)
    → HasPrimaryKey db
    → find_workflow id db ≡ some r
    → mem id ids ≡ true
    → is_complete r.status ≡ false
    → (call_function_as_step s own
          (record { is_transaction = false; workflow = some (id, n) })
          fn
          name
          start
          now
          (cancel_workflows ids t db)
          w
        ≡ (err (workflow_cancelled id), cancel_workflows ids t db, w))
      × (update_workflow_outcome id status output error now (cancel_workflows ids t db)
          ≡ (err (awaited_workflow_cancelled id), cancel_workflows ids t db))
      × (check_workflow_result s id (cancel_workflows ids t db)
          ≡ some (err (awaited_workflow_cancelled id)))
unfolding call_function_as_step check_workflow_result
cancel_workflows_stops s own ids id t n name fn start now status output error db w r unique found
      listed unfinished =
    let here = find_workflow-cancel ids id t db r found listed unfinished in
    (
      step,
      outcome-cancelled id status output error now (cancel_workflows ids t db) (cancel_row t r)
          (HasPrimaryKey-cancel ids t db unique) here refl,
      awaited,
    )
  where
    step :
        call_function_as_step s own
          (record { is_transaction = false; workflow = some (id, n) })
          fn
          name
          start
          now
          (cancel_workflows ids t db)
          w
        ≡ (err (workflow_cancelled id), cancel_workflows ids t db, w)
    step = ground (arith, check-cancel ids id t db r found listed unfinished n name)

    awaited :
        check_workflow_result s id (cancel_workflows ids t db)
        ≡ some (err (awaited_workflow_cancelled id))
    awaited = ground (arith, find_workflow-cancel ids id t db r found listed unfinished)
