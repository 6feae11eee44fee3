-- ===== src/Workflow/Resumed.antt =====
-- Resuming, and leaving a delay.
use dbos_workload.Prelude.{
  List, Option, String, [], ap, arith, compares_text, eq_iff, false, mem, none, refl, some, sym,
  true, ℕ, ◌∷◌, ◌≡◌,
}
use dbos_workload.Table.{count_where, find_row, update_where}
use dbos_workload.Table.Laws.{find_row-holds}
use dbos_workload.Schema.{SysDb, WorkflowRow, enqueued, is_cancelled, is_complete}
use dbos_workload.Steps.{by_step, by_uuid, check_operation_execution, find_workflow}
use dbos_workload.Workflow.{
  cancel_row, cancel_workflows, delay_expired, internal_queue_name, resume_row, resume_workflows,
  to_cancel, undelay_row,
}
use dbos_workload.Workflow.Lookup.{find_workflow-update}
use dbos_workload.Workflow.Outcome.{find_workflow-cancel}

module _ (ids : List String) (queue : Option String) (id : String) (t : ℕ) (db : SysDb)
    (r : WorkflowRow) (found : find_workflow id db ≡ some r) (listed : mem id ids ≡ true)
    (unfinished : is_complete r.status ≡ false) where
  find_workflow-resume :
      find_workflow id (resume_workflows ids queue t db) ≡ some (resume_row queue t r)
  unfolding resume_workflows
  find_workflow-resume = ground (
    arith,
    find_workflow-update id (to_cancel ids) (resume_row queue t) db r (λ x. refl) found,
    eq_iff r.workflow_uuid id,
    find_row-holds (by_uuid id) db.workflow_status r found,
  )

-- A check reads only a workflow's status and its checkpoints.
check_eq :
    (id : String) (n : ℕ) (name : String) (db db' : SysDb) (r r' : WorkflowRow)
    → find_workflow id db ≡ some r
    → find_workflow id db' ≡ some r'
    → is_cancelled r.status ≡ is_cancelled r'.status
    → db.operation_outputs ≡ db'.operation_outputs
    → check_operation_execution id n name db ≡ check_operation_execution id n name db'
unfolding check_operation_execution
check_eq id n name db db' r r' found found' same outputs =
    ground (arith, ap (find_row (by_step id n)) outputs)

outputs-resume-cancel :
    (ids : List String) (queue : Option String) (t t' : ℕ) (db : SysDb)
    → (resume_workflows ids queue t' (cancel_workflows ids t db)).operation_outputs
      ≡ db.operation_outputs
unfolding resume_workflows cancel_workflows
outputs-resume-cancel ids queue t t' db = refl

-- A workflow that was neither complete nor cancelled, and is cancelled and then resumed, is
-- enqueued again, on the given queue or the internal one, with no recovery attempts, deadline,
-- deduplication ID, start or end, and is as it was in all else but the time of its update; and each of its steps is replayed, or is still to run, exactly as
-- before the cancellation.
pub resume-cancel_replays :
    (ids : List String) (queue : Option String) (id : String) (t t' n : ℕ) (name : String)
    (db : SysDb) (r : WorkflowRow)
    → find_workflow id db ≡ some r
    → mem id ids ≡ true
    → is_complete r.status ≡ false
    → is_cancelled r.status ≡ false
    → (find_workflow id (resume_workflows ids queue t' (cancel_workflows ids t db))
        ≡ some (record r {
          status = enqueued;
          queue_name = elim queue [ none ↦ some internal_queue_name | some q ↦ some q ];
          recovery_attempts = 0;
          workflow_deadline_epoch_ms = none;
          deduplication_id = none;
          started_at_epoch_ms = none;
          completed_at = none;
          updated_at = t';
        }))
      × (check_operation_execution id n name
            (resume_workflows ids queue t' (cancel_workflows ids t db))
          ≡ check_operation_execution id n name db)
resume-cancel_replays ids queue id t t' n name db r found listed unfinished running =
    let back =
      find_workflow-resume ids queue id t' (cancel_workflows ids t db) (cancel_row t r)
        (find_workflow-cancel ids id t db r found listed unfinished) listed refl in
    (
      back,
      check_eq id n name (resume_workflows ids queue t' (cancel_workflows ids t db)) db
          (resume_row queue t' r) r back found (sym running)
          (outputs-resume-cancel ids queue t t' db),
    )

-- After the delays that have expired at `now` are ended, no workflow is left DELAYED with a time
-- at or before `now`.
count-transition :
    (now : ℕ) (rs : List WorkflowRow)
    → count_where (delay_expired now) (update_where (delay_expired now) undelay_row rs) ≡ 0
unfolding count_where update_where
count-transition now [] = refl
count-transition now (r ∷ rs) = ground (arith, count-transition now rs)
