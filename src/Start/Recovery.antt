-- ===== src/Start/Recovery.antt =====
-- How often a workflow is started and recovered.
use dbos_workload.Prelude.{
  Bool, Option, String, arith, beq_refl, compares_option, compares_text, false, if◌then◌else◌, none,
  not, refl, some, subst, true, ℕ, ◌&&◌, ◌==◌, ◌≡◌,
}
use dbos_workload.Schema.{SysDb, WorkflowRow, is_complete, is_waiting}
use dbos_workload.Transaction.{ok}
use dbos_workload.Steps.{find_workflow}
use dbos_workload.Start.{NewWorkflow, Started, exceeds, fresh_row, init_workflow, restarted_row}
use dbos_workload.Start.Once.{init_workflow-existing, init_workflow-fresh}

-- If a workflow ID is absent and `init_workflow` returns, that call is told to execute; and any
-- later call for the same workflow ID and function that is neither a recovery nor a dequeue,
-- whatever else it asks for and whatever the recovery limits, returns the status, deadline and
-- serialization of the first and is told to execute exactly if it has the owner of the first. The
-- row stays that of the first, and neither call counts as a recovery: only the time of the update
-- is new, and the executor, unless the second call enqueues or delays.
pub init_workflow_once :
    (w w' : NewWorkflow) (limit limit' : Option ℕ) (owner other : Option String)
    (recovery dequeued : Bool) (now now' : ℕ) (db : SysDb) (a : Started)
    → find_workflow w.workflow_uuid db ≡ none
    → (init_workflow w limit owner recovery dequeued now db).0 ≡ ok a
    → w'.workflow_uuid ≡ w.workflow_uuid
    → w'.name ≡ w.name
    → w'.class_name ≡ w.class_name
    → w'.config_name ≡ w.config_name
    → (a.should_execute ≡ true)
      × ((init_workflow w' limit' other false false now'
            (init_workflow w limit owner recovery dequeued now db).1).0
          ≡ ok (record {
            status = w.status;
            deadline = w.workflow_deadline_epoch_ms;
            should_execute = other == owner;
            serialization = w.serialization;
          }))
      × (find_workflow w.workflow_uuid
            (init_workflow w' limit' other false false now'
              (init_workflow w limit owner recovery dequeued now db).1).1
          ≡ some (record (fresh_row w owner now) {
            updated_at = now';
            executor_id = if is_waiting w'.status then w.executor_id else w'.executor_id;
          }))
init_workflow_once w w' limit limit' owner other recovery dequeued now now' db a absent done same
      named in_class configured =
    let first = init_workflow-fresh w limit owner recovery dequeued now db absent done in
    let db1 = (init_workflow w limit owner recovery dequeued now db).1 in
    let there : find_workflow w'.workflow_uuid db1 ≡ some (fresh_row w owner now) =
      rw same first.1 in
    let second =
      init_workflow-existing w' limit' other false false now' db1 (fresh_row w owner now) there
        (rw (named, in_class, configured)
          (ground (arith, beq_refl (some w.name), beq_refl w.class_name, beq_refl w.config_name)))
        (within (fresh_row w owner now) refl) in
    (
      first.0,
      ground (arith, second.0),
      subst
          (λ (x : String × WorkflowRow).
            find_workflow x.0 (init_workflow w' limit' other false false now' db1).1 ≡ some x.1)
          (λ i. (
            same i,
            record (fresh_row w owner now) {
              updated_at = now';
              executor_id = if is_waiting w'.status then w.executor_id else w'.executor_id;
              recovery_attempts = uncounted (fresh_row w owner now) i;
            },
          ))
          second.1,
    )
  where
    within :
        (r : WorkflowRow)
        → r.recovery_attempts ≡ (if is_waiting w.status then 0 else 1)
        → (not (is_complete r.status)
            && exceeds limit' (restarted_row w' false now' r).recovery_attempts
            && not (other == r.owner_xid))
          ≡ false
    within r few = ground arith

    uncounted :
        (r : WorkflowRow) → (restarted_row w' false now' r).recovery_attempts ≡ r.recovery_attempts
    uncounted r = ground arith
