-- ===== src/Start/Once.antt =====
-- A workflow ID starts one execution.
use dbos_workload.Prelude.{
  ℕ, String, ◌≡◌, refl, Bool, true, false, not, Option, none, some, [], ◌∷◌, arith, eq_refl, ◌==◌,
  compares_text, compares_option, beq_refl, if◌then◌else◌, ◌||◌, ◌&&◌,
}
use dbos_workload.Table.{find_row}
use dbos_workload.Table.Laws.{find_row-append, find_row-holds}
use dbos_workload.Schema.{is_pending, is_complete, WorkflowRow, SysDb}
use dbos_workload.Transaction.{ok, err}
use dbos_workload.Steps.{by_uuid, find_workflow}
use dbos_workload.Workflow.Lookup.{find_workflow-update}
use dbos_workload.Start.{
  NewWorkflow, Started, fresh_row, restarted_row, insert_workflow, init_workflow, same_function,
  update_workflows, conflicting_workflow, exceeds, max_recovery_attempts, limit_of, dead_letter,
}

find_workflow-insert :
    (r : WorkflowRow) (db : SysDb)
    → find_workflow r.workflow_uuid db ≡ none
    → find_workflow r.workflow_uuid (insert_workflow r db) ≡ some r
unfolding find_row
find_workflow-insert r db h = ground (
  arith,
  find_row-append (by_uuid r.workflow_uuid) db.workflow_status (r ∷ []),
  eq_refl r.workflow_uuid,
)

module _ (w : NewWorkflow) (limit : Option ℕ) (owner_xid : Option String) (recovery dequeued : Bool)
    (now : ℕ) (db : SysDb) where
  -- The first start of an ID executes, unless the deduplication ID is taken.
  pub init_workflow-fresh :
      {a : Started}
      → find_workflow w.workflow_uuid db ≡ none
      → (init_workflow w limit owner_xid recovery dequeued now db).0 ≡ ok a
      → (a.should_execute ≡ true)
        × (find_workflow w.workflow_uuid
              (init_workflow w limit owner_xid recovery dequeued now db).1
            ≡ some (fresh_row w owner_xid now))
  unfolding init_workflow
  init_workflow-fresh absent done =
      let inserted = find_workflow-insert (fresh_row w owner_xid now) db absent in
      ground (
        arith,
        inserted,
        beq_refl owner_xid,
        beq_refl (some w.name),
        beq_refl w.class_name,
        beq_refl w.config_name,
      )

module _ (w : NewWorkflow) (limit : Option ℕ) (owner_xid : Option String) (recovery dequeued : Bool)
    (now : ℕ) (db : SysDb) (r : WorkflowRow)
    (found : find_workflow w.workflow_uuid db ≡ some r) where
  abbrev again : WorkflowRow
  again = restarted_row w (recovery || dequeued) now r

  find_workflow-restart :
      find_workflow w.workflow_uuid
        (update_workflows (by_uuid w.workflow_uuid) (restarted_row w (recovery || dequeued) now) db)
      ≡ some again
  find_workflow-restart = ground (
    arith,
    find_workflow-update w.workflow_uuid (by_uuid w.workflow_uuid)
        (restarted_row w (recovery || dequeued) now) db r (λ x. refl) found,
    find_row-holds (by_uuid w.workflow_uuid) db.workflow_status r found,
  )

  pub init_workflow-conflict :
      same_function w r ≡ false
      → init_workflow w limit owner_xid recovery dequeued now db
        ≡ (err (conflicting_workflow w.workflow_uuid), db)
  unfolding init_workflow
  init_workflow-conflict other = ground (arith, find_workflow-restart)

  pub init_workflow-existing :
      same_function w r ≡ true
      → (not (is_complete r.status)
          && exceeds limit again.recovery_attempts
          && not (owner_xid == r.owner_xid))
        ≡ false
      → ((init_workflow w limit owner_xid recovery dequeued now db).0
          ≡ ok (record {
            status = r.status;
            deadline = r.workflow_deadline_epoch_ms;
            should_execute = owner_xid == r.owner_xid || dequeued || recovery;
            serialization = r.serialization;
          }))
        × (find_workflow w.workflow_uuid
              (init_workflow w limit owner_xid recovery dequeued now db).1
            ≡ some again)
  unfolding init_workflow
  init_workflow-existing same within = ground (arith, find_workflow-restart)

  pub init_workflow-exceeded :
      same_function w r ≡ true
      → (not (is_complete r.status)
          && exceeds limit again.recovery_attempts
          && not (owner_xid == r.owner_xid))
        ≡ true
      → ((init_workflow w limit owner_xid recovery dequeued now db).0
          ≡ err (max_recovery_attempts w.workflow_uuid (limit_of limit)))
        × (find_workflow w.workflow_uuid
              (init_workflow w limit owner_xid recovery dequeued now db).1
            ≡ some (if is_pending r.status then dead_letter again else again))
  unfolding init_workflow
  init_workflow-exceeded same beyond =
      let restarted =
        update_workflows (by_uuid w.workflow_uuid) (restarted_row w (recovery || dequeued) now)
          db in
      let buried =
        find_workflow-update w.workflow_uuid
          (λ (x : WorkflowRow). x.workflow_uuid == w.workflow_uuid && is_pending x.status)
          dead_letter restarted again (λ x. refl) find_workflow-restart in
      ground (
        arith,
        find_workflow-restart,
        find_row-holds (by_uuid w.workflow_uuid) db.workflow_status r found,
      )
