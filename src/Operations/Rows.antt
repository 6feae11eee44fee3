-- ===== src/Operations/Rows.antt =====
-- The operations on workflow_status keep every workflow: its row moves along the diagram.
use dbos_workload.Operations.{succeeded, failed}
use dbos_workload.Debounce.{
  Bounce, answer_bounce, bounced_row, can_bounce, debounce_delayed_workflow,
}
use dbos_workload.Operations.{Ending, status_after}
use dbos_workload.Operations.Evolution.{Evolves, Evolves-refl, Evolves-update}
use dbos_workload.Operations.Keeping.{Evolves-begin_query, Keeps, Keeps-after, Keeps-if}
use dbos_workload.Prelude.{
  Bool, List, and-true_split, arith, compares_nat, compares_option, compares_text, false,
  if◌then◌else◌, mem, negsuc, none, not, pos, some, true, ℤ, ◌&&◌, ◌+◌, ◌==◌,
}
use dbos_workload.Schema.{
  Status, SysDb, WorkflowRow, is_cancelled, is_complete, is_delayed, enqueued,
}
use dbos_workload.Steps.{by_uuid, find_workflow}
use dbos_workload.Table.{any_where, find_row}
use dbos_workload.Transaction.{Tx, execute, pure, query}
use dbos_workload.Workflow.{
  cancel_row, cancel_workflows, clear_queue_assignment, delay_expired, delay_row, finished,
  is_assigned, is_delayed_as, may_finish, outcome_blocked, resume_row, resume_workflows, set_delay,
  set_workflow_delay, to_cancel, transition_delayed_workflows, undelay_row,
  update_workflow_attributes, update_workflow_outcome, update_workflows,
}
use dbos_workload.Prelude.{String, ◌≡◌, Option, ℕ, refl}
use dbos_workload.Transaction.{◌>>=◌, ◌>>◌}
use dbos_workload.Operations.Transitions.{
  here, one, undelay, requeue, cancel, resume, succeed, fail,
}

pub negated_false : (b : Bool) → not b ≡ true → b ≡ false
negated_false b h = ground arith

-- A guard of two tests, of which the second is negated.
guard_false : (a b : Bool) → (a && not b) ≡ true → b ≡ false
guard_false a b h = ground arith

guard_true : (a b : Bool) → (a && b) ≡ true → b ≡ true
guard_true a b h = (and-true_split a b h).1

module _ (id : String) (db : SysDb) where
  pub Evolves-cancel : (ids : List String) (now : ℕ) → Evolves id db (cancel_workflows ids now db)
  unfolding cancel_workflows
  Evolves-cancel ids now =
      Evolves-update (to_cancel ids) (cancel_row now) db (λ x. refl)
        (λ x e.
          (one (cancel (guard_false (mem x.workflow_uuid ids) (is_complete x.status) e)), refl))

  pub Evolves-resume :
      (ids : List String) (queue : Option String) (now : ℕ)
      → Evolves id db (resume_workflows ids queue now db)
  unfolding resume_workflows
  Evolves-resume ids queue now =
      Evolves-update (to_cancel ids) (resume_row queue now) db (λ x. refl)
        (λ x e.
          (one (resume (guard_false (mem x.workflow_uuid ids) (is_complete x.status) e)), refl))

  delayed_row :
      (j : String) (until now : ℕ)
      → Evolves id db (update_workflows (is_delayed_as j) (delay_row until now) db)
  delayed_row j until now =
      Evolves-update (is_delayed_as j) (delay_row until now) db (λ x. refl) (λ x e. (here, refl))

  delay_set :
      (j : String) (delay : ℤ) (clock now : ℕ) → Evolves id db (set_delay j delay clock now db).1
  unfolding set_delay
  delay_set j (negsuc k) clock now = Evolves-refl
  delay_set j (pos k) clock now = delayed_row j (clock + k) now

  pub Evolves-set_delay :
      (j : String) (delay until : Option ℤ) (clock now : ℕ)
      → Evolves id db (set_workflow_delay j delay until clock now db).1
  unfolding set_workflow_delay
  Evolves-set_delay j (some delay) (some until) clock now = Evolves-refl
  Evolves-set_delay j none (some until) clock now = delay_set j until 0 now
  Evolves-set_delay j (some delay) none clock now = delay_set j delay clock now
  Evolves-set_delay j none none clock now = Evolves-refl

  pub Evolves-attributes :
      (j : String) (attributes : Option String) (now : ℕ)
      → Evolves id db (update_workflow_attributes j attributes now db)
  unfolding update_workflow_attributes
  Evolves-attributes j attributes now =
      Evolves-update (by_uuid j) (λ r. record r { attributes = attributes; updated_at = now }) db
        (λ x. refl) (λ x e. (here, refl))

  pub Evolves-undelay : (now : ℕ) → Evolves id db (transition_delayed_workflows now db)
  unfolding transition_delayed_workflows
  Evolves-undelay now =
      Evolves-update (delay_expired now) undelay_row db (λ x. refl)
        (λ x e. (one (undelay (and-true_split (is_delayed x.status) _ e).0), refl))

  pub Evolves-requeue : (j : String) → Evolves id db (clear_queue_assignment j db)
  unfolding clear_queue_assignment
  Evolves-requeue j =
      Evolves-update (is_assigned j)
        (λ r. record r { status = enqueued; started_at_epoch_ms = none }) db (λ x. refl)
        (λ x e. (one (requeue (ground arith)), refl))

  Evolves-finished :
      (j : String) (ending : Ending) (output error : Option String) (now : ℕ) (d : SysDb)
      → Evolves id d
          (update_workflows (may_finish j) (finished (status_after ending) output error now) d)
  Evolves-finished j succeeded output error now d =
      Evolves-update (may_finish j) (finished Status.success output error now) d (λ x. refl)
        (λ x e.
          (one (succeed (guard_false (x.workflow_uuid == j) (is_cancelled x.status) e)), refl))
  Evolves-finished j failed output error now d =
      Evolves-update (may_finish j) (finished Status.error output error now) d (λ x. refl)
        (λ x e. (one (fail (guard_false (x.workflow_uuid == j) (is_cancelled x.status) e)), refl))

  Keeps-blocked : (j : String) (o : Option WorkflowRow) → Keeps id db (outcome_blocked j o)
  unfolding outcome_blocked
  Keeps-blocked j none = λ c w. w
  Keeps-blocked j (some r) = Keeps-if id db (is_cancelled r.status) _ _ (λ c w. w) (λ c w. w)

  pub Evolves-finish :
      (j : String) (ending : Ending) (output error : Option String) (now : ℕ)
      → Evolves id db (update_workflow_outcome j (status_after ending) output error now db).1
  unfolding update_workflow_outcome
  Evolves-finish j ending output error now =
      let set = update_workflows (may_finish j) (finished (status_after ending) output error now) in
      let checked : Bool → Tx (Unit {0}) = λ matched. query (find_workflow j) >>= λ current.
      if matched then pure tt else outcome_blocked j current in
      Evolves-begin_query id db (λ d. any_where (may_finish j) d.workflow_status)
        (λ matched. execute set >> checked matched)
        (λ matched.
          Keeps-after id db set (checked matched) (Evolves-finished j ending output error now) (λ c.
            Keeps-if id db matched _ _ (λ d w. w) (Keeps-blocked j (find_workflow j c.work)) c))

  Keeps-answer : (b : Bounce) (o : Option WorkflowRow) → Keeps id db (answer_bounce b o)
  unfolding answer_bounce
  Keeps-answer b none = λ c w. w
  Keeps-answer b (some r) = λ c w. w

  pub Evolves-debounce :
      (b : Bounce) (now : ℕ) → Evolves id db (debounce_delayed_workflow b now db).1
  unfolding debounce_delayed_workflow
  Evolves-debounce b now =
      let set = update_workflows (can_bounce b) (bounced_row b now) in
      Evolves-begin_query id db (λ d. find_row (can_bounce b) d.workflow_status)
        (λ updated. execute set >> answer_bounce b updated)
        (λ updated.
          Keeps-after id db set (answer_bounce b updated)
            (λ d.
              Evolves-update (can_bounce b) (bounced_row b now) d (λ x. refl) (λ x e. (here, refl)))
            (Keeps-answer b updated))
