-- ===== src/Operations/Checkpoints.antt =====
-- The operations that record steps keep every workflow: checkpoints are added, never changed.
use dbos_workload.Operations.Keeping.{Evolves-begin_query}
use dbos_workload.Steps.{result_row}
use dbos_workload.Operations.Evolution.{Evolves-refl}
use dbos_workload.Operations.Keeping.{Evolves-begin, Keeps-require}
use dbos_workload.Prelude.{Bool-cases, inl, inr}
use dbos_workload.Steps.{
  child_row, insert_child, insert_if_absent, insert_referring, record_child_workflow,
  record_get_result, record_operation_result, require_workflow,
}
use dbos_workload.Operations.Transitions.{here}
use dbos_workload.Operations.Keeping.{Keeps-assert, Keeps-bind}
use dbos_workload.Prelude.{is_none, ◌||◌}
use dbos_workload.Steps.{find_step, find_workflow}
use dbos_workload.Transaction.{assert}
use dbos_workload.Operations.Evolution.{Evolves, Evolves-steps, Evolves-update}
use dbos_workload.Operations.Keeping.{Keeps, Keeps-execute, Keeps-if, Keeps-option}
use dbos_workload.Prelude.{
  [], compares_nat, compares_option, compares_text, is_some, none, not, refl, some, ◌&&◌, ◌==◌, ◌∷◌,
}
use dbos_workload.Schema.{OperationRow, SysDb, WorkflowRow}
use dbos_workload.Steps.{
  OperationResult, by_uuid, insert_or_conflict, insert_step, operation_row,
  record_operation_result_txn, reset_executor, set_executor,
}
use dbos_workload.Transaction.{execute}
use dbos_workload.Prelude.{String, Option, ℕ}

Evolves-insert_step :
    (id : String) (row : OperationRow) (db : SysDb) → Evolves id db (insert_step row db)
Evolves-insert_step id row db = Evolves-steps (row ∷ []) db (insert_step row db) refl refl

Evolves-set_executor :
    (id : String) (own : Option String) (j : String) (db : SysDb)
    → Evolves id db (set_executor own j db)
Evolves-set_executor id own j db =
    Evolves-update (by_uuid j) (λ r. record r { executor_id = own }) db (λ x. refl)
      (λ x e. (here, refl))

module _ (id : String) (base : SysDb) where
  Keeps-insert : (row : OperationRow) → Keeps id base (execute (insert_step row))
  Keeps-insert row = Keeps-execute id base (insert_step row) (Evolves-insert_step id row)

  Keeps-conflict :
      (result : OperationResult) (t : ℕ) (o : Option OperationRow)
      → Keeps id base (insert_or_conflict result t o)
  unfolding insert_or_conflict
  Keeps-conflict result t none = Keeps-insert (operation_row result t)
  Keeps-conflict result t (some row) =
      Keeps-option id base row.completed_at_epoch_ms _ _ (λ c w. w)
        (λ old. Keeps-if id base (old == t) _ _ (λ c w. w) (λ c w. w))

  Keeps-reset :
      (own : Option String) (j : String) (o : Option WorkflowRow)
      → Keeps id base (reset_executor own j o)
  unfolding reset_executor
  Keeps-reset own j none = λ c w. w
  Keeps-reset own j (some row) =
      Keeps-if id base (is_some own && not (row.executor_id == own)) _ _
        (Keeps-execute id base (set_executor own j) (Evolves-set_executor id own j)) (λ c w. w)

  pub Keeps-record :
      (own : Option String) (result : OperationResult) (t : ℕ)
      → Keeps id base (record_operation_result_txn own result t)
  unfolding record_operation_result_txn
  Keeps-record own result t =
      Keeps-bind id base (assert (is_none result.error || is_none result.output)) _
        (Keeps-assert id base (is_none result.error || is_none result.output))
        (λ u c.
          Keeps-bind id base
            (reset_executor own result.workflow_uuid (find_workflow result.workflow_uuid c.work)) _
            (Keeps-reset own result.workflow_uuid (find_workflow result.workflow_uuid c.work))
            (λ v c'.
              Keeps-conflict result t (find_step result.workflow_uuid result.function_id c'.work)
                c')
            c)

  Keeps-referring : (row : OperationRow) → Keeps id base (insert_referring row)
  unfolding insert_referring
  Keeps-referring row c =
      Keeps-bind id base (require_workflow (find_workflow row.workflow_uuid c.work)) _
        (Keeps-require id base (find_workflow row.workflow_uuid c.work)) (λ u. Keeps-insert row) c

  Keeps-absent :
      (row : OperationRow) (o : Option OperationRow) → Keeps id base (insert_if_absent row o)
  unfolding insert_if_absent
  Keeps-absent row none = Keeps-referring row
  Keeps-absent row (some old) = λ c w. w

  Keeps-child :
      (parent child : String) (n : ℕ) (name : String) (o : Option OperationRow)
      → Keeps id base (insert_child parent child n name o)
  unfolding insert_child
  Keeps-child parent child n name none = Keeps-referring (child_row parent child n name)
  Keeps-child parent child n name (some row) =
      Keeps-if id base (row.child_workflow_id == some child) _ _ (λ c w. w) (λ c w. w)

module _ (id : String) (db : SysDb) where
  pub Evolves-record :
      (own : Option String) (result : OperationResult) (t : ℕ)
      → Evolves id db (record_operation_result own result t db).1
  unfolding record_operation_result
  Evolves-record own result t =
      Evolves-begin id db (record_operation_result_txn own result t)
        (Keeps-record id db own result t)

  pub Evolves-get_result :
      (j : String) (n : ℕ) (target : String) (output error format : Option String)
      → Evolves id db (record_get_result j n target output error format db).1
  unfolding record_get_result
  Evolves-get_result j n target output error format =
      let row = result_row j n target output error format in
      Evolves-begin_query id db (find_step j n) (insert_if_absent row) (Keeps-absent id db row)

  pub Evolves-child :
      (parent child : String) (n : ℕ) (name : String)
      → Evolves id db (record_child_workflow parent child n name db).1
  unfolding record_child_workflow
  Evolves-child parent child n name = elim (Bool-cases (child == "")) [
    | inl e ↦ rw e Evolves-refl
    | inr e ↦ rw e (
        Evolves-begin_query id db (find_step parent n) (insert_child parent child n name)
          (Keeps-child id db parent child n name))
  ]
