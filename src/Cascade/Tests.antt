-- ===== src/Cascade/Tests.antt =====
-- A parent and its child.
use dbos_workload.Cascade.Descendants.{cancel_with_children_descendants}
use dbos_workload.Cascade.Round.{Descends}
use dbos_workload.Fixtures.{running, workflow_row}
use dbos_workload.Prelude.{String, [], arith, false, none, refl, some, true, ℕ, ◌∷◌, ◌≡◌, ◌⊎◌}
use dbos_workload.Schema.{Status, SysDb, WorkflowRow, empty_db, is_complete, pending}
use dbos_workload.Steps.{find_workflow}
use dbos_workload.Workflow.{cancel_row}
use dbos_workload.Workflow.Lookup.{HasPrimaryKey}
use dbos_workload.Table.{any_where}
use dbos_workload.Cascade.{
  cancel_with_children, descend, get_direct_children, get_workflow_children,
}
use dbos_workload.Table.{select}

abbrev parent_row : WorkflowRow
parent_row = workflow_row "p" Status.success none 1

abbrev parented_row : WorkflowRow
parented_row = record (workflow_row "c" pending none 2) { parent_workflow_id = some "p" }

abbrev family : SysDb
family = record empty_db { workflow_status = parent_row ∷ parented_row ∷ running ∷ [] }

family-HasPrimaryKey : HasPrimaryKey family
unfolding any_where
family-HasPrimaryKey = (refl, (refl, (refl, tt)))

children_of_p : get_workflow_children 3 "p" family ≡ some ("c" ∷ [])
unfolding get_workflow_children descend get_direct_children select
children_of_p = refl

cancel_with_children_descendants_example :
    (db' : SysDb) × (cancel_with_children (λ n. n) 4 ("p" ∷ []) family ≡ some db')
    × ((id : String) (r : WorkflowRow)
        → find_workflow id family ≡ some r
        → Descends family ("p" ∷ []) id
        → is_complete r.status ≡ false
        → (t : ℕ) × (find_workflow id db' ≡ some (cancel_row t r)))
    × ((id : String) (r : WorkflowRow)
        → find_workflow id family ≡ some r
        → (¬ Descends family ("p" ∷ []) id) ⊎ (is_complete r.status ≡ true)
        → find_workflow id db' ≡ some r)
cancel_with_children_descendants_example =
    cancel_with_children_descendants (λ n. n) 4 ("p" ∷ []) family family-HasPrimaryKey (omega arith)
