-- ===== src/Export/Children.antt =====
-- A workflow that is exported with its children.
use dbos_workload.Cascade.Round.{Descends}
use dbos_workload.Export.{ExportedWorkflow, exported}
use dbos_workload.Prelude.{List, String, [], compares_text, some, ◌∷◌, ◌≡◌}
use dbos_workload.Schema.{SysDb, WorkflowRow}
use dbos_workload.Steps.{find_workflow}

-- The export of a workflow that is the given one or descends from it.
abbrev pub IsExport : SysDb → String → ExportedWorkflow → Type 0
IsExport db id w =
    (x : String) × (r : WorkflowRow) × Descends db (id ∷ []) x
    × (find_workflow x db ≡ some r)
    × (w ≡ exported x db r)

module _ (db : SysDb) (id : String) where
  abbrev Found : String → Type 0
  Found x = Descends db (id ∷ []) x × (r : WorkflowRow) × (find_workflow x db ≡ some r)
