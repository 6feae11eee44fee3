-- ===== src/Fork/Replay.antt =====
-- A fork replays what its original did before the step that it starts at.
use dbos_workload.Prelude.{mem}
use dbos_workload.Workflow.Lookup.{updated}
use dbos_workload.Prelude.{String, compares_option, compares_text}
use dbos_workload.Prelude.{compares_nat}
use dbos_workload.Transaction.{Result}
use dbos_workload.Fork.{forked_row}
use dbos_workload.Fork.Entries.{ForkEntry, ForkOptions}
use dbos_workload.Prelude.{All, List, map, some, true, ℕ, ◌++◌, ◌≡◌}
use dbos_workload.Schema.{SysDb, WorkflowRow}
use dbos_workload.Steps.{find_workflow}
use dbos_workload.Table.Distinct.{Distinct}
use dbos_workload.Transaction.{Conn, ok}

abbrev Attached : Type 0
Attached = List (ForkEntry × WorkflowRow)

-- The originals' rows are found.
abbrev AreFound : SysDb → Attached → Type 0
AreFound db = All (λ p. find_workflow p.0.original db ≡ some p.1)

abbrev forked_rows : ForkOptions → ℕ → Attached → List WorkflowRow
forked_rows o now = map (λ p. forked_row o p.0 now p.1)

abbrev pair_ok : Conn → Result (Unit {0}) × Conn
pair_ok c = (ok tt, c)

abbrev with_forks : ForkOptions → ℕ → Attached → SysDb → SysDb
with_forks o now ps db = record db { workflow_status = db.workflow_status ++ forked_rows o now ps }

-- The fork's row among the new ones.
module _ (o : ForkOptions) (now : ℕ) (e : ForkEntry) (status : WorkflowRow) (ps : Attached)
    (originals : List String) (db : SysDb) where
  abbrev new_row : WorkflowRow
  new_row =
      updated (λ r. mem r.workflow_uuid originals) (λ r. record r { was_forked_from = true })
        (forked_row o e now status)
