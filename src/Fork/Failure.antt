-- ===== src/Fork/Failure.antt =====
-- `fork_from_failure` of dbos/_sys_db.py: where the forks of failed workflows start.
use dbos_workload.Fork.Entries.{ForkOptions}
use dbos_workload.Prelude.{
  Bool, List, Option, String, [], if◌then◌else◌, is_some, map, max, none, some, suc, true, ℕ, ◌&&◌,
  ◌+◌, ◌==◌, ◌∷◌,
}
use dbos_workload.Schema.{OperationRow, SysDb}
use dbos_workload.Transaction.{Result, err, ok, value_error}
use dbos_workload.Prelude.{compares_text, compares_option, compares_nat}
use dbos_workload.Fork.{fork_workflow, dbos_exception}

-- Where forks of failed workflows start: the four ways, of which exactly one is to be given.
pub record FailureModes : Type 0 where
  pub from_last_failure : Bool
  pub from_last_step : Bool
  pub from_step : Option ℕ
  pub from_step_name : Option String

one_if : Bool → ℕ
one_if b = if b then 1 else 0

-- MAX(function_id) of a workflow's rows that pass a test.
pub last_step : (OperationRow → Bool) → String → List OperationRow → Option ℕ
last_step p id [] = none
last_step p id (r ∷ rs) =
    let rest = last_step p id rs in
    if r.workflow_uuid == id && p r
    then some (elim rest [ none ↦ r.function_id | some n ↦ max r.function_id n ])
    else rest

abbrev pub coalesce : Option ℕ → Option ℕ → Option ℕ
coalesce none b = b
coalesce (some a) b = some a

-- The three queries.
unfoldable pub start_step_of : FailureModes → String → List OperationRow → Option ℕ
unfolding last_step
start_step_of m id rows =
    if m.from_last_failure
    then coalesce (last_step (λ r. is_some r.error) id rows) (last_step (λ r. true) id rows)
    else if m.from_last_step
    then last_step (λ r. true) id rows
    else last_step (λ r. some r.function_name == m.from_step_name) id rows

and_step : Option ℕ → Result (List ℕ) → Result (List ℕ)
and_step none rest = err dbos_exception
and_step (some n) (err e) = err e
and_step (some n) (ok ns) = ok (n ∷ ns)

start_steps_of : FailureModes → List String → List OperationRow → Result (List ℕ)
unfolding and_step
start_steps_of m [] rows = ok []
start_steps_of m (id ∷ ids) rows = and_step (start_step_of m id rows) (start_steps_of m ids rows)

start_steps : FailureModes → List String → SysDb → Result (List ℕ)
unfolding start_steps_of
start_steps m ids db = elim m.from_step [
  | some n ↦ ok (map (λ (id : String). n) ids)
  | none ↦ start_steps_of m ids db.operation_outputs
]

generated : (ℕ → String) → ℕ → List String → List String
generated uuid n [] = []
generated uuid n (id ∷ ids) = uuid n ∷ generated uuid (suc n) ids

fork_at :
    ForkOptions
    → List String
    → (ℕ → String)
    → Result (List ℕ)
    → ℕ
    → SysDb
    → Result (List String) × SysDb
unfolding generated
fork_at o ids uuid (err e) now db = (err e, db)
fork_at o ids uuid (ok steps) now db = fork_workflow o ids (generated uuid 0 ids) steps now db

-- `uuid` gives the generated IDs. No replacement of children is passed on.
unfoldable pub fork_from_failure :
    ForkOptions
    → FailureModes
    → List String
    → (ℕ → String)
    → ℕ
    → SysDb
    → Result (List String) × SysDb
unfolding fork_at start_steps one_if
fork_from_failure o m ids uuid now db =
    if one_if m.from_last_failure
        + one_if m.from_last_step
        + one_if (is_some m.from_step)
        + one_if (is_some m.from_step_name)
      == 1
    then fork_at (record o { replacement_children = [] }) ids uuid (start_steps m ids db) now db
    else (err value_error, db)
