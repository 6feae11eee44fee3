-- ===== src/Durable/Replay.antt =====
-- The steps that a workflow has behind it, as its checkpoints tell: what replays them, and what
-- keeps them.
use dbos_workload.Durable.{Clock, Program, calls, run_body, run_step}
use dbos_workload.Execution.{StepOptions, invoke_step, run_unless, step_replayed}
use dbos_workload.Operations.Evolution.{Evolves}
use dbos_workload.Prelude.{
  arith, false, none, some, suc, List, Option-cases, inl, inr, eq_iff, eq_refl, compares_text,
}
use dbos_workload.Schema.{OperationRow, SysDb, WorkflowRow, is_cancelled}
use dbos_workload.Serialization.{Serializers}
use dbos_workload.Steps.{RecordedResult, check_operation_execution, find_step, find_workflow}
use dbos_workload.Steps.Call.{UserCode}
use dbos_workload.Transaction.{Error, Result, ok}
use dbos_workload.Prelude.{String, ◌≡◌, Option, ℕ, refl}

-- A row of the checkpoint table, as a check returns it.
abbrev pub recorded_of : OperationRow → RecordedResult
recorded_of row = record {
  output = row.output;
  error = row.error;
  serialization = row.serialization;
  child_workflow_id = row.child_workflow_id;
}

module _ (id : String) (n : ℕ) (name : String) (db : SysDb) where
  -- A checkpoint of the step is found, if the workflow has a row and is not cancelled.
  pub check_found :
      (w : WorkflowRow) (row : OperationRow)
      → find_workflow id db ≡ some w
      → is_cancelled w.status ≡ false
      → find_step id n db ≡ some row
      → row.function_name ≡ name
      → check_operation_execution id n name db ≡ ok (some (recorded_of row))
  unfolding check_operation_execution
  check_found w row known live found named = ground (arith, eq_refl name)

  -- What a check finds is a row of the step.
  pub check_some :
      (r : RecordedResult)
      → check_operation_execution id n name db ≡ ok (some r)
      → (row : OperationRow) × (find_step id n db ≡ some row)
        × (row.function_name ≡ name)
        × (recorded_of row ≡ r)
  unfolding check_operation_execution
  check_some r h = elim (Option-cases (find_step id n db)) [
    | inl missing ↦ absurd (ground arith)
    | inr (row, found) ↦ (
      row,
      found,
      ground (arith, eq_iff name row.function_name),
      ground (arith, eq_iff name row.function_name),
    )
  ]

  -- Where a check finds nothing, the step has no row.
  pub check_none : check_operation_execution id n name db ≡ ok none → find_step id n db ≡ none
  unfolding check_operation_execution
  check_none h = elim (Option-cases (find_step id n db)) [
    | inl missing ↦ missing
    | inr (row, found) ↦ absurd (ground arith)
  ]

module _ {V W : Type 0} (s : Serializers V) (se : Serializers Error) (id : String) where
  -- From a point of a workflow to a later one, by steps that have checkpoints.
  pub data Replays (db : SysDb) (start : Program V W) (n0 : ℕ) : Program V W → ℕ → Type 0 where
    here : Replays db start n0 start n0
    then :
        {o : StepOptions} {fn : UserCode W V} {k : Result V → Program V W} {n : ℕ} {r : Result V}
        (row : OperationRow)
        → Replays db start n0 (calls o fn k) n
        → find_step id (suc n) db ≡ some row
        → row.function_name ≡ o.step_name
        → step_replayed s se (recorded_of row) ≡ r
        → Replays db start n0 (k r) (suc n)

  -- Whatever keeps the checkpoints keeps the steps behind a workflow.
  pub Replays-Evolves :
      {db db' : SysDb} {start : Program V W} {n0 : ℕ} {p : Program V W} {n : ℕ}
      → Evolves id db db'
      → Replays db start n0 p n
      → Replays db' start n0 p n
  Replays-Evolves e here = here
  Replays-Evolves e (then {n} row before found named reads) =
      then row (Replays-Evolves e before) (e.steps (suc n) row found) named reads

  -- A step that is found is replayed: it changes neither the database nor the world.
  pub run_step-replayed :
      (own : Option String) (exceeded : String → ℕ → List Error → Error) (clock : Clock)
      (o : StepOptions) (fn : UserCode W V) (n : ℕ) (db : SysDb) (w : W) (r : RecordedResult)
      → check_operation_execution id (suc n) o.step_name db ≡ ok (some r)
      → run_step s se own exceeded id clock o fn n db w ≡ (suc n, (step_replayed s se r, db, w))
  unfolding run_step invoke_step run_unless
  run_step-replayed own exceeded clock o fn n db w r found = rw found refl

  -- Running a workflow from the earlier point replays the steps in between, and goes on as from
  -- the later one.
  pub Replays-run_body :
      {db : SysDb} {start : Program V W} {n0 : ℕ} {p : Program V W} {n : ℕ} (own : Option String)
      (exceeded : String → ℕ → List Error → Error) (clock : Clock) (w : W) (x : WorkflowRow)
      → find_workflow id db ≡ some x
      → is_cancelled x.status ≡ false
      → Replays db start n0 p n
      → run_body s se own exceeded id clock start n0 db w
        ≡ run_body s se own exceeded id clock p n db w
  unfolding run_body
  Replays-run_body own exceeded clock w x known live here = refl
  Replays-run_body {db} own exceeded clock w x known live
        (then {o} {fn} {k} {n} {r} row before found named reads) =
      let once =
        run_step-replayed own exceeded clock o fn n db w (recorded_of row)
          (check_found id (suc n) o.step_name db x row known live found named) in
      rw (Replays-run_body own exceeded clock w x known live before, once, reads) refl
