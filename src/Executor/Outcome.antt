-- ===== src/Executor/Outcome.antt =====
-- What an execution returns or raises is what is recorded of the workflow, and it is recorded
-- always, unless the workflow was cancelled.
use dbos_workload.Executor.{
  InvokedStatus, caught, returned, serialize_exception, or_plain, output_put, put_error, raised,
  serialize_exception_for_persistence,
}
use dbos_workload.Execution.{is_base_exception}
use dbos_workload.Prelude.{false, none, some, true, arith}
use dbos_workload.Schema.{Status, SysDb, WorkflowRow, is_cancelled}
use dbos_workload.Serialization.{Serializers}
use dbos_workload.Steps.{find_workflow}
use dbos_workload.Transaction.{
  Error, Result, awaited_workflow_cancelled, err, ok, workflow_cancelled, workflow_conflict_id,
}
use dbos_workload.Workflow.{finished, update_workflow_outcome}
use dbos_workload.Workflow.Lookup.{HasPrimaryKey}
use dbos_workload.Workflow.Outcome.{update_workflow_outcome_branches}
use dbos_workload.Prelude.{String, ◌≡◌, Option, ℕ, refl}

-- An exception is written, at least as the plain one that stands for it.
abbrev pub IsWritten : Result String → Type 0
IsWritten r = (text : String) × (r ≡ ok text)

-- Plain exceptions are written in each format that a workflow is recorded with.
abbrev pub PlainIsWritten : Serializers Error → (Error → Error) → Option String → Type 0
PlainIsWritten se plain format =
    (e : Error)
    → (written : String × String) × (serialize_exception se plain (plain e) format ≡ ok written)

module _ (se : Serializers Error) (plain : Error → Error) (format : Option String)
    (writes : PlainIsWritten se plain format) where
  or_plain-IsWritten :
      (e : Error) (x : Result (String × String)) → IsWritten (or_plain se plain e format x)
  or_plain-IsWritten e (ok (text, written)) = (text, refl)
  or_plain-IsWritten e (err e') = let ((text, written), made) = writes e in (text, rw made refl)

  pub exception-IsWritten :
      (e : Error) → IsWritten (serialize_exception_for_persistence se plain e format)
  unfolding serialize_exception_for_persistence
  exception-IsWritten e = or_plain-IsWritten e (serialize_exception se plain e format)

module _ {V : Type 0} (s : Serializers V) (se : Serializers Error) (plain : Error → Error)
    (st : InvokedStatus) (now : ℕ) where
  caught_put :
      (e : Error) (db : SysDb)
      → is_base_exception e ≡ false
      → caught s se plain st now e db
        ≡ put_error s se plain st now e
            (serialize_exception_for_persistence se plain e st.serialization)
            db
  unfolding caught
  caught_put (workflow_conflict_id id) db h = absurd (ground arith)
  caught_put (workflow_cancelled id) db h = absurd (ground arith)
  caught_put _ db h = refl

  raised_ok :
      (e : Error) (x : Result (Unit {0}) × SysDb)
      → x.0 ≡ ok tt
      → raised s se plain st now e x ≡ (returned (err e), x.1)
  raised_ok e (ok u, db) h = refl
  raised_ok e (err e', db) h = cc

  pub output_put_ok :
      (v : V) (x : Result (Unit {0}) × SysDb)
      → x.0 ≡ ok tt
      → output_put s se plain st now v x ≡ (returned (ok v), x.1)
  output_put_ok v (ok u, db) h = refl
  output_put_ok v (err e', db) h = cc

module _ {V : Type 0} (s : Serializers V) (se : Serializers Error) (plain : Error → Error)
    (st : InvokedStatus) (now : ℕ) (writes : PlainIsWritten se plain st.serialization) (db : SysDb)
    (x : WorkflowRow) (unique : HasPrimaryKey db)
    (found : find_workflow st.workflow_uuid db ≡ some x) where
  -- A cancelled workflow ends as cancelled, whatever is raised.
  pub caught-cancelled :
      (e : Error)
      → is_cancelled x.status ≡ true
      → is_base_exception e ≡ false
      → caught s se plain st now e db
        ≡ (returned (err (awaited_workflow_cancelled st.workflow_uuid)), db)
  caught-cancelled e c h =
      let (text, made) = exception-IsWritten se plain st.serialization writes e in
      let blocked =
        (update_workflow_outcome_branches st.workflow_uuid Status.error none (some text) now db x
            unique found).0
          c in
      rw (caught_put s se plain st now e db h, made, blocked) refl

  -- Otherwise the exception is recorded, and raised.
  pub caught_recorded :
      (e : Error)
      → is_cancelled x.status ≡ false
      → is_base_exception e ≡ false
      → (text : String) × (serialize_exception_for_persistence se plain e st.serialization
          ≡ ok text)
        × ((caught s se plain st now e db).0 ≡ returned (err e))
        × (find_workflow st.workflow_uuid (caught s se plain st now e db).1
            ≡ some (finished Status.error none (some text) now x))
  caught_recorded e c h =
      let (text, made) = exception-IsWritten se plain st.serialization writes e in
      let (done, after) =
        (update_workflow_outcome_branches st.workflow_uuid Status.error none (some text) now db x
            unique found).1
          c in
      let put =
        raised_ok s se plain st now e
          (update_workflow_outcome st.workflow_uuid Status.error none (some text) now db) done in
      let eq = caught_put s se plain st now e db h in
      (text, made, rw (eq, made, put) refl, rw (eq, made, put) after)
