-- ===== src/Execution/Replay.antt =====
-- A step that was recorded is replayed, whether it returned or raised.
use dbos_workload.Execution.{after_recorded, put_step}
use dbos_workload.Prelude.{sym}
use dbos_workload.Steps.Recorded.{check-record}
use dbos_workload.Execution.{
  StepOptions, call_step, is_preempted, record_step_result, invoke_step, run_unless,
}
use dbos_workload.Prelude.{List, false}
use dbos_workload.Schema.{SysDb}
use dbos_workload.Steps.{check_operation_execution, record_operation_result}
use dbos_workload.Steps.Call.{UserCode}
use dbos_workload.Execution.{error_row, value_row}
use dbos_workload.Execution.{raise_read, step_replayed, step_row}
use dbos_workload.Prelude.{ap, none, some, subst}
use dbos_workload.Serialization.{Serializers, serialize_value}
use dbos_workload.Serialization.Roundtrip.{
  AllReadBack, NamesAgree, deserialize_value-serialize_value,
}
use dbos_workload.Steps.{OperationResult}
use dbos_workload.Steps.Call.{step_result}
use dbos_workload.Steps.Recorded.{replayed}
use dbos_workload.Transaction.{Error, Result, err, ok}
use dbos_workload.Prelude.{String, ◌≡◌, Option, ℕ, refl}

module _ {V : Type 0} (s : Serializers V) (se : Serializers Error) where
  -- The codecs read back what a step returned or raised.
  abbrev pub IsReadBack : Result V → Type 0
  IsReadBack (ok v) = AllReadBack s v × NamesAgree s v
  IsReadBack (err e) = AllReadBack se e × NamesAgree se e

module _ {V : Type 0} (s : Serializers V) (se : Serializers Error) (id : String) (n : ℕ)
    (name : String) (start : ℕ) where
  -- The row of an outcome is of this step, and reads as the outcome.
  abbrev pub IsRowOf : Result V → OperationResult → Type 0
  IsRowOf r res =
      (res.workflow_uuid ≡ id)
      × (res.function_id ≡ n)
      × (res.function_name ≡ name)
      × (step_replayed s se (replayed res) ≡ r)

  value_row-IsRowOf :
      (v : V) (x : Result (String × String)) (res : OperationResult)
      → AllReadBack s v
      → NamesAgree s v
      → serialize_value s v none ≡ x
      → value_row s se id n name start x ≡ ok res
      → IsRowOf (ok v) res
  value_row-IsRowOf v (err e) res back agree written made = cc
  value_row-IsRowOf v (ok (text, format)) res back agree written made =
      let row = step_result id n name (some text) (some format) start in
      let same : row ≡ res = cc in
      subst (IsRowOf (ok v)) same (
        refl,
        refl,
        refl,
        deserialize_value-serialize_value s v back agree none text format written,
      )

  error_row-IsRowOf :
      (e : Error) (x : Result (String × String)) (res : OperationResult)
      → AllReadBack se e
      → NamesAgree se e
      → serialize_value se e none ≡ x
      → error_row s se id n name start x ≡ ok res
      → IsRowOf (err e) res
  error_row-IsRowOf e (err e') res back agree written made = cc
  error_row-IsRowOf e (ok (text, format)) res back agree written made =
      let row = record (step_result id n name none (some format) start) { error = some text } in
      let same : row ≡ res = cc in
      subst (IsRowOf (err e)) same (
        refl,
        refl,
        refl,
        ap (raise_read s se)
            (deserialize_value-serialize_value se e back agree none text format written),
      )

  pub step_row-IsRowOf :
      (r : Result V) (res : OperationResult)
      → IsReadBack s se r
      → step_row s se id n name start r ≡ ok res
      → IsRowOf r res
  step_row-IsRowOf (ok v) res (back, agree) made =
      value_row-IsRowOf v (serialize_value s v none) res back agree refl made
  step_row-IsRowOf (err e) res (back, agree) made =
      error_row-IsRowOf e (serialize_value se e none) res back agree refl made

module _ {V : Type 0} (s : Serializers V) (se : Serializers Error) (own : Option String)
    (id : String) (n : ℕ) (name : String) (start now : ℕ) where
  after_recorded-ok :
      (r : Result V) (x : Result (Unit {0}) × SysDb)
      → x.0 ≡ ok tt
      → after_recorded s se own id n name start now r x ≡ (r, x.1)
  after_recorded-ok r (ok u, db) h = refl
  after_recorded-ok r (err e, db) h = cc

  record_step_result-ok :
      (r : Result V) (res : OperationResult) (db : SysDb)
      → is_preempted r ≡ false
      → step_row s se id n name start r ≡ ok res
      → (record_operation_result own res now db).0 ≡ ok tt
      → record_step_result s se own id n name start now r db
        ≡ (r, (record_operation_result own res now db).1)
  unfolding record_step_result
  record_step_result-ok r res db kept made done = rw kept (
      subst
        (λ x.
          put_step s se own id n name start now r x db
          ≡ (r, (record_operation_result own res now db).1))
        (sym made) (after_recorded-ok r (record_operation_result own res now db) done))

-- A step that finds nothing to replay, and is recorded, returns or raises what its attempts do.
pub invoke_step-recorded :
    {V W : Type 0} (s : Serializers V) (se : Serializers Error) (own : Option String)
    (o : StepOptions) (exceeded : ℕ → List Error → Error) (id : String) (n start now : ℕ)
    (fn : UserCode W V) (db : SysDb) (w : W) (r : Result V) (res : OperationResult)
    → check_operation_execution id n o.step_name db ≡ ok none
    → (call_step o exceeded fn w).0 ≡ r
    → is_preempted r ≡ false
    → step_row s se id n o.step_name start r ≡ ok res
    → (record_operation_result own res now db).0 ≡ ok tt
    → invoke_step s se own o exceeded id n start now fn db w
      ≡ (r, (record_operation_result own res now db).1, (call_step o exceeded fn w).1)
unfolding invoke_step run_unless
invoke_step-recorded s se own o exceeded id n start now fn db w r res fresh tried kept made done =
    let put = record_step_result-ok s se own id n o.step_name start now r res db kept made done in
    rw (fresh, tried, put) refl

-- If a step finds nothing to replay, and what its attempts returned or raised is recorded without
-- an error, the step returns or raises just that. Running it again, with whatever code and options
-- under its name and in any world, returns or raises the same, runs nothing, and leaves the
-- database as it is. The outcome is neither the cancellation of the workflow nor a conflict, and
-- the codecs read back what they wrote.
pub invoke_step_once :
    {V W : Type 0} (s : Serializers V) (se : Serializers Error) (own : Option String)
    (o o' : StepOptions) (exceeded exceeded' : ℕ → List Error → Error) (id : String)
    (n start now start' now' : ℕ) (fn again : UserCode W V) (db : SysDb) (w w'' : W) (r : Result V)
    (res : OperationResult)
    → o'.step_name ≡ o.step_name
    → check_operation_execution id n o.step_name db ≡ ok none
    → (call_step o exceeded fn w).0 ≡ r
    → is_preempted r ≡ false
    → IsReadBack s se r
    → step_row s se id n o.step_name start r ≡ ok res
    → (record_operation_result own res now db).0 ≡ ok tt
    → (invoke_step s se own o exceeded id n start now fn db w
        ≡ (r, (record_operation_result own res now db).1, (call_step o exceeded fn w).1))
      × (invoke_step s se own o' exceeded' id n start' now' again
            (record_operation_result own res now db).1
            w''
          ≡ (r, (record_operation_result own res now db).1, w''))
unfolding invoke_step run_unless
invoke_step_once s se own o o' exceeded exceeded' id n start now start' now' fn again db w w'' r res
      named fresh tried kept back made done =
    let (of_id, of_n, of_name, reads) =
      step_row-IsRowOf s se id n o.step_name start r res back made in
    let db' = (record_operation_result own res now db).1 in
    let again_fresh : check_operation_execution res.workflow_uuid res.function_id res.function_name
          db
        ≡ ok none =
      cc in
    let recorded_once = check-record own res now db again_fresh done in
    let found : check_operation_execution id n o'.step_name db' ≡ ok (some (replayed res)) = cc in
    let first =
      invoke_step-recorded s se own o exceeded id n start now fn db w r res fresh tried kept made
        done in
    (first, rw (found, reads) refl)
