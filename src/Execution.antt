-- ===== src/Execution.antt =====
-- Running a step of a workflow: `invoke_step` of dbos/_core.py, with the retries of
-- dbos/_outcome.py. Synchronous and asynchronous steps are the same here, as nothing runs in
-- between. Logs and spans are left out; waits are what the code would sleep, in milliseconds.
pub mod Attempts
pub mod Replay
mod Tests
use dbos_workload.Prelude.{true, ◌||◌}
use dbos_workload.Schema.{SysDb}
use dbos_workload.Serialization.{Serializers, deserialize_value, serialize_value}
use dbos_workload.Steps.{
  OperationResult, RecordedResult, check_operation_execution, record_operation_result,
}
use dbos_workload.Steps.Call.{step_result}
use dbos_workload.Transaction.{workflow_cancelled}
use dbos_workload.Transaction.{assertion, dbos_exception}
use dbos_workload.Prelude.{
  Bool, List, [], compares_nat, compares_option, compares_text, false, if◌then◌else◌, min, none,
  not, some, suc, zero, ◌++◌, ◌==◌, ◌∷◌,
}
use dbos_workload.Steps.Call.{UserCode}
use dbos_workload.Transaction.{Error, Result, err, ok}
use dbos_workload.Prelude.{String, ◌≡◌, Option, ℕ, refl}

-- The options of a step. `pause` is what an attempt is followed by, before it is capped.
pub record StepOptions : Type 0 where
  pub step_name : String
  pub retries_allowed : Bool
  pub max_attempts : ℕ
  pub pause : ℕ → ℕ
  pub should_retry : Option (Error → Bool)

-- One hour.
abbrev pub max_retry_interval : ℕ
max_retry_interval = 3600000

-- on_exception
abbrev pub wait_time : StepOptions → ℕ → ℕ
wait_time o attempt = min (o.pause attempt) max_retry_interval

-- The exceptions that are no `Exception`, which `except Exception` lets through.
abbrev pub is_base_exception : Error → Bool
is_base_exception (Error.workflow_cancelled id) = true
is_base_exception (Error.workflow_conflict_id id) = true
is_base_exception _ = false

abbrev pub is_final : StepOptions → Error → Bool
is_final o e =
    is_base_exception e || elim o.should_retry [ none ↦ false | some retries ↦ not (retries e) ]

-- `i == attempts - 1`
abbrev pub is_last : ℕ → Bool
is_last zero = true
is_last (suc left) = false

-- What the attempts return or raise, the world after them, and the waits between them.
abbrev pub Tried : Type 0 → Type 0 → Type 0
Tried W V = Result V × W × List ℕ

abbrev pub after_wait : {V W : Type 0} → ℕ → Result V × W × List ℕ → Result V × W × List ℕ
after_wait wait (r, w, waits) = (r, w, wait ∷ waits)

module _ {V W : Type 0} (o : StepOptions) (exceeded : ℕ → List Error → Error)
    (fn : UserCode W V) where
  -- The attempt `i`, of which `left` more may follow; `errors` are those of the attempts before.
  -- The attempts that follow are computed by `rest`, from the errors and the world.
  unfoldable pub attempted :
      ℕ → ℕ → List Error → Result V × W → (List Error → W → Tried W V) → Tried W V
  attempted left i errors (ok v, w) rest = (ok v, w, [])
  attempted left i errors (err e, w) rest =
      if is_final o e
      then (err e, w, [])
      else if is_last left
      then (err (exceeded (suc i) (errors ++ (e ∷ []))), w, [])
      else after_wait (wait_time o i) (rest (errors ++ (e ∷ [])) w)

  unfoldable pub retry_from : ℕ → ℕ → List Error → W → Tried W V
  retry_from zero i errors w = attempted 0 i errors (fn w) (λ es w'. (err (exceeded i es), w', []))
  retry_from (suc left) i errors w = attempted (suc left) i errors (fn w) (retry_from left (suc i))

  -- Outcome.retry, which asserts that there is an attempt.
  unfoldable pub retry : ℕ → W → Tried W V
  unfolding retry_from attempted
  retry zero w = (err assertion, w, [])
  retry (suc left) w = retry_from left 0 [] w

  -- `if retries_allowed`
  unfoldable pub call_step : W → Tried W V
  unfolding retry retry_from attempted
  call_step w = if o.retries_allowed then retry o.max_attempts w else ((fn w).0, (fn w).1, [])

abbrev pub is_preempted : {V : Type 0} → Result V → Bool
is_preempted (ok v) = false
is_preempted (err e) = is_base_exception e

-- `se` reads and writes exceptions, with the portable JSON of their data (serialize_exception).
module _ {V : Type 0} (s : Serializers V) (se : Serializers Error) (id : String) (n : ℕ)
    (name : String) (start : ℕ) where
  abbrev pub value_row : Result (String × String) → Result OperationResult
  value_row (err e) = err e
  value_row (ok (text, format)) = ok (step_result id n name (some text) (some format) start)

  abbrev pub error_row : Result (String × String) → Result OperationResult
  error_row (err e) = err e
  error_row (ok (text, format)) =
      ok (record (step_result id n name none (some format) start) { error = some text })

  -- What is recorded of what the attempts returned or raised.
  abbrev pub step_row : Result V → Result OperationResult
  step_row (ok v) = value_row (serialize_value s v none)
  step_row (err e) = error_row (serialize_value se e none)

module _ {V : Type 0} (s : Serializers V) (se : Serializers Error) where
  abbrev pub raise_read : Result Error → Result V
  raise_read (ok e) = err e
  raise_read (err e) = err e

  -- check_existing_result, where there is one.
  abbrev pub step_replayed : RecordedResult → Result V
  step_replayed r = elim r.error [
    | some text ↦ raise_read (deserialize_value se (some text) r.serialization)
    | none ↦ elim r.output [
      | some text ↦ deserialize_value s (some text) r.serialization
      | none ↦ err dbos_exception
    ]
  ]

module _ {V : Type 0} (s : Serializers V) (se : Serializers Error) (own : Option String)
    (id : String) (n : ℕ) (name : String) (start now : ℕ) where
  abbrev pub after_recorded : Result V → Result (Unit {0}) × SysDb → Result V × SysDb
  after_recorded r (ok u, db) = (r, db)
  after_recorded r (err e, db) = (err e, db)

  abbrev pub put_step : Result V → Result OperationResult → SysDb → Result V × SysDb
  put_step r (err e) db = (err e, db)
  put_step r (ok res) db = after_recorded r (record_operation_result own res now db)

  -- A preempted step, or one with a conflict, is not recorded, so that it runs again when the
  -- workflow is resumed.
  unfoldable pub record_step_result : Result V → SysDb → Result V × SysDb
  record_step_result r db =
      if is_preempted r then (r, db) else put_step r (step_row s se id n name start r) db

module _ {V W : Type 0} (s : Serializers V) (se : Serializers Error) (own : Option String)
    (o : StepOptions) (exceeded : ℕ → List Error → Error) (id : String) (n start now : ℕ) where
  abbrev with_world : W → Result V × SysDb → Result V × SysDb × W
  with_world w (r, db) = (r, db, w)

  unfoldable pub run_unless :
      UserCode W V → Result (Option RecordedResult) → SysDb → W → Result V × SysDb × W
  run_unless fn (err e) db w = (err e, db, w)
  run_unless fn (ok (some r)) db w = (step_replayed s se r, db, w)
  run_unless fn (ok none) db w =
      let tried = call_step o exceeded fn w in
      with_world tried.1 (record_step_result s se own id n o.step_name start now tried.0 db)

  unfoldable pub invoke_step : UserCode W V → SysDb → W → Result V × SysDb × W
  unfolding run_unless
  invoke_step fn db w = run_unless fn (check_operation_execution id n o.step_name db) db w
