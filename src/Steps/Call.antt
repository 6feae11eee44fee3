-- ===== src/Steps/Call.antt =====
-- Functions of dbos/_sys_db.py that run user code as a checkpointed step: `call_function_as_step`,
-- `call_coroutine_as_step` (the same with awaits) and `call_txn_as_step`, and the patch markers.
pub mod Replay
pub mod Patched
mod Tests
use dbos_workload.Prelude.{
  ℕ, String, Bool, true, false, Option, none, some, ◌==◌, compares_text, compares_option,
  if◌then◌else◌,
}
use dbos_workload.Schema.{OperationRow, SysDb}
use dbos_workload.Transaction.{
  Error, recorded, dbos_exception, assertion, Result, ok, err, Tx, ◌>>=◌, ◌>>◌, pure, raise, lift,
  query, begin,
}
use dbos_workload.Serialization.{Serializers, serialize_value, deserialize_value}
use dbos_workload.Steps.{
  OperationResult, RecordedResult, find_step, record_operation_result_txn, record_operation_result,
  check_operation_execution, check_operation_execution_txn,
}

-- What these functions read of a DBOSContext: `workflow` is the workflow's ID and the step number,
-- if the context is a workflow's.
pub record StepContext : Type 0 where
  pub is_transaction : Bool
  pub workflow : Option (String × ℕ)

-- User code acts on a world outside the database, and returns or raises.
abbrev pub UserCode : Type 0 → Type 0 → Type 0
UserCode W V = W → Result V × W

abbrev pub step_result : String → ℕ → String → Option String → Option String → ℕ → OperationResult
step_result id n name output serialization start = record {
  workflow_uuid = id;
  function_id = n;
  function_name = name;
  output = output;
  error = none;
  serialization = serialization;
  started_at_epoch_ms = some start;
}

module _ {V : Type 0} (s : Serializers V) where
  -- A recorded error is raised again, as the text that stands for it.
  replay_recorded : RecordedResult → Result V
  replay_recorded r = elim r.output [
    | some text ↦ deserialize_value s (some text) r.serialization
    | none ↦ elim r.error [
      | some text ↦ err (recorded text r.serialization)
      | none ↦ err dbos_exception
    ]
  ]

module _ {V W : Type 0} (s : Serializers V) (own : Option String) where
  finish : V → Result (Unit {0}) × SysDb → W → Result V × SysDb × W
  finish v (ok u, db) w = (ok v, db, w)
  finish v (err e, db) w = (err e, db, w)

  record_serialized :
      String → ℕ → String → ℕ → ℕ → V → Result (String × String) → SysDb → W → Result V × SysDb × W
  record_serialized id n name start now v (err e) db w = (err e, db, w)
  record_serialized id n name start now v (ok (text, format)) db w =
      finish v
        (record_operation_result own (step_result id n name (some text) (some format) start) now db)
        w

  -- An exception of the user code is not recorded here: it propagates.
  record_returned : String → ℕ → String → ℕ → ℕ → Result V × W → SysDb → Result V × SysDb × W
  record_returned id n name start now (err e, w) db = (err e, db, w)
  record_returned id n name start now (ok v, w) db =
      record_serialized id n name start now v (serialize_value s v none) db w

  run_or_replay :
      String
      → ℕ
      → String
      → ℕ
      → ℕ
      → UserCode W V
      → Result (Option RecordedResult)
      → SysDb
      → W
      → Result V × SysDb × W
  run_or_replay id n name start now fn (err e) db w = (err e, db, w)
  run_or_replay id n name start now fn (ok (some r)) db w = (replay_recorded s r, db, w)
  run_or_replay id n name start now fn (ok none) db w =
      record_returned id n name start now (fn w) db

  -- Outside a workflow the function is called, and nothing is recorded.
  unrecorded : Result V × W → SysDb → Result V × SysDb × W
  unrecorded (r, w) db = (r, db, w)

  call_in : Option (String × ℕ) → UserCode W V → String → ℕ → ℕ → SysDb → W → Result V × SysDb × W
  call_in none fn name start now db w = unrecorded (fn w) db
  call_in (some (id, n)) fn name start now db w =
      run_or_replay id n name start now fn (check_operation_execution id n name db) db w

  -- `start` and `now` are the clock before the call and when its result is recorded.
  unfoldable pub call_function_as_step :
      StepContext → UserCode W V → String → ℕ → ℕ → SysDb → W → Result V × SysDb × W
  unfolding call_in unrecorded run_or_replay record_returned record_serialized finish
      replay_recorded
  call_function_as_step ctx fn name start now db w =
      if ctx.is_transaction
      then (err dbos_exception, db, w)
      else call_in ctx.workflow fn name start now db w

module _ {V : Type 0} (s : Serializers V) (own : Option String) where
  replay_txn : Option String → Tx V
  replay_txn none = raise assertion
  replay_txn (some text) = lift (s.own.deserialize text)

  run_txn : String → ℕ → String → ℕ → ℕ → Tx V → Option RecordedResult → Tx V
  run_txn id n name start now op (some r) = replay_txn r.output
  run_txn id n name start now op none = do
    result ← op
    text ← lift (s.own.serialize result)
    record_operation_result_txn own (step_result id n name (some text) none start) now
    pure result

  -- The check, the statements of `op` and the checkpoint are one transaction.
  unfoldable pub call_txn_as_step : String → ℕ → String → Tx V → ℕ → ℕ → SysDb → Result V × SysDb
  unfolding replay_txn run_txn
  call_txn_as_step id n name op start now =
      begin do r ← check_operation_execution_txn id n name; run_txn id n name start now op r

-- get_checkpoint_name
unfoldable pub get_checkpoint_name : String → ℕ → SysDb → Option String
get_checkpoint_name id n db = elim (find_step id n db) [
  | none ↦ none
  | some row ↦ some row.function_name
]

mark_patch : Option String → String → ℕ → String → ℕ → Option String → Tx Bool
mark_patch own id n patch_name now (some recorded_name) = pure (recorded_name == patch_name)
mark_patch own id n patch_name now none = do
  record_operation_result_txn own (step_result id n patch_name none none now) now
  pure true

unfoldable pub patch : Option String → String → ℕ → String → ℕ → SysDb → Result Bool × SysDb
unfolding get_checkpoint_name mark_patch record_operation_result_txn
patch own id n patch_name now = begin do
  checkpoint_name ← query (get_checkpoint_name id n)
  mark_patch own id n patch_name now checkpoint_name

unfoldable pub deprecate_patch : String → ℕ → String → SysDb → Bool
unfolding get_checkpoint_name
deprecate_patch id n patch_name db = get_checkpoint_name id n db == some patch_name
