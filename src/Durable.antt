-- ===== src/Durable.antt =====
-- Durable execution: a workflow whose steps go through `run_step` of dbos/_core.py, with the step
-- numbers of `snapshot_step_ctx` (dbos/_context.py), and what an executor sees of it while it runs,
-- other executors and clients act on the database, and processes crash and start it again.
pub mod Replay
pub mod Recovery
mod Tests
use dbos_workload.Execution.{StepOptions, call_step, invoke_step, is_preempted, step_row}
use dbos_workload.Execution.Replay.{IsReadBack}
use dbos_workload.Operations.{Operation, run, spares}
use dbos_workload.Prelude.{List, false, none, some, suc, true}
use dbos_workload.Schema.{SysDb}
use dbos_workload.Serialization.{Serializers}
use dbos_workload.Steps.{
  OperationResult, RecordedResult, check_operation_execution, record_operation_result,
}
use dbos_workload.Steps.Call.{UserCode}
use dbos_workload.Transaction.{Error, Result, err, ok}
use dbos_workload.Prelude.{String, ◌≡◌, Option, ℕ}

-- The code of a workflow is the application's. It returns, or raises, or calls a step and goes on
-- with what the step returned or raised: it is deterministic in that, as workflows have to be.
pub data Program (V W : Type 0) : Type 0 where
  returns : V → Program V W
  raises : Error → Program V W
  calls : StepOptions → UserCode W V → (Result V → Program V W) → Program V W

-- The times at which the step of each number starts, and is recorded.
pub record Clock : Type 0 where
  pub started : ℕ → ℕ
  pub completed : ℕ → ℕ

module _ {V W : Type 0} (s : Serializers V) (se : Serializers Error) (own : Option String)
    (exceeded : String → ℕ → List Error → Error) (id : String) where
  -- `run_step` in the context of a workflow, where `n` is its `function_id`: the step takes the
  -- next number.
  unfoldable pub run_step :
      Clock → StepOptions → UserCode W V → ℕ → SysDb → W → ℕ × (Result V × SysDb × W)
  run_step clock o fn n db w = (
    suc n,
    invoke_step s se own o (exceeded o.step_name) id (suc n) (clock.started (suc n))
        (clock.completed (suc n)) fn db w,
  )

  -- The workflow's function from a point in it, to its end.
  unfoldable pub run_body : Clock → Program V W → ℕ → SysDb → W → Result V × SysDb × W
  run_body clock (returns v) n db w = (ok v, db, w)
  run_body clock (raises e) n db w = (err e, db, w)
  run_body clock (calls o fn k) n db w =
      let (n', (r, db', w')) = run_step clock o fn n db w in run_body clock (k r) n' db' w'

  -- The step `n` finds nothing to replay, and what its attempts return or raise is recorded: it is
  -- neither a cancellation nor a conflict, and the codecs read it back.
  pub record IsRecorded (clock : Clock) (o : StepOptions) (fn : UserCode W V) (n : ℕ) (db : SysDb)
      (w : W) (r : Result V) (res : OperationResult) : Type 0 where
    pub fresh : check_operation_execution id n o.step_name db ≡ ok none
    pub tried : (call_step o (exceeded o.step_name) fn w).0 ≡ r
    pub kept : is_preempted r ≡ false
    pub back : IsReadBack s se r
    pub made : step_row s se id n o.step_name (clock.started n) r ≡ ok res
    pub done : (record_operation_result own res (clock.completed n) db).0 ≡ ok tt

  -- Where the workflow of `start` may be, and with which database and world, after any of this:
  -- it runs a step that is recorded, or replays one; other executors and clients do any operation
  -- that does not delete the workflow, while the world moves on; the process crashes, and the
  -- workflow is started from the beginning.
  pub data Reaches (start : Program V W) : Program V W → ℕ → SysDb → W → Type 0 where
    starts : (db : SysDb) (w : W) → Reaches start start 0 db w
    records :
        {o : StepOptions} {fn : UserCode W V} {k : Result V → Program V W} {n n' : ℕ}
        {db db' : SysDb} {w w' : W} {r r' : Result V} {res : OperationResult} (clock : Clock)
        → Reaches start (calls o fn k) n db w
        → IsRecorded clock o fn (suc n) db w r res
        → run_step clock o fn n db w ≡ (n', (r', db', w'))
        → Reaches start (k r') n' db' w'
    replays :
        {o : StepOptions} {fn : UserCode W V} {k : Result V → Program V W} {n n' : ℕ}
        {db db' : SysDb} {w w' : W} {r : RecordedResult} {r' : Result V} (clock : Clock)
        → Reaches start (calls o fn k) n db w
        → check_operation_execution id (suc n) o.step_name db ≡ ok (some r)
        → run_step clock o fn n db w ≡ (n', (r', db', w'))
        → Reaches start (k r') n' db' w'
    others :
        {p : Program V W} {n : ℕ} {db : SysDb} {w : W} (op : Operation V) (by : Option String)
        (w' : W)
        → Reaches start p n db w
        → spares id op ≡ true
        → Reaches start p n (run s by op db) w'
    crashes :
        {p : Program V W} {n : ℕ} {db : SysDb} {w : W} (w' : W)
        → Reaches start p n db w
        → Reaches start start 0 db w'
