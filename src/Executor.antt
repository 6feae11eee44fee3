-- ===== src/Executor.antt =====
-- The end of a workflow's execution: `_get_wf_invoke_func` of dbos/_core.py, which runs the
-- workflow's function and writes its outcome, and `_serialize_exception_for_persistence`.
-- Functions with and without `async` are the same here. Logs and spans are left out.
pub mod Active
pub mod Outcome
pub mod Recorded
pub mod Recovery
pub mod Roles
pub mod Run
mod Tests
use dbos_workload.Prelude.{some, none, if◌then◌else◌}
use dbos_workload.Schema.{SysDb, Status, is_complete}
use dbos_workload.Serialization.{Serializers, serialize_value_as}
use dbos_workload.Transaction.{
  Error, Result, err, ok, awaited_workflow_cancelled, workflow_cancelled, workflow_conflict_id,
}
use dbos_workload.Workflow.{check_workflow_result, update_workflow_outcome}
use dbos_workload.Prelude.{String, Option, ℕ, List, [], ◌∷◌}

-- What these functions read of a WorkflowStatusInternal.
pub record InvokedStatus : Type 0 where
  pub workflow_uuid : String
  pub status : Status
  pub serialization : Option String
  pub queue_name : Option String
  pub queue_partition_key : Option String

-- How an execution ends: it returns or raises, or goes on to await the result that another
-- execution records.
pub data ExecutionEnd (V : Type 0) : Type 0 where
  returned : Result V → ExecutionEnd V
  awaits : ExecutionEnd V

-- The workflow's function, with the steps it runs.
abbrev pub Body : Type 0 → Type 0 → Type 0
Body W V = SysDb → W → Result V × SysDb × W

-- await_workflow_result, where `dbs` are the databases that its polls see; `none` while it polls.
unfoldable pub await_workflow_result :
    {V : Type 0} → Serializers V → String → List SysDb → Option (Result V)
await_workflow_result s id [] = none
await_workflow_result s id (db ∷ dbs) =
    let rest = await_workflow_result s id dbs in
    elim (check_workflow_result s id db) [ none ↦ rest | some r ↦ some r ]

-- `se` writes exceptions, with the portable JSON of their data; `plain` makes the plain Exception
-- that stands for one that cannot be written.
module _ (se : Serializers Error) (plain : Error → Error) where
  abbrev pub serialize_exception : Error → Option String → Result (String × String)
  serialize_exception e none = serialize_value_as se e (some se.own_name)
  serialize_exception e (some format) = serialize_value_as se e (some format)

  abbrev pub text_of : Result (String × String) → Result String
  text_of (ok (text, format)) = ok text
  text_of (err e) = err e

  abbrev pub or_plain : Error → Option String → Result (String × String) → Result String
  or_plain e format (ok (text, written)) = ok text
  or_plain e format (err e') = text_of (serialize_exception (plain e) format)

  unfoldable pub serialize_exception_for_persistence : Error → Option String → Result String
  serialize_exception_for_persistence e format = or_plain e format (serialize_exception e format)

module _ {V : Type 0} (s : Serializers V) (se : Serializers Error) (plain : Error → Error)
    (st : InvokedStatus) (now : ℕ) where
  -- What the handler of an exception raises: the exception, or what writing it raised.
  abbrev pub raised : Error → Result (Unit {0}) × SysDb → ExecutionEnd V × SysDb
  raised e (ok u, db) = (returned (err e), db)
  raised e (err e', db) = (returned (err e'), db)

  abbrev pub put_error : Error → Result String → SysDb → ExecutionEnd V × SysDb
  put_error e (err e') db = (returned (err e'), db)
  put_error e (ok text) db =
      raised e (update_workflow_outcome st.workflow_uuid Status.error none (some text) now db)

  -- The `except` clauses.
  unfoldable pub caught : Error → SysDb → ExecutionEnd V × SysDb
  caught (workflow_conflict_id id) db = (awaits, db)
  caught (workflow_cancelled id) db =
      (returned (err (awaited_workflow_cancelled st.workflow_uuid)), db)
  caught e db = put_error e (serialize_exception_for_persistence se plain e st.serialization) db

  abbrev pub output_put : V → Result (Unit {0}) × SysDb → ExecutionEnd V × SysDb
  output_put v (ok u, db) = (returned (ok v), db)
  output_put v (err e, db) = caught e db

  abbrev pub put_output : V → Result (String × String) → SysDb → ExecutionEnd V × SysDb
  put_output v (err e) db = caught e db
  put_output v (ok (text, format)) db =
      output_put v (update_workflow_outcome st.workflow_uuid Status.success (some text) none now db)

  unfoldable pub write_outcome : Result V → SysDb → ExecutionEnd V × SysDb
  unfolding caught
  write_outcome (ok v) db = put_output v (serialize_value_as s v st.serialization) db
  write_outcome (err e) db = caught e db

  abbrev pub after_body : {W : Type 0} → Result V × SysDb × W → ExecutionEnd V × SysDb × W
  after_body (r, db, w) = let (ended, db') = write_outcome r db in (ended, db', w)

  unfoldable pub persist : {W : Type 0} → Body W V → SysDb → W → ExecutionEnd V × SysDb × W
  unfolding write_outcome
  persist body db w = if is_complete st.status then (awaits, db, w) else after_body (body db w)
