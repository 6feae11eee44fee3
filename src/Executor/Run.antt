-- ===== src/Executor/Run.antt =====
-- `_execute_workflow_wthread` and `_execute_workflow_async` of dbos/_core.py: an execution of a
-- workflow in this process. The set of active workflows is a part of what the workflow's function
-- sees and may change while it runs, as other threads do that start and end executions meanwhile.
pub mod Exclusive
pub mod Denied
pub mod Recovered
mod Tests
use dbos_workload.Executor.{
  Body, ExecutionEnd, InvokedStatus, awaits, persist, put_error, returned,
  serialize_exception_for_persistence,
}
use dbos_workload.Executor.Active.{ActiveWorkflows, acquire, release}
use dbos_workload.Executor.Roles.{check_required_roles}
use dbos_workload.Prelude.{Bool, List, false, none, some, true}
use dbos_workload.Schema.{SysDb}
use dbos_workload.Serialization.{Serializers}
use dbos_workload.Transaction.{Error, Result, err, key_error, ok}
use dbos_workload.Prelude.{String, Option, ℕ}

module _ {V W : Type 0} (s : Serializers V) (se : Serializers Error) (plain : Error → Error)
    (st : InvokedStatus) (now : ℕ) where
  abbrev pub released :
      Option ActiveWorkflows
      → ExecutionEnd V
      → ActiveWorkflows
      → SysDb
      → W
      → ExecutionEnd V × ActiveWorkflows × SysDb × W
  released none ended m db w = (returned (err key_error), m, db, w)
  released (some m') ended m db w = (ended, m', db, w)

  -- `finally`: the workflow is taken out of the set that its function left. An execution of the owner
  -- that goes on to await another's result has done so by then.
  abbrev pub leave :
      ExecutionEnd V × SysDb × (ActiveWorkflows × W) → ExecutionEnd V × ActiveWorkflows × SysDb × W
  leave (ended, db, (m, w)) = released (release st.workflow_uuid m) ended m db w

  abbrev pub run_owned :
      Body (ActiveWorkflows × W) V
      → Bool × ActiveWorkflows
      → SysDb
      → W
      → ExecutionEnd V × ActiveWorkflows × SysDb × W
  run_owned body (false, m) db w = (awaits, m, db, w)
  run_owned body (true, m) db w = leave (persist s se plain st now body db (m, w))

  -- _check_required_roles_or_finalize_error, and what follows it.
  abbrev pub run_authorized :
      Body (ActiveWorkflows × W) V
      → Result (Option String)
      → ActiveWorkflows
      → SysDb
      → W
      → ExecutionEnd V × ActiveWorkflows × SysDb × W
  run_authorized body (err e) m db w =
      let (ended, db') =
        put_error s se plain st now e
          (serialize_exception_for_persistence se plain e st.serialization) db in
      (ended, m, db', w)
  run_authorized body (ok role) m db w =
      run_owned body (acquire st.workflow_uuid st.queue_name st.queue_partition_key m) db w

  unfoldable pub execute_workflow :
      Option (List String)
      → Option (List String)
      → Option (List String)
      → Body (ActiveWorkflows × W) V
      → ActiveWorkflows
      → SysDb
      → W
      → ExecutionEnd V × ActiveWorkflows × SysDb × W
  execute_workflow of_class of_function authenticated body m db w =
      run_authorized body (check_required_roles of_class of_function authenticated) m db w
