-- ===== src/Executor/Run/Recovered.antt =====
-- A workflow that is executed again after a crash.
use dbos_workload.Durable.{Clock, Program, Reaches, run_body}
use dbos_workload.Durable.Recovery.{run_body_recovers}
use dbos_workload.Executor.{Body, ExecutionEnd, InvokedStatus, returned}
use dbos_workload.Executor.Active.{ActiveWorkflows, has_key}
use dbos_workload.Executor.Active.Owned.{acquire-release}
use dbos_workload.Executor.Outcome.{PlainIsWritten}
use dbos_workload.Executor.Recorded.{
  IsPersistable, IsRecordedAs, persist_runs, write_outcome_records,
}
use dbos_workload.Executor.Roles.{check_required_roles}
use dbos_workload.Executor.Run.{execute_workflow}
use dbos_workload.Executor.Run.Exclusive.{entered, execute_workflow-inactive}
use dbos_workload.Prelude.{List, Option, String, ap, false, refl, some, ℕ, ◌∙◌, ◌≡◌}
use dbos_workload.Schema.{SysDb, WorkflowRow, is_cancelled, is_complete}
use dbos_workload.Serialization.{Serializers}
use dbos_workload.Steps.{find_workflow}
use dbos_workload.Table.{any_where}
use dbos_workload.Transaction.{Error, Result, ok}
use dbos_workload.Workflow.{check_workflow_result}
use dbos_workload.Workflow.Lookup.{HasPrimaryKey}

-- A workflow's function beside which the set of active workflows does not change.
abbrev pub beside : {V W : Type 0} → Body W V → Body (ActiveWorkflows × W) V
beside body db (m, w) = let (r, db', w') = body db w in (r, db', (m, w'))

module _ {V W : Type 0} (s : Serializers V) (se : Serializers Error) (plain : Error → Error)
    (st : InvokedStatus) (now : ℕ) (of_class of_function authenticated : Option (List String))
    (role : Option String)
    (allowed : check_required_roles of_class of_function authenticated ≡ ok role) where
  abbrev Written :
      ActiveWorkflows → Result V → W → ExecutionEnd V × ActiveWorkflows × SysDb × W → Type 0
  Written m r w' (ended, m', after, world) =
      (ended ≡ returned r)
      × (m' ≡ m)
      × (world ≡ w')
      × IsRecordedAs s se plain st.serialization r (check_workflow_result s st.workflow_uuid after)

  -- An execution, from what its function does.
  execute_workflow-Written :
      (body : Body W V) (m : ActiveWorkflows) (db : SysDb) (w : W) (r : Result V) (db' : SysDb)
      (w' : W) (x : WorkflowRow)
      → any_where (has_key st.workflow_uuid) m ≡ false
      → is_complete st.status ≡ false
      → body db w ≡ (r, db', w')
      → HasPrimaryKey db'
      → find_workflow st.workflow_uuid db' ≡ some x
      → x.serialization ≡ st.serialization
      → is_cancelled x.status ≡ false
      → PlainIsWritten se plain st.serialization
      → IsPersistable s se plain st.serialization r
      → Written m r w' (
          execute_workflow s se plain st now of_class of_function authenticated
            (beside body)
            m
            db
            w)
  execute_workflow-Written body m db w r db' w' x free fresh ran unique found same live writes h =
      let (ends, known) =
        write_outcome_records s se plain st now writes db' x unique found r same live h in
      let (owned, there, gone) =
        (acquire-release st.workflow_uuid st.queue_name st.queue_partition_key m).1 free in
      let beside_ran : beside body db (entered st m, w) ≡ (r, db', (entered st m, w')) =
        ap (λ (x : Result V × SysDb × W). (x.0, x.1, (entered st m, x.2))) ran in
      rw
        (
          execute_workflow-inactive s se plain of_class of_function st now authenticated role
              allowed (beside body) m db w free,
          persist_runs s se plain st now (beside body) db (entered st m, w) r db' (entered st m, w')
              fresh beside_ran,
          gone,
        )
        (ends, refl, refl, known)

-- A workflow that crashed is executed again from the beginning: after any number of steps that are
-- recorded or replayed, of crashes, and of operations of others that do not delete it. If its
-- function, had it gone on from where it was, returns or raises a result in a database and a world,
-- then the execution returns or raises that result and leaves that world, its outcome is written,
-- so that whoever reads the workflow's result gets that result, and the set of active workflows is
-- as it was before. The workflow is neither complete, nor active in the process, nor cancelled before
-- or after its function runs; the user may run it; it has a row, in the format that its execution
-- was given, and the ID is the primary key; the result can be written and read back, and plain
-- exceptions can be written.
pub execute_workflow_recovers :
    {V W : Type 0} (s : Serializers V) (se : Serializers Error) (own : Option String)
    (exceeded : String → ℕ → List Error → Error) (plain : Error → Error) (st : InvokedStatus)
    (now : ℕ) (of_class of_function authenticated : Option (List String)) (role : Option String)
    {start p : Program V W} {n : ℕ} {db : SysDb} {w : W} (clock : Clock) (m : ActiveWorkflows)
    (w' w'' : W) (x y : WorkflowRow) (r : Result V) (db' : SysDb)
    → Reaches s se own exceeded st.workflow_uuid start p n db w
    → find_workflow st.workflow_uuid db ≡ some x
    → is_cancelled x.status ≡ false
    → check_required_roles of_class of_function authenticated ≡ ok role
    → any_where (has_key st.workflow_uuid) m ≡ false
    → is_complete st.status ≡ false
    → run_body s se own exceeded st.workflow_uuid clock p n db w' ≡ (r, db', w'')
    → HasPrimaryKey db'
    → find_workflow st.workflow_uuid db' ≡ some y
    → y.serialization ≡ st.serialization
    → is_cancelled y.status ≡ false
    → PlainIsWritten se plain st.serialization
    → IsPersistable s se plain st.serialization r
    → let (ended, m', after, world) =
        execute_workflow s se plain st now of_class of_function authenticated
          (beside (run_body s se own exceeded st.workflow_uuid clock start 0))
          m
          db
          w' in
      (ended ≡ returned r)
      × (m' ≡ m)
      × (world ≡ w'')
      × IsRecordedAs s se plain st.serialization r (check_workflow_result s st.workflow_uuid after)
execute_workflow_recovers s se own exceeded plain st now of_class of_function authenticated role
      {start} {p} {n} {db} clock m w' w'' x y r db' reached known live allowed free fresh ran unique
      found same going writes h =
    execute_workflow-Written s se plain st now of_class of_function authenticated role allowed
      (run_body s se own exceeded st.workflow_uuid clock start 0) m db w' r db' w'' y free fresh
      (run_body_recovers s se own exceeded st.workflow_uuid clock w' x reached known live ∙ ran)
      unique found same going writes h
