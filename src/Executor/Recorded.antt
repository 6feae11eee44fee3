-- ===== src/Executor/Recorded.antt =====
-- What a workflow's function returns or raises is recorded as the workflow's result.
use dbos_workload.Executor.{
  Body, InvokedStatus, caught, persist, returned, serialize_exception_for_persistence,
  write_outcome,
}
use dbos_workload.Executor.Outcome.{
  PlainIsWritten, caught-cancelled, caught_recorded, output_put_ok,
}
use dbos_workload.Execution.{is_base_exception}
use dbos_workload.Prelude.{false, none, some, true, arith}
use dbos_workload.Schema.{Status, SysDb, WorkflowRow, is_cancelled, is_complete}
use dbos_workload.Serialization.{Serializers, deserialize_value, serialize_value_as}
use dbos_workload.Serialization.Roundtrip.{AllReadBack, deserialize_value_as_asked}
use dbos_workload.Steps.{find_workflow}
use dbos_workload.Transaction.{Error, Result, awaited_workflow_cancelled, err, ok, recorded}
use dbos_workload.Workflow.{check_workflow_result, finished, update_workflow_outcome}
use dbos_workload.Workflow.Lookup.{HasPrimaryKey}
use dbos_workload.Workflow.Outcome.{update_workflow_outcome_branches}
use dbos_workload.Prelude.{String, ◌≡◌, Option, ℕ, refl}

module _ {V : Type 0} (s : Serializers V) (se : Serializers Error) (plain : Error → Error)
    (format : Option String) where
  -- A value is written, in a way that the codecs read back. Exceptions are always written.
  abbrev pub IsPersistable : Result V → Type 0
  IsPersistable (ok v) =
      AllReadBack s v × (written : String × String) × (serialize_value_as s v format ≡ ok written)
  IsPersistable (err e) = is_base_exception e ≡ false

  -- The result that whoever awaits the workflow gets.
  abbrev pub IsRecordedAs : Result V → Option (Result V) → Type 0
  IsRecordedAs (ok v) found = found ≡ some (ok v)
  IsRecordedAs (err e) found =
      (text : String) × (serialize_exception_for_persistence se plain e format ≡ ok text)
      × (found ≡ some (err (recorded text format)))

module _ {V : Type 0} (s : Serializers V) (se : Serializers Error) (plain : Error → Error)
    (st : InvokedStatus) (now : ℕ) (writes : PlainIsWritten se plain st.serialization) (db : SysDb)
    (x : WorkflowRow) (unique : HasPrimaryKey db)
    (found : find_workflow st.workflow_uuid db ≡ some x) where
  result-success :
      (text : String) (after : SysDb) (v : V)
      → x.serialization ≡ st.serialization
      → deserialize_value s (some text) st.serialization ≡ ok v
      → find_workflow st.workflow_uuid after ≡ some (finished Status.success (some text) none now x)
      → check_workflow_result s st.workflow_uuid after ≡ some (ok v)
  unfolding check_workflow_result
  result-success text after v same reads there = ground arith

  result-error :
      (text : String) (after : SysDb)
      → x.serialization ≡ st.serialization
      → find_workflow st.workflow_uuid after ≡ some (finished Status.error none (some text) now x)
      → check_workflow_result s st.workflow_uuid after ≡ some (err (recorded text st.serialization))
  unfolding check_workflow_result
  result-error text after same there = ground arith

  pub write_outcome_records :
      (r : Result V)
      → x.serialization ≡ st.serialization
      → is_cancelled x.status ≡ false
      → IsPersistable s se plain st.serialization r
      → ((write_outcome s se plain st now r db).0 ≡ returned r)
        × IsRecordedAs s se plain st.serialization r
            (check_workflow_result s st.workflow_uuid (write_outcome s se plain st now r db).1)
  unfolding write_outcome
  write_outcome_records (err e) same c h =
      let (text, made, raises, after) =
        caught_recorded s se plain st now writes db x unique found e c h in
      (raises, (text, made, result-error text (caught s se plain st now e db).1 same after))
  write_outcome_records (ok v) same c (back, (text, name), made) =
      let (done, after) =
        (update_workflow_outcome_branches st.workflow_uuid Status.success (some text) none now db x
            unique found).1
          c in
      let db' = update_workflow_outcome st.workflow_uuid Status.success (some text) none now db in
      let put = output_put_ok s se plain st now v db' done in
      let reads = deserialize_value_as_asked s v back st.serialization (text, name) made in
      (rw (made, put) refl, rw (made, put) (result-success text db'.1 v same reads after))

  write_outcome-cancelled :
      (r : Result V)
      → is_cancelled x.status ≡ true
      → IsPersistable s se plain st.serialization r
      → write_outcome s se plain st now r db
        ≡ (returned (err (awaited_workflow_cancelled st.workflow_uuid)), db)
  unfolding write_outcome
  write_outcome-cancelled (err e) c h =
      caught-cancelled s se plain st now writes db x unique found e c h
  write_outcome-cancelled (ok v) c (back, (text, name), made) =
      let blocked =
        (update_workflow_outcome_branches st.workflow_uuid Status.success (some text) none now db x
            unique found).0
          c in
      let raises =
        caught-cancelled s se plain st now writes db x unique found
          (awaited_workflow_cancelled st.workflow_uuid) c refl in
      rw (made, blocked) raises

module _ {V W : Type 0} (s : Serializers V) (se : Serializers Error) (plain : Error → Error)
    (st : InvokedStatus) (now : ℕ) where
  pub persist_runs :
      (body : Body W V) (db : SysDb) (w : W) (r : Result V) (db' : SysDb) (w' : W)
      → is_complete st.status ≡ false
      → body db w ≡ (r, db', w')
      → persist s se plain st now body db w
        ≡ ((write_outcome s se plain st now r db').0, (write_outcome s se plain st now r db').1, w')
  unfolding persist
  persist_runs body db w r db' w' fresh ran = rw (fresh, ran) refl

  -- The execution of a workflow that is not complete yet, whose function returns or raises, and
  -- which is not cancelled then, returns or raises the same, and whoever reads the workflow's
  -- result afterwards gets it: the value that was returned, or the exception as it was written, in
  -- the format of the workflow. The value is written and read back by the codecs, the exception is
  -- neither a cancellation nor a conflict, and plain exceptions can be written; the workflow has a
  -- row, in the format that its execution was given, and the ID is the primary key.
  pub persist_records :
      (body : Body W V) (db : SysDb) (w : W) (r : Result V) (db' : SysDb) (w' : W) (x : WorkflowRow)
      → is_complete st.status ≡ false
      → body db w ≡ (r, db', w')
      → HasPrimaryKey db'
      → find_workflow st.workflow_uuid db' ≡ some x
      → x.serialization ≡ st.serialization
      → is_cancelled x.status ≡ false
      → PlainIsWritten se plain st.serialization
      → IsPersistable s se plain st.serialization r
      → let (ended, after, world) = persist s se plain st now body db w in
        (ended ≡ returned r)
        × (world ≡ w')
        × IsRecordedAs s se plain st.serialization r
            (check_workflow_result s st.workflow_uuid after)
  persist_records body db w r db' w' x fresh ran unique found same live writes h =
      let (ends, known) =
        write_outcome_records s se plain st now writes db' x unique found r same live h in
      rw (persist_runs body db w r db' w' fresh ran) (ends, refl, known)

  -- If the workflow is cancelled when its function returns or raises, its execution raises
  -- DBOSAwaitedWorkflowCancelledError and writes nothing more. The function did not raise a
  -- conflict or the cancellation itself, and what it returned or raised could be written.
  pub persist-cancelled :
      (body : Body W V) (db : SysDb) (w : W) (r : Result V) (db' : SysDb) (w' : W) (x : WorkflowRow)
      → is_complete st.status ≡ false
      → body db w ≡ (r, db', w')
      → HasPrimaryKey db'
      → find_workflow st.workflow_uuid db' ≡ some x
      → is_cancelled x.status ≡ true
      → PlainIsWritten se plain st.serialization
      → IsPersistable s se plain st.serialization r
      → persist s se plain st now body db w
        ≡ (returned (err (awaited_workflow_cancelled st.workflow_uuid)), db', w')
  persist-cancelled body db w r db' w' x fresh ran unique found stopped writes h =
      let ends = write_outcome-cancelled s se plain st now writes db' x unique found r stopped h in
      rw (persist_runs body db w r db' w' fresh ran, ends) refl
