-- ===== src/Executor/Recovery/Poisoned.antt =====
-- A workflow that can never be started ends as ERROR, and is not recovered again.
use dbos_workload.Execution.{is_base_exception}
use dbos_workload.Executor.{serialize_exception_for_persistence}
use dbos_workload.Executor.Outcome.{PlainIsWritten, exception-IsWritten}
use dbos_workload.Executor.Recovery.{
  FunctionInfo, Registry, deserialize_args, end_workflow, execute_workflow_by_id, raise_written,
  validated,
}
use dbos_workload.Operations.{failed}
use dbos_workload.Operations.Rows.{Evolves-finish}
use dbos_workload.Prelude.{
  Bool, Bool-cases, List, eq_iff, inl, inr, ◌∙◌, [], ◌∷◌, ◌==◌, ◌&&◌, arith, compares_option,
  compares_text, false, map, matches, mem, none, some, true,
}
use dbos_workload.Prelude.{String, ◌≡◌, Option, ℕ, refl}
use dbos_workload.Schema.{Status, SysDb, WorkflowRow, is_cancelled, is_pending}
use dbos_workload.Serialization.{Serializers}
use dbos_workload.Steps.{find_workflow}
use dbos_workload.Table.{any_where, select}
use dbos_workload.Transaction.{Error, Result, err, ok, recorded, recovery_error}
use dbos_workload.Workflow.{
  check_workflow_result, finished, get_pending_workflows, update_workflow_outcome,
}
use dbos_workload.Workflow.Lookup.{HasPrimaryKey, any_where-find_row}
use dbos_workload.Workflow.Outcome.{update_workflow_outcome_branches}

-- The IDs of the workflows that an executor has to recover.
abbrev pub pending_ids : String → String → SysDb → List String
pending_ids executor version db = map (λ p. p.0) (get_pending_workflows executor version db)

listed :
    (id : String) (q : WorkflowRow → Bool) (rs : List WorkflowRow)
    → mem id (
        map
          (λ (p : String × Option String). p.0)
          (map (λ (r : WorkflowRow). (r.workflow_uuid, r.queue_name)) (select q rs)))
      ≡ any_where (λ r. r.workflow_uuid == id && q r) rs
unfolding select any_where
listed id q [] = refl
listed id q (r ∷ rs) =
    let later = listed id q rs in
    let there = eq_iff r.workflow_uuid id in
    let here = eq_iff id r.workflow_uuid in
    elim (Bool-cases (q r)) [ inl e ↦ rw e (ground arith) | inr e ↦ rw e (ground arith) ]

-- A workflow whose row is not PENDING is not among them.
not_pending :
    (id executor version : String) (db : SysDb) (x : WorkflowRow)
    → HasPrimaryKey db
    → find_workflow id db ≡ some x
    → is_pending x.status ≡ false
    → mem id (pending_ids executor version db) ≡ false
unfolding get_pending_workflows
not_pending id executor version db x unique found over =
    let q : WorkflowRow → Bool = λ r.
      is_pending r.status
      && matches r.executor_id executor
      && matches r.application_version version in
    let q_false : q x ≡ false = ground arith in
    listed id q db.workflow_status
    ∙ any_where-find_row id q db.workflow_status x unique found
    ∙ q_false

error_read :
    {V : Type 0} (reader : Serializers V) (id text : String) (now : ℕ) (db : SysDb)
    (r : WorkflowRow)
    → find_workflow id db ≡ some (finished Status.error none (some text) now r)
    → check_workflow_result reader id db ≡ some (err (recorded text r.serialization))
unfolding check_workflow_result
error_read reader id text now db r there = ground arith

module _ {A : Type 0} (s : Serializers A) (registry : Registry A) (se : Serializers Error)
    (plain : Error → Error) (now : ℕ) where
  raise_written_ok :
      (e : Error) (x : Result (Unit {0}) × SysDb)
      → x.0 ≡ ok tt
      → raise_written s registry se plain now e x ≡ (err e, x.1)
  raise_written_ok e (ok u, db) h = refl
  raise_written_ok e (err e', db) h = cc

  -- What ends a workflow instead of starting it: an ID without a name, arguments that cannot be
  -- read, or that the validation of its function refuses, with an Exception.
  pub data Poisoned (id : String) (r : WorkflowRow) : Error → Type 0 where
    blank : registry.is_blank id ≡ true → Poisoned id r recovery_error
    unreadable :
        {e : Error}
        → registry.is_blank id ≡ false
        → deserialize_args s registry r.inputs r.serialization ≡ err e
        → is_base_exception e ≡ false
        → Poisoned id r e
    refused :
        {e : Error} {inputs : Option A} {info : FunctionInfo A}
        → registry.is_blank id ≡ false
        → deserialize_args s registry r.inputs r.serialization ≡ ok inputs
        → registry.functions r.name ≡ some info
        → validated s registry info r.serialization inputs ≡ err e
        → is_base_exception e ≡ false
        → Poisoned id r e

  ends :
      {id : String} {r : WorkflowRow} {e : Error} (db : SysDb)
      → find_workflow id db ≡ some r
      → Poisoned id r e
      → execute_workflow_by_id s registry se plain now id db
        ≡ end_workflow s registry se plain now id e r.serialization db
  unfolding execute_workflow_by_id
  ends db found (blank b) = rw (found, b) refl
  ends db found (unreadable b bad plain_error) = rw (found, b, bad, plain_error) refl
  ends db found (refused b read known bad plain_error) =
      rw (found, b, read, known, bad, plain_error) refl

  -- A workflow that its ID, its arguments or their validation keep from being started, with an error
  -- that is neither a cancellation nor a conflict, raises that error when it is recovered, whoever reads its result gets the error, and no executor finds it
  -- among the workflows to recover afterwards. It is not cancelled, the ID is the primary key, and
  -- plain exceptions can be written.
  pub execute_workflow_by_id-Poisoned :
      {V : Type 0} (reader : Serializers V) {id : String} {r : WorkflowRow} {e : Error} (db : SysDb)
      → HasPrimaryKey db
      → find_workflow id db ≡ some r
      → is_cancelled r.status ≡ false
      → PlainIsWritten se plain r.serialization
      → Poisoned id r e
      → let (result, after) = execute_workflow_by_id s registry se plain now id db in
        (result ≡ err e)
        × ((text : String) × (serialize_exception_for_persistence se plain e r.serialization
              ≡ ok text)
            × (check_workflow_result reader id after ≡ some (err (recorded text r.serialization))))
        × ((executor version : String) → mem id (pending_ids executor version after) ≡ false)
  unfolding end_workflow
  execute_workflow_by_id-Poisoned reader {id} {r} {e} db unique found live writes poisoned =
      let (text, made) = exception-IsWritten se plain r.serialization writes e in
      let written = update_workflow_outcome id Status.error none (some text) now db in
      let (done, there) =
        (update_workflow_outcome_branches id Status.error none (some text) now db r unique found).1
          live in
      let unique' = (Evolves-finish "" db id failed none (some text) now).key unique in
      let put = raise_written_ok e written done in
      rw (ends db found poisoned, made, put)
        (
          refl,
          (text, refl, error_read reader id text now written.1 r there),
          λ executor version.
              not_pending id executor version written.1
                (finished Status.error none (some text) now r) unique' there refl,
        )
