-- ===== src/Durable/Recovery.antt =====
-- A workflow that is started again goes on where it was.
use dbos_workload.Durable.{
  Clock, IsRecorded, Program, Reaches, crashes, others, records, replays, run_body, run_step,
  starts,
}
use dbos_workload.Durable.Replay.{
  Replays, Replays-Evolves, Replays-run_body, check_none, check_some, here, recorded_of,
  run_step-replayed, then,
}
use dbos_workload.Execution.{StepOptions, call_step, step_replayed}
use dbos_workload.Execution.Replay.{invoke_step-recorded, step_row-IsRowOf}
use dbos_workload.Operations.Checkpoints.{Evolves-record}
use dbos_workload.Operations.History.{Evolves-run}
use dbos_workload.Prelude.{List, false, none, some, suc, subst, sym, ap, ◌∙◌}
use dbos_workload.Schema.{SysDb, WorkflowRow, is_cancelled}
use dbos_workload.Serialization.{Serializers}
use dbos_workload.Steps.{
  OperationResult, find_step, find_workflow, operation_row, record_operation_result,
}
use dbos_workload.Steps.Call.{UserCode}
use dbos_workload.Steps.Recorded.{find_step-record}
use dbos_workload.Transaction.{Error, Result}
use dbos_workload.Prelude.{String, ◌≡◌, Option, ℕ, refl}

module _ {V W : Type 0} (s : Serializers V) (se : Serializers Error) (own : Option String)
    (exceeded : String → ℕ → List Error → Error) (id : String) where
  -- A step that is recorded has a row that reads as what it returned or raised.
  recorded_row :
      (clock : Clock) (o : StepOptions) (fn : UserCode W V) (n : ℕ) (db : SysDb) (w : W)
      (r : Result V) (res : OperationResult)
      → IsRecorded s se own exceeded id clock o fn n db w r res
      → (find_step id n (record_operation_result own res (clock.completed n) db).1
          ≡ some (operation_row res (clock.completed n)))
        × (res.function_name ≡ o.step_name)
        × (step_replayed s se (recorded_of (operation_row res (clock.completed n))) ≡ r)
  recorded_row clock o fn n db w r res h =
      let (of_id, of_n, of_name, reads) =
        step_row-IsRowOf s se id n o.step_name (clock.started n) r res h.back h.made in
      let fresh = check_none id n o.step_name db h.fresh in
      let missing : find_step res.workflow_uuid res.function_id db ≡ none =
        rw (of_id, of_n) fresh in
      let found = find_step-record own res (clock.completed n) db missing h.done in
      (cc, of_name, reads)

  run_step-recorded :
      (clock : Clock) (o : StepOptions) (fn : UserCode W V) (n : ℕ) (db : SysDb) (w : W)
      (r : Result V) (res : OperationResult)
      → IsRecorded s se own exceeded id clock o fn (suc n) db w r res
      → run_step s se own exceeded id clock o fn n db w ≡ (
        suc n,
        (
          r,
          (record_operation_result own res (clock.completed (suc n)) db).1,
          (call_step o (exceeded o.step_name) fn w).1,
        ),
      )
  unfolding run_step
  run_step-recorded clock o fn n db w r res h =
      rw
        (invoke_step-recorded s se own o (exceeded o.step_name) id (suc n) (clock.started (suc n))
          (clock.completed (suc n)) fn db w r res h.fresh h.tried h.kept h.made h.done)
        refl

  -- Every point that a workflow reaches is behind checkpoints that replay it from its start.
  Replays-Reaches :
      {start p : Program V W} {n : ℕ} {db : SysDb} {w : W}
      → Reaches s se own exceeded id start p n db w
      → Replays s se id db start 0 p n
  Replays-Reaches (starts db w) = here
  Replays-Reaches {start}
        (records {o} {fn} {k} {n} {n'} {db} {db'} {w} {w'} {r} {r'} {res} clock before h e) =
      let (found, named, reads) = recorded_row clock o fn (suc n) db w r res h in
      let known =
        Replays-Evolves s se id (Evolves-record id db own res (clock.completed (suc n)))
          (Replays-Reaches before) in
      subst (λ (x : ℕ × (Result V × SysDb × W)). Replays s se id x.1.1 start 0 (k x.1.0) x.0)
        (sym (run_step-recorded clock o fn n db w r res h) ∙ e)
        (then (operation_row res (clock.completed (suc n))) known found named reads)
  Replays-Reaches {start}
        (replays {o} {fn} {k} {n} {n'} {db} {db'} {w} {w'} {r} {r'} clock before found e) =
      let (row, kept, named, reads) = check_some id (suc n) o.step_name db r found in
      subst (λ (x : ℕ × (Result V × SysDb × W)). Replays s se id x.1.1 start 0 (k x.1.0) x.0)
        (sym (run_step-replayed s se id own exceeded clock o fn n db w r found) ∙ e)
        (then row (Replays-Reaches before) kept named (ap (step_replayed s se) reads))
  Replays-Reaches (others {p} {n} {db} {w} op by w' before spared) =
      Replays-Evolves s se id (Evolves-run s by id op db spared) (Replays-Reaches before)
  Replays-Reaches (crashes w' before) = here

  -- After any number of steps that are recorded or replayed, of crashes, and of operations of others
  -- that do not delete it, a workflow that has a row and is not cancelled, when it is run from the
  -- beginning in any world, ends just as if it went on from where it was: the steps before that point
  -- are replayed, not run.
  pub run_body_recovers :
      {start p : Program V W} {n : ℕ} {db : SysDb} {w : W} (clock : Clock) (w' : W)
      (x : WorkflowRow)
      → Reaches s se own exceeded id start p n db w
      → find_workflow id db ≡ some x
      → is_cancelled x.status ≡ false
      → run_body s se own exceeded id clock start 0 db w'
        ≡ run_body s se own exceeded id clock p n db w'
  run_body_recovers clock w' x reached known live =
      Replays-run_body s se id own exceeded clock w' x known live (Replays-Reaches reached)
