-- ===== src/Executor/Run/Exclusive.antt =====
-- A process runs a workflow once at a time.
use dbos_workload.Executor.{Body, ExecutionEnd, InvokedStatus, after_body, awaits, persist}
use dbos_workload.Executor.Active.{ActiveWorkflows, acquire, has_key}
use dbos_workload.Executor.Active.Owned.{acquire-release, release-active}
use dbos_workload.Executor.Roles.{check_required_roles}
use dbos_workload.Executor.Run.{execute_workflow, leave, run_owned}
use dbos_workload.Prelude.{
  Bool, Bool-cases, List, Option, String, ap, compares_text, false, if◌then◌else◌, inl, inr, refl,
  sym, true, ℕ, ◌==◌, ◌∙◌, ◌≡◌,
}
use dbos_workload.Schema.{SysDb, is_complete}
use dbos_workload.Serialization.{Serializers}
use dbos_workload.Table.{any_where}
use dbos_workload.Transaction.{Error, Result, ok}

-- The set of active workflows while the workflow's function runs.
abbrev pub entered : InvokedStatus → ActiveWorkflows → ActiveWorkflows
entered st m = (acquire st.workflow_uuid st.queue_name st.queue_partition_key m).1

module _ {V W : Type 0} (s : Serializers V) (se : Serializers Error) (plain : Error → Error)
    (of_class of_function : Option (List String)) where
  module _ (st : InvokedStatus) (now : ℕ) (authenticated : Option (List String))
      (role : Option String)
      (allowed : check_required_roles of_class of_function authenticated ≡ ok role) where
    abbrev executed :
        Body (ActiveWorkflows × W) V
        → ActiveWorkflows
        → SysDb
        → W
        → ExecutionEnd V × ActiveWorkflows × SysDb × W
    executed = execute_workflow s se plain st now of_class of_function authenticated

    pub execute_workflow-active :
        (body : Body (ActiveWorkflows × W) V) (m : ActiveWorkflows) (db : SysDb) (w : W)
        → any_where (has_key st.workflow_uuid) m ≡ true
        → executed body m db w ≡ (awaits, m, db, w)
    unfolding execute_workflow
    execute_workflow-active body m db w h =
        rw (allowed, (acquire-release st.workflow_uuid st.queue_name st.queue_partition_key m).0 h)
          refl

    run_owned-true :
        (body : Body (ActiveWorkflows × W) V) (owned : Bool × ActiveWorkflows) (db : SysDb) (w : W)
        → owned.0 ≡ true
        → run_owned s se plain st now body owned db w
          ≡ leave s se plain st now (persist s se plain st now body db (owned.1, w))
    run_owned-true body (true, m) db w h = refl
    run_owned-true body (false, m) db w h = cc

    pub execute_workflow-inactive :
        (body : Body (ActiveWorkflows × W) V) (m : ActiveWorkflows) (db : SysDb) (w : W)
        → any_where (has_key st.workflow_uuid) m ≡ false
        → executed body m db w
          ≡ leave s se plain st now (persist s se plain st now body db (entered st m, w))
    unfolding execute_workflow
    execute_workflow-inactive body m db w h =
        let (owned, there, gone) =
          (acquire-release st.workflow_uuid st.queue_name st.queue_partition_key m).1 h in
        rw allowed (
          run_owned-true body (acquire st.workflow_uuid st.queue_name st.queue_partition_key m) db w
            owned)

    persist_same :
        (body body' : Body (ActiveWorkflows × W) V) (db : SysDb) (w : ActiveWorkflows × W)
        → body db w ≡ body' db w
        → persist s se plain st now body db w ≡ persist s se plain st now body' db w
    unfolding persist
    persist_same body body' db w same =
        ap (λ r. if is_complete st.status then (awaits, db, w) else after_body s se plain st now r)
          same

    -- The set of active workflows is one that the workflow's function leaves, or is unchanged.
    persist-active :
        (body : Body (ActiveWorkflows × W) V) (m : ActiveWorkflows) (db : SysDb) (w : W)
        → any_where (has_key st.workflow_uuid) m ≡ true
        → any_where (has_key st.workflow_uuid) (body db (m, w)).2.0 ≡ true
        → any_where (has_key st.workflow_uuid) (persist s se plain st now body db (m, w)).2.0 ≡ true
    unfolding persist
    persist-active body m db w there kept = elim (Bool-cases (is_complete st.status)) [
      | inl e ↦ rw e there
      | inr e ↦ rw e kept
    ]

    leave-active :
        (x : ExecutionEnd V × SysDb × (ActiveWorkflows × W))
        → any_where (has_key st.workflow_uuid) x.2.0 ≡ true
        → let (ended, m, db, w) = leave s se plain st now x in
          (ended ≡ x.0)
          × (db ≡ x.1)
          × (w ≡ x.2.1)
          × (any_where (has_key st.workflow_uuid) m ≡ false)
          × ((id : String)
              → (st.workflow_uuid == id) ≡ false
              → any_where (has_key id) m ≡ any_where (has_key id) x.2.0)
    leave-active (ended, db, (m, w)) there =
        let (m', gone, absent, others) = release-active st.workflow_uuid m there in
        rw gone (refl, refl, refl, absent, others)

  -- Executions of the same workflow that are attempted while its function runs: before it does
  -- anything, and when it is about to return.
  module _ (st rival : InvokedStatus) (now now' : ℕ) (authenticated users : Option (List String))
      (role role' : Option String) (other body : Body (ActiveWorkflows × W) V) where
    abbrev attempted : SysDb → ActiveWorkflows × W → SysDb × (ActiveWorkflows × W)
    attempted db (m, w) =
        let (ended, m', db', w') =
          execute_workflow s se plain rival now' of_class of_function users other m db w in
        (db', (m', w'))

    abbrev run_from : SysDb × (ActiveWorkflows × W) → Result V × SysDb × (ActiveWorkflows × W)
    run_from (db, w) = body db w

    abbrev and_attempt :
        Result V × SysDb × (ActiveWorkflows × W) → Result V × SysDb × (ActiveWorkflows × W)
    and_attempt (r, db, w) = let (db', w') = attempted db w in (r, db', w')

    abbrev pub with_rivals : Body (ActiveWorkflows × W) V
    with_rivals db w = and_attempt (run_from (attempted db w))

    module _ (allowed : check_required_roles of_class of_function authenticated ≡ ok role)
        (allowed' : check_required_roles of_class of_function users ≡ ok role')
        (same : rival.workflow_uuid ≡ st.workflow_uuid)
        (keeps : (db : SysDb) (m : ActiveWorkflows) (w : W)
          → any_where (has_key st.workflow_uuid) m ≡ true
          → any_where (has_key st.workflow_uuid) (body db (m, w)).2.0 ≡ true) where
      attempted-active :
          (m : ActiveWorkflows) (db : SysDb) (w : W)
          → any_where (has_key st.workflow_uuid) m ≡ true
          → attempted db (m, w) ≡ (db, (m, w))
      attempted-active m db w h =
          rw (execute_workflow-active rival now' users role' allowed' other m db w (rw same h)) refl

      with_rivals-active :
          (m : ActiveWorkflows) (db : SysDb) (w : W)
          → any_where (has_key st.workflow_uuid) m ≡ true
          → with_rivals db (m, w) ≡ body db (m, w)
      with_rivals-active m db w h =
          let ran = body db (m, w) in
          ap (λ x. and_attempt (run_from x)) (attempted-active m db w h)
          ∙ ap (λ (x : SysDb × (ActiveWorkflows × W)). (ran.0, x.0, x.1))
              (attempted-active ran.2.0 ran.1 ran.2.1 (keeps db m w h))

      entered-active :
          (m : ActiveWorkflows)
          → any_where (has_key st.workflow_uuid) m ≡ false
          → any_where (has_key st.workflow_uuid) (entered st m) ≡ true
      entered-active m h =
          ((acquire-release st.workflow_uuid st.queue_name st.queue_partition_key m).1 h).1

      with_rivals_same :
          (m : ActiveWorkflows) (db : SysDb) (w : W)
          → execute_workflow s se plain st now of_class of_function authenticated with_rivals m db w
            ≡ execute_workflow s se plain st now of_class of_function authenticated body m db w
      with_rivals_same m db w = elim (Bool-cases (any_where (has_key st.workflow_uuid) m)) [
        | inl h ↦
            execute_workflow-active st now authenticated role allowed with_rivals m db w h
            ∙ sym (execute_workflow-active st now authenticated role allowed body m db w h)
        | inr h ↦
            execute_workflow-inactive st now authenticated role allowed with_rivals m db w h
            ∙ ap (leave s se plain st now) (
                persist_same st now authenticated role allowed with_rivals body db (entered st m, w)
                  (with_rivals-active (entered st m) db w (entered-active m h)))
            ∙ sym (execute_workflow-inactive st now authenticated role allowed body m db w h)
      ]

      -- A process runs a workflow once at a time. Other executions of the workflow that are attempted
      -- in the process as its function begins and as it is about to return, for users who may run
      -- it and with whatever code, make no difference: their code is not run. While the workflow is
      -- active already, neither is that of this execution, and otherwise this one ends as `persist`
      -- does with the workflow in the set, and the workflow is not active afterwards, so that it can
      -- be run again; each other workflow is active if the function left it so. The function, and the
      -- threads beside it, do not take the workflow out of the set.
      pub execute_workflow_exclusive :
          (m : ActiveWorkflows) (db : SysDb) (w : W)
          → let ran = execute_workflow s se plain st now of_class of_function authenticated in
            (ran with_rivals m db w ≡ ran body m db w)
            × (any_where (has_key st.workflow_uuid) m ≡ true → ran body m db w ≡ (awaits, m, db, w))
            × (any_where (has_key st.workflow_uuid) m ≡ false
                → let (ended, after, (left, world)) =
                    persist s se plain st now body db (entered st m, w) in
                  let (ended', m', after', world') = ran body m db w in
                  (ended' ≡ ended)
                  × (after' ≡ after)
                  × (world' ≡ world)
                  × (any_where (has_key st.workflow_uuid) m' ≡ false)
                  × ((id : String)
                      → (st.workflow_uuid == id) ≡ false
                      → any_where (has_key id) m' ≡ any_where (has_key id) left))
      execute_workflow_exclusive m db w = (
        with_rivals_same m db w,
        execute_workflow-active st now authenticated role allowed body m db w,
        (λ h.
            let there = entered-active m h in
            let kept =
              persist-active st now authenticated role allowed body (entered st m) db w there
                (keeps db (entered st m) w there) in
            rw (execute_workflow-inactive st now authenticated role allowed body m db w h) (
              leave-active st now authenticated role allowed
                (persist s se plain st now body db (entered st m, w)) kept)),
      )
