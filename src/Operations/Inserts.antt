-- ===== src/Operations/Inserts.antt =====
-- Starting, dequeuing, forking and deleting workflows keep every other workflow.
use dbos_workload.Start.{Started}
use dbos_workload.Start.{give_up}
use dbos_workload.Dequeue.{
  QueueConfig, append_started, dequeued, is_enqueued_as, limiter_stops, num_recent_queries,
  start_each, start_one, start_queued_workflows, start_row,
}
use dbos_workload.Fork.{
  fork_entries, fork_workflow, forked_row, insert_forks, insert_new, mark_forked, returning,
  statuses_of,
}
use dbos_workload.Fork.Entries.{
  ForkEntry, ForkOptions, copied_steps, copies_steps, copy_tables, zip,
}
use dbos_workload.Operations.Evolution.{
  Evolves, Evolves-insert, Evolves-refl, Evolves-steps, Evolves-trans, Evolves-update,
}
use dbos_workload.Operations.Keeping.{
  Evolves-begin, Keeps, Within, continued, Keeps-after, Keeps-bind, Keeps-execute, Keeps-if,
}
use dbos_workload.Prelude.{
  Bool, Bool-cases, List, [], and-true_split, compares_nat, compares_option, compares_text, eq_iff,
  false, if◌then◌else◌, inl, inr, is_some, length, map, mem, none, not, some, true, ◌&&◌, ◌==◌,
  ◌||◌, ◌∷◌,
}
use dbos_workload.Schema.{SysDb, WorkflowRow, is_complete, is_pending}
use dbos_workload.Start.{
  NewWorkflow, after_upsert, dead_letter, exceeds, fresh_row, init_workflow, insert_workflow,
  insert_workflow_status, limit_of, restarted_row, same_function, upsert,
}
use dbos_workload.Steps.{by_step, by_uuid, find_workflow}
use dbos_workload.Table.{any_where, select}
use dbos_workload.Table.Distinct.{Distinct-delete_where}
use dbos_workload.Table.Laws.{find_row-delete_where}
use dbos_workload.Transaction.{
  Conn, Result, begin, commit, err, execute, lift, max_recovery_attempts, ok, queue_deduplicated,
  raise,
}
use dbos_workload.Workflow.{delete_workflows, update_workflows}
use dbos_workload.Workflow.Lookup.{same_dedup, same_uuid}
use dbos_workload.Prelude.{String, ◌≡◌, Option, ℕ, refl}
use dbos_workload.Transaction.{◌>>◌}
use dbos_workload.Operations.Transitions.{here, one, dequeue, exhaust}

module _ (id : String) (base : SysDb) where
  module _ (w : NewWorkflow) (limit : Option ℕ) (owner_xid : Option String) where
    Keeps-inserted :
        (now : ℕ) (taken : Bool) (c : Conn)
        → find_workflow w.workflow_uuid c.work ≡ none
        → Within id base c
        → Within id base
            ((if taken
                then raise (queue_deduplicated w.workflow_uuid w.queue_name w.deduplication_id)
                else execute (insert_workflow (fresh_row w owner_xid now)))
              c).1
    Keeps-inserted now true c fresh h = h
    Keeps-inserted now false c fresh h =
        (Evolves-trans h.0 (Evolves-insert (fresh_row w owner_xid now) c.work fresh), h.1)

    Keeps-upsert :
        (force : Bool) (now : ℕ) (o : Option WorkflowRow) (c : Conn)
        → find_workflow w.workflow_uuid c.work ≡ o
        → Within id base c
        → Within id base (upsert w owner_xid force now o c).1
    unfolding upsert
    Keeps-upsert force now (some old) c found h =
        Keeps-execute id base
          (update_workflows (by_uuid w.workflow_uuid) (restarted_row w force now))
          (λ d.
            Evolves-update (by_uuid w.workflow_uuid) (restarted_row w force now) d (λ x. refl)
              (λ x e. (here, refl)))
          c h
    Keeps-upsert force now none c found h =
        Keeps-inserted now
          (any_where (same_dedup (fresh_row w owner_xid now)) c.work.workflow_status) c found h

    abbrev is_given_up : WorkflowRow → Bool
    is_given_up r = r.workflow_uuid == w.workflow_uuid && is_pending r.status

    Keeps-given_up : Keeps id base (give_up w.workflow_uuid limit)
    unfolding give_up
    Keeps-given_up =
        Keeps-after id base {A = Started} (update_workflows is_given_up dead_letter)
          (commit >> raise (max_recovery_attempts w.workflow_uuid (limit_of limit)))
          (λ d.
            Evolves-update is_given_up dead_letter d (λ x. refl)
              (λ x e. (
                one (exhaust ((and-true_split (x.workflow_uuid == w.workflow_uuid) _ e).1)),
                refl,
              )))
          (λ c h. (h.0, h.0))

    Keeps-row :
        (recovery dequeued : Bool) (o : Option WorkflowRow)
        → Keeps id base (after_upsert w limit owner_xid recovery dequeued o)
    unfolding after_upsert
    Keeps-row recovery dequeued none = λ c h. h
    Keeps-row recovery dequeued (some r) =
        Keeps-if id base (not (same_function w r)) _ _ (λ c h. h)
          (Keeps-if id base
            (not (is_complete r.status)
              && exceeds limit r.recovery_attempts
              && not (owner_xid == r.owner_xid))
            _ _ Keeps-given_up (λ c h. h))

Evolves-copies :
    (id : String) (o : ForkOptions) (es : List ForkEntry) (db : SysDb)
    → Evolves id db (copy_tables o es db)
unfolding copy_tables
Evolves-copies id o es db =
    Evolves-steps (copied_steps o es db.operation_outputs) db (copy_tables o es db) refl refl

module _ (id : String) (db : SysDb) where
  pub Evolves-init :
      (w : NewWorkflow) (limit : Option ℕ) (owner_xid : Option String) (recovery dequeued : Bool)
      (now : ℕ)
      → Evolves id db (init_workflow w limit owner_xid recovery dequeued now db).1
  unfolding init_workflow insert_workflow_status
  Evolves-init w limit owner_xid recovery dequeued now =
      Evolves-begin id db (insert_workflow_status w limit owner_xid recovery dequeued now) (λ c h.
        let found = find_workflow w.workflow_uuid c.work in
        let put = upsert w owner_xid (recovery || dequeued) now found c in
        continued id db put.0 _ put.1
          (λ u d.
            Keeps-row id db w limit owner_xid recovery dequeued
              (find_workflow w.workflow_uuid d.work) d)
          (Keeps-upsert id db w limit owner_xid (recovery || dequeued) now found c refl h))

  Evolves-insert_new :
      (r : WorkflowRow) (o : Option WorkflowRow) (c : Conn)
      → find_workflow r.workflow_uuid c.work ≡ o
      → Within id db c
      → Within id db (insert_new r o c).1
  unfolding insert_new
  Evolves-insert_new r none c fresh h = (Evolves-trans h.0 (Evolves-insert r c.work fresh), h.1)
  Evolves-insert_new r (some old) c found h = h

  Keeps-forks :
      (o : ForkOptions) (now : ℕ) (ps : List (ForkEntry × WorkflowRow))
      → Keeps id db (insert_forks o now ps)
  unfolding insert_forks
  Keeps-forks o now [] = λ c h. h
  Keeps-forks o now ((e, status) ∷ ps) = λ c h.
      let row = forked_row o e now status in
      let put = insert_new row (find_workflow e.fork c.work) c in
      continued id db put.0 _ put.1 (λ u. Keeps-forks o now ps)
        (Evolves-insert_new row (find_workflow e.fork c.work) c refl h)

  Keeps-fork_entries :
      (o : ForkOptions) (ids : List String) (es : List ForkEntry) (now : ℕ)
      → Keeps id db (fork_entries o ids es now)
  unfolding fork_entries
  Keeps-fork_entries o ids es now c =
      let copies = copy_tables o (select copies_steps es) in
      Keeps-bind id db (lift (statuses_of es c.work)) _ (λ d w. w)
        (λ statuses.
          Keeps-bind id db (insert_forks o now statuses) _ (Keeps-forks o now statuses) (λ u.
            Keeps-after id db (mark_forked ids) (execute copies)
              (λ d.
                Evolves-update (λ r. mem r.workflow_uuid ids)
                  (λ r. record r { was_forked_from = true }) d (λ x. refl) (λ x e. (here, refl)))
              (Keeps-execute id db copies (Evolves-copies id o (select copies_steps es)))))
        c

  Evolves-returning :
      {A : Type 0} (a : A) (r : Result (Unit {0}) × SysDb)
      → Evolves id db r.1
      → Evolves id db (returning a r).1
  unfolding returning
  Evolves-returning a (ok u, d) h = h
  Evolves-returning a (err e, d) h = h

  pub Evolves-fork :
      (o : ForkOptions) (ids forks : List String) (steps : List ℕ) (now : ℕ)
      → Evolves id db (fork_workflow o ids forks steps now db).1
  unfolding fork_workflow
  Evolves-fork o [] forks steps now = Evolves-refl
  Evolves-fork o (j ∷ ids) forks steps now =
      elim (Bool-cases
        (not (length (j ∷ ids) == length forks) || not (length (j ∷ ids) == length steps))) [
          | inl e ↦ rw e Evolves-refl
          | inr e ↦ rw e (
              let es = zip (j ∷ ids) forks steps in
              let m = fork_entries o (j ∷ ids) es now in
              Evolves-returning forks (begin m db)
                (Evolves-begin id db m (Keeps-fork_entries o (j ∷ ids) es now)))
        ]

  module _ (q : QueueConfig) (executor version : String) (start now : ℕ) where
    Evolves-start_one :
        (j : String) (d : SysDb) → Evolves id d (start_one q executor version start now j d)
    Evolves-start_one j d =
        Evolves-update (is_enqueued_as j) (start_row executor version start now (is_some q.limiter))
          d (λ x. refl)
          (λ x e. (one (dequeue ((and-true_split (x.workflow_uuid == j) _ e).1)), refl))

    Evolves-start_each :
        (recent : ℕ) (ids ret_ids : List String) (d : SysDb)
        → Evolves id d (start_each q executor version start now recent ret_ids ids d).1
    unfolding start_each
    Evolves-start_each recent [] ret_ids d = Evolves-refl
    Evolves-start_each recent (j ∷ ids) ret_ids d =
        let d1 = start_one q executor version start now j d in
        elim (Bool-cases (limiter_stops q.limiter recent (length ret_ids))) [
          | inl e ↦ rw e Evolves-refl
          | inr e ↦ rw e (
              Evolves-trans (Evolves-start_one j d)
                (Evolves-start_each recent ids (append_started ret_ids j d) d1))
        ]

  pub Evolves-dequeue :
      (q : QueueConfig) (executor version : String) (key : Option String) (local start now : ℕ)
      → Evolves id db (start_queued_workflows q executor version key local start now db).1
  unfolding start_queued_workflows
  Evolves-dequeue q executor version key local start now =
      let recent = num_recent_queries q key start db in
      elim (Bool-cases (limiter_stops q.limiter recent 0)) [
        | inl e ↦ rw e Evolves-refl
        | inr e ↦ rw e (
            Evolves-start_each q executor version start now recent
              (map (λ r. r.workflow_uuid) (dequeued q key version local db)) [] db)
      ]

  spared :
      (ids : List String) (x : String) → mem id ids ≡ false → (x == id) ≡ true → mem x ids ≡ false
  spared ids x h e = rw ((eq_iff x id).0 e) h

  pub Evolves-delete :
      (ids : List String) → mem id ids ≡ false → Evolves id db (delete_workflows ids db)
  unfolding delete_workflows
  Evolves-delete ids h = record {
    rows = λ r found. (
      r,
      rw
          (find_row-delete_where (by_uuid id) (λ r. mem r.workflow_uuid ids) db.workflow_status
            (λ x e. spared ids x.workflow_uuid h e))
          found,
      (here, refl),
    );
    steps = λ n o found.
        rw
          (find_row-delete_where (by_step id n) (λ r. mem r.workflow_uuid ids) db.operation_outputs
            (λ x e. spared ids x.workflow_uuid h (and-true_split (x.workflow_uuid == id) _ e).0))
          found;
    key = Distinct-delete_where same_uuid (λ r. mem r.workflow_uuid ids) db.workflow_status;
  }
