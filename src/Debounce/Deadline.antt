-- ===== src/Debounce/Deadline.antt =====
-- What a bounce does to the workflow that holds its key.
use dbos_workload.Debounce.{
  Bounce, BounceAction, DebounceResult, bounced_row, can_bounce, capped_delay, holds_key, held_by,
  none, bounced,
}
use dbos_workload.Prelude.{
  Bool, List, String, [], arith, false, inl, inr, refl, some, true, ℕ, ◌∷◌, ◌≡◌, ◌≤◌, ◌↔◌,
}
use dbos_workload.Prelude.{Option-cases, is_some}
use dbos_workload.Schema.{SysDb, WorkflowRow, is_delayed}
use dbos_workload.Steps.{find_workflow}
use dbos_workload.Transaction.{ok}
use dbos_workload.Workflow.Lookup.{find_workflow-update}
use dbos_workload.Table.Laws.{update_where-absent}
use dbos_workload.Table.{find_row, any_where}
use dbos_workload.Debounce.{debounce_delayed_workflow, answer_bounce, classify_bounce}

module _ (p : WorkflowRow → Bool) where
  find_row-any_where : (rs : List WorkflowRow) → is_some (find_row p rs) ≡ any_where p rs
  unfolding find_row any_where
  find_row-any_where [] = refl
  find_row-any_where (r ∷ rs) = ground (arith, find_row-any_where rs)

holds_key-can_bounce :
    (b : Bounce) (rs : List WorkflowRow)
    → any_where (can_bounce b) rs ≡ true
    → any_where (holds_key b) rs ≡ true
unfolding any_where
holds_key-can_bounce b [] h = h
holds_key-can_bounce b (r ∷ rs) h = ground (arith, holds_key-can_bounce b rs)

-- A bounce answers, and what its caller then does is decided by the rows that hold the key: it
-- returns the bounced workflow exactly if a debounced workflow of that name is DELAYED under the
-- key, and enqueues a new one exactly if no row holds the key; and if nothing is bounced, the
-- database is as it was.
pub debounce_delayed_workflow-classify_bounce :
    (b : Bounce) (now : ℕ) (db : SysDb)
    → (result : DebounceResult) × ((debounce_delayed_workflow b now db).0 ≡ ok result)
      × ((classify_bounce result b.workflow_name ≡ BounceAction.return)
          ↔ (any_where (can_bounce b) db.workflow_status ≡ true))
      × ((classify_bounce result b.workflow_name ≡ BounceAction.enqueue)
          ↔ (any_where (holds_key b) db.workflow_status ≡ false))
      × (any_where (can_bounce b) db.workflow_status ≡ false
          → (debounce_delayed_workflow b now db).1 ≡ db)
unfolding debounce_delayed_workflow classify_bounce answer_bounce
debounce_delayed_workflow-classify_bounce b now db =
    let bounces = find_row-any_where (can_bounce b) db.workflow_status in
    let held = find_row-any_where (holds_key b) db.workflow_status in
    let holds = holds_key-can_bounce b db.workflow_status in
    let kept = update_where-absent (can_bounce b) (bounced_row b now) db.workflow_status in
    elim (Option-cases (find_row (can_bounce b) db.workflow_status)) [
      | inl e ↦ elim (Option-cases (find_row (holds_key b) db.workflow_status)) [
        | inl free ↦ (held_by none, ground arith, ground arith, ground arith, ground (arith, kept))
        | inr (holder, taken) ↦
            (held_by (some holder), ground arith, ground arith, ground arith, ground (arith, kept))
      ]
      | inr (r, e) ↦ (bounced r, ground arith, ground arith, ground arith, ground arith)
    ]

-- A workflow that is bounced has the new inputs and stays DELAYED, until the requested time at the
-- latest, and never past its debounce deadline, if it has one.
pub debounce_delayed_workflow_deadline :
    (b : Bounce) (now : ℕ) (db : SysDb) (id : String) (r : WorkflowRow)
    → find_workflow id db ≡ some r
    → can_bounce b r ≡ true
    → (x : WorkflowRow) × (until : ℕ) × (find_workflow id (debounce_delayed_workflow b now db).1
        ≡ some x)
      × (x.delay_until_epoch_ms ≡ some until)
      × (until ≤ b.delay_until_epoch_ms)
      × ((deadline : ℕ) → r.debounce_deadline_epoch_ms ≡ some deadline → until ≤ deadline)
      × (x.inputs ≡ some b.inputs)
      × (is_delayed x.status ≡ true)
unfolding debounce_delayed_workflow answer_bounce
debounce_delayed_workflow_deadline b now db id r found bounces =
    let after = find_workflow-update id (can_bounce b) (bounced_row b now) db r (λ x. refl) found in
    (
      bounced_row b now r,
      capped_delay b.delay_until_epoch_ms r.debounce_deadline_epoch_ms,
      ground arith,
      refl,
      ground arith,
      (λ deadline e. ground arith),
      refl,
      ground arith,
    )
