-- ===== src/Steps/Children.antt =====
-- The child that a step of a workflow started.
use dbos_workload.Prelude.{
  String, arith, compares_option, compares_text, false, inl, inr, ℕ, ◌==◌, ◌≡◌, ◌≢◌, eq_refl,
  eq_iff,
}
use dbos_workload.Prelude.{Option-cases}
use dbos_workload.Schema.{SysDb}
use dbos_workload.Steps.{child_row, find_step}
use dbos_workload.Steps.Recorded.{find_step-insert_step}
use dbos_workload.Transaction.{err, ok, workflow_conflict_id}
use dbos_workload.Steps.{record_child_workflow, insert_child, insert_referring}

-- A child workflow that was recorded at a step can be recorded there again, with no effect; and
-- recording another one there, of a nonempty ID, raises the conflict error and changes nothing.
pub record_child_workflow_once :
    (parent child other : String) (n : ℕ) (name name' : String) (db db' : SysDb)
    → record_child_workflow parent child n name db ≡ (ok tt, db')
    → (other == "") ≡ false
    → other ≢ child
    → (record_child_workflow parent child n name' db' ≡ (ok tt, db'))
      × (record_child_workflow parent other n name' db' ≡ (err (workflow_conflict_id parent), db'))
unfolding record_child_workflow insert_child insert_referring
record_child_workflow_once parent child other n name name' db db' done named differs =
    elim (Option-cases (find_step parent n db)) [
      | inl fresh ↦
          let found = find_step-insert_step (child_row parent child n name) db fresh in
          (
            ground (arith, found, eq_refl child, done),
            ground (arith, found, eq_iff child other, done),
          )
      | inr (row, e) ↦ elim (Option-cases row.child_workflow_id) [
        | inl c ↦ (ground arith, ground arith)
        | inr (old, c) ↦
            (ground (arith, eq_iff old child), ground (arith, eq_iff old child, eq_iff old other))
      ]
    ]
