-- ===== src/Steps/Call/Patched.antt =====
-- The answer of a patch marker is stable.
use dbos_workload.Prelude.{Bool, Option, String, arith, inl, inr, none, ℕ, ◌≡◌, eq_refl}
use dbos_workload.Prelude.{Option-cases}
use dbos_workload.Schema.{SysDb}
use dbos_workload.Steps.{find_step}
use dbos_workload.Steps.Recorded.{find_step-record_txn}
use dbos_workload.Transaction.{ok}
use dbos_workload.Steps.Call.{get_checkpoint_name, patch, mark_patch, deprecate_patch, step_result}

-- Once `patch` returned an answer at a point of a workflow's history, asking again there, on any
-- executor and at any time, returns the same answer and changes nothing; and `deprecate_patch`
-- returns it as well.
pub patch_stable :
    (own own' : Option String) (id : String) (n : ℕ) (patch_name : String) (now now' : ℕ)
    (db db' : SysDb) (answer : Bool)
    → patch own id n patch_name now db ≡ (ok answer, db')
    → (patch own' id n patch_name now' db' ≡ (ok answer, db'))
      × (deprecate_patch id n patch_name db' ≡ answer)
unfolding patch deprecate_patch get_checkpoint_name mark_patch
patch_stable own own' id n patch_name now now' db db' answer done =
    elim (Option-cases (find_step id n db)) [
      | inl fresh ↦
          let found =
            find_step-record_txn own (step_result id n patch_name none none now) now
              (record { work = db; saved = db }) fresh in
          (
            ground (arith, found, eq_refl patch_name, done),
            ground (arith, found, eq_refl patch_name, done),
          )
      | inr (row, e) ↦ (ground arith, ground arith)
    ]
