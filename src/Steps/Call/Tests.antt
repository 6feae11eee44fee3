-- ===== src/Steps/Call/Tests.antt =====
-- A step that runs once.
use dbos_workload.Steps.Call.{patch, get_checkpoint_name, mark_patch, deprecate_patch}
use dbos_workload.Steps.{record_operation_result_txn}
use dbos_workload.Steps.Call.Patched.{patch_stable}
use dbos_workload.Prelude.{Bool, true}
use dbos_workload.Steps.Call.{StepContext}
use dbos_workload.Fixtures.{codecs, codecs-AllReadBack, codecs-NamesAgree, db0}
use dbos_workload.Prelude.{String, false, refl, some, ℕ, ◌≡◌, suc}
use dbos_workload.Schema.{SysDb}
use dbos_workload.Serialization.{serialize_value}
use dbos_workload.Steps.{check_operation_execution, record_operation_result}
use dbos_workload.Steps.Call.{call_function_as_step}
use dbos_workload.Steps.Call.Replay.{call_function_as_step_once}
use dbos_workload.Transaction.{Result, ok}
use dbos_workload.Steps.Call.{call_function_as_step}
use dbos_workload.Table.{find_row, update_where}

-- The world counts the calls.
abbrev counted : String → ℕ → Result String × ℕ
counted answer w = (ok answer, suc w)

abbrev in_a : StepContext
in_a = record { is_transaction = false; workflow = some ("a", 1) }

abbrev ran : Result String × SysDb × ℕ
ran = call_function_as_step codecs (some "local") in_a (counted "paid") "charge" 10 12 db0 0

ran_test : ran ≡ (ok "paid", ran.1, 1)
unfolding call_function_as_step record_operation_result check_operation_execution serialize_value
    find_row update_where
ran_test = refl

call_function_as_step_once_example :
    call_function_as_step codecs (some "local") in_a (counted "refused") "charge" 20 22 ran.1 7
    ≡ (ok "paid", ran.1, 7)
call_function_as_step_once_example =
    call_function_as_step_once codecs (some "local") "a" 1 "charge" (counted "paid")
      (counted "refused") 10 12 20 22 db0 ran.1 0 1 7 "paid" (codecs-AllReadBack "paid")
      (codecs-NamesAgree "paid") ran_test

abbrev patched : Result Bool × SysDb
patched = patch (some "local") "a" 1 "new-tax" 10 db0

patched_test : patched ≡ (ok true, patched.1)
unfolding patch get_checkpoint_name mark_patch record_operation_result_txn find_row
patched_test = refl

patch_stable_test :
    (patch (some "other") "a" 1 "new-tax" 20 patched.1 ≡ (ok true, patched.1))
    × (deprecate_patch "a" 1 "new-tax" patched.1 ≡ true)
patch_stable_test =
    patch_stable (some "local") (some "other") "a" 1 "new-tax" 10 20 db0 patched.1 true patched_test
