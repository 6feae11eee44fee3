-- ===== src/Execution/Tests.antt =====
-- A step that fails twice before it returns.
use dbos_workload.Execution.{
  StepOptions, call_step, max_retry_interval, invoke_step, dbos_exception,
}
use dbos_workload.Execution.Attempts.{call_step_waits}
use dbos_workload.Execution.Replay.{invoke_step_once}
use dbos_workload.Fixtures.{codecs, codecs-AllReadBack, codecs-NamesAgree, db0, fault_codecs}
use dbos_workload.Prelude.{
  All, List, [], arith, compares_nat, compares_option, compares_text, if◌then◌else◌, length, ltb,
  none, some, suc, true, ℕ, ◌==◌, ◌∷◌,
}
use dbos_workload.Schema.{SysDb}
use dbos_workload.Serialization.{serialize_value}
use dbos_workload.Steps.{OperationResult, check_operation_execution, record_operation_result}
use dbos_workload.Steps.Call.{step_result}
use dbos_workload.Table.{find_row}
use dbos_workload.Transaction.{Error, Result, err, ok, type_error, value_error}
use dbos_workload.Prelude.{String, ◌≡◌, refl, ◌≤◌, ◌-◌}

abbrev options : StepOptions
options = record {
  step_name = "charge";
  retries_allowed = true;
  max_attempts = 3;
  pause = λ attempt. if attempt == 0 then 1000 else 5000000;
  should_retry = none;
}

abbrev exhausted : ℕ → List Error → Error
exhausted attempts errors = dbos_exception

-- The world counts the calls.
abbrev flaky : ℕ → Result String × ℕ
flaky calls = if ltb calls 2 then (err value_error, suc calls) else (ok "paid", suc calls)

abbrev broken : ℕ → Result String × ℕ
broken calls = (err type_error, suc calls)

call_step_test : call_step options exhausted flaky 0 ≡ (ok "paid", 3, 1000 ∷ 3600000 ∷ [])
unfolding call_step
call_step_test = refl

exhausted_test : call_step options exhausted broken 0 ≡ (err dbos_exception, 3, 1000 ∷ 3600000 ∷ [])
unfolding call_step
exhausted_test = refl

call_step_waits_test :
    (length (call_step options exhausted flaky 0).2 ≤ 3 - 1)
    × All (λ wait. wait ≤ max_retry_interval) (call_step options exhausted flaky 0).2
call_step_waits_test = call_step_waits options exhausted flaky 0 (omega arith)

abbrev charged : OperationResult
charged = step_result "a" 1 "charge" (some "paid") (some "plain") 10

abbrev after_charge : SysDb
after_charge = (record_operation_result (some "local") charged 12 db0).1

invoke_step_once_example :
    (invoke_step codecs fault_codecs (some "local") options exhausted "a" 1 10 12 flaky db0 0
      ≡ (ok "paid", after_charge, (call_step options exhausted flaky 0).1))
    × (invoke_step codecs fault_codecs
          (some "local")
          options
          exhausted
          "a"
          1
          20
          22
          broken
          after_charge
          7
        ≡ (ok "paid", after_charge, 7))
unfolding call_step check_operation_execution record_operation_result find_row serialize_value
invoke_step_once_example =
    invoke_step_once codecs fault_codecs (some "local") options options exhausted exhausted "a" 1 10
      12 20 22 flaky broken db0 0 7 (ok "paid") charged refl refl refl refl
      (codecs-AllReadBack "paid", codecs-NamesAgree "paid") refl refl
