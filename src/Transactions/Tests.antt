-- ===== src/Transactions/Tests.antt =====
-- A transaction whose first attempt loses its commit, and which crashes after its second.
use dbos_workload.Fixtures.{codecs, codecs-AllReadBack, codecs-NamesAgree, db0, fault_codecs}
use dbos_workload.Prelude.{
  [], ◌∷◌, ◌+◌, false, if◌then◌else◌, none, some, true, Bool, ◌==◌, compares_nat, compares_text,
  suc,
}
use dbos_workload.Prelude.{String, ◌≡◌, Option, ℕ, refl}
use dbos_workload.Schema.{SysDb}
use dbos_workload.Serialization.{serialize_value}
use dbos_workload.Steps.{check_operation_execution, record_operation_result}
use dbos_workload.Steps.Call.{step_result}
use dbos_workload.Table.{find_row}
use dbos_workload.Transaction.{Error, database_error, err, ok, value_error}
use dbos_workload.Transactions.{AppDb, check_transaction_execution, record_transaction_output}
use dbos_workload.Transactions.Atomic.{Leaves, try_transaction_atomic}
use dbos_workload.Transactions.Invoke.{TransactionCode, committed, invoke_tx, try_transaction}
use dbos_workload.Transactions.Once.{transaction_once}

-- The tables hold a balance, the world counts the runs.
abbrev deposit : TransactionCode ℕ ℕ String
deposit balance runs = (ok "done", balance + 5, suc runs)

abbrev overdraw : TransactionCode ℕ ℕ String
overdraw balance runs = (err value_error, 0, suc runs)

abbrev is_retried : Error → Bool
is_retried database_error = true
is_retried _ = false

abbrev conflicts_first : ℕ → Option Error
conflicts_first i = if i == 0 then some database_error else none

abbrev empty_bank : AppDb ℕ
empty_bank = record { tables = 10; transaction_outputs = [] }

abbrev bank : AppDb ℕ
bank = record {
  tables = 15;
  transaction_outputs =
      record {
        workflow_uuid = "a";
        function_id = 1;
        output = some "done";
        error = none;
        txn_id = some "";
        txn_snapshot = "";
        executor_id = none;
        function_name = "deposit";
        created_at = 7;
      }
      ∷ [];
}

abbrev after_deposit : SysDb
after_deposit =
    (record_operation_result (some "local") (step_result "a" 1 "deposit" (some "done") none 20) 22
      db0).1

deposited :
    try_transaction codecs "a" 1 "deposit" is_retried conflicts_first 7 deposit 3 0 empty_bank 0
    ≡ some (committed "done", bank, 2)
unfolding try_transaction check_transaction_execution record_transaction_output find_row
    serialize_value
deposited = refl

try_transaction_atomic_example :
    Leaves codecs "a" 1 "deposit" is_retried conflicts_first 7 deposit empty_bank
      (committed "done")
      bank
try_transaction_atomic_example =
    try_transaction_atomic codecs "a" 1 "deposit" is_retried conflicts_first 7 deposit 3 0
      empty_bank 0 (committed "done") bank 2 deposited

transaction_once_example :
    (invoke_tx codecs fault_codecs
        (some "local")
        "a"
        1
        "deposit"
        is_retried
        conflicts_first
        20
        22
        overdraw
        1
        bank
        db0
        9
      ≡ some (ok "done", bank, after_deposit, 9))
    × (invoke_tx codecs fault_codecs
          (some "local")
          "a"
          1
          "deposit"
          is_retried
          conflicts_first
          20
          22
          overdraw
          0
          bank
          after_deposit
          30
        ≡ some (ok "done", bank, after_deposit, 30))
unfolding check_operation_execution record_operation_result find_row serialize_value
transaction_once_example =
    transaction_once codecs fault_codecs (some "local") "a" 1 "deposit" is_retried is_retried
      conflicts_first conflicts_first 3 0 20 7 22 deposit overdraw empty_bank bank bank db0 0 2 9 30
      "done" "done" "plain" (codecs-AllReadBack "done") (codecs-NamesAgree "done") refl refl
      deposited refl refl refl
