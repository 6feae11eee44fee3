-- ===== src/Executor/Recovery/Tests.antt =====
-- A workflow whose arguments no codec reads.
use dbos_workload.Executor.{serialize_exception_for_persistence}
use dbos_workload.Executor.Outcome.{PlainIsWritten}
use dbos_workload.Executor.Recovery.{Registry, deserialize_args, execute_workflow_by_id}
use dbos_workload.Executor.Recovery.Poisoned.{
  execute_workflow_by_id-Poisoned, pending_ids, unreadable,
}
use dbos_workload.Fixtures.{codecs, db0, db0-HasPrimaryKey, fault_codecs, running}
use dbos_workload.Prelude.{false, mem, none, some, compares_text}
use dbos_workload.Prelude.{String, ◌≡◌, ℕ, refl}
use dbos_workload.Serialization.{Codec, Serializers, deserialize_value, serialize_value_as}
use dbos_workload.Table.{find_row}
use dbos_workload.Transaction.{Error, dbos_exception, err, ok, recorded, type_error}
use dbos_workload.Workflow.{check_workflow_result}

abbrev unread : Codec ℕ
unread = record { serialize = λ n. ok "[]"; deserialize = λ t. err type_error }

abbrev arguments : Serializers ℕ
arguments = record {
  null = 0;
  portable = unread;
  default = unread;
  own = unread;
  own_name = "plain";
}

abbrev registry : Registry ℕ
registry = record {
  functions = λ name. none;
  has_instance = λ c config. false;
  with_instance = λ c config a. a;
  has_class = λ c. false;
  with_class = λ c a. a;
  is_blank = λ id. false;
}

abbrev plain : Error → Error
plain e = dbos_exception

faults-PlainIsWritten : PlainIsWritten fault_codecs plain (some "plain")
unfolding serialize_value_as
faults-PlainIsWritten e = (("fault", "plain"), refl)

execute_workflow_by_id-Poisoned_example :
    let (result, after) = execute_workflow_by_id arguments registry fault_codecs plain 9 "a" db0 in
    (result ≡ err type_error)
    × ((text : String) × (serialize_exception_for_persistence fault_codecs plain type_error
            (some "plain")
          ≡ ok text)
        × (check_workflow_result codecs "a" after ≡ some (err (recorded text (some "plain")))))
    × ((executor version : String) → mem "a" (pending_ids executor version after) ≡ false)
unfolding find_row deserialize_args deserialize_value
execute_workflow_by_id-Poisoned_example =
    execute_workflow_by_id-Poisoned arguments registry fault_codecs plain 9 codecs {r = running} db0
      db0-HasPrimaryKey refl refl faults-PlainIsWritten (unreadable refl refl refl)
