-- ===== src/Executor/Recovery.antt =====
-- `execute_workflow_by_id` of dbos/_core.py, up to its call of `start_workflow`, and
-- `_recover_workflow` of dbos/_recovery.py. The registry of the application is a parameter.
pub mod Poisoned
mod Tests
use dbos_workload.Execution.{is_base_exception}
use dbos_workload.Executor.{serialize_exception_for_persistence}
use dbos_workload.Prelude.{
  Bool, List, ◌==◌, compares_option, compares_text, false, if◌then◌else◌, is_none, none, some, true,
  ◌&&◌, ◌||◌,
}
use dbos_workload.Prelude.{String, Option, ℕ}
use dbos_workload.Schema.{Status, SysDb, WorkflowRow}
use dbos_workload.Serialization.{Serializers, deserialize_value, portable_name}
use dbos_workload.Steps.{find_workflow}
use dbos_workload.Transaction.{
  Error, Result, err, function_not_found, ok, recovery_error, type_error,
}
use dbos_workload.Workflow.{clear_queue_assignment, update_workflow_outcome}

-- What is registered of a workflow function, whose arguments are an `A`. `coerce` is
-- coerce_portable_args_to_hints.
pub record FunctionInfo (A : Type 0) : Type 0 where
  pub validate_args : Option (A → Result A)
  pub coerce : A → A
  pub is_static : Bool

-- The registered functions, instances and classes; `with_instance` and `with_class` put the object
-- in front of the arguments. `is_blank` says that nothing is left of an ID by strip().
pub record Registry (A : Type 0) : Type 0 where
  pub functions : Option String → Option (FunctionInfo A)
  pub has_instance : Option String → String → Bool
  pub with_instance : Option String → String → A → A
  pub has_class : String → Bool
  pub with_class : String → A → A
  pub is_blank : String → Bool

-- The call of start_workflow.
pub record Launch (A : Type 0) : Type 0 where
  pub workflow_uuid : String
  pub name : Option String
  pub inputs : A
  pub queue_name : Option String
  pub queue_partition_key : Option String
  pub authenticated_user : Option String
  pub authenticated_roles : Option String

module _ {A : Type 0} (s : Serializers A) (registry : Registry A) where
  -- deserialize_args
  abbrev pub inputs_read : Result A → Result (Option A)
  inputs_read (ok inputs) = ok (some inputs)
  inputs_read (err e) = err e

  unfoldable pub deserialize_args : Option String → Option String → Result (Option A)
  deserialize_args none format = ok none
  deserialize_args (some text) format = inputs_read (deserialize_value s (some text) format)

  abbrev pub is_portable : Option String → Bool
  is_portable format = format == some portable_name || is_none format && s.own_name == portable_name

  -- Arguments are coerced where nothing validates them.
  unfoldable pub validated : FunctionInfo A → Option String → Option A → Result (Option A)
  validated info format none = ok none
  validated info format (some inputs) = elim info.validate_args [
    | none ↦ ok (some (if is_portable format then info.coerce inputs else inputs))
    | some validate ↦ inputs_read (validate inputs)
  ]

  -- The object in front of the arguments; None cannot be subscripted.
  abbrev pub on_inputs : (A → A) → Option A → Result A
  on_inputs f none = err type_error
  on_inputs f (some inputs) = ok (f inputs)

  abbrev pub with_class_object : FunctionInfo A → Option String → Option A → Result A
  with_class_object info none inputs = on_inputs (λ a. a) inputs
  with_class_object info (some c) inputs =
      if registry.has_class c
      then on_inputs (λ a. if info.is_static then a else registry.with_class c a) inputs
      else err function_not_found

  unfoldable pub with_object : FunctionInfo A → WorkflowRow → Option A → Result A
  with_object info r inputs = elim r.config_name [
    | none ↦ with_class_object info r.class_name inputs
    | some config ↦
        if registry.has_instance r.class_name config
        then on_inputs (registry.with_instance r.class_name config) inputs
        else err function_not_found
  ]

  abbrev pub launch : WorkflowRow → A → Launch A
  launch r inputs = record {
    workflow_uuid = r.workflow_uuid;
    name = r.name;
    inputs = inputs;
    queue_name = r.queue_name;
    queue_partition_key = r.queue_partition_key;
    authenticated_user = r.authenticated_user;
    authenticated_roles = r.authenticated_roles;
  }

  module _ (se : Serializers Error) (plain : Error → Error) (now : ℕ) where
    abbrev pub raise_written : Error → Result (Unit {0}) × SysDb → Result (Launch A) × SysDb
    raise_written e (ok u, db) = (err e, db)
    raise_written e (err e', db) = (err e', db)

    abbrev pub put_ended : String → Error → Result String → SysDb → Result (Launch A) × SysDb
    put_ended id e (err e') db = (err e', db)
    put_ended id e (ok text) db =
        raise_written e (update_workflow_outcome id Status.error none (some text) now db)

    -- "Mark workflow as ERROR immediately instead of leaving it PENDING for infinite retry".
    unfoldable pub end_workflow : String → Error → Option String → SysDb → Result (Launch A) × SysDb
    end_workflow id e format db =
        put_ended id e (serialize_exception_for_persistence se plain e format) db

    -- `except Exception`: a BaseException goes through.
    abbrev pub end_exception : String → Error → Option String → SysDb → Result (Launch A) × SysDb
    end_exception id e format db =
        if is_base_exception e then (err e, db) else end_workflow id e format db

    abbrev pub launched : WorkflowRow → Result A → SysDb → Result (Launch A) × SysDb
    launched r (err e) db = (err e, db)
    launched r (ok inputs) db = (ok (launch r inputs), db)

    abbrev pub after_validation :
        String
        → WorkflowRow
        → FunctionInfo A
        → Result (Option A)
        → SysDb
        → Result (Launch A) × SysDb
    after_validation id r info (err e) db = end_exception id e r.serialization db
    after_validation id r info (ok inputs) db = launched r (with_object info r inputs) db

    abbrev pub with_function :
        String
        → WorkflowRow
        → Option (FunctionInfo A)
        → Option A
        → SysDb
        → Result (Launch A) × SysDb
    with_function id r none inputs db = (err function_not_found, db)
    with_function id r (some info) inputs db =
        after_validation id r info (validated info r.serialization inputs) db

    abbrev pub with_inputs :
        String → WorkflowRow → Result (Option A) → SysDb → Result (Launch A) × SysDb
    with_inputs id r (err e) db = end_exception id e r.serialization db
    with_inputs id r (ok inputs) db = with_function id r (registry.functions r.name) inputs db

    abbrev pub by_id : String → Option WorkflowRow → SysDb → Result (Launch A) × SysDb
    by_id id none db = (err recovery_error, db)
    by_id id (some r) db =
        if registry.is_blank id
        then end_workflow id recovery_error r.serialization db
        else with_inputs id r (deserialize_args r.inputs r.serialization) db

    unfoldable pub execute_workflow_by_id : String → SysDb → Result (Launch A) × SysDb
    unfolding end_workflow
    execute_workflow_by_id id db = by_id id (find_workflow id db) db

    -- A workflow of a queue goes back to it, and any other is started: none, or the call.
    abbrev pub recovered : Result (Launch A) × SysDb → Result (Option (Launch A)) × SysDb
    recovered (ok l, db) = (ok (some l), db)
    recovered (err e, db) = (err e, db)

    unfoldable pub recover_workflow :
        String → Option String → SysDb → Result (Option (Launch A)) × SysDb
    unfolding execute_workflow_by_id
    recover_workflow id none db = recovered (execute_workflow_by_id id db)
    recover_workflow id (some queue) db =
        if queue == ""
        then recovered (execute_workflow_by_id id db)
        else (ok none, clear_queue_assignment id db)
