-- ===== src/Fixtures.antt =====
-- Small databases, workflows and codecs for the tests.
use dbos_workload.Prelude.{refl, sym}
use dbos_workload.Table.{any_where}
use dbos_workload.Prelude.{ℕ, false, String, Option, none, some, [], ◌∷◌}
use dbos_workload.Schema.{Status, pending, enqueued, WorkflowRow, SysDb, empty_db}
use dbos_workload.Transaction.{Error, err, ok, type_error}
use dbos_workload.Serialization.{Codec, Serializers}
use dbos_workload.Serialization.Roundtrip.{AllReadBack, NamesAgree}
use dbos_workload.Start.{NewWorkflow, fresh_row}
use dbos_workload.Workflow.Lookup.{HasPrimaryKey}

abbrev pub plain : Codec String
plain = record { serialize = λ v. ok v; deserialize = λ t. ok t }

abbrev pub codecs : Serializers String
codecs = record {
  null = "null";
  portable = plain;
  default = plain;
  own = plain;
  own_name = "plain";
}

pub codecs-AllReadBack : (v : String) → AllReadBack codecs v
codecs-AllReadBack v = record {
  portable = λ t e. sym e;
  default = λ t e. sym e;
  own = λ t e. sym e;
}

pub codecs-NamesAgree : (v : String) → NamesAgree codecs v
codecs-NamesAgree v = record { portable = λ e. refl; default = λ e. refl }

-- Exceptions are written, and not read back.
abbrev faults : Codec Error
faults = record { serialize = λ e. ok "fault"; deserialize = λ t. err type_error }

abbrev pub fault_codecs : Serializers Error
fault_codecs = record {
  null = type_error;
  portable = faults;
  default = faults;
  own = faults;
  own_name = "plain";
}

abbrev pub new_workflow : String → Status → NewWorkflow
new_workflow id status = record {
  workflow_uuid = id;
  status = status;
  name = "checkout";
  class_name = none;
  config_name = none;
  output = none;
  error = none;
  executor_id = some "local";
  app_version = some "v1";
  app_id = none;
  authenticated_user = none;
  authenticated_roles = none;
  assumed_role = none;
  queue_name = none;
  workflow_timeout_ms = none;
  workflow_deadline_epoch_ms = none;
  deduplication_id = none;
  priority = 0;
  inputs = some "[]";
  serialization = some "plain";
  queue_partition_key = none;
  parent_workflow_id = none;
  delay_until_epoch_ms = none;
  attributes = none;
  schedule_name = none;
  debounce_deadline_epoch_ms = none;
  is_debounced = false;
}

abbrev pub workflow_row : String → Status → Option String → ℕ → WorkflowRow
workflow_row id status queue created = record (fresh_row (new_workflow id status) none created) {
  queue_name = queue;
}

-- One running workflow, and two that wait in a queue.
abbrev pub running : WorkflowRow
running = workflow_row "a" pending none 1

abbrev pub waiting : WorkflowRow
waiting = workflow_row "b" enqueued (some "q") 2

abbrev pub waiting_too : WorkflowRow
waiting_too = workflow_row "c" enqueued (some "q") 3

abbrev pub db0 : SysDb
db0 = record empty_db { workflow_status = running ∷ waiting ∷ waiting_too ∷ [] }

pub db0-HasPrimaryKey : HasPrimaryKey db0
unfolding any_where
db0-HasPrimaryKey = (refl, (refl, (refl, tt)))
