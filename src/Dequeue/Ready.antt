-- ===== src/Dequeue/Ready.antt =====
-- Nothing that is ready waits for long: without limits, a dequeue starts every ready workflow.
use dbos_workload.Dequeue.Dispatch.{started-start_one, row_after}
use dbos_workload.Dequeue.Dispatch.{row_after, started-start_one}
use dbos_workload.Prelude.{Bool, List, compares_nat, compares_option, compares_text, map}
use dbos_workload.Schema.{WorkflowRow}
use dbos_workload.Prelude.{String}

abbrev ids_of : List WorkflowRow → List String
ids_of = map (λ r. r.workflow_uuid)
