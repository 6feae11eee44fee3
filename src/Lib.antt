-- ===== src/Lib.antt =====
-- DBOS Transact: durable workflows kept in a system database (dbos/_sys_db.py). A workflow is a row
-- of workflow_status, each of its steps a row of operation_outputs that is recorded once and
-- replayed afterwards, and messages, events and streams are rows of their own tables.
--
-- The database is a record of tables (Schema), a table a list of rows in the order of insertion,
-- and the SQL that the code builds is a few operations on such lists (Table). A method of
-- SystemDatabase is a function of the database; `with self.engine.begin()` is `begin`
-- (Transaction), which commits when its body returns and goes back when it raises. The clock, the
-- executor's ID and generated IDs are arguments. Parts and files:
--   Schema         dbos/_schemas/system_database.py: the rows, and the workflow statuses
--   Table          SELECT, UPDATE, DELETE and COUNT on the rows of a table
--   Transaction    the errors of dbos/_error.py, and transactions
--   Serialization  dbos/_serialization.py: formats and the dispatch on their names
--   Steps          record_operation_result, check_operation_execution, record_get_result,
--                  record_child_workflow; Steps/Call: call_function_as_step, call_txn_as_step,
--                  patch, deprecate_patch
--   Workflow       update_workflow_outcome, cancel_workflows, resume_workflows,
--                  set_workflow_delay, delete_workflows, transition_delayed_workflows,
--                  clear_queue_assignment, get_pending_workflows, check_workflow_result
--   Cascade        cancel_workflows with cancel_children, _get_direct_children,
--                  get_workflow_children
--   Fork           fork_workflow; Fork/Failure: fork_from_failure
--   Collect        garbage_collect
--   Start          _insert_workflow_status, init_workflow, init_workflow_with_connection
--   Dequeue        start_queued_workflows, get_queue_partitions
--   Messages       send_bulk and its variants
--   Receive        recv_check, recv_consume
--   Events         set_event_from_workflow, set_event_from_step, get_event_consume
--   Sleep          record_sleep
--   Streams        write_stream_from_step, write_stream_from_workflow, close_stream, read_stream
--   Operations     the operations on workflows, their checkpoints, messages, events and streams as
--                  data, and runs of them; imports of workflows are none of them
--   Schedules      create_schedule, upsert_schedule and the other operations on schedules
--   Versions       the application versions
--   Queues         the records of queues; dbos/_queue.py: Queue, _validate_queue
--   Execution      dbos/_core.py: invoke_step; dbos/_outcome.py: retry
--   Durable        dbos/_core.py: run_step, in a workflow that crashes and is started again
--   Executor       dbos/_core.py: _get_wf_invoke_func, _serialize_exception_for_persistence;
--                  Executor/Active: ActiveWorkflowById; Executor/Roles: dbos/_roles.py:
--                  check_required_roles; Executor/Run: _execute_workflow_wthread;
--                  Executor/Recovery: execute_workflow_by_id; dbos/_recovery.py: _recover_workflow
--   Export         export_workflow, import_workflow
--   Transactions   dbos/_app_db.py: transaction_outputs; Transactions/Invoke: dbos/_core.py:
--                  invoke_tx of decorate_transaction
--   Debounce       debounce_delayed_workflow; dbos/_debouncer.py: _classify_bounce
-- Workflow reads checkpoints through Steps; Messages, Receive, Events and Streams record their
-- step through Steps in the transaction that does their work; Start, Dequeue and Debounce change rows
-- of workflow_status with the operations of Workflow. Durable runs steps through Execution while
-- Operations happen around it; Executor writes the outcome of a workflow's function through Workflow,
-- and Transactions records its steps through Steps. Prelude has the shared names and lemmas, and
-- Fixtures the databases of the tests.
--
-- The codecs (JSON, pickle, the application's) are parameters, and where a value must come back
-- it is a hypothesis that a codec reads back what it writes. User code is a function of a world
-- outside the database. The retry of a stream write takes a number of attempts; the first is
-- enough where the workflow exists. The levels of Cascade, which an export with children walks
-- too, and the batches of Collect take a number of rounds; one more than there are workflows is
-- enough. Transactions run one at a time: locks, isolation levels, db_retry and lost connections
-- are not modelled, and the walk of an export reads one state of the database. Nor are the waiting
-- in memory for messages and events, the threads of the queues and of recovery, start_workflow,
-- data sources, lists and metrics, and the servers and integrations, which are network code or
-- glue.
-- The loop over the attempts of a transaction takes a number of them: one is enough where a
-- committed run is found.
pub mod Prelude
pub mod Table
pub mod Schema
pub mod Transaction
pub mod Serialization
pub mod Steps
pub mod Workflow
pub mod Start
pub mod Dequeue
pub mod Messages
pub mod Receive
pub mod Events
pub mod Streams
pub mod Fixtures
pub mod Debounce
pub mod Cascade
pub mod Fork
pub mod Collect
pub mod Operations
pub mod Schedules
pub mod Versions
pub mod Queues
pub mod Durable
pub mod Export
pub mod Sleep
pub mod Transactions
pub mod Executor
pub mod Execution
