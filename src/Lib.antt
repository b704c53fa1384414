-- ===== src/Lib.antt =====
-- Verification of the core of minos-python: the event-sourced aggregate with its transactions, the
-- sagas that coordinate transactions between services, the codec of their data, and a subscriber of
-- messages. Paths are relative to packages/core.
--
-- The aggregate package (minos-microservice-aggregate/minos/aggregate). Events are appended to an
-- event repository, either directly or inside a transaction; a transaction is reserved, which checks
-- it against the other transactions, and committed, which appends its events again in its
-- destination, or it is rejected.
--   Aggregate/Store: the entries (events/entries.py, transactions/entries.py, actions.py) and the
--     attributes of the two in-memory repositories.
--   Aggregate/Events/Repository: events/repositories/memory.py, and submit, validate and
--     _send_events of events/repositories/abc.py. `submit` is the method of that name, `store_entry`
--     with `with_uuid` is `_submit`, `fn_filter` is the filter of `_select`.
--   Aggregate/Transactions/Repository: transactions/repositories/memory.py, and get of abc.py.
--     `is_invalid` is the condition under which `_submit` raises.
--   Aggregate/Transactions/Entry: the methods of `TransactionEntry`, under their own names; `enter`
--     and `exit` are `__aenter__` and `__aexit__`, `commit_entries` is `_commit`, and `collect_all`,
--     `has_no_rival` are the loops and the last test of `validate`.
--   Aggregate/Transactions/Nesting: `uuids` and `destination`, the chain of nested transactions.
--   Aggregate/Entities: the classes of data. Sets is collections.py and entities/collections.py,
--     Events is events/fields.py and events/models.py, Root is `diff` and `apply_diff` of
--     entities/models.py.
--   Aggregate/Queries: queries.py, conditions and orderings.
--   Aggregate/Snapshots: snapshots/repositories/memory.py. `get_transaction_uuids` and
--     `get_event_entries` give the events that an entity is built from inside a chain of
--     transactions, Entries is snapshots/entries.py with `_build_instance`, and Reading is get and find
--     (also of snapshots/repositories/abc.py).
--   Aggregate/Persistence: create, save, update, delete and the other methods of `RootEntity` that
--     put the event repository and the snapshot together.
--
-- The common package (minos-microservice-common/minos/common).
--   Common/Avro: model/serializers/avro/data/, how values of models are encoded and decoded; `decode`
--     is `_build` of the decoder and `encode` that of the encoder.
--
-- The saga package (minos-microservice-saga/minos/saga). An execution runs the steps of its
-- definition one after another; it pauses at a remote step until a response comes, it undoes the
-- executed steps when a step fails, and in the end it commits the transactions of all services in
-- two phases.
--   Saga/Types: executions/status.py, messages.py, exceptions.py, the definitions of steps, and the
--     record `Program` of what is taken from outside.
--   Saga/Steps, Saga/Leaf: executions/executors/ and the local and remote steps of executions/steps/.
--   Saga/Conditional: executions/steps/conditional.py. Its inner execution is an execution over any
--     class of steps, so conditionals nested n deep are n layers of `conditional_class` over
--     `leaf_class`, and no fuel is needed.
--   Saga/Execution: `SagaExecution` of executions/saga.py, over the interface `StepClass`.
--   Saga/Definitions: definitions/saga.py and definitions/steps/. `build` is a chain of calls from
--     `Saga()` to `commit`; a saga with nested conditionals is again a tower of layers.
--   Saga/Commit: `TransactionCommitter` of executions/commit.py.
--   Saga/Storage: executions/repositories/, as the interface that the manager uses.
--   Saga/Manager: `SagaManager` of manager.py; `run_on_disk` and `run_in_memory` are `_run`, and
--     `load_and_run` is `_load_and_run`.
--
-- The networks package (minos-microservice-networks/minos/networks).
--   Networks/Subscribers: brokers/subscribers/filtered/ with the in-memory validator of duplicates,
--     and brokers/subscribers/memory.py; `receive_from` is the loop of `_receive`.
--
-- Conventions. A method is a function of explicit state that returns a result or raises
-- (Base/Effects); what was assigned before an exception stays assigned. Identifiers are the 128-bit
-- integers of UUIDs, with 0 for NULL_UUID; names, payloads, services and operations are numbers,
-- since the code only stores and compares them. Loops over lists recurse on them. Three loops take
-- fuel, and give `none` when it has run out: `uuids`, which climbs from a transaction to the
-- outermost one, `get_response`, which drops the messages of other sagas, and `run_rounds`, which
-- runs an execution again after each response. The depth of nesting is enough for the first, and
-- one more than the number of messages to drop for the second; how many responses an execution
-- waits for depends on its steps. Parameters, mostly of code outside of the repository, are: the
-- clock, uuid4 and the decomposition of an event by its payload (`Environment`, asked by the number
-- of the question), the callbacks of steps in their transactions, and the broker (`Program`, and
-- `receive` of the manager), the database of executions (`Repository`, with the laws of a key-value
-- store), the codec of a snapshot entry, matching by `re.fullmatch`, and the conversions by `int`,
-- `float` and `UUID` (`Library`). A method is one step and an execution of several callers a
-- sequence of calls. The code keeps other writers out of `submit` and `reserve` by locks, but a
-- commit holds only the lock of the transactions, so events that others submit between its copies
-- are not modelled. `_commit` iterates over a snapshot of the events, which is the same as the lazy
-- iteration of the code as the copies go to another transaction (one that is its own destination is
-- never reserved). `gather` sends in order and raises the first exception; `list.sort` is an
-- insertion sort. The context variable holds the transaction as it was when it was set, since only
-- its identifier is read.
--
-- Not modelled: filters of transactions by ranges of offsets and by time, which no caller in the
-- package passes; the context variable of serialization; publishers that refuse a message; the
-- validation of a definition in the constructor of an execution, which is taken to pass; the header
-- of related services in the manager; the classes of models with their types, parsers and
-- validators; the schemas of Avro; and the database repositories, the plugins, the rest of the
-- networks package and the start-up glue, which are mostly calls of other systems.
pub mod Base
pub mod Common
pub mod Aggregate
pub mod Saga
pub mod Networks
