-- ===== src/Lib.antt =====
-- orxtra runs workflows of agents: a scheduler orders the tasks of a workflow by their dependencies,
-- a trace backend stores what happens to runs and tasks and logs events, a dispatch worker polls the
-- events and runs the actions of the subscriptions that match them, and write safety guards the files
-- that agents change. Around these stand a session that counts the tokens of a model, budgets that
-- stop what costs too much, webhooks that fire events for authenticated sources, principals to whom
-- events and notifications belong, workers that run tools elsewhere, and an adapter that streams a
-- run to a user interface. This library models these parts and proves what the program relies on.
--
-- The parts, with paths from the repository's root:
-- - Trace/Transitions: the lifecycles of tasks and runs (trace/src/orxtra/trace/_transitions.py). A
--   status is a constructor; a word that the tables do not know is `other`. Trace/Transitions/Relation
--   states the lifecycles again as step relations.
-- - Trace/Rows, Store, Tasks, Events, Runs, Overseer, Inbox, Recovery: `InMemoryBackend`
--   (trace/src/orxtra/trace/_memory_backend.py). `Store` has a field for each attribute of the class,
--   a dict is an association list in the order of insertion, and each method is a function from the
--   store to its result and the store that it leaves, under the method's name. The new ids and the
--   times that a method draws are arguments; a method that draws several takes a function of the
--   number drawn so far. JSON text in a column stands as the value that it encodes. Trace/Ops has one
--   constructor for each method that changes the state, and `step` runs it.
-- - Trace/Reader, Reader/Knowledge, Reader/History: the queries of the same class.
-- - Scheduler/Graph: scheduler/src/orxtra/scheduler/_graph.py. A graph is an association list of
--   lists; a set is a list without repetition, in any order. `drain` is the loop over the queue and
--   takes as fuel the number of nodes, which is enough since each node is emitted at most once; `dfs`
--   takes two more than the number of nodes left, which is enough since its path repeats no node. An
--   in-degree is an integer, and the KeyError of a name that is no task is a result.
-- - Scheduler/Groups: `find_parallel_groups` of the same file.
-- - Scheduler/Validator: `validate_task_tree` (scheduler/src/orxtra/scheduler/_validator.py) on the
--   fields of a `TaskSpec` (protocols/src/orxtra/protocols/_types/_task.py) that it reads. A message is
--   a constructor with the names in it, and the KeyError that the sort may raise is a result.
-- - Scheduler/Locks: `FileLockRegistry` (scheduler/src/orxtra/scheduler/_locks.py).
-- - Dispatch/Backend: `InMemoryDispatchBackend` (dispatch/src/orxtra/dispatch/_memory_backend.py) on
--   the records of protocols/src/orxtra/protocols/_types/_dispatch.py; Dispatch/Matching:
--   `match_subscription` (dispatch/src/orxtra/dispatch/_delivery.py); Dispatch/Worker: one poll of
--   `DispatchWorker` (dispatch/src/orxtra/dispatch/_dispatch_worker.py), with the calls of
--   `execute_action` as a list in its state. Whether such a call raises is a function of the calls
--   before it, and the moment of a stop request is a function of the events processed.
-- - Scheduler/Budget: the accounting part of scheduler/src/orxtra/scheduler/_enforcement.py, on the
--   attributes of the scheduler that it reads and writes; a comparison with eight tenths of a budget is
--   multiplied out. Session/Pricing: session/src/orxtra/session/_pricing.py, in billionths of a dollar,
--   in which the division by a million is exact for rates in thousandths of a dollar; for finer rates
--   the model rounds down.
-- - Scheduler/Lifecycle, Lifecycle/Handlers, Constraints and Creation: the lifecycle handlers
--   (scheduler/src/orxtra/scheduler/_lifecycle_handlers.py) with what they call in _executor.py and
--   _enforcement.py. `Scheduler` has a field for each attribute that they use, the trace is the store
--   of the trace backend, and callbacks of completed tasks are recorded. A handler returns its reply
--   or the exception, and the scheduler as it left it. Arguments are parsed; what checks, constraint
--   checkers and the scrubbing of secrets give is an argument, and so is whether `_auto_commit` raises:
--   it does not look at the return code of the commit. A handler runs as one step.
-- - Session/Turns: `Session` (session/src/orxtra/session/_session.py). The events that the transport
--   yields in a turn are a list, and the entries written to the transcript are returned.
-- - Auth/Backend, Verifiers, Authenticator: auth/src/orxtra/auth/_inmemory.py, _verifiers.py and
--   _authenticator.py; SHA-256 is a parameter, and the verifiers share the authenticator's backend.
--   Secrets: the look-up of secrets/src/orxtra/secrets/_registry.py and _mac_provider.py; HMAC is a
--   parameter on bytes. Texts are encoded by Prelude/Bytes, and a signature that is not ASCII makes
--   the comparison raise.
-- - Identity: identity/src/orxtra/identity/_inmemory.py.
-- - Incoming/Extraction and Receiver: incoming/src/orxtra/incoming/_receiver.py. The look-up of a
--   header, the decoding of bytes, the JSON parser and the outcome of `fire_event` are parameters.
-- - Notification/Backend and Stream: notification/src/orxtra/notification/_inmemory.py and _stream.py.
--   The texts of ids and their parser are parameters, and each wake-up of the live loop comes with the
--   deliveries that are stored at that moment.
-- - Worker/Registry: worker/src/orxtra/worker/_registry.py.
-- - Agui/Events and Translator: agui/src/orxtra/agui/_translator.py with the events of
--   transport/src/orxtra/transport/_events.py and protocols/src/orxtra/protocols/_types/_events.py.
--   Agui/Translator/Framing states the protocol again from the side of a client.
-- - WriteSafety/Stale and Replay: write-safety/src/orxtra/write_safety/_stale.py and _replay.py.
-- - Prelude: Boolean tests, lists, dicts, sets, texts, stable sorting and exceptions as values.
-- - Samples: each theorem applied to concrete inputs.
--
-- Not modelled: the PostgreSQL backends, whose logic is SQL run by a server; the event buses and
-- `InMemoryEventDelivery`, which are asyncio futures and callbacks; `search_transcript`, which folds
-- the case of Unicode text; the waiting loop and LISTEN/NOTIFY of the worker; files, hashes and locks
-- of the operating system; the checks and constraints that run other programs; the rest of the
-- executor of workflows, which drives language models; services, tools, clients, servers and the command line.
-- Methods run one after the other: the in-memory classes await nothing between a read and its write.
pub mod Prelude
pub mod Trace
pub mod Secrets
pub mod Identity
pub mod Auth
pub mod Session
pub mod Scheduler
pub mod Dispatch
pub mod WriteSafety
pub mod Incoming
pub mod Notification
pub mod Worker
pub mod Agui
pub mod Samples
