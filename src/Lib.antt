-- ===== src/Lib.antt =====
-- Agent ChatGPT Bridge: a local runtime in which agents collaborate. A run of several agents is a
-- graph of nodes, each a turn of one participant. Modelled here is the way of such a graph from untrusted
-- input to its execution and its recovery, and the way of a turn through sessions and providers:
--
--   graph and budget --validate--> issues, or a plan --schedule--> transitions of the nodes
--   persisted rows --recover--> statuses, or corruption --schedule--> transitions of the nodes
--   request --session, lock, capacity--> turn --router, registry, health--> provider
--
-- Common holds tests, the interface `Equality` of `===`, and lists measured by native numbers.
-- Js models the dynamic values that a validator of `unknown` meets, with numbers and text (UTF-16).
--
-- CollaborationDag (src/core/collaboration-dag.ts) has the data of a graph, the statuses of a node and
-- the table of transitions. CollaborationDag/Validation and its children are
-- src/core/collaboration-dag-validation.ts, `validateCollaborationDagDefinition` and
-- `validateCollaborationDagBudget`; CollaborationDag/Planning is `planCollaborationDag` of that
-- file. Both run Kahn's algorithm; Kahn has the two loops over any type of ids. A loop on fuel has
-- as much as there are nodes: each pass takes one node from the queue, and no node enters twice.
--
-- DagScheduler and DagScheduler/Moves (src/core/collaboration-dag-scheduler.ts) are
-- `runBoundedCollaborationDag`. What the function does between two awaits is one call of `round`. The
-- environment is a list of events: a running node settles, or the caller aborts. `skip_loop` has
-- fuel for what is queued first and what every node queues once.
-- DagScheduler/Invariant reduces an invariant of a run to the single moves.
--
-- TurnScheduler (src/core/turn-scheduler.ts) is the class of that name, which bounds how many turns run
-- in the whole bridge. Its calls and the aborts of signals come in any order, one at a time; each
-- runs to its end before the next, as in the source. `drain` is structural on the queue.
-- Mutex (src/core/mutex.ts) is the class of that name, which a session takes for each turn, modelled in
-- the same way. EventQueue (src/event-queue.ts) is `AsyncEventQueue`, which carries the events of an
-- adapter to the stream that reads them; `collect` is left out.
-- SessionManager (src/core/session-manager.ts) follows one session through `send`, `cancel`, `close` and
-- `shutdown`: what stands between two awaits is one step, and the steps of several calls come in any order.
-- SessionManager/Stores has the writes of a turn, each of which may throw, and SessionManager/Shutdown the
-- loop of `shutdown`. The session store is supposed not to throw in the `finally` of `send`. `close` and
-- `cancel` go on by a status that may be old by then; the one that `send` reads under the lock is tested in
-- the step that reads it, which comes to the same.
-- RetryPolicy (src/adapters/chatgpt-web/retry-policy.ts) counts the failures of a turn in the browser.
-- ReasoningEnvelope (src/responses/reasoning-envelope.ts) encodes and decodes the metadata that Codex replays.
--
-- Errors has `BridgeError` (src/core/errors.ts) and code that throws as a function into results;
-- Actions has code that throws and changes a state. DagRecovery (src/core/collaboration-dag-recovery.ts)
-- is the gate that a persisted run passes before it is recovered or resumed. DagProvenance
-- (src/core/collaboration-transcript.ts, src/core/collaboration-dag-provenance.ts) has the integrity of a
-- message and the assembly of a node's input, which that gate checks. Providers/Health
-- (src/providers/health.ts) is the tracker of what is known of each provider, and Providers/Policy
-- (src/providers/policy.ts) selects the provider of a turn by it. Providers/Registry and
-- Providers/Router (src/providers/registry.ts) are the registry, with its providers as it observes them,
-- and the router, which resolves a model, asks the policy and runs the turn. What a provider does is any
-- action on a world that has the clock; two turns of the router do not overlap here. A time is a number
-- of milliseconds that a date can hold; what the clock gives within one call of the tracker is one time.
--
-- Messages of issues and errors are left out; `localeCompare` is not modelled, since it decides only
-- between ids at one index, which are one id. `executeNode` is what the events say of it. Clocks,
-- JSON, base64, Unicode normalization and digests are parameters.
--
-- Not modelled: the controllers of runs, which join these parts with stores; the roles and workflows of
-- src/core/collaboration-validation.ts; stores, protocols, the browser and the launcher, which are input
-- and output, or libraries.
pub mod Common
pub mod Kahn
pub mod Js
pub mod CollaborationDag
pub mod DagScheduler
pub mod TurnScheduler
pub mod Mutex
pub mod EventQueue
pub mod Errors
pub mod Actions
pub mod DagRecovery
pub mod Providers
pub mod SessionManager
pub mod RetryPolicy
pub mod ReasoningEnvelope
pub mod DagProvenance
