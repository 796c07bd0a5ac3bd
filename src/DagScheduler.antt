-- ===== src/DagScheduler.antt =====
-- src/core/collaboration-dag-scheduler.ts: `runBoundedCollaborationDag` as a state machine. Between
-- two moves of the environment the function runs to its next `await`; that is one call of `round`.
-- The environment aborts the signal, or lets a running node settle. The observer `onTransition`
-- only records, and aborts nothing.
pub mod Moves
pub mod Invariant
pub mod Bounds
pub mod Order
pub mod Ordered
pub mod Load
pub mod Resume
pub mod Skips
pub mod Ends
pub mod Spares
mod Samples
use agent_chatgpt_bridge.Common.{
  ℕ, zero, suc, ◌+◌, Bool, true, false, not, ◌&&◌, ◌||◌, List, [], ◌∷◌, ◌++◌, Option, none, some,
  map, max, Equality, ◌==◌, list_equality, number_equality, if◌then◌else◌, leb, length, contains,
}
use agent_chatgpt_bridge.Js.{Text, Number, positive_integer}
use agent_chatgpt_bridge.CollaborationDag.{
  CollaborationDagExecutionPlan, CollaborationDagPlannedNode, CollaborationDagFailurePolicy,
  fail_fast, skip_dependents, CollaborationDagNodeStatus, pending, ready, running, completed,
  failed, skipped, cancelled, status_beq, is_terminal_status,
}
use agent_chatgpt_bridge.CollaborationDag.Limits

abbrev pub Status : Type 0
Status = CollaborationDagNodeStatus

pub record Transition : Type 0 where
  pub node_id : Text
  pub from : Status
  pub to : Status

-- `active` maps a running node to its participant, in the order of dispatch. The sets are lists of
-- their members. `aborted` is `rootAbort.signal.aborted`.
pub record State (T : Type 0) : Type 0 where
  pub statuses : Text → Status
  pub completed_nodes : List Text
  pub settled_nodes : List Text
  pub failed_node_ids : List Text
  pub skipped_node_ids : List Text
  pub active_participants : List Text
  pub active : List (Text × Text)
  pub outputs_by_node : List (Text × T)
  pub dispatch_order : List Text
  pub completion_order : List Text
  pub max_observed_parallelism : ℕ
  pub aborted : Bool
  pub transitions : List Transition

pub data SchedulerError : Type 0 where
  invalid_parallelism dag_cancelled deadlock invalid_state : SchedulerError
  recovery_required node_failed : Text → SchedulerError

-- Where the function stands: at `Promise.race`, returned, or thrown.
pub data Phase (T : Type 0) : Type 0 where
  waiting finished : State T → Phase T
  thrown : SchedulerError → State T → Phase T

abbrev pub state_of : {T : Type 0} → Phase T → State T
state_of (waiting s) = s
state_of (finished s) = s
state_of (thrown e s) = s

-- How `executeNode` ends.
pub data Settled (T : Type 0) : Type 0 where
  ok : T → Settled T
  error : Settled T

-- `siblings` tells how each other running node ends, where the function waits for all of them.
pub data Event (T : Type 0) : Type 0 where
  abort : Event T
  settle : Text → Settled T → (siblings : Text → Settled T) → Event T

-- `plan.nodesById[id]!`, for the fields that the scheduler reads. The ids that it looks up are all
-- in the plan.
abbrev pub depends_on_in : List (Text × CollaborationDagPlannedNode) → Text → List Text
depends_on_in [] id = []
depends_on_in ((key, n) ∷ rest) id = if key == id then n.depends_on else depends_on_in rest id

abbrev pub dependents_in : List (Text × CollaborationDagPlannedNode) → Text → List Text
dependents_in [] id = []
dependents_in ((key, n) ∷ rest) id = if key == id then n.dependents else dependents_in rest id

abbrev pub participant_in : List (Text × CollaborationDagPlannedNode) → Text → Text
participant_in [] id = []
participant_in ((key, n) ∷ rest) id = if key == id then n.participant_id else participant_in rest id

-- `set.add` and `set.delete`
abbrev pub add_to : Text → List Text → List Text
add_to id ids = if contains id ids then ids else ids ++ id ∷ []

abbrev pub remove : Text → List Text → List Text
remove id [] = []
remove id (x ∷ xs) = if x == id then remove id xs else x ∷ remove id xs

-- `map.delete`
abbrev pub remove_key : Text → List (Text × Text) → List (Text × Text)
remove_key id [] = []
remove_key id ((key, v) ∷ rest) =
    if key == id then remove_key id rest else (key, v) ∷ remove_key id rest

abbrev pub keys : List (Text × Text) → List Text
keys [] = []
keys ((key, v) ∷ rest) = key ∷ keys rest

abbrev pub values : List (Text × Text) → List Text
values [] = []
values ((key, v) ∷ rest) = v ∷ values rest

abbrev pub participant_of : Text → List (Text × Text) → Option Text
participant_of id [] = none
participant_of id ((key, v) ∷ rest) = if key == id then some v else participant_of id rest

-- `deps.every(depId => completed.has(depId))`
abbrev pub every_in : List Text → List Text → Bool
every_in set [] = true
every_in set (d ∷ ds) = contains d set && every_in set ds

abbrev pub update_status : (Text → Status) → Text → Status → Text → Status
update_status statuses id status x = if x == id then status else statuses x

abbrev pub is_open : Status → Bool
is_open pending = true
is_open ready = true
is_open _ = false

-- `break`, `continue`, or go on, by the tests at the head of the loop.
pub data Verdict : Type 0 where
  stop skip go : Verdict

abbrev pub is_stop : Verdict → Bool
is_stop stop = true
is_stop _ = false

abbrev pub is_empty : List (Text × Text) → Bool
is_empty [] = true
is_empty (_ ∷ _) = false

module _ {T : Type 0} where
  -- `transition`. It throws for a node that is not in `statuses`, and is given none.
  unfoldable pub transition : Text → Status → State T → State T
  transition id to s = record s {
    statuses = update_status s.statuses id to;
    transitions = s.transitions ++ record { node_id = id; from = s.statuses id; to = to } ∷ [];
  }

  -- `transition(id, to); settledNodes.add(id)`
  unfoldable pub settle_as : Text → Status → State T → State T
  unfolding transition
  settle_as id to s =
      let s' = transition id to s in record s' { settled_nodes = add_to id s.settled_nodes }

  -- Cancels what has not started.
  unfoldable pub cancel_remaining : List Text → State T → State T
  cancel_remaining [] s = s
  cancel_remaining (id ∷ ids) s =
      cancel_remaining ids (if is_open (s.statuses id) then settle_as id cancelled s else s)

module _ {T : Type 0} (plan : CollaborationDagExecutionPlan) where
  -- Marks the nodes whose dependencies are done.
  unfoldable pub mark_ready : List Text → State T → State T
  mark_ready [] s = s
  mark_ready (id ∷ ids) s = mark_ready ids (
      if status_beq (s.statuses id) pending
        && every_in s.completed_nodes (depends_on_in plan.nodes_by_id id)
      then transition id ready s
      else s)

  -- Starts a node.
  unfoldable pub dispatch : Text → State T → State T
  dispatch id s =
      let participant = participant_in plan.nodes_by_id id in
      let s' = transition id running s in
      record s' {
        active_participants = add_to participant s.active_participants;
        dispatch_order = s.dispatch_order ++ id ∷ [];
        active = s.active ++ (id, participant) ∷ [];
        max_observed_parallelism = max s.max_observed_parallelism (length s.active + 1);
      }

  unfoldable pub verdict : ℕ → Text → State T → Verdict
  verdict limit id s =
      if leb limit (length s.active)
      then stop
      else if not (status_beq (s.statuses id) ready)
      then skip
      else if contains (participant_in plan.nodes_by_id id) s.active_participants
      then skip
      else if s.aborted
      then stop
      else go

  -- The rest of the loop's body.
  abbrev pub advance : Verdict → Text → State T → State T
  advance go id s = dispatch id s
  advance _ id s = s

  -- Fills the free slots.
  unfoldable pub fill : ℕ → List Text → State T → State T
  fill limit [] s = s
  fill limit (id ∷ ids) s =
      let v = verdict limit id s in if is_stop v then s else fill limit ids (advance v id s)

  -- From the head of the `while` loop to the next `await`, or to the end. Where nothing runs and
  -- the signal is aborted, `continue` leads to the cancellation at the head.
  unfoldable pub round : ℕ → State T → Phase T
  round limit s =
      let s' = fill limit plan.topological_order (mark_ready plan.topological_order s) in
      if leb (length plan.node_ids) (length s.settled_nodes)
      then finished s
      else if s.aborted && is_empty s.active
      then thrown dag_cancelled (cancel_remaining plan.node_ids s)
      else if not (is_empty s'.active)
      then waiting s'
      else if s'.aborted
      then thrown dag_cancelled (cancel_remaining plan.node_ids s')
      else thrown deadlock s'
