-- ===== src/DagScheduler/Moves.antt =====
-- src/core/collaboration-dag-scheduler.ts, lines 72-108 and 203-306: how the function starts, what
-- it does when a running node settles, and the moves of the environment.
use agent_chatgpt_bridge.Common.{
  ℕ, zero, suc, ◌+◌, Bool, true, List, [], ◌∷◌, ◌++◌, Option, none, some, list_equality,
  number_equality, if◌then◌else◌, leb, length, contains,
}
use agent_chatgpt_bridge.Js.{Text, Number, positive_integer}
use agent_chatgpt_bridge.CollaborationDag.{
  CollaborationDagExecutionPlan, CollaborationDagPlannedNode, CollaborationDagFailurePolicy,
  fail_fast, skip_dependents, pending, running, completed, failed, skipped, cancelled, status_beq,
  is_terminal_status,
}
use agent_chatgpt_bridge.CollaborationDag.Limits
use agent_chatgpt_bridge.DagScheduler.{
  State, Status, Phase, waiting, thrown, invalid_parallelism, dag_cancelled, invalid_state,
  recovery_required, node_failed, Settled, ok, error, Event, abort, settle, dependents_in, add_to,
  remove, remove_key, keys, participant_of, update_status, settle_as, is_open, round,
}

abbrev pub dependents_sum : List (Text × CollaborationDagPlannedNode) → ℕ
dependents_sum [] = 0
dependents_sum ((key, n) ∷ rest) = length n.dependents + dependents_sum rest

module _ {T : Type 0} where
  -- `active.get(id)`, `active.delete(id)`, `activeParticipants.delete(entry.participantId)`
  unfoldable pub release_entry : Text → Option Text → State T → State T
  release_entry id none s = s
  release_entry id (some participant) s = record s {
    active = remove_key id s.active;
    active_participants = remove participant s.active_participants;
  }

  unfoldable pub release : Text → State T → State T
  release id s = release_entry id (participant_of id s.active) s

  unfoldable pub complete : Text → T → State T → State T
  complete id output s =
      let s' = settle_as id completed s in
      record s' {
        completed_nodes = add_to id s.completed_nodes;
        outputs_by_node = s.outputs_by_node ++ (id, output) ∷ [];
        completion_order = s.completion_order ++ id ∷ [];
      }

  abbrev pub skip_one : Text → State T → State T
  skip_one id s =
      if is_open (s.statuses id)
      then record (settle_as id skipped s) { skipped_node_ids = s.skipped_node_ids ++ id ∷ [] }
      else s

  -- One result of `Promise.all` over the siblings, for a node that is `running`.
  abbrev pub drain_as : Settled T → Text → State T → State T
  drain_as (ok output) id s = complete id output s
  drain_as error id s = settle_as id cancelled s

  abbrev pub drain_one : (Text → Settled T) → Text → State T → State T
  drain_one siblings id s =
      let s' = release id s in
      if status_beq (s.statuses id) running then drain_as (siblings id) id s' else s'

  unfoldable pub drain_siblings : (Text → Settled T) → List Text → State T → State T
  drain_siblings siblings [] s = s
  drain_siblings siblings (id ∷ ids) s = drain_siblings siblings ids (drain_one siblings id s)

  unfoldable pub fail : Text → State T → State T
  fail id s =
      let s' = settle_as id failed s in record s' { failed_node_ids = s.failed_node_ids ++ id ∷ [] }

  -- The loop over `plan.nodeIds` that reads `initialStatusesByNode`; `pending` where it has none.
  unfoldable pub load : (Text → Status) → List Text → State T → Phase T
  load initial [] s = waiting s
  load initial (id ∷ ids) s =
      if status_beq (initial id) running
      then thrown (recovery_required id) s
      else load initial ids (record s {
        statuses = update_status s.statuses id (initial id);
        completed_nodes =
            if status_beq (initial id) completed
            then add_to id s.completed_nodes
            else s.completed_nodes;
        settled_nodes =
            if is_terminal_status (initial id) then add_to id s.settled_nodes else s.settled_nodes;
      })

  abbrev pub no_state : Bool → State T
  no_state aborted = record {
    statuses = λ _. pending;
    completed_nodes = [];
    settled_nodes = [];
    failed_node_ids = [];
    skipped_node_ids = [];
    active_participants = [];
    active = [];
    outputs_by_node = [];
    dispatch_order = [];
    completion_order = [];
    max_observed_parallelism = 0;
    aborted = aborted;
    transitions = [];
  }

module _ {T : Type 0} (plan : CollaborationDagExecutionPlan) where
  -- The `while (queue.length > 0)` loop that skips every transitive dependent; where the id is in
  -- `seen` already, `continue`. It returns what is left of the queue when the fuel is spent, and the
  -- state.
  unfoldable pub skip_loop : ℕ → List Text → List Text → State T → List Text × State T
  skip_loop fuel [] seen s = ([], s)
  skip_loop zero (id ∷ queue) seen s = (id ∷ queue, s)
  skip_loop (suc fuel) (id ∷ queue) seen s =
      let known = contains id seen in
      skip_loop fuel (if known then queue else queue ++ dependents_in plan.nodes_by_id id)
        (add_to id seen) (if known then s else skip_one id s)

  -- Enough fuel: what is queued first, and what every node queues once.
  unfoldable pub skip_all : Text → State T → State T
  skip_all id s =
      let queue = dependents_in plan.nodes_by_id id in
      (skip_loop (length queue + dependents_sum plan.nodes_by_id) queue [] s).1

  -- `failedNodeIds.push(id)` and what follows it, by the policy.
  unfoldable pub on_failure :
      ℕ → CollaborationDagFailurePolicy → Text → (Text → Settled T) → State T → Phase T
  on_failure limit skip_dependents id siblings s = round plan limit (skip_all id (fail id s))
  on_failure limit fail_fast id siblings s =
      thrown (node_failed id)
        (drain_siblings siblings (keys s.active) (record (fail id s) { aborted = true }))

  -- What follows `Promise.race` for a rejected promise.
  unfoldable pub after_error :
      ℕ → CollaborationDagFailurePolicy → Text → (Text → Settled T) → State T → Phase T
  after_error limit policy id siblings s =
      if s.aborted
      then thrown dag_cancelled (drain_siblings siblings (keys s.active) (settle_as id cancelled s))
      else on_failure limit policy id siblings s

  unfoldable pub on_settled :
      ℕ → CollaborationDagFailurePolicy → Text → Settled T → (Text → Settled T) → State T → Phase T
  on_settled limit policy id (ok output) siblings s = round plan limit (complete id output s)
  on_settled limit policy id error siblings s = after_error limit policy id siblings s

  -- A move of the environment while the function waits.
  unfoldable pub step : ℕ → CollaborationDagFailurePolicy → Event T → State T → Phase T
  step limit policy abort s = waiting (record s { aborted = true })
  step limit policy (settle id result siblings) s =
      if contains id (keys s.active)
      then on_settled limit policy id result siblings (release id s)
      else thrown invalid_state s

  -- The moves in turn; what comes after the end changes nothing.
  unfoldable pub run_from : ℕ → CollaborationDagFailurePolicy → List (Event T) → Phase T → Phase T
  run_from limit policy [] phase = phase
  run_from limit policy (e ∷ es) (waiting s) = run_from limit policy es (step limit policy e s)
  run_from limit policy (e ∷ es) phase = phase

  abbrev pub enter : ℕ → Phase T → Phase T
  enter limit (waiting s) = round plan limit s
  enter limit phase = phase

  unfoldable pub run_with :
      Option ℕ → CollaborationDagFailurePolicy → (Text → Status) → Bool → List (Event T) → Phase T
  run_with none policy initial aborted events = thrown invalid_parallelism (no_state aborted)
  run_with (some limit) policy initial aborted events =
      if leb limit Limits.max_parallel_turns
      then run_from limit policy events
          (enter limit (load initial plan.node_ids (no_state aborted)))
      else thrown invalid_parallelism (no_state aborted)

  -- `runBoundedCollaborationDag` under the moves of the environment. A policy that is neither of the
  -- two is no value of its type.
  unfoldable pub run_bounded_collaboration_dag :
      Number → CollaborationDagFailurePolicy → (Text → Status) → Bool → List (Event T) → Phase T
  run_bounded_collaboration_dag max_parallel_turns policy initial aborted events =
      run_with (positive_integer max_parallel_turns) policy initial aborted events
