-- ===== src/DagRecovery/Samples.antt =====
-- A small run that has stopped half-way, and what the gate says of it.
use agent_chatgpt_bridge.Common.{
  ℕ, ◌≡◌, refl, true, List, [], ◌∷◌, Option, none, some, map, String, ◌==◌, list_equality,
  number_equality, if◌then◌else◌, contains, All,
}
use mathlib.Core.Option
use agent_chatgpt_bridge.Errors.{ok, err}
use agent_chatgpt_bridge.Js.{codes, is_blank, Text}
use agent_chatgpt_bridge.Js.Number.{nat}
use agent_chatgpt_bridge.Kahn.{
  processed, drain, plan, plan_loop, relax, relax_levels, index_of, decrement, start,
}
use agent_chatgpt_bridge.CollaborationDag.{
  CollaborationDagNodeDefinition, CollaborationDagNodeStatus, pending, completed, default_budget,
  is_node_id, status_beq,
}
use agent_chatgpt_bridge.CollaborationDag.Issues.{has_structural, pushes}
use agent_chatgpt_bridge.CollaborationDag.Validation.{
  validate_definition, validate_budget, validate_nodes, gather, conclude, check_cycle, scan_nodes,
  scan_edges, scan_dependencies, read_nodes, validate_node, check_id, check_participant,
  check_instruction, check_dependencies, check_terminal, check_retry_limit, check_timeout,
}
use agent_chatgpt_bridge.CollaborationDag.Planning.{
  plan_collaboration_dag, build_plan, planned_node,
}
use agent_chatgpt_bridge.DagScheduler.{depends_on_in}
use agent_chatgpt_bridge.DagRecovery.{
  CollaborationDagNodeRecord, PersistedCollaborationDagInput, CollaborationMessageRecord,
  RoleBasedCollaborationRun, CollaborationDagRunMetadata, Gate, corrupt,
  CollaborationDagPersistedState, check_output, check_node, check_nodes, check_expected,
  expected_message_ids, check_input, check_inputs, check_provenance, derive_with,
  derive_persisted_state, nothing_derived, options_of,
}
use agent_chatgpt_bridge.DagRecovery.Order.{
  status_in, derive_persisted_state_order, derive_persisted_state_constructor,
}

program : Unit {0}
unfolding plan_collaboration_dag build_plan planned_node validate_budget validate_definition
    validate_nodes gather conclude check_cycle scan_nodes scan_edges scan_dependencies read_nodes
    has_structural pushes validate_node check_id check_participant check_instruction
    check_dependencies check_terminal check_retry_limit check_timeout processed drain plan plan_loop
    is_node_id is_blank relax relax_levels index_of decrement start check_output check_node
    check_nodes check_expected expected_message_ids check_input check_inputs check_provenance
    derive_with derive_persisted_state
program = tt

abbrev node : String → List String → CollaborationDagNodeDefinition
node id deps = record {
  id = codes id;
  participant_id = codes "p1";
  instruction = codes "do it";
  depends_on = map codes deps;
  terminal = none;
  retry_limit = some (nat 1);
  timeout_ms = none;
}

abbrev run : RoleBasedCollaborationRun
run = record {
  id = codes "r";
  budget = default_budget;
  participant_ids = codes "p1" ∷ [];
  role_of = λ id. some (codes "coder");
  turn_history = codes "t1" ∷ [];
}

abbrev record_of :
    String → ℕ → CollaborationDagNodeStatus → ℕ → Option String → CollaborationDagNodeRecord
record_of id index status attempt output = record {
  id = codes id;
  run_id = codes "r";
  participant_id = codes "p1";
  role_id = codes "coder";
  status = some status;
  declaration_index = nat index;
  attempt = nat attempt;
  retry_limit = nat 1;
  timeout_ms = none;
  output_message_id = Option.map codes output;
  error_code = none;
}

abbrev graph_metadata : CollaborationDagRunMetadata
graph_metadata = record {
  run_id = codes "r";
  graph = record { nodes = node "constructor" [] ∷ node "b" ("constructor" ∷ []) ∷ [] };
  max_parallel_turns = nat 2;
}

-- The first node is done, the second has not begun.
abbrev rows : List CollaborationDagNodeRecord
rows = record_of "constructor" 0 completed 1 (some "m") ∷ record_of "b" 1 pending 0 none ∷ []

abbrev inputs : List PersistedCollaborationDagInput
inputs =
    record {
      run_id = codes "r";
      node_id = codes "constructor";
      attempt = nat 1;
      predecessor_node_ids = [];
      predecessor_message_ids = [];
    }
    ∷ []

abbrev message : CollaborationMessageRecord
message = record {
  id = codes "m";
  run_id = codes "r";
  turn_id = codes "t1";
  decision_type = codes "message";
  content = codes "done";
  content_hash = [];
  sequence_index = nat 0;
  sender_participant_id = codes "p1";
  sender_role_id = codes "coder";
}

abbrev messages : Text → Option CollaborationMessageRecord
messages id = if id == codes "constructor" then some message else none

abbrev none_derived : CollaborationDagPersistedState
none_derived = record {
  plan = build_plan (options_of run) [];
  derived = nothing_derived;
  total_attempts_started = 0;
}

abbrev state_or : Gate CollaborationDagPersistedState → CollaborationDagPersistedState
state_or (ok state) = state
state_or (err e) = none_derived

abbrev state : CollaborationDagPersistedState
state = state_or (derive_persisted_state run graph_metadata rows inputs messages)

state_passed : derive_persisted_state run graph_metadata rows inputs messages ≡ ok state
unfolding program
state_passed = refl

state_statuses :
    state.derived.statuses_by_node ≡ (codes "constructor", completed) ∷ (codes "b", pending) ∷ []
unfolding program
state_statuses = refl

-- The same run before its first node has begun: the gate refuses it, for the node's name.
constructor_refused :
    derive_persisted_state run graph_metadata
      (record_of "constructor" 0 pending 0 none ∷ record_of "b" 1 pending 0 none ∷ [])
      []
      (λ id. none)
    ≡ err corrupt
unfolding program
constructor_refused = refl

derive_persisted_state_order_example :
    All
      (λ d.
        (contains d state.plan.node_ids ≡ true)
        × (status_beq (status_in state.derived.statuses_by_node d) completed ≡ true))
      (depends_on_in state.plan.nodes_by_id (codes "constructor"))
derive_persisted_state_order_example =
    derive_persisted_state_order run graph_metadata rows inputs messages state state_passed
      (codes "constructor") (rw state_statuses refl)

derive_persisted_state_constructor_example :
    (map (λ e. e.0) state.derived.statuses_by_node ≡ state.plan.node_ids)
    × (contains (codes "constructor") state.plan.node_ids ≡ true
        → status_in state.derived.statuses_by_node (codes "constructor") ≡ completed)
derive_persisted_state_constructor_example =
    derive_persisted_state_constructor run graph_metadata rows inputs messages state state_passed
