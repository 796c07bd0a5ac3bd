-- ===== src/CollaborationDag.antt =====
-- src/core/collaboration-dag.ts: the graph of a collaboration, its limits, the plan made of it and
-- the statuses of a node. Ids are strings; participant and role ids too.
pub mod Limits
pub mod RunLimits
pub mod Transitions
pub mod Issues
pub mod Validation
pub mod Planning
use agent_chatgpt_bridge.Common.{
  ℕ, zero, suc, ◌+◌, ◌*◌, Bool, true, false, ◌&&◌, ◌||◌, List, [], ◌∷◌, Option, none, some, leb,
  eqb, length, Equality, contains, ◌==◌, list_equality, number_equality, if◌then◌else◌,
}
use agent_chatgpt_bridge.Js.{Text, Number, Value, Items, from_list, Fields}

-- `P5_DAG_NODE_ID_REGEX`, /^[a-z][a-z0-9_-]{0,63}$/
abbrev pub is_lower : ℕ → Bool
is_lower c = leb b'a' c && leb c b'z'

abbrev pub is_id_char : ℕ → Bool
is_id_char c = is_lower c || leb b'0' c && leb c b'9' || eqb c b'_' || eqb c b'-'

abbrev pub all_id_chars : Text → Bool
all_id_chars [] = true
all_id_chars (c ∷ cs) = is_id_char c && all_id_chars cs

unfoldable pub is_node_id : Text → Bool
is_node_id [] = false
is_node_id (c ∷ cs) = is_lower c && (leb (length cs) 63 && all_id_chars cs)

-- The fields are numbers that nothing has checked yet.
pub record CollaborationDagBudget : Type 0 where
  pub max_turns : Number
  pub max_participants : Number
  pub max_parallel_turns : Number
  pub max_retries_per_participant : Number
  pub max_wall_clock_ms : Number

-- `P5_DEFAULT_BUDGET`
abbrev pub default_budget : CollaborationDagBudget
default_budget = record {
  max_turns = Number.nat 30;
  max_participants = Number.nat 5;
  max_parallel_turns = Number.nat 2;
  max_retries_per_participant = Number.nat 2;
  max_wall_clock_ms = Number.nat (60 * 60 * 1000);
}

pub record CollaborationDagNodeDefinition : Type 0 where
  pub id : Text
  pub participant_id : Text
  pub instruction : Text
  pub depends_on : List Text
  pub terminal : Option Bool
  pub retry_limit : Option Number
  pub timeout_ms : Option Number

-- `version` is the literal 1 in the type.
pub record CollaborationDagDefinition : Type 0 where
  pub nodes : List CollaborationDagNodeDefinition

pub data CollaborationDagFailurePolicy : Type 0 where
  fail_fast skip_dependents : CollaborationDagFailurePolicy

pub data CollaborationDagNodeStatus : Type 0 where
  pending ready running completed failed skipped cancelled : CollaborationDagNodeStatus

pub record CollaborationDagPlannedNode : Type 0 where
  pub id : Text
  pub participant_id : Text
  pub instruction : Text
  pub depends_on : List Text
  pub dependents : List Text
  pub declaration_index : ℕ
  pub indegree : ℕ
  pub topological_level : ℕ
  pub terminal : Bool
  pub retry_limit : Number
  pub timeout_ms : Option Number

-- `nodesById` holds its entries in the order of declaration.
pub record CollaborationDagExecutionPlan : Type 0 where
  pub edge_count : ℕ
  pub node_ids : List Text
  pub topological_order : List Text
  pub root_node_ids : List Text
  pub sink_node_ids : List Text
  pub nodes_by_id : List (Text × CollaborationDagPlannedNode)

-- `nodesById[id]`, as an own property.
abbrev pub planned_in :
    List (Text × CollaborationDagPlannedNode) → Text → Option CollaborationDagPlannedNode
planned_in [] id = none
planned_in ((key, n) ∷ rest) id = if key == id then some n else planned_in rest id

-- `isCollaborationDagNodeTerminalStatus`
unfoldable pub is_terminal_status : CollaborationDagNodeStatus → Bool
is_terminal_status completed = true
is_terminal_status failed = true
is_terminal_status skipped = true
is_terminal_status cancelled = true
is_terminal_status _ = false

abbrev pub status_beq : CollaborationDagNodeStatus → CollaborationDagNodeStatus → Bool
status_beq pending pending = true
status_beq ready ready = true
status_beq running running = true
status_beq completed completed = true
status_beq failed failed = true
status_beq skipped skipped = true
status_beq cancelled cancelled = true
status_beq _ _ = false

-- `DAG_NODE_TRANSITIONS`
unfoldable pub dag_node_transitions : CollaborationDagNodeStatus → List CollaborationDagNodeStatus
dag_node_transitions pending = ready ∷ skipped ∷ cancelled ∷ []
dag_node_transitions ready = running ∷ skipped ∷ cancelled ∷ []
dag_node_transitions running = ready ∷ completed ∷ failed ∷ cancelled ∷ []
dag_node_transitions completed = completed ∷ []
dag_node_transitions failed = failed ∷ []
dag_node_transitions skipped = skipped ∷ []
dag_node_transitions cancelled = cancelled ∷ []

abbrev includes : List CollaborationDagNodeStatus → CollaborationDagNodeStatus → Bool
includes [] s = false
includes (t ∷ ts) s = status_beq t s || includes ts s

-- `isValidCollaborationDagNodeTransition`
unfoldable pub is_valid_transition : CollaborationDagNodeStatus → CollaborationDagNodeStatus → Bool
unfolding dag_node_transitions
is_valid_transition from to = includes (dag_node_transitions from) to
