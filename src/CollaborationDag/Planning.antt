-- ===== src/CollaborationDag/Planning.antt =====
-- `planCollaborationDag` of src/core/collaboration-dag-validation.ts.
mod Samples
mod Encoding
mod Accepted
mod Graph
pub mod Correct
pub mod Acyclic
pub mod Bounds
pub mod Closed
pub mod Budget
use agent_chatgpt_bridge.Common.{
  ℕ, zero, suc, ◌+◌, Bool, true, false, List, [], ◌∷◌, ◌++◌, Option, none, some, map, Equality,
  ◌==◌, if◌then◌else◌, eqb, length, list_equality, number_equality,
}
use agent_chatgpt_bridge.Js.{
  Text, Number, Value, bool, num, str, arr, obj, undefined, from_list, field, end_fields,
}
use agent_chatgpt_bridge.Kahn
use agent_chatgpt_bridge.Kahn.{Entry, Work}
use agent_chatgpt_bridge.CollaborationDag.{
  CollaborationDagBudget, CollaborationDagNodeDefinition, CollaborationDagDefinition,
  CollaborationDagPlannedNode, CollaborationDagExecutionPlan,
}
use agent_chatgpt_bridge.CollaborationDag.Issues.{Issue}
use agent_chatgpt_bridge.CollaborationDag.Validation.{
  Options, Outcome, returned, type_error, validate_budget, validate_definition,
}

-- What the validators see of typed values: an absent field is `undefined`.
abbrev pub bool_value : Option Bool → Value
bool_value none = undefined
bool_value (some b) = bool b

abbrev pub number_value : Option Number → Value
number_value none = undefined
number_value (some n) = num n

abbrev pub node_value : CollaborationDagNodeDefinition → Value
node_value n = obj (
    field "id" (str n.id) (
      field "participantId" (str n.participant_id) (
        field "instruction" (str n.instruction) (
          field "dependsOn" (arr (from_list (map str n.depends_on))) (
            field "terminal" (bool_value n.terminal) (
              field "retryLimit" (number_value n.retry_limit)
                (field "timeoutMs" (number_value n.timeout_ms) end_fields)))))))

abbrev pub graph_value : CollaborationDagDefinition → Value
graph_value graph = obj (
    field "version" (num (Number.nat 1))
      (field "nodes" (arr (from_list (map node_value graph.nodes))) end_fields))

abbrev pub budget_value : CollaborationDagBudget → Value
budget_value b = obj (
    field "maxTurns" (num b.max_turns) (
      field "maxParticipants" (num b.max_participants) (
        field "maxParallelTurns" (num b.max_parallel_turns) (
          field "maxRetriesPerParticipant" (num b.max_retries_per_participant)
            (field "maxWallClockMs" (num b.max_wall_clock_ms) end_fields)))))

-- `planned`, or the `CollaborationDagValidationError` with its issues, or a TypeError.
pub data PlanOutcome : Type 0 where
  planned : CollaborationDagExecutionPlan → PlanOutcome
  invalid : List Issue → PlanOutcome
  broken : PlanOutcome

abbrev pub entry : CollaborationDagNodeDefinition → Entry Text
entry n = record { id = n.id; size = length n.depends_on; deps = n.depends_on }

abbrev pub is_true : Option Bool → Bool
is_true none = false
is_true (some b) = b

abbrev pub number_or : Option Number → Number → Number
number_or none default = default
number_or (some n) default = n

-- `options.budget?.maxRetriesPerParticipant ?? 0`
abbrev pub fallback_retry_limit : Option CollaborationDagBudget → Number
fallback_retry_limit none = Number.nat 0
fallback_retry_limit (some b) = b.max_retries_per_participant

unfoldable pub planned_node :
    Options
    → List (Entry Text)
    → Work Text
    → CollaborationDagNodeDefinition
    → CollaborationDagPlannedNode
planned_node options entries work n = record {
  id = n.id;
  participant_id = n.participant_id;
  instruction = n.instruction;
  depends_on = n.depends_on;
  dependents = Kahn.mentions entries n.id;
  declaration_index = Kahn.index_of n.id (Kahn.ids entries);
  indegree = Kahn.initial_indegree entries n.id;
  topological_level = work.levels n.id;
  terminal = is_true n.terminal;
  retry_limit = number_or n.retry_limit (fallback_retry_limit options.budget);
  timeout_ms = n.timeout_ms;
}

abbrev pub ids_with :
    (CollaborationDagNodeDefinition → ℕ) → List CollaborationDagNodeDefinition → List Text
ids_with degree [] = []
ids_with degree (n ∷ ns) = (if eqb (degree n) 0 then n.id ∷ [] else []) ++ ids_with degree ns

abbrev pub edge_sum : List CollaborationDagNodeDefinition → ℕ
edge_sum [] = 0
edge_sum (n ∷ ns) = length n.depends_on + edge_sum ns

-- What stands behind the validation.
unfoldable pub build_plan :
    Options → List CollaborationDagNodeDefinition → CollaborationDagExecutionPlan
build_plan options nodes =
    let entries = map entry nodes in
    let work = Kahn.plan entries in
    record {
      edge_count = edge_sum nodes;
      node_ids = Kahn.ids entries;
      topological_order = work.order;
      root_node_ids = Kahn.sort (Kahn.ids entries) (ids_with (λ n. length n.depends_on) nodes);
      sink_node_ids =
          Kahn.sort (Kahn.ids entries)
            (ids_with (λ n. length (Kahn.dependents entries n.id)) nodes);
      nodes_by_id = map (λ n. (n.id, planned_node options entries work n)) nodes;
    }

abbrev pub budget_issues : Option CollaborationDagBudget → List Issue
budget_issues none = []
budget_issues (some b) = validate_budget (budget_value b)

-- `if (issues.length > 0) throw ...`
abbrev pub plan_unless : List Issue → CollaborationDagExecutionPlan → PlanOutcome
plan_unless [] p = planned p
plan_unless (i ∷ is) p = invalid (i ∷ is)

-- `planCollaborationDag`
unfoldable pub plan_collaboration_dag : CollaborationDagDefinition → Options → PlanOutcome
plan_collaboration_dag graph options = elim (validate_definition (graph_value graph) options) [
  | returned issues ↦
      plan_unless (issues ++ budget_issues options.budget) (build_plan options graph.nodes)
  | type_error ↦ broken
]
