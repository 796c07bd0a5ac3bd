-- ===== src/CollaborationDag/Planning/Samples.antt =====
-- Small graphs, and what the program does on them.
use agent_chatgpt_bridge.Common.{
  count, length, All, IsDistinct, false, true, ◌↔◌, ◌≤◌, list_equality, number_equality, ◌≡◌, refl,
  List, [], ◌∷◌, none, some, String, map, ℕ,
}
use agent_chatgpt_bridge.Js.{
  codes, is_blank, Text, Number, Value, obj, arr, str, num, field, end_fields, item, end_items,
}
use agent_chatgpt_bridge.CollaborationDag.{
  CollaborationDagNodeDefinition, CollaborationDagDefinition, default_budget, is_node_id,
  CollaborationDagExecutionPlan, CollaborationDagNodeStatus, failed, is_terminal_status,
}
use agent_chatgpt_bridge.Kahn.{
  processed, drain, plan, plan_loop, relax, relax_levels, index_of, decrement, start,
}
use agent_chatgpt_bridge.Kahn.Cycles.{deepest}
use agent_chatgpt_bridge.CollaborationDag.Transitions.{Reaches, is_terminal_status_iff}
use agent_chatgpt_bridge.CollaborationDag.Validation.Shape.{validate_definition_throws}
use agent_chatgpt_bridge.CollaborationDag.Validation.Codes.{has_cycle}
use agent_chatgpt_bridge.CollaborationDag.Planning.Correct.{
  IsRunnable, plan-IsRunnable, level_in, plan_levels,
}
use agent_chatgpt_bridge.CollaborationDag.Planning.Acyclic.{IsRanked, validate_definition_cycle}
use agent_chatgpt_bridge.CollaborationDag.Planning.Bounds.{plan_bounds}
use agent_chatgpt_bridge.CollaborationDag.Planning.Budget.{AtMost, IsSound, plan_budget}
use agent_chatgpt_bridge.CollaborationDag.Issues.{
  Issue, IssueCode, IssuePath, issue, has_structural, pushes,
}
use agent_chatgpt_bridge.CollaborationDag.Validation.{
  Options, returned, type_error, validate_definition, validate_budget, validate_nodes, gather,
  conclude, check_cycle, scan_nodes, scan_edges, scan_dependencies, read_nodes, validate_node,
  check_id, check_participant, check_instruction, check_dependencies, check_terminal,
  check_retry_limit, check_timeout,
}
use agent_chatgpt_bridge.CollaborationDag.Planning.{
  graph_value, planned, invalid, plan_collaboration_dag, build_plan, planned_node,
}

abbrev node : String → List String → CollaborationDagNodeDefinition
node id deps = record {
  id = codes id;
  participant_id = codes "p1";
  instruction = codes "do it";
  depends_on = map codes deps;
  terminal = none;
  retry_limit = none;
  timeout_ms = none;
}

abbrev pub options : Options
options = record { known_participant_ids = some (codes "p1" ∷ []); budget = some default_budget }

-- c depends on a and b, and d on c; they are declared in another order.
abbrev pub diamond : CollaborationDagDefinition
diamond = record {
  nodes =
      node "d" ("c" ∷ "b" ∷ [])
      ∷ node "c" ("a" ∷ "b" ∷ [])
      ∷ node "b" []
      ∷ node "a" ("b" ∷ [])
      ∷ [];
}

-- What a run of the planner opens.
program : Unit {0}
unfolding plan_collaboration_dag build_plan planned_node validate_budget validate_definition
    validate_nodes gather conclude check_cycle scan_nodes scan_edges scan_dependencies read_nodes
    has_structural pushes validate_node check_id check_participant check_instruction
    check_dependencies check_terminal check_retry_limit check_timeout processed drain plan plan_loop
    is_node_id is_blank relax relax_levels index_of decrement start
program = tt

pub diamond_planned :
    plan_collaboration_dag diamond options ≡ planned (build_plan options diamond.nodes)
unfolding program
diamond_planned = refl

diamond_order :
    (build_plan options diamond.nodes).topological_order
    ≡ codes "b" ∷ codes "a" ∷ codes "c" ∷ codes "d" ∷ []
unfolding program
diamond_order = refl

abbrev pub loop : CollaborationDagDefinition
loop = record { nodes = node "a" ("b" ∷ []) ∷ node "b" ("a" ∷ []) ∷ [] }

loop_refused :
    plan_collaboration_dag loop options
    ≡ invalid (issue IssueCode.collaboration_dag_cycle IssuePath.graph_nodes)
unfolding program
loop_refused = refl

abbrev diamond_plan : CollaborationDagExecutionPlan
diamond_plan = build_plan options diamond.nodes

plan-IsRunnable_example :
    IsDistinct diamond_plan.node_ids
    × ((id : Text) → count id diamond_plan.topological_order ≡ count id diamond_plan.node_ids)
    × IsRunnable diamond diamond_plan.topological_order
plan-IsRunnable_example = plan-IsRunnable diamond options diamond_plan diamond_planned

plan_levels_example :
    All
      (λ n.
        level_in diamond_plan.nodes_by_id n.id
        ≡ deepest (level_in diamond_plan.nodes_by_id) n.depends_on)
      diamond.nodes
plan_levels_example = plan_levels diamond options diamond_plan diamond_planned

plan_bounds_example :
    (1 ≤ length diamond_plan.node_ids)
    × (length diamond_plan.node_ids ≤ 64)
    × (diamond_plan.edge_count ≤ 256)
plan_bounds_example = plan_bounds diamond options diamond_plan diamond_planned

plan_budget_example :
    (sound : IsSound default_budget) × (length diamond_plan.node_ids ≤ sound.turns.0)
    × All (λ entry. AtMost entry.1.retry_limit sound.retries.0) diamond_plan.nodes_by_id
plan_budget_example = plan_budget diamond options default_budget diamond_plan refl diamond_planned

validate_definition_cycle_example :
    (issues : List Issue) × (validate_definition (graph_value loop) options ≡ returned issues)
    × (has_structural issues ≡ false
        → (has_cycle issues ≡ false) ↔ ((rank : Text → ℕ) × IsRanked rank loop))
validate_definition_cycle_example = validate_definition_cycle loop options

-- A node without `dependsOn`.
abbrev bare_node : Value
bare_node = obj (field "id" (str (codes "a")) end_fields)

abbrev bare_graph : Value
bare_graph = obj (
    field "version" (num (Number.nat 1))
      (field "nodes" (arr (item bare_node end_items)) end_fields))

validate_definition_throws_example : validate_definition bare_graph options ≡ type_error
validate_definition_throws_example =
    validate_definition_throws options bare_graph bare_node (codes "a") refl refl refl

is_terminal_status_iff_example :
    (is_terminal_status failed ≡ true)
    ↔ ((t : CollaborationDagNodeStatus) → Reaches failed t → failed ≡ t)
is_terminal_status_iff_example = is_terminal_status_iff failed
