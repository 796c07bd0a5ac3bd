-- ===== src/CollaborationDag/Planning/Bounds.antt =====
-- The limits that every plan keeps.
use agent_chatgpt_bridge.Common.{◌≤◌, ◌≡◌, refl, Bool, true, false, [], map, ltb, arith, length}
use agent_chatgpt_bridge.CollaborationDag.{
  CollaborationDagDefinition, CollaborationDagExecutionPlan,
}
use agent_chatgpt_bridge.CollaborationDag.Limits
use agent_chatgpt_bridge.CollaborationDag.Issues.{IssueCode, IssuePath, issue_if, pushes_nil}
use agent_chatgpt_bridge.CollaborationDag.Validation.{Options, gather, scan_nodes, over, limit_of}
use agent_chatgpt_bridge.CollaborationDag.Planning.{
  planned, plan_collaboration_dag, build_plan, node_value, edge_sum,
}
use agent_chatgpt_bridge.CollaborationDag.Planning.Encoding.{
  length-node_ids, length-nodes, scan_edges-count,
}
use agent_chatgpt_bridge.CollaborationDag.Planning.Accepted.{planned_inv, seen, loop_issues}
use agent_chatgpt_bridge.CollaborationDag.Planning.Graph.{Nodes}

issue_if_nil :
    (test : Bool) (code : IssueCode) (path : IssuePath)
    → issue_if test code path ≡ []
    → test ≡ false
issue_if_nil true code path h = cc
issue_if_nil false code path h = refl

module _ (options : Options) (nodes : Nodes) (clean : loop_issues options nodes ≡ []) where
  pub record Parts : Type 0 where
    pub few_nodes : ltb Limits.max_nodes (length nodes) ≡ false
    pub few_turns : over (limit_of (λ b. b.max_turns) options.budget) (length nodes) ≡ false
    pub nodes_clean : (scan_nodes options 0 [] (map node_value nodes)).0 ≡ []
    pub few_edges : ltb Limits.max_edges (edge_sum nodes) ≡ false

  pub parts : Parts
  unfolding gather
  parts =
      let all = pushes_nil _ clean in
      record {
        few_nodes = ground (arith, all.1.0, length-nodes nodes);
        few_turns = rw (length-nodes nodes) at (issue_if_nil _ _ _ (all.1.1.0));
        nodes_clean = all.1.1.1.0;
        few_edges = ground (arith, all.1.1.1.1.1.0, scan_edges-count (seen options nodes) 0 nodes);
      }

-- If `planCollaborationDag` returns a plan, it has from 1 to 64 nodes and at most 256 edges.
pub plan_bounds :
    (graph : CollaborationDagDefinition) (options : Options) (p : CollaborationDagExecutionPlan)
    → plan_collaboration_dag graph options ≡ planned p
    → (1 ≤ length p.node_ids) × (length p.node_ids ≤ 64) × (p.edge_count ≤ 256)
unfolding build_plan
plan_bounds graph options p h =
    let made = planned_inv graph options h in
    let all = parts options graph.nodes made.accepted.clean in
    rw made.built (
      omega (arith, made.accepted.some_node, length-node_ids graph.nodes),
      ground (arith, all.few_nodes, length-node_ids graph.nodes),
      ground (arith, all.few_edges),
    )
