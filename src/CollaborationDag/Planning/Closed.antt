-- ===== src/CollaborationDag/Planning/Closed.antt =====
-- What a plan promises of its nodes: they depend on nodes of the plan.
use agent_chatgpt_bridge.Common.{
  ◌≡◌, sym, subst, true, List, [], ◌∷◌, some, map, list_equality, number_equality, contains, arith,
  All,
}
use agent_chatgpt_bridge.Js.{Text}
use agent_chatgpt_bridge.Kahn
use agent_chatgpt_bridge.Kahn.{Work}
use agent_chatgpt_bridge.Kahn.Invariant.{deps_of}
use agent_chatgpt_bridge.CollaborationDag.{
  CollaborationDagDefinition, CollaborationDagExecutionPlan, CollaborationDagPlannedNode,
  planned_in,
}
use agent_chatgpt_bridge.CollaborationDag.Validation.{Options}
use agent_chatgpt_bridge.CollaborationDag.Planning.{
  planned, plan_collaboration_dag, build_plan, planned_node, entry,
}
use agent_chatgpt_bridge.CollaborationDag.Planning.Accepted.{planned_inv, entries, entries-IsClosed}
use agent_chatgpt_bridge.CollaborationDag.Planning.Graph.{Nodes, All-contains}

planned_in-depends_on :
    (options : Options) (es : List (Kahn.Entry Text)) (w : Work Text) (ns : Nodes) (id : Text)
    (p : CollaborationDagPlannedNode)
    → planned_in (map (λ n. (n.id, planned_node options es w n)) ns) id ≡ some p
    → p.depends_on ≡ deps_of (map entry ns) id
unfolding planned_node
planned_in-depends_on options es w [] id p h = cc
planned_in-depends_on options es w (n ∷ ns) id p h =
    ground (arith, planned_in-depends_on options es w ns id p)

pub planned_in-IsClosed :
    (graph : CollaborationDagDefinition) (options : Options) (plan : CollaborationDagExecutionPlan)
    (id : Text) (p : CollaborationDagPlannedNode)
    → plan_collaboration_dag graph options ≡ planned plan
    → planned_in plan.nodes_by_id id ≡ some p
    → All (λ d. contains d plan.node_ids ≡ true) p.depends_on
unfolding build_plan
planned_in-IsClosed graph options plan id p h found =
    let made = planned_inv graph options h in
    let same =
      planned_in-depends_on options (entries graph.nodes) (Kahn.plan (entries graph.nodes))
        graph.nodes id p (subst (λ q. planned_in q.nodes_by_id id ≡ some p) made.built found) in
    All-contains (λ d. contains d plan.node_ids ≡ true) p.depends_on
      (λ d at.
        subst (λ q. contains d q.node_ids ≡ true) (sym made.built)
          (entries-IsClosed options graph.nodes made.accepted.sound d id
            (subst (λ ds. contains d ds ≡ true) same at)))
