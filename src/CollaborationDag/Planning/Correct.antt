-- ===== src/CollaborationDag/Planning/Correct.antt =====
-- What a plan promises: an order in which the nodes can run, and levels.
use agent_chatgpt_bridge.Common.{
  ℕ, ◌<◌, ◌≡◌, refl, ◌∙◌, sym, ap, true, List, [], ◌∷◌, map, ◌==◌, list_equality, number_equality,
  ap, list_beq_iff, if◌then◌else◌, contains, count, arith, All, IsDistinct, beq_self,
}
use agent_chatgpt_bridge.Js.{Text}
use agent_chatgpt_bridge.Kahn
use agent_chatgpt_bridge.Kahn.{Work, index_of}
use agent_chatgpt_bridge.Kahn.Cycles.{deepest, count-order, order-IsTopological, level-eq}
use agent_chatgpt_bridge.Kahn.Invariant.{deps_of}
use agent_chatgpt_bridge.CollaborationDag.{
  CollaborationDagDefinition, CollaborationDagExecutionPlan, CollaborationDagPlannedNode,
}
use agent_chatgpt_bridge.CollaborationDag.Validation.{Options}
use agent_chatgpt_bridge.CollaborationDag.Planning.{
  planned, plan_collaboration_dag, build_plan, planned_node,
}
use agent_chatgpt_bridge.CollaborationDag.Planning.Encoding.{node_ids}
use agent_chatgpt_bridge.CollaborationDag.Planning.Accepted.{
  planned_inv, entries, entries-IsDistinct, entries-IsClosed,
}
use agent_chatgpt_bridge.CollaborationDag.Planning.Graph.{
  Nodes, All-named, All-deps, All-deps_of, entries-Sized,
}
use agent_chatgpt_bridge.Common.{All-map, All-both}

-- Every dependency of a node stands before it.
abbrev pub IsRunnable : CollaborationDagDefinition → List Text → Type 0
IsRunnable graph order =
    All
      (λ n.
        All (λ d. (contains d order ≡ true) × (index_of d order < index_of n.id order))
          n.depends_on)
      graph.nodes

-- If `planCollaborationDag` returns a plan, the ids of the nodes are distinct, `topologicalOrder`
-- holds each of them once and nothing else, and every dependency of a node stands before it.
pub plan-IsRunnable :
    (graph : CollaborationDagDefinition) (options : Options) (p : CollaborationDagExecutionPlan)
    → plan_collaboration_dag graph options ≡ planned p
    → IsDistinct p.node_ids
      × ((id : Text) → count id p.topological_order ≡ count id p.node_ids)
      × IsRunnable graph p.topological_order
unfolding build_plan
plan-IsRunnable graph options p h =
    let made = planned_inv graph options h in
    let distinct = entries-IsDistinct options graph.nodes made.accepted.sound in
    let sized = entries-Sized graph.nodes in
    rw made.built (
      distinct,
      count-order (entries graph.nodes) distinct sized made.accepted.complete,
      All-deps
          (λ d id.
            (contains d (Kahn.plan (entries graph.nodes)).order ≡ true)
            × (index_of d (Kahn.plan (entries graph.nodes)).order
                < index_of id (Kahn.plan (entries graph.nodes)).order))
          graph.nodes distinct
          (order-IsTopological (entries graph.nodes) distinct sized made.accepted.complete),
    )

-- `nodesById[id].topologicalLevel`
abbrev pub level_in : List (Text × CollaborationDagPlannedNode) → Text → ℕ
level_in [] id = 0
level_in ((key, n) ∷ rest) id = if key == id then n.topological_level else level_in rest id

level_in-planned :
    (options : Options) (es : List (Kahn.Entry Text)) (w : Work Text) (ns : Nodes) (id : Text)
    → contains id (node_ids ns) ≡ true
    → level_in (map (λ n. (n.id, planned_node options es w n)) ns) id ≡ w.levels id
unfolding planned_node
level_in-planned options es w [] id h = absurd (ground arith)
level_in-planned options es w (n ∷ ns) id h =
    ground (arith, level_in-planned options es w ns id, list_beq_iff n.id id)

deepest_ext :
    (f g : Text → ℕ) (ds : List Text)
    → ((d : Text) → contains d ds ≡ true → f d ≡ g d)
    → deepest f ds ≡ deepest g ds
deepest_ext f g [] h = refl
deepest_ext f g (d ∷ ds) h =
    ground (arith, h d, beq_self d, deepest_ext f g ds (λ x at. h x (ground arith)))

-- If `planCollaborationDag` returns a plan, the level that it gives to a node is 0 for a node with
-- no dependencies, and else one more than the greatest level of a dependency.
pub plan_levels :
    (graph : CollaborationDagDefinition) (options : Options) (p : CollaborationDagExecutionPlan)
    → plan_collaboration_dag graph options ≡ planned p
    → All
        (λ n. level_in p.nodes_by_id n.id ≡ deepest (level_in p.nodes_by_id) n.depends_on)
        graph.nodes
unfolding build_plan
plan_levels graph options p h =
    let made = planned_inv graph options h in
    let es = entries graph.nodes in
    let distinct = entries-IsDistinct options graph.nodes made.accepted.sound in
    let closed = entries-IsClosed options graph.nodes made.accepted.sound in
    rw made.built (
      All-map
        (λ n. (deps_of es n.id ≡ n.depends_on) × (contains n.id (node_ids graph.nodes) ≡ true))
        (λ n.
          level_in (build_plan options graph.nodes).nodes_by_id n.id
          ≡ deepest (level_in (build_plan options graph.nodes).nodes_by_id) n.depends_on)
        graph.nodes
        (λ n found.
          level_in-planned options es (Kahn.plan es) graph.nodes n.id found.1
          ∙ level-eq es distinct (entries-Sized graph.nodes) made.accepted.complete n.id
          ∙ ap (deepest (Kahn.plan es).levels) found.0
          ∙ sym (
              deepest_ext _ _ n.depends_on (λ d at.
                level_in-planned options es (Kahn.plan es) graph.nodes d
                  (closed d n.id (rw found.0 at)))))
        (All-both _ _ graph.nodes (All-deps_of graph.nodes distinct) (All-named graph.nodes)))
