-- ===== src/CollaborationDag/Planning/Acyclic.antt =====
-- What the validator says of cycles in a typed graph.
use agent_chatgpt_bridge.Common.{
  ℕ, ◌<◌, ◌≡◌, refl, false, not, List, [], ◌∷◌, map, list_equality, number_equality, arith, All,
  IsDistinct, ◌↔◌, eqb, length,
}
use agent_chatgpt_bridge.Js.{Text}
use agent_chatgpt_bridge.Kahn
use agent_chatgpt_bridge.Kahn.{Work, index_of}
use agent_chatgpt_bridge.Kahn.Cycles.{Ranking, processed_iff}
use agent_chatgpt_bridge.CollaborationDag.{CollaborationDagDefinition}
use agent_chatgpt_bridge.CollaborationDag.Issues.{
  Issue, IssueCode, IssuePath, issue_if, has_structural,
}
use agent_chatgpt_bridge.CollaborationDag.Validation.{Options, returned, validate_definition}
use agent_chatgpt_bridge.CollaborationDag.Validation.Codes.{
  has_cycle, has_cycle-append, gather-no_cycle,
}
use agent_chatgpt_bridge.CollaborationDag.Planning.{graph_value, node_value}
use agent_chatgpt_bridge.CollaborationDag.Planning.Encoding.{node_ids}
use agent_chatgpt_bridge.CollaborationDag.Planning.Accepted.{
  entries, entries-IsDistinct, loop_issues, answer, report, validate_definition-eq,
  entries-IsClosed, length-entries,
}
use agent_chatgpt_bridge.CollaborationDag.Planning.Graph.{
  Nodes, All-deps, deps_of_All, entries-Sized,
}

-- Numbers that grow along every dependency. They exist exactly if the dependencies have no cycle.
abbrev pub IsRanked : (Text → ℕ) → CollaborationDagDefinition → Type 0
IsRanked rank graph = All (λ n. All (λ d. rank d < rank n.id) n.depends_on) graph.nodes

report_sound :
    (options : Options) (nodes : Nodes)
    → has_structural (report options nodes) ≡ false
    → has_structural (loop_issues options nodes) ≡ false
report_sound options nodes h = ground arith

report_cycle :
    (options : Options) (nodes : Nodes)
    → has_structural (loop_issues options nodes) ≡ false
    → has_cycle (report options nodes)
      ≡ not (eqb (Kahn.processed (entries nodes)) (length (entries nodes)))
report_cycle options nodes sound =
    let found =
      issue_if (not (eqb (Kahn.processed (entries nodes)) (length nodes)))
        IssueCode.collaboration_dag_cycle IssuePath.graph_nodes in
    ground (
      arith,
      length-entries nodes,
      gather-no_cycle options (map node_value nodes),
      has_cycle-append (loop_issues options nodes) found,
    )

Ranking-iff :
    (nodes : Nodes)
    → IsDistinct (node_ids nodes)
    → Ranking (entries nodes) ↔ ((rank : Text → ℕ) × IsRanked rank (record { nodes = nodes }))
Ranking-iff nodes distinct = (
  λ (rank, grows). (rank, All-deps (λ d id. rank d < rank id) nodes distinct grows),
  λ (rank, grows). (rank, λ x y at. deps_of_All (λ d id. rank d < rank id) nodes x y grows at),
)

report_cycle_iff :
    (options : Options) (nodes : Nodes)
    → has_structural (loop_issues options nodes) ≡ false
    → (has_cycle (report options nodes) ≡ false)
      ↔ ((rank : Text → ℕ) × IsRanked rank (record { nodes = nodes }))
report_cycle_iff options nodes sound =
    let distinct = entries-IsDistinct options nodes sound in
    let says = report_cycle options nodes sound in
    let exact =
      processed_iff (entries nodes) distinct (entries-Sized nodes)
        (entries-IsClosed options nodes sound) in
    let ranked = Ranking-iff nodes distinct in
    (
      λ free. ranked.0 (exact.0 (ground arith)),
      λ r. let done = exact.1 (ranked.1 r) in ground arith,
    )

answer_cycle :
    (options : Options) (nodes : Nodes)
    → has_structural (answer options nodes) ≡ false
    → (has_cycle (answer options nodes) ≡ false)
      ↔ ((rank : Text → ℕ) × IsRanked rank (record { nodes = nodes }))
answer_cycle options [] h = (λ _. (λ _. 0, tt), λ _. refl)
answer_cycle options (n ∷ ns) h =
    report_cycle_iff options (n ∷ ns) (report_sound options (n ∷ ns) h)

-- On every typed graph `validateCollaborationDagDefinition` returns a list of issues (no
-- TypeError). If none of them keeps the cycle check from running (an unknown, invalid or own
-- dependency, or an id declared twice), the list has `collaboration_dag_cycle` exactly if the nodes
-- cannot be numbered so that every dependency has a smaller number than the node.
pub validate_definition_cycle :
    (graph : CollaborationDagDefinition) (options : Options)
    → (issues : List Issue) × (validate_definition (graph_value graph) options ≡ returned issues)
      × (has_structural issues ≡ false
          → (has_cycle issues ≡ false) ↔ ((rank : Text → ℕ) × IsRanked rank graph))
validate_definition_cycle graph options = (
  answer options graph.nodes,
  validate_definition-eq options graph,
  answer_cycle options graph.nodes,
)
