-- ===== src/CollaborationDag/Planning/Accepted.antt =====
-- What is known of a typed graph when the validator reaches its cycle check.
use agent_chatgpt_bridge.Common.{
  ℕ, suc, ◌<◌, ◌≡◌, refl, ◌∙◌, ap, true, false, not, List, [], ◌∷◌, ◌++◌, map, list_equality,
  number_equality, if◌then◌else◌, eqb, length, contains, arith, IsDistinct, Bool-cases, inl, inr,
}
use agent_chatgpt_bridge.Js.{Text, to_list, from_list}
use agent_chatgpt_bridge.Kahn
use agent_chatgpt_bridge.Kahn.Cycles.{IsClosed}
use agent_chatgpt_bridge.CollaborationDag.{
  CollaborationDagNodeDefinition, CollaborationDagDefinition, CollaborationDagExecutionPlan,
}
use agent_chatgpt_bridge.CollaborationDag.Issues.{
  Issue, IssueCode, IssuePath, issue, issue_if, has_structural, pushes_sound, append_nil_parts,
}
use agent_chatgpt_bridge.CollaborationDag.Validation.{
  Options, returned, scan_nodes, scan_edges, check_cycle, validate_nodes, gather, conclude,
  validate_definition,
}
use agent_chatgpt_bridge.CollaborationDag.Planning.{
  node_value, graph_value, entry, planned, plan_unless, plan_collaboration_dag, build_plan,
  budget_issues,
}
use agent_chatgpt_bridge.CollaborationDag.Planning.Graph.{deps_of_All}
use agent_chatgpt_bridge.CollaborationDag.Planning.Encoding.{
  to_list-from_list, length-nodes, Closed, scan_edges-Closed, Scanned, scan_nodes-Scanned,
  length-node_ids,
}

eqb_self : (n : ℕ) → eqb n n ≡ true
eqb_self n = ground arith

abbrev pub entries : List CollaborationDagNodeDefinition → List (Kahn.Entry Text)
entries nodes = map entry nodes

pub length-entries :
    (nodes : List CollaborationDagNodeDefinition) → length (entries nodes) ≡ length nodes
length-entries [] = refl
length-entries (n ∷ ns) = ap suc (length-entries ns)

module _ (options : Options) (nodes : List CollaborationDagNodeDefinition) where
  -- `seen` and the issues of the two loops.
  abbrev pub seen : List Text
  seen = (gather options [] (map node_value nodes)).1

  abbrev pub loop_issues : List Issue
  loop_issues = (gather options [] (map node_value nodes)).0

  module _ (sound : has_structural loop_issues ≡ false) where
    tail_parts :
        (has_structural (scan_nodes options 0 [] (map node_value nodes)).0 ≡ false)
        × (has_structural (scan_edges seen 0 (map node_value nodes)).0 ≡ false)
    unfolding gather
    tail_parts = let all = pushes_sound _ sound in (all.1.1.1.0, all.1.1.1.1.0)

    scanned : Scanned [] nodes seen
    unfolding gather
    scanned = scan_nodes-Scanned options 0 [] nodes (λ a. omega arith) tail_parts.0

    closed : Closed seen nodes
    closed = scan_edges-Closed seen 0 nodes tail_parts.1

    pub entries-IsDistinct : IsDistinct (Kahn.ids (entries nodes))
    entries-IsDistinct = rw scanned.ids at (scanned.distinct)

    -- The cycle check runs, and finds a cycle exactly if not every node gets processed.
    pub check_cycle-eq :
        check_cycle seen (map node_value nodes)
        ≡ returned (
            issue_if
              (not (eqb (Kahn.processed (entries nodes)) (length nodes)))
              IssueCode.collaboration_dag_cycle
              IssuePath.graph_nodes)
    unfolding check_cycle
    check_cycle-eq = rw (closed.read, check_cycle, length-nodes nodes)

    length-seen : length seen ≡ length nodes
    length-seen = ap length scanned.ids ∙ length-node_ids nodes

  -- What the validator says of a graph with a node.
  abbrev pub report : List Issue
  report =
      if has_structural loop_issues
      then loop_issues
      else loop_issues
        ++ issue_if (not (eqb (Kahn.processed (entries nodes)) (length nodes)))
            IssueCode.collaboration_dag_cycle IssuePath.graph_nodes

conclude-eq :
    (options : Options) (nodes : List CollaborationDagNodeDefinition)
    → conclude (loop_issues options nodes) (seen options nodes) (map node_value nodes)
      ≡ returned (report options nodes)
unfolding conclude
conclude-eq options nodes = elim (Bool-cases (has_structural (loop_issues options nodes))) [
  | inl bad ↦ rw bad
  | inr sound ↦ rw (
    sound,
    length-seen options nodes sound,
    length-nodes nodes,
    eqb_self (length nodes),
    check_cycle-eq options nodes sound,
  )
]

validate_nodes-eq :
    (options : Options) (n : CollaborationDagNodeDefinition)
    (ns : List CollaborationDagNodeDefinition)
    → validate_nodes options [] (map node_value (n ∷ ns)) ≡ returned (report options (n ∷ ns))
unfolding validate_nodes
validate_nodes-eq options n ns = conclude-eq options (n ∷ ns)

abbrev pub answer : Options → List CollaborationDagNodeDefinition → List Issue
answer options [] = issue IssueCode.empty_dag IssuePath.graph_nodes
answer options (n ∷ ns) = report options (n ∷ ns)

-- A typed graph is always answered, never by a TypeError.
pub validate_definition-eq :
    (options : Options) (graph : CollaborationDagDefinition)
    → validate_definition (graph_value graph) options ≡ returned (answer options graph.nodes)
unfolding validate_definition validate_nodes
validate_definition-eq options graph = go graph.nodes
  where
    go :
        (nodes : List CollaborationDagNodeDefinition)
        → validate_nodes options [] (to_list (from_list (map node_value nodes)))
          ≡ returned (answer options nodes)
    go [] = refl
    go (n ∷ ns) = rw (to_list-from_list (map node_value (n ∷ ns))) (validate_nodes-eq options n ns)

-- What a graph without any issue meets.
pub record Accepted (options : Options) (nodes : List CollaborationDagNodeDefinition) : Type 0 where
  pub clean : loop_issues options nodes ≡ []
  pub sound : has_structural (loop_issues options nodes) ≡ false
  pub complete : Kahn.processed (entries nodes) ≡ length (entries nodes)
  pub some_node : 0 < length nodes

report_parts :
    (xs ys : List Issue) → (if has_structural xs then xs else xs ++ ys) ≡ [] → (xs ≡ []) × (ys ≡ [])
unfolding has_structural
report_parts [] ys h = (refl, h)
report_parts (x ∷ xs) ys h = ground arith

answer_clean :
    (options : Options) (nodes : List CollaborationDagNodeDefinition)
    → answer options nodes ≡ []
    → Accepted options nodes
unfolding has_structural
answer_clean options [] h = absurd (ground arith)
answer_clean options (n ∷ ns) h =
    let cycle = not (eqb (Kahn.processed (entries (n ∷ ns))) (length (n ∷ ns))) in
    let (clean, acyclic) =
      report_parts (loop_issues options (n ∷ ns))
        (issue_if cycle IssueCode.collaboration_dag_cycle IssuePath.graph_nodes) h in
    record {
      clean = clean;
      sound = rw clean;
      complete = ground (arith, acyclic, length-entries (n ∷ ns));
      some_node = omega arith;
    }

plan_unless-planned :
    (is : List Issue) {p q : CollaborationDagExecutionPlan}
    → plan_unless is p ≡ planned q
    → (is ≡ []) × (q ≡ p)
plan_unless-planned [] h = (refl, cc)
plan_unless-planned (i ∷ is) h = cc

pub record Planned (graph : CollaborationDagDefinition) (options : Options)
    (p : CollaborationDagExecutionPlan) : Type 0 where
  pub accepted : Accepted options graph.nodes
  pub budget : budget_issues options.budget ≡ []
  pub built : p ≡ build_plan options graph.nodes

-- A plan is only made of an accepted graph.
pub planned_inv :
    (graph : CollaborationDagDefinition) (options : Options) {p : CollaborationDagExecutionPlan}
    → plan_collaboration_dag graph options ≡ planned p
    → Planned graph options p
unfolding plan_collaboration_dag
planned_inv graph options h =
    let (none_left, built) =
      plan_unless-planned (answer options graph.nodes ++ budget_issues options.budget)
        (rw (validate_definition-eq options graph, plan_collaboration_dag) at h) in
    let (clean, budget) =
      append_nil_parts (answer options graph.nodes) (budget_issues options.budget) none_left in
    record { accepted = answer_clean options graph.nodes clean; budget = budget; built = built }

-- Every dependency is a node of the graph.
pub entries-IsClosed :
    (options : Options) (nodes : List CollaborationDagNodeDefinition)
    → has_structural (loop_issues options nodes) ≡ false
    → IsClosed (entries nodes)
entries-IsClosed options nodes sound x y at =
    let known =
      deps_of_All (λ d id. contains d (seen options nodes) ≡ true) nodes x y
        (closed options nodes sound).all at in
    rw (scanned options nodes sound).ids at known
