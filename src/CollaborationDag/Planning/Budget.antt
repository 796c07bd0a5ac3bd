-- ===== src/CollaborationDag/Planning/Budget.antt =====
-- What a plan made under a budget keeps of it.
use agent_chatgpt_bridge.Common.{
  ℕ, zero, suc, ◌+◌, ◌≤◌, ◌≡◌, refl, false, List, [], ◌∷◌, map, Option, none, list_equality,
  number_equality, some, arith, All, length,
}
use agent_chatgpt_bridge.Js.{Text, Number, nat, positive_integer, non_negative_integer}
use agent_chatgpt_bridge.CollaborationDag.{
  CollaborationDagBudget, CollaborationDagNodeDefinition, CollaborationDagDefinition,
  CollaborationDagExecutionPlan, CollaborationDagPlannedNode,
}
use agent_chatgpt_bridge.CollaborationDag.Limits
use agent_chatgpt_bridge.CollaborationDag.RunLimits
use agent_chatgpt_bridge.CollaborationDag.Issues.{IssueCode, IssuePath, pushes_nil}
use agent_chatgpt_bridge.CollaborationDag.Validation.{
  Options, scan_nodes, validate_node, validate_budget, check_retry_limit, check_limit, over, add_to,
  limit_of,
}
use agent_chatgpt_bridge.CollaborationDag.Planning.{
  planned, plan_collaboration_dag, build_plan, node_value, planned_node, number_value, number_or,
  fallback_retry_limit, budget_value, entry, budget_issues,
}
use agent_chatgpt_bridge.Kahn
use agent_chatgpt_bridge.CollaborationDag.Planning.Encoding.{length-node_ids}
use agent_chatgpt_bridge.CollaborationDag.Planning.Accepted.{planned_inv}
use agent_chatgpt_bridge.CollaborationDag.Planning.Bounds.{parts}
use agent_chatgpt_bridge.CollaborationDag.Planning.Graph.{Nodes}

check_limit_nil :
    (o : Option ℕ) (limit : ℕ) (invalid exceeded : IssueCode) (path : IssuePath)
    → check_limit o limit invalid exceeded path ≡ []
    → (k : ℕ) × (o ≡ some k) × (k ≤ limit)
check_limit_nil none limit invalid exceeded path h = cc
check_limit_nil (some k) limit invalid exceeded path h = (k, refl, ground arith)

positive_integer-some : (x : Number) {k : ℕ} → positive_integer x ≡ some k → x ≡ nat k
positive_integer-some (nat zero) h = cc
positive_integer-some (nat (suc n)) h = ground arith
positive_integer-some _ h = cc

non_negative_integer-some : (x : Number) {k : ℕ} → non_negative_integer x ≡ some k → x ≡ nat k
non_negative_integer-some (nat n) h = ground arith
non_negative_integer-some _ h = cc

-- A number that is an integer from 0 to the limit.
abbrev pub AtMost : Number → ℕ → Type 0
AtMost x limit = (k : ℕ) × (x ≡ nat k) × (k ≤ limit)

positive :
    (x : Number) (limit : ℕ) (invalid exceeded : IssueCode) (path : IssuePath)
    → check_limit (positive_integer x) limit invalid exceeded path ≡ []
    → AtMost x limit
positive x limit invalid exceeded path h =
    let (k, found, small) = check_limit_nil (positive_integer x) limit invalid exceeded path h in
    (k, positive_integer-some x found, small)

non_negative :
    (x : Number) (limit : ℕ) (invalid exceeded : IssueCode) (path : IssuePath)
    → check_limit (non_negative_integer x) limit invalid exceeded path ≡ []
    → AtMost x limit
non_negative x limit invalid exceeded path h =
    let (k, found, small) =
      check_limit_nil (non_negative_integer x) limit invalid exceeded path h in
    (k, non_negative_integer-some x found, small)

-- Every field of the budget is an integer within its hard limit.
pub record IsSound (b : CollaborationDagBudget) : Type 0 where
  pub turns : AtMost b.max_turns RunLimits.max_turns
  pub participants : AtMost b.max_participants RunLimits.max_participants
  pub parallel : AtMost b.max_parallel_turns Limits.max_parallel_turns
  pub retries : AtMost b.max_retries_per_participant RunLimits.max_retries_per_participant
  pub clock : AtMost b.max_wall_clock_ms RunLimits.max_wall_clock_ms

validate_budget-IsSound :
    (b : CollaborationDagBudget) → validate_budget (budget_value b) ≡ [] → IsSound b
unfolding validate_budget
validate_budget-IsSound b h =
    let all = pushes_nil _ h in
    record {
      turns = positive b.max_turns _ _ _ _ all.0;
      participants = positive b.max_participants _ _ _ _ all.1.0;
      parallel = positive b.max_parallel_turns _ _ _ _ all.1.1.0;
      retries = non_negative b.max_retries_per_participant _ _ _ _ all.1.1.1.0;
      clock = positive b.max_wall_clock_ms _ _ _ _ all.1.1.1.1.0;
    }

-- Of the checks of one node, the one of its retry limit.
validate_node-retry :
    (options : Options) (index : ℕ) (n : CollaborationDagNodeDefinition)
    → validate_node options index (node_value n) ≡ []
    → check_retry_limit index options.budget (number_value n.retry_limit) ≡ []
unfolding validate_node
validate_node-retry options index n h = let all = pushes_nil _ h in all.1.1.1.1.1.0

module _ (options : Options) (b : CollaborationDagBudget) (limit : ℕ)
    (given : options.budget ≡ some b) (retries : b.max_retries_per_participant ≡ nat limit) where
  retry_bounded :
      (index : ℕ) (n : CollaborationDagNodeDefinition)
      → check_retry_limit index options.budget (number_value n.retry_limit) ≡ []
      → AtMost (number_or n.retry_limit (fallback_retry_limit options.budget)) limit
  unfolding check_retry_limit
  retry_bounded index n h = go n.retry_limit h
    where
      go :
          (r : Option Number)
          → check_retry_limit index options.budget (number_value r) ≡ []
          → AtMost (number_or r (fallback_retry_limit options.budget)) limit
      go none h' = (limit, rw given retries, omega arith)
      go (some (nat k)) h' = (k, refl, ground (arith, given, retries))
      go (some _) h' = cc

  scan_nodes-retry :
      (index : ℕ) (seen : List Text) (ns : Nodes)
      → (scan_nodes options index seen (map node_value ns)).0 ≡ []
      → All (λ n. AtMost (number_or n.retry_limit (fallback_retry_limit options.budget)) limit) ns
  unfolding scan_nodes
  scan_nodes-retry index seen [] h = tt
  scan_nodes-retry index seen (n ∷ ns) h =
      let all = pushes_nil _ h in
      (
        retry_bounded index n (validate_node-retry options index n all.0),
        scan_nodes-retry (index + 1) (add_to n.id seen) ns all.1.1.0,
      )

budget_clean :
    (options : Options) (b : CollaborationDagBudget)
    → options.budget ≡ some b
    → budget_issues options.budget ≡ []
    → validate_budget (budget_value b) ≡ []
budget_clean options b given h = rw given at h

over-false : (x : Number) (turns n : ℕ) → x ≡ nat turns → over (some x) n ≡ false → n ≤ turns
over-false x turns n same h = ground arith

few_turns_le :
    (options : Options) (b : CollaborationDagBudget) (turns n : ℕ)
    → options.budget ≡ some b
    → b.max_turns ≡ nat turns
    → over (limit_of (λ c. c.max_turns) options.budget) n ≡ false
    → n ≤ turns
few_turns_le options b turns n given same h = over-false b.max_turns turns n same (rw given at h)

All-planned :
    (options : Options) (limit : ℕ) (w : Kahn.Work Text) (es : List (Kahn.Entry Text)) (ns : Nodes)
    → All (λ n. AtMost (number_or n.retry_limit (fallback_retry_limit options.budget)) limit) ns
    → All {A = Text × CollaborationDagPlannedNode}
        (λ entry. AtMost entry.1.retry_limit limit)
        (map (λ n. (n.id, planned_node options es w n)) ns)
unfolding planned_node
All-planned options limit w es [] h = tt
All-planned options limit w es (n ∷ ns) h = (h.0, All-planned options limit w es ns h.1)

-- If `planCollaborationDag` returns a plan under a budget, every field of the budget is an integer
-- within its hard limit, the plan has no more nodes than the budget has turns, and the retry limit
-- of every planned node is an integer that is at most the budget's.
pub plan_budget :
    (graph : CollaborationDagDefinition) (options : Options) (b : CollaborationDagBudget)
    (p : CollaborationDagExecutionPlan)
    → options.budget ≡ some b
    → plan_collaboration_dag graph options ≡ planned p
    → (sound : IsSound b) × (length p.node_ids ≤ sound.turns.0)
      × All (λ entry. AtMost entry.1.retry_limit sound.retries.0) p.nodes_by_id
unfolding build_plan
plan_budget graph options b p given h =
    let made = planned_inv graph options h in
    let sound = validate_budget-IsSound b (budget_clean options b given made.budget) in
    let all = parts options graph.nodes made.accepted.clean in
    rw made.built (
      sound,
      omega (
        arith,
        length-node_ids graph.nodes,
        few_turns_le options b sound.turns.0 (length graph.nodes) given sound.turns.1 all.few_turns,
      ),
      All-planned options sound.retries.0 (Kahn.plan (map entry graph.nodes))
          (map entry graph.nodes) graph.nodes
          (scan_nodes-retry options b sound.retries.0 given sound.retries.1 0 [] graph.nodes
            all.nodes_clean),
    )
