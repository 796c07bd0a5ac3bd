-- ===== src/CollaborationDag/Issues.antt =====
-- `CollaborationDagValidationIssue`: a code and a path. The message, which repeats them for a
-- reader, is left out.
use agent_chatgpt_bridge.Common.{
  ℕ, ◌≡◌, refl, String, Bool, true, false, ◌||◌, List, [], ◌∷◌, ◌++◌, if◌then◌else◌, All, arith,
}

pub data IssueCode : Type 0 where
  invalid_budget budget_limit_exceeded invalid_parallelism parallelism_limit_exceeded : IssueCode
  invalid_dag_node invalid_dag_node_id invalid_participant unknown_participant : IssueCode
  invalid_node_instruction node_instruction_too_large invalid_dependencies : IssueCode
  invalid_terminal_flag invalid_retry_limit retry_limit_exceeded : IssueCode
  invalid_node_timeout node_timeout_exceeded : IssueCode
  invalid_dag unsupported_dag_version invalid_dag_nodes empty_dag : IssueCode
  dag_node_limit_exceeded dag_nodes_exceed_turn_budget duplicate_dag_node : IssueCode
  invalid_dependency_id self_dependency duplicate_dependency unknown_dependency : IssueCode
  dag_edge_limit_exceeded collaboration_dag_cycle : IssueCode

-- `node index` is `graph.nodes[index]`, and so on.
pub data IssuePath : Type 0 where
  budget graph graph_version graph_nodes : IssuePath
  budget_field : String → IssuePath
  node : ℕ → IssuePath
  node_field : ℕ → String → IssuePath
  dependency : (node_index dependency_index : ℕ) → IssuePath

pub record Issue : Type 0 where
  pub code : IssueCode
  pub path : IssuePath

abbrev pub issue : IssueCode → IssuePath → List Issue
issue code path = record { code = code; path = path } ∷ []

-- `if (test) issues.push(...)`
abbrev pub issue_if : Bool → IssueCode → IssuePath → List Issue
issue_if test code path = if test then issue code path else []

-- The codes that keep the cycle check from running.
abbrev pub is_structural : IssueCode → Bool
is_structural unknown_dependency = true
is_structural invalid_dependency_id = true
is_structural self_dependency = true
is_structural duplicate_dag_node = true
is_structural _ = false

-- `issues.some(...)`
unfoldable pub has_structural : List Issue → Bool
has_structural [] = false
has_structural (i ∷ is) = is_structural i.code || has_structural is

-- Several pieces of code that push issues, one after the other.
unfoldable pub pushes : List (List Issue) → List Issue
pushes [] = []
pushes (xs ∷ rest) = xs ++ pushes rest

pub append_nil_parts : {A : Type 0} (xs ys : List A) → xs ++ ys ≡ [] → (xs ≡ []) × (ys ≡ [])
append_nil_parts [] ys h = (refl, h)
append_nil_parts (x ∷ xs) ys h = cc

-- None of the pieces pushes anything if all of them together do not.
pub pushes_nil : (xss : List (List Issue)) → pushes xss ≡ [] → All (λ xs. xs ≡ []) xss
unfolding pushes
pushes_nil [] h = tt
pushes_nil (xs ∷ rest) h =
    let (this, others) = append_nil_parts xs (pushes rest) h in (this, pushes_nil rest others)

-- Two lists of issues hold no structural one together exactly if neither does.
pub has_structural-append :
    (xs ys : List Issue) → has_structural (xs ++ ys) ≡ (has_structural xs || has_structural ys)
unfolding has_structural
has_structural-append [] ys = refl
has_structural-append (x ∷ xs) ys = ground (arith, has_structural-append xs ys)

pub pushes_sound :
    (xss : List (List Issue))
    → has_structural (pushes xss) ≡ false
    → All (λ xs. has_structural xs ≡ false) xss
unfolding pushes
pushes_sound [] h = tt
pushes_sound (xs ∷ rest) h = (
  ground (arith, has_structural-append xs (pushes rest)),
  pushes_sound rest (ground (arith, has_structural-append xs (pushes rest))),
)

pub pushes_unstructured :
    (xss : List (List Issue))
    → All (λ xs. has_structural xs ≡ false) xss
    → has_structural (pushes xss) ≡ false
unfolding pushes has_structural
pushes_unstructured [] h = refl
pushes_unstructured (xs ∷ rest) h =
    ground (arith, has_structural-append xs (pushes rest), h.0, pushes_unstructured rest h.1)
