-- ===== src/CollaborationDag/Validation.antt =====
-- src/core/collaboration-dag-validation.ts: `validateCollaborationDagBudget`, `validateNode` and
-- `validateCollaborationDagDefinition`. They read a value of any shape.
pub mod Codes
pub mod Shape
use agent_chatgpt_bridge.Common.{
  ℕ, zero, suc, ◌+◌, Bool, true, false, not, ◌&&◌, ◌||◌, List, [], ◌∷◌, ◌++◌, Option, none, some,
  String, map, Equality, ◌==◌, if◌then◌else◌, ltb, eqb, length, contains, list_equality,
  number_equality,
}
use agent_chatgpt_bridge.Js.{
  Text, Number, above, positive_integer, non_negative_integer, Value, bool, num, str, arr,
  undefined, Items, to_list, property, is_object, is_blank, code_points,
}
use agent_chatgpt_bridge.Kahn
use agent_chatgpt_bridge.Kahn.{Entry}
use agent_chatgpt_bridge.CollaborationDag.{is_node_id, CollaborationDagBudget}
use agent_chatgpt_bridge.CollaborationDag.Limits
use agent_chatgpt_bridge.CollaborationDag.RunLimits
use agent_chatgpt_bridge.CollaborationDag.Issues.{
  IssueCode, IssuePath, Issue, issue, issue_if, has_structural, pushes,
}

-- The two `ReadonlySet` and budget options; a set is a list of its members.
pub record Options : Type 0 where
  pub known_participant_ids : Option (List Text)
  pub budget : Option CollaborationDagBudget

-- A number above a hard limit, or what is no number of the kind.
abbrev pub check_limit : Option ℕ → ℕ → IssueCode → IssueCode → IssuePath → List Issue
check_limit none limit invalid exceeded path = issue invalid path
check_limit (some n) limit invalid exceeded path = issue_if (ltb limit n) exceeded path

abbrev pub as_positive : Value → Option ℕ
as_positive (num x) = positive_integer x
as_positive _ = none

abbrev pub as_non_negative : Value → Option ℕ
as_non_negative (num x) = non_negative_integer x
as_non_negative _ = none

unfoldable pub validate_budget : Value → List Issue
validate_budget b =
    if is_object b
    then pushes (
        check_limit (as_positive (property "maxTurns" b)) RunLimits.max_turns
          IssueCode.invalid_budget IssueCode.budget_limit_exceeded
          (IssuePath.budget_field "maxTurns")
        ∷ check_limit (as_positive (property "maxParticipants" b)) RunLimits.max_participants
            IssueCode.invalid_budget IssueCode.budget_limit_exceeded
            (IssuePath.budget_field "maxParticipants")
        ∷ check_limit (as_positive (property "maxParallelTurns" b)) Limits.max_parallel_turns
            IssueCode.invalid_parallelism IssueCode.parallelism_limit_exceeded
            (IssuePath.budget_field "maxParallelTurns")
        ∷ check_limit (as_non_negative (property "maxRetriesPerParticipant" b))
            RunLimits.max_retries_per_participant IssueCode.invalid_budget
            IssueCode.budget_limit_exceeded (IssuePath.budget_field "maxRetriesPerParticipant")
        ∷ check_limit (as_positive (property "maxWallClockMs" b)) RunLimits.max_wall_clock_ms
            IssueCode.invalid_budget IssueCode.budget_limit_exceeded
            (IssuePath.budget_field "maxWallClockMs")
        ∷ [])
    else issue IssueCode.invalid_budget IssuePath.budget

-- The parts of `validateNode`, in its order.
unfoldable pub check_id : ℕ → Value → List Issue
check_id index (str id) =
    issue_if (not (is_node_id id)) IssueCode.invalid_dag_node_id (IssuePath.node_field index "id")
check_id index _ = issue IssueCode.invalid_dag_node_id (IssuePath.node_field index "id")

abbrev pub is_known : Option (List Text) → Text → Bool
is_known none participant = true
is_known (some known) participant = contains participant known

unfoldable pub check_participant : ℕ → Option (List Text) → Value → List Issue
check_participant index known (str participant) =
    if is_blank participant
    then issue IssueCode.invalid_participant (IssuePath.node_field index "participantId")
    else issue_if (not (is_known known participant)) IssueCode.unknown_participant
        (IssuePath.node_field index "participantId")
check_participant index known _ =
    issue IssueCode.invalid_participant (IssuePath.node_field index "participantId")

unfoldable pub check_instruction : ℕ → Value → List Issue
check_instruction index (str instruction) =
    if is_blank instruction
    then issue IssueCode.invalid_node_instruction (IssuePath.node_field index "instruction")
    else issue_if (ltb Limits.max_node_instruction_chars (length instruction))
        IssueCode.node_instruction_too_large (IssuePath.node_field index "instruction")
check_instruction index _ =
    issue IssueCode.invalid_node_instruction (IssuePath.node_field index "instruction")

unfoldable pub check_dependencies : ℕ → Value → List Issue
check_dependencies index (arr deps) = []
check_dependencies index _ =
    issue IssueCode.invalid_dependencies (IssuePath.node_field index "dependsOn")

unfoldable pub check_terminal : ℕ → Value → List Issue
check_terminal index undefined = []
check_terminal index (bool b) = []
check_terminal index _ =
    issue IssueCode.invalid_terminal_flag (IssuePath.node_field index "terminal")

-- `budget && n > budget.field`
abbrev pub over : Option Number → ℕ → Bool
over none n = false
over (some limit) n = above n limit

abbrev pub check_bound : Option ℕ → Option Number → IssueCode → IssueCode → IssuePath → List Issue
check_bound none limit invalid exceeded path = issue invalid path
check_bound (some n) limit invalid exceeded path = issue_if (over limit n) exceeded path

abbrev pub limit_of :
    (CollaborationDagBudget → Number) → Option CollaborationDagBudget → Option Number
limit_of field none = none
limit_of field (some budget) = some (field budget)

unfoldable pub check_retry_limit : ℕ → Option CollaborationDagBudget → Value → List Issue
check_retry_limit index budget undefined = []
check_retry_limit index budget v =
    check_bound (as_non_negative v) (limit_of (λ b. b.max_retries_per_participant) budget)
      IssueCode.invalid_retry_limit IssueCode.retry_limit_exceeded
      (IssuePath.node_field index "retryLimit")

unfoldable pub check_timeout : ℕ → Option CollaborationDagBudget → Value → List Issue
check_timeout index budget undefined = []
check_timeout index budget v =
    check_bound (as_positive v) (limit_of (λ b. b.max_wall_clock_ms) budget)
      IssueCode.invalid_node_timeout IssueCode.node_timeout_exceeded
      (IssuePath.node_field index "timeoutMs")

unfoldable pub validate_node : Options → ℕ → Value → List Issue
validate_node options index n =
    if is_object n
    then pushes (
        check_id index (property "id" n)
        ∷ check_participant index options.known_participant_ids (property "participantId" n)
        ∷ check_instruction index (property "instruction" n)
        ∷ check_dependencies index (property "dependsOn" n)
        ∷ check_terminal index (property "terminal" n)
        ∷ check_retry_limit index options.budget (property "retryLimit" n)
        ∷ check_timeout index options.budget (property "timeoutMs" n)
        ∷ [])
    else issue IssueCode.invalid_dag_node (IssuePath.node index)

-- `seen.add(id)`; `seen` is the list of its members.
abbrev pub add_to : Text → List Text → List Text
add_to id seen = if contains id seen then seen else seen ++ id ∷ []

-- What the first loop does with a node's id.
abbrev pub check_duplicate : ℕ → List Text → Value → List Issue
check_duplicate index seen (str id) =
    issue_if (contains id seen) IssueCode.duplicate_dag_node (IssuePath.node_field index "id")
check_duplicate index seen _ = []

abbrev pub see : List Text → Value → List Text
see seen (str id) = add_to id seen
see seen _ = seen

-- The first loop over the nodes: its issues, and `seen` behind it.
unfoldable pub scan_nodes : Options → ℕ → List Text → List Value → List Issue × List Text
scan_nodes options index seen [] = ([], seen)
scan_nodes options index seen (n ∷ ns) =
    let rest = scan_nodes options (index + 1) (see seen (property "id" n)) ns in
    (
      pushes (
          validate_node options index n
          ∷ check_duplicate index seen (property "id" n)
          ∷ rest.0
          ∷ []),
      rest.1,
    )

-- `dependency === node.id`
abbrev pub is_own : Text → Value → Bool
is_own dependency (str id) = dependency == id
is_own dependency _ = false

-- The loop over the items of one `dependsOn`. `continue` skips what is left of the body.
unfoldable pub scan_dependencies : ℕ → Value → List Text → ℕ → List Text → List Value → List Issue
scan_dependencies index own seen dep_index local [] = []
scan_dependencies index own seen dep_index local (d ∷ ds) =
    let path = IssuePath.dependency index dep_index in
    let invalid =
      issue IssueCode.invalid_dependency_id path
      ++ scan_dependencies index own seen (dep_index + 1) local ds in
    elim d [
      | str dep ↦
          if is_node_id dep
          then issue_if (is_own dep own) IssueCode.self_dependency path
            ++ (issue_if (contains dep local) IssueCode.duplicate_dependency path
                ++ (issue_if (not (contains dep seen)) IssueCode.unknown_dependency path
                    ++ scan_dependencies index own seen (dep_index + 1) (add_to dep local) ds))
          else invalid
      | _ ↦ invalid
    ]

-- One node's share of the second loop, before the shares of the nodes behind it.
abbrev pub edges_of : ℕ → Value → List Text → Value → List Issue × ℕ → List Issue × ℕ
edges_of index own seen (arr deps) rest =
    (scan_dependencies index own seen 0 [] (to_list deps) ++ rest.0, length (to_list deps) + rest.1)
edges_of index own seen _ rest = rest

-- The second loop over the nodes: its issues, and `edgeCount` behind it.
unfoldable pub scan_edges : List Text → ℕ → List Value → List Issue × ℕ
scan_edges seen index [] = ([], 0)
scan_edges seen index (n ∷ ns) =
    edges_of index (property "id" n) seen (property "dependsOn" n) (scan_edges seen (index + 1) ns)

-- `dependents.get(dependency)!.push(...)` for each item: `none` is the TypeError that is thrown
-- where `dependents` has no such key.
abbrev pub known_dependencies : List Text → List Value → Option (List Text)
known_dependencies ids [] = some []
known_dependencies ids (str dep ∷ ds) =
    if contains dep ids
    then elim (known_dependencies ids ds) [ none ↦ none | some deps ↦ some (dep ∷ deps) ]
    else none
known_dependencies ids (_ ∷ ds) = none

abbrev pub with_size : Text → ℕ → Option (List Text) → Option (Entry Text)
with_size id size none = none
with_size id size (some deps) = some (record { id = id; size = size; deps = deps })

-- What the cycle check reads of `node.dependsOn`: `length`, and what `for ... of` gives. A string
-- gives its code points; nothing else but an array can be iterated.
abbrev pub read_dependencies : List Text → Text → Value → Option (Entry Text)
read_dependencies ids id (arr deps) =
    with_size id (length (to_list deps)) (known_dependencies ids (to_list deps))
read_dependencies ids id (str text) =
    with_size id (length text) (known_dependencies ids (map str (code_points text)))
read_dependencies ids id _ = none

-- A node without a string for its id never gets here: `seen` would be too small.
abbrev pub read_node : List Text → Value → Value → Option (Entry Text)
read_node ids (str id) deps = read_dependencies ids id deps
read_node ids _ deps = none

abbrev pub cons_read : Option (Entry Text) → Option (List (Entry Text)) → Option (List (Entry Text))
cons_read none rest = none
cons_read (some entry) none = none
cons_read (some entry) (some entries) = some (entry ∷ entries)

unfoldable pub read_nodes : List Text → List Value → Option (List (Entry Text))
read_nodes ids [] = some []
read_nodes ids (n ∷ ns) =
    cons_read (read_node ids (property "id" n) (property "dependsOn" n)) (read_nodes ids ns)

-- What a call ends with: its value, or a TypeError that nobody asked for.
pub data Outcome (A : Type 0) : Type 0 where
  returned : A → Outcome A
  type_error : Outcome A

-- The cycle check.
unfoldable pub check_cycle : List Text → List Value → Outcome (List Issue)
check_cycle ids nodes = elim (read_nodes ids nodes) [
  | none ↦ type_error
  | some entries ↦ returned (
      issue_if (not (eqb (Kahn.processed entries) (length nodes))) IssueCode.collaboration_dag_cycle
        IssuePath.graph_nodes)
]

abbrev pub and_then : List Issue → Outcome (List Issue) → Outcome (List Issue)
and_then issues type_error = type_error
and_then issues (returned more) = returned (issues ++ more)

-- The issues before the cycle check, behind those that are there, and `seen`.
unfoldable pub gather : Options → List Issue → List Value → List Issue × List Text
gather options issues nodes =
    let scanned = scan_nodes options 0 [] nodes in
    let edges = scan_edges scanned.1 0 nodes in
    (
      pushes (
          issues
          ∷ issue_if (ltb Limits.max_nodes (length nodes)) IssueCode.dag_node_limit_exceeded
              IssuePath.graph_nodes
          ∷ issue_if (over (limit_of (λ b. b.max_turns) options.budget) (length nodes))
              IssueCode.dag_nodes_exceed_turn_budget IssuePath.graph_nodes
          ∷ scanned.0
          ∷ edges.0
          ∷ issue_if (ltb Limits.max_edges edges.1) IssueCode.dag_edge_limit_exceeded
              IssuePath.graph_nodes
          ∷ []),
      scanned.1,
    )

-- The cycle check, only if every dependency exists and every node has an id of its own.
unfoldable pub conclude : List Issue → List Text → List Value → Outcome (List Issue)
conclude issues seen nodes =
    if not (has_structural issues) && eqb (length seen) (length nodes)
    then and_then issues (check_cycle seen nodes)
    else returned issues

-- From the line on that has the array of the nodes.
unfoldable pub validate_nodes : Options → List Issue → List Value → Outcome (List Issue)
validate_nodes options issues [] =
    returned (issues ++ issue IssueCode.empty_dag IssuePath.graph_nodes)
validate_nodes options issues (n ∷ ns) =
    let gathered = gather options issues (n ∷ ns) in conclude gathered.0 gathered.1 (n ∷ ns)

abbrev pub is_version_one : Value → Bool
is_version_one (num (Number.nat n)) = eqb n 1
is_version_one _ = false

-- `if (!Array.isArray(g.nodes))`
unfoldable pub validate_list : Options → List Issue → Value → Outcome (List Issue)
validate_list options issues (arr nodes) = validate_nodes options issues (to_list nodes)
validate_list options issues _ =
    returned (issues ++ issue IssueCode.invalid_dag_nodes IssuePath.graph_nodes)

-- `if (g.version !== 1)`
abbrev pub version_issues : Value → List Issue
version_issues g =
    issue_if (not (is_version_one (property "version" g))) IssueCode.unsupported_dag_version
      IssuePath.graph_version

-- `validateCollaborationDagDefinition`
unfoldable pub validate_definition : Value → Options → Outcome (List Issue)
unfolding validate_list
validate_definition g options =
    if is_object g
    then validate_list options (version_issues g) (property "nodes" g)
    else returned (issue IssueCode.invalid_dag IssuePath.graph)
