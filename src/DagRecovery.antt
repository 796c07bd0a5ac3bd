-- ===== src/DagRecovery.antt =====
-- src/core/collaboration-dag-recovery.ts: the gate that persisted state of a graph has to pass.
-- Every BridgeError of the file has one code, and is `corrupt`.
pub mod Passed
pub mod Order
mod Samples
use agent_chatgpt_bridge.Common.{
  ℕ, zero, suc, ◌+◌, ◌*◌, Bool, true, false, not, ◌&&◌, ◌||◌, List, [], ◌∷◌, ◌++◌, Option, none,
  some, ◌==◌, list_equality, number_equality, if◌then◌else◌, ltb, eqb, length, contains,
}
use agent_chatgpt_bridge.Errors.{Result, ok, err, ◌>>=◌, ◌>>◌, throw_if, or_throw}
use agent_chatgpt_bridge.Js.{Text, Number, codes, above, non_negative_integer}
use agent_chatgpt_bridge.CollaborationDag.{
  CollaborationDagBudget, CollaborationDagDefinition, CollaborationDagExecutionPlan,
  CollaborationDagPlannedNode, planned_in, CollaborationDagNodeStatus, pending, ready, running,
  completed, status_beq,
}
use agent_chatgpt_bridge.CollaborationDag.Issues.{Issue}
use agent_chatgpt_bridge.CollaborationDag.Validation.{Options}
use agent_chatgpt_bridge.CollaborationDag.Planning.{
  PlanOutcome, planned, invalid, broken, plan_collaboration_dag,
}

-- A row of the table of nodes; `none` stands for a status that is none of the seven.
pub record CollaborationDagNodeRecord : Type 0 where
  pub id : Text
  pub run_id : Text
  pub participant_id : Text
  pub role_id : Text
  pub status : Option CollaborationDagNodeStatus
  pub declaration_index : Number
  pub attempt : Number
  pub retry_limit : Number
  pub timeout_ms : Option Number
  pub output_message_id : Option Text
  pub error_code : Option Text

pub record CollaborationDagRunMetadata : Type 0 where
  pub run_id : Text
  pub graph : CollaborationDagDefinition
  pub max_parallel_turns : Number

pub record PersistedCollaborationDagInput : Type 0 where
  pub run_id : Text
  pub node_id : Text
  pub attempt : Number
  pub predecessor_node_ids : List Text
  pub predecessor_message_ids : List Text

pub record CollaborationMessageRecord : Type 0 where
  pub id : Text
  pub run_id : Text
  pub turn_id : Text
  pub sequence_index : Number
  pub sender_participant_id : Text
  pub sender_role_id : Text
  pub decision_type : Text
  pub content : Text
  pub content_hash : Text

-- What the gate reads of a run. `role_of` is `participantsById[id]?.roleId`.
pub record RoleBasedCollaborationRun : Type 0 where
  pub id : Text
  pub budget : CollaborationDagBudget
  pub participant_ids : List Text
  pub role_of : Text → Option Text
  pub turn_history : List Text

pub data Failure : Type 0 where
  corrupt : Failure
  invalid_graph : List Issue → Failure
  type_error : Failure

abbrev pub Gate : Type 0 → Type 0
Gate A = Result Failure A

abbrev pub corrupt_if : Bool → Gate (Unit {0})
corrupt_if test = throw_if test corrupt

-- `===` on numbers. Numbers that are no integers are taken as different; no planned number is one.
-- `plan.nodesById[id]` is asked only for ids of rows that stand in the plan, or that are refused.
abbrev pub same_number : Number → Number → Bool
same_number (Number.nat a) (Number.nat b) = eqb a b
same_number (Number.minus a) (Number.minus b) = eqb a b
same_number Number.infinity Number.infinity = true
same_number _ _ = false

abbrev pub same_optional : Option Number → Option Number → Bool
same_optional none none = true
same_optional (some a) (some b) = same_number a b
same_optional _ _ = false

-- `sameStrings`
abbrev pub same_strings : List Text → List Text → Bool
same_strings [] [] = true
same_strings (x ∷ xs) (y ∷ ys) = x == y && same_strings xs ys
same_strings _ _ = false

-- A string that is not `undefined` and not empty.
abbrev pub is_truthy : Option Text → Bool
is_truthy none = false
is_truthy (some []) = false
is_truthy (some (c ∷ cs)) = true

-- `messagesByNode[id]` on a plain object: an own property, one of `Object.prototype`, or nothing.
-- Of the names that `Object.prototype` has, only `constructor` can be the id of a node.
pub data Property : Type 0 where
  own : CollaborationMessageRecord → Property
  inherited absent : Property

abbrev pub property_of : Option CollaborationMessageRecord → Text → Property
property_of (some m) id = own m
property_of none id = if id == codes "constructor" then inherited else absent

abbrev pub is_absent : Property → Bool
is_absent absent = true
is_absent _ = false

-- `nodeById.get(id)`: of rows with one id the last counts.
abbrev pub or_else {ℓ} : {A : Type ℓ} → Option A → Option A → Option A
or_else none o = o
or_else (some a) o = some a

abbrev pub row : List CollaborationDagNodeRecord → Text → Option CollaborationDagNodeRecord
row [] id = none
row (n ∷ ns) id = or_else (row ns id) (if n.id == id then some n else none)

-- `attempt > retryLimit + 1`, for a retry limit that equals the planned one.
abbrev pub exceeds : ℕ → Number → Bool
exceeds attempt (Number.nat r) = ltb (r + 1) attempt
exceeds attempt (Number.minus r) = ltb 0 attempt || ltb 0 r
exceeds attempt _ = false

abbrev pub is_id : Option Text → Text → Bool
is_id none id = false
is_id (some x) id = id == x

abbrev pub is_own_output :
    RoleBasedCollaborationRun → CollaborationDagNodeRecord → CollaborationMessageRecord → Bool
is_own_output run n m =
    is_id n.output_message_id m.id
    && m.run_id == run.id
    && m.sender_participant_id == n.participant_id
    && m.sender_role_id == n.role_id
    && same_number m.sequence_index n.declaration_index

-- The checks of a node's output.
unfoldable pub check_output :
    RoleBasedCollaborationRun
    → CollaborationDagNodeRecord
    → Property
    → CollaborationDagNodeStatus
    → ℕ
    → Gate (Unit {0})
check_output run n (own m) completed attempt = do
  corrupt_if (eqb attempt 0 || not (is_truthy n.output_message_id))
  corrupt_if (not (is_own_output run n m))
check_output run n _ completed attempt = err corrupt
check_output run n output status attempt =
    corrupt_if (is_truthy n.output_message_id || not (is_absent output))

-- The body of the loop over `plan.nodeIds` for one row; the attempts that it counts.
unfoldable pub check_node :
    RoleBasedCollaborationRun
    → Property
    → CollaborationDagPlannedNode
    → CollaborationDagNodeRecord
    → Gate (CollaborationDagNodeStatus × ℕ)
check_node run output p n = do
  corrupt_if (
      not (
        n.run_id == run.id
        && n.participant_id == p.participant_id
        && same_number n.declaration_index (Number.nat p.declaration_index)
        && same_number n.retry_limit p.retry_limit
        && same_optional n.timeout_ms p.timeout_ms))
  role ← or_throw (run.role_of n.participant_id) corrupt
  corrupt_if (not (role == n.role_id))
  status ← or_throw n.status corrupt
  attempt ← or_throw (non_negative_integer n.attempt) corrupt
  corrupt_if (exceeds attempt n.retry_limit)
  corrupt_if (status_beq status pending && not (eqb attempt 0))
  corrupt_if (status_beq status running && (eqb attempt 0 || is_truthy n.output_message_id))
  check_output run n output status attempt
  ok (status, attempt)

pub record Derived : Type 0 where
  pub statuses_by_node : List (Text × CollaborationDagNodeStatus)
  pub interrupted_node_ids : List Text
  pub completed_terminal_node_ids : List Text
  pub attempt_sum : ℕ

abbrev pub push_if : Bool → Text → List Text → List Text
push_if test id ids = if test then ids ++ id ∷ [] else ids

-- `${nodeId}:${attempt}`; no node id has a colon.
abbrev pub Key : Type 0
Key = Text × ℕ

abbrev pub has_key : Text → ℕ → List Key → Bool
has_key id attempt [] = false
has_key id attempt ((i, a) ∷ keys) = i == id && eqb a attempt || has_key id attempt keys

-- An attempt that the first loop has let through.
abbrev pub count_of : Number → ℕ
count_of (Number.nat n) = n
count_of _ = 0

abbrev pub is_restarted : CollaborationDagNodeRecord → Bool
is_restarted n = is_id n.error_code (codes "daemon_restarted")

abbrev pub is_status : Option CollaborationDagNodeStatus → CollaborationDagNodeStatus → Bool
is_status none status = false
is_status (some s) status = status_beq s status

abbrev pub has_status : CollaborationDagNodeStatus → CollaborationDagNodeRecord → Bool
has_status status n = is_status n.status status

module _ (run : RoleBasedCollaborationRun) (plan : CollaborationDagExecutionPlan)
    (nodes : List CollaborationDagNodeRecord)
    (messages : Text → Option CollaborationMessageRecord) where
  abbrev pub note_node :
      Text → CollaborationDagPlannedNode → CollaborationDagNodeStatus × ℕ → Derived → Derived
  note_node id p seen d = record {
    statuses_by_node = d.statuses_by_node ++ (id, seen.0) ∷ [];
    interrupted_node_ids = push_if (status_beq seen.0 running) id d.interrupted_node_ids;
    completed_terminal_node_ids =
        push_if (status_beq seen.0 completed && p.terminal) id d.completed_terminal_node_ids;
    attempt_sum = d.attempt_sum + seen.1;
  }

  -- The loop over `plan.nodeIds`.
  unfoldable pub check_nodes : List Text → Derived → Gate Derived
  check_nodes [] d = ok d
  check_nodes (id ∷ ids) d = do
    p ← or_throw (planned_in plan.nodes_by_id id) corrupt
    n ← or_throw (row nodes id) corrupt
    seen ← check_node run (property_of (messages id) id) p n
    check_nodes ids (note_node id p seen d)

  -- The loop that looks for rows of no planned node.
  unfoldable pub check_expected : List CollaborationDagNodeRecord → Gate (Unit {0})
  check_expected [] = ok tt
  check_expected (n ∷ ns) = do
    _ ← or_throw (planned_in plan.nodes_by_id n.id) corrupt
    check_expected ns

  -- The ids of the messages that a node's dependencies have put out.
  unfoldable pub expected_message_ids : List Text → Gate (List Text)
  expected_message_ids [] = ok []
  expected_message_ids (d ∷ ds) = do
    m ← or_throw (messages d) corrupt
    ids ← expected_message_ids ds
    ok (m.id ∷ ids)

  -- The body of the loop over the inputs; it returns the key.
  unfoldable pub check_input : PersistedCollaborationDagInput → List Key → Gate Key
  check_input i keys = do
    n ← or_throw (row nodes i.node_id) corrupt
    p ← or_throw (planned_in plan.nodes_by_id i.node_id) corrupt
    corrupt_if (not (i.run_id == run.id))
    attempt ← or_throw (non_negative_integer i.attempt) corrupt
    corrupt_if (eqb attempt 0 || ltb (count_of n.attempt) attempt)
    corrupt_if (has_key i.node_id attempt keys)
    corrupt_if (not (same_strings i.predecessor_node_ids p.depends_on))
    expected ← expected_message_ids p.depends_on
    corrupt_if (not (same_strings i.predecessor_message_ids expected))
    ok (i.node_id, attempt)

  unfoldable pub check_inputs : List PersistedCollaborationDagInput → List Key → Gate (List Key)
  check_inputs [] keys = ok keys
  check_inputs (i ∷ is) keys = do key ← check_input i keys; check_inputs is (keys ++ key ∷ [])

-- The loop that looks for the inputs of the last attempts.
unfoldable pub check_provenance : List Key → List CollaborationDagNodeRecord → Gate (Unit {0})
check_provenance keys [] = ok tt
check_provenance keys (n ∷ ns) = do
  corrupt_if (has_status completed n && not (has_key n.id (count_of n.attempt) keys))
  corrupt_if (
      has_status ready n
      && ltb 0 (count_of n.attempt)
      && not (is_restarted n)
      && not (has_key n.id (count_of n.attempt) keys))
  check_provenance keys ns

abbrev pub interrupted_count : List CollaborationDagNodeRecord → ℕ
interrupted_count [] = 0
interrupted_count (n ∷ ns) =
    (if has_status running n || has_status ready n && is_restarted n then 1 else 0)
    + interrupted_count ns

-- `sum > nodes * (maxRetries + 1)`; the planner has refused a number of retries that is none.
abbrev pub exceeds_retries : ℕ → ℕ → Number → Bool
exceeds_retries sum nodes (Number.nat r) = ltb (nodes * (r + 1)) sum
exceeds_retries sum nodes _ = false

pub record CollaborationDagPersistedState : Type 0 where
  pub plan : CollaborationDagExecutionPlan
  pub derived : Derived
  pub total_attempts_started : ℕ

abbrev pub plan_or_throw : PlanOutcome → Gate CollaborationDagExecutionPlan
plan_or_throw (planned p) = ok p
plan_or_throw (invalid issues) = err (invalid_graph issues)
plan_or_throw broken = err type_error

abbrev pub nothing_derived : Derived
nothing_derived = record {
  statuses_by_node = [];
  interrupted_node_ids = [];
  completed_terminal_node_ids = [];
  attempt_sum = 0;
}

abbrev pub options_of : RoleBasedCollaborationRun → Options
options_of run = record {
  known_participant_ids = some run.participant_ids;
  budget = some run.budget;
}

-- What follows the planning.
unfoldable pub derive_with :
    RoleBasedCollaborationRun
    → List CollaborationDagNodeRecord
    → List PersistedCollaborationDagInput
    → (Text → Option CollaborationMessageRecord)
    → CollaborationDagExecutionPlan
    → Gate CollaborationDagPersistedState
derive_with run nodes inputs messages plan = do
  corrupt_if (not (eqb (length nodes) (length plan.node_ids)))
  derived ← check_nodes run plan nodes messages plan.node_ids nothing_derived
  check_expected run plan nodes messages nodes
  keys ← check_inputs run plan nodes messages inputs []
  check_provenance keys nodes
  corrupt_if (not (eqb (length inputs) (length run.turn_history)))
  let total = length run.turn_history + interrupted_count nodes
  corrupt_if (
      above total run.budget.max_turns
      || exceeds_retries derived.attempt_sum (length plan.node_ids)
          run.budget.max_retries_per_participant)
  ok (record { plan = plan; derived = derived; total_attempts_started = total })

-- `deriveCollaborationDagPersistedState`
unfoldable pub derive_persisted_state :
    RoleBasedCollaborationRun
    → CollaborationDagRunMetadata
    → List CollaborationDagNodeRecord
    → List PersistedCollaborationDagInput
    → (Text → Option CollaborationMessageRecord)
    → Gate CollaborationDagPersistedState
derive_persisted_state run metadata nodes inputs messages = do
  corrupt_if (not (metadata.run_id == run.id))
  corrupt_if (not (same_number metadata.max_parallel_turns run.budget.max_parallel_turns))
  plan ← plan_or_throw (plan_collaboration_dag metadata.graph (options_of run))
  derive_with run nodes inputs messages plan
