-- ===== src/DagRecovery/Order.antt =====
-- src/core/collaboration-dag-recovery.ts: completed nodes rest on completed nodes.
use agent_chatgpt_bridge.Common.{
  ◌+◌, ◌≡◌, inl, inr, refl, sym, subst, ap, ◌∙◌, true, false, not, ◌||◌, List, [], ◌∷◌, Option,
  none, some, map, ◌==◌, list_equality, number_equality, if◌then◌else◌, eqb, length, contains, All,
  All-map, All-both, arith, list_beq_iff, Bool-cases,
}
use agent_chatgpt_bridge.Errors.{ok, bind-ok, sequence-ok, ok_injective}
use agent_chatgpt_bridge.Js.{Text, codes, above}
use agent_chatgpt_bridge.CollaborationDag.{
  CollaborationDagExecutionPlan, CollaborationDagPlannedNode, CollaborationDagNodeStatus, pending,
  completed, status_beq, planned_in,
}
use agent_chatgpt_bridge.CollaborationDag.Planning.{
  PlanOutcome, planned, invalid, broken, plan_collaboration_dag,
}
use agent_chatgpt_bridge.CollaborationDag.Planning.Closed.{planned_in-IsClosed}
use agent_chatgpt_bridge.DagScheduler.{depends_on_in}
use agent_chatgpt_bridge.DagRecovery.{
  CollaborationDagNodeRecord, PersistedCollaborationDagInput, CollaborationMessageRecord,
  RoleBasedCollaborationRun, CollaborationDagRunMetadata, Failure, corrupt,
  CollaborationDagPersistedState, check_nodes, check_inputs, check_expected, check_provenance,
  has_key, count_of, derive_with, derive_persisted_state, plan_or_throw, options_of,
  nothing_derived, exceeds_retries, interrupted_count, row, has_status, property_of, is_absent,
  same_number,
}
use agent_chatgpt_bridge.DagRecovery.Passed.{
  IsChecked, HasOutputs, AllKeys, check_nodes-ok, check_inputs-ok, check_provenance-ok, row-All,
}

-- `statusesByNode[id] ?? "pending"`, as the scheduler reads it.
abbrev pub status_in : List (Text × CollaborationDagNodeStatus) → Text → CollaborationDagNodeStatus
status_in [] id = pending
status_in ((key, status) ∷ rest) id = if key == id then status else status_in rest id

-- An entry that is found has what all entries have.
status_in-All :
    (P : Text → CollaborationDagNodeStatus → Type 0) (es : List (Text × CollaborationDagNodeStatus))
    (id : Text)
    → All (λ e. P e.0 e.1) es
    → contains id (map (λ e. e.0) es) ≡ true
    → P id (status_in es id)
status_in-All P [] id all at = cc
status_in-All P ((key, status) ∷ es) id all at = elim (Bool-cases (key == id)) [
  | inl same ↦ rw same (subst (λ k. P k status) ((list_beq_iff key id).0 same) all.0)
  | inr other ↦ rw other (status_in-All P es id all.1 (ground (arith, at, other)))
]

status_in-contains :
    (es : List (Text × CollaborationDagNodeStatus)) (id : Text)
    → status_beq (status_in es id) pending ≡ false
    → contains id (map (λ e. e.0) es) ≡ true
status_in-contains [] id h = cc
status_in-contains ((key, status) ∷ es) id h = ground (arith, h, status_in-contains es id)

depends_on_in-planned :
    (nodes : List (Text × CollaborationDagPlannedNode)) (id : Text)
    (p : CollaborationDagPlannedNode)
    → planned_in nodes id ≡ some p
    → depends_on_in nodes id ≡ p.depends_on
depends_on_in-planned [] id p h = cc
depends_on_in-planned ((key, n) ∷ rest) id p h = ground (arith, h, depends_on_in-planned rest id p)

-- What the whole gate has established.
record IsPassed (run : RoleBasedCollaborationRun) (nodes : List CollaborationDagNodeRecord)
    (messages : Text → Option CollaborationMessageRecord) (plan : CollaborationDagExecutionPlan)
    (statuses : List (Text × CollaborationDagNodeStatus)) : Type 0 where
  pub checked : All (λ e. IsChecked run plan nodes messages e.0 e.1) statuses
  pub named : map (λ e. e.0) statuses ≡ plan.node_ids
  pub outputs :
      (n : CollaborationDagNodeRecord) (id : Text)
      → row nodes id ≡ some n
      → has_status completed n ≡ true
      → HasOutputs run plan nodes messages id

derive_with-IsPassed :
    (run : RoleBasedCollaborationRun) (nodes : List CollaborationDagNodeRecord)
    (inputs : List PersistedCollaborationDagInput)
    (messages : Text → Option CollaborationMessageRecord) (plan : CollaborationDagExecutionPlan)
    (state : CollaborationDagPersistedState)
    → derive_with run nodes inputs messages plan ≡ ok state
    → (state.plan ≡ plan) × IsPassed run nodes messages plan state.derived.statuses_by_node
unfolding derive_with
derive_with-IsPassed run nodes inputs messages plan state h =
    let (_, h1) = sequence-ok (not (eqb (length nodes) (length plan.node_ids))) corrupt _ h in
    let (derived, hd, h2) =
      bind-ok (check_nodes run plan nodes messages plan.node_ids nothing_derived) _ h1 in
    let (_, he, h3) = bind-ok (check_expected run plan nodes messages nodes) _ h2 in
    let (keys, hk, h4) = bind-ok (check_inputs run plan nodes messages inputs []) _ h3 in
    let (u, hp, h5) = bind-ok (check_provenance keys nodes) _ h4 in
    let (_, h6) = sequence-ok (not (eqb (length inputs) (length run.turn_history))) corrupt _ h5 in
    let (_, h7) =
      sequence-ok
        (above (length run.turn_history + interrupted_count nodes) run.budget.max_turns
          || exceeds_retries derived.attempt_sum (length plan.node_ids)
              run.budget.max_retries_per_participant)
        corrupt _ h6 in
    let made = ok_injective {E = Failure} _ state h7 in
    let (checked, named) =
      check_nodes-ok run plan nodes messages plan.node_ids nothing_derived derived hd tt in
    let all : AllKeys run plan nodes messages keys =
      check_inputs-ok run plan nodes messages inputs [] hk (λ id a at. absurd (cc)) in
    (
      ap (λ (s : CollaborationDagPersistedState). s.plan) (sym made),
      subst
          (λ (s : CollaborationDagPersistedState).
            IsPassed run nodes messages plan s.derived.statuses_by_node)
          made
          (record {
            checked = checked;
            named = named;
            outputs = λ n id r c.
                let (keyed, same) =
                  row-All
                    (λ m.
                      has_status completed m ≡ true → has_key m.id (count_of m.attempt) keys ≡ true)
                    nodes id n r (check_provenance-ok keys nodes hp) in
                subst (HasOutputs run plan nodes messages) same
                  (all n.id (count_of n.attempt) (keyed c));
          }),
    )

plan_or_throw-ok :
    (o : PlanOutcome) (p : CollaborationDagExecutionPlan) → plan_or_throw o ≡ ok p → o ≡ planned p
plan_or_throw-ok (planned q) p h = cc
plan_or_throw-ok (invalid issues) p h = cc
plan_or_throw-ok broken p h = cc

-- The whole gate, with the graph's plan.
derive-IsPassed :
    (run : RoleBasedCollaborationRun) (metadata : CollaborationDagRunMetadata)
    (nodes : List CollaborationDagNodeRecord) (inputs : List PersistedCollaborationDagInput)
    (messages : Text → Option CollaborationMessageRecord) (state : CollaborationDagPersistedState)
    → derive_persisted_state run metadata nodes inputs messages ≡ ok state
    → (plan_collaboration_dag metadata.graph (options_of run) ≡ planned state.plan)
      × IsPassed run nodes messages state.plan state.derived.statuses_by_node
unfolding derive_persisted_state
derive-IsPassed run metadata nodes inputs messages state h =
    let (_, h1) = sequence-ok (not (metadata.run_id == run.id)) corrupt _ h in
    let (_, h2) =
      sequence-ok (not (same_number metadata.max_parallel_turns run.budget.max_parallel_turns))
        corrupt _ h1 in
    let (plan, hp, h3) =
      bind-ok (plan_or_throw (plan_collaboration_dag metadata.graph (options_of run))) _ h2 in
    let (same, passed) = derive_with-IsPassed run nodes inputs messages plan state h3 in
    (
      plan_or_throw-ok _ plan hp ∙ ap planned (sym same),
      subst (λ q. IsPassed run nodes messages q state.derived.statuses_by_node) (sym same) passed,
    )

-- An entry whose node has an output, or inherits one, is completed.
IsChecked-completed :
    (run : RoleBasedCollaborationRun) (plan : CollaborationDagExecutionPlan)
    (nodes : List CollaborationDagNodeRecord) (messages : Text → Option CollaborationMessageRecord)
    (id : Text) (status : CollaborationDagNodeStatus)
    → is_absent (property_of (messages id) id) ≡ false
    → IsChecked run plan nodes messages id status
    → status ≡ completed
IsChecked-completed run plan nodes messages id status present c = c.seen.present present

property_of-constructor :
    (m : Option CollaborationMessageRecord)
    → is_absent (property_of m (codes "constructor")) ≡ false
property_of-constructor none = refl
property_of-constructor (some m) = refl

module _ (run : RoleBasedCollaborationRun) (nodes : List CollaborationDagNodeRecord)
    (messages : Text → Option CollaborationMessageRecord) (plan : CollaborationDagExecutionPlan)
    (statuses : List (Text × CollaborationDagNodeStatus))
    (passed : IsPassed run nodes messages plan statuses) where
  IsChecked-at :
      (id : Text)
      → contains id plan.node_ids ≡ true
      → IsChecked run plan nodes messages id (status_in statuses id)
  IsChecked-at id at =
      status_in-All (IsChecked run plan nodes messages) statuses id passed.checked
        (subst (λ ids. contains id ids ≡ true) (sym passed.named) at)

  completed-HasOutputs :
      (id : Text) → status_in statuses id ≡ completed → HasOutputs run plan nodes messages id
  completed-HasOutputs id h =
      let c = IsChecked-at id (
        subst (λ ids. contains id ids ≡ true) passed.named
          (status_in-contains statuses id (rw h refl))) in
      passed.outputs c.row_of id c.stored (rw (c.seen.status_same ∙ ap some h) refl)

  dependencies_completed :
      (id : Text)
      → ((p : CollaborationDagPlannedNode)
          → planned_in plan.nodes_by_id id ≡ some p
          → All (λ d. contains d plan.node_ids ≡ true) p.depends_on)
      → status_in statuses id ≡ completed
      → All
          (λ d.
            (contains d plan.node_ids ≡ true)
            × (status_beq (status_in statuses d) completed ≡ true))
          (depends_on_in plan.nodes_by_id id)
  dependencies_completed id closed h =
      let (p, found, outputs) = completed-HasOutputs id h in
      subst (All _) (sym (depends_on_in-planned plan.nodes_by_id id p found)) (
        All-map
          (λ d.
            (contains d plan.node_ids ≡ true)
            × ((m : CollaborationMessageRecord) × (messages d ≡ some m)))
          (λ d.
            (contains d plan.node_ids ≡ true)
            × (status_beq (status_in statuses d) completed ≡ true))
          p.depends_on
          (λ d (at, (m, e)). (
            at,
            rw
                (IsChecked-completed run plan nodes messages d (status_in statuses d) (rw e refl)
                  (IsChecked-at d at))
                refl,
          ))
          (All-both (λ d. contains d plan.node_ids ≡ true)
            (λ d. (m : CollaborationMessageRecord) × (messages d ≡ some m)) p.depends_on
            (closed p found) outputs))

module _ (run : RoleBasedCollaborationRun) (metadata : CollaborationDagRunMetadata)
    (nodes : List CollaborationDagNodeRecord) (inputs : List PersistedCollaborationDagInput)
    (messages : Text → Option CollaborationMessageRecord) (state : CollaborationDagPersistedState)
    (h : derive_persisted_state run metadata nodes inputs messages ≡ ok state) where
  -- If the gate lets the state of a run through, every node whose status is `completed` has only
  -- dependencies that are nodes of the plan and `completed`, though the code compares no node's
  -- status with that of another.
  pub derive_persisted_state_order :
      (id : Text)
      → status_in state.derived.statuses_by_node id ≡ completed
      → All
          (λ d.
            (contains d state.plan.node_ids ≡ true)
            × (status_beq (status_in state.derived.statuses_by_node d) completed ≡ true))
          (depends_on_in state.plan.nodes_by_id id)
  derive_persisted_state_order id done =
      let (made, passed) = derive-IsPassed run metadata nodes inputs messages state h in
      dependencies_completed run nodes messages state.plan state.derived.statuses_by_node passed id
        (λ p found. planned_in-IsClosed metadata.graph (options_of run) state.plan id p made found)
        done

  -- A gate that is passed returns one status for each node of the plan, in order, and the node
  -- `constructor`, if there is one, must be `completed`: `messagesByNode` is a plain object, which has
  -- that property for every run.
  pub derive_persisted_state_constructor :
      (map (λ e. e.0) state.derived.statuses_by_node ≡ state.plan.node_ids)
      × (contains (codes "constructor") state.plan.node_ids ≡ true
          → status_in state.derived.statuses_by_node (codes "constructor") ≡ completed)
  derive_persisted_state_constructor =
      let (made, passed) = derive-IsPassed run metadata nodes inputs messages state h in
      (
        passed.named,
        λ at.
            IsChecked-completed run state.plan nodes messages (codes "constructor")
              (status_in state.derived.statuses_by_node (codes "constructor"))
              (property_of-constructor (messages (codes "constructor")))
              (IsChecked-at run nodes messages state.plan state.derived.statuses_by_node passed
                (codes "constructor") at),
      )
