-- ===== src/DagRecovery/Passed.antt =====
-- src/core/collaboration-dag-recovery.ts: what state that has passed the gate looks like.
use agent_chatgpt_bridge.Common.{
  ℕ, ◌≡◌, ◌⊎◌, inl, inr, refl, sym, subst, ap, ◌∙◌, true, false, not, ◌&&◌, ◌||◌, List, [], ◌∷◌,
  ◌++◌, Option, some, ◌==◌, list_equality, number_equality, ltb, eqb, All, arith, list_beq_iff,
  Bool-cases, Option-cases,
}
use agent_chatgpt_bridge.Common.{map}
use mathlib.Core.List.{append-nil, append_assoc, map-append}
use agent_chatgpt_bridge.Errors.{ok, or_throw, bind-ok, sequence-ok, or_throw-ok, ok_injective}
use agent_chatgpt_bridge.Js.{Text, Number, non_negative_integer}
use agent_chatgpt_bridge.CollaborationDag.{
  CollaborationDagExecutionPlan, CollaborationDagPlannedNode, CollaborationDagNodeStatus, pending,
  ready, running, completed, status_beq, planned_in,
}
use agent_chatgpt_bridge.DagRecovery.{
  CollaborationDagNodeRecord, PersistedCollaborationDagInput, CollaborationMessageRecord,
  RoleBasedCollaborationRun, Failure, corrupt, Property, own, inherited, property_of, row,
  has_status, check_output, check_node, Derived, check_nodes, expected_message_ids, Key, has_key,
  count_of, check_input, check_inputs, check_provenance, note_node, same_strings, is_restarted,
  is_absent, same_number, same_optional, exceeds, is_truthy,
}

-- `row` finds a row of the table, with the id that was asked for.
pub row-All :
    (P : CollaborationDagNodeRecord → Type 0) (ns : List CollaborationDagNodeRecord) (id : Text)
    (n : CollaborationDagNodeRecord)
    → row ns id ≡ some n
    → All P ns
    → P n × (n.id ≡ id)
row-All P [] id n h all = cc
row-All P (m ∷ ns) id n h all = elim (Option-cases (row ns id)) [
  | inl nothing ↦ elim (Bool-cases (m.id == id)) [
    | inl same ↦
        let e : m ≡ n = ground (arith, h, nothing, same) in
        (subst P e all.0, ground (arith, e, list_beq_iff m.id id))
    | inr other ↦ absurd (ground (arith, h, nothing, other))
  ]
  | inr (k, later) ↦ row-All P ns id n (ground (arith, h, later)) all.1
]

-- A node with an output has passed only as `completed`.
check_output-present :
    (run : RoleBasedCollaborationRun) (n : CollaborationDagNodeRecord) (output : Property)
    (status : CollaborationDagNodeStatus) (attempt : ℕ)
    → is_absent output ≡ false
    → check_output run n output status attempt ≡ ok tt
    → status ≡ completed
unfolding check_output
check_output-present run n (own m) completed attempt present h = refl
check_output-present run n inherited completed attempt present h = refl
check_output-present run n output status attempt present h = ground arith

-- What the checks of one row establish.
pub record IsSeen (n : CollaborationDagNodeRecord) (output : Property)
    (status : CollaborationDagNodeStatus) : Type 0 where
  pub status_same : n.status ≡ some status
  pub present : is_absent output ≡ false → status ≡ completed

check_node-ok :
    (run : RoleBasedCollaborationRun) (output : Property) (p : CollaborationDagPlannedNode)
    (n : CollaborationDagNodeRecord) (seen : CollaborationDagNodeStatus × ℕ)
    → check_node run output p n ≡ ok seen
    → IsSeen n output seen.0
unfolding check_node
check_node-ok run output p n seen h =
    let (_, h1) =
      sequence-ok
        (not (
          n.run_id == run.id
          && n.participant_id == p.participant_id
          && same_number n.declaration_index (Number.nat p.declaration_index)
          && same_number n.retry_limit p.retry_limit
          && same_optional n.timeout_ms p.timeout_ms))
        corrupt _ h in
    let (role, _, h2) = bind-ok (or_throw (run.role_of n.participant_id) corrupt) _ h1 in
    let (_, h3) = sequence-ok (not (role == n.role_id)) corrupt _ h2 in
    let (status, hs, h4) = bind-ok (or_throw n.status corrupt) _ h3 in
    let (attempt, _, h5) = bind-ok (or_throw (non_negative_integer n.attempt) corrupt) _ h4 in
    let (_, h6) = sequence-ok (exceeds attempt n.retry_limit) corrupt _ h5 in
    let (_, h7) = sequence-ok (status_beq status pending && not (eqb attempt 0)) corrupt _ h6 in
    let (_, h8) =
      sequence-ok (status_beq status running && (eqb attempt 0 || is_truthy n.output_message_id))
        corrupt _ h7 in
    let (_, ho, h9) = bind-ok (check_output run n output status attempt) _ h8 in
    let same : status ≡ seen.0 =
      ap (λ (k : CollaborationDagNodeStatus × ℕ). k.0) (ok_injective {E = Failure} _ _ h9) in
    record {
      status_same = or_throw-ok _ _ status hs ∙ ap some same;
      present = λ e. sym same ∙ check_output-present run n output status attempt e ho;
    }

module _ (run : RoleBasedCollaborationRun) (plan : CollaborationDagExecutionPlan)
    (nodes : List CollaborationDagNodeRecord)
    (messages : Text → Option CollaborationMessageRecord) where
  -- What the first loop establishes of an entry of `statusesByNode`.
  pub record IsChecked (id : Text) (status : CollaborationDagNodeStatus) : Type 0 where
    pub node : CollaborationDagPlannedNode
    pub found : planned_in plan.nodes_by_id id ≡ some node
    pub row_of : CollaborationDagNodeRecord
    pub stored : row nodes id ≡ some row_of
    pub seen : IsSeen row_of (property_of (messages id) id) status

  abbrev pub Entries : Type 0
  Entries = List (Text × CollaborationDagNodeStatus)

  All-push :
      (es : Entries) (e : Text × CollaborationDagNodeStatus)
      → All (λ e. IsChecked e.0 e.1) es
      → IsChecked e.0 e.1
      → All (λ e. IsChecked e.0 e.1) (es ++ e ∷ [])
  All-push [] e all c = (c, tt)
  All-push (x ∷ es) e all c = (all.0, All-push es e all.1 c)

  pub check_nodes-ok :
      (ids : List Text) (d d' : Derived)
      → check_nodes run plan nodes messages ids d ≡ ok d'
      → All (λ e. IsChecked e.0 e.1) d.statuses_by_node
      → All (λ e. IsChecked e.0 e.1) d'.statuses_by_node
        × (map (λ e. e.0) d'.statuses_by_node ≡ map (λ e. e.0) d.statuses_by_node ++ ids)
  unfolding check_nodes
  check_nodes-ok [] d d' h all =
      let same = ok_injective {E = Failure} d d' h in
      subst
        (λ (k : Derived).
          All (λ e. IsChecked e.0 e.1) k.statuses_by_node
          × (map (λ e. e.0) k.statuses_by_node ≡ map (λ e. e.0) d.statuses_by_node ++ []))
        same (all, sym (append-nil _))
  check_nodes-ok (id ∷ ids) d d' h all =
      let (p, hp, h1) = bind-ok (or_throw (planned_in plan.nodes_by_id id) corrupt) _ h in
      let (n, hn, h2) = bind-ok (or_throw (row nodes id) corrupt) _ h1 in
      let (seen, hs, h3) = bind-ok (check_node run (property_of (messages id) id) p n) _ h2 in
      let rest = check_nodes-ok ids (note_node run plan nodes messages id p seen d) d' h3 (
        All-push d.statuses_by_node (id, seen.0) all
          (record {
            node = p;
            found = or_throw-ok _ _ p hp;
            row_of = n;
            stored = or_throw-ok _ _ n hn;
            seen = check_node-ok run _ p n seen hs;
          })) in
      (
        rest.0,
        rest.1
            ∙ ap (λ xs. xs ++ ids) (map-append (λ e. e.0) d.statuses_by_node ((id, seen.0) ∷ []))
            ∙ append_assoc (map (λ e. e.0) d.statuses_by_node) (id ∷ []) ids,
      )

  expected-ok :
      (ds : List Text) {ids : List Text}
      → expected_message_ids run plan nodes messages ds ≡ ok ids
      → All (λ d. (m : CollaborationMessageRecord) × (messages d ≡ some m)) ds
  unfolding expected_message_ids
  expected-ok [] h = tt
  expected-ok (d ∷ ds) h =
      let (m, hm, h1) = bind-ok (or_throw (messages d) corrupt) _ h in
      let (ids, hi, h2) = bind-ok (expected_message_ids run plan nodes messages ds) _ h1 in
      ((m, or_throw-ok _ _ m hm), expected-ok ds hi)

  -- What an input that was let through says of its node.
  abbrev pub HasOutputs : Text → Type 0
  HasOutputs id =
      (p : CollaborationDagPlannedNode) × (planned_in plan.nodes_by_id id ≡ some p)
      × All (λ d. (m : CollaborationMessageRecord) × (messages d ≡ some m)) p.depends_on

  check_input-ok :
      (i : PersistedCollaborationDagInput) (keys : List Key) (key : Key)
      → check_input run plan nodes messages i keys ≡ ok key
      → HasOutputs key.0
  unfolding check_input
  check_input-ok i keys key h =
      let (n, hn, h1) = bind-ok (or_throw (row nodes i.node_id) corrupt) _ h in
      let (p, hp, h2) = bind-ok (or_throw (planned_in plan.nodes_by_id i.node_id) corrupt) _ h1 in
      let (_, h3) = sequence-ok (not (i.run_id == run.id)) corrupt _ h2 in
      let (attempt, ha, h4) = bind-ok (or_throw (non_negative_integer i.attempt) corrupt) _ h3 in
      let (_, h5) = sequence-ok (eqb attempt 0 || ltb (count_of n.attempt) attempt) corrupt _ h4 in
      let (_, h6) = sequence-ok (has_key i.node_id attempt keys) corrupt _ h5 in
      let (_, h7) =
        sequence-ok (not (same_strings i.predecessor_node_ids p.depends_on)) corrupt _ h6 in
      let (expected, he, h8) =
        bind-ok (expected_message_ids run plan nodes messages p.depends_on) _ h7 in
      let (_, h9) =
        sequence-ok (not (same_strings i.predecessor_message_ids expected)) corrupt _ h8 in
      let same : i.node_id ≡ key.0 = ap (λ (k : Key). k.0) (ok_injective {E = Failure} _ _ h9) in
      subst HasOutputs same (p, or_throw-ok _ _ p hp, expected-ok p.depends_on he)

  abbrev pub AllKeys : List Key → Type 0
  AllKeys keys = (id : Text) (a : ℕ) → has_key id a keys ≡ true → HasOutputs id

  has_key-push :
      (id : Text) (a : ℕ) (keys : List Key) (key : Key)
      → has_key id a (keys ++ key ∷ []) ≡ true
      → (has_key id a keys ≡ true) ⊎ (key.0 ≡ id)
  has_key-push id a [] key h = inr (ground (arith, list_beq_iff key.0 id))
  has_key-push id a (k ∷ keys) key h = elim (Bool-cases (has_key id a (k ∷ keys))) [
    | inl old ↦ inl old
    | inr new ↦ ground (arith, has_key-push id a keys key)
  ]

  pub check_inputs-ok :
      (is : List PersistedCollaborationDagInput) (keys : List Key) {keys' : List Key}
      → check_inputs run plan nodes messages is keys ≡ ok keys'
      → AllKeys keys
      → AllKeys keys'
  unfolding check_inputs
  check_inputs-ok [] keys {keys'} h all = subst AllKeys (cc) all
  check_inputs-ok (i ∷ is) keys h all =
      let (key, hk, h1) = bind-ok (check_input run plan nodes messages i keys) _ h in
      check_inputs-ok is (keys ++ key ∷ []) h1 (λ id a at. elim (has_key-push id a keys key at) [
        | inl old ↦ all id a old
        | inr new ↦ subst HasOutputs new (check_input-ok i keys key hk)
      ])

pub check_provenance-ok :
    (keys : List Key) (ns : List CollaborationDagNodeRecord)
    → check_provenance keys ns ≡ ok tt
    → All (λ n. has_status completed n ≡ true → has_key n.id (count_of n.attempt) keys ≡ true) ns
unfolding check_provenance
check_provenance-ok keys [] h = tt
check_provenance-ok keys (n ∷ ns) h =
    let has = has_key n.id (count_of n.attempt) keys in
    let (first, h1) = sequence-ok (has_status completed n && not has) corrupt _ h in
    let (_, h2) =
      sequence-ok
        (has_status ready n && ltb 0 (count_of n.attempt) && not (is_restarted n) && not has)
        corrupt _ h1 in
    ((λ c. ground (arith, first, c)), check_provenance-ok keys ns h2)
