-- ===== src/DagProvenance/Accepted.antt =====
-- src/core/collaboration-dag-provenance.ts: what is recorded of an assembled input passes recovery.
use agent_chatgpt_bridge.Common.{
  ℕ, Bool, true, false, List, [], ◌∷◌, Option, none, some, ◌==◌, list_equality, number_equality,
  if◌then◌else◌, eqb, ltb, ◌≡◌, refl, sym, ap, arith, beq_self, if-both,
}
use agent_chatgpt_bridge.Errors.{Thrown, Result, ok, bind-ok, ok_injective}
use agent_chatgpt_bridge.Js.{Text, codes}
use agent_chatgpt_bridge.Js.Number.{nat}
use agent_chatgpt_bridge.CollaborationDag.{
  CollaborationDagExecutionPlan, CollaborationDagPlannedNode, planned_in,
}
use agent_chatgpt_bridge.DagRecovery.{
  CollaborationMessageRecord, CollaborationDagNodeRecord, RoleBasedCollaborationRun,
  PersistedCollaborationDagInput, inherited, absent, property_of, row, same_strings, has_key,
  count_of, Key, expected_message_ids, check_input,
}
use agent_chatgpt_bridge.DagProvenance.{
  AssembledCollaborationDagInput, message_ids, message_of, node_of, assert_integrity, predecessors,
  assemble_input,
}

same_strings_self : (ts : List Text) → same_strings ts ts ≡ true
same_strings_self [] = refl
same_strings_self (t ∷ ts) = ground (arith, beq_self t, same_strings_self ts)

inherited_or_absent :
    (run_id : Text) (m : CollaborationMessageRecord) (test : Bool)
    → message_of run_id (if test then inherited else absent) ≡ ok m
    → none ≡ some m
inherited_or_absent run_id m true h = cc
inherited_or_absent run_id m false h = cc

-- Only an own property is a message.
message_of-ok :
    (run_id d : Text) (o : Option CollaborationMessageRecord) (m : CollaborationMessageRecord)
    → message_of run_id (property_of o d) ≡ ok m
    → o ≡ some m
message_of-ok run_id d (some x) m h =
    if-both (λ (r : Result Thrown CollaborationMessageRecord). r ≡ ok m → some x ≡ some m)
      (x.run_id == run_id) _ _ (λ _ k. ap some (ok_injective {E = Thrown} _ _ k)) (λ _ k. cc) h
message_of-ok run_id d none m h = inherited_or_absent run_id m (d == codes "constructor") h

node_of-ok :
    (o : Option CollaborationDagPlannedNode) (id : Text) (p : CollaborationDagPlannedNode)
    → node_of o id ≡ ok p
    → o ≡ some p
node_of-ok (some x) id p h = ap some (ok_injective {E = Thrown} _ _ h)
node_of-ok none id p h =
    if-both (λ (r : Result Thrown CollaborationDagPlannedNode). r ≡ ok p → none ≡ some p)
      (id == codes "constructor") _ _ (λ _ k. cc) (λ _ k. cc) h

module _ (nfc digest : Text → Text) (run : RoleBasedCollaborationRun)
    (plan : CollaborationDagExecutionPlan) (nodes : List CollaborationDagNodeRecord)
    (messages : Text → Option CollaborationMessageRecord) where
  predecessors-expected :
      (ds : List Text) (ms : List CollaborationMessageRecord)
      → predecessors nfc digest run.id messages ds ≡ ok ms
      → expected_message_ids run plan nodes messages ds ≡ ok (message_ids ms)
  unfolding predecessors expected_message_ids
  predecessors-expected [] ms h = ap (λ k. ok (message_ids k)) (ok_injective {E = Thrown} _ _ h)
  predecessors-expected (d ∷ ds) ms h =
      let (m, found, h1) = bind-ok (message_of run.id (property_of (messages d) d)) _ h in
      let (_, fit, h2) = bind-ok (assert_integrity nfc digest m) _ h1 in
      let (rest, got, h3) = bind-ok (predecessors nfc digest run.id messages ds) _ h2 in
      let stored = message_of-ok run.id d (messages d) m found in
      let ids = predecessors-expected ds rest got in
      rw stored (rw ids (ap (λ k. ok (message_ids k)) (ok_injective {E = Thrown} (m ∷ rest) ms h3)))

-- The record of an input, as recovery reads it.
abbrev pub recorded :
    RoleBasedCollaborationRun → AssembledCollaborationDagInput → ℕ → PersistedCollaborationDagInput
recorded run a attempt = record {
  run_id = run.id;
  node_id = a.node_id;
  attempt = nat attempt;
  predecessor_node_ids = a.predecessor_node_ids;
  predecessor_message_ids = a.predecessor_message_ids;
}

assemble_input-recorded :
    (nfc digest : Text → Text) (run : RoleBasedCollaborationRun)
    (plan : CollaborationDagExecutionPlan) (messages : Text → Option CollaborationMessageRecord)
    (id : Text) (objective : Option Bool) (a : AssembledCollaborationDagInput)
    → assemble_input nfc digest run.id messages plan id objective ≡ ok a
    → (p : CollaborationDagPlannedNode) × (ms : List CollaborationMessageRecord) × (planned_in
          plan.nodes_by_id id
        ≡ some p)
      × (predecessors nfc digest run.id messages p.depends_on ≡ ok ms)
      × (a.node_id ≡ id)
      × (a.predecessor_node_ids ≡ p.depends_on)
      × (a.predecessor_message_ids ≡ message_ids ms)
unfolding assemble_input
assemble_input-recorded nfc digest run plan messages id objective a h =
    let (p, found, h1) = bind-ok (node_of (planned_in plan.nodes_by_id id) id) _ h in
    let (ms, got, h2) = bind-ok (predecessors nfc digest run.id messages p.depends_on) _ h1 in
    let same = ok_injective {E = Thrown} _ a h2 in
    (
      p,
      ms,
      node_of-ok (planned_in plan.nodes_by_id id) id p found,
      got,
      sym (ap (λ k. k.node_id) same),
      sym (ap (λ k. k.predecessor_node_ids) same),
      sym (ap (λ k. k.predecessor_message_ids) same),
    )

-- An input that has been assembled for a node, and is recorded for an attempt that the node's row has
-- reached and that has no record yet, passes the check of recovery, against the same plan and messages.
pub assemble_input-accepted :
    (nfc digest : Text → Text) (run : RoleBasedCollaborationRun)
    (plan : CollaborationDagExecutionPlan) (nodes : List CollaborationDagNodeRecord)
    (messages : Text → Option CollaborationMessageRecord) (id : Text) (objective : Option Bool)
    (a : AssembledCollaborationDagInput) (n : CollaborationDagNodeRecord) (attempt : ℕ)
    (keys : List Key)
    → assemble_input nfc digest run.id messages plan id objective ≡ ok a
    → row nodes id ≡ some n
    → eqb attempt 0 ≡ false
    → ltb (count_of n.attempt) attempt ≡ false
    → has_key id attempt keys ≡ false
    → check_input run plan nodes messages (recorded run a attempt) keys ≡ ok (id, attempt)
unfolding check_input
assemble_input-accepted nfc digest run plan nodes messages id objective a n attempt keys h at
      positive reached new =
    let (p, ms, found, got, named, deps, ids) =
      assemble_input-recorded nfc digest run plan messages id objective a h in
    let expected = predecessors-expected nfc digest run plan nodes messages p.depends_on ms got in
    rw named (
      rw at (
        rw found (
          rw (beq_self run.id) (
            rw positive (
              rw reached (
                rw new (
                  rw deps (
                    rw (same_strings_self p.depends_on)
                      (rw expected (rw ids (rw (same_strings_self (message_ids ms)) refl)))))))))))
