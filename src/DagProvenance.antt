-- ===== src/DagProvenance.antt =====
-- src/core/collaboration-transcript.ts and src/core/collaboration-dag-provenance.ts. `nfc` is
-- `String.prototype.normalize("NFC")`, and `digest` the SHA-256 of a text's UTF-8, in hexadecimal digits.
pub mod Payload
pub mod Accepted
mod Samples
use agent_chatgpt_bridge.Common.{
  ℕ, Bool, true, false, not, List, [], ◌∷◌, ◌++◌, map, Option, none, some, ◌==◌, list_equality,
  number_equality, if◌then◌else◌, eqb,
}
use agent_chatgpt_bridge.Errors.{
  Thrown, bridge, other, Result, ok, err, ◌>>=◌, ◌>>◌, throw_if, or_throw,
}
use agent_chatgpt_bridge.Js.{Text, codes}
use agent_chatgpt_bridge.CollaborationDag.{
  CollaborationDagExecutionPlan, CollaborationDagPlannedNode, planned_in,
}
use agent_chatgpt_bridge.DagRecovery.{
  CollaborationMessageRecord, Property, own, inherited, absent, property_of,
}

abbrev pub lf : ℕ
lf = 10

abbrev pub cr : ℕ
cr = 13

-- `replace(/\r\n/g, "\n")`
unfoldable pub replace_crlf : Text → Text
replace_crlf [] = []
replace_crlf (c ∷ []) = c ∷ []
replace_crlf (c ∷ d ∷ rest) =
    let pair = lf ∷ replace_crlf rest in
    let single = c ∷ replace_crlf (d ∷ rest) in
    if eqb c cr then (if eqb d lf then pair else single) else single

-- `replace(/\r/g, "\n")`
unfoldable pub replace_cr : Text → Text
replace_cr [] = []
replace_cr (c ∷ rest) = (if eqb c cr then lf else c) ∷ replace_cr rest

-- `normalizeCanonicalText`
unfoldable pub normalize_canonical_text : (Text → Text) → Text → Text
normalize_canonical_text nfc text = replace_cr (replace_crlf (nfc text))

-- `join("\n")`
unfoldable pub join_lines : List Text → Text
join_lines [] = []
join_lines (t ∷ []) = t
join_lines (t ∷ u ∷ rest) = t ++ lf ∷ join_lines (u ∷ rest)

unfoldable pub payload : (Text → Text) → CollaborationMessageRecord → Text
payload nfc m = join_lines (
    m.run_id
    ∷ m.turn_id
    ∷ m.sender_participant_id
    ∷ m.sender_role_id
    ∷ m.decision_type
    ∷ normalize_canonical_text nfc m.content
    ∷ [])

-- `verifyCollaborationMessage`, with `computeCollaborationMessageHash`
unfoldable pub verify_message : (Text → Text) → (Text → Text) → CollaborationMessageRecord → Bool
verify_message nfc digest m = m.content_hash == digest (payload nfc m)

abbrev pub failure : Text → Thrown
failure code = bridge (record { code = code; retryable = false })

-- `assertCollaborationMessageIntegrity`
abbrev pub assert_integrity :
    (Text → Text) → (Text → Text) → CollaborationMessageRecord → Result Thrown (Unit {0})
assert_integrity nfc digest m =
    throw_if (not (verify_message nfc digest m))
      (failure (codes "collaboration_transcript_integrity_failed"))

-- `PriorCollaborationTurn`
pub record PriorCollaborationTurn : Type 0 where
  pub participant_id : Text
  pub role_id : Text
  pub decision_type : Text
  pub text : Text

-- `collaborationMessagesToPriorTurns`
abbrev pub prior_turns : List CollaborationMessageRecord → List PriorCollaborationTurn
prior_turns [] = []
prior_turns (m ∷ ms) =
    record {
      participant_id = m.sender_participant_id;
      role_id = m.sender_role_id;
      decision_type = m.decision_type;
      text = m.content;
    }
    ∷ prior_turns ms

pub record AssembledCollaborationDagInput : Type 0 where
  pub node_id : Text
  pub objective_included : Bool
  pub predecessor_node_ids : List Text
  pub predecessor_message_ids : List Text
  pub predecessor_messages : List CollaborationMessageRecord
  pub turns : List PriorCollaborationTurn

abbrev pub message_ids : List CollaborationMessageRecord → List Text
message_ids [] = []
message_ids (m ∷ ms) = m.id ∷ message_ids ms

-- `objectiveIncluded !== false`
abbrev pub objective_or_true : Option Bool → Bool
objective_or_true none = true
objective_or_true (some b) = b

-- A message, for the property of `messagesByNodeId`; an inherited property has no `runId`.
abbrev pub message_of : Text → Property → Result Thrown CollaborationMessageRecord
message_of run_id (own m) =
    if m.run_id == run_id
    then ok m
    else err (failure (codes "collaboration_dag_input_run_mismatch"))
message_of run_id inherited = err (failure (codes "collaboration_dag_input_run_mismatch"))
message_of run_id absent = err (failure (codes "collaboration_dag_input_missing"))

-- `nodesById[id]` on a plain object: an inherited property has no `dependsOn` to go through.
abbrev pub node_of :
    Option CollaborationDagPlannedNode → Text → Result Thrown CollaborationDagPlannedNode
node_of (some p) id = ok p
node_of none id =
    if id == codes "constructor"
    then err other
    else err (failure (codes "collaboration_dag_node_not_found"))

module _ (nfc digest : Text → Text) (run_id : Text)
    (messages : Text → Option CollaborationMessageRecord) where
  -- The loop over `node.dependsOn`.
  unfoldable pub predecessors : List Text → Result Thrown (List CollaborationMessageRecord)
  predecessors [] = ok []
  predecessors (d ∷ ds) = do
    m ← message_of run_id (property_of (messages d) d)
    assert_integrity nfc digest m
    ms ← predecessors ds
    ok (m ∷ ms)

  -- `assembleCollaborationDagInput`
  unfoldable pub assemble_input :
      CollaborationDagExecutionPlan
      → Text
      → Option Bool
      → Result Thrown AssembledCollaborationDagInput
  assemble_input plan node_id objective = do
    node ← node_of (planned_in plan.nodes_by_id node_id) node_id
    ms ← predecessors node.depends_on
    ok (record {
      node_id = node_id;
      objective_included = objective_or_true objective;
      predecessor_node_ids = node.depends_on;
      predecessor_message_ids = message_ids ms;
      predecessor_messages = ms;
      turns = prior_turns ms;
    })
