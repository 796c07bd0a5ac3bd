-- ===== src/DagProvenance/Samples.antt =====
-- A node with one dependency. The digest of a text is the text.
use agent_chatgpt_bridge.Common.{
  true, false, List, [], ◌∷◌, Option, none, some, ◌==◌, list_equality, number_equality,
  if◌then◌else◌, ◌≡◌, refl, String,
}
use agent_chatgpt_bridge.Errors.{Thrown, Result, ok, err}
use agent_chatgpt_bridge.Js.{Text, codes}
use agent_chatgpt_bridge.Js.Number.{nat}
use agent_chatgpt_bridge.CollaborationDag.{
  CollaborationDagExecutionPlan, CollaborationDagPlannedNode, ready, default_budget,
}
use agent_chatgpt_bridge.DagRecovery.{
  CollaborationMessageRecord, CollaborationDagNodeRecord, RoleBasedCollaborationRun, check_input,
}
use agent_chatgpt_bridge.DagProvenance.{
  AssembledCollaborationDagInput, replace_crlf, replace_cr, normalize_canonical_text, join_lines,
  payload, verify_message, predecessors, assemble_input,
}
use agent_chatgpt_bridge.DagProvenance.Payload.{headers, verify_message-binds}
use agent_chatgpt_bridge.DagProvenance.Accepted.{recorded, assemble_input-accepted}

program : Unit {0}
unfolding replace_crlf replace_cr normalize_canonical_text join_lines payload verify_message
    predecessors assemble_input
program = tt

abbrev same_text : Text → Text
same_text t = t

abbrev plain : CollaborationMessageRecord
plain = record {
  id = codes "m";
  run_id = codes "r";
  turn_id = codes "t1";
  sequence_index = nat 0;
  sender_participant_id = codes "p1";
  sender_role_id = codes "coder";
  decision_type = codes "message";
  content = codes "done";
  content_hash = [];
}

abbrev message : CollaborationMessageRecord
message = record plain { content_hash = payload same_text plain }

message_verified : verify_message same_text same_text message ≡ true
unfolding program
message_verified = refl

verify_message-binds_example :
    (headers message ≡ headers message)
    × (normalize_canonical_text same_text message.content
        ≡ normalize_canonical_text same_text message.content)
verify_message-binds_example =
    verify_message-binds same_text same_text message message message_verified message_verified refl
      (λ h. h) (refl, (refl, (refl, (refl, (refl, tt))))) (refl, (refl, (refl, (refl, (refl, tt)))))

abbrev node : String → List Text → CollaborationDagPlannedNode
node id deps = record {
  id = codes id;
  participant_id = codes "p1";
  instruction = codes "do it";
  depends_on = deps;
  dependents = [];
  declaration_index = 0;
  indegree = 0;
  topological_level = 0;
  terminal = false;
  retry_limit = nat 0;
  timeout_ms = none;
}

abbrev plan : CollaborationDagExecutionPlan
plan = record {
  edge_count = 1;
  node_ids = codes "a" ∷ codes "b" ∷ [];
  topological_order = codes "a" ∷ codes "b" ∷ [];
  root_node_ids = codes "a" ∷ [];
  sink_node_ids = codes "b" ∷ [];
  nodes_by_id = (codes "a", node "a" []) ∷ (codes "b", node "b" (codes "a" ∷ [])) ∷ [];
}

abbrev run : RoleBasedCollaborationRun
run = record {
  id = codes "r";
  budget = default_budget;
  participant_ids = codes "p1" ∷ [];
  role_of = λ id. some (codes "coder");
  turn_history = [];
}

abbrev messages : Text → Option CollaborationMessageRecord
messages id = if id == codes "a" then some message else none

abbrev nothing : AssembledCollaborationDagInput
nothing = record {
  node_id = [];
  objective_included = false;
  predecessor_node_ids = [];
  predecessor_message_ids = [];
  predecessor_messages = [];
  turns = [];
}

abbrev input_of : Result Thrown AssembledCollaborationDagInput → AssembledCollaborationDagInput
input_of (ok a) = a
input_of (err e) = nothing

abbrev input : AssembledCollaborationDagInput
input = input_of (assemble_input same_text same_text (codes "r") messages plan (codes "b") none)

assembled : assemble_input same_text same_text (codes "r") messages plan (codes "b") none ≡ ok input
unfolding program
assembled = refl

abbrev b_row : CollaborationDagNodeRecord
b_row = record {
  id = codes "b";
  run_id = codes "r";
  participant_id = codes "p1";
  role_id = codes "coder";
  status = some ready;
  declaration_index = nat 1;
  attempt = nat 1;
  retry_limit = nat 0;
  timeout_ms = none;
  output_message_id = none;
  error_code = none;
}

abbrev rows : List CollaborationDagNodeRecord
rows = b_row ∷ []

assemble_input-accepted_example :
    check_input run plan rows messages (recorded run input 1) [] ≡ ok (codes "b", 1)
assemble_input-accepted_example =
    assemble_input-accepted same_text same_text run plan rows messages (codes "b") none input b_row
      1 [] assembled refl refl refl refl
