-- ===== src/DagProvenance/Payload.antt =====
-- src/core/collaboration-transcript.ts: what the hash of a message binds.
use agent_chatgpt_bridge.Common.{
  ℕ, true, false, List, [], ◌∷◌, ◌++◌, list_equality, number_equality, ◌≡◌, refl, sym, ◌∙◌, arith,
  contains, All, list_beq_iff,
}
use agent_chatgpt_bridge.Js.{Text}
use agent_chatgpt_bridge.DagRecovery.{CollaborationMessageRecord}
use agent_chatgpt_bridge.DagProvenance.{
  lf, normalize_canonical_text, join_lines, payload, verify_message,
}

-- A text of one line.
abbrev pub IsLine : Text → Type 0
IsLine text = contains lf text ≡ false

abbrev pub headers : CollaborationMessageRecord → List Text
headers m = m.run_id ∷ m.turn_id ∷ m.sender_participant_id ∷ m.sender_role_id ∷ m.decision_type ∷ []

head_eq : {c d : ℕ} {x y : Text} → c ∷ x ≡ d ∷ y → c ≡ d
head_eq h = cc

tail_eq : {c d : ℕ} {x y : Text} → c ∷ x ≡ d ∷ y → x ≡ y
tail_eq h = cc

cons_eq : {c d : ℕ} {x y : Text} → c ≡ d → x ≡ y → c ∷ x ≡ d ∷ y
cons_eq h k = cc

lines_eq :
    {a b c d e a' b' c' d' e' : Text}
    → a ≡ a'
    → b ≡ b'
    → c ≡ c'
    → d ≡ d'
    → e ≡ e'
    → a ∷ b ∷ c ∷ d ∷ e ∷ [] ≡ a' ∷ b' ∷ c' ∷ d' ∷ e' ∷ []
lines_eq h k l m n = cc

-- Where two texts go on after their first line, they have one first line and go on in one way.
line_injective :
    (x y r s : Text) → IsLine x → IsLine y → x ++ lf ∷ r ≡ y ++ lf ∷ s → (x ≡ y) × (r ≡ s)
line_injective [] [] r s hx hy e = (refl, tail_eq e)
line_injective [] (d ∷ y) r s hx hy e = absurd (ground (arith, hy, head_eq e))
line_injective (c ∷ x) [] r s hx hy e = absurd (ground (arith, hx, head_eq e))
line_injective (c ∷ x) (d ∷ y) r s hx hy e =
    let (same, rest) =
      line_injective x y r s (ground (arith, hx)) (ground (arith, hy)) (tail_eq e) in
    (cons_eq (head_eq e) same, rest)

-- Two messages that pass the check of integrity with one hash agree in the ids of run, turn and sender,
-- in the role and the decision, and in their canonical text; where these ids, roles and decisions have
-- one line each, and the digests of the two payloads are not one unless the payloads are.
pub verify_message-binds :
    (nfc digest : Text → Text) (a b : CollaborationMessageRecord)
    → verify_message nfc digest a ≡ true
    → verify_message nfc digest b ≡ true
    → a.content_hash ≡ b.content_hash
    → (digest (payload nfc a) ≡ digest (payload nfc b) → payload nfc a ≡ payload nfc b)
    → All IsLine (headers a)
    → All IsLine (headers b)
    → (headers a ≡ headers b)
      × (normalize_canonical_text nfc a.content ≡ normalize_canonical_text nfc b.content)
unfolding verify_message payload join_lines
verify_message-binds nfc digest a b va vb same collide la lb =
    let digests =
      sym ((list_beq_iff a.content_hash (digest (payload nfc a))).0 va)
      ∙ same
      ∙ (list_beq_iff b.content_hash (digest (payload nfc b))).0 vb in
    let (run, e1) = line_injective a.run_id b.run_id _ _ la.0 lb.0 (collide digests) in
    let (turn, e2) = line_injective a.turn_id b.turn_id _ _ la.1.0 lb.1.0 e1 in
    let (who, e3) =
      line_injective a.sender_participant_id b.sender_participant_id _ _ la.1.1.0 lb.1.1.0 e2 in
    let (role, e4) =
      line_injective a.sender_role_id b.sender_role_id _ _ la.1.1.1.0 lb.1.1.1.0 e3 in
    let (kind, e5) =
      line_injective a.decision_type b.decision_type _ _ la.1.1.1.1.0 lb.1.1.1.1.0 e4 in
    (lines_eq run turn who role kind, e5)
