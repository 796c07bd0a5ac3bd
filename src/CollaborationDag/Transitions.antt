-- ===== src/CollaborationDag/Transitions.antt =====
-- The statuses of a node as a state machine.
use agent_chatgpt_bridge.Common.{◌≡◌, refl, true, false, ◌∙◌, subst, ◌↔◌, arith}
use agent_chatgpt_bridge.CollaborationDag.{
  CollaborationDagNodeStatus, pending, ready, running, completed, failed, is_valid_transition,
  is_terminal_status,
}

-- Some steps that the table allows.
pub data Reaches : CollaborationDagNodeStatus → CollaborationDagNodeStatus → Type 0 where
  here : {s : CollaborationDagNodeStatus} → Reaches s s
  then :
      {s t u : CollaborationDagNodeStatus}
      → is_valid_transition s t ≡ true
      → Reaches t u
      → Reaches s u

stays :
    (s t : CollaborationDagNodeStatus)
    → is_terminal_status s ≡ true
    → is_valid_transition s t ≡ true
    → s ≡ t
unfolding is_terminal_status is_valid_transition
stays s t h v = ground arith

unleft : {s t : CollaborationDagNodeStatus} → is_terminal_status s ≡ true → Reaches s t → s ≡ t
unleft h here = refl
unleft h (then {s} {t} v r) =
    let same = stays s t h v in same ∙ unleft (subst (λ u. is_terminal_status u ≡ true) same h) r

-- A status is terminal exactly if the table leads from it to nothing else, by any number of steps.
pub is_terminal_status_iff :
    (s : CollaborationDagNodeStatus)
    → (is_terminal_status s ≡ true) ↔ ((t : CollaborationDagNodeStatus) → Reaches s t → s ≡ t)
unfolding is_terminal_status is_valid_transition
is_terminal_status_iff pending = (λ h. cc, λ all. cc (all ready (then refl here)))
is_terminal_status_iff ready = (λ h. cc, λ all. cc (all running (then refl here)))
is_terminal_status_iff running = (λ h. cc, λ all. cc (all failed (then refl here)))
is_terminal_status_iff s = (λ h t r. unleft h r, λ _. refl)

-- From every status that is not terminal the table leads to `completed`.
pub Reaches-completed :
    (s : CollaborationDagNodeStatus) → is_terminal_status s ≡ false → Reaches s completed
unfolding is_terminal_status is_valid_transition
Reaches-completed pending h =
    then {t = ready} refl (then {t = running} refl (then {t = completed} refl here))
Reaches-completed ready h = then {t = running} refl (then {t = completed} refl here)
Reaches-completed running h = then {t = completed} refl here
Reaches-completed _ h = cc
