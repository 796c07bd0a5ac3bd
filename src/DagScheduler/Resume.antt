-- ===== src/DagScheduler/Resume.antt =====
-- src/core/collaboration-dag-scheduler.ts, a whole run: from the persisted statuses to any point of it.
use agent_chatgpt_bridge.Common.{
  ℕ, ◌≡◌, refl, sym, subst, Bool, true, false, List, [], ◌∷◌, Option, none, some, list_equality,
  number_equality, leb, contains, arith,
}
use agent_chatgpt_bridge.Js.{Text, Number, positive_integer}
use agent_chatgpt_bridge.CollaborationDag.Limits
use agent_chatgpt_bridge.CollaborationDag.{
  CollaborationDagExecutionPlan, CollaborationDagFailurePolicy, pending, running, completed,
  status_beq,
}
use agent_chatgpt_bridge.DagScheduler.{State, Phase, state_of, Event, Status, every_in, keys}
use agent_chatgpt_bridge.DagScheduler.Moves.{
  load, no_state, run_with, run_bounded_collaboration_dag,
}
use agent_chatgpt_bridge.Common.{All}
use agent_chatgpt_bridge.DagScheduler.Invariant.{run_from-Withstands}
use agent_chatgpt_bridge.Common.{if-both}
use agent_chatgpt_bridge.DagScheduler.Ordered.{Ordered, deps_of, Withstands-Ordered}
use agent_chatgpt_bridge.DagScheduler.Order.{is_started, IsLegal}
use agent_chatgpt_bridge.DagScheduler.Load.{IsLoaded, load-IsLoaded, load-done, no_state-IsLoaded}

-- Persisted statuses that a run may start from: recovery has left no node `running`, and what is
-- `ready` or `completed` has its dependencies in the plan, `completed`.
pub record IsResumable (plan : CollaborationDagExecutionPlan) (initial : Text → Status)
    : Type 0 where
  pub idle : (x : Text) → status_beq (initial x) running ≡ false
  pub met :
      (x : Text)
      → is_started (initial x) ≡ true
      → All
          (λ d. (contains d plan.node_ids ≡ true) × (status_beq (initial d) completed ≡ true))
          (deps_of plan x)

every_in-All :
    {P : Text → Type 0} (done ds : List Text)
    → ((d : Text) → P d → contains d done ≡ true)
    → All P ds
    → every_in done ds ≡ true
every_in-All done [] h a = refl
every_in-All done (d ∷ ds) h a = ground (arith, h d a.0, every_in-All done ds h a.1)

All-every_in :
    {P : Text → Type 0} (done ds : List Text)
    → ((d : Text) → contains d done ≡ true → P d)
    → every_in done ds ≡ true
    → All P ds
All-every_in done [] h e = tt
All-every_in done (d ∷ ds) h e =
    (h d (ground (arith, e)), All-every_in done ds h (ground (arith, e)))

-- Whatever the loop has done, the state is ordered if each started node has its dependencies done.
IsLoaded-Ordered :
    {T : Type 0} (plan : CollaborationDagExecutionPlan) (initial : Text → Status)
    (idle : (x : Text) → status_beq (initial x) running ≡ false) (s : State T)
    → IsLoaded initial idle s
    → ((x : Text)
        → is_started (initial x) ≡ true
        → every_in s.completed_nodes (deps_of plan x) ≡ true)
    → Ordered plan s
unfolding Ordered
IsLoaded-Ordered plan initial idle s l h = record {
  under_way = λ x c. absurd (cc (subst (λ ks. contains x ks ≡ true) l.nothing_active c));
  finished_nodes = λ x c. (l.done x c).0;
  met = λ x st. h x (l.origin x st);
  legal = subst (All IsLegal) (sym l.nothing_moved) tt;
}

load-Ordered :
    (T : Type 0) (plan : CollaborationDagExecutionPlan) (initial : Text → Status) (b : Bool)
    → IsResumable plan initial
    → Ordered {T = T} plan (state_of (load initial plan.node_ids (no_state b)))
load-Ordered T plan initial b r =
    let s : State T = state_of (load initial plan.node_ids (no_state b)) in
    IsLoaded-Ordered plan initial r.idle s
      (load-IsLoaded initial r.idle plan.node_ids (no_state b)
        (no_state-IsLoaded T initial r.idle b))
      (λ x st.
        every_in-All s.completed_nodes (deps_of plan x)
          (λ d h. load-done initial r.idle plan.node_ids (no_state b) d h.0 h.1) (r.met x st))

no_state-Ordered :
    (T : Type 0) (plan : CollaborationDagExecutionPlan) (b : Bool)
    → Ordered {T = T} plan (no_state b)
no_state-Ordered T plan b =
    IsLoaded-Ordered plan (λ _. pending) (λ _. refl) (no_state b)
      (no_state-IsLoaded T (λ _. pending) (λ _. refl) b) (λ x h. absurd (cc))

abbrev InOrder : {T : Type 0} → CollaborationDagExecutionPlan → State T → Type 0
InOrder plan s =
    ((x : Text)
      → is_started (s.statuses x) ≡ true
      → All (λ d. status_beq (s.statuses d) completed ≡ true) (deps_of plan x))
    × ((x : Text) → contains x (keys s.active) ≡ true → status_beq (s.statuses x) running ≡ true)
    × All IsLegal s.transitions

Ordered-InOrder :
    {T : Type 0} (plan : CollaborationDagExecutionPlan) (s : State T)
    → Ordered plan s
    → InOrder plan s
unfolding Ordered
Ordered-InOrder plan s o = (
  λ x h. All-every_in s.completed_nodes (deps_of plan x) o.finished_nodes (o.met x h),
  o.under_way,
  o.legal,
)

run_with-Ordered :
    {T : Type 0} (plan : CollaborationDagExecutionPlan) (limit : Option ℕ)
    (policy : CollaborationDagFailurePolicy) (initial : Text → Status) (aborted : Bool)
    (events : List (Event T))
    → IsResumable plan initial
    → Ordered plan (state_of (run_with plan limit policy initial aborted events))
unfolding run_with
run_with-Ordered {T} plan none policy initial aborted events r = no_state-Ordered T plan aborted
run_with-Ordered {T} plan (some k) policy initial aborted events r =
    if-both (λ (phase : Phase T). Ordered plan (state_of phase)) (leb k Limits.max_parallel_turns) _
      _
      (λ h.
        run_from-Withstands (Withstands-Ordered plan k) policy events
          (load initial plan.node_ids (no_state aborted)) (load-Ordered T plan initial aborted r))
      (λ h. no_state-Ordered T plan aborted)

-- A run from statuses that recovery has left in order, whatever order the nodes settle in and
-- whenever the caller aborts: at every point where the function waits, and when it returns or throws,
-- a node that is `ready`, `running` or `completed` has all its dependencies `completed`, every node
-- in `active` is `running`, and every transition reported is one that
-- `isValidCollaborationDagNodeTransition` allows.
pub run_bounded_collaboration_dag_order :
    {T : Type 0} (plan : CollaborationDagExecutionPlan) (n : Number)
    (policy : CollaborationDagFailurePolicy) (initial : Text → Status) (aborted : Bool)
    (events : List (Event T))
    → IsResumable plan initial
    → let s = state_of (run_bounded_collaboration_dag plan n policy initial aborted events) in
      ((x : Text)
        → is_started (s.statuses x) ≡ true
        → All (λ d. status_beq (s.statuses d) completed ≡ true) (deps_of plan x))
      × ((x : Text) → contains x (keys s.active) ≡ true → status_beq (s.statuses x) running ≡ true)
      × All IsLegal s.transitions
unfolding run_bounded_collaboration_dag
run_bounded_collaboration_dag_order {T} plan n policy initial aborted events r =
    Ordered-InOrder plan _
      (run_with-Ordered plan (positive_integer n) policy initial aborted events r)
