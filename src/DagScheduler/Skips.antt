-- ===== src/DagScheduler/Skips.antt =====
-- src/core/collaboration-dag-scheduler.ts, lines 234-251: which nodes a failed node takes with it.
use agent_chatgpt_bridge.Common.{
  ℕ, zero, suc, ◌+◌, ◌≤◌, ◌≡◌, refl, sym, ap, subst, true, false, ◌||◌, List, [], ◌∷◌, ◌++◌,
  list_equality, number_equality, if◌then◌else◌, length, contains, contains-append, inl, inr,
  Bool-cases, arith, beq_self, list_beq_iff, length-append,
}
use agent_chatgpt_bridge.Js.{Text}
use agent_chatgpt_bridge.CollaborationDag.{
  CollaborationDagExecutionPlan, CollaborationDagPlannedNode,
}
use agent_chatgpt_bridge.DagScheduler.{State, is_open, dependents_in, add_to, settle_as, transition}
use agent_chatgpt_bridge.DagScheduler.Moves.{skip_one, skip_loop, dependents_sum}
use agent_chatgpt_bridge.Common.{if-both}
use agent_chatgpt_bridge.DagScheduler.Order.{
  contains-add_to, contains-add_to_old, contains-add_to_self,
}

-- A node that hangs on another, by one or more edges.
pub data DependsOn (plan : CollaborationDagExecutionPlan) : Text → Text → Type 0 where
  directly :
      {x y : Text} → contains y (dependents_in plan.nodes_by_id x) ≡ true → DependsOn plan x y
  further :
      {x y z : Text}
      → DependsOn plan x y
      → contains z (dependents_in plan.nodes_by_id y) ≡ true
      → DependsOn plan x z

-- What the nodes not seen yet can still queue.
abbrev pub unseen_sum : List (Text × CollaborationDagPlannedNode) → List Text → ℕ
unseen_sum [] seen = 0
unseen_sum ((key, n) ∷ rest) seen =
    (if contains key seen then 0 else length n.dependents) + unseen_sum rest seen

pub unseen_sum-le :
    (nodes : List (Text × CollaborationDagPlannedNode)) (id : Text) (seen : List Text)
    → unseen_sum nodes (add_to id seen) ≤ unseen_sum nodes seen
unseen_sum-le [] id seen = omega arith
unseen_sum-le ((key, n) ∷ rest) id seen =
    ground (arith, unseen_sum-le rest id seen, contains-add_to_old key id seen)

pub unseen_sum-add_to :
    (nodes : List (Text × CollaborationDagPlannedNode)) (id : Text) (seen : List Text)
    → contains id seen ≡ false
    → length (dependents_in nodes id) + unseen_sum nodes (add_to id seen) ≤ unseen_sum nodes seen
unseen_sum-add_to [] id seen h = omega arith
unseen_sum-add_to ((key, n) ∷ rest) id seen h = ground (
  arith,
  unseen_sum-add_to rest id seen h,
  unseen_sum-le rest id seen,
  list_beq_iff key id,
  contains-add_to_old key id seen,
  contains-add_to_self id seen,
)

pub unseen_sum-none :
    (nodes : List (Text × CollaborationDagPlannedNode)) → unseen_sum nodes [] ≡ dependents_sum nodes
unseen_sum-none [] = refl
unseen_sum-none ((key, n) ∷ rest) = omega (arith, unseen_sum-none rest)

-- What was seen or queued is seen or queued after a visit of the first in the queue.
found-visited :
    (plan : CollaborationDagExecutionPlan) (id y : Text) (queue seen : List Text)
    → (contains y seen || contains y (id ∷ queue)) ≡ true
    → (contains y (add_to id seen) || contains y (queue ++ dependents_in plan.nodes_by_id id))
      ≡ true
found-visited plan id y queue seen h = ground (
  arith,
  h,
  contains-append y queue (dependents_in plan.nodes_by_id id),
  contains-add_to_old y id seen,
  contains-add_to_self id seen,
  list_beq_iff id y,
)

module _ {T : Type 0} (plan : CollaborationDagExecutionPlan) where
  -- The loop's invariant.
  pub record IsClosing (queue seen : List Text) (s : State T) : Type 0 where
    pub closed : (x : Text) → contains x seen ≡ true → is_open (s.statuses x) ≡ false
    pub queued :
        (x y : Text)
        → contains x seen ≡ true
        → contains y (dependents_in plan.nodes_by_id x) ≡ true
        → (contains y seen || contains y queue) ≡ true

  -- Every node of a set is closed, and all that hangs on it.
  abbrev pub IsClosed : List Text → State T → Type 0
  IsClosed seen s = IsClosing [] seen s

  skip_one-closed :
      (id x : Text) (s : State T)
      → is_open (s.statuses x) ≡ false
      → is_open ((skip_one id s).statuses x) ≡ false
  unfolding settle_as transition
  skip_one-closed id x s h =
      if-both (λ (t : State T). is_open (t.statuses x) ≡ false) (is_open (s.statuses id)) _ _
        (λ o. ground (arith, h)) (λ o. h)

  skip_one_self : (id : Text) (s : State T) → is_open ((skip_one id s).statuses id) ≡ false
  unfolding settle_as transition
  skip_one_self id s =
      if-both (λ (t : State T). is_open (t.statuses id) ≡ false) (is_open (s.statuses id)) _ _
        (λ o. ground (arith, beq_self id)) (λ o. o)

  visit-IsClosing :
      (id : Text) (queue seen : List Text) (s : State T)
      → IsClosing (id ∷ queue) seen s
      → IsClosing (queue ++ dependents_in plan.nodes_by_id id) (add_to id seen) (skip_one id s)
  visit-IsClosing id queue seen s c = record {
    closed = λ x h. elim (contains-add_to x id seen h) [
      | inl old ↦ skip_one-closed id x s (c.closed x old)
      | inr new ↦
          subst (λ y. is_open ((skip_one id s).statuses y) ≡ false)
            (sym ((list_beq_iff x id).0 new)) (skip_one_self id s)
    ];
    queued = λ x y h e. elim (contains-add_to x id seen h) [
      | inl old ↦ found-visited plan id y queue seen (c.queued x y old e)
      | inr new ↦ ground (
        arith,
        contains-append y queue (dependents_in plan.nodes_by_id id),
        subst (λ z. contains y (dependents_in plan.nodes_by_id z) ≡ true)
            ((list_beq_iff x id).0 new) e,
      )
    ];
  }

  known-IsClosing :
      (id : Text) (queue seen : List Text) (s : State T)
      → contains id seen ≡ true
      → IsClosing (id ∷ queue) seen s
      → IsClosing queue (add_to id seen) s
  known-IsClosing id queue seen s k c = record {
    closed = λ x h. c.closed x (ground (arith, h, k));
    queued = λ x y h e. ground (arith, h, k, e, c.queued x y, list_beq_iff id y);
  }

  pub skip_loop-known :
      (fuel : ℕ) (id : Text) (queue seen : List Text) (s : State T)
      → contains id seen ≡ true
      → skip_loop plan (suc fuel) (id ∷ queue) seen s ≡ skip_loop plan fuel queue (add_to id seen) s
  unfolding skip_loop
  skip_loop-known fuel id queue seen s k =
      ap
        (λ b.
          skip_loop plan fuel (if b then queue else queue ++ dependents_in plan.nodes_by_id id)
            (add_to id seen) (if b then s else skip_one id s))
        k

  pub skip_loop-visit :
      (fuel : ℕ) (id : Text) (queue seen : List Text) (s : State T)
      → contains id seen ≡ false
      → skip_loop plan (suc fuel) (id ∷ queue) seen s
        ≡ skip_loop plan fuel
            (queue ++ dependents_in plan.nodes_by_id id)
            (add_to id seen)
            (skip_one id s)
  unfolding skip_loop
  skip_loop-visit fuel id queue seen s n =
      ap
        (λ b.
          skip_loop plan fuel (if b then queue else queue ++ dependents_in plan.nodes_by_id id)
            (add_to id seen) (if b then s else skip_one id s))
        n

  abbrev pub Closes : List Text → List Text → State T → Type 0
  Closes queue seen s =
      (seen' : List Text) × IsClosed seen' s
      × ((y : Text) → (contains y seen || contains y queue) ≡ true → contains y seen' ≡ true)

  -- With fuel for all that can still be queued, the loop ends with an empty queue: it has seen what was
  -- seen or queued, and all of it is closed.
  pub skip_loop-IsClosed :
      (fuel : ℕ) (queue seen : List Text) (s : State T)
      → length queue + unseen_sum plan.nodes_by_id seen ≤ fuel
      → IsClosing queue seen s
      → Closes queue seen (skip_loop plan fuel queue seen s).1
  unfolding skip_loop
  skip_loop-IsClosed fuel [] seen s f c = (seen, c, λ y h. ground (arith, h))
  skip_loop-IsClosed zero (id ∷ queue) seen s f c = absurd (omega (arith, f))
  skip_loop-IsClosed (suc fuel) (id ∷ queue) seen s f c = elim (Bool-cases (contains id seen)) [
    | inl k ↦
        let r =
          skip_loop-IsClosed fuel queue (add_to id seen) s
            (omega (arith, f, unseen_sum-le plan.nodes_by_id id seen))
            (known-IsClosing id queue seen s k c) in
        subst (λ (k : List Text × State T). Closes (id ∷ queue) seen k.1)
          (sym (skip_loop-known fuel id queue seen s k))
          (
            r.0,
            r.1,
            λ y h. r.2 y (ground (arith, h, k, contains-add_to_old y id seen, list_beq_iff id y)),
          )
    | inr n ↦
        let r =
          skip_loop-IsClosed fuel (queue ++ dependents_in plan.nodes_by_id id) (add_to id seen)
            (skip_one id s)
            (omega (
              arith,
              f,
              length-append queue (dependents_in plan.nodes_by_id id),
              unseen_sum-add_to plan.nodes_by_id id seen n,
            ))
            (visit-IsClosing id queue seen s c) in
        subst (λ (k : List Text × State T). Closes (id ∷ queue) seen k.1)
          (sym (skip_loop-visit fuel id queue seen s n))
          (r.0, r.1, λ y h. r.2 y (found-visited plan id y queue seen h))
  ]

  -- Whatever hangs on a node of a closed set whose dependents it holds is in the set.
  pub DependsOn-closed :
      (id : Text) (seen : List Text) (s : State T)
      → IsClosed seen s
      → ((y : Text)
          → contains y (dependents_in plan.nodes_by_id id) ≡ true
          → contains y seen ≡ true)
      → (x : Text) → DependsOn plan id x
      → contains x seen ≡ true
  DependsOn-closed id seen s c h x (directly e) = h x e
  DependsOn-closed id seen s c h x (further {y = y} d e) =
      ground (arith, c.queued y x (DependsOn-closed id seen s c h y d) e)
