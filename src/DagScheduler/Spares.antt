-- ===== src/DagScheduler/Spares.antt =====
-- src/core/collaboration-dag-scheduler.ts, lines 234-251: which nodes a failed node leaves alone, and the
-- whole walk.
use agent_chatgpt_bridge.Common.{
  ℕ, zero, suc, ◌+◌, ◌≡◌, ◌⊎◌, refl, sym, ◌∙◌, subst, true, false, List, [], ◌∷◌, ◌++◌, ◌==◌,
  list_equality, number_equality, length, contains, contains-append, inl, inr, Bool-cases, arith,
  beq_self, list_beq_iff,
}
use agent_chatgpt_bridge.Js.{Text}
use agent_chatgpt_bridge.CollaborationDag.{CollaborationDagExecutionPlan, skipped}
use agent_chatgpt_bridge.DagScheduler.{State, is_open, dependents_in, add_to, settle_as, transition}
use agent_chatgpt_bridge.DagScheduler.Moves.{skip_one, skip_loop, skip_all, dependents_sum}
use agent_chatgpt_bridge.Common.{if-both}
use agent_chatgpt_bridge.DagScheduler.Skips.{
  DependsOn, directly, further, unseen_sum-none, skip_loop-known, skip_loop-visit,
  skip_loop-IsClosed, DependsOn-closed,
}

-- What the walk from `id` may do to the status of `x`.
abbrev IsSpared :
    {T : Type 0} → CollaborationDagExecutionPlan → Text → Text → State T → State T → Type 0
IsSpared plan id x s s' =
    (s'.statuses x ≡ s.statuses x)
    ⊎ (DependsOn plan id x × (is_open (s.statuses x) ≡ true) × (s'.statuses x ≡ skipped))

module _ {T : Type 0} (plan : CollaborationDagExecutionPlan) (id x : Text) where
  skip_one-IsSpared :
      (y : Text) (s : State T) → DependsOn plan id y → IsSpared plan id x s (skip_one y s)
  unfolding settle_as transition
  skip_one-IsSpared y s d =
      if-both (IsSpared plan id x s) (is_open (s.statuses y)) _ _
        (λ o. elim (Bool-cases (x == y)) [
          | inl e ↦
              let same = (list_beq_iff x y).0 e in
              inr
                (subst (DependsOn plan id) (sym same) d, ground (arith, same, o), ground (arith, e))
          | inr e ↦ inl (ground (arith, e))
        ])
        (λ o. inl refl)

  IsSpared-trans :
      (s s' s'' : State T)
      → IsSpared plan id x s s'
      → IsSpared plan id x s' s''
      → IsSpared plan id x s s''
  IsSpared-trans s s' s'' (inl e) (inl f) = inl (f ∙ e)
  IsSpared-trans s s' s'' (inl e) (inr (d, o, k)) = inr (d, subst (λ st. is_open st ≡ true) e o, k)
  IsSpared-trans s s' s'' (inr (d, o, k)) (inl f) = inr (d, o, f ∙ k)
  IsSpared-trans s s' s'' (inr (d, o, k)) (inr (d', o', k')) = inr (d, o, k')

  skip_loop-IsSpared :
      (fuel : ℕ) (queue seen : List Text) (s : State T)
      → ((y : Text) → contains y queue ≡ true → DependsOn plan id y)
      → IsSpared plan id x s (skip_loop plan fuel queue seen s).1
  unfolding skip_loop
  skip_loop-IsSpared fuel [] seen s h = inl refl
  skip_loop-IsSpared zero (y ∷ queue) seen s h = inl refl
  skip_loop-IsSpared (suc fuel) (y ∷ queue) seen s h = elim (Bool-cases (contains y seen)) [
    | inl k ↦
        subst (λ (k : List Text × State T). IsSpared plan id x s k.1)
          (sym (skip_loop-known plan fuel y queue seen s k))
          (skip_loop-IsSpared fuel queue (add_to y seen) s (λ z c. h z (ground (arith, c))))
    | inr n ↦
        let d = h y (ground (arith, beq_self y)) in
        subst (λ (k : List Text × State T). IsSpared plan id x s k.1)
          (sym (skip_loop-visit plan fuel y queue seen s n))
          (IsSpared-trans s (skip_one y s)
            (skip_loop plan fuel (queue ++ dependents_in plan.nodes_by_id y) (add_to y seen)
              (skip_one y s)).1
            (skip_one-IsSpared y s d)
            (skip_loop-IsSpared fuel (queue ++ dependents_in plan.nodes_by_id y) (add_to y seen)
              (skip_one y s)
              (λ z c. elim (Bool-cases (contains z queue)) [
                | inl old ↦ h z (ground (arith, old))
                | inr new ↦ further d (
                    ground
                      (arith, c, new, contains-append z queue (dependents_in plan.nodes_by_id y)))
              ])))
  ]

-- `skip_dependents` walks from a failed node. Afterwards no node that hangs on it by one or more
-- edges is `pending` or `ready`; and the status of a node has changed only if the node hangs on it
-- and was `pending` or `ready`: then it is `skipped`.
pub skip_all-DependsOn :
    {T : Type 0} (plan : CollaborationDagExecutionPlan) (id : Text) (s : State T)
    → let s' = skip_all plan id s in
      ((x : Text) → DependsOn plan id x → is_open (s'.statuses x) ≡ false)
      × ((x : Text)
          → (s'.statuses x ≡ s.statuses x)
            ⊎ (DependsOn plan id x × (is_open (s.statuses x) ≡ true) × (s'.statuses x ≡ skipped)))
unfolding skip_all
skip_all-DependsOn plan id s =
    let queue = dependents_in plan.nodes_by_id id in
    let fuel = length queue + dependents_sum plan.nodes_by_id in
    let r =
      skip_loop-IsClosed plan fuel queue [] s (omega (arith, unseen_sum-none plan.nodes_by_id))
        (record { closed = λ y h. absurd (cc); queued = λ y z h e. absurd (cc) }) in
    (
      λ x d. r.1.closed x (DependsOn-closed plan id r.0 _ r.1 r.2 x d),
      λ x. skip_loop-IsSpared plan id x fuel queue [] s (λ y c. directly c),
    )
