-- ===== src/DagScheduler/Ends.antt =====
-- src/core/collaboration-dag-scheduler.ts: the loop that skips dependents comes to its end.
use agent_chatgpt_bridge.Common.{
  ℕ, zero, suc, ◌+◌, ◌≤◌, List, [], ◌∷◌, ◌++◌, length, length-append, contains, list_equality,
  number_equality, Bool-cases, inl, inr, ◌≡◌, refl, sym, ◌∙◌, ap, arith,
}
use agent_chatgpt_bridge.Js.{Text}
use agent_chatgpt_bridge.CollaborationDag.{CollaborationDagExecutionPlan}
use agent_chatgpt_bridge.DagScheduler.{State, dependents_in, add_to}
use agent_chatgpt_bridge.DagScheduler.Moves.{skip_one, skip_loop, skip_all, dependents_sum}
use agent_chatgpt_bridge.DagScheduler.Skips.{
  skip_loop-known, skip_loop-visit, unseen_sum, unseen_sum-le, unseen_sum-add_to, unseen_sum-none,
}

pair_eq : {A B : Type 0} {r : A × B} {a : A} {b : B} → r.0 ≡ a → r.1 ≡ b → r ≡ (a, b)
pair_eq h k = cc

module _ {T : Type 0} (plan : CollaborationDagExecutionPlan) where
  -- With fuel for all that can still be queued, nothing is left of the queue.
  skip_loop-empty :
      (fuel : ℕ) (queue seen : List Text) (s : State T)
      → length queue + unseen_sum plan.nodes_by_id seen ≤ fuel
      → (skip_loop plan fuel queue seen s).0 ≡ []
  unfolding skip_loop
  skip_loop-empty fuel [] seen s f = refl
  skip_loop-empty zero (id ∷ queue) seen s f = absurd (omega (arith, f))
  skip_loop-empty (suc fuel) (id ∷ queue) seen s f = elim (Bool-cases (contains id seen)) [
    | inl k ↦
        ap (λ r. r.0) (skip_loop-known plan fuel id queue seen s k)
        ∙ skip_loop-empty fuel queue (add_to id seen) s
            (omega (arith, f, unseen_sum-le plan.nodes_by_id id seen))
    | inr n ↦
        ap (λ r. r.0) (skip_loop-visit plan fuel id queue seen s n)
        ∙ skip_loop-empty fuel (queue ++ dependents_in plan.nodes_by_id id) (add_to id seen)
            (skip_one id s)
            (omega (
              arith,
              f,
              length-append queue (dependents_in plan.nodes_by_id id),
              unseen_sum-add_to plan.nodes_by_id id seen n,
            ))
  ]

  -- Two runs with fuel for all that can still be queued are one.
  skip_loop-eq :
      (fuel fuel' : ℕ) (queue seen : List Text) (s : State T)
      → length queue + unseen_sum plan.nodes_by_id seen ≤ fuel
      → length queue + unseen_sum plan.nodes_by_id seen ≤ fuel'
      → skip_loop plan fuel queue seen s ≡ skip_loop plan fuel' queue seen s
  unfolding skip_loop
  skip_loop-eq fuel fuel' [] seen s f f' = refl
  skip_loop-eq zero fuel' (id ∷ queue) seen s f f' = absurd (omega (arith, f))
  skip_loop-eq (suc fuel) zero (id ∷ queue) seen s f f' = absurd (omega (arith, f'))
  skip_loop-eq (suc fuel) (suc fuel') (id ∷ queue) seen s f f' =
      elim (Bool-cases (contains id seen)) [
        | inl k ↦
            skip_loop-known plan fuel id queue seen s k
            ∙ skip_loop-eq fuel fuel' queue (add_to id seen) s
                (omega (arith, f, unseen_sum-le plan.nodes_by_id id seen))
                (omega (arith, f', unseen_sum-le plan.nodes_by_id id seen))
            ∙ sym (skip_loop-known plan fuel' id queue seen s k)
        | inr n ↦
            let next = queue ++ dependents_in plan.nodes_by_id id in
            let longer = length-append queue (dependents_in plan.nodes_by_id id) in
            let fewer = unseen_sum-add_to plan.nodes_by_id id seen n in
            skip_loop-visit plan fuel id queue seen s n
            ∙ skip_loop-eq fuel fuel' next (add_to id seen) (skip_one id s)
                (omega (arith, f, longer, fewer)) (omega (arith, f', longer, fewer))
            ∙ sym (skip_loop-visit plan fuel' id queue seen s n)
      ]

-- The `while` loop that skips the dependents of a failed node ends, on every plan: with any fuel that is
-- at least what is queued first and what every node queues once, it comes to an empty queue, and to the
-- state of `skip_all`.
pub skip_loop-ends :
    {T : Type 0} (plan : CollaborationDagExecutionPlan) (id : Text) (s : State T) (fuel : ℕ)
    → length (dependents_in plan.nodes_by_id id) + dependents_sum plan.nodes_by_id ≤ fuel
    → skip_loop plan fuel (dependents_in plan.nodes_by_id id) [] s ≡ ([], skip_all plan id s)
unfolding skip_all
skip_loop-ends plan id s fuel enough =
    let queue = dependents_in plan.nodes_by_id id in
    let measured : length queue + unseen_sum plan.nodes_by_id [] ≤ fuel =
      omega (arith, enough, unseen_sum-none plan.nodes_by_id) in
    let same =
      skip_loop-eq plan fuel (length queue + dependents_sum plan.nodes_by_id) queue [] s measured
        (omega (arith, unseen_sum-none plan.nodes_by_id)) in
    pair_eq (skip_loop-empty plan fuel queue [] s measured) (ap (λ r. r.1) same)
