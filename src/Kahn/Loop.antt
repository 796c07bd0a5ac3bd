-- ===== src/Kahn/Loop.antt =====
-- The loops run to their end: the fuel is enough, and they agree.
use agent_chatgpt_bridge.Common.{
  ℕ, zero, suc, ◌+◌, ◌≤◌, ◌≡◌, refl, List, [], ◌∷◌, Equality, count, arith, IsDistinct, length, inl,
  inr, length-append, length-le_of_count, ap, List-cases, sym,
}
use agent_chatgpt_bridge.Kahn.{
  Entry, Work, ids, start, mentions, visit, take_current, plan_loop, plan, drain, processed,
}
use agent_chatgpt_bridge.Kahn.Invariant.{Sized, deps_of, start-Inv}
use agent_chatgpt_bridge.Kahn.Visit.{
  Good, sup, visit-Good, relax_levels-order, relax_levels-frontier,
}

module _ {A : Type 0} ⦃e : Equality A⦄ where
  -- The state that the loop starts from.
  abbrev pub begin : List (Entry A) → Work A
  begin ns = record { frontier = start ns; levels = λ _. 0; order = [] }

  sup_start : (ds : List A) → sup (λ _. 0) [] ds ≡ 0
  sup_start [] = refl
  sup_start (d ∷ ds) = omega (arith, sup_start ds)

  begin-Good : (ns : List (Entry A)) → Sized ns → Good ns (begin ns)
  begin-Good ns sized = record {
    inv = start-Inv ns sized;
    ordered = λ x y h. absurd (ground arith);
    level = λ y. sym (sup_start (deps_of ns y));
  }

  pub length-ids : (ns : List (Entry A)) → length (ids ns) ≡ length ns
  length-ids [] = refl
  length-ids (n ∷ ns) = ap suc (length-ids ns)

  -- What is done is a part of the nodes.
  pub count-order-le :
      (ns : List (Entry A)) (w : Work A) → Good ns w → (y : A) → count y w.order ≤ count y (ids ns)
  count-order-le ns w good y = ground (arith, good.inv.placed y)

  pub length-order-le : (ns : List (Entry A)) (w : Work A) → Good ns w → length w.order ≤ length ns
  length-order-le ns w good =
      omega (arith, length-le_of_count w.order (ids ns) (count-order-le ns w good), length-ids ns)

  visit-order :
      (ns : List (Entry A)) (w : Work A) (rest : List A) (current : A)
      → length (visit ns current rest w).order ≡ length w.order + 1
  visit-order ns w rest current =
      rw (relax_levels-order (ids ns) current (mentions ns current) (take_current current rest w))
        (length-append w.order (current ∷ []))

  plan_loop_over :
      (ns : List (Entry A)) (fuel : ℕ) (w : Work A)
      → w.frontier.ready ≡ []
      → plan_loop ns (suc fuel) w ≡ w
  unfolding plan_loop
  plan_loop_over ns fuel w over = ground arith

  plan_loop_round :
      (ns : List (Entry A)) (fuel : ℕ) (w : Work A) (rest : List A) (current : A)
      → w.frontier.ready ≡ current ∷ rest
      → plan_loop ns (suc fuel) w ≡ plan_loop ns fuel (visit ns current rest w)
  unfolding plan_loop
  plan_loop_round ns fuel w rest current e = ground arith

  plan_loop-Good :
      (ns : List (Entry A)) (fuel : ℕ) (w : Work A)
      → IsDistinct (ids ns)
      → length ns ≤ length w.order + fuel
      → Good ns w
      → Good ns (plan_loop ns fuel w) × ((plan_loop ns fuel w).frontier.ready ≡ [])
  unfolding plan_loop
  plan_loop-Good ns zero w distinct enough good = elim (List-cases w.frontier.ready) [
    | inl over ↦ (good, over)
    | inr (current, rest, e) ↦
        let next = visit-Good ns distinct w rest current e good in
        absurd (
          omega (
            arith,
            length-order-le ns (visit ns current rest w) next,
            visit-order ns w rest current,
          ))
  ]
  plan_loop-Good ns (suc fuel) w distinct enough good = elim (List-cases w.frontier.ready) [
    | inl over ↦ rw (plan_loop_over ns fuel w over) (good, over)
    | inr (current, rest, e) ↦ rw (plan_loop_round ns fuel w rest current e) (
        plan_loop-Good ns fuel (visit ns current rest w) distinct
          (omega (arith, visit-order ns w rest current))
          (visit-Good ns distinct w rest current e good))
  ]

  -- The validator's loop counts what the planner's loop lists.
  drain-plan_loop :
      (ns : List (Entry A)) (fuel : ℕ) (w : Work A)
      → drain ns fuel w.frontier (length w.order) ≡ length (plan_loop ns fuel w).order
  unfolding drain plan_loop
  drain-plan_loop ns zero w = refl
  drain-plan_loop ns (suc fuel) w = elim (List-cases w.frontier.ready) [
    | inl over ↦ rw over
    | inr (current, rest, e) ↦ rw e (
        rw (← visit-order ns w rest current) (
          rw
            (← relax_levels-frontier (ids ns) current (mentions ns current)
              (take_current current rest w))
            (drain-plan_loop ns fuel (visit ns current rest w))))
  ]

  pub processed-plan : (ns : List (Entry A)) → processed ns ≡ length (plan ns).order
  unfolding processed plan
  processed-plan ns = drain-plan_loop ns (length ns) (begin ns)

  pub plan-Good :
      (ns : List (Entry A))
      → IsDistinct (ids ns)
      → Sized ns
      → Good ns (plan ns) × ((plan ns).frontier.ready ≡ [])
  unfolding plan
  plan-Good ns distinct sized =
      plan_loop-Good ns (length ns) (begin ns) distinct (omega arith) (begin-Good ns sized)
