-- ===== src/DagScheduler/Invariant.antt =====
-- What a predicate on the scheduler's state must withstand to hold at every point of a run: the moves
-- of src/core/collaboration-dag-scheduler.ts one by one, each under the code's own guard.
use agent_chatgpt_bridge.Common.{
  ℕ, zero, suc, ◌≡◌, ◌⊎◌, refl, sym, subst, true, not, ◌&&◌, List, [], ◌∷◌, list_equality,
  number_equality, leb, length, contains, inl, inr, arith,
}
use agent_chatgpt_bridge.Common.{if-both}
use agent_chatgpt_bridge.Js.{Text}
use agent_chatgpt_bridge.CollaborationDag.{
  CollaborationDagExecutionPlan, CollaborationDagFailurePolicy, fail_fast, skip_dependents, pending,
  ready, running, cancelled, status_beq,
}
use agent_chatgpt_bridge.DagScheduler.{
  State, Phase, state_of, waiting, finished, thrown, Settled, ok, error, Event, abort, settle,
  is_open, every_in, depends_on_in, is_empty, keys, transition, settle_as, cancel_remaining,
  mark_ready, dispatch, verdict, Verdict, advance, is_stop, stop, skip, go, fill, round,
}
use agent_chatgpt_bridge.DagScheduler.Moves.{
  release, complete, skip_one, skip_loop, skip_all, drain_as, on_failure, drain_siblings, fail,
  after_error, on_settled, step, run_from, enter,
}

-- Only the verdict `go` changes the state.
advance-same :
    {T : Type 0} (plan : CollaborationDagExecutionPlan) (v : Verdict) (id : Text) (s : State T)
    → (v ≡ go) ⊎ (advance plan v id s ≡ s)
advance-same plan stop id s = inr refl
advance-same plan skip id s = inr refl
advance-same plan go id s = inl refl

-- A node that `active` has, or that has the status `running`.
abbrev pub IsUnderWay : {T : Type 0} → Text → State T → Type 0
IsUnderWay id s = (contains id (keys s.active) ≡ true) ⊎ (status_beq (s.statuses id) running ≡ true)

pub record Withstands {T : Type 0} (plan : CollaborationDagExecutionPlan) (limit : ℕ)
    (P : State T → Type 0) : Type 0 where
  pub marks :
      (id : Text) (s : State T)
      → status_beq (s.statuses id) pending ≡ true
      → every_in s.completed_nodes (depends_on_in plan.nodes_by_id id) ≡ true
      → P s
      → P (transition id ready s)
  pub dispatches :
      (id : Text) (s : State T) → verdict plan limit id s ≡ go → P s → P (dispatch plan id s)
  pub cancels :
      (id : Text) (s : State T)
      → is_open (s.statuses id) ≡ true
      → P s
      → P (settle_as id cancelled s)
  pub skips : (id : Text) (s : State T) → P s → P (skip_one id s)
  pub aborts : (s : State T) → P s → P (record s { aborted = true })
  pub releases : (id : Text) (s : State T) → P s → P (release id s)
  pub completes :
      (id : Text) (output : T) (s : State T)
      → IsUnderWay id s
      → P s
      → P (complete id output (release id s))
  pub fails : (id : Text) (s : State T) → IsUnderWay id s → P s → P (fail id (release id s))
  pub interrupts :
      (id : Text) (s : State T) → IsUnderWay id s → P s → P (settle_as id cancelled (release id s))

record Holds {T : Type 0} (P : State T → Type 0) (phase : Phase T) : Type 0 where
  pub holds : P (state_of phase)

module _ {T : Type 0} {plan : CollaborationDagExecutionPlan} {limit : ℕ} {P : State T → Type 0}
    (w : Withstands plan limit P) where
  cancel_remaining_lem : (ids : List Text) (s : State T) → P s → P (cancel_remaining ids s)
  unfolding cancel_remaining
  cancel_remaining_lem [] s p = p
  cancel_remaining_lem (id ∷ ids) s p =
      cancel_remaining_lem ids _
        (if-both P (is_open (s.statuses id)) _ _ (λ h. w.cancels id s h p) (λ h. p))

  mark_ready_lem : (ids : List Text) (s : State T) → P s → P (mark_ready plan ids s)
  unfolding mark_ready
  mark_ready_lem [] s p = p
  mark_ready_lem (id ∷ ids) s p =
      let met = every_in s.completed_nodes (depends_on_in plan.nodes_by_id id) in
      mark_ready_lem ids _ (
        if-both P (status_beq (s.statuses id) pending && met) _ _
          (λ h. w.marks id s (ground (arith, h)) (ground (arith, h)) p) (λ h. p))

  advance_lem : (id : Text) (s : State T) → P s → P (advance plan (verdict plan limit id s) id s)
  advance_lem id s p = elim (advance-same plan (verdict plan limit id s) id s) [
    | inl h ↦ rw h (w.dispatches id s h p)
    | inr h ↦ subst P (sym h) p
  ]

  fill_lem : (ids : List Text) (s : State T) → P s → P (fill plan limit ids s)
  unfolding fill
  fill_lem [] s p = p
  fill_lem (id ∷ ids) s p =
      if-both P (is_stop (verdict plan limit id s)) _ _ (λ h. p)
        (λ h. fill_lem ids _ (advance_lem id s p))

  round_lem : (s : State T) → P s → Holds P (round plan limit s)
  unfolding round
  round_lem s p =
      let s' = fill plan limit plan.topological_order (mark_ready plan plan.topological_order s) in
      let p' : P s' =
        fill_lem plan.topological_order _ (mark_ready_lem plan.topological_order s p) in
      if-both (Holds P) (leb (length plan.node_ids) (length s.settled_nodes)) _ _
        (λ h. record { holds = p })
        (λ h.
          if-both (Holds P) (s.aborted && is_empty s.active) _ _
            (λ h. record { holds = cancel_remaining_lem plan.node_ids s p })
            (λ h.
              if-both (Holds P) (not (is_empty s'.active)) _ _ (λ h. record { holds = p' })
                (λ h.
                  if-both (Holds P) s'.aborted _ _
                    (λ h. record { holds = cancel_remaining_lem plan.node_ids s' p' })
                    (λ h. record { holds = p' }))))

  skip_loop_lem :
      (fuel : ℕ) (queue seen : List Text) (s : State T)
      → P s
      → P (skip_loop plan fuel queue seen s).1
  unfolding skip_loop
  skip_loop_lem fuel [] seen s p = p
  skip_loop_lem zero (id ∷ queue) seen s p = p
  skip_loop_lem (suc fuel) (id ∷ queue) seen s p =
      skip_loop_lem fuel _ _ _ (if-both P (contains id seen) _ _ (λ h. p) (λ h. w.skips id s p))

  drain_as_lem :
      (r : Settled T) (id : Text) (s : State T)
      → IsUnderWay id s
      → P s
      → P (drain_as r id (release id s))
  drain_as_lem (ok output) id s u p = w.completes id output s u p
  drain_as_lem error id s u p = w.interrupts id s u p

  drain_siblings_lem :
      (siblings : Text → Settled T) (ids : List Text) (s : State T)
      → P s
      → P (drain_siblings siblings ids s)
  unfolding drain_siblings
  drain_siblings_lem siblings [] s p = p
  drain_siblings_lem siblings (id ∷ ids) s p = drain_siblings_lem siblings ids _ (
      if-both P (status_beq (s.statuses id) running) _ _
        (λ h. drain_as_lem (siblings id) id s (inr h) p) (λ h. w.releases id s p))

  on_failure_lem :
      (policy : CollaborationDagFailurePolicy) (id : Text) (siblings : Text → Settled T)
      (s : State T)
      → P (fail id s)
      → Holds P (on_failure plan limit policy id siblings s)
  unfolding on_failure skip_all
  on_failure_lem skip_dependents id siblings s p = round_lem _ (skip_loop_lem _ _ _ _ p)
  on_failure_lem fail_fast id siblings s p = record {
    holds = drain_siblings_lem siblings (keys s.active) _ (w.aborts (fail id s) p);
  }

  on_settled_lem :
      (policy : CollaborationDagFailurePolicy) (id : Text) (r : Settled T)
      (siblings : Text → Settled T) (s : State T)
      → contains id (keys s.active) ≡ true
      → P s
      → Holds P (on_settled plan limit policy id r siblings (release id s))
  unfolding on_settled after_error
  on_settled_lem policy id (ok output) siblings s c p =
      round_lem _ (w.completes id output s (inl c) p)
  on_settled_lem policy id error siblings s c p =
      let s' = release id s in
      if-both (Holds P) s'.aborted _ _
        (λ h. record {
          holds = drain_siblings_lem siblings (keys s'.active) _ (w.interrupts id s (inl c) p);
        })
        (λ h. on_failure_lem policy id siblings s' (w.fails id s (inl c) p))

  step_lem :
      (policy : CollaborationDagFailurePolicy) (e : Event T) (s : State T)
      → P s
      → Holds P (step plan limit policy e s)
  unfolding step
  step_lem policy abort s p = record { holds = w.aborts s p }
  step_lem policy (settle id r siblings) s p =
      if-both (Holds P) (contains id (keys s.active)) _ _
        (λ h. on_settled_lem policy id r siblings s h p) (λ h. record { holds = p })

  run_from_lem :
      (policy : CollaborationDagFailurePolicy) (es : List (Event T)) (phase : Phase T)
      → Holds P phase
      → Holds P (run_from plan limit policy es phase)
  unfolding run_from
  run_from_lem policy [] phase p = p
  run_from_lem policy (e ∷ es) (waiting s) p =
      run_from_lem policy es _ (step_lem policy e s (p.holds))
  run_from_lem policy (e ∷ es) (finished s) p = p
  run_from_lem policy (e ∷ es) (thrown x s) p = p

  enter_lem : (phase : Phase T) → P (state_of phase) → Holds P (enter plan limit phase)
  enter_lem (waiting s) p = round_lem s p
  enter_lem (finished s) p = record { holds = p }
  enter_lem (thrown e s) p = record { holds = p }

  -- What the start establishes, the whole run keeps.
  pub run_from-Withstands :
      (policy : CollaborationDagFailurePolicy) (es : List (Event T)) (phase : Phase T)
      → P (state_of phase)
      → P (state_of (run_from plan limit policy es (enter plan limit phase)))
  run_from-Withstands policy es phase p = (run_from_lem policy es _ (enter_lem phase p)).holds
