-- ===== src/Providers/Registry/Cooling.antt =====
-- src/providers/registry.ts: no method of a provider that cools down is called.
use agent_chatgpt_bridge.Common.{
  ℕ, ◌<◌, ◌+◌, true, false, List, [], ◌∷◌, Option, none, some, ◌==◌, list_equality, number_equality,
  ◌≡◌, refl, sym, ap, ◌∙◌, subst, arith, All, list_beq_iff, Bool-cases, inl, inr,
}
use agent_chatgpt_bridge.Errors.{Thrown, Result, ok, err}
use agent_chatgpt_bridge.Actions.{Action, continue-ok, continue-state}
use agent_chatgpt_bridge.Js.{Text}
use agent_chatgpt_bridge.Providers.Health.{
  ProviderHealthObservation, ProviderHealthTracker, HealthClassification, ProviderHealthOperation,
  classify_error, rate_limited, cooldown, discovery, turn, active, observe_cooldown, record_error,
  BridgeTurnResult, record_classified, record_class, record_turn, record_turn_class, classify_turn,
  degraded_by,
}
use agent_chatgpt_bridge.Providers.Health.Cooldown.{
  Event, IsHarmless, run, stored, active-cooling, active-other, success-other, class-other,
  run-IsCooling, record_classified-IsCooling,
}
use agent_chatgpt_bridge.Providers.Registry.{
  ConversationProvider, BridgeTurnRequest, Observed, cooling_down, unless_cooling,
  assert_not_cooling_down, observe, observe_turn, observed_capabilities, observed_run_turn,
  observed_validate_model, exposing, has,
}

-- A call is refused, and nothing of the world is touched.
abbrev pub IsRefusedAt {ℓ} : {W : Type 0} {A : Type ℓ} → Observed W → Action (Observed W) A → Type ℓ
IsRefusedAt s action = action s ≡ (err cooling_down, s)

err_ok {ℓ κ} :
    {S : Type ℓ} {A : Type κ} {e : Thrown} {a : A} {s t : S}
    → ◌≡◌ {A = Result Thrown A × S} (err e, s) (ok a, t)
    → ⊥
err_ok h = cc

-- How the tracker classifies the end of a turn: what is thrown, or the result that is returned.
abbrev pub IsClassified : Result Thrown BridgeTurnResult → HealthClassification → Type 0
IsClassified (err e) c = classify_error e ≡ some c
IsClassified (ok r) c = classify_turn r ≡ degraded_by c

-- What a turn that was not refused, and ended so, leaves to the tracker.
observe_turn-classified :
    {W : Type 0} (now : W → ℕ) (name : Text) (t : ProviderHealthTracker)
    (r : Result Thrown BridgeTurnResult) (w : W) (c : HealthClassification)
    → IsClassified r c
    → (observe_turn now name t (r, w)).1.health ≡ record_classified (now w) name c turn t
unfolding record_error record_turn
observe_turn-classified now name t (err e) w c h = ap (λ k. record_class (now w) name k turn t) h
observe_turn-classified now name t (ok r) w c h = ap (λ k. record_turn_class (now w) name k t) h

observed_run_turn-classified :
    {W : Type 0} (now : W → ℕ) (p : ConversationProvider W) (request : BridgeTurnRequest)
    (s s' : Observed W) (r : Result Thrown BridgeTurnResult) (w : W) (c : HealthClassification)
    → assert_not_cooling_down now p.name s ≡ (ok tt, s')
    → p.run_turn request s'.world ≡ (r, w)
    → IsClassified r c
    → (observed_run_turn now p request s).1.health
      ≡ record_classified (now w) p.name c turn s'.health
unfolding observed_run_turn
observed_run_turn-classified now p request s s' r w c asserted ended classified =
    rw asserted (rw ended (observe_turn-classified now p.name s'.health r w c classified))

module _ {W : Type 0} (now : W → ℕ) where
  module _ (name : Text) (o : ProviderHealthObservation) (deadline : ℕ)
      (cooling : o.state ≡ cooldown) (until : o.cooldown_until ≡ some deadline) where
    assert-cooling :
        (s : Observed W)
        → now s.world < deadline
        → stored name s.health ≡ some o
        → assert_not_cooling_down now name s ≡ (err cooling_down, s)
    unfolding assert_not_cooling_down
    assert-cooling s h c =
        rw (active-cooling name o deadline cooling until (now s.world) s.health h c)
          (ground (arith, cooling))

    capabilities-cooling :
        (p : ConversationProvider W) (s : Observed W)
        → p.name ≡ name
        → now s.world < deadline
        → stored name s.health ≡ some o
        → IsRefusedAt s (observed_capabilities now p)
    unfolding observed_capabilities
    capabilities-cooling p s same h c = rw same (rw (assert-cooling s h c) refl)

    run_turn-cooling :
        (p : ConversationProvider W) (request : BridgeTurnRequest) (s : Observed W)
        → p.name ≡ name
        → now s.world < deadline
        → stored name s.health ≡ some o
        → IsRefusedAt s (observed_run_turn now p request)
    unfolding observed_run_turn
    run_turn-cooling p request s same h c = rw same (rw (assert-cooling s h c) refl)

    validate-cooling :
        (validate : Text → Action W (Unit {0})) (model : Text) (s : Observed W)
        → now s.world < deadline
        → stored name s.health ≡ some o
        → IsRefusedAt s (observed_validate_model now name validate model)
    unfolding observed_validate_model
    validate-cooling validate model s h c = rw (assert-cooling s h c) refl

  unless_cooling-state :
      (o : Option ProviderHealthObservation) (s : Observed W) → (unless_cooling now o s).1 ≡ s
  unless_cooling-state none s = refl
  unless_cooling-state (some o) s = ground arith

  module _ (name q : Text) (other : (q == name) ≡ false) where
    assert-other :
        (s : Observed W)
        → stored name (assert_not_cooling_down now q s).1.health ≡ stored name s.health
    unfolding assert_not_cooling_down
    assert-other s =
        let current = active (now s.world) q s.health in
        ap (λ (t : Observed W). stored name t.health)
          (unless_cooling-state current.0 (record s { health = current.1 }))
        ∙ active-other name (now s.world) q s.health other

    observe-other {ℓ} :
        {A : Type ℓ} (operation : ProviderHealthOperation) (t : ProviderHealthTracker)
        (r : Result Thrown A × W)
        → stored name (observe now q operation t r).1.health ≡ stored name t
    unfolding record_error
    observe-other operation t (ok a, w) = success-other name (now w) q operation t other
    observe-other operation t (err e, w) =
        class-other name (now w) q (classify_error e) operation t other

  -- What is asked of another provider leaves the observation of this one.
  capabilities-other :
      (name : Text) (p : ConversationProvider W) (s : Observed W)
      → (p.name == name) ≡ false
      → stored name (observed_capabilities now p s).1.health ≡ stored name s.health
  unfolding observed_capabilities
  capabilities-other name p s other =
      continue-state (λ (t : Observed W). stored name t.health ≡ stored name s.health)
        (assert_not_cooling_down now p.name s) _ (assert-other name p.name other s)
        (λ done t h.
          observe-other name p.name other discovery t.health (p.capabilities t.world) ∙ h)

  module _ (name : Text) (o : ProviderHealthObservation) (deadline : ℕ)
      (cooling : o.state ≡ cooldown) (until : o.cooldown_until ≡ some deadline)
      (early : (w : W) → now w < deadline) (model : Text) where
    -- Asking every provider for its models does not succeed while one of them cools down.
    pub exposing-cooling :
        (ps : List (ConversationProvider W)) (s : Observed W) (r : List (ConversationProvider W))
        (t : Observed W)
        → has ps name ≡ true
        → stored name s.health ≡ some o
        → exposing now model ps s ≡ (ok r, t)
        → ⊥
    unfolding exposing
    exposing-cooling [] s r t h c run = absurd (ground (arith, h))
    exposing-cooling (p ∷ ps) s r t h c run =
        let (models, u, asked, later) = continue-ok (observed_capabilities now p s) _ run in
        elim (Bool-cases (p.name == name)) [
          | inl same ↦
              let refused =
                capabilities-cooling name o deadline cooling until p s
                  ((list_beq_iff p.name name).0 same) (early s.world) c in
              err_ok (sym refused ∙ asked)
          | inr other ↦
              let (rest, v, exposed, _) = continue-ok (exposing now model ps u) _ later in
              exposing-cooling ps u rest v (ground (arith, h, other))
                (ap (λ (x : Result Thrown (List Text) × Observed W). stored name x.1.health)
                    (sym asked)
                  ∙ capabilities-other name p s other
                  ∙ c)
                exposed
        ]

-- A turn that a provider was called for ends, by a throw or by its result, so that the tracker takes it
-- for a rate limit, and a cooldown of `ms` is configured. As long as the clock shows less than `ms` more
-- than at the end of that turn, and the tracker has meanwhile been told only of other providers, and of
-- successes of this one: a turn, a request for the models and a validation by this provider are refused
-- with `provider_rate_limited`, which may be retried, and the provider is not called; neither the world nor
-- the tracker changes. (A failure of this provider that is told meanwhile can end the cooldown.)
pub observed_run_turn_cooling :
    {W : Type 0} (now : W → ℕ) (p : ConversationProvider W) (request : BridgeTurnRequest)
    (s s' : Observed W) (ms : ℕ) (r : Result Thrown BridgeTurnResult) (c : HealthClassification)
    (events : List Event) (w : W)
    → assert_not_cooling_down now p.name s ≡ (ok tt, s')
    → p.run_turn request s'.world ≡ (r, w)
    → s'.health.rate_limit_cooldown_ms ≡ some ms
    → IsClassified r c
    → c.state ≡ rate_limited
    → All (IsHarmless p.name (now w + ms)) events
    → (later : W) → now later < now w + ms
    → let after : Observed W = record {
      world = later;
      health = run events (observed_run_turn now p request s).1.health;
    } in
      ((next : BridgeTurnRequest) → IsRefusedAt after (observed_run_turn now p next))
      × IsRefusedAt after (observed_capabilities now p)
      × ((validate : Text → Action W (Unit {0})) (model : Text)
          → IsRefusedAt after (observed_validate_model now p.name validate model))
observed_run_turn_cooling {W = W} now p request s s' ms r c events w asserted ended configured
      classified limited all later h =
    let o = observe_cooldown (now w) p.name c ms in
    let first = observed_run_turn-classified now p request s s' r w c asserted ended classified in
    let kept =
      run-IsCooling p.name o (now w + ms) refl refl events
        (record_classified (now w) p.name c turn s'.health) all
        (record_classified-IsCooling s'.health ms (now w) p.name c turn configured limited) in
    let begun = subst (λ t. stored p.name (run events t) ≡ some o) (sym first) kept in
    let after : Observed W = record {
      world = later;
      health = run events (observed_run_turn now p request s).1.health;
    } in
    (
      λ next. run_turn-cooling now p.name o (now w + ms) refl refl p next after refl h begun,
      capabilities-cooling now p.name o (now w + ms) refl refl p after refl h begun,
      λ validate model.
          validate-cooling now p.name o (now w + ms) refl refl validate model after h begun,
    )
