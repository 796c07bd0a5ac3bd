-- ===== src/Providers/Policy/Routes.antt =====
-- src/providers/policy.ts: which route is selected, and why.
use agent_chatgpt_bridge.Common.{
  true, false, not, ◌||◌, List, [], ◌∷◌, ◌++◌, Option, none, some, ◌==◌, list_equality,
  number_equality, ◌≡◌, ◌⊎◌, inl, inr, refl, sym, ap, ◌∙◌, subst, if-both, arith, list_beq_iff,
}
use agent_chatgpt_bridge.Errors.{Thrown, Result, ok, err}
use agent_chatgpt_bridge.Actions.{Action, continue}
use agent_chatgpt_bridge.Js.{Text}
use agent_chatgpt_bridge.Providers.Health.{ProviderHealthObservation, ProviderHealthState, healthy}
use agent_chatgpt_bridge.Providers.Policy.{
  ProviderFallbackPolicy, disabled, ordered, ProviderRouteDecision, state_beq, includes,
  current_state, degraded, validate_ordered_policy, is_retryable, provider_unavailable, primary,
  fallback_to, judge, try_models, route_degraded, select_provider_route,
}

none-some :
    {state : ProviderHealthState} → ◌≡◌ {A = Option ProviderHealthState} none (some state) → ⊥
none-some h = cc

some_injective :
    {a b : ProviderHealthState} → ◌≡◌ {A = Option ProviderHealthState} (some a) (some b) → a ≡ b
some_injective h = cc

module _ {ℓ} {S : Type ℓ} (m p : Text) (health : List ProviderHealthObservation)
    (resolve_model : Text → Action S Text) where
  -- A candidate that the loop goes past: the requested model, one whose resolution fails and may be
  -- retried, or one whose provider is degraded.
  abbrev pub IsPassed : Text → S → S → Type ℓ
  IsPassed model s t =
      ((model ≡ m) × (t ≡ s))
      ⊎ (((e : Thrown) × (resolve_model model s ≡ (err e, t)) × (is_retryable e ≡ true))
          ⊎ ((provider : Text) × (resolve_model model s ≡ (ok provider, t))
              × (degraded (current_state health provider) ≡ true)))

  abbrev pub ArePassed : List Text → S → S → Type ℓ
  ArePassed [] s t = t ≡ s
  ArePassed (model ∷ models) s t = (u : S) × IsPassed model s u × ArePassed models u t

  -- The loop comes to a model, which is not the requested one, past all that stand before it.
  pub record IsReached (models : List Text) (s : S) (model : Text) (t : S) : Type ℓ where
    pub before : List Text
    pub after : List Text
    pub split : models ≡ before ++ (model ∷ after)
    pub passed : ArePassed before s t
    pub other : (model == m) ≡ false

  abbrev pub IsFound : ProviderHealthState → List Text → S → ProviderRouteDecision → S → Type ℓ
  IsFound state models s d s' =
      (model : Text) × (t : S) × (provider : Text) × IsReached models s model t
      × (resolve_model model t ≡ (ok provider, s'))
      × (degraded (current_state health provider) ≡ false)
      × (d ≡ fallback_to m p state model provider)

  abbrev pub IsStopped : List Text → S → Thrown → S → Type ℓ
  IsStopped models s e s' =
      (model : Text) × (t : S) × IsReached models s model t
      × (resolve_model model t ≡ (err e, s'))
      × (is_retryable e ≡ false)

  abbrev Outcome :
      ProviderHealthState → List Text → S → Result Thrown ProviderRouteDecision × S → Type ℓ
  Outcome state models s (ok d, s') = IsFound state models s d s'
  Outcome state models s (err e, s') =
      ((e ≡ provider_unavailable) × ArePassed models s s') ⊎ IsStopped models s e s'

  IsReached-cons :
      (model : Text) (models : List Text) (s t u : S) (found : Text)
      → IsPassed model s t
      → IsReached models t found u
      → IsReached (model ∷ models) s found u
  IsReached-cons model models s t u found passed r = record {
    before = model ∷ r.before;
    after = r.after;
    split = ap (λ rest. model ∷ rest) r.split;
    passed = (t, passed, r.passed);
    other = r.other;
  }

  IsReached-first :
      (model : Text) (models : List Text) (s : S)
      → (model == m) ≡ false
      → IsReached (model ∷ models) s model s
  IsReached-first model models s h = record {
    before = [];
    after = models;
    split = refl;
    passed = refl;
    other = h;
  }

  outcome-cons :
      (state : ProviderHealthState) (model : Text) (models : List Text) (s t : S)
      (r : Result Thrown ProviderRouteDecision × S)
      → IsPassed model s t
      → Outcome state models t r
      → Outcome state (model ∷ models) s r
  outcome-cons state model models s t (ok d, s') passed
        (found, u, provider, reached, at, fit, same) =
      (found, u, provider, IsReached-cons model models s t u found passed reached, at, fit, same)
  outcome-cons state model models s t (err e, s') passed (inl (same, all)) =
      inl (same, (t, passed, all))
  outcome-cons state model models s t (err e, s') passed (inr (found, u, reached, at, final)) =
      inr (found, u, IsReached-cons model models s t u found passed reached, at, final)

  module _ (state : ProviderHealthState) (model : Text) (models : List Text) (s : S)
      (other : (model == m) ≡ false)
      (later : (t : S)
        → Outcome state models t (try_models m p health resolve_model state models t)) where
    judge_lem :
        (r : Result Thrown Text × S)
        → resolve_model model s ≡ r
        → Outcome state (model ∷ models) s (
            judge m p health resolve_model state model
              (try_models m p health resolve_model state models)
              r)
    judge_lem (ok provider, t) e =
        if-both (Outcome state (model ∷ models) s) (degraded (current_state health provider)) _ _
          (λ h. outcome-cons state model models s t _ (inr (inr (provider, e, h))) (later t))
          (λ h. (model, s, provider, IsReached-first model models s other, e, h, refl))
    judge_lem (err x, t) e =
        if-both (Outcome state (model ∷ models) s) (is_retryable x) _ _
          (λ h. outcome-cons state model models s t _ (inr (inl (x, e, h))) (later t))
          (λ h. inr (model, s, IsReached-first model models s other, e, h))

  try_models_lem :
      (state : ProviderHealthState) (models : List Text) (s : S)
      → Outcome state models s (try_models m p health resolve_model state models s)
  unfolding try_models
  try_models_lem state [] s = inl (refl, refl)
  try_models_lem state (model ∷ models) s =
      if-both (Outcome state (model ∷ models) s) (model == m) _ _
        (λ h.
          outcome-cons state model models s s _ (inl ((list_beq_iff model m).0 h, refl))
            (try_models_lem state models s))
        (λ h.
          judge_lem state model models s h (try_models_lem state models) (resolve_model model s)
            refl)

  -- The state of the requested provider that sets the fallback off.
  abbrev pub IsTriggered : List ProviderHealthState → ProviderHealthState → Type 0
  IsTriggered on state =
      (current_state health p ≡ some state)
      × (state_beq state healthy ≡ false)
      × (includes state on ≡ true)

  -- What the policy leaves alone: the requested route.
  abbrev pub IsKept : ProviderFallbackPolicy → Type 0
  IsKept disabled = Unit
  IsKept (ordered models on) =
      (validate_ordered_policy models on ≡ ok tt)
      × ((state : ProviderHealthState)
          → current_state health p ≡ some state
          → (state_beq state healthy || not (includes state on)) ≡ true)

  abbrev pub IsRerouted : ProviderFallbackPolicy → S → ProviderRouteDecision → S → Type ℓ
  IsRerouted disabled s d s' = (s' ≡ s) × ⊥
  IsRerouted (ordered models on) s d s' =
      (validate_ordered_policy models on ≡ ok tt)
      × ((state : ProviderHealthState) × IsTriggered on state × IsFound state models s d s')

  abbrev pub IsRefused : ProviderFallbackPolicy → S → Thrown → S → Type ℓ
  IsRefused disabled s e s' = (s' ≡ s) × ⊥
  IsRefused (ordered models on) s e s' =
      ((validate_ordered_policy models on ≡ err e) × (s' ≡ s))
      ⊎ ((validate_ordered_policy models on ≡ ok tt)
          × ((state : ProviderHealthState) × IsTriggered on state
              × (((e ≡ provider_unavailable) × ArePassed models s s') ⊎ IsStopped models s e s')))

  abbrev IsRouted : ProviderFallbackPolicy → S → Result Thrown ProviderRouteDecision × S → Type ℓ
  IsRouted policy s (ok d, s') =
      ((d ≡ primary m p) × (s' ≡ s) × IsKept policy) ⊎ IsRerouted policy s d s'
  IsRouted policy s (err e, s') = IsRefused policy s e s'

  IsRouted-found :
      (models : List Text) (on : List ProviderHealthState) (state : ProviderHealthState) (s : S)
      (r : Result Thrown ProviderRouteDecision × S)
      → validate_ordered_policy models on ≡ ok tt
      → IsTriggered on state
      → Outcome state models s r
      → IsRouted (ordered models on) s r
  IsRouted-found models on state s (ok d, s') valid triggered found =
      inr (valid, (state, triggered, found))
  IsRouted-found models on state s (err e, s') valid triggered found =
      inr (valid, (state, triggered, found))

  degraded_lem :
      (models : List Text) (on : List ProviderHealthState) (s : S) (o : Option ProviderHealthState)
      → validate_ordered_policy models on ≡ ok tt
      → current_state health p ≡ o
      → IsRouted (ordered models on) s (route_degraded m p health resolve_model models on o s)
  degraded_lem models on s none valid h =
      inl (refl, refl, (valid, λ state e. absurd (none-some (sym h ∙ e))))
  degraded_lem models on s (some state) valid h =
      if-both (IsRouted (ordered models on) s) (state_beq state healthy || not (includes state on))
        _ _
        (λ k. inl (
          refl,
          refl,
          (
            valid,
            λ other e.
                subst (λ x. (state_beq x healthy || not (includes x on)) ≡ true)
                  (some_injective (sym h ∙ e)) k,
          ),
        ))
        (λ k.
          IsRouted-found models on state s _ valid (h, ground (arith, k), ground (arith, k))
            (try_models_lem state models s))

  validated_lem :
      (models : List Text) (on : List ProviderHealthState) (s : S) (v : Result Thrown (Unit {0}))
      → validate_ordered_policy models on ≡ v
      → IsRouted (ordered models on) s (
          continue
            (λ _. route_degraded m p health resolve_model models on (current_state health p))
            (v, s))
  validated_lem models on s (ok u) h = degraded_lem models on s _ h refl
  validated_lem models on s (err e) h = inl (h, refl)

  route_lem :
      (policy : ProviderFallbackPolicy) (s : S)
      → IsRouted policy s (select_provider_route m p health resolve_model policy s)
  unfolding select_provider_route
  route_lem disabled s = inl (refl, refl, tt)
  route_lem (ordered models on) s = validated_lem models on s _ refl

-- Where a route is selected, it is the requested one, with nothing resolved, or a model that an
-- `ordered` policy lists. It is the requested one only if the policy is `disabled`, or has passed its
-- validation and the requested provider's state is unknown, `healthy` or not one that sets the fallback
-- off. Otherwise that state is the decision's reason, the model resolves to the selected provider,
-- which is not degraded, the model is not the requested one, and every model before it in the list is
-- the requested one, fails with an error that may be retried, or resolves to a degraded provider.
pub select_provider_route-IsRerouted {ℓ} :
    {S : Type ℓ} (m p : Text) (health : List ProviderHealthObservation)
    (resolve_model : Text → Action S Text) (policy : ProviderFallbackPolicy) (s s' : S)
    (d : ProviderRouteDecision)
    → select_provider_route m p health resolve_model policy s ≡ (ok d, s')
    → ((d ≡ primary m p) × (s' ≡ s) × IsKept m p health resolve_model policy)
      ⊎ IsRerouted m p health resolve_model policy s d s'
select_provider_route-IsRerouted m p health resolve_model policy s s' d h =
    subst (IsRouted m p health resolve_model policy s) h
      (route_lem m p health resolve_model policy s)

-- Where no route is selected, the policy is `ordered`, and the error is one of three: what its
-- validation throws, with nothing resolved; `provider_unavailable`, after the whole list has been gone
-- past; or what resolving a model of the list has thrown and may not be retried, after every model
-- before it has been gone past. In the last two the requested provider's state sets the fallback off.
pub select_provider_route-IsRefused {ℓ} :
    {S : Type ℓ} (m p : Text) (health : List ProviderHealthObservation)
    (resolve_model : Text → Action S Text) (policy : ProviderFallbackPolicy) (s s' : S) (e : Thrown)
    → select_provider_route m p health resolve_model policy s ≡ (err e, s')
    → IsRefused m p health resolve_model policy s e s'
select_provider_route-IsRefused m p health resolve_model policy s s' e h =
    subst (IsRouted m p health resolve_model policy s) h
      (route_lem m p health resolve_model policy s)
