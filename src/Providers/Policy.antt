-- ===== src/Providers/Policy.antt =====
-- src/providers/policy.ts. A provider is its name, all that the policy reads of it; `resolve_model` is
-- the caller's, and may change a state `S` of the caller's.
pub mod Routes
mod Samples
use agent_chatgpt_bridge.Common.{
  Bool, true, false, ◌&&◌, ◌||◌, not, List, [], ◌∷◌, Option, none, some, ◌==◌, Equality,
  list_equality, number_equality, if◌then◌else◌, contains,
}
use agent_chatgpt_bridge.Errors.{
  BridgeError, Thrown, bridge, aborted, other, Result, ok, err, throw_if, ◌>>◌,
}
use agent_chatgpt_bridge.Actions.{Action, continue}
use agent_chatgpt_bridge.Js.{Text, codes}
use agent_chatgpt_bridge.Providers.Health.{
  ProviderHealthObservation, ProviderHealthState, healthy, unavailable, rate_limited, cooldown,
  misconfigured, invalid_request,
}

-- `healthy` is in no list `on`, by its type.
pub data ProviderFallbackPolicy : Type 0 where
  disabled : ProviderFallbackPolicy
  ordered : List Text → List ProviderHealthState → ProviderFallbackPolicy

pub record ProviderRouteDecision : Type 0 where
  pub requested_model : Text
  pub requested_provider : Text
  pub selected_model : Text
  pub selected_provider : Text
  pub fallback : Bool
  pub reason_state : Option ProviderHealthState

-- Equality of the states.
abbrev pub state_beq : ProviderHealthState → ProviderHealthState → Bool
state_beq healthy healthy = true
state_beq unavailable unavailable = true
state_beq rate_limited rate_limited = true
state_beq cooldown cooldown = true
state_beq misconfigured misconfigured = true
state_beq _ _ = false

abbrev pub includes : ProviderHealthState → List ProviderHealthState → Bool
includes state [] = false
includes state (s ∷ on) = state_beq s state || includes state on

-- `currentState`
abbrev pub current_state : List ProviderHealthObservation → Text → Option ProviderHealthState
current_state [] provider = none
current_state (o ∷ health) provider =
    if o.provider == provider then some o.state else current_state health provider

abbrev pub degraded : Option ProviderHealthState → Bool
degraded none = false
degraded (some state) = not (state_beq state healthy)

-- `new Set(xs).size !== xs.length`
abbrev pub has_repeated_model : List Text → Bool
has_repeated_model [] = false
has_repeated_model (m ∷ ms) = contains m ms || has_repeated_model ms

abbrev pub has_repeated_state : List ProviderHealthState → Bool
has_repeated_state [] = false
has_repeated_state (s ∷ on) = includes s on || has_repeated_state on

abbrev pub is_empty {ℓ} : {A : Type ℓ} → List A → Bool
is_empty [] = true
is_empty (_ ∷ _) = false

-- `validateOrderedPolicy`
unfoldable pub validate_ordered_policy :
    List Text → List ProviderHealthState → Result Thrown (Unit {0})
validate_ordered_policy models on =
    throw_if (is_empty models) invalid_request
    >> throw_if (is_empty on) invalid_request
    >> throw_if (has_repeated_model models) invalid_request
    >> throw_if (has_repeated_state on) invalid_request

-- `retryableCandidateResolutionFailure`
abbrev pub is_retryable : Thrown → Bool
is_retryable (bridge e) = e.retryable
is_retryable aborted = false
is_retryable other = false

abbrev pub provider_unavailable : Thrown
provider_unavailable = bridge (record { code = codes "provider_unavailable"; retryable = true })

abbrev pub primary : Text → Text → ProviderRouteDecision
primary model provider = record {
  requested_model = model;
  requested_provider = provider;
  selected_model = model;
  selected_provider = provider;
  fallback = false;
  reason_state = none;
}

abbrev pub fallback_to : Text → Text → ProviderHealthState → Text → Text → ProviderRouteDecision
fallback_to model provider state selected_model selected_provider = record {
  requested_model = model;
  requested_provider = provider;
  selected_model = selected_model;
  selected_provider = selected_provider;
  fallback = true;
  reason_state = some state;
}

module _ {ℓ} {S : Type ℓ} (requested_model requested_provider : Text)
    (health : List ProviderHealthObservation) (resolve_model : Text → Action S Text) where
  -- One candidate: what came of its resolution, and the loop over those that follow it.
  abbrev pub judge :
      ProviderHealthState
      → Text
      → (S → Result Thrown ProviderRouteDecision × S)
      → Result Thrown Text × S
      → Result Thrown ProviderRouteDecision × S
  judge state model next (ok provider, s) =
      if degraded (current_state health provider)
      then next s
      else (ok (fallback_to requested_model requested_provider state model provider), s)
  judge state model next (err e, s) = if is_retryable e then next s else (err e, s)

  -- The loop over `policy.fallback.models`.
  unfoldable pub try_models : ProviderHealthState → List Text → Action S ProviderRouteDecision
  try_models state [] s = (err provider_unavailable, s)
  try_models state (model ∷ models) s =
      let next = try_models state models in
      if model == requested_model then next s else judge state model next (resolve_model model s)

  abbrev pub route_degraded :
      List Text
      → List ProviderHealthState
      → Option ProviderHealthState
      → Action S ProviderRouteDecision
  route_degraded models on none s = (ok (primary requested_model requested_provider), s)
  route_degraded models on (some state) s =
      if state_beq state healthy || not (includes state on)
      then (ok (primary requested_model requested_provider), s)
      else try_models state models s

  -- `selectProviderRoute`
  unfoldable pub select_provider_route : ProviderFallbackPolicy → Action S ProviderRouteDecision
  select_provider_route disabled s = (ok (primary requested_model requested_provider), s)
  select_provider_route (ordered models on) s =
      continue (λ _. route_degraded models on (current_state health requested_provider))
        (validate_ordered_policy models on, s)
