-- ===== src/Providers/Router.antt =====
-- src/providers/registry.ts: `ModelRouterConversationProvider`, over the registry.
pub mod Ran
pub mod Routed
mod Samples
use agent_chatgpt_bridge.Common.{
  ℕ, Bool, true, false, List, [], ◌∷◌, Option, none, some, ◌==◌, list_equality, number_equality,
  if◌then◌else◌,
}
use agent_chatgpt_bridge.Errors.{Thrown, Result, ok, err, or_throw}
use agent_chatgpt_bridge.Actions.{Action, ◌>>=◌, ◌>>◌, continue, pure, fail, lift}
use agent_chatgpt_bridge.Js.{Text}
use agent_chatgpt_bridge.Providers.Health.{BridgeTurnResult, ProviderHealthState}
use agent_chatgpt_bridge.Providers.Policy.{
  ProviderFallbackPolicy, ProviderRouteDecision, provider_unavailable, select_provider_route,
}
use agent_chatgpt_bridge.Providers.Registry.{
  ConversationProvider, BridgeTurnRequest, Observed, get, observed_run_turn, validate_model,
  resolve_model, provider_health,
}

-- An entry of `activeTurns`.
pub record ActiveTurn (W : Type 0) : Type 0 where
  pub turn_id : Text
  pub provider : ConversationProvider W

pub record RouterState (W : Type 0) : Type 0 where
  pub observed : Observed W
  pub active_turns : List (Text × ActiveTurn W)

-- A turn's result with the metadata that the router adds.
pub record RoutedResult : Type 0 where
  pub result : BridgeTurnResult
  pub routed_provider : Text
  pub routed_model : Text
  pub requested_provider : Text
  pub requested_model : Text
  pub fallback : Bool
  pub fallback_reason_state : Option ProviderHealthState

module _ {W : Type 0} where
  abbrev pub active_turn : Text → List (Text × ActiveTurn W) → Option (ActiveTurn W)
  active_turn session [] = none
  active_turn session ((key, a) ∷ rest) =
      if key == session then some a else active_turn session rest

  abbrev pub delete_turn : Text → List (Text × ActiveTurn W) → List (Text × ActiveTurn W)
  delete_turn session [] = []
  delete_turn session ((key, a) ∷ rest) =
      if key == session then delete_turn session rest else (key, a) ∷ delete_turn session rest

  abbrev pub set_turn :
      Text → ActiveTurn W → List (Text × ActiveTurn W) → List (Text × ActiveTurn W)
  set_turn session a [] = (session, a) ∷ []
  set_turn session a ((key, b) ∷ rest) =
      if key == session then (key, a) ∷ rest else (key, b) ∷ set_turn session a rest

  abbrev pub in_router {ℓ} :
      {A : Type ℓ}
      → List (Text × ActiveTurn W)
      → Result Thrown A × Observed W
      → Result Thrown A × RouterState W
  in_router turns (r, o) = (r, record { observed = o; active_turns = turns })

  -- What changes only what the registry observes.
  abbrev pub inside {ℓ} : {A : Type ℓ} → Action (Observed W) A → Action (RouterState W) A
  inside action s = in_router s.active_turns (action s.observed)

  abbrev pub beside {ℓ} :
      {A : Type ℓ} → Observed W → Result Thrown A × W → Result Thrown A × Observed W
  beside o (r, w) = (r, record o { world = w })

  -- What changes only the world.
  abbrev pub outside {ℓ} : {A : Type ℓ} → Action W A → Action (Observed W) A
  outside action o = beside o (action o.world)

  abbrev pub remove_if_current :
      Text → Text → Option (ActiveTurn W) → List (Text × ActiveTurn W) → List (Text × ActiveTurn W)
  remove_if_current session turn_id none turns = turns
  remove_if_current session turn_id (some a) turns =
      if a.turn_id == turn_id then delete_turn session turns else turns

  -- The `finally` of `runTurn`.
  unfoldable pub end_turn : Text → Text → RouterState W → RouterState W
  end_turn session turn_id s = record s {
    active_turns =
        remove_if_current session turn_id (active_turn session s.active_turns) s.active_turns;
  }

  abbrev pub finally {ℓ} :
      {A : Type ℓ}
      → (RouterState W → RouterState W)
      → Result Thrown A × RouterState W
      → Result Thrown A × RouterState W
  finally clean (r, s) = (r, clean s)

  abbrev pub begin_turn : Text → ActiveTurn W → Action (RouterState W) (Unit {0})
  begin_turn session a s = (ok tt, record s { active_turns = set_turn session a s.active_turns })

  abbrev pub selected_provider :
      List (ConversationProvider W)
      → ProviderRouteDecision
      → ConversationProvider W
      → Result Thrown (ConversationProvider W)
  selected_provider providers decision requested =
      if decision.fallback
      then or_throw (get providers decision.selected_provider) provider_unavailable
      else ok requested

  abbrev pub routed :
      ProviderRouteDecision → ConversationProvider W → BridgeTurnResult → RoutedResult
  routed decision provider result = record {
    result = result;
    routed_provider = provider.name;
    routed_model = decision.selected_model;
    requested_provider = decision.requested_provider;
    requested_model = decision.requested_model;
    fallback = decision.fallback;
    fallback_reason_state = decision.reason_state;
  }

module _ {W : Type 0} (now : W → ℕ) (providers : List (ConversationProvider W)) where
  -- The callback that `runTurn` gives to the policy.
  unfoldable pub resolve_valid : Text → Action (Observed W) Text
  resolve_valid model = do
    _ ← validate_model now providers model
    provider ← resolve_model now providers model
    pure provider.name

-- `on_route_decision` is the observer, and changes the world alone.
module _ {W : Type 0} (now : W → ℕ) (providers : List (ConversationProvider W))
    (policy : ProviderFallbackPolicy)
    (on_route_decision : ProviderRouteDecision → BridgeTurnRequest → Action W (Unit {0})) where
  -- `runTurn` as far as the call of the observer.
  unfoldable pub route_turn :
      BridgeTurnRequest → Action (Observed W) (ProviderRouteDecision × ConversationProvider W)
  route_turn request = do
    requested ← resolve_model now providers request.model
    health ← provider_health now providers
    decision ←
        select_provider_route request.model requested.name health (resolve_valid now providers)
          policy
    provider ← lift (selected_provider providers decision requested)
    _ ← outside (on_route_decision decision request)
    pure (decision, provider)

  abbrev pub run_routed :
      BridgeTurnRequest
      → ProviderRouteDecision
      → ConversationProvider W
      → Action (Observed W) RoutedResult
  run_routed request decision provider = do
    result ←
        observed_run_turn now provider
          (record request { provider = provider.name; model = decision.selected_model })
    pure (routed decision provider result)

  -- `runTurn`
  unfoldable pub run_turn : BridgeTurnRequest → Action (RouterState W) RoutedResult
  run_turn request = do
    route ← inside (route_turn request)
    _ ← begin_turn request.session_id (record { turn_id = request.request_id; provider = route.1 })
    λ s.
        finally (end_turn request.session_id request.request_id)
          (inside (run_routed request route.0 route.1) s)

module _ {W : Type 0} where
  abbrev pub cancel_with :
      Text → Text → Option (Text → Text → Action W (Unit {0})) → Action W (Unit {0})
  cancel_with session turn_id none = pure tt
  cancel_with session turn_id (some cancel) = cancel session turn_id

  abbrev pub cancel_active : Text → Text → Option (ActiveTurn W) → Action W (Unit {0})
  cancel_active session turn_id none = pure tt
  cancel_active session turn_id (some a) =
      if a.turn_id == turn_id then cancel_with session turn_id a.provider.cancel_turn else pure tt

  -- `cancelTurn`
  unfoldable pub cancel_turn : Text → Text → Action (RouterState W) (Unit {0})
  cancel_turn session turn_id s =
      inside (outside (cancel_active session turn_id (active_turn session s.active_turns))) s
