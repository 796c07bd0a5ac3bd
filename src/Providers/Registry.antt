-- ===== src/Providers/Registry.antt =====
-- src/providers/registry.ts: the registry, and the providers as it observes them. A provider's own
-- methods are any actions on a world `W`, which has the clock; an `async` method runs from its call to
-- its end with no other between.
pub mod Names
pub mod Cooling
mod Samples
use agent_chatgpt_bridge.Common.{
  ℕ, zero, suc, Bool, true, false, ◌||◌, ◌&&◌, List, [], ◌∷◌, ◌++◌, map, Option, none, some, ◌==◌,
  list_equality, number_equality, if◌then◌else◌, contains, length, leb, ltb,
}
use agent_chatgpt_bridge.Errors.{BridgeError, Thrown, bridge, Result, ok, err}
use agent_chatgpt_bridge.Actions.{Action, ◌>>=◌, ◌>>◌, continue, pure, fail, lift}
use agent_chatgpt_bridge.Js.{Text, codes, starts_with}
use agent_chatgpt_bridge.Providers.Health.{
  ProviderHealthObservation, ProviderHealthOperation, ProviderHealthState, cooldown, discovery,
  validation, turn, BridgeTurnResult, ProviderHealthTracker, new_tracker, active, record_success,
  record_error, record_turn, mark_cooldown, list_health, invalid_request, is_cooldown,
}

-- `BridgeTurnRequest`: what the router reads and replaces.
pub record BridgeTurnRequest : Type 0 where
  pub request_id : Text
  pub session_id : Text
  pub provider : Text
  pub model : Text

-- Of `ProviderCapabilities` the models.
pub record ConversationProvider (W : Type 0) : Type 0 where
  pub name : Text
  pub capabilities : Action W (List Text)
  pub validate_model : Option (Text → Action W (Unit {0}))
  pub run_turn : BridgeTurnRequest → Action W BridgeTurnResult
  pub cancel_turn : Option (Text → Text → Action W (Unit {0}))

abbrev pub router_name : Text
router_name = codes "model-router"

abbrev pub session_conflict : Thrown
session_conflict = bridge (record { code = codes "session_conflict"; retryable = false })

abbrev pub model_unavailable : Thrown
model_unavailable = bridge (record { code = codes "model_unavailable"; retryable = false })

abbrev pub cooling_down : Thrown
cooling_down = bridge (record { code = codes "provider_rate_limited"; retryable = true })

abbrev pub is_blank_name : Text → Bool
is_blank_name [] = true
is_blank_name (c ∷ cs) = false

-- What an operation of a provider may change: the world and the tracker.
pub record Observed (W : Type 0) : Type 0 where
  pub world : W
  pub health : ProviderHealthTracker

module _ {W : Type 0} where
  abbrev pub with_prefix : Text → List (ConversationProvider W) → List (ConversationProvider W)
  with_prefix model [] = []
  with_prefix model (p ∷ ps) =
      if starts_with (p.name ++ codes "/") model
      then p ∷ with_prefix model ps
      else with_prefix model ps

  abbrev pub at_most_one :
      List (ConversationProvider W) → Result Thrown (Option (ConversationProvider W))
  at_most_one [] = ok none
  at_most_one (p ∷ []) = ok (some p)
  at_most_one (p ∷ q ∷ ps) = err session_conflict

  abbrev pub exactly_one : List (ConversationProvider W) → Result Thrown (ConversationProvider W)
  exactly_one [] = err model_unavailable
  exactly_one (p ∷ []) = ok p
  exactly_one (p ∷ q ∷ ps) = err session_conflict

  -- `namespacedOwner`
  unfoldable pub namespaced_owner :
      List (ConversationProvider W) → Text → Result Thrown (Option (ConversationProvider W))
  namespaced_owner providers model = at_most_one (with_prefix model providers)

  -- `ProviderRegistry.get`
  abbrev pub get : List (ConversationProvider W) → Text → Option (ConversationProvider W)
  get [] name = none
  get (p ∷ ps) name = if p.name == name then some p else get ps name

  abbrev pub has : List (ConversationProvider W) → Text → Bool
  has [] name = false
  has (p ∷ ps) name = p.name == name || has ps name

  -- `register`, for the map of the providers in the order of their registration
  unfoldable pub register :
      ConversationProvider W
      → List (ConversationProvider W)
      → Result Thrown (List (ConversationProvider W))
  register p providers =
      if is_blank_name p.name || p.name == router_name
      then err invalid_request
      else if has providers p.name
      then err session_conflict
      else ok (providers ++ p ∷ [])

  abbrev pub register_next :
      Result Thrown (List (ConversationProvider W))
      → (List (ConversationProvider W) → Result Thrown (List (ConversationProvider W)))
      → Result Thrown (List (ConversationProvider W))
  register_next (ok providers) next = next providers
  register_next (err e) next = err e

  -- The loop of the constructor.
  unfoldable pub register_all :
      List (ConversationProvider W)
      → List (ConversationProvider W)
      → Result Thrown (List (ConversationProvider W))
  register_all [] providers = ok providers
  register_all (p ∷ ps) providers = register_next (register p providers) (register_all ps)

module _ {W : Type 0} (now : W → ℕ) where
  abbrev pub unless_cooling :
      Option ProviderHealthObservation → Observed W → Result Thrown (Unit {0}) × Observed W
  unless_cooling none s = (ok tt, s)
  unless_cooling (some o) s = if is_cooldown o.state then (err cooling_down, s) else (ok tt, s)

  -- `assertProviderNotCoolingDown`
  unfoldable pub assert_not_cooling_down : Text → Action (Observed W) (Unit {0})
  assert_not_cooling_down name s =
      let current = active (now s.world) name s.health in
      unless_cooling current.0 (record s { health = current.1 })

  abbrev pub observe {ℓ} :
      {A : Type ℓ}
      → Text
      → ProviderHealthOperation
      → ProviderHealthTracker
      → Result Thrown A × W
      → Result Thrown A × Observed W
  observe name operation t (ok a, w) =
      (ok a, record { world = w; health = record_success (now w) name operation t })
  observe name operation t (err e, w) =
      (err e, record { world = w; health = record_error (now w) name e operation t })

  abbrev pub observe_turn :
      Text
      → ProviderHealthTracker
      → Result Thrown BridgeTurnResult × W
      → Result Thrown BridgeTurnResult × Observed W
  observe_turn name t (ok r, w) =
      (ok r, record { world = w; health = record_turn (now w) name r t })
  observe_turn name t (err e, w) =
      (err e, record { world = w; health = record_error (now w) name e turn t })

  -- The methods of `observedProvider(delegate, health)`.
  unfoldable pub observed_capabilities : ConversationProvider W → Action (Observed W) (List Text)
  observed_capabilities p = assert_not_cooling_down p.name >> λ s.
      observe p.name discovery s.health (p.capabilities s.world)

  unfoldable pub observed_run_turn :
      ConversationProvider W → BridgeTurnRequest → Action (Observed W) BridgeTurnResult
  observed_run_turn p request = assert_not_cooling_down p.name >> λ s.
      observe_turn p.name s.health (p.run_turn request s.world)

  unfoldable pub observed_validate_model :
      Text → (Text → Action W (Unit {0})) → Text → Action (Observed W) (Unit {0})
  observed_validate_model name validate model =
      assert_not_cooling_down name >> λ s. observe name validation s.health (validate model s.world)

  -- The loop over `this.values()`: those whose capabilities list the model.
  unfoldable pub exposing :
      Text → List (ConversationProvider W) → Action (Observed W) (List (ConversationProvider W))
  exposing model [] = pure []
  exposing model (p ∷ ps) = do
    models ← observed_capabilities p
    rest ← exposing model ps
    pure (if contains model models then p ∷ rest else rest)

  module _ (providers : List (ConversationProvider W)) where
    abbrev pub validate_listed : Bool → Action (Observed W) (Unit {0})
    validate_listed true = pure tt
    validate_listed false = fail model_unavailable

    abbrev pub validate_with :
        Text
        → ConversationProvider W
        → Option (Text → Action W (Unit {0}))
        → Action (Observed W) (Unit {0})
    validate_with model p (some validate) = observed_validate_model p.name validate model
    validate_with model p none = do
      models ← observed_capabilities p
      validate_listed (contains model models)

    abbrev pub validate_owned :
        Text → Option (ConversationProvider W) → Action (Observed W) (Unit {0})
    validate_owned model (some p) = validate_with model p p.validate_model
    validate_owned model none = do
      found ← exposing model providers
      _ ← lift (exactly_one found)
      pure tt

    -- `ProviderRegistry.validateModel`
    unfoldable pub validate_model : Text → Action (Observed W) (Unit {0})
    validate_model model = do
      owner ← lift (namespaced_owner providers model)
      validate_owned model owner

    abbrev pub resolve_owned :
        Text → Option (ConversationProvider W) → Action (Observed W) (ConversationProvider W)
    resolve_owned model (some p) = pure p
    resolve_owned model none = do found ← exposing model providers; lift (exactly_one found)

    -- `ProviderRegistry.resolveModel`
    unfoldable pub resolve_model : Text → Action (Observed W) (ConversationProvider W)
    resolve_model model = do
      owner ← lift (namespaced_owner providers model)
      resolve_owned model owner

    -- `providerHealth`
    unfoldable pub provider_health : Action (Observed W) (List ProviderHealthObservation)
    provider_health s =
        let listed = list_health (now s.world) (map (λ p. p.name) providers) s.health in
        (ok listed.0, record s { health = listed.1 })

    -- `markProviderCooldown`, for a date that is valid or not
    unfoldable pub mark_provider_cooldown : Text → Option ℕ → Text → Action (Observed W) (Unit {0})
    mark_provider_cooldown name none code s = (err invalid_request, s)
    mark_provider_cooldown name (some deadline) code s =
        if has providers name
        then (ok tt, record s { health = mark_cooldown (now s.world) name deadline code s.health })
        else (err invalid_request, s)

abbrev pub settled_models : List (Result Thrown (List Text)) → List Text
settled_models [] = []
settled_models (ok models ∷ rest) = models ++ settled_models rest
settled_models (err e ∷ rest) = settled_models rest

abbrev pub first_rejected : List (Result Thrown (List Text)) → Option Thrown
first_rejected [] = none
first_rejected (ok models ∷ rest) = first_rejected rest
first_rejected (err e ∷ rest) = some e

-- `[...new Set(models)]`: `seen` is what stands before.
unfoldable pub without_repeats : List Text → List Text → List Text
without_repeats seen [] = []
without_repeats seen (m ∷ ms) =
    let rest = without_repeats seen ms in
    let longer = without_repeats (m ∷ seen) ms in if contains m seen then rest else m ∷ longer

abbrev pub unless_strict : Bool → Option Thrown → List Text → Result Thrown (List Text)
unless_strict true (some e) models = err e
unless_strict _ _ models = ok models

-- What `listModels` makes of the settled `capabilities()` of the providers.
unfoldable pub list_models : Bool → List (Result Thrown (List Text)) → Result Thrown (List Text)
list_models strict settled =
    unless_strict strict (first_rejected settled) (without_repeats [] (settled_models settled))
