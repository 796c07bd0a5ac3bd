-- ===== src/Providers/Health.antt =====
-- src/providers/health.ts. A time is a number of milliseconds; a deadline is the time that its ISO text
-- stands for. Each operation is given the time that it reads from the clock.
pub mod Cooldown
mod Samples
use agent_chatgpt_bridge.Common.{
  ℕ, zero, suc, ◌+◌, Bool, true, false, ◌&&◌, ◌||◌, List, [], ◌∷◌, ◌++◌, Option, none, some, ◌==◌,
  list_equality, number_equality, if◌then◌else◌, leb, contains,
}
use agent_chatgpt_bridge.Errors.{BridgeError, Thrown, bridge, aborted, other, Result, ok, err}
use agent_chatgpt_bridge.Js.{Text, Number, codes}

pub data ProviderHealthState : Type 0 where
  healthy unavailable rate_limited cooldown misconfigured : ProviderHealthState

pub data ProviderHealthOperation : Type 0 where
  discovery validation turn policy : ProviderHealthOperation

pub record ProviderHealthObservation : Type 0 where
  pub provider : Text
  pub state : ProviderHealthState
  pub operation : ProviderHealthOperation
  pub observed_at : ℕ
  pub code : Option Text
  pub retryable : Option Bool
  pub cooldown_until : Option ℕ

-- `HealthClassification`
pub record HealthClassification : Type 0 where
  pub state : ProviderHealthState
  pub code : Text
  pub retryable : Option Bool

-- `BridgeTurnResult`, for what is classified.
pub data TurnStatus : Type 0 where
  completed failed incomplete cancelled : TurnStatus

pub record TurnError : Type 0 where
  pub code : Text
  pub retryable : Option Bool

pub record BridgeTurnResult : Type 0 where
  pub status : TurnStatus
  pub error : Option TurnError

abbrev pub misconfigured_codes : List Text
misconfigured_codes =
    codes "provider_authentication_failed"
    ∷ codes "provider_protocol_invalid"
    ∷ codes "provider_loop_detected"
    ∷ []

abbrev pub unavailable_codes : List Text
unavailable_codes =
    codes "provider_unavailable"
    ∷ codes "browser_not_ready"
    ∷ codes "provider_exception"
    ∷ codes "provider_terminal_missing"
    ∷ []

abbrev pub is_true : Option Bool → Bool
is_true none = false
is_true (some b) = b

abbrev pub or_true : Option Bool → Bool
or_true none = true
or_true (some b) = b

unfoldable pub classify_code : Text → Option Bool → Option HealthClassification
classify_code code retryable =
    if code == codes "client_cancelled"
    then none
    else if code == codes "provider_rate_limited"
    then some (record { state = rate_limited; code = code; retryable = some (or_true retryable) })
    else if contains code misconfigured_codes
    then some (record { state = misconfigured; code = code; retryable = retryable })
    else if contains code unavailable_codes || is_true retryable
    then some (record { state = unavailable; code = code; retryable = retryable })
    else none

-- `classifyProviderError`
unfoldable pub classify_error : Thrown → Option HealthClassification
classify_error (bridge e) = classify_code e.code (some e.retryable)
classify_error aborted = none
classify_error other =
    some (record { state = unavailable; code = codes "provider_exception"; retryable = none })

-- `{ state: "healthy" }`, a classification, or `undefined`.
pub data TurnClass : Type 0 where
  fine ignored : TurnClass
  degraded_by : HealthClassification → TurnClass

abbrev pub class_of : Option HealthClassification → TurnClass
class_of none = ignored
class_of (some c) = degraded_by c

abbrev pub has_code : Text → Option TurnError → Bool
has_code code none = false
has_code code (some e) = e.code == code

abbrev pub classify_turn_error : Option TurnError → TurnClass
classify_turn_error none = ignored
classify_turn_error (some e) = class_of (classify_code e.code e.retryable)

abbrev pub classify_by : TurnStatus → Option TurnError → TurnClass
classify_by completed error = fine
classify_by cancelled error = ignored
classify_by incomplete error =
    if has_code (codes "client_cancelled") error
    then ignored
    else if has_code (codes "provider_incomplete") error
    then fine
    else classify_turn_error error
classify_by failed error =
    if has_code (codes "client_cancelled") error then ignored else classify_turn_error error

-- `classifyProviderTurnResult`
unfoldable pub classify_turn : BridgeTurnResult → TurnClass
classify_turn r = classify_by r.status r.error

-- A tracker: the observations in the order of their first entry, and `rateLimitCooldownMs`.
pub record ProviderHealthTracker : Type 0 where
  pub observations : List (Text × ProviderHealthObservation)
  pub rate_limit_cooldown_ms : Option ℕ

-- `map.get`, `map.set` and `map.delete`
abbrev pub observation_of :
    Text → List (Text × ProviderHealthObservation) → Option ProviderHealthObservation
observation_of provider [] = none
observation_of provider ((key, o) ∷ rest) =
    if key == provider then some o else observation_of provider rest

abbrev pub set_observation :
    Text
    → ProviderHealthObservation
    → List (Text × ProviderHealthObservation)
    → List (Text × ProviderHealthObservation)
set_observation provider o [] = (provider, o) ∷ []
set_observation provider o ((key, p) ∷ rest) =
    if key == provider then (key, o) ∷ rest else (key, p) ∷ set_observation provider o rest

abbrev pub delete_observation :
    Text → List (Text × ProviderHealthObservation) → List (Text × ProviderHealthObservation)
delete_observation provider [] = []
delete_observation provider ((key, o) ∷ rest) =
    if key == provider
    then delete_observation provider rest
    else (key, o) ∷ delete_observation provider rest

-- `Number.isFinite(ms) && ms > 0`, with the whole milliseconds that a date keeps of it.
abbrev pub cooldown_ms : Number → Option ℕ
cooldown_ms (Number.nat (suc n)) = some (suc n)
cooldown_ms (Number.between n) = some n
cooldown_ms _ = none

abbrev pub invalid_request : Thrown
invalid_request = bridge (record { code = codes "invalid_request"; retryable = false })

abbrev pub new_with : Option ℕ → Result Thrown ProviderHealthTracker
new_with none = err invalid_request
new_with (some ms) = ok (record { observations = []; rate_limit_cooldown_ms = some ms })

-- `new ProviderHealthTracker(now, { rateLimitCooldownMs })`
unfoldable pub new_tracker : Option Number → Result Thrown ProviderHealthTracker
new_tracker none = ok (record { observations = []; rate_limit_cooldown_ms = none })
new_tracker (some ms) = new_with (cooldown_ms ms)

-- `record`
unfoldable pub put : ProviderHealthObservation → ProviderHealthTracker → ProviderHealthTracker
put o t = record t { observations = set_observation o.provider o t.observations }

abbrev pub is_cooldown : ProviderHealthState → Bool
is_cooldown cooldown = true
is_cooldown _ = false

-- A cooldown whose deadline has come.
abbrev pub is_past : ℕ → Option ℕ → Bool
is_past now none = false
is_past now (some deadline) = leb deadline now

abbrev pub is_expired : ℕ → ProviderHealthObservation → Bool
is_expired now o = is_cooldown o.state && is_past now o.cooldown_until

abbrev pub keep_active :
    ℕ
    → Text
    → Option ProviderHealthObservation
    → ProviderHealthTracker
    → Option ProviderHealthObservation × ProviderHealthTracker
keep_active now provider none t = (none, t)
keep_active now provider (some o) t =
    if is_expired now o
    then (none, record t { observations = delete_observation provider t.observations })
    else (some o, t)

-- `active`, which `get` returns a copy of.
unfoldable pub active :
    ℕ → Text → ProviderHealthTracker → Option ProviderHealthObservation × ProviderHealthTracker
active now provider t = keep_active now provider (observation_of provider t.observations) t

abbrev pub is_rate_limited : ProviderHealthState → Bool
is_rate_limited rate_limited = true
is_rate_limited _ = false

abbrev pub observe_plainly :
    ℕ → Text → HealthClassification → ProviderHealthOperation → ProviderHealthObservation
observe_plainly now provider c operation = record {
  provider = provider;
  state = c.state;
  operation = operation;
  observed_at = now;
  code = some c.code;
  retryable = c.retryable;
  cooldown_until = none;
}

abbrev pub observe_cooldown : ℕ → Text → HealthClassification → ℕ → ProviderHealthObservation
observe_cooldown now provider c ms = record {
  provider = provider;
  state = cooldown;
  operation = policy;
  observed_at = now;
  code = some c.code;
  retryable = c.retryable;
  cooldown_until = some (now + ms);
}

unfoldable pub observe_classified :
    ℕ → Text → HealthClassification → ProviderHealthOperation → Option ℕ → ProviderHealthObservation
observe_classified now provider c operation none = observe_plainly now provider c operation
observe_classified now provider c operation (some ms) =
    if is_rate_limited c.state
    then observe_cooldown now provider c ms
    else observe_plainly now provider c operation

-- `recordClassified`
unfoldable pub record_classified :
    ℕ
    → Text
    → HealthClassification
    → ProviderHealthOperation
    → ProviderHealthTracker
    → ProviderHealthTracker
record_classified now provider c operation t =
    put (observe_classified now provider c operation t.rate_limit_cooldown_ms) t

abbrev pub success : ℕ → Text → ProviderHealthOperation → ProviderHealthObservation
success now provider operation = record {
  provider = provider;
  state = healthy;
  operation = operation;
  observed_at = now;
  code = none;
  retryable = none;
  cooldown_until = none;
}

abbrev pub succeed :
    ℕ
    → Text
    → ProviderHealthOperation
    → Option ProviderHealthObservation
    → ProviderHealthTracker
    → ProviderHealthTracker
succeed now provider operation none t = put (success now provider operation) t
succeed now provider operation (some o) t =
    if is_cooldown o.state then t else put (success now provider operation) t

-- `recordSuccess`
unfoldable pub record_success :
    ℕ → Text → ProviderHealthOperation → ProviderHealthTracker → ProviderHealthTracker
record_success now provider operation t =
    let current = active now provider t in succeed now provider operation current.0 current.1

abbrev pub record_class :
    ℕ
    → Text
    → Option HealthClassification
    → ProviderHealthOperation
    → ProviderHealthTracker
    → ProviderHealthTracker
record_class now provider none operation t = t
record_class now provider (some c) operation t = record_classified now provider c operation t

-- `recordError`
unfoldable pub record_error :
    ℕ → Text → Thrown → ProviderHealthOperation → ProviderHealthTracker → ProviderHealthTracker
record_error now provider e operation t = record_class now provider (classify_error e) operation t

abbrev pub record_turn_class : ℕ → Text → TurnClass → ProviderHealthTracker → ProviderHealthTracker
record_turn_class now provider fine t = record_success now provider turn t
record_turn_class now provider ignored t = t
record_turn_class now provider (degraded_by c) t = record_classified now provider c turn t

-- `recordTurn`
unfoldable pub record_turn :
    ℕ → Text → BridgeTurnResult → ProviderHealthTracker → ProviderHealthTracker
record_turn now provider r t = record_turn_class now provider (classify_turn r) t

-- `markCooldown`, for a valid date
unfoldable pub mark_cooldown : ℕ → Text → ℕ → Text → ProviderHealthTracker → ProviderHealthTracker
mark_cooldown now provider deadline code t =
    put
      (record {
        provider = provider;
        state = cooldown;
        operation = policy;
        observed_at = now;
        code = some code;
        retryable = some true;
        cooldown_until = some deadline;
      })
      t

abbrev pub push_some :
    Option ProviderHealthObservation
    → List ProviderHealthObservation
    → List ProviderHealthObservation
push_some none os = os
push_some (some o) os = o ∷ os

-- `list(providerOrder)`
unfoldable pub list_health :
    ℕ → List Text → ProviderHealthTracker → List ProviderHealthObservation × ProviderHealthTracker
list_health now [] t = ([], t)
list_health now (p ∷ ps) t =
    let first = active now p t in
    let rest = list_health now ps first.1 in (push_some first.0 rest.0, rest.1)
