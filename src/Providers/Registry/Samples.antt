-- ===== src/Providers/Registry/Samples.antt =====
-- Two providers in a world that is its clock.
use agent_chatgpt_bridge.Common.{
  ℕ, ◌+◌, true, List, [], ◌∷◌, none, some, list_equality, number_equality, ◌≡◌, ◌↔◌, refl, arith,
}
use agent_chatgpt_bridge.Errors.{Thrown, bridge, ok, err}
use agent_chatgpt_bridge.Actions.{Action}
use agent_chatgpt_bridge.Js.{Text, codes}
use agent_chatgpt_bridge.Providers.Health.{
  HealthClassification, rate_limited, turn, completed, classify_code, classify_error, active,
}
use agent_chatgpt_bridge.Providers.Health.Cooldown.{Event, fails, run}
use agent_chatgpt_bridge.Providers.Registry.{
  ConversationProvider, BridgeTurnRequest, Observed, assert_not_cooling_down, observed_capabilities,
  observed_run_turn, observed_validate_model, register_all,
}
use agent_chatgpt_bridge.Providers.Registry.Names.{IsRegistry, register_all-IsRegistry}
use agent_chatgpt_bridge.Providers.Registry.Cooling.{IsRefusedAt, observed_run_turn_cooling}

abbrev clock : ℕ → ℕ
clock w = w

abbrev limited : Thrown
limited = bridge (record { code = codes "provider_rate_limited"; retryable = true })

abbrev limit : HealthClassification
limit = record { state = rate_limited; code = codes "provider_rate_limited"; retryable = some true }

abbrev a : ConversationProvider ℕ
a = record {
  name = codes "a";
  capabilities = λ w. (ok (codes "m" ∷ []), w + 1);
  validate_model = none;
  run_turn = λ request w. (err limited, w + 10);
  cancel_turn = none;
}

abbrev b : ConversationProvider ℕ
b = record {
  name = codes "b";
  capabilities = λ w. (ok [], w + 1);
  validate_model = none;
  run_turn = λ request w. (ok (record { status = completed; error = none }), w + 10);
  cancel_turn = none;
}

register_all-IsRegistry_example : ((register_all (a ∷ b ∷ []) []) ≡ ok (a ∷ b ∷ [])) ↔ (
    (◌≡◌ {A = List (ConversationProvider ℕ)} (a ∷ b ∷ []) (a ∷ b ∷ [])) × IsRegistry (a ∷ b ∷ []))
register_all-IsRegistry_example = register_all-IsRegistry (a ∷ b ∷ []) (a ∷ b ∷ [])

abbrev start : Observed ℕ
start = record {
  world = 0;
  health = record { observations = []; rate_limit_cooldown_ms = some 500 };
}

abbrev request : BridgeTurnRequest
request = record {
  request_id = codes "t";
  session_id = codes "s";
  provider = codes "a";
  model = codes "m";
}

start_allowed : assert_not_cooling_down clock (codes "a") start ≡ (ok tt, start)
unfolding assert_not_cooling_down active
start_allowed = refl

limited_class : classify_error limited ≡ some limit
unfolding classify_error classify_code
limited_class = refl

abbrev events : List Event
events = fails 20 (codes "b") limited turn ∷ []

abbrev after : Observed ℕ
after = record {
  world = 400;
  health = run events (observed_run_turn clock a request start).1.health;
}

observed_run_turn_cooling_example :
    ((next : BridgeTurnRequest) → IsRefusedAt after (observed_run_turn clock a next))
    × IsRefusedAt after (observed_capabilities clock a)
    × ((validate : Text → Action ℕ (Unit {0})) (model : Text)
        → IsRefusedAt after (observed_validate_model clock (codes "a") validate model))
observed_run_turn_cooling_example =
    observed_run_turn_cooling clock a request start start 500 (err limited) limit events 10
      start_allowed refl refl limited_class refl (refl, tt) 400 (omega arith)
