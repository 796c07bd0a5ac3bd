-- ===== src/Providers/Router/Samples.antt =====
-- A turn that falls back, and one that a cooldown of another provider refuses. The clock stands.
use agent_chatgpt_bridge.Common.{
  ℕ, true, false, List, [], ◌∷◌, Option, none, some, list_equality, number_equality, ◌≡◌, ◌⊎◌, refl,
  arith, String,
}
use agent_chatgpt_bridge.Errors.{Thrown, Result, ok, err}
use agent_chatgpt_bridge.Actions.{Action, pure}
use agent_chatgpt_bridge.Js.{codes}
use agent_chatgpt_bridge.Providers.Health.{
  ProviderHealthObservation, ProviderHealthState, BridgeTurnResult, unavailable, cooldown, turn,
  completed, active, list_health, record_success, record_turn, classify_turn, put,
}
use agent_chatgpt_bridge.Providers.Policy.{
  ProviderFallbackPolicy, ordered, ProviderRouteDecision, select_provider_route,
  validate_ordered_policy, try_models,
}
use agent_chatgpt_bridge.Providers.Registry.{
  ConversationProvider, BridgeTurnRequest, assert_not_cooling_down, observed_capabilities,
  observed_run_turn, namespaced_owner, exposing, validate_model, resolve_model, provider_health,
}
use agent_chatgpt_bridge.Providers.Router.{
  RouterState, RoutedResult, resolve_valid, route_turn, run_turn, end_turn,
}
use agent_chatgpt_bridge.Providers.Router.Routed.{
  IsAllowed, WasRun, run_turn-IsAllowed, run_turn_cooling,
}

program : Unit {0}
unfolding active list_health record_success record_turn classify_turn put select_provider_route
    validate_ordered_policy try_models assert_not_cooling_down observed_capabilities
    observed_run_turn namespaced_owner exposing validate_model resolve_model provider_health
    resolve_valid route_turn run_turn end_turn
program = tt

abbrev clock : Unit {0} → ℕ
clock w = 5

abbrev done : BridgeTurnResult
done = record { status = completed; error = none }

abbrev provider : String → String → ConversationProvider (Unit {0})
provider name model = record {
  name = codes name;
  capabilities = λ w. (ok (codes model ∷ []), w);
  validate_model = none;
  run_turn = λ request w. (ok done, w);
  cancel_turn = none;
}

abbrev providers : List (ConversationProvider (Unit {0}))
providers = provider "a" "m" ∷ provider "b" "n" ∷ []

abbrev observation : ProviderHealthState → Option ℕ → ProviderHealthObservation
observation state until = record {
  provider = codes "a";
  state = state;
  operation = turn;
  observed_at = 1;
  code = none;
  retryable = none;
  cooldown_until = until;
}

abbrev state : ProviderHealthState → Option ℕ → RouterState (Unit {0})
state s until = record {
  observed = record {
    world = tt;
    health = record {
      observations = (codes "a", observation s until) ∷ [];
      rate_limit_cooldown_ms = none;
    };
  };
  active_turns = [];
}

abbrev fallback : ProviderFallbackPolicy
fallback = ordered (codes "b/n" ∷ []) (unavailable ∷ cooldown ∷ [])

abbrev observer : ProviderRouteDecision → BridgeTurnRequest → Action (Unit {0}) (Unit {0})
observer decision request = pure tt

abbrev request : String → BridgeTurnRequest
request model = record {
  request_id = codes "t";
  session_id = codes "s";
  provider = codes "model-router";
  model = codes model;
}

-- `b` exposes its models by full names here.
abbrev named : List (ConversationProvider (Unit {0}))
named = provider "a" "a/m" ∷ provider "b" "b/n" ∷ []

abbrev nothing : RoutedResult
nothing = record {
  result = done;
  routed_provider = [];
  routed_model = [];
  requested_provider = [];
  requested_model = [];
  fallback = false;
  fallback_reason_state = none;
}

abbrev result_of : Result Thrown RoutedResult × RouterState (Unit {0}) → RoutedResult
result_of (ok r, s) = r
result_of (err e, s) = nothing

abbrev run : Result Thrown RoutedResult × RouterState (Unit {0})
run = run_turn clock named fallback observer (request "a/m") (state unavailable none)

run_ok : run ≡ (ok (result_of run), run.1)
unfolding program
run_ok = refl

run_fell_back : (result_of run).routed_model ≡ codes "b/n"
unfolding program
run_fell_back = refl

-- `finally` has forgotten the turn.
run_ended : run.1.active_turns ≡ []
unfolding program
run_ended = refl

run_turn-IsAllowed_example :
    ((result_of run).requested_model ≡ codes "a/m")
    × ((((result_of run).fallback ≡ false) × ((result_of run).routed_model ≡ codes "a/m"))
        ⊎ (((result_of run).fallback ≡ true) × IsAllowed fallback (request "a/m") (result_of run)))
    × WasRun named (request "a/m") (result_of run) run.1.observed.world
run_turn-IsAllowed_example =
    run_turn-IsAllowed clock named fallback observer (request "a/m") (state unavailable none) run.1
      (result_of run) run_ok

-- `n` is a model of `b`, which is well.
run_turn_cooling_example :
    (e : Thrown) × (s' : RouterState (Unit {0})) × (run_turn clock providers fallback observer
        (request "n")
        (state cooldown (some 100))
      ≡ (err e, s'))
run_turn_cooling_example =
    run_turn_cooling clock providers fallback observer (request "n") (state cooldown (some 100))
      (codes "a") (observation cooldown (some 100)) 100 refl refl (λ w. omega arith) refl refl refl
