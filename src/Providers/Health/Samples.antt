-- ===== src/Providers/Health/Samples.antt =====
-- A rate limit of one provider, and what the tracker says of it.
use agent_chatgpt_bridge.Common.{
  ℕ, refl, inr, true, List, [], ◌∷◌, none, some, ◌≡◌, ◌<◌, ◌≤◌, arith, list_equality,
  number_equality,
}
use agent_chatgpt_bridge.Errors.{Thrown, bridge, other}
use agent_chatgpt_bridge.Js.{codes}
use agent_chatgpt_bridge.Providers.Health.{
  ProviderHealthTracker, HealthClassification, rate_limited, unavailable, turn, discovery,
  classify_code, classify_error, active, observe_cooldown, record_success, record_error, success,
}
use agent_chatgpt_bridge.Providers.Health.Cooldown.{
  Event, asks, succeeds, fails, record_error_cooldown, record_error_heals, run,
}

abbrev tracker : ProviderHealthTracker
tracker = record { observations = []; rate_limit_cooldown_ms = some 500 }

abbrev limited : Thrown
limited = bridge (record { code = codes "provider_rate_limited"; retryable = true })

abbrev limit : HealthClassification
limit = record { state = rate_limited; code = codes "provider_rate_limited"; retryable = some true }

abbrev exception : HealthClassification
exception = record { state = unavailable; code = codes "provider_exception"; retryable = none }

limited_class : classify_error limited ≡ some limit
unfolding classify_error classify_code
limited_class = refl

other_class : classify_error other ≡ some exception
unfolding classify_error
other_class = refl

-- The provider answers a discovery, and another provider fails, during the cooldown.
abbrev events : List Event
events =
    succeeds 200 (codes "p") discovery
    ∷ fails 300 (codes "q") other turn
    ∷ asks 400 (codes "p")
    ∷ []

record_error_cooldown_example :
    let t = run events (record_error 100 (codes "p") limited turn tracker) in
    ((later : ℕ)
      → later < 600
      → (active later (codes "p") t).0 ≡ some (observe_cooldown 100 (codes "p") limit 500))
    × ((later : ℕ) → 600 ≤ later → (active later (codes "p") t).0 ≡ none)
record_error_cooldown_example =
    record_error_cooldown tracker 500 100 (codes "p") limited limit turn events refl limited_class
      refl (inr (omega arith), (refl, (inr (omega arith), tt)))

record_error_heals_example :
    (active 300 (codes "p") (
      record_success 300 (codes "p") discovery (
        record_error 200
          (codes "p")
          other
          turn
          (record_error 100 (codes "p") limited turn tracker)))).0
    ≡ some (success 300 (codes "p") discovery)
record_error_heals_example =
    record_error_heals (record_error 100 (codes "p") limited turn tracker) 200 300 (codes "p") other
      exception turn discovery other_class refl
