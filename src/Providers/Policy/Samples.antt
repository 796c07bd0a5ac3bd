-- ===== src/Providers/Policy/Samples.antt =====
-- A route around a provider that is unavailable. Resolving counts its calls.
use agent_chatgpt_bridge.Common.{
  ℕ, suc, List, [], ◌∷◌, none, ◌==◌, list_equality, number_equality, if◌then◌else◌, ◌≡◌, ◌⊎◌, refl,
}
use agent_chatgpt_bridge.Errors.{ok, err}
use agent_chatgpt_bridge.Actions.{Action}
use agent_chatgpt_bridge.Js.{Text, codes}
use agent_chatgpt_bridge.Providers.Health.{ProviderHealthObservation, unavailable, turn}
use agent_chatgpt_bridge.Providers.Policy.{
  ProviderFallbackPolicy, ordered, fallback_to, provider_unavailable, primary,
  select_provider_route, validate_ordered_policy, try_models,
}
use agent_chatgpt_bridge.Providers.Policy.Routes.{
  IsKept, IsRerouted, IsRefused, select_provider_route-IsRerouted, select_provider_route-IsRefused,
}

abbrev health : List ProviderHealthObservation
health =
    record {
      provider = codes "a";
      state = unavailable;
      operation = turn;
      observed_at = 5;
      code = none;
      retryable = none;
      cooldown_until = none;
    }
    ∷ []

-- `m1` is of `a`, `m2` is not to be had now, any other model is of `b`.
abbrev resolve_model : Text → Action ℕ Text
resolve_model model calls =
    if model == codes "m1"
    then (ok (codes "a"), suc calls)
    else if model == codes "m2"
    then (err provider_unavailable, suc calls)
    else (ok (codes "b"), suc calls)

abbrev policy : ProviderFallbackPolicy
policy = ordered (codes "m1" ∷ codes "m2" ∷ codes "m3" ∷ []) (unavailable ∷ [])

route :
    select_provider_route (codes "m1") (codes "a") health resolve_model policy 0
    ≡ (ok (fallback_to (codes "m1") (codes "a") unavailable (codes "m3") (codes "b")), 2)
unfolding select_provider_route try_models validate_ordered_policy
route = refl

abbrev short_policy : ProviderFallbackPolicy
short_policy = ordered (codes "m2" ∷ []) (unavailable ∷ [])

no_route :
    select_provider_route (codes "m1") (codes "a") health resolve_model short_policy 0
    ≡ (err provider_unavailable, 1)
unfolding select_provider_route try_models validate_ordered_policy
no_route = refl

select_provider_route-IsRerouted_example :
    let d = fallback_to (codes "m1") (codes "a") unavailable (codes "m3") (codes "b") in
    ((d ≡ primary (codes "m1") (codes "a"))
      × (◌≡◌ {A = ℕ} 2 0)
      × IsKept (codes "m1") (codes "a") health resolve_model policy)
    ⊎ IsRerouted (codes "m1") (codes "a") health resolve_model policy 0 d 2
select_provider_route-IsRerouted_example =
    select_provider_route-IsRerouted (codes "m1") (codes "a") health resolve_model policy 0 2 _
      route

select_provider_route-IsRefused_example :
    IsRefused (codes "m1") (codes "a") health resolve_model short_policy 0 provider_unavailable 1
select_provider_route-IsRefused_example =
    select_provider_route-IsRefused (codes "m1") (codes "a") health resolve_model short_policy 0 1 _
      no_route
