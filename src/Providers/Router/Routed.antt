-- ===== src/Providers/Router/Routed.antt =====
-- src/providers/registry.ts: where the router sends a turn.
use mathlib.Core.List.{Memᴰ}
use agent_chatgpt_bridge.Common.{
  ℕ, ◌<◌, ◌++◌, true, false, List, [], ◌∷◌, none, some, ◌==◌, list_equality, number_equality, ◌≡◌,
  ◌⊎◌, inl, inr, refl, sym, ap, ◌∙◌, subst, arith, contains, contains-append, beq_self,
}
use agent_chatgpt_bridge.Errors.{Thrown, Result, ok, err}
use agent_chatgpt_bridge.Actions.{Action, continue, continue-ok, lift}
use agent_chatgpt_bridge.Js.{Text}
use agent_chatgpt_bridge.Providers.Health.{
  BridgeTurnResult, ProviderHealthObservation, ProviderHealthState, healthy, cooldown,
}
use agent_chatgpt_bridge.Providers.Health.Cooldown.{stored}
use agent_chatgpt_bridge.Providers.Policy.{
  ProviderFallbackPolicy, disabled, ordered, ProviderRouteDecision, state_beq, includes,
  select_provider_route,
}
use agent_chatgpt_bridge.Providers.Policy.Routes.{IsRerouted, select_provider_route-IsRerouted}
use agent_chatgpt_bridge.Providers.Registry.{
  ConversationProvider, BridgeTurnRequest, Observed, with_prefix, at_most_one, namespaced_owner,
  exposing, has, resolve_owned, resolve_model, provider_health, observed_run_turn,
}
use agent_chatgpt_bridge.Providers.Registry.Cooling.{exposing-cooling}
use agent_chatgpt_bridge.Providers.Router.Ran.{
  ok_same, resolve_model-Mem, selected_provider-Mem, observed_run_turn-ran,
}
use agent_chatgpt_bridge.Providers.Router.{
  RouterState, RoutedResult, ActiveTurn, in_router, inside, finally, end_turn, routed,
  resolve_valid, route_turn, run_routed, outside, run_turn, selected_provider,
}

in_router-ok {ℓ} :
    {W : Type 0} {A : Type ℓ} (turns : List (Text × ActiveTurn W))
    (r : Result Thrown A × Observed W) (a : A) (t : RouterState W)
    → in_router turns r ≡ (ok a, t)
    → r ≡ (ok a, t.observed)
in_router-ok turns (ok b, o) a t h = cc
in_router-ok turns (err e, o) a t h = cc

finally-ok {ℓ} :
    {W : Type 0} {A : Type ℓ} (clean : RouterState W → RouterState W)
    → ((s : RouterState W) → (clean s).observed ≡ s.observed)
    → (turns : List (Text × ActiveTurn W)) (r : Result Thrown A × Observed W) (a : A)
      (t : RouterState W)
    → finally clean (in_router turns r) ≡ (ok a, t)
    → (o : Observed W) × (r ≡ (ok a, o)) × (o ≡ t.observed)
finally-ok {W = W} {A = A} clean keeps turns (ok b, o) a t h = (
  o,
  cc,
  sym (keeps (record { observed = o; active_turns = turns }))
      ∙ ap (λ (k : Result Thrown A × RouterState W). k.1.observed) h,
)
finally-ok clean keeps turns (err e, o) a t h = cc

end_turn-observed :
    {W : Type 0} (session turn_id : Text) (s : RouterState W)
    → (end_turn session turn_id s).observed ≡ s.observed
unfolding end_turn
end_turn-observed session turn_id s = refl

-- A provider of the registry, the one that the metadata names, has run the turn for the model that they
-- name: what it returned is the result, and how it left the world is how the router leaves it.
pub record WasRun {W : Type 0} (providers : List (ConversationProvider W))
    (request : BridgeTurnRequest) (r : RoutedResult) (after : W) : Type 0 where
  pub provider : ConversationProvider W
  pub registered : Memᴰ provider providers
  pub named : provider.name ≡ r.routed_provider
  pub before : W
  pub ran :
      provider.run_turn
        (record request { provider = r.routed_provider; model = r.routed_model })
        before
      ≡ (ok r.result, after)

-- What does not succeed has thrown.
throws_unless_ok {ℓ κ} :
    {A : Type ℓ} {S : Type κ} (r : Result Thrown A × S)
    → ((a : A) (t : S) → r ≡ (ok a, t) → ⊥)
    → (e : Thrown) × (t : S) × (r ≡ (err e, t))
throws_unless_ok (ok a, t) h = absurd (h a t refl)
throws_unless_ok (err e, t) h = (e, t, refl)

module _ {W : Type 0} (now : W → ℕ) (providers : List (ConversationProvider W))
    (policy : ProviderFallbackPolicy)
    (observer : ProviderRouteDecision → BridgeTurnRequest → Action W (Unit {0})) where
  resolve_model-cooling :
      (name : Text) (o : ProviderHealthObservation) (deadline : ℕ) (model : Text) (s t : Observed W)
      (p : ConversationProvider W)
      → o.state ≡ cooldown
      → o.cooldown_until ≡ some deadline
      → ((w : W) → now w < deadline)
      → has providers name ≡ true
      → stored name s.health ≡ some o
      → with_prefix model providers ≡ []
      → resolve_model now providers model s ≡ (ok p, t)
      → ⊥
  unfolding resolve_model namespaced_owner
  resolve_model-cooling name o deadline model s t p cooling until early at c free run =
      let plain : resolve_owned now providers model none s ≡ (ok p, t) =
        subst
          (λ ps. continue (resolve_owned now providers model) (lift (at_most_one ps) s) ≡ (ok p, t))
          free run in
      let (found, u, exposed, _) = continue-ok (exposing now model providers s) _ plain in
      exposing-cooling now name o deadline cooling until early model providers s found u at c
        exposed

  -- How the route of a turn has been found.
  record IsRoute (request : BridgeTurnRequest) (s : Observed W) (decision : ProviderRouteDecision)
      (provider : ConversationProvider W) : Type 0 where
    resolved : ConversationProvider W
    after : Observed W
    resolves : resolve_model now providers request.model s ≡ (ok resolved, after)
    health : List ProviderHealthObservation
    before : Observed W
    later : Observed W
    decides :
        select_provider_route request.model resolved.name health
          (resolve_valid now providers)
          policy
          before
        ≡ (ok decision, later)
    selects : selected_provider providers decision resolved ≡ ok provider

  route_turn-IsRoute :
      (request : BridgeTurnRequest) (s t : Observed W) (decision : ProviderRouteDecision)
      (provider : ConversationProvider W)
      → route_turn now providers policy observer request s ≡ (ok (decision, provider), t)
      → IsRoute request s decision provider
  unfolding route_turn
  route_turn-IsRoute request s t decision provider h =
      let (resolved, after, resolves, h1) =
        continue-ok (resolve_model now providers request.model s) _ h in
      let (health, before, listed, h2) = continue-ok (provider_health now providers after) _ h1 in
      let (d, later, decides, h3) =
        continue-ok
          (select_provider_route request.model resolved.name health (resolve_valid now providers)
            policy before)
          _ h2 in
      let (p, u, selects, h4) =
        continue-ok (lift (selected_provider providers d resolved) later) _ h3 in
      let (seen, v, observed, h5) = continue-ok (outside (observer d request) u) _ h4 in
      subst (λ k. IsRoute request s k.0 k.1) (sym (ok_same h5))
        (record {
          resolved = resolved;
          after = after;
          resolves = resolves;
          health = health;
          before = before;
          later = later;
          decides = decides;
          selects = ap (λ k. k.0) selects;
        })

  run_routed-ok :
      (request : BridgeTurnRequest) (decision : ProviderRouteDecision)
      (provider : ConversationProvider W) (o o' : Observed W) (r : RoutedResult)
      → Memᴰ provider providers
      → run_routed now providers policy observer request decision provider o ≡ (ok r, o')
      → (x : BridgeTurnResult) × (r ≡ routed decision provider x)
        × WasRun providers request r o'.world
  run_routed-ok request decision provider o o' r at h =
      let (x, u, ran, h1) =
        continue-ok
          (observed_run_turn now provider
            (record request { provider = provider.name; model = decision.selected_model }) o)
          _ h in
      let (before, result) = observed_run_turn-ran now provider _ o u x ran in
      let left : u ≡ o' = ap (λ k. k.1) h1 in
      let same = ok_same h1 in
      (
        x,
        same,
        subst (λ k. WasRun providers request k o'.world) (sym same)
            (record {
              provider = provider;
              registered = at;
              named = refl;
              before = before;
              ran = result ∙ ap (λ (k : Observed W). (ok x, k.world)) left;
            }),
      )

  run_turn-IsRoute :
      (request : BridgeTurnRequest) (s s' : RouterState W) (r : RoutedResult)
      → run_turn now providers policy observer request s ≡ (ok r, s')
      → (decision : ProviderRouteDecision) × (provider : ConversationProvider W)
        × (x : BridgeTurnResult) × IsRoute request s.observed decision provider
        × (r ≡ routed decision provider x)
        × WasRun providers request r s'.observed.world
  unfolding run_turn
  run_turn-IsRoute request s s' r h =
      let (route, t, routing, h1) =
        continue-ok (inside (route_turn now providers policy observer request) s) _ h in
      let (o, ended, left) =
        finally-ok (end_turn request.session_id request.request_id)
          (end_turn-observed request.session_id request.request_id) _
          (run_routed now providers policy observer request route.0 route.1 t.observed) r s' h1 in
      let found = route_turn-IsRoute request s.observed t.observed route.0 route.1 (
        in_router-ok s.active_turns (route_turn now providers policy observer request s.observed)
          route t routing) in
      let at =
        selected_provider-Mem now providers route.0 found.resolved route.1
          (resolve_model-Mem now providers request.model s.observed found.after found.resolved
            found.resolves)
          found.selects in
      let (x, same, ran) = run_routed-ok request route.0 route.1 t.observed o r at ended in
      (
        route.0,
        route.1,
        x,
        found,
        same,
        subst (λ (k : Observed W). WasRun providers request r k.world) left ran,
      )

-- The result names a model that the policy lists, with the state that has set the fallback off.
abbrev pub IsAllowed : ProviderFallbackPolicy → BridgeTurnRequest → RoutedResult → Type 0
IsAllowed disabled request r = ⊥
IsAllowed (ordered models on) request r =
    (contains r.routed_model models ≡ true)
    × ((r.routed_model == request.model) ≡ false)
    × ((state : ProviderHealthState) × (r.fallback_reason_state ≡ some state)
        × (state_beq state healthy ≡ false)
        × (includes state on ≡ true))

contains-middle : (m : Text) (before after : List Text) → contains m (before ++ m ∷ after) ≡ true
contains-middle m before after = contains-append m before (m ∷ after) ∙ ground (arith, beq_self m)

rerouted-IsAllowed :
    {W : Type 0} (model p : Text) (health : List ProviderHealthObservation)
    (resolve : Text → Action (Observed W) Text) (policy : ProviderFallbackPolicy) (s t : Observed W)
    (d : ProviderRouteDecision) (provider : ConversationProvider W) (x : BridgeTurnResult)
    (request : BridgeTurnRequest)
    → request.model ≡ model
    → IsRerouted model p health resolve policy s d t
    → (d.fallback ≡ true)
      × (d.requested_model ≡ model)
      × IsAllowed policy request (routed d provider x)
rerouted-IsAllowed model p health resolve disabled s t d provider x request same h = absurd h.1
rerouted-IsAllowed model p health resolve (ordered models on) s t d provider x request same
      (valid, (state, (seen, unhealthy, listed), (m, u, q, reached, resolves, fit, is))) =
    (
      ap (λ k. k.fallback) is,
      ap (λ k. k.requested_model) is,
      (
        ap (λ k. contains k.selected_model models) is
            ∙ ap (λ ms. contains m ms) reached.split
            ∙ contains-middle m reached.before reached.after,
        ap (λ k. k.selected_model == request.model) is ∙ rw same reached.other,
        (state, ap (λ k. k.reason_state) is, unhealthy, listed),
      ),
    )

allowed_lem :
    {W : Type 0} (now : W → ℕ) (providers : List (ConversationProvider W))
    (policy : ProviderFallbackPolicy)
    (observer : ProviderRouteDecision → BridgeTurnRequest → Action W (Unit {0}))
    (request : BridgeTurnRequest) (s : RouterState W) (d : ProviderRouteDecision)
    (provider : ConversationProvider W) (x : BridgeTurnResult)
    → IsRoute now providers policy observer request s.observed d provider
    → (d.requested_model ≡ request.model)
      × (((d.fallback ≡ false) × (d.selected_model ≡ request.model))
          ⊎ ((d.fallback ≡ true) × IsAllowed policy request (routed d provider x)))
allowed_lem now providers policy observer request s d provider x route =
    elim (select_provider_route-IsRerouted request.model route.resolved.name route.health
      (resolve_valid now providers) policy route.before route.later d route.decides) [
        | inl (is, _, _) ↦ (
          ap (λ k. k.requested_model) is,
          inl (ap (λ k. k.fallback) is, ap (λ k. k.selected_model) is),
        )
        | inr rerouted ↦
            let (fallback, requested, allowed) =
              rerouted-IsAllowed request.model route.resolved.name route.health
                (resolve_valid now providers) policy route.before route.later d provider x request
                refl rerouted in
            (requested, inr (fallback, allowed))
      ]

-- A turn that returns was run by a provider of the registry, for the model and under the provider's name
-- that the metadata of its result give, and the result is the one that the provider returned. The model
-- is the requested one, and the metadata say so, or another one, and they say that it is a fallback: then
-- the policy is `ordered` and lists the model, and the reason is a state, not `healthy`, that the policy
-- names.
pub run_turn-IsAllowed :
    {W : Type 0} (now : W → ℕ) (providers : List (ConversationProvider W))
    (policy : ProviderFallbackPolicy)
    (observer : ProviderRouteDecision → BridgeTurnRequest → Action W (Unit {0}))
    (request : BridgeTurnRequest) (s s' : RouterState W) (r : RoutedResult)
    → run_turn now providers policy observer request s ≡ (ok r, s')
    → (r.requested_model ≡ request.model)
      × (((r.fallback ≡ false) × (r.routed_model ≡ request.model))
          ⊎ ((r.fallback ≡ true) × IsAllowed policy request r))
      × WasRun providers request r s'.observed.world
run_turn-IsAllowed now providers policy observer request s s' r h =
    let (d, provider, x, route, same, ran) =
      run_turn-IsRoute now providers policy observer request s s' r h in
    let (requested, allowed) =
      subst
        (λ (k : RoutedResult).
          (k.requested_model ≡ request.model)
          × (((k.fallback ≡ false) × (k.routed_model ≡ request.model))
              ⊎ ((k.fallback ≡ true) × IsAllowed policy request k)))
        (sym same) (allowed_lem now providers policy observer request s d provider x route) in
    (requested, allowed, ran)

-- A model of no provider's namespace cannot be run while a provider cools down, any provider of the
-- registry, under every policy, one that names `cooldown` included: before the policy is asked, every
-- provider is asked for its models, and the one that cools down throws.
pub run_turn_cooling :
    {W : Type 0} (now : W → ℕ) (providers : List (ConversationProvider W))
    (policy : ProviderFallbackPolicy)
    (observer : ProviderRouteDecision → BridgeTurnRequest → Action W (Unit {0}))
    (request : BridgeTurnRequest) (s : RouterState W) (name : Text) (o : ProviderHealthObservation)
    (deadline : ℕ)
    → o.state ≡ cooldown
    → o.cooldown_until ≡ some deadline
    → ((w : W) → now w < deadline)
    → has providers name ≡ true
    → stored name s.observed.health ≡ some o
    → with_prefix request.model providers ≡ []
    → (e : Thrown) × (s' : RouterState W) × (run_turn now providers policy observer request s
        ≡ (err e, s'))
run_turn_cooling now providers policy observer request s name o deadline cooling until early at
      stored free =
    throws_unless_ok (run_turn now providers policy observer request s) (λ r s' h.
      let (d, provider, x, route, same, ran) =
        run_turn-IsRoute now providers policy observer request s s' r h in
      resolve_model-cooling now providers policy observer name o deadline request.model s.observed
        route.after route.resolved cooling until early at stored free route.resolves)
