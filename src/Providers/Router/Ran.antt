-- ===== src/Providers/Router/Ran.antt =====
-- src/providers/registry.ts: which provider runs a turn of the router.
use mathlib.Core.List.{Memᴰ}
use mathlib.Core.List.Memᴰ
use agent_chatgpt_bridge.Common.{
  ℕ, Bool, ◌++◌, if◌then◌else◌, true, false, List, [], ◌∷◌, Option, none, some, ◌==◌, list_equality,
  number_equality, ◌≡◌, refl, sym, ap, ◌∙◌, subst, arith, contains, Bool-cases, inl, inr,
}
use agent_chatgpt_bridge.Errors.{Thrown, Result, ok, err, or_throw-ok, ok_injective}
use agent_chatgpt_bridge.Actions.{continue-ok, lift}
use agent_chatgpt_bridge.Js.{Text, codes, starts_with}
use agent_chatgpt_bridge.Providers.Health.{BridgeTurnResult, ProviderHealthTracker}
use agent_chatgpt_bridge.Providers.Policy.{ProviderRouteDecision, provider_unavailable}
use agent_chatgpt_bridge.Providers.Registry.{
  ConversationProvider, BridgeTurnRequest, Observed, with_prefix, at_most_one, exactly_one, get,
  assert_not_cooling_down, observe_turn, observed_capabilities, observed_run_turn, namespaced_owner,
  exposing, resolve_owned, resolve_model,
}
use agent_chatgpt_bridge.Providers.Router.{selected_provider}

pub ok_same {ℓ κ} :
    {A : Type ℓ} {S : Type κ} {a b : A} {s t : S}
    → ◌≡◌ {A = Result Thrown A × S} (ok a, s) (ok b, t)
    → b ≡ a
ok_same h = cc

module _ {W : Type 0} where
  -- A provider of a list that keeps some of those of another one.
  if-Mem :
      (c : Bool) (q : ConversationProvider W) (qs ps : List (ConversationProvider W))
      {p : ConversationProvider W}
      → (Memᴰ p qs → Memᴰ p ps)
      → Memᴰ p (if c then q ∷ qs else qs)
      → Memᴰ p (q ∷ ps)
  if-Mem true q qs ps below at = elim (Memᴰ.cases_cons at) [
    | inl same ↦ Memᴰ.head same
    | inr later ↦ Memᴰ.tail (below later)
  ]
  if-Mem false q qs ps below at = Memᴰ.tail (below at)

  with_prefix-Mem :
      (model : Text) (ps : List (ConversationProvider W)) {p : ConversationProvider W}
      → Memᴰ p (with_prefix model ps)
      → Memᴰ p ps
  with_prefix-Mem model [] at = at
  with_prefix-Mem model (q ∷ ps) at =
      if-Mem (starts_with (q.name ++ codes "/") model) q (with_prefix model ps) ps
        (with_prefix-Mem model ps) at

  at_most_one-Mem :
      (ps : List (ConversationProvider W)) (p : ConversationProvider W)
      → at_most_one ps ≡ ok (some p)
      → Memᴰ p ps
  at_most_one-Mem [] p h = cc
  at_most_one-Mem (q ∷ []) p h = Memᴰ.head cc
  at_most_one-Mem (q ∷ r ∷ ps) p h = cc

  exactly_one-Mem :
      (ps : List (ConversationProvider W)) (p : ConversationProvider W)
      → exactly_one ps ≡ ok p
      → Memᴰ p ps
  exactly_one-Mem [] p h = cc
  exactly_one-Mem (q ∷ []) p h = Memᴰ.head cc
  exactly_one-Mem (q ∷ r ∷ ps) p h = cc

  get-Mem :
      (ps : List (ConversationProvider W)) (name : Text) (p : ConversationProvider W)
      → get ps name ≡ some p
      → Memᴰ p ps
  get-Mem [] name p h = cc
  get-Mem (q ∷ ps) name p h = elim (Bool-cases (q.name == name)) [
    | inl same ↦ Memᴰ.head (ground (arith, h, same))
    | inr other ↦ Memᴰ.tail (get-Mem ps name p (ground (arith, h, other)))
  ]

module _ {W : Type 0} (now : W → ℕ) where
  exposing-Mem :
      (model : Text) (ps qs : List (ConversationProvider W)) (s t : Observed W)
      {p : ConversationProvider W}
      → exposing now model ps s ≡ (ok qs, t)
      → Memᴰ p qs
      → Memᴰ p ps
  unfolding exposing
  exposing-Mem model [] qs s t {p} h at = subst (Memᴰ p) (ok_same h) at
  exposing-Mem model (q ∷ ps) qs s t {p} h at =
      let (models, u, asked, h1) = continue-ok (observed_capabilities now q s) _ h in
      let (rest, v, below, h2) = continue-ok (exposing now model ps u) _ h1 in
      if-Mem (contains model models) q rest ps (exposing-Mem model ps rest u v below)
        (subst (Memᴰ p) (ok_same h2) at)

  resolve_owned-Mem :
      (ps : List (ConversationProvider W)) (model : Text) (owner : Option (ConversationProvider W))
      (s t : Observed W) (p : ConversationProvider W)
      → ((q : ConversationProvider W) → owner ≡ some q → Memᴰ q ps)
      → resolve_owned now ps model owner s ≡ (ok p, t)
      → Memᴰ p ps
  resolve_owned-Mem ps model (some q) s t p owned h =
      subst (λ k. Memᴰ k ps) (sym (ok_same h)) (owned q refl)
  resolve_owned-Mem ps model none s t p owned h =
      let (found, u, exposed, h1) = continue-ok (exposing now model ps s) _ h in
      exposing-Mem model ps found s u exposed (exactly_one-Mem found p (ap (λ k. k.0) h1))

  -- A model is resolved to a provider of the registry.
  pub resolve_model-Mem :
      (ps : List (ConversationProvider W)) (model : Text) (s t : Observed W)
      (p : ConversationProvider W)
      → resolve_model now ps model s ≡ (ok p, t)
      → Memᴰ p ps
  unfolding resolve_model namespaced_owner
  resolve_model-Mem ps model s t p h =
      let (owner, u, one, h1) = continue-ok (lift (at_most_one (with_prefix model ps)) s) _ h in
      resolve_owned-Mem ps model owner u t p
        (λ q e.
          with_prefix-Mem model ps
            (at_most_one-Mem (with_prefix model ps) q (ap (λ k. k.0) one ∙ ap ok e)))
        h1

  -- So is the one that a decision selects.
  pub selected_provider-Mem :
      (ps : List (ConversationProvider W)) (d : ProviderRouteDecision)
      (requested p : ConversationProvider W)
      → Memᴰ requested ps
      → selected_provider ps d requested ≡ ok p
      → Memᴰ p ps
  selected_provider-Mem ps d requested p at h = elim (Bool-cases d.fallback) [
    | inl fell ↦
        get-Mem ps d.selected_provider p (or_throw-ok _ provider_unavailable p (rw fell at h))
    | inr kept ↦ subst (λ k. Memᴰ k ps) (ok_injective {E = Thrown} requested p (rw kept at h)) at
  ]

  observe_turn-ran :
      (name : Text) (t : ProviderHealthTracker) (r : Result Thrown BridgeTurnResult × W)
      (x : BridgeTurnResult) (o : Observed W)
      → observe_turn now name t r ≡ (ok x, o)
      → r ≡ (ok x, o.world)
  observe_turn-ran name t (ok y, w) x o h =
      ap (λ (k : Result Thrown BridgeTurnResult × Observed W). (k.0, k.1.world)) h
  observe_turn-ran name t (err y, w) x o h = cc

  -- A turn that returns has been run by the provider, and what it returns is the provider's result.
  pub observed_run_turn-ran :
      (p : ConversationProvider W) (request : BridgeTurnRequest) (s t : Observed W)
      (x : BridgeTurnResult)
      → observed_run_turn now p request s ≡ (ok x, t)
      → (before : W) × (p.run_turn request before ≡ (ok x, t.world))
  unfolding observed_run_turn
  observed_run_turn-ran p request s t x h =
      let (done, u, asserted, h1) = continue-ok (assert_not_cooling_down now p.name s) _ h in
      (u.world, observe_turn-ran p.name u.health (p.run_turn request u.world) x t h1)
