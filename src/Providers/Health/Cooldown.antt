-- ===== src/Providers/Health/Cooldown.antt =====
-- src/providers/health.ts: how long a cooldown lasts.
use agent_chatgpt_bridge.Common.{
  ℕ, ◌+◌, ◌≤◌, ◌<◌, ◌≡◌, ◌⊎◌, inl, inr, refl, sym, subst, ap, ◌∙◌, true, false, List, [], ◌∷◌,
  Option, none, some, ◌==◌, list_equality, number_equality, if◌then◌else◌, All, arith, list_beq_iff,
  beq_self, Bool-cases, Option-cases, if-both,
}
use agent_chatgpt_bridge.Errors.{Thrown}
use agent_chatgpt_bridge.Js.{Text}
use agent_chatgpt_bridge.Providers.Health.{
  unavailable, rate_limited, cooldown, ProviderHealthOperation, turn, ProviderHealthObservation,
  HealthClassification, BridgeTurnResult, classify_error, classify_turn, TurnClass, fine, ignored,
  degraded_by, ProviderHealthTracker, observation_of, set_observation, delete_observation, put,
  is_cooldown, is_expired, active, observe_classified, observe_cooldown, record_classified, success,
  succeed, record_success, record_class, record_error, record_turn, record_turn_class,
  mark_cooldown,
}

abbrev pub Observations : Type 0
Observations = List (Text × ProviderHealthObservation)

observation_of-set :
    (p q : Text) (o : ProviderHealthObservation) (obs : Observations)
    → observation_of p (set_observation q o obs) ≡ (if q == p then some o else observation_of p obs)
observation_of-set p q o [] = refl
observation_of-set p q o ((key, k) ∷ obs) =
    ground (
      arith,
      observation_of-set p q o obs,
      list_beq_iff key q,
      list_beq_iff key p,
      list_beq_iff q p,
    )

observation_of-delete :
    (p q : Text) (obs : Observations)
    → (q == p) ≡ false
    → observation_of p (delete_observation q obs) ≡ observation_of p obs
observation_of-delete p q [] h = refl
observation_of-delete p q ((key, k) ∷ obs) h = ground (
  arith,
  h,
  observation_of-delete p q obs h,
  list_beq_iff key q,
  list_beq_iff key p,
  list_beq_iff q p,
)

-- An operation of the tracker, at a time.
pub data Event : Type 0 where
  asks : ℕ → Text → Event
  succeeds : ℕ → Text → ProviderHealthOperation → Event
  fails : ℕ → Text → Thrown → ProviderHealthOperation → Event
  ends : ℕ → Text → BridgeTurnResult → Event
  cools : ℕ → Text → ℕ → Text → Event

abbrev pub step : Event → ProviderHealthTracker → ProviderHealthTracker
step (asks now p) t = (active now p t).1
step (succeeds now p operation) t = record_success now p operation t
step (fails now p e operation) t = record_error now p e operation t
step (ends now p r) t = record_turn now p r t
step (cools now p deadline code) t = mark_cooldown now p deadline code t

unfoldable pub run : List Event → ProviderHealthTracker → ProviderHealthTracker
run [] t = t
run (e ∷ es) t = run es (step e t)

-- Of another provider, or before the deadline a success of this one or a question.
abbrev pub IsHarmless : Text → ℕ → Event → Type 0
IsHarmless p deadline (asks now q) = ((q == p) ≡ false) ⊎ (now < deadline)
IsHarmless p deadline (succeeds now q operation) = ((q == p) ≡ false) ⊎ (now < deadline)
IsHarmless p deadline (fails now q e operation) = (q == p) ≡ false
IsHarmless p deadline (ends now q r) =
    ((q == p) ≡ false) ⊎ ((classify_turn r ≡ fine) × (now < deadline))
IsHarmless p deadline (cools now q until code) = (q == p) ≡ false

abbrev pub stored : Text → ProviderHealthTracker → Option ProviderHealthObservation
stored p t = observation_of p t.observations

observe-provider :
    (now : ℕ) (q : Text) (c : HealthClassification) (operation : ProviderHealthOperation)
    (ms : Option ℕ)
    → (observe_classified now q c operation ms).provider ≡ q
unfolding observe_classified
observe-provider now q c operation none = refl
observe-provider now q c operation (some ms) = ground arith

module _ (p : Text) where
  put-other :
      (o : ProviderHealthObservation) (t : ProviderHealthTracker)
      → (o.provider == p) ≡ false
      → stored p (put o t) ≡ stored p t
  unfolding put
  put-other o t h = rw (observation_of-set p o.provider o t.observations) (rw h refl)

  pub active-other :
      (now : ℕ) (q : Text) (t : ProviderHealthTracker)
      → (q == p) ≡ false
      → stored p (active now q t).1 ≡ stored p t
  unfolding active
  active-other now q t h = elim (Option-cases (observation_of q t.observations)) [
    | inl e ↦ rw e refl
    | inr (o, e) ↦ rw e (
        if-both
          (λ (r : Option ProviderHealthObservation × ProviderHealthTracker).
            stored p r.1 ≡ stored p t)
          (is_expired now o) _ _ (λ _. observation_of-delete p q t.observations h) (λ _. refl))
  ]

  succeed-other :
      (now : ℕ) (q : Text) (operation : ProviderHealthOperation)
      (o : Option ProviderHealthObservation) (t : ProviderHealthTracker)
      → (q == p) ≡ false
      → stored p (succeed now q operation o t) ≡ stored p t
  succeed-other now q operation none t h = put-other (success now q operation) t h
  succeed-other now q operation (some o) t h =
      if-both (λ (t' : ProviderHealthTracker). stored p t' ≡ stored p t) (is_cooldown o.state) _ _
        (λ _. refl) (λ _. put-other (success now q operation) t h)

  pub success-other :
      (now : ℕ) (q : Text) (operation : ProviderHealthOperation) (t : ProviderHealthTracker)
      → (q == p) ≡ false
      → stored p (record_success now q operation t) ≡ stored p t
  unfolding record_success
  success-other now q operation t h =
      let current = active now q t in
      succeed-other now q operation current.0 current.1 h ∙ active-other now q t h

  classified-other :
      (now : ℕ) (q : Text) (c : HealthClassification) (operation : ProviderHealthOperation)
      (t : ProviderHealthTracker)
      → (q == p) ≡ false
      → stored p (record_classified now q c operation t) ≡ stored p t
  unfolding record_classified
  classified-other now q c operation t h =
      put-other (observe_classified now q c operation t.rate_limit_cooldown_ms) t
        (rw (observe-provider now q c operation t.rate_limit_cooldown_ms) h)

  pub class-other :
      (now : ℕ) (q : Text) (c : Option HealthClassification) (operation : ProviderHealthOperation)
      (t : ProviderHealthTracker)
      → (q == p) ≡ false
      → stored p (record_class now q c operation t) ≡ stored p t
  class-other now q none operation t h = refl
  class-other now q (some c) operation t h = classified-other now q c operation t h

  pub turn-other :
      (now : ℕ) (q : Text) (c : TurnClass) (t : ProviderHealthTracker)
      → (q == p) ≡ false
      → stored p (record_turn_class now q c t) ≡ stored p t
  turn-other now q fine t h = success-other now q turn t h
  turn-other now q ignored t h = refl
  turn-other now q (degraded_by c) t h = classified-other now q c turn t h

  -- No operation touches the observation of another provider.
  abbrev named : Event → Text
  named (asks now q) = q
  named (succeeds now q operation) = q
  named (fails now q e operation) = q
  named (ends now q r) = q
  named (cools now q until code) = q

  step-other :
      (e : Event) (t : ProviderHealthTracker)
      → (named e == p) ≡ false
      → stored p (step e t) ≡ stored p t
  unfolding record_error record_turn mark_cooldown
  step-other (asks now q) t h = active-other now q t h
  step-other (succeeds now q operation) t h = success-other now q operation t h
  step-other (fails now q e operation) t h = class-other now q (classify_error e) operation t h
  step-other (ends now q r) t h = turn-other now q (classify_turn r) t h
  step-other (cools now q until code) t h = put-other _ t h

module _ (p : Text) (o : ProviderHealthObservation) (deadline : ℕ) (cooling : o.state ≡ cooldown)
    (until : o.cooldown_until ≡ some deadline) where
  abbrev IsCooling : ProviderHealthTracker → Type 0
  IsCooling t = stored p t ≡ some o

  pub active-cooling :
      (now : ℕ) (t : ProviderHealthTracker)
      → now < deadline
      → IsCooling t
      → active now p t ≡ (some o, t)
  unfolding active
  active-cooling now t h c = rw c (ground (arith, cooling, until, h))

  active-expired :
      (now : ℕ) (t : ProviderHealthTracker)
      → deadline ≤ now
      → IsCooling t
      → (active now p t).0 ≡ none
  unfolding active
  active-expired now t h c = rw c (ground (arith, cooling, until, h))

  -- A success that is told during a cooldown changes nothing.
  succeed-cooling :
      (now : ℕ) (operation : ProviderHealthOperation) (t : ProviderHealthTracker)
      → stored p (succeed now p operation (some o) t) ≡ stored p t
  succeed-cooling now operation t =
      if-both (λ (t' : ProviderHealthTracker). stored p t' ≡ stored p t) (is_cooldown o.state) _ _
        (λ _. refl) (λ h. absurd (ground (arith, h, cooling)))

  ask-IsCooling :
      (now : ℕ) (t : ProviderHealthTracker)
      → now < deadline
      → IsCooling t
      → IsCooling (active now p t).1
  ask-IsCooling now t h c =
      ap (λ (r : Option ProviderHealthObservation × ProviderHealthTracker). stored p r.1)
        (active-cooling now t h c)
      ∙ c

  success-IsCooling :
      (now : ℕ) (operation : ProviderHealthOperation) (t : ProviderHealthTracker)
      → now < deadline
      → IsCooling t
      → IsCooling (record_success now p operation t)
  unfolding record_success
  success-IsCooling now operation t h c =
      rw (active-cooling now t h c) (succeed-cooling now operation t ∙ c)

  named_self : (q : Text) → (q == p) ≡ true → q ≡ p
  named_self q h = (list_beq_iff q p).0 h

  step-IsCooling :
      (e : Event) (t : ProviderHealthTracker)
      → IsHarmless p deadline e
      → IsCooling t
      → IsCooling (step e t)
  unfolding record_turn
  step-IsCooling (asks now q) t (inl h) c = step-other p (asks now q) t h ∙ c
  step-IsCooling (asks now q) t (inr h) c = elim (Bool-cases (q == p)) [
    | inl same ↦
        subst (λ k. IsCooling (active now k t).1) (sym (named_self q same))
          (ask-IsCooling now t h c)
    | inr h' ↦ step-other p (asks now q) t h' ∙ c
  ]
  step-IsCooling (succeeds now q operation) t (inl h) c =
      step-other p (succeeds now q operation) t h ∙ c
  step-IsCooling (succeeds now q operation) t (inr h) c = elim (Bool-cases (q == p)) [
    | inl same ↦
        subst (λ k. IsCooling (record_success now k operation t)) (sym (named_self q same))
          (success-IsCooling now operation t h c)
    | inr h' ↦ step-other p (succeeds now q operation) t h' ∙ c
  ]
  step-IsCooling (fails now q e operation) t h c = step-other p (fails now q e operation) t h ∙ c
  step-IsCooling (ends now q r) t (inl h) c = step-other p (ends now q r) t h ∙ c
  step-IsCooling (ends now q r) t (inr (f, h)) c = elim (Bool-cases (q == p)) [
    | inl same ↦ rw f (
        subst (λ k. IsCooling (record_success now k turn t)) (sym (named_self q same))
          (success-IsCooling now turn t h c))
    | inr h' ↦ step-other p (ends now q r) t h' ∙ c
  ]
  step-IsCooling (cools now q d code) t h c = step-other p (cools now q d code) t h ∙ c

  pub run-IsCooling :
      (es : List Event) (t : ProviderHealthTracker)
      → All (IsHarmless p deadline) es
      → IsCooling t
      → IsCooling (run es t)
  unfolding run
  run-IsCooling [] t all c = c
  run-IsCooling (e ∷ es) t all c = run-IsCooling es (step e t) all.1 (step-IsCooling e t all.0 c)

pub stored-put :
    (o : ProviderHealthObservation) (t : ProviderHealthTracker)
    → stored o.provider (put o t) ≡ some o
unfolding put
stored-put o t =
    observation_of-set o.provider o.provider o t.observations ∙ ground (arith, beq_self o.provider)

pub observe-limited :
    (now : ℕ) (p : Text) (c : HealthClassification) (operation : ProviderHealthOperation) (ms : ℕ)
    → c.state ≡ rate_limited
    → observe_classified now p c operation (some ms) ≡ observe_cooldown now p c ms
unfolding observe_classified
observe-limited now p c operation ms h = ground (arith, h)

-- What a failure that is not a rate limit leaves is no cooldown.
observe-unavailable :
    (now : ℕ) (p : Text) (c : HealthClassification) (operation : ProviderHealthOperation)
    (ms : Option ℕ)
    → c.state ≡ unavailable
    → is_cooldown (observe_classified now p c operation ms).state ≡ false
unfolding observe_classified
observe-unavailable now p c operation none h = rw h refl
observe-unavailable now p c operation (some ms) h = ground (arith, h)

active-uncooled :
    (now : ℕ) (p : Text) (o : ProviderHealthObservation) (t : ProviderHealthTracker)
    → stored p t ≡ some o
    → is_cooldown o.state ≡ false
    → active now p t ≡ (some o, t)
unfolding active
active-uncooled now p o t h u = rw h (ground (arith, u))

success-uncooled :
    (now : ℕ) (p : Text) (operation : ProviderHealthOperation) (o : ProviderHealthObservation)
    (t : ProviderHealthTracker)
    → stored p t ≡ some o
    → is_cooldown o.state ≡ false
    → stored p (record_success now p operation t) ≡ some (success now p operation)
unfolding record_success
success-uncooled now p operation o t h u = rw (active-uncooled now p o t h u) (
    if-both (λ (t' : ProviderHealthTracker). stored p t' ≡ some (success now p operation))
      (is_cooldown o.state) _ _ (λ c. absurd (ground (arith, c, u)))
      (λ _. stored-put (success now p operation) t))

pub record_classified-IsCooling :
    (t : ProviderHealthTracker) (ms now : ℕ) (p : Text) (c : HealthClassification)
    (operation : ProviderHealthOperation)
    → t.rate_limit_cooldown_ms ≡ some ms
    → c.state ≡ rate_limited
    → stored p (record_classified now p c operation t) ≡ some (observe_cooldown now p c ms)
unfolding record_classified
record_classified-IsCooling t ms now p c operation configured limited =
    ap (λ k. stored p (put k t))
      (ap (observe_classified now p c operation) configured
        ∙ observe-limited now p c operation ms limited)
    ∙ stored-put (observe_cooldown now p c ms) t

record_error-IsCooling :
    (t : ProviderHealthTracker) (ms now : ℕ) (p : Text) (e : Thrown) (c : HealthClassification)
    (operation : ProviderHealthOperation)
    → t.rate_limit_cooldown_ms ≡ some ms
    → classify_error e ≡ some c
    → c.state ≡ rate_limited
    → stored p (record_error now p e operation t) ≡ some (observe_cooldown now p c ms)
unfolding record_error
record_error-IsCooling t ms now p e c operation configured classified limited =
    rw classified (record_classified-IsCooling t ms now p c operation configured limited)

-- A failure that is classified as a rate limit, where a cooldown of `ms` is configured, at the time
-- `now`. Whatever the tracker is told after it of other providers, and of this one's successes before
-- the deadline `now + ms`, it answers `cooldown` with that deadline before it, and nothing from it on.
pub record_error_cooldown :
    (t : ProviderHealthTracker) (ms now : ℕ) (p : Text) (e : Thrown) (c : HealthClassification)
    (operation : ProviderHealthOperation) (events : List Event)
    → t.rate_limit_cooldown_ms ≡ some ms
    → classify_error e ≡ some c
    → c.state ≡ rate_limited
    → All (IsHarmless p (now + ms)) events
    → let t' = run events (record_error now p e operation t) in
      ((later : ℕ) → later < now + ms → (active later p t').0 ≡ some (observe_cooldown now p c ms))
      × ((later : ℕ) → now + ms ≤ later → (active later p t').0 ≡ none)
record_error_cooldown t ms now p e c operation events configured classified limited all =
    let o = observe_cooldown now p c ms in
    let kept =
      run-IsCooling p o (now + ms) refl refl events (record_error now p e operation t) all
        (record_error-IsCooling t ms now p e c operation configured classified limited) in
    (
      λ later h.
          ap (λ (r : Option ProviderHealthObservation × ProviderHealthTracker). r.0)
            (active-cooling p o (now + ms) refl refl later _ h kept),
      λ later h. active-expired p o (now + ms) refl refl later _ h kept,
    )

-- A failure that is not a rate limit ends a cooldown before its deadline, whatever the tracker holds:
-- a success that is told after it makes the provider `healthy`.
pub record_error_heals :
    (t : ProviderHealthTracker) (now later : ℕ) (p : Text) (e : Thrown) (c : HealthClassification)
    (operation operation' : ProviderHealthOperation)
    → classify_error e ≡ some c
    → c.state ≡ unavailable
    → (active later p (record_success later p operation' (record_error now p e operation t))).0
      ≡ some (success later p operation')
unfolding record_error record_classified
record_error_heals t now later p e c operation operation' classified state =
    let o = observe_classified now p c operation t.rate_limit_cooldown_ms in
    let t1 = record_classified now p c operation t in
    let told : stored p t1 ≡ some o =
      subst (λ k. stored k (put o t) ≡ some o)
        (observe-provider now p c operation t.rate_limit_cooldown_ms) (stored-put o t) in
    rw classified (
      ap (λ (r : Option ProviderHealthObservation × ProviderHealthTracker). r.0)
        (active-uncooled later p (success later p operation') (record_success later p operation' t1)
          (success-uncooled later p operation' o t1 told
            (observe-unavailable now p c operation t.rate_limit_cooldown_ms state))
          refl))
