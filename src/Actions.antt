-- ===== src/Actions.antt =====
-- Code that throws and changes a state: an `async` method, from its call to its end.
use agent_chatgpt_bridge.Common.{◌≡◌, refl}
use agent_chatgpt_bridge.Errors.{Thrown, Result, ok, err}

abbrev pub Action {ℓ κ} : Type ℓ → Type κ → Type (ℓ ⊔ κ)
Action S A = S → Result Thrown A × S

abbrev pub continue {ℓ κ μ} :
    {S : Type ℓ} {A : Type κ} {B : Type μ}
    → (A → Action S B)
    → Result Thrown A × S
    → Result Thrown B × S
continue f (ok a, s) = f a s
continue f (err e, s) = (err e, s)

module _ {ℓ κ μ} {S : Type ℓ} {X : Type κ} {Y : Type μ} where
  infixl 5 ◌>>=◌
  abbrev pub ◌>>=◌ : Action S X → (X → Action S Y) → Action S Y
  (first >>= next) s = continue next (first s)

infixl 5 ◌>>◌
abbrev pub ◌>>◌ {ℓ κ} : {S : Type ℓ} {Y : Type κ} → Action S (Unit {0}) → Action S Y → Action S Y
first >> second = first >>= λ done. second

abbrev pub pure {ℓ κ} : {S : Type ℓ} {A : Type κ} → A → Action S A
pure a s = (ok a, s)

abbrev pub fail {ℓ κ} : {S : Type ℓ} {A : Type κ} → Thrown → Action S A
fail e s = (err e, s)

-- What does not look at the state.
abbrev pub lift {ℓ κ} : {S : Type ℓ} {A : Type κ} → Result Thrown A → Action S A
lift r s = (r, s)

-- What a run that did not throw has passed through.
pub continue-ok {ℓ κ μ} :
    {S : Type ℓ} {A : Type κ} {B : Type μ} (r : Result Thrown A × S) (f : A → Action S B) {s' : S}
    {b : B}
    → continue f r ≡ (ok b, s')
    → (a : A) × (t : S) × (r ≡ (ok a, t)) × (f a t ≡ (ok b, s'))
continue-ok (ok a, t) f h = (a, t, refl, h)
continue-ok (err e, t) f h = cc

-- What holds of the state before a step, and is kept by what follows, holds after both.
pub continue-state {ℓ κ μ ν} :
    {S : Type ℓ} {A : Type κ} {B : Type μ} (P : S → Type ν) (r : Result Thrown A × S)
    (f : A → Action S B)
    → P r.1
    → ((a : A) (s : S) → P s → P (f a s).1)
    → P (continue f r).1
continue-state P (ok a, s) f h k = k a s h
continue-state P (err e, s) f h k = h
