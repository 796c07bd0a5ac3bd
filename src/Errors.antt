-- ===== src/Errors.antt =====
-- src/core/errors.ts, and code that throws as a function into results.
use agent_chatgpt_bridge.Common.{Bool, true, false, Option, none, some, ◌≡◌, refl}
use agent_chatgpt_bridge.Js.{Text}

-- `BridgeError` without its message and `requestId`.
pub record BridgeError : Type 0 where
  pub code : Text
  pub retryable : Bool

-- What a caught error may be: `aborted` has the name `AbortError`.
pub data Thrown : Type 0 where
  bridge : BridgeError → Thrown
  aborted other : Thrown

pub data Result {ℓ κ} (E : Type ℓ) (A : Type κ) : Type (ℓ ⊔ κ) where
  err : E → Result E A
  ok : A → Result E A

module _ {ℓ κ μ} {E : Type ℓ} {X : Type κ} {Y : Type μ} where
  infixl 5 ◌>>=◌
  abbrev pub ◌>>=◌ : Result E X → (X → Result E Y) → Result E Y
  err failure >>= next = err failure
  ok x >>= next = next x

  -- What a run that did not throw has passed through.
  pub bind-ok :
      (first : Result E X) (next : X → Result E Y) {y : Y}
      → (first >>= next) ≡ ok y
      → (x : X) × (first ≡ ok x) × (next x ≡ ok y)
  bind-ok (err failure) next h = cc
  bind-ok (ok x) next h = (x, refl, h)

infixl 5 ◌>>◌
abbrev pub ◌>>◌ {ℓ κ} : {E : Type ℓ} {Y : Type κ} → Result E (Unit {0}) → Result E Y → Result E Y
first >> second = first >>= λ done. second

-- `if (test) throw error`
abbrev pub throw_if {ℓ} : {E : Type ℓ} → Bool → E → Result E (Unit {0})
throw_if true e = err e
throw_if false e = ok tt

-- `x ?? throw error`
abbrev pub or_throw {ℓ κ} : {E : Type ℓ} {A : Type κ} → Option A → E → Result E A
or_throw none e = err e
or_throw (some a) e = ok a

pub throw_if-ok {ℓ} : {E : Type ℓ} (test : Bool) (e : E) → throw_if test e ≡ ok tt → test ≡ false
throw_if-ok true e h = cc
throw_if-ok false e h = refl

pub sequence-ok {ℓ κ} :
    {E : Type ℓ} {B : Type κ} (test : Bool) (e : E) (k : Result E B) {b : B}
    → (throw_if test e >> k) ≡ ok b
    → (test ≡ false) × (k ≡ ok b)
sequence-ok true e k h = cc
sequence-ok false e k h = (refl, h)

pub or_throw-ok {ℓ κ} :
    {E : Type ℓ} {A : Type κ} (o : Option A) (e : E) (a : A) → or_throw o e ≡ ok a → o ≡ some a
or_throw-ok none e a h = cc
or_throw-ok (some b) e a h = cc

pub ok_injective {ℓ κ} :
    {E : Type ℓ} {A : Type κ} (a b : A) → ◌≡◌ {A = Result E A} (ok a) (ok b) → a ≡ b
ok_injective a b h = cc
