-- ===== src/Common/Lists.antt =====
-- Lists measured by native numbers, membership and multiplicity as Boolean and numeric tests.
use Prim.Native.Nat.{ℕ, suc, ◌+◌, ◌≤◌, ◌<◌}
use mathlib.Core.Path.{◌≡◌, refl}
use mathlib.Core.Logic.{◌⊎◌, inl, inr}
use mathlib.Core.Bool.{Bool, true, false, ◌||◌}
use mathlib.Core.List.{List, [], ◌∷◌, ◌++◌}
use native.Mathlib.Omega.{arith}
use agent_chatgpt_bridge.Common.Tests.{
  Equality, ◌==◌, if◌then◌else◌, Bool-cases, ltb, ltb→lt, beq_self,
}

module _ {ℓ} {A : Type ℓ} where
  abbrev pub length : List A → ℕ
  length [] = 0
  length (x ∷ xs) = suc (length xs)

  pub length-append : (xs ys : List A) → length (xs ++ ys) ≡ length xs + length ys
  length-append [] ys = omega arith
  length-append (x ∷ xs) ys = omega (arith, length-append xs ys)

  -- Every item has the property.
  abbrev pub All {κ} : (A → Type κ) → List A → Type κ
  All P [] = Unit
  All P (x ∷ xs) = P x × All P xs

  -- A split on a list that keeps the equation.
  pub List-cases : (xs : List A) → (xs ≡ []) ⊎ ((x : A) × (rest : List A) × (xs ≡ x ∷ rest))
  List-cases [] = inl refl
  List-cases (x ∷ xs) = inr (x, xs, refl)

pub All-map {ℓ κ μ} :
    {A : Type ℓ} (P : A → Type κ) (Q : A → Type μ) (xs : List A)
    → ((x : A) → P x → Q x)
    → All P xs
    → All Q xs
All-map P Q [] f h = tt
All-map P Q (x ∷ xs) f h = (f x h.0, All-map P Q xs f h.1)

pub All-both {ℓ κ μ} :
    {A : Type ℓ} (P : A → Type κ) (Q : A → Type μ) (xs : List A)
    → All P xs
    → All Q xs
    → All (λ x. P x × Q x) xs
All-both P Q [] hp hq = tt
All-both P Q (x ∷ xs) hp hq = ((hp.0, hq.0), All-both P Q xs hp.1 hq.1)

module _ {ℓ} {A : Type ℓ} ⦃e : Equality A⦄ where
  abbrev pub contains : A → List A → Bool
  contains a [] = false
  contains a (x ∷ xs) = x == a || contains a xs

  pub contains-append :
      (a : A) (xs ys : List A) → contains a (xs ++ ys) ≡ (contains a xs || contains a ys)
  contains-append a [] ys = refl
  contains-append a (x ∷ xs) ys = ground (arith, contains-append a xs ys)

  -- How often an item occurs.
  abbrev pub count : A → List A → ℕ
  count a [] = 0
  count a (x ∷ xs) = (if x == a then 1 else 0) + count a xs

  pub count-append : (a : A) (xs ys : List A) → count a (xs ++ ys) ≡ count a xs + count a ys
  count-append a [] ys = omega arith
  count-append a (x ∷ xs) ys = omega (arith, count-append a xs ys)

  -- No item occurs twice.
  abbrev pub IsDistinct : List A → Type ℓ
  IsDistinct xs = (a : A) → count a xs ≤ 1

  pub contains-count : (a : A) (xs : List A) → contains a xs ≡ true → 0 < count a xs
  contains-count a [] h = absurd (ground arith)
  contains-count a (x ∷ xs) h = ground (arith, contains-count a xs)

  pub count-contains : (a : A) (xs : List A) → 0 < count a xs → contains a xs ≡ true
  count-contains a [] h = absurd (omega arith)
  count-contains a (x ∷ xs) h = ground (arith, count-contains a xs)

  -- Removes the first occurrence.
  abbrev pub erase : A → List A → List A
  erase a [] = []
  erase a (x ∷ xs) = if x == a then xs else x ∷ erase a xs

  pub count-erase_add :
      (a b : A) (xs : List A)
      → 0 < count a xs
      → count b (erase a xs) + (if a == b then 1 else 0) ≡ count b xs
  count-erase_add a b [] h = absurd (omega arith)
  count-erase_add a b (x ∷ xs) h =
      ground (arith, count-erase_add a b xs, e.same_iff x a, e.same_iff x b, e.same_iff a b)

  pub length-erase : (a : A) (xs : List A) → 0 < count a xs → suc (length (erase a xs)) ≡ length xs
  length-erase a [] h = absurd (omega arith)
  length-erase a (x ∷ xs) h = ground (arith, length-erase a xs)

  -- A list whose items all occur in another, as often, is not longer.
  pub length-le_of_count :
      (xs ys : List A) → ((a : A) → count a xs ≤ count a ys) → length xs ≤ length ys
  length-le_of_count [] ys h = omega arith
  length-le_of_count (x ∷ xs) ys h =
      let found : 0 < count x ys = ground (arith, h x, beq_self x) in
      ground (
        arith,
        length-erase x ys found,
        length-le_of_count xs (erase x ys) (λ a. ground (arith, h a, count-erase_add x a ys found)),
      )

  -- If it is as long, it holds the same items.
  pub count_of_length :
      (xs ys : List A)
      → ((a : A) → count a xs ≤ count a ys)
      → length xs ≡ length ys
      → (a : A) → count a xs ≡ count a ys
  count_of_length xs ys h same a = elim (Bool-cases (ltb (count a xs) (count a ys))) [
    | inl fewer ↦
        let below = ltb→lt (count a xs) (count a ys) fewer in
        let found : 0 < count a ys = omega arith in
        absurd (
          omega (
            arith,
            length-erase a ys found,
            length-le_of_count xs (erase a ys)
                (λ b. ground (arith, h b, count-erase_add a b ys found, e.same_iff a b)),
          ))
    | inr other ↦ ground (arith, h a)
  ]
