-- ===== src/Kahn/Positions.antt =====
-- Positions in a list that grows at its end.
use agent_chatgpt_bridge.Common.{
  ◌<◌, ◌≡◌, true, List, [], ◌∷◌, ◌++◌, Equality, ◌==◌, if◌then◌else◌, count, arith, beq_self,
  contains, length, ◌⊎◌,
}
use agent_chatgpt_bridge.Kahn.{index_of}

module _ {A : Type 0} ⦃e : Equality A⦄ where
  pub contains-append_left :
      (x : A) (xs ys : List A) → contains x xs ≡ true → contains x (xs ++ ys) ≡ true
  contains-append_left x [] ys h = absurd (ground arith)
  contains-append_left x (a ∷ xs) ys h = ground (arith, contains-append_left x xs ys)

  pub index_of-append :
      (x : A) (xs ys : List A)
      → contains x xs ≡ true
      → (index_of x (xs ++ ys) ≡ index_of x xs) × (index_of x xs < length xs)
  unfolding index_of
  index_of-append x [] ys h = absurd (ground arith)
  index_of-append x (a ∷ xs) ys h = ground (arith, index_of-append x xs ys)

  pub index_of-snoc : (x : A) (xs : List A) → count x xs ≡ 0 → index_of x (xs ++ x ∷ []) ≡ length xs
  unfolding index_of
  index_of-snoc x [] h = ground (arith, beq_self x)
  index_of-snoc x (a ∷ xs) h = ground (arith, index_of-snoc x xs)

  pub contains-snoc_cases :
      (y c : A) (xs : List A) → contains y (xs ++ c ∷ []) ≡ true → (contains y xs ≡ true) ⊎ (c ≡ y)
  contains-snoc_cases y c [] h = ground (arith, e.same_iff c y)
  contains-snoc_cases y c (a ∷ xs) h = ground (arith, contains-snoc_cases y c xs)

  pub contains-snoc :
      (d c : A) (out : List A)
      → contains d (out ++ c ∷ []) ≡ (if c == d then true else contains d out)
  contains-snoc d c [] = ground arith
  contains-snoc d c (x ∷ out) = ground (arith, contains-snoc d c out)
