-- ===== src/Kahn/Relax.antt =====
-- Lemmas on sorting, on `dependents` and on the inner loop.
use agent_chatgpt_bridge.Common.{
  ℕ, zero, suc, ◌+◌, ◌≤◌, ◌<◌, ◌≡◌, refl, List, [], ◌∷◌, ◌++◌, Equality, ◌==◌, if◌then◌else◌, count,
  count-append, arith, beq_self,
}
use agent_chatgpt_bridge.Kahn.{
  Entry, Frontier, insert_sorted, sort, links, dependents, decrement, relax,
}

-- 1 if a fall of the indegree from `a` to `b` puts the node into `ready`.
abbrev pub released : ℕ → ℕ → ℕ
released zero b = 0
released (suc a) zero = 1
released (suc a) (suc b) = 0

released_self : (a : ℕ) → released a a ≡ 0
released_self zero = refl
released_self (suc a) = refl

released_add : (a b c : ℕ) → b ≤ a → c ≤ b → released a c ≡ released a b + released b c
released_add zero zero zero _ _ = refl
released_add (suc a) zero zero _ _ = refl
released_add (suc a) (suc b) zero _ _ = refl
released_add (suc a) (suc b) (suc c) _ _ = refl
released_add zero (suc b) c h _ = absurd (omega arith)
released_add a zero (suc c) _ h = absurd (omega arith)

module _ {A : Type 0} ⦃e : Equality A⦄ where
  count-insert_sorted :
      (order : List A) (a b : A) (xs : List A)
      → count b (insert_sorted order a xs) ≡ count b (a ∷ xs)
  count-insert_sorted order a b [] = refl
  count-insert_sorted order a b (x ∷ xs) = ground (arith, count-insert_sorted order a b xs)

  -- Sorting keeps every multiplicity.
  pub count-sort : (order : List A) (b : A) (xs : List A) → count b (sort order xs) ≡ count b xs
  count-sort order b [] = refl
  count-sort order b (x ∷ xs) =
      omega (arith, count-insert_sorted order x b (sort order xs), count-sort order b xs)

  count-links :
      (x y id : A) (ds : List A) → count y (links x id ds) ≡ (if id == y then count x ds else 0)
  count-links x y id [] = ground arith
  count-links x y id (d ∷ ds) = ground (arith, count-links x y id ds)

  -- How often `y` depends on `x`, over all nodes called `y`.
  abbrev pub edges : List (Entry A) → A → A → ℕ
  edges [] x y = 0
  edges (n ∷ ns) x y = (if n.id == y then count x n.deps else 0) + edges ns x y

  pub count-dependents : (ns : List (Entry A)) (x y : A) → count y (dependents ns x) ≡ edges ns x y
  count-dependents [] x y = refl
  count-dependents (n ∷ ns) x y = omega (
    arith,
    count-append y (links x n.id n.deps) (dependents ns x),
    count-links x y n.id n.deps,
    count-dependents ns x y,
  )

  pub record Relaxed (before after : Frontier A) (ys : List A) : Type 0 where
    pub falls : (y : A) → after.indegree y + count y ys ≡ before.indegree y
    pub queues :
        (y : A)
        → count y after.ready
          ≡ count y before.ready + released (before.indegree y) (after.indegree y)

  count_self : (y : A) (ys : List A) → 0 < count y (y ∷ ys)
  count_self y ys = ground (arith, beq_self y)

  decrement-falls :
      (order : List A) (y : A) (f : Frontier A) (x : A)
      → 0 < f.indegree y
      → (decrement order y f).indegree x + (if y == x then 1 else 0) ≡ f.indegree x
  unfolding decrement
  decrement-falls order y f x h = ground (arith, e.same_iff x y, e.same_iff y x)

  decrement-queues :
      (order : List A) (y : A) (f : Frontier A) (x : A)
      → count x (decrement order y f).ready
        ≡ count x f.ready + released (f.indegree x) ((decrement order y f).indegree x)
  unfolding decrement
  decrement-queues order y f x = ground (
    arith,
    e.same_iff x y,
    e.same_iff y x,
    count-sort order x (f.ready ++ y ∷ []),
    count-append x f.ready (y ∷ []),
  )

  -- The inner loop takes each mention off the indegree, and queues what falls to 0, once.
  pub relax-Relaxed :
      (order ys : List A) (f : Frontier A)
      → ((y : A) → count y ys ≤ f.indegree y)
      → Relaxed f (relax order ys f) ys
  unfolding relax
  relax-Relaxed order [] f h = record {
    falls = λ y. omega arith;
    queues = λ y. omega (arith, released_self (f.indegree y));
  }
  relax-Relaxed order (y ∷ ys) f h =
      let g : Frontier A = decrement order y f in
      let positive : 0 < f.indegree y = omega (arith, h y, count_self y ys) in
      let falls : (x : A) → g.indegree x + (if y == x then 1 else 0) ≡ f.indegree x =
        λ x. decrement-falls order y f x positive in
      let queues = decrement-queues order y f in
      let rest : Relaxed g (relax order ys g) ys =
        relax-Relaxed order ys g (λ x. omega (arith, h x, falls x)) in
      record {
        falls = λ x. omega (arith, rest.falls x, falls x);
        queues = λ x. omega (
          arith,
          rest.queues x,
          queues x,
          rest.falls x,
          falls x,
          released_add (f.indegree x) (g.indegree x) ((relax order ys g).indegree x),
        );
      }
