-- ===== src/Kahn/Cycles.antt =====
-- What the two loops decide: whether the dependencies have a cycle, and in which order the nodes
-- can run.
use agent_chatgpt_bridge.Common.{
  ℕ, zero, suc, ◌+◌, ◌<◌, ◌≡◌, refl, true, false, List, [], ◌∷◌, Equality, ◌∙◌, if◌then◌else◌,
  count, arith, contains, contains-count, max, count-contains, IsDistinct, length, count_of_length,
  length-le_of_count, ◌↔◌, Bool-cases, inl, inr, eqb, beq_self,
}
use agent_chatgpt_bridge.Kahn.{Entry, ids, plan, processed, index_of}
use agent_chatgpt_bridge.Kahn.Invariant.{Sized, deps_of, pending}
use agent_chatgpt_bridge.Kahn.Visit.{Good, sup}
use agent_chatgpt_bridge.Kahn.Loop.{plan-Good, processed-plan, count-order-le, length-ids}

module _ {A : Type 0} ⦃e : Equality A⦄ where
  -- Every dependency is a node.
  abbrev pub IsClosed : List (Entry A) → Type 0
  IsClosed ns = (x y : A) → contains x (deps_of ns y) ≡ true → contains x (ids ns) ≡ true

  -- Numbers that grow along every dependency: they exist only if no cycle does.
  abbrev pub Ranking : List (Entry A) → Type 0
  Ranking ns = (rank : A → ℕ) × ((x y : A) → contains x (deps_of ns y) ≡ true → rank x < rank y)

  -- The greatest `level + 1` over some nodes, 0 over none.
  abbrev pub deepest : (A → ℕ) → List A → ℕ
  deepest levels [] = 0
  deepest levels (d ∷ ds) = max (levels d + 1) (deepest levels ds)

  pub deps_of_is_node :
      (ns : List (Entry A)) (x y : A) → contains x (deps_of ns y) ≡ true → 0 < count y (ids ns)
  deps_of_is_node [] x y h = absurd (ground arith)
  deps_of_is_node (n ∷ ns) x y h = ground (arith, deps_of_is_node ns x y)

  first_pending :
      (out ds : List A)
      → 0 < pending out ds
      → (x : A) × (contains x ds ≡ true) × (contains x out ≡ false)
  first_pending out [] h = absurd (omega arith)
  first_pending out (d ∷ ds) h = elim (Bool-cases (contains d out)) [
    | inl done ↦
        let (x, at, waits) = first_pending out ds (ground arith) in (x, ground arith, waits)
    | inr waits ↦ (d, ground (arith, beq_self d), waits)
  ]

module _ {A : Type 0} ⦃e : Equality A⦄ (ns : List (Entry A)) (distinct : IsDistinct (ids ns))
    (sized : Sized ns) where
  good : Good ns (plan ns)
  good = (plan-Good ns distinct sized).0

  idle : (plan ns).frontier.ready ≡ []
  idle = (plan-Good ns distinct sized).1

  done_or_blocked :
      (y : A)
      → count y (plan ns).order
        ≡ (if eqb ((plan ns).frontier.indegree y) 0 then count y (ids ns) else 0)
  done_or_blocked y = ground (arith, good.inv.placed y, idle)

  module _ (closed : IsClosed ns) (ranking : Ranking ns) where
    descent : (n : ℕ) (y : A) → ranking.0 y < n → (plan ns).frontier.indegree y ≡ 0
    descent zero y h = absurd (omega arith)
    descent (suc n) y h = elim (Bool-cases (eqb ((plan ns).frontier.indegree y) 0)) [
      | inl free ↦ ground arith
      | inr waits ↦
          let (x, at, missing) =
            first_pending (plan ns).order (deps_of ns y) (ground (arith, good.inv.degree y)) in
          let free = descent n x (omega (arith, ranking.1 x y at)) in
          let node = contains-count x (ids ns) (closed x y at) in
          absurd (ground (arith, done_or_blocked x, count-contains x (plan ns).order))
    ]

    -- Without a cycle every node is planned.
    complete_of_ranking : processed ns ≡ length ns
    complete_of_ranking =
        let all : (y : A) → count y (plan ns).order ≡ count y (ids ns) =
          λ y. ground (arith, done_or_blocked y, descent (suc (ranking.0 y)) y (omega arith)) in
        omega (
          arith,
          processed-plan ns,
          length-ids ns,
          length-le_of_count (plan ns).order (ids ns) (λ y. omega (arith, all y)),
          length-le_of_count (ids ns) (plan ns).order (λ y. omega (arith, all y)),
        )

  module _ (complete : processed ns ≡ length ns) where
    -- Every node stands in the order, once.
    pub count-order : (y : A) → count y (plan ns).order ≡ count y (ids ns)
    count-order =
        count_of_length (plan ns).order (ids ns) (count-order-le ns (plan ns) good)
          (omega (arith, processed-plan ns, length-ids ns))

    all_planned : (x y : A) → contains x (deps_of ns y) ≡ true → contains y (plan ns).order ≡ true
    all_planned x y at =
        ground (arith, count-order y, count-contains y (plan ns).order, deps_of_is_node ns x y)

    -- A node stands behind each of its dependencies.
    pub order-IsTopological :
        (x y : A)
        → contains x (deps_of ns y) ≡ true
        → (contains x (plan ns).order ≡ true)
          × (index_of x (plan ns).order < index_of y (plan ns).order)
    order-IsTopological x y at = good.ordered x y (all_planned x y at) at

    Ranking-of_complete : Ranking ns
    Ranking-of_complete =
        (λ x. index_of x (plan ns).order, λ x y at. (order-IsTopological x y at).1)

    deepest_all :
        (levels : A → ℕ) (out ds : List A)
        → ((x : A) → contains x ds ≡ true → contains x out ≡ true)
        → sup levels out ds ≡ deepest levels ds
    deepest_all levels out [] h = refl
    deepest_all levels out (d ∷ ds) h =
        ground (arith, h d, beq_self d, deepest_all levels out ds (λ x at. h x (ground arith)))

    -- A node's level is the greatest `level + 1` of its dependencies, 0 without any.
    pub level-eq : (y : A) → (plan ns).levels y ≡ deepest (plan ns).levels (deps_of ns y)
    level-eq y =
        good.level y
        ∙ deepest_all (plan ns).levels (plan ns).order (deps_of ns y)
            (λ x at. (order-IsTopological x y at).0)

  -- The count tells exactly whether there is a cycle.
  pub processed_iff : IsClosed ns → (processed ns ≡ length ns) ↔ Ranking ns
  processed_iff closed = (Ranking-of_complete, complete_of_ranking closed)
