-- ===== src/Kahn/Invariant.antt =====
-- What holds of the loop over `ready` between two rounds.
use agent_chatgpt_bridge.Common.{
  ℕ, ◌+◌, ◌<◌, ◌≡◌, refl, true, List, [], ◌∷◌, ◌++◌, Equality, ◌==◌, if◌then◌else◌, count,
  count-append, eqb, arith, beq_self, contains, contains-count, IsDistinct, All, length, Bool-cases,
  inl, inr,
}
use agent_chatgpt_bridge.Kahn.{
  Entry, Frontier, dependents, relax, ids, mentions, initial_indegree, roots, start,
}
use agent_chatgpt_bridge.Kahn.Positions.{contains-snoc}
use agent_chatgpt_bridge.Kahn.Relax.{edges, count-dependents, count-sort, Relaxed, relax-Relaxed}

module _ {A : Type 0} ⦃e : Equality A⦄ where
  -- The `dependsOn` of the node called `y`.
  abbrev pub deps_of : List (Entry A) → A → List A
  deps_of [] y = []
  deps_of (n ∷ ns) y = if n.id == y then n.deps else deps_of ns y

  -- How many mentions are not done yet.
  abbrev pub pending : List A → List A → ℕ
  pending out [] = 0
  pending out (d ∷ ds) = (if contains d out then 0 else 1) + pending out ds

  -- The lengths that the loop starts from are those of the lists.
  abbrev pub Sized : List (Entry A) → Type 0
  Sized entries = All (λ n. n.size ≡ length n.deps) entries

  pub record Inv (entries : List (Entry A)) (f : Frontier A) (out : List A) : Type 0 where
    pub degree : (y : A) → f.indegree y ≡ pending out (deps_of entries y)
    pub placed :
        (y : A)
        → count y f.ready + count y out
          ≡ (if eqb (f.indegree y) 0 then count y (ids entries) else 0)

  pub deps_of_absent : (ns : List (Entry A)) (y : A) → count y (ids ns) ≡ 0 → deps_of ns y ≡ []
  deps_of_absent [] y h = refl
  deps_of_absent (n ∷ ns) y h = ground (arith, deps_of_absent ns y)

  edges_absent : (ns : List (Entry A)) (x y : A) → count y (ids ns) ≡ 0 → edges ns x y ≡ 0
  edges_absent [] x y h = refl
  edges_absent (n ∷ ns) x y h = ground (arith, edges_absent ns x y)

  IsDistinct-tail : (a : A) (as' : List A) → IsDistinct (a ∷ as') → IsDistinct as'
  IsDistinct-tail a as' h b = omega (arith, h b)

  pub edges-count :
      (ns : List (Entry A)) (x y : A) → IsDistinct (ids ns) → edges ns x y ≡ count x (deps_of ns y)
  edges-count [] x y h = refl
  edges-count (n ∷ ns) x y h =
      ground (arith, h y, edges_absent ns x y, edges-count ns x y (IsDistinct-tail n.id (ids ns) h))

  pub pending-snoc :
      (c : A) (out ds : List A)
      → count c out ≡ 0
      → pending (out ++ c ∷ []) ds + count c ds ≡ pending out ds
  pending-snoc c out [] h = omega arith
  pending-snoc c out (d ∷ ds) h = ground (
    arith,
    pending-snoc c out ds h,
    contains-snoc d c out,
    contains-count c out,
    e.same_iff c d,
    e.same_iff d c,
  )

  pub pending_zero : (out ds : List A) → pending out ds ≡ 0 → All (λ d. contains d out ≡ true) ds
  pending_zero out [] h = tt
  pending_zero out (d ∷ ds) h = (ground arith, pending_zero out ds (ground arith))

  pending_nil : (ds : List A) → pending [] ds ≡ length ds
  pending_nil [] = refl
  pending_nil (d ∷ ds) = omega (arith, pending_nil ds)

  initial_indegree-length :
      (ns : List (Entry A)) (y : A) → Sized ns → initial_indegree ns y ≡ length (deps_of ns y)
  initial_indegree-length [] y h = refl
  initial_indegree-length (n ∷ ns) y h = ground (arith, h.0, initial_indegree-length ns y h.1)

  count-roots :
      (g : A → ℕ) (y : A) (xs : List A)
      → count y (roots g xs) ≡ (if eqb (g y) 0 then count y xs else 0)
  count-roots g y [] = ground arith
  count-roots g y (x ∷ xs) = elim (Bool-cases (x == y)) [
    | inl same ↦ ground (
      arith,
      count-roots g y xs,
      (e.same_iff x y).0 same,
      count-append y (if eqb (g x) 0 then x ∷ [] else []) (roots g xs),
    )
    | inr other ↦ ground (
      arith,
      count-roots g y xs,
      count-append y (if eqb (g x) 0 then x ∷ [] else []) (roots g xs),
    )
  ]

  -- The invariant holds when the loop starts.
  pub start-Inv : (ns : List (Entry A)) → Sized ns → Inv ns (start ns) []
  unfolding start
  start-Inv ns sized = record {
    degree = λ y. omega (arith, initial_indegree-length ns y sized, pending_nil (deps_of ns y));
    placed = λ y. omega (
      arith,
      count-sort (ids ns) y (roots (initial_indegree ns) (ids ns)),
      count-roots (initial_indegree ns) y (ids ns),
    );
  }

-- One round of the loop: `current` goes from the queue to what is done.
module _ {A : Type 0} ⦃e : Equality A⦄ (ns : List (Entry A)) (distinct : IsDistinct (ids ns))
    (f : Frontier A) (out rest : List A) (current : A) (taken : f.ready ≡ current ∷ rest)
    (inv : Inv ns f out) where
  abbrev next_frontier : Frontier A
  next_frontier = relax (ids ns) (mentions ns current) (record f { ready = rest })

  split : (y : A) → count y f.ready ≡ (if current == y then 1 else 0) + count y rest
  split y = rw taken

  pub current_is_node : 0 < count current (ids ns)
  current_is_node = ground (arith, inv.placed current, split current, beq_self current)

  pub current_is_new : count current out ≡ 0
  current_is_new =
      ground (arith, inv.placed current, split current, beq_self current, distinct current)

  pub current_is_free : pending out (deps_of ns current) ≡ 0
  current_is_free =
      ground (arith, inv.placed current, inv.degree current, split current, beq_self current)

  pub count-mentions : (y : A) → count y (mentions ns current) ≡ count current (deps_of ns y)
  count-mentions y = omega (
    arith,
    count-sort (ids ns) y (dependents ns current),
    count-dependents ns current y,
    edges-count ns current y distinct,
  )

  pub round-Relaxed : Relaxed (record f { ready = rest }) next_frontier (mentions ns current)
  round-Relaxed =
      relax-Relaxed (ids ns) (mentions ns current) (record f { ready = rest })
        λ y. omega (
          arith,
          count-mentions y,
          inv.degree y,
          pending-snoc current out (deps_of ns y) current_is_new,
        )

  round-degree : (y : A) → next_frontier.indegree y ≡ pending (out ++ current ∷ []) (deps_of ns y)
  round-degree y = omega (
    arith,
    round-Relaxed.falls y,
    count-mentions y,
    inv.degree y,
    pending-snoc current out (deps_of ns y) current_is_new,
  )

  busy_is_node : (y : A) → 0 < f.indegree y → count y (ids ns) ≡ 1
  busy_is_node y h = ground (arith, distinct y, deps_of_absent ns y, inv.degree y)

  -- The round keeps the invariant.
  pub round-Inv :
      Inv ns
        (relax (ids ns) (mentions ns current) (record f { ready = rest }))
        (out ++ current ∷ [])
  round-Inv = record {
    degree = round-degree;
    placed = λ y. ground (
      arith,
      inv.placed y,
      round-Relaxed.queues y,
      round-Relaxed.falls y,
      busy_is_node y,
      split y,
      count-append y out (current ∷ []),
    );
  }
