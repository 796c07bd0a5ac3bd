-- ===== src/Kahn/Visit.antt =====
-- One round of the planner's loop.
use agent_chatgpt_bridge.Common.{
  ℕ, ◌+◌, ◌<◌, ◌≡◌, refl, true, false, List, [], ◌∷◌, ◌++◌, Equality, ◌==◌, if◌then◌else◌, count,
  arith, contains, contains-count, max, count-contains, IsDistinct, All, Bool-cases, inl, inr,
}
use agent_chatgpt_bridge.Kahn.{
  mentions, Entry, Work, relax, ids, relax_levels, visit, take_current, index_of, update, decrement,
}
use agent_chatgpt_bridge.Kahn.Positions.{
  contains-append_left, index_of-append, index_of-snoc, contains-snoc_cases, contains-snoc,
}
use agent_chatgpt_bridge.Kahn.Invariant.{
  Inv, deps_of, pending, pending_zero, round-Inv, current_is_new, current_is_free, count-mentions,
}

module _ {A : Type 0} ⦃e : Equality A⦄ where
  pub relax_levels-frontier :
      (order : List A) (current : A) (ys : List A) (w : Work A)
      → (relax_levels order current ys w).frontier ≡ relax order ys w.frontier
  unfolding relax_levels relax
  relax_levels-frontier order current [] w = refl
  relax_levels-frontier order current (y ∷ ys) w = relax_levels-frontier order current ys _

  pub relax_levels-order :
      (order : List A) (current : A) (ys : List A) (w : Work A)
      → (relax_levels order current ys w).order ≡ w.order
  unfolding relax_levels
  relax_levels-order order current [] w = refl
  relax_levels-order order current (y ∷ ys) w = relax_levels-order order current ys _

  pub relax_levels-levels :
      (order : List A) (current : A) (ys : List A) (w : Work A) (x : A)
      → count current ys ≡ 0
      → (relax_levels order current ys w).levels x
        ≡ (if contains x ys then max (w.levels x) (w.levels current + 1) else w.levels x)
  unfolding relax_levels
  relax_levels-levels order current [] w x h = refl
  relax_levels-levels order current (y ∷ ys) w x h =
      let next : Work A = record w {
        levels = update w.levels y (max (w.levels y) (w.levels current + 1));
        frontier = decrement order y w.frontier;
      } in
      ground (
        arith,
        relax_levels-levels order current ys next x,
        e.same_iff x y,
        e.same_iff y x,
        e.same_iff current y,
        e.same_iff y current,
      )

  -- The greatest `level + 1` over the dependencies that are done.
  abbrev pub sup : (A → ℕ) → List A → List A → ℕ
  sup levels out [] = 0
  sup levels out (d ∷ ds) = max (if contains d out then levels d + 1 else 0) (sup levels out ds)

  -- Behind each dependency in the list stands each node that depends on it.
  abbrev pub IsTopological : List (Entry A) → List A → Type 0
  IsTopological ns order =
      (x y : A)
      → contains y order ≡ true
      → contains x (deps_of ns y) ≡ true
      → (contains x order ≡ true) × (index_of x order < index_of y order)

  pub record Good (ns : List (Entry A)) (w : Work A) : Type 0 where
    pub inv : Inv ns w.frontier w.order
    pub ordered : IsTopological ns w.order
    pub level : (y : A) → w.levels y ≡ sup w.levels w.order (deps_of ns y)

  All-contains_out :
      (x : A) (out ds : List A)
      → All (λ d. contains d out ≡ true) ds
      → contains x ds ≡ true
      → contains x out ≡ true
  All-contains_out x out [] a h = absurd (ground arith)
  All-contains_out x out (d ∷ ds) a h =
      ground (arith, All-contains_out x out ds a.1, a.0, e.same_iff d x)

module _ {A : Type 0} ⦃e : Equality A⦄ (ns : List (Entry A)) (distinct : IsDistinct (ids ns))
    (w : Work A) (rest : List A) (current : A) (taken : w.frontier.ready ≡ current ∷ rest)
    (good : Good ns w) where
  after : Work A
  after = visit ns current rest w

  after-order : after.order ≡ w.order ++ current ∷ []
  unfolding after
  after-order = relax_levels-order _ _ _ _

  fresh : count current w.order ≡ 0
  fresh = current_is_new ns distinct w.frontier w.order rest current taken good.inv

  visit-ordered : IsTopological ns (w.order ++ current ∷ [])
  visit-ordered x y at_y at_x = elim (contains-snoc_cases y current w.order at_y) [
    | inl old ↦ ground (
      arith,
      good.ordered x y old at_x,
      contains-append_left x w.order (current ∷ []),
      index_of-append x w.order (current ∷ []),
      index_of-append y w.order (current ∷ []),
    )
    | inr same ↦
        let at_current : contains x (deps_of ns current) ≡ true = rw same at_x in
        let old =
          All-contains_out x w.order (deps_of ns current)
            (pending_zero w.order (deps_of ns current)
              (current_is_free ns distinct w.frontier w.order rest current taken good.inv))
            at_current in
        rw (← same) (
          ground (
            arith,
            old,
            contains-append_left x w.order (current ∷ []),
            index_of-append x w.order (current ∷ []),
            index_of-snoc current w.order fresh,
          ))
  ]

  free : pending w.order (deps_of ns current) ≡ 0
  free = current_is_free ns distinct w.frontier w.order rest current taken good.inv

  mentioned : (y : A) → count y (mentions ns current) ≡ count current (deps_of ns y)
  mentioned = count-mentions ns distinct w.frontier w.order rest current taken good.inv

  not_own_dependency : contains current (deps_of ns current) ≡ false
  not_own_dependency = ground (
    arith,
    fresh,
    contains-count current w.order,
    All-contains_out current w.order (deps_of ns current) (pending_zero _ _ free),
  )

  level_after :
      (y : A)
      → after.levels y ≡ (
          if contains current (deps_of ns y)
          then max (w.levels y) (w.levels current + 1)
          else w.levels y)
  unfolding after
  level_after y = ground (
    arith,
    relax_levels-levels (ids ns) current (mentions ns current) (take_current current rest w) y,
    mentioned y,
    mentioned current,
    not_own_dependency,
    contains-count current (deps_of ns current),
    count-contains current (deps_of ns current),
    contains-count current (deps_of ns y),
    count-contains current (deps_of ns y),
    contains-count y (mentions ns current),
    count-contains y (mentions ns current),
  )

  kept_level : (x : A) → contains x w.order ≡ true → after.levels x ≡ w.levels x
  kept_level x done =
      ground
        (arith, level_after x, fresh, contains-count current w.order, good.ordered current x done)

  sup_after :
      (ds : List A)
      → sup after.levels (w.order ++ current ∷ []) ds
        ≡ max (sup w.levels w.order ds) (if contains current ds then w.levels current + 1 else 0)
  sup_after [] = omega arith
  sup_after (d ∷ ds) = elim (Bool-cases (current == d)) [
    | inl same ↦ ground (
      arith,
      sup_after ds,
      contains-snoc d current w.order,
      e.same_iff d current,
      e.same_iff current d,
      level_after current,
      not_own_dependency,
      fresh,
      contains-count current w.order,
    )
    | inr other ↦ ground (
      arith,
      sup_after ds,
      contains-snoc d current w.order,
      e.same_iff d current,
      e.same_iff current d,
      kept_level d,
    )
  ]

  level_sup : (y : A) → after.levels y ≡ sup after.levels (w.order ++ current ∷ []) (deps_of ns y)
  level_sup y = ground (arith, level_after y, sup_after (deps_of ns y), good.level y)

  after-Inv : Inv ns after.frontier (w.order ++ current ∷ [])
  unfolding after
  after-Inv =
      rw relax_levels-frontier
        (round-Inv ns distinct w.frontier w.order rest current taken good.inv)

  pub visit-Good : Good ns (visit ns current rest w)
  unfolding after
  visit-Good = record {
    inv = rw after-order after-Inv;
    ordered = rw after-order visit-ordered;
    level = λ y. rw after-order (level_sup y);
  }
