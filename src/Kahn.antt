-- ===== src/Kahn.antt =====
-- Kahn's algorithm as src/core/collaboration-dag-validation.ts runs it twice: to detect a cycle
-- (lines 308-342) and to plan (lines 371-418). Node ids are any type with `===`.
pub mod Relax
pub mod Invariant
pub mod Positions
pub mod Visit
pub mod Loop
pub mod Cycles
use agent_chatgpt_bridge.Common.{
  ℕ, zero, suc, ◌+◌, ◌-◌, Bool, List, [], ◌∷◌, ◌++◌, Equality, ◌==◌, if◌then◌else◌, leb, eqb,
  contains, length, map, max,
}

-- What the loops read of a node: `id`, `dependsOn.length` and the items of `dependsOn`.
pub record Entry (A : Type 0) : Type 0 where
  pub id : A
  pub size : ℕ
  pub deps : List A

-- The mutable state of the cycle check: the sorted queue `ready` and the map `indegree`.
pub record Frontier (A : Type 0) : Type 0 where
  pub ready : List A
  pub indegree : A → ℕ

abbrev pub ids : {A : Type 0} → List (Entry A) → List A
ids entries = map (λ n. n.id) entries

module _ {A : Type 0} ⦃e : Equality A⦄ where
  -- `declarationIndex.get(id)`
  unfoldable pub index_of : A → List A → ℕ
  index_of a [] = 0
  index_of a (x ∷ xs) = if x == a then 0 else suc (index_of a xs)

  -- `compare(a, b) <= 0`. Two ids have one declaration index only if they are one id, where
  -- `localeCompare` gives 0 too.
  abbrev pub in_order : List A → A → A → Bool
  in_order order a b = leb (index_of a order) (index_of b order)

  abbrev pub insert_sorted : List A → A → List A → List A
  insert_sorted order a [] = a ∷ []
  insert_sorted order a (x ∷ xs) =
      if in_order order a x then a ∷ x ∷ xs else x ∷ insert_sorted order a xs

  -- `list.sort(compare)`, which is stable.
  abbrev pub sort : List A → List A → List A
  sort order [] = []
  sort order (x ∷ xs) = insert_sorted order x (sort order xs)

  -- What one node pushes onto `dependents.get(x)`: its id once for each mention of `x`.
  abbrev pub links : A → A → List A → List A
  links x id [] = []
  links x id (d ∷ ds) = (if d == x then id ∷ [] else []) ++ links x id ds

  -- `dependents.get(x)`, in the order of the pushes.
  abbrev pub dependents : List (Entry A) → A → List A
  dependents [] x = []
  dependents (n ∷ ns) x = links x n.id n.deps ++ dependents ns x

  -- `indegree.get(id)` after the first loop over the nodes.
  abbrev pub initial_indegree : List (Entry A) → A → ℕ
  initial_indegree [] a = 0
  initial_indegree (n ∷ ns) a = if n.id == a then n.size else initial_indegree ns a

  -- `dependents.get(current)` in the order in which the inner loop walks it.
  abbrev pub mentions : List (Entry A) → A → List A
  mentions entries current = sort (ids entries) (dependents entries current)

  abbrev pub update {κ} : {B : Type κ} → (A → B) → A → B → A → B
  update f a b x = if x == a then b else f x

  -- `nodes.filter(node => indegree.get(node.id) === 0).map(node => node.id)`
  abbrev pub roots : (A → ℕ) → List A → List A
  roots indegree [] = []
  roots indegree (a ∷ as') = (if eqb (indegree a) 0 then a ∷ [] else []) ++ roots indegree as'

  -- The body of the inner loop. `next === 0` is `indegree === 1`: below 0 the test fails too.
  unfoldable pub decrement : List A → A → Frontier A → Frontier A
  decrement order y f = record {
    ready = if eqb (f.indegree y) 1 then sort order (f.ready ++ y ∷ []) else f.ready;
    indegree = update f.indegree y (f.indegree y - 1);
  }

  -- `for (const dependent of nextIds) { ... }`
  unfoldable pub relax : List A → List A → Frontier A → Frontier A
  relax order [] f = f
  relax order (y ∷ ys) f = relax order ys (decrement order y f)

  unfoldable pub start : List (Entry A) → Frontier A
  start entries =
      let indegree = initial_indegree entries in
      record { ready = sort (ids entries) (roots indegree (ids entries)); indegree = indegree }

  -- The `while (ready.length > 0)` loop of the validator; it counts what it takes from `ready`.
  unfoldable pub drain : List (Entry A) → ℕ → Frontier A → ℕ → ℕ
  drain entries zero f processed = processed
  drain entries (suc fuel) f processed = elim (f.ready) [
    | [] ↦ processed
    | current ∷ rest ↦
        drain entries fuel
          (relax (ids entries) (mentions entries current) (record f { ready = rest }))
          (processed + 1)
  ]

  -- `processed` when the loop ends.
  unfoldable pub processed : List (Entry A) → ℕ
  processed entries = drain entries (length entries) (start entries) 0

-- The planner's state: the frontier (`ready`, `workIndegree`), `levels` and `topologicalOrder`.
pub record Work (A : Type 0) : Type 0 where
  pub frontier : Frontier A
  pub levels : A → ℕ
  pub order : List A

module _ {A : Type 0} ⦃e : Equality A⦄ where
  -- The planner's inner loop: `levels.set(...)`, then the same steps as the validator's.
  unfoldable pub relax_levels : List A → A → List A → Work A → Work A
  relax_levels order current [] w = w
  relax_levels order current (y ∷ ys) w = relax_levels order current ys (record w {
    levels = update w.levels y (max (w.levels y) (w.levels current + 1));
    frontier = decrement order y w.frontier;
  })

  -- `ready.shift()` and `topologicalOrder.push(current)`.
  abbrev pub take_current : A → List A → Work A → Work A
  take_current current rest w = record w {
    frontier = record { ready = rest; indegree = w.frontier.indegree };
    order = w.order ++ current ∷ [];
  }

  abbrev pub visit : List (Entry A) → A → List A → Work A → Work A
  visit entries current rest w =
      relax_levels (ids entries) current (mentions entries current) (take_current current rest w)

  -- The planner's `while (ready.length > 0)` loop.
  unfoldable pub plan_loop : List (Entry A) → ℕ → Work A → Work A
  plan_loop entries zero w = w
  plan_loop entries (suc fuel) w = elim (w.frontier.ready) [
    | [] ↦ w
    | current ∷ rest ↦ plan_loop entries fuel (visit entries current rest w)
  ]

  unfoldable pub plan : List (Entry A) → Work A
  plan entries =
      plan_loop entries (length entries)
        (record { frontier = start entries; levels = λ _. 0; order = [] })
