-- ===== src/CollaborationDag/Planning/Graph.antt =====
-- From the entries of the loops back to the nodes of the graph.
use agent_chatgpt_bridge.Common.{
  ◌≡◌, refl, true, List, [], ◌∷◌, map, ◌==◌, list_equality, number_equality, list_beq_iff, contains,
  arith, All, IsDistinct, contains-count, beq_self, Bool-cases, inl, inr, subst,
}
use agent_chatgpt_bridge.Common.{All-map, All-both}
use agent_chatgpt_bridge.Js.{Text}
use agent_chatgpt_bridge.Kahn.Invariant.{Sized, deps_of}
use agent_chatgpt_bridge.CollaborationDag.{CollaborationDagNodeDefinition}
use agent_chatgpt_bridge.CollaborationDag.Planning.{entry}
use agent_chatgpt_bridge.CollaborationDag.Planning.Encoding.{node_ids}

abbrev pub Nodes : Type 0
Nodes = List CollaborationDagNodeDefinition

pub All-contains {κ} :
    (P : Text → Type κ) (xs : List Text) → ((x : Text) → contains x xs ≡ true → P x) → All P xs
All-contains P [] f = tt
All-contains P (x ∷ xs) f =
    (f x (ground (arith, beq_self x)), All-contains P xs (λ y at. f y (ground arith)))

pub All-named : (ns : Nodes) → All (λ n. contains n.id (node_ids ns) ≡ true) ns
All-named [] = tt
All-named (n ∷ ns) = (
  ground (arith, beq_self n.id),
  All-map (λ m. contains m.id (node_ids ns) ≡ true) (λ m. contains m.id (node_ids (n ∷ ns)) ≡ true)
      ns (λ m h. ground arith) (All-named ns),
)

-- With distinct ids a node's entry has the node's own dependencies.
pub All-deps_of :
    (ns : Nodes)
    → IsDistinct (node_ids ns)
    → All (λ n. deps_of (map entry ns) n.id ≡ n.depends_on) ns
All-deps_of [] d = tt
All-deps_of (n ∷ ns) d = (
  ground (arith, beq_self n.id),
  All-map (λ m. (deps_of (map entry ns) m.id ≡ m.depends_on) × (contains m.id (node_ids ns) ≡ true))
      (λ m. deps_of (map entry (n ∷ ns)) m.id ≡ m.depends_on) ns
      (λ m h.
        ground (arith, h.0, h.1, d m.id, contains-count m.id (node_ids ns), list_beq_iff n.id m.id))
      (All-both (λ m. deps_of (map entry ns) m.id ≡ m.depends_on)
        (λ m. contains m.id (node_ids ns) ≡ true) ns (All-deps_of ns (λ a. omega (arith, d a)))
        (All-named ns)),
)

pub entries-Sized : (ns : Nodes) → Sized (map entry ns)
entries-Sized [] = tt
entries-Sized (n ∷ ns) = (refl, entries-Sized ns)

contains_of_All :
    (P : Text → Type 0) (ds : List Text) (x : Text) → All P ds → contains x ds ≡ true → P x
contains_of_All P [] x h at = absurd (ground arith)
contains_of_All P (d ∷ ds) x h at = elim (Bool-cases (d == x)) [
  | inl same ↦ subst P ((list_beq_iff d x).0 same) (h.0)
  | inr other ↦ contains_of_All P ds x h.1 (ground arith)
]

-- A property of all dependencies of all nodes, by a node's id.
pub deps_of_All :
    (P : Text → Text → Type 0) (ns : Nodes) (x y : Text)
    → All (λ n. All (λ d. P d n.id) n.depends_on) ns
    → contains x (deps_of (map entry ns) y) ≡ true
    → P x y
deps_of_All P [] x y h at = absurd (ground arith)
deps_of_All P (n ∷ ns) x y h at = elim (Bool-cases (n.id == y)) [
  | inl same ↦
      contains_of_All (λ d. P d y) n.depends_on x
        (subst (λ i. All (λ d. P d i) n.depends_on) ((list_beq_iff n.id y).0 same) (h.0))
        (rw same at at)
  | inr other ↦ deps_of_All P ns x y h.1 (rw other at at)
]

-- The other way round.
pub All-deps :
    (P : Text → Text → Type 0) (ns : Nodes)
    → IsDistinct (node_ids ns)
    → ((x y : Text) → contains x (deps_of (map entry ns) y) ≡ true → P x y)
    → All (λ n. All (λ d. P d n.id) n.depends_on) ns
All-deps P ns distinct f =
    All-map (λ n. deps_of (map entry ns) n.id ≡ n.depends_on)
      (λ n. All (λ d. P d n.id) n.depends_on) ns
      (λ n same. All-contains (λ d. P d n.id) n.depends_on (λ x at. f x n.id (rw same at)))
      (All-deps_of ns distinct)
