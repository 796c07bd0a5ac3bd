-- ===== src/CollaborationDag/Planning/Encoding.antt =====
-- What the validators find in a typed graph.
use agent_chatgpt_bridge.Common.{
  ℕ, suc, ◌+◌, ◌≡◌, refl, sym, ◌∙◌, ap, true, false, List, [], ◌∷◌, ◌++◌, some, map, list_equality,
  number_equality, list_beq_iff, length, contains, count-append, arith, All, IsDistinct,
  count-contains,
}
use mathlib.Core.List.{append-nil, append_assoc}
use agent_chatgpt_bridge.Js.{Text, Value, str, to_list, from_list}
use agent_chatgpt_bridge.Kahn
use agent_chatgpt_bridge.CollaborationDag.{CollaborationDagNodeDefinition}
use agent_chatgpt_bridge.CollaborationDag.Issues.{
  Issue, has_structural, has_structural-append, pushes_sound,
}
use agent_chatgpt_bridge.CollaborationDag.Validation.{
  Options, scan_nodes, scan_dependencies, scan_edges, known_dependencies, read_nodes, add_to,
  check_duplicate,
}
use agent_chatgpt_bridge.CollaborationDag.Planning.{node_value, entry, edge_sum}

pub to_list-from_list : (vs : List Value) → to_list (from_list vs) ≡ vs
to_list-from_list [] = refl
to_list-from_list (v ∷ vs) = ap (λ (l : List Value). v ∷ l) (to_list-from_list vs)

pub length-strs : (ds : List Text) → length (map str ds) ≡ length ds
length-strs [] = refl
length-strs (d ∷ ds) = ap suc (length-strs ds)

pub length-nodes :
    (ns : List CollaborationDagNodeDefinition) → length (map node_value ns) ≡ length ns
length-nodes [] = refl
length-nodes (n ∷ ns) = ap suc (length-nodes ns)

pub no_structural :
    (xs ys : List Issue)
    → has_structural (xs ++ ys) ≡ false
    → (has_structural xs ≡ false) × (has_structural ys ≡ false)
no_structural xs ys h = ground (arith, has_structural-append xs ys)

-- The ids that a loop over the nodes ends with, if none is there twice.
abbrev pub node_ids : List CollaborationDagNodeDefinition → List Text
node_ids ns = Kahn.ids (map entry ns)

pub length-node_ids : (ns : List CollaborationDagNodeDefinition) → length (node_ids ns) ≡ length ns
length-node_ids [] = refl
length-node_ids (n ∷ ns) = ap suc (length-node_ids ns)

record Known (seen : List Text) (deps : List Text) : Type 0 where
  read : known_dependencies seen (map str deps) ≡ some deps
  all : All (λ d. contains d seen ≡ true) deps

scan_dependencies-Known :
    (index : ℕ) (own : Value) (seen : List Text) (j : ℕ) (local deps : List Text)
    → has_structural (scan_dependencies index own seen j local (map str deps)) ≡ false
    → Known seen deps
unfolding scan_dependencies has_structural
scan_dependencies-Known index own seen j local [] h = record { read = refl; all = tt }
scan_dependencies-Known index own seen j local (d ∷ ds) h =
    let found : contains d seen ≡ true = ground arith in
    let rest = scan_dependencies-Known index own seen (j + 1) (add_to d local) ds (ground arith) in
    record { read = rw (found, rest.read); all = (found, rest.all) }

pub record Closed (seen : List Text) (ns : List CollaborationDagNodeDefinition) : Type 0 where
  pub read : read_nodes seen (map node_value ns) ≡ some (map entry ns)
  pub all : All (λ n. All (λ d. contains d seen ≡ true) n.depends_on) ns

-- Without a structural issue the cycle check can read every node.
pub scan_edges-Closed :
    (seen : List Text) (index : ℕ) (ns : List CollaborationDagNodeDefinition)
    → has_structural (scan_edges seen index (map node_value ns)).0 ≡ false
    → Closed seen ns
unfolding scan_edges has_structural read_nodes
scan_edges-Closed seen index [] h = record { read = refl; all = tt }
scan_edges-Closed seen index (n ∷ ns) h =
    let parts =
      no_structural
        (scan_dependencies index (str n.id) seen 0 [] (to_list (from_list (map str n.depends_on))))
        (scan_edges seen (index + 1) (map node_value ns)).0 h in
    let here =
      scan_dependencies-Known index (str n.id) seen 0 [] n.depends_on
        (rw (to_list-from_list (map str n.depends_on)) at (parts.0)) in
    let rest = scan_edges-Closed seen (index + 1) ns parts.1 in
    record {
      read =
          rw (to_list-from_list (map str n.depends_on), here.read, rest.read, read_nodes)
            (rw (length-strs n.depends_on));
      all = (here.all, rest.all);
    }

pub scan_edges-count :
    (seen : List Text) (index : ℕ) (ns : List CollaborationDagNodeDefinition)
    → (scan_edges seen index (map node_value ns)).1 ≡ edge_sum ns
unfolding scan_edges
scan_edges-count seen index [] = refl
scan_edges-count seen index (n ∷ ns) =
    rw (to_list-from_list (map str n.depends_on), length-strs n.depends_on)
      (ap (λ k. length n.depends_on + k) (scan_edges-count seen (index + 1) ns))

pub record Scanned (seen : List Text) (ns : List CollaborationDagNodeDefinition) (after : List Text)
    : Type 0 where
  pub ids : after ≡ seen ++ node_ids ns
  pub distinct : IsDistinct after

snoc-IsDistinct :
    (id : Text) (seen : List Text)
    → IsDistinct seen
    → contains id seen ≡ false
    → IsDistinct (seen ++ id ∷ [])
snoc-IsDistinct id seen d new a =
    ground (arith, count-append a seen (id ∷ []), d a, count-contains id seen, list_beq_iff id a)

module _ (options : Options) (index : ℕ) (seen : List Text) (n : CollaborationDagNodeDefinition)
    (ns : List CollaborationDagNodeDefinition)
    (h : has_structural (scan_nodes options index seen (map node_value (n ∷ ns))).0 ≡ false) where
  pieces :
      (has_structural (check_duplicate index seen (str n.id)) ≡ false)
      × (has_structural (scan_nodes options (index + 1) (add_to n.id seen) (map node_value ns)).0
          ≡ false)
  unfolding scan_nodes
  pieces = let all = pushes_sound _ h in (all.1.0, all.1.1.0)

  fresh_id : contains n.id seen ≡ false
  unfolding has_structural
  fresh_id = ground (arith, pieces.0)

  rest_unstructured :
      has_structural (scan_nodes options (index + 1) (add_to n.id seen) (map node_value ns)).0
      ≡ false
  rest_unstructured = pieces.1

-- Without a structural issue no id is declared twice.
pub scan_nodes-Scanned :
    (options : Options) (index : ℕ) (seen : List Text) (ns : List CollaborationDagNodeDefinition)
    → IsDistinct seen
    → has_structural (scan_nodes options index seen (map node_value ns)).0 ≡ false
    → Scanned seen ns (scan_nodes options index seen (map node_value ns)).1
unfolding scan_nodes has_structural
scan_nodes-Scanned options index seen [] d h = record { ids = sym (append-nil seen); distinct = d }
scan_nodes-Scanned options index seen (n ∷ ns) d h =
    let new : contains n.id seen ≡ false = fresh_id options index seen n ns h in
    let rest =
      scan_nodes-Scanned options (index + 1) (seen ++ n.id ∷ []) ns
        (snoc-IsDistinct n.id seen d new)
        (rw new at (rest_unstructured options index seen n ns h)) in
    rw (new, scan_nodes)
      (record {
        ids = rest.ids ∙ append_assoc seen (n.id ∷ []) (node_ids ns);
        distinct = rest.distinct;
      })
