-- ===== src/CollaborationDag/Validation/Shape.antt =====
-- What the validator does with a node whose `dependsOn` it cannot iterate.
use agent_chatgpt_bridge.Common.{
  ℕ, ◌≡◌, refl, Bool, true, false, List, [], ◌∷◌, none, arith, sym, ◌≢◌,
}
use agent_chatgpt_bridge.Js.{
  Text, Value, undefined, str, arr, obj, property, is_object, item, end_items,
}
use agent_chatgpt_bridge.CollaborationDag.Issues.{Issue, has_structural, pushes_unstructured}
use agent_chatgpt_bridge.CollaborationDag.Validation.{
  Options, type_error, gather, conclude, check_cycle, scan_nodes, scan_edges, read_nodes, read_node,
  validate_node, validate_nodes, validate_list, version_issues, validate_definition, edges_of,
}
use agent_chatgpt_bridge.CollaborationDag.Validation.Codes.{validate_node-plain, plain_parts}

-- Neither an array nor a string.
abbrev pub is_iterable : Value → Bool
is_iterable (arr vs) = true
is_iterable (str t) = true
is_iterable _ = false

read_node_broken :
    (ids : List Text) (id deps : Value) → is_iterable deps ≡ false → read_node ids id deps ≡ none
read_node_broken ids (str t) (arr vs) h = cc
read_node_broken ids (str t) (str u) h = cc
read_node_broken ids (str t) _ h = refl
read_node_broken ids _ deps h = refl

edges_broken :
    (index : ℕ) (own : Value) (seen : List Text) (deps : Value) (rest : List Issue × ℕ)
    → is_iterable deps ≡ false
    → edges_of index own seen deps rest ≡ rest
edges_broken index own seen (arr vs) rest h = cc
edges_broken index own seen (str t) rest h = cc
edges_broken index own seen _ rest h = refl

has_nodes_is_object : (g vs : Value) → property "nodes" g ≡ vs → vs ≢ undefined → is_object g ≡ true
has_nodes_is_object (arr xs) vs h d = refl
has_nodes_is_object (obj fs) vs h d = refl
has_nodes_is_object _ vs h d = absurd (d (sym h))

module _ (options : Options) (n : Value) (id : Text) (named : property "id" n ≡ str id)
    (broken : is_iterable (property "dependsOn" n) ≡ false) where
  scanned :
      (has_structural (scan_nodes options 0 [] (n ∷ [])).0 ≡ false)
      × ((scan_nodes options 0 [] (n ∷ [])).1 ≡ id ∷ [])
  unfolding scan_nodes has_structural
  scanned =
      let plain = plain_parts (validate_node options 0 n) (validate_node-plain options 0 n) in
      (pushes_unstructured _ (plain.0, (rw named, (refl, tt))), rw named)

  unedged : (seen : List Text) → (scan_edges seen 0 (n ∷ [])) ≡ ([], 0)
  unfolding scan_edges
  unedged seen = edges_broken 0 (property "id" n) seen (property "dependsOn" n) ([], 0) broken

  gathered :
      (issues : List Issue)
      → has_structural issues ≡ false
      → has_structural (gather options issues (n ∷ [])).0 ≡ false
  unfolding gather has_structural
  gathered issues h =
      let edges = unedged (scan_nodes options 0 [] (n ∷ [])).1 in
      pushes_unstructured _
        (h, (ground arith, (ground arith, (scanned.0, (rw edges, (rw edges, tt))))))

  seen_once : (issues : List Issue) → (gather options issues (n ∷ [])).1 ≡ id ∷ []
  unfolding gather
  seen_once issues = scanned.1

  unread : read_nodes (id ∷ []) (n ∷ []) ≡ none
  unfolding read_nodes
  unread =
      let this : read_node (id ∷ []) (property "id" n) (property "dependsOn" n) ≡ none =
        read_node_broken (id ∷ []) (property "id" n) (property "dependsOn" n) broken in
      rw this

  check_throws : check_cycle (id ∷ []) (n ∷ []) ≡ type_error
  unfolding check_cycle
  check_throws = rw (unread, check_cycle)

  concluded :
      (issues : List Issue) (seen : List Text)
      → has_structural issues ≡ false
      → seen ≡ id ∷ []
      → conclude issues seen (n ∷ []) ≡ type_error
  unfolding conclude
  concluded issues seen sound one = rw (sound, one, check_throws)

  nodes_throw :
      (issues : List Issue)
      → has_structural issues ≡ false
      → validate_nodes options issues (n ∷ []) ≡ type_error
  unfolding validate_nodes
  nodes_throw issues sound =
      concluded (gather options issues (n ∷ [])).0 (gather options issues (n ∷ [])).1
        (gathered issues sound) (seen_once issues)

unstructured_version : (g : Value) → has_structural (version_issues g) ≡ false
unfolding has_structural
unstructured_version g = ground arith

-- The validator throws a TypeError, and returns no issues, for every graph with one node whose id
-- is a string and whose `dependsOn` is neither an array nor a string (left out, for example).
pub validate_definition_throws :
    (options : Options) (g n : Value) (id : Text)
    → property "nodes" g ≡ arr (item n end_items)
    → property "id" n ≡ str id
    → is_iterable (property "dependsOn" n) ≡ false
    → validate_definition g options ≡ type_error
unfolding validate_definition
validate_definition_throws options g n id listed named broken =
    rw (has_nodes_is_object g (arr (item n end_items)) listed (λ e. cc), listed, validate_list)
      (nodes_throw options n id named broken (version_issues g) (unstructured_version g))
