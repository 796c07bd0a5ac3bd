-- ===== src/CollaborationDag/Validation/Codes.antt =====
-- Which codes the parts of the validator can report.
use agent_chatgpt_bridge.Common.{
  ℕ, ◌+◌, ◌≡◌, refl, Bool, true, false, not, ◌&&◌, ◌||◌, List, [], ◌∷◌, ◌++◌, Option, arith, All,
  Bool-cases, inl, inr,
}
use agent_chatgpt_bridge.Js.{
  Text, Value, undefined, bool, num, str, arr, property, is_object, to_list,
}
use agent_chatgpt_bridge.CollaborationDag.{CollaborationDagBudget}
use agent_chatgpt_bridge.CollaborationDag.Issues.{
  IssueCode, Issue, is_structural, pushes, has_structural,
}
use agent_chatgpt_bridge.CollaborationDag.Validation.{
  Options, check_id, check_participant, check_instruction, check_dependencies, check_terminal,
  check_retry_limit, check_timeout, validate_node, scan_nodes, scan_dependencies, scan_edges,
  gather, edges_of, add_to, see, check_duplicate,
}

abbrev pub all_codes : (IssueCode → Bool) → List Issue → Bool
all_codes p [] = true
all_codes p (i ∷ is) = p i.code && all_codes p is

pub all_codes-append :
    (p : IssueCode → Bool) (xs ys : List Issue)
    → all_codes p xs ≡ true
    → all_codes p ys ≡ true
    → all_codes p (xs ++ ys) ≡ true
all_codes-append p [] ys hx hy = hy
all_codes-append p (x ∷ xs) ys hx hy = ground (arith, all_codes-append p xs ys)

abbrev pub is_cycle : IssueCode → Bool
is_cycle IssueCode.collaboration_dag_cycle = true
is_cycle _ = false

abbrev pub has_cycle : List Issue → Bool
has_cycle [] = false
has_cycle (i ∷ is) = is_cycle i.code || has_cycle is

pub has_cycle-append : (xs ys : List Issue) → has_cycle (xs ++ ys) ≡ (has_cycle xs || has_cycle ys)
has_cycle-append [] ys = refl
has_cycle-append (x ∷ xs) ys = ground (arith, has_cycle-append xs ys)

-- The codes of one node on its own.
abbrev pub is_plain : IssueCode → Bool
is_plain c = not (is_structural c) && not (is_cycle c)

pub plain_parts :
    (is : List Issue)
    → all_codes is_plain is ≡ true
    → (has_structural is ≡ false) × (has_cycle is ≡ false)
unfolding has_structural
plain_parts [] h = (refl, refl)
plain_parts (i ∷ is) h = ground (arith, plain_parts is)

check_id-plain : (index : ℕ) (v : Value) → all_codes is_plain (check_id index v) ≡ true
unfolding check_id
check_id-plain index (str t) = ground arith
check_id-plain index _ = refl

check_participant-plain :
    (index : ℕ) (known : Option (List Text)) (v : Value)
    → all_codes is_plain (check_participant index known v) ≡ true
unfolding check_participant
check_participant-plain index known (str t) = ground arith
check_participant-plain index known _ = refl

check_instruction-plain :
    (index : ℕ) (v : Value) → all_codes is_plain (check_instruction index v) ≡ true
unfolding check_instruction
check_instruction-plain index (str t) = ground arith
check_instruction-plain index _ = refl

check_dependencies-plain :
    (index : ℕ) (v : Value) → all_codes is_plain (check_dependencies index v) ≡ true
unfolding check_dependencies
check_dependencies-plain index (arr vs) = refl
check_dependencies-plain index _ = refl

check_terminal-plain : (index : ℕ) (v : Value) → all_codes is_plain (check_terminal index v) ≡ true
unfolding check_terminal
check_terminal-plain index undefined = refl
check_terminal-plain index (bool b) = refl
check_terminal-plain index _ = refl

check_retry_limit-plain :
    (index : ℕ) (budget : Option CollaborationDagBudget) (v : Value)
    → all_codes is_plain (check_retry_limit index budget v) ≡ true
unfolding check_retry_limit
check_retry_limit-plain index budget undefined = refl
check_retry_limit-plain index budget (num n) = ground arith
check_retry_limit-plain index budget _ = refl

check_timeout-plain :
    (index : ℕ) (budget : Option CollaborationDagBudget) (v : Value)
    → all_codes is_plain (check_timeout index budget v) ≡ true
unfolding check_timeout
check_timeout-plain index budget undefined = refl
check_timeout-plain index budget (num n) = ground arith
check_timeout-plain index budget _ = refl

all_codes-pushes :
    (p : IssueCode → Bool) (xss : List (List Issue))
    → All (λ xs. all_codes p xs ≡ true) xss
    → all_codes p (pushes xss) ≡ true
unfolding pushes
all_codes-pushes p [] h = refl
all_codes-pushes p (xs ∷ rest) h =
    all_codes-append p xs (pushes rest) h.0 (all_codes-pushes p rest h.1)

has_cycle-pushes :
    (xss : List (List Issue))
    → All (λ xs. has_cycle xs ≡ false) xss
    → has_cycle (pushes xss) ≡ false
unfolding pushes
has_cycle-pushes [] h = refl
has_cycle-pushes (xs ∷ rest) h =
    ground (arith, has_cycle-append xs (pushes rest), h.0, has_cycle-pushes rest h.1)

ruleset plain_rules = (
  all_codes-pushes, check_id-plain, check_participant-plain, check_instruction-plain,
  check_dependencies-plain, check_terminal-plain, check_retry_limit-plain, check_timeout-plain,
)

-- No complaint about one node alone keeps the cycle check from running.
pub validate_node-plain :
    (options : Options) (index : ℕ) (n : Value)
    → all_codes is_plain (validate_node options index n) ≡ true
unfolding validate_node
validate_node-plain options index n = elim (Bool-cases (is_object n)) [
  | inl object ↦ rw object (search plain_rules depth 9)
  | inr other ↦ rw other
]

check_duplicate-no_cycle :
    (index : ℕ) (seen : List Text) (v : Value) → has_cycle (check_duplicate index seen v) ≡ false
check_duplicate-no_cycle index seen (str t) = ground arith
check_duplicate-no_cycle index seen _ = refl

scan_nodes-no_cycle :
    (options : Options) (index : ℕ) (seen : List Text) (ns : List Value)
    → has_cycle (scan_nodes options index seen ns).0 ≡ false
unfolding scan_nodes
scan_nodes-no_cycle options index seen [] = refl
scan_nodes-no_cycle options index seen (n ∷ ns) =
    let id = property "id" n in
    let node_issues = validate_node options index n in
    let plain = plain_parts node_issues (validate_node-plain options index n) in
    has_cycle-pushes (node_issues ∷ check_duplicate index seen id ∷ _ ∷ []) (
      plain.1,
      (
        check_duplicate-no_cycle index seen id,
        (scan_nodes-no_cycle options (index + 1) (see seen id) ns, tt),
      ),
    )

scan_dependencies-no_cycle :
    (index : ℕ) (own : Value) (seen : List Text) (j : ℕ) (local : List Text) (ds : List Value)
    → has_cycle (scan_dependencies index own seen j local ds) ≡ false
unfolding scan_dependencies
scan_dependencies-no_cycle index own seen j local [] = refl
scan_dependencies-no_cycle index own seen j local (str d ∷ ds) = ground (
  arith,
  scan_dependencies-no_cycle index own seen (j + 1) local ds,
  scan_dependencies-no_cycle index own seen (j + 1) (add_to d local) ds,
)
scan_dependencies-no_cycle index own seen j local (_ ∷ ds) =
    scan_dependencies-no_cycle index own seen (j + 1) local ds

scan_edges-no_cycle :
    (seen : List Text) (index : ℕ) (ns : List Value)
    → has_cycle (scan_edges seen index ns).0 ≡ false
unfolding scan_edges
scan_edges-no_cycle seen index [] = refl
scan_edges-no_cycle seen index (n ∷ ns) =
    go (property "dependsOn" n) (scan_edges-no_cycle seen (index + 1) ns)
  where
    rest : List Issue × ℕ
    rest = scan_edges seen (index + 1) ns

    go :
        (v : Value)
        → has_cycle rest.0 ≡ false
        → has_cycle (edges_of index (property "id" n) seen v rest).0 ≡ false
    go (arr deps) h = ground (
      arith,
      h,
      has_cycle-append (scan_dependencies index (property "id" n) seen 0 [] (to_list deps)) rest.0,
      scan_dependencies-no_cycle index (property "id" n) seen 0 [] (to_list deps),
    )
    go _ h = h

-- The two loops never report a cycle.
pub gather-no_cycle :
    (options : Options) (ns : List Value) → has_cycle (gather options [] ns).0 ≡ false
unfolding gather
gather-no_cycle options ns =
    let seen = (scan_nodes options 0 [] ns).1 in
    has_cycle-pushes _ (
      refl,
      (
        ground arith,
        (
          ground arith,
          (
            scan_nodes-no_cycle options 0 [] ns,
            (scan_edges-no_cycle seen 0 ns, (ground arith, tt)),
          ),
        ),
      ),
    )
