-- ===== src/DagScheduler/Samples.antt =====
-- A small plan, and runs of the scheduler on it.
use agent_chatgpt_bridge.Common.{
  ℕ, ◌≤◌, ◌≡◌, refl, true, false, List, [], ◌∷◌, none, some, Option, Bool, map, String, length,
  IsDistinct, All, contains, list_equality, number_equality, ◌==◌, if◌then◌else◌, subst, sym, arith,
  list_beq_iff,
}
use agent_chatgpt_bridge.Js.{Text, codes}
use agent_chatgpt_bridge.Js.Number.{nat}
use agent_chatgpt_bridge.CollaborationDag.Limits
use agent_chatgpt_bridge.CollaborationDag.{
  CollaborationDagExecutionPlan, CollaborationDagPlannedNode, fail_fast, skip_dependents, pending,
  running, completed, status_beq, is_terminal_status, is_valid_transition, dag_node_transitions,
}
use agent_chatgpt_bridge.DagScheduler.{
  Phase, state_of, waiting, finished, thrown, SchedulerError, dag_cancelled, Settled, ok, error,
  Event, abort, settle, Status, keys, values, transition, settle_as, cancel_remaining, mark_ready,
  dispatch, verdict, fill, round,
}
use agent_chatgpt_bridge.DagScheduler.Moves.{
  release_entry, release, complete, skip_loop, skip_all, on_failure, drain_siblings, fail,
  after_error, on_settled, step, run_from, load, run_with, run_bounded_collaboration_dag,
}
use agent_chatgpt_bridge.Common.{if-both, leb→le}
use agent_chatgpt_bridge.DagScheduler.{is_open, dependents_in}
use agent_chatgpt_bridge.DagScheduler.Ends.{skip_loop-ends}
use agent_chatgpt_bridge.Common.{◌⊎◌}
use agent_chatgpt_bridge.CollaborationDag.{skipped}
use agent_chatgpt_bridge.DagScheduler.Skips.{DependsOn}
use agent_chatgpt_bridge.DagScheduler.Spares.{skip_all-DependsOn}
use agent_chatgpt_bridge.DagScheduler.Bounds.{run_bounded_collaboration_dag_parallelism}
use agent_chatgpt_bridge.DagScheduler.Order.{is_started, IsLegal}
use agent_chatgpt_bridge.DagScheduler.Ordered.{deps_of}
use agent_chatgpt_bridge.DagScheduler.Resume.{IsResumable, run_bounded_collaboration_dag_order}

abbrev node : String → String → List String → List String → CollaborationDagPlannedNode
node id participant deps dependents = record {
  id = codes id;
  participant_id = codes participant;
  instruction = codes "do it";
  depends_on = map codes deps;
  dependents = map codes dependents;
  declaration_index = 0;
  indegree = length deps;
  topological_level = 0;
  terminal = false;
  retry_limit = nat 0;
  timeout_ms = none;
}

-- c and d depend on a, and e on b; a and d speak for p1, b and e for p2, c for p3.
abbrev plan : CollaborationDagExecutionPlan
plan = record {
  edge_count = 3;
  root_node_ids = map codes ("a" ∷ "b" ∷ []);
  sink_node_ids = map codes ("c" ∷ "d" ∷ "e" ∷ []);
  node_ids = map codes ("a" ∷ "b" ∷ "c" ∷ "d" ∷ "e" ∷ []);
  topological_order = map codes ("a" ∷ "b" ∷ "c" ∷ "d" ∷ "e" ∷ []);
  nodes_by_id =
      (codes "a", node "a" "p1" [] ("c" ∷ "d" ∷ []))
      ∷ (codes "b", node "b" "p2" [] ("e" ∷ []))
      ∷ (codes "c", node "c" "p3" ("a" ∷ []) [])
      ∷ (codes "d", node "d" "p1" ("a" ∷ []) [])
      ∷ (codes "e", node "e" "p2" ("b" ∷ []) [])
      ∷ [];
}

program : Unit {0}
unfolding transition settle_as cancel_remaining mark_ready dispatch verdict fill round release_entry
    release complete skip_loop skip_all on_failure drain_siblings fail after_error on_settled step
    run_from load run_with run_bounded_collaboration_dag is_terminal_status is_valid_transition
    dag_node_transitions
program = tt

abbrev fresh : Text → Status
fresh _ = pending

abbrev all_end : Settled ℕ → Text → Settled ℕ
all_end r _ = r

-- b fails, then the others succeed.
abbrev events : List (Event ℕ)
events =
    settle (codes "b") error (all_end error)
    ∷ settle (codes "a") (ok 1) (all_end error)
    ∷ settle (codes "d") (ok 2) (all_end error)
    ∷ settle (codes "c") (ok 3) (all_end error)
    ∷ []

abbrev run : List (Event ℕ) → Phase ℕ
run es = run_bounded_collaboration_dag plan (nat 2) skip_dependents fresh false es

run_dispatch : (state_of (run events)).dispatch_order ≡ map codes ("a" ∷ "b" ∷ "c" ∷ "d" ∷ [])
unfolding program
run_dispatch = refl

run_skipped : (state_of (run events)).skipped_node_ids ≡ codes "e" ∷ []
unfolding program
run_skipped = refl

-- How a run ends.
abbrev error_of : Phase ℕ → Option SchedulerError
error_of (waiting s) = none
error_of (finished s) = none
error_of (thrown e s) = some e

abbrev is_finished : Phase ℕ → Bool
is_finished (finished s) = true
is_finished _ = false

run_finished : is_finished (run events) ≡ true
unfolding program
run_finished = refl

-- After an abort the running nodes end; nothing else starts.
run_aborted :
    error_of (
      run (
        abort
        ∷ settle (codes "a") (ok 1) (all_end error)
        ∷ settle (codes "b") (ok 1) (all_end error)
        ∷ []))
    ≡ some dag_cancelled
unfolding program
run_aborted = refl

-- a has been completed before.
abbrev resumed : Text → Status
resumed id = if id == codes "a" then completed else pending

resumed-completed : (x : Text) → is_started (resumed x) ≡ true → x ≡ codes "a"
resumed-completed x h = ground (arith, h, list_beq_iff x (codes "a"))

resumed-IsResumable : IsResumable plan resumed
resumed-IsResumable = record {
  idle = λ x.
      if-both (λ st. status_beq st running ≡ false) (x == codes "a") _ _ (λ h. refl) (λ h. refl);
  met = λ x h.
      subst
        (λ y.
          All (λ d. (contains d plan.node_ids ≡ true) × (status_beq (resumed d) completed ≡ true))
            (deps_of plan y))
        (sym (resumed-completed x h)) tt;
}

run_bounded_collaboration_dag_parallelism_example :
    let s = state_of (run events) in
    (length s.active ≤ 2)
    × (length s.active ≤ Limits.max_parallel_turns)
    × IsDistinct (values s.active)
    × (s.max_observed_parallelism ≤ 2)
run_bounded_collaboration_dag_parallelism_example =
    run_bounded_collaboration_dag_parallelism plan (nat 2) 2 skip_dependents fresh false events refl

run_bounded_collaboration_dag_order_example :
    let s = state_of (run_bounded_collaboration_dag plan (nat 3) fail_fast resumed false events) in
    ((x : Text)
      → is_started (s.statuses x) ≡ true
      → All (λ d. status_beq (s.statuses d) completed ≡ true) (deps_of plan x))
    × ((x : Text) → contains x (keys s.active) ≡ true → status_beq (s.statuses x) running ≡ true)
    × All IsLegal s.transitions
run_bounded_collaboration_dag_order_example =
    run_bounded_collaboration_dag_order plan (nat 3) fail_fast resumed false events
      resumed-IsResumable

skip_all-DependsOn_example :
    let s = state_of (run []) in
    let s' = skip_all plan (codes "a") s in
    ((x : Text) → DependsOn plan (codes "a") x → is_open (s'.statuses x) ≡ false)
    × ((x : Text)
        → (s'.statuses x ≡ s.statuses x)
          ⊎ (DependsOn plan (codes "a") x
              × (is_open (s.statuses x) ≡ true)
              × (s'.statuses x ≡ skipped)))
skip_all-DependsOn_example = skip_all-DependsOn plan (codes "a") (state_of (run []))

-- The plan's walk from `a`, with more fuel than it needs.
skip_loop-ends_example :
    skip_loop plan 100 (dependents_in plan.nodes_by_id (codes "a")) [] (state_of (run []))
    ≡ ([], skip_all plan (codes "a") (state_of (run [])))
skip_loop-ends_example = skip_loop-ends plan (codes "a") (state_of (run [])) 100 (leb→le _ _ refl)
