-- ===== src/DagScheduler/Ordered.antt =====
-- src/core/collaboration-dag-scheduler.ts: each move of the scheduler keeps the statuses in order.
use agent_chatgpt_bridge.Common.{
  ℕ, ◌≡◌, ◌⊎◌, refl, subst, true, false, List, [], ◌∷◌, ◌++◌, ◌==◌, list_equality, number_equality,
  contains, inl, inr, Option-cases, arith, list_beq_iff,
}
use agent_chatgpt_bridge.Js.{Text}
use agent_chatgpt_bridge.CollaborationDag.{
  CollaborationDagExecutionPlan, ready, running, cancelled, completed, failed, skipped, status_beq,
}
use agent_chatgpt_bridge.DagScheduler.{
  State, add_to, Status, is_open, every_in, depends_on_in, remove_key, keys, participant_of,
  participant_in, transition, settle_as, dispatch, verdict, go,
}
use agent_chatgpt_bridge.DagScheduler.Moves.{release_entry, release, complete, skip_one, fail}
use agent_chatgpt_bridge.CollaborationDag.{is_valid_transition, dag_node_transitions}
use agent_chatgpt_bridge.DagScheduler.{update_status}
use agent_chatgpt_bridge.DagScheduler.Invariant.{Withstands, IsUnderWay}
use agent_chatgpt_bridge.Common.{if-both}
use agent_chatgpt_bridge.DagScheduler.Order.{
  is_started, IsOrdered, IsOrdered-move, open-valid, pending-valid, is_open_end, close-valid,
  running-valid, contains-keys_remove, contains-keys_push, contains-add_to, every_in-add_to,
  remove_key-none,
}

abbrev pub deps_of : CollaborationDagExecutionPlan → Text → List Text
deps_of plan id = depends_on_in plan.nodes_by_id id

module _ {T : Type 0} (plan : CollaborationDagExecutionPlan) where
  unfoldable pub Ordered : State T → Type 0
  Ordered s = IsOrdered (deps_of plan) s.statuses s.completed_nodes (keys s.active) s.transitions

  -- A move of a node that was not running and does not complete.
  transition-Ordered :
      (id : Text) (to : Status) (s : State T)
      → status_beq (s.statuses id) running ≡ false
      → is_valid_transition (s.statuses id) to ≡ true
      → (is_started to ≡ true → every_in s.completed_nodes (deps_of plan id) ≡ true)
      → Ordered s
      → Ordered (transition id to s)
  unfolding Ordered transition
  transition-Ordered id to s still v h o =
      IsOrdered-move id to s.completed_nodes (keys s.active) o v
        (λ x c. inl (ground (arith, o.under_way x c, still, list_beq_iff x id), c)) (λ x c. inl c)
        (λ ds e. e) h

  release-Ordered : (id : Text) (s : State T) → Ordered s → Ordered (release id s)
  unfolding Ordered release release_entry
  release-Ordered id s o = elim (Option-cases (participant_of id s.active)) [
    | inl h ↦ rw h o
    | inr (p, h) ↦ rw h (record {
      under_way = λ x c. o.under_way x (contains-keys_remove id x s.active c).1;
      finished_nodes = o.finished_nodes;
      met = o.met;
      legal = o.legal;
    })
  ]

  dispatch-Ordered :
      (limit : ℕ) (id : Text) (s : State T)
      → verdict plan limit id s ≡ go
      → Ordered s
      → Ordered (dispatch plan id s)
  unfolding Ordered dispatch transition verdict
  dispatch-Ordered limit id s h o =
      let first : status_beq (s.statuses id) ready ≡ true = ground (arith, h) in
      let p = participant_in plan.nodes_by_id id in
      IsOrdered-move id running s.completed_nodes (keys (s.active ++ (id, p) ∷ [])) o
        (open-valid (s.statuses id) first)
        (λ x c. ground (
          arith,
          o.under_way x,
          c,
          contains-keys_push id p x s.active,
          list_beq_iff x id,
          list_beq_iff id x,
        ))
        (λ x c. inl c) (λ ds e. e) (λ _. o.met id (ground (arith, first)))

  underway-running :
      (id : Text) (s : State T)
      → IsUnderWay id s
      → Ordered s
      → status_beq (s.statuses id) running ≡ true
  unfolding Ordered
  underway-running id s (inl c) o = o.under_way id c
  underway-running id s (inr r) o = r

  -- A running node leaves `active` and moves.
  leave-Ordered :
      (id : Text) (to : Status) (done' : List Text) (s : State T)
      → IsUnderWay id s
      → is_valid_transition running to ≡ true
      → ((x : Text)
          → contains x done' ≡ true
          → (contains x s.completed_nodes ≡ true)
            ⊎ (((x == id) ≡ true) × (status_beq to completed ≡ true)))
      → ((ds : List Text) → every_in s.completed_nodes ds ≡ true → every_in done' ds ≡ true)
      → Ordered s
      → IsOrdered
          (deps_of plan)
          (update_status s.statuses id to)
          done'
          (keys (remove_key id s.active))
          (s.transitions ++ record { node_id = id; from = s.statuses id; to = to } ∷ [])
  unfolding Ordered
  leave-Ordered id to done' s u v hd grow o =
      let r = underway-running id s u o in
      IsOrdered-move id to done' (keys (remove_key id s.active)) o
        (running-valid (s.statuses id) to r v) (λ x c. inl (contains-keys_remove id x s.active c))
        hd grow (λ _. o.met id (ground (arith, r)))

  settle_released-Ordered :
      (id : Text) (to : Status) (s : State T)
      → IsUnderWay id s
      → is_valid_transition running to ≡ true
      → Ordered s
      → Ordered (settle_as id to (release id s))
  unfolding Ordered settle_as transition release release_entry
  settle_released-Ordered id to s u v o =
      let left = leave-Ordered id to s.completed_nodes s u v (λ x c. inl c) (λ ds e. e) o in
      elim (Option-cases (participant_of id s.active)) [
        | inl h ↦ rw h (
            subst
              (λ ks.
                IsOrdered (deps_of plan) (update_status s.statuses id to) s.completed_nodes
                  (keys ks)
                  (s.transitions ++ record { node_id = id; from = s.statuses id; to = to } ∷ []))
              (remove_key-none id s.active h) left)
        | inr (p, h) ↦ rw h left
      ]

  complete-Ordered :
      (id : Text) (output : T) (s : State T)
      → IsUnderWay id s
      → Ordered s
      → Ordered (complete id output (release id s))
  unfolding Ordered complete settle_as is_valid_transition dag_node_transitions transition release
      release_entry
  complete-Ordered id output s u o =
      let left =
        leave-Ordered id completed (add_to id s.completed_nodes) s u refl
          (λ x c. ground (arith, contains-add_to x id s.completed_nodes c))
          (λ ds e. every_in-add_to id s.completed_nodes ds e) o in
      elim (Option-cases (participant_of id s.active)) [
        | inl h ↦ rw h (
            subst
              (λ ks.
                IsOrdered (deps_of plan) (update_status s.statuses id completed)
                  (add_to id s.completed_nodes) (keys ks)
                  (s.transitions
                    ++ record { node_id = id; from = s.statuses id; to = completed } ∷ []))
              (remove_key-none id s.active h) left)
        | inr (p, h) ↦ rw h left
      ]

  fail-Ordered : (id : Text) (s : State T) → Ordered (settle_as id failed s) → Ordered (fail id s)
  unfolding Ordered fail
  fail-Ordered id s o = o

  -- A move of a node that has not begun, to `cancelled` or `skipped`.
  close-Ordered :
      (id : Text) (to : Status) (s : State T)
      → is_open (s.statuses id) ≡ true
      → is_open_end to ≡ true
      → Ordered s
      → Ordered (settle_as id to s)
  unfolding Ordered settle_as transition
  close-Ordered id to s h e o =
      transition-Ordered id to s (ground (arith, h)) (close-valid (s.statuses id) to h e)
        (λ st. ground (arith, st, e)) o

  skip_one-Ordered : (id : Text) (s : State T) → Ordered s → Ordered (skip_one id s)
  unfolding Ordered settle_as transition
  skip_one-Ordered id s o =
      if-both Ordered (is_open (s.statuses id)) _ _ (λ h. close-Ordered id skipped s h refl o)
        (λ h. o)

  abort-Ordered : (s : State T) → Ordered s → Ordered (record s { aborted = true })
  unfolding Ordered
  abort-Ordered s o = o

  pub Withstands-Ordered : (limit : ℕ) → Withstands plan limit Ordered
  unfolding is_valid_transition dag_node_transitions
  Withstands-Ordered limit = record {
    marks = λ id s h e o.
        transition-Ordered id ready s (ground (arith, h)) (pending-valid (s.statuses id) h) (λ _. e)
          o;
    dispatches = dispatch-Ordered limit;
    cancels = λ id s h o. close-Ordered id cancelled s h refl o;
    skips = skip_one-Ordered;
    aborts = abort-Ordered;
    releases = release-Ordered;
    completes = complete-Ordered;
    fails =
        λ id s u o. fail-Ordered id (release id s) (settle_released-Ordered id failed s u refl o);
    interrupts = λ id s u o. settle_released-Ordered id cancelled s u refl o;
  }
