-- ===== src/DagScheduler/Order.antt =====
-- src/core/collaboration-dag-scheduler.ts: the statuses of the nodes through a run.
use agent_chatgpt_bridge.Common.{
  ◌≡◌, ◌⊎◌, refl, Bool, true, false, ◌||◌, List, [], ◌∷◌, ◌++◌, none, ◌==◌, list_equality,
  number_equality, contains, inl, inr, Bool-cases, arith, beq_self, list_beq_iff,
}
use agent_chatgpt_bridge.Js.{Text}
use agent_chatgpt_bridge.CollaborationDag.{
  pending, ready, running, cancelled, completed, skipped, status_beq,
}
use agent_chatgpt_bridge.DagScheduler.{
  add_to, Status, is_open, every_in, remove_key, keys, participant_of,
}
use agent_chatgpt_bridge.Common.{All}
use agent_chatgpt_bridge.CollaborationDag.{is_valid_transition, dag_node_transitions}
use agent_chatgpt_bridge.DagScheduler.{Transition, update_status}
use agent_chatgpt_bridge.Common.{if-both}

-- A status that a node has only once its dependencies are done.
abbrev pub is_started : Status → Bool
is_started ready = true
is_started running = true
is_started completed = true
is_started _ = false

abbrev pub IsLegal : Transition → Type 0
IsLegal t = is_valid_transition t.from t.to ≡ true

pub record IsOrdered (deps : Text → List Text) (statuses : Text → Status)
    (done running_ids : List Text) (log : List Transition) : Type 0 where
  pub under_way :
      (x : Text) → contains x running_ids ≡ true → status_beq (statuses x) running ≡ true
  pub finished_nodes :
      (x : Text) → contains x done ≡ true → status_beq (statuses x) completed ≡ true
  pub met : (x : Text) → is_started (statuses x) ≡ true → every_in done (deps x) ≡ true
  pub legal : All IsLegal log

All-push :
    (log : List Transition) (t : Transition)
    → All IsLegal log
    → IsLegal t
    → All IsLegal (log ++ t ∷ [])
All-push [] t a l = (l, tt)
All-push (x ∷ xs) t a l = (a.0, All-push xs t a.1 l)

completed-kept :
    (from to : Status)
    → is_valid_transition from to ≡ true
    → status_beq from completed ≡ true
    → status_beq to completed ≡ true
unfolding is_valid_transition dag_node_transitions
completed-kept from to v h = ground arith

pub open-valid :
    (from : Status) → status_beq from ready ≡ true → is_valid_transition from running ≡ true
unfolding is_valid_transition dag_node_transitions
open-valid from h = ground arith

pub pending-valid :
    (from : Status) → status_beq from pending ≡ true → is_valid_transition from ready ≡ true
unfolding is_valid_transition dag_node_transitions
pending-valid from h = ground arith

abbrev pub is_open_end : Status → Bool
is_open_end skipped = true
is_open_end cancelled = true
is_open_end _ = false

pub close-valid :
    (from to : Status)
    → is_open from ≡ true
    → is_open_end to ≡ true
    → is_valid_transition from to ≡ true
unfolding is_valid_transition dag_node_transitions
close-valid from to h e = ground arith

pub running-valid :
    (from to : Status)
    → status_beq from running ≡ true
    → is_valid_transition running to ≡ true
    → is_valid_transition from to ≡ true
running-valid running to h v = v
running-valid _ to h v = absurd (ground arith)

-- One move of one node, where the sets of the nodes done and running change with it.
pub IsOrdered-move :
    {deps : Text → List Text} {statuses : Text → Status} {done running_ids : List Text}
    {log : List Transition} (id : Text) (to : Status) (done' running_ids' : List Text)
    → IsOrdered deps statuses done running_ids log
    → is_valid_transition (statuses id) to ≡ true
    → ((x : Text)
        → contains x running_ids' ≡ true
        → (((x == id) ≡ false) × (contains x running_ids ≡ true))
          ⊎ (status_beq to running ≡ true) × ((x == id) ≡ true))
    → ((x : Text)
        → contains x done' ≡ true
        → (contains x done ≡ true) ⊎ (((x == id) ≡ true) × (status_beq to completed ≡ true)))
    → ((ds : List Text) → every_in done ds ≡ true → every_in done' ds ≡ true)
    → (is_started to ≡ true → every_in done (deps id) ≡ true)
    → IsOrdered deps
        (update_status statuses id to)
        done'
        running_ids'
        (log ++ record { node_id = id; from = statuses id; to = to } ∷ [])
IsOrdered-move {deps} {statuses} {done} {running_ids} {log} id to done' running_ids' o v hr hd grow
      hs =
    record {
      under_way = λ x c.
          if-both (λ st. status_beq st running ≡ true) (x == id) _ _ (λ e. ground (arith, hr x c))
            (λ e. ground (arith, hr x c, o.under_way x));
      finished_nodes = λ x c.
          if-both (λ st. status_beq st completed ≡ true) (x == id) _ _
            (λ e. ground (
              arith,
              hd x c,
              list_beq_iff x id,
              o.finished_nodes id,
              completed-kept (statuses id) to v,
            ))
            (λ e. ground (arith, hd x c, o.finished_nodes x));
      met = λ x h. grow (deps x) (ground (arith, h, hs, o.met x, list_beq_iff x id));
      legal = All-push log _ o.legal v;
    }

pub contains-keys_remove :
    (id x : Text) (active : List (Text × Text))
    → contains x (keys (remove_key id active)) ≡ true
    → ((x == id) ≡ false) × (contains x (keys active) ≡ true)
contains-keys_remove id x [] h = absurd (cc)
contains-keys_remove id x ((k, v) ∷ rest) h =
    ground (
      arith,
      contains-keys_remove id x rest,
      list_beq_iff k id,
      list_beq_iff k x,
      list_beq_iff x id,
    )

pub contains-keys_push :
    (id p x : Text) (active : List (Text × Text))
    → contains x (keys (active ++ (id, p) ∷ [])) ≡ (contains x (keys active) || (id == x))
contains-keys_push id p x [] = ground arith
contains-keys_push id p x ((k, v) ∷ rest) = ground (arith, contains-keys_push id p x rest)

contains-push :
    (x y : Text) (xs : List Text) → contains x (xs ++ y ∷ []) ≡ (contains x xs || (y == x))
contains-push x y [] = ground arith
contains-push x y (z ∷ xs) = ground (arith, contains-push x y xs)

pub contains-add_to :
    (x y : Text) (xs : List Text)
    → contains x (add_to y xs) ≡ true
    → (contains x xs ≡ true) ⊎ ((x == y) ≡ true)
contains-add_to x y xs h =
    ground (arith, h, contains-push x y xs, list_beq_iff x y, list_beq_iff y x)

pub contains-add_to_old :
    (x y : Text) (xs : List Text) → contains x xs ≡ true → contains x (add_to y xs) ≡ true
contains-add_to_old x y xs h = ground (arith, h, contains-push x y xs)

pub contains-add_to_self : (y : Text) (xs : List Text) → contains y (add_to y xs) ≡ true
contains-add_to_self y xs = elim (Bool-cases (contains y xs)) [
  | inl h ↦ ground (arith, h)
  | inr h ↦ ground (arith, h, contains-push y y xs, beq_self y)
]

pub every_in-add_to :
    (y : Text) (xs ds : List Text) → every_in xs ds ≡ true → every_in (add_to y xs) ds ≡ true
every_in-add_to y xs [] h = refl
every_in-add_to y xs (d ∷ ds) h = ground (arith, h, every_in-add_to y xs ds, contains-push d y xs)

pub remove_key-none :
    (id : Text) (active : List (Text × Text))
    → participant_of id active ≡ none
    → remove_key id active ≡ active
remove_key-none id [] h = refl
remove_key-none id ((k, v) ∷ rest) h = ground (arith, h, remove_key-none id rest)
