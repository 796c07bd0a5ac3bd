-- ===== src/DagScheduler/Load.antt =====
-- src/core/collaboration-dag-scheduler.ts, lines 90-108: what the loop over the persisted statuses leaves.
use agent_chatgpt_bridge.Common.{
  ◌≡◌, ◌⊎◌, refl, sym, subst, Bool, true, false, List, [], ◌∷◌, ◌==◌, list_equality,
  number_equality, if◌then◌else◌, contains, inl, inr, Bool-cases, arith, list_beq_iff,
}
use agent_chatgpt_bridge.Js.{Text}
use agent_chatgpt_bridge.CollaborationDag.{running, completed, status_beq, is_terminal_status}
use agent_chatgpt_bridge.DagScheduler.{State, state_of, add_to, Status, keys}
use agent_chatgpt_bridge.DagScheduler.Moves.{load, no_state}
use agent_chatgpt_bridge.DagScheduler.{update_status}
use agent_chatgpt_bridge.DagScheduler.Order.{
  is_started, contains-add_to, contains-add_to_old, contains-add_to_self,
}

module _ {T : Type 0} (initial : Text → Status)
    (idle : (x : Text) → status_beq (initial x) running ≡ false) where
  pub record IsLoaded (s : State T) : Type 0 where
    pub nothing_active : keys s.active ≡ []
    pub nothing_moved : s.transitions ≡ []
    pub done :
        (x : Text)
        → contains x s.completed_nodes ≡ true
        → (status_beq (s.statuses x) completed ≡ true) × (status_beq (initial x) completed ≡ true)
    pub origin : (x : Text) → is_started (s.statuses x) ≡ true → is_started (initial x) ≡ true

  -- What the loop does with one node.
  abbrev load_one : Text → State T → State T
  load_one id s = record s {
    statuses = update_status s.statuses id (initial id);
    completed_nodes =
        if status_beq (initial id) completed
        then add_to id s.completed_nodes
        else s.completed_nodes;
    settled_nodes =
        if is_terminal_status (initial id) then add_to id s.settled_nodes else s.settled_nodes;
  }

  load-next :
      (id : Text) (ids : List Text) (s : State T)
      → load initial (id ∷ ids) s ≡ load initial ids (load_one id s)
  unfolding load
  load-next id ids s = rw (idle id) refl

  load_one-done :
      (id x : Text) (s : State T)
      → contains x (load_one id s).completed_nodes ≡ true
      → (contains x s.completed_nodes ≡ true)
        ⊎ (((x == id) ≡ true) × (status_beq (initial id) completed ≡ true))
  load_one-done id x s h = ground (arith, h, contains-add_to x id s.completed_nodes)

  load_one-IsLoaded : (id : Text) (s : State T) → IsLoaded s → IsLoaded (load_one id s)
  load_one-IsLoaded id s l = record {
    nothing_active = l.nothing_active;
    nothing_moved = l.nothing_moved;
    done = λ x c. ground (arith, load_one-done id x s c, l.done x, list_beq_iff x id);
    origin = λ x h. ground (arith, h, l.origin x, list_beq_iff x id);
  }

  pub load-IsLoaded :
      (ids : List Text) (s : State T) → IsLoaded s → IsLoaded (state_of (load initial ids s))
  unfolding load
  load-IsLoaded [] s l = l
  load-IsLoaded (id ∷ ids) s l =
      subst (λ phase. IsLoaded (state_of phase)) (sym (load-next id ids s))
        (load-IsLoaded ids (load_one id s) (load_one-IsLoaded id s l))

  load-kept :
      (ids : List Text) (s : State T) (d : Text)
      → contains d s.completed_nodes ≡ true
      → contains d (state_of (load initial ids s)).completed_nodes ≡ true
  unfolding load
  load-kept [] s d h = h
  load-kept (id ∷ ids) s d h =
      subst (λ phase. contains d (state_of phase).completed_nodes ≡ true) (sym (load-next id ids s))
        (load-kept ids (load_one id s) d
          (ground (arith, h, contains-add_to_old d id s.completed_nodes)))

  pub load-done :
      (ids : List Text) (s : State T) (d : Text)
      → contains d ids ≡ true
      → status_beq (initial d) completed ≡ true
      → contains d (state_of (load initial ids s)).completed_nodes ≡ true
  load-done [] s d c h = absurd (cc)
  load-done (id ∷ ids) s d c h =
      subst (λ phase. contains d (state_of phase).completed_nodes ≡ true) (sym (load-next id ids s))
        (elim (Bool-cases (id == d)) [
          | inl e ↦
              load-kept ids (load_one id s) d
                (ground (arith, h, e, list_beq_iff id d, contains-add_to_self d s.completed_nodes))
          | inr e ↦ load-done ids (load_one id s) d (ground (arith, c, e)) h
        ])

pub no_state-IsLoaded :
    (T : Type 0) (initial : Text → Status)
    (idle : (x : Text) → status_beq (initial x) running ≡ false) (b : Bool)
    → IsLoaded {T = T} initial idle (no_state b)
no_state-IsLoaded T initial idle b = record {
  nothing_active = refl;
  nothing_moved = refl;
  done = λ x c. absurd (cc);
  origin = λ x h. absurd (cc);
}
