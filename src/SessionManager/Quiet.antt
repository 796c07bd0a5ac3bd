-- ===== src/SessionManager/Quiet.antt =====
-- src/core/session-manager.ts: who may hold the lock of a closed session.
use agent_chatgpt_bridge.Common.{
  ℕ, Bool, true, false, ◌&&◌, ◌||◌, not, List, [], ◌∷◌, Option, none, some, list_equality,
  number_equality, ◌≡◌, refl, contains, erase, leb, ltb, if-both,
}
use agent_chatgpt_bridge.Errors.{Thrown, Result, ok, err}
use agent_chatgpt_bridge.Js.{Text}
use agent_chatgpt_bridge.SessionManager.{
  SessionManager, created, ready, busy, closing, closed, error, Message, TurnResult, Broken,
  SessionStatus, Written, written, create_throws, update_throws, start_turn, ActiveTurn, Holder,
  nobody, closer, queued, running, Event, sends, gets_lock, is_refused_lock, gets_capacity,
  is_refused_capacity, settles, aborts, cancels, closes, close_goes_on, close_gets_lock, close_ends,
  shuts_down, other_enters, other_leaves, finish, settle_status, begin_send, status_error, prepare,
  is_free, lock_granted, lock_refused, start_queued, capacity_granted, refuse_queued,
  capacity_refused, store, settle_running, turn_settled, client_aborts, is_running, cancel_active,
  cancel, begin_close, close_read, close_checked, close_locked, end_close, close_settled,
  begin_shutdown, other_begins, other_ends, step, run, is_closed, is_other_turn, server_draining,
  is_admitted,
}

-- No call of `send` is past the checks that follow the lock.
abbrev pub is_idle : Holder → Bool
is_idle nobody = true
is_idle closer = true
is_idle _ = false

-- If the session is closed, no such call is.
abbrev pub IsQuiet : SessionManager → Type 0
IsQuiet s = s.status ≡ closed → is_idle s.holder ≡ true

settle-closed : (k : SessionStatus) → settle_status k ≡ closed → k ≡ closed
settle-closed created h = cc
settle-closed ready h = cc
settle-closed busy h = cc
settle-closed closing h = cc
settle-closed closed h = refl
settle-closed error h = cc

finish-IsQuiet :
    (n : ℕ) (turn_id : Option Text) (r : Result Thrown TurnResult) (s : SessionManager)
    → IsQuiet (finish n turn_id nobody r s)
unfolding finish
finish-IsQuiet n turn_id r s h = refl

open_of_none : (k : SessionStatus) → status_error k ≡ none → k ≡ closed → ⊥
open_of_none closed e h = cc
open_of_none created e h = cc
open_of_none ready e h = cc
open_of_none busy e h = cc
open_of_none closing e h = cc
open_of_none error e h = cc

prepare-IsQuiet :
    (n : ℕ) (turn_id : Text) (e : Option Thrown) (prepared : Result Thrown (List Message))
    (s : SessionManager)
    → status_error s.status ≡ e
    → IsQuiet (prepare n turn_id e prepared s)
prepare-IsQuiet n turn_id (some e) prepared s h = finish-IsQuiet n none (err e) s
prepare-IsQuiet n turn_id none (err e) s h = finish-IsQuiet n none (err e) s
prepare-IsQuiet n turn_id none (ok messages) s h = λ is. absurd (open_of_none s.status h is)

module _ (s : SessionManager) (q : IsQuiet s) where
  start_turn-IsQuiet :
      (n : ℕ) (t : Text) (ms : List Message) (w : Written) → IsQuiet (start_turn n t ms w s)
  start_turn-IsQuiet n t ms written = λ is. cc
  start_turn-IsQuiet n t ms (create_throws e) = finish-IsQuiet n (some t) (err e) _
  start_turn-IsQuiet n t ms (update_throws e) = finish-IsQuiet n (some t) (err e) _

  start_queued-IsQuiet : (w : Written) (h : Holder) → IsQuiet (start_queued w h s)
  start_queued-IsQuiet w (queued n t ms) =
      if-both IsQuiet s.shutting_down _ _ (λ _. finish-IsQuiet n (some t) (err server_draining) s)
        (λ _. start_turn-IsQuiet n t ms w)
  start_queued-IsQuiet w nobody = q
  start_queued-IsQuiet w closer = q
  start_queued-IsQuiet w (running n t ms) = q

  refuse_queued-IsQuiet : (x : Thrown) (h : Holder) → IsQuiet (refuse_queued x h s)
  refuse_queued-IsQuiet x (queued n t ms) = finish-IsQuiet n (some t) (err x) s
  refuse_queued-IsQuiet x nobody = q
  refuse_queued-IsQuiet x closer = q
  refuse_queued-IsQuiet x (running n t ms) = q

  settle_running-IsQuiet :
      (b : Broken) (r : Result Thrown TurnResult) (h : Holder) → IsQuiet (settle_running b r h s)
  settle_running-IsQuiet b r (running n t ms) =
      finish-IsQuiet n (some t) (store n t ms b r s).outcome _
  settle_running-IsQuiet b r nobody = q
  settle_running-IsQuiet b r closer = q
  settle_running-IsQuiet b r (queued n t ms) = q

  close_read-IsQuiet :
      (updated : Bool) (reads : List SessionStatus) → IsQuiet (close_read updated reads s)
  close_read-IsQuiet updated [] = q
  close_read-IsQuiet updated (k ∷ ks) =
      if-both IsQuiet (is_closed k || not updated) _ _ (λ _. q) (λ _ is. cc)

  end_close-IsQuiet : (returned : Bool) (h : Holder) → IsQuiet (end_close returned h s)
  end_close-IsQuiet true closer = λ is. refl
  end_close-IsQuiet false closer = λ is. refl
  end_close-IsQuiet true nobody = q
  end_close-IsQuiet true (queued n t ms) = q
  end_close-IsQuiet true (running n t ms) = q
  end_close-IsQuiet false nobody = q
  end_close-IsQuiet false (queued n t ms) = q
  end_close-IsQuiet false (running n t ms) = q

  cancel_active-IsQuiet :
      (turn_id : Option Text) (a : Option ActiveTurn) → IsQuiet (cancel_active turn_id a s).1
  cancel_active-IsQuiet turn_id none = q
  cancel_active-IsQuiet turn_id (some a) =
      if-both (λ (r : Result Thrown Bool × SessionManager). IsQuiet r.1) (is_other_turn turn_id a) _
        _ (λ _. q) (λ _. q)

  step-IsQuiet : (e : Event) → IsQuiet (step e s)
  unfolding begin_send lock_granted lock_refused finish capacity_granted capacity_refused
      turn_settled client_aborts cancel begin_close close_checked close_locked close_settled
      begin_shutdown other_begins other_ends
  step-IsQuiet (sends n signal) =
      if-both IsQuiet signal _ _ (λ _. q)
        (λ _.
          if-both IsQuiet s.shutting_down _ _ (λ _. q)
            (λ _. if-both IsQuiet (leb s.capacity s.admitted_turns) _ _ (λ _. q) (λ _. q)))
  step-IsQuiet (gets_lock n signal turn_id prepared) =
      if-both IsQuiet (not (is_free s.holder && contains n s.waiting)) _ _ (λ _. q)
        (λ _.
          if-both IsQuiet signal _ _ (λ _ is. refl)
            (λ _.
              if-both IsQuiet s.shutting_down _ _ (λ _ is. refl)
                (λ _.
                  prepare-IsQuiet n turn_id (status_error s.status) prepared
                    (record s { waiting = erase n s.waiting }) refl)))
  step-IsQuiet (is_refused_lock n e) =
      if-both IsQuiet (contains n s.waiting) _ _ (λ _ is. q (settle-closed s.status is)) (λ _. q)
  step-IsQuiet (gets_capacity w) = start_queued-IsQuiet w s.holder
  step-IsQuiet (is_refused_capacity e) = refuse_queued-IsQuiet e s.holder
  step-IsQuiet (settles b r) = settle_running-IsQuiet b r s.holder
  step-IsQuiet (aborts n) = if-both IsQuiet (is_running n s.holder) _ _ (λ _. q) (λ _. q)
  step-IsQuiet (cancels read turn_id) =
      if-both (λ (r : Result Thrown Bool × SessionManager). IsQuiet r.1) (is_closed read) _ _
        (λ _. q) (λ _. cancel_active-IsQuiet turn_id s.active_turn)
  step-IsQuiet closes = q
  step-IsQuiet (close_goes_on updated) = close_read-IsQuiet updated s.close_reads
  step-IsQuiet close_gets_lock =
      if-both IsQuiet (is_free s.holder && ltb 0 s.closers) _ _ (λ _ is. refl) (λ _. q)
  step-IsQuiet (close_ends returned) = end_close-IsQuiet returned s.holder
  step-IsQuiet shuts_down = q
  step-IsQuiet other_enters = if-both IsQuiet (is_admitted s) _ _ (λ _. q) (λ _. q)
  step-IsQuiet other_leaves = if-both IsQuiet (ltb 0 s.others) _ _ (λ _. q) (λ _. q)

pub run-IsQuiet : (es : List Event) (s : SessionManager) → IsQuiet s → IsQuiet (run es s)
unfolding run
run-IsQuiet [] s q = q
run-IsQuiet (e ∷ es) s q = run-IsQuiet es (step e s) (step-IsQuiet s q e)
