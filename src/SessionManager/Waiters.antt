-- ===== src/SessionManager/Waiters.antt =====
-- src/core/session-manager.ts: the entry in `activeTurns` of the turn that runs.
use agent_chatgpt_bridge.Common.{
  ℕ, Bool, true, false, ◌&&◌, ◌||◌, not, List, [], ◌∷◌, Option, none, some, list_equality,
  number_equality, ◌≡◌, refl, sym, ap, ◌∙◌, subst, arith, contains, leb, ltb, if-both, All,
  beq_self, Bool-cases, inl, inr,
}
use agent_chatgpt_bridge.Errors.{Thrown, Result, ok, err}
use agent_chatgpt_bridge.Js.{Text}
use agent_chatgpt_bridge.SessionManager.{
  SessionManager, created, ready, busy, closing, closed, error, Message, TurnResult, Broken,
  SessionStatus, Written, written, create_throws, update_throws, start_turn, ActiveTurn, Holder,
  nobody, closer, queued, running, Event, sends, gets_lock, is_refused_lock, gets_capacity,
  is_refused_capacity, settles, aborts, cancels, closes, close_goes_on, close_gets_lock, close_ends,
  shuts_down, other_enters, other_leaves, finish, settle_status, begin_send, status_error, prepare,
  is_free, lock_granted, lock_refused, start_queued, capacity_granted, refuse_queued,
  capacity_refused, settle_running, turn_settled, client_aborts, is_running, abort_active,
  cancel_active, cancel, begin_close, close_read, close_checked, close_locked, end_close,
  close_settled, begin_shutdown, other_begins, other_ends, step, run, start, is_closed,
  is_other_turn, is_admitted,
}
use agent_chatgpt_bridge.SessionManager.Quiet.{is_idle, IsQuiet, run-IsQuiet}
use agent_chatgpt_bridge.SessionManager.Closed.{true-false}

-- The turn that runs is the one in `activeTurns`.
abbrev IsEntry : Holder → Option ActiveTurn → Type 0
IsEntry (running n t ms) a = a ≡ some (record { turn_id = t; call = n })
IsEntry _ a = Unit

abbrev IsTracked : SessionManager → Type 0
IsTracked s = IsEntry s.holder s.active_turn

-- No call is aborted while it waits for the lock.
abbrev pub IsPatient : Event → Type 0
IsPatient (is_refused_lock n e) = ⊥
IsPatient _ = Unit

module _ (s : SessionManager) (k : IsTracked s) where
  prepare-IsTracked :
      (n : ℕ) (turn_id : Text) (e : Option Thrown) (prepared : Result Thrown (List Message))
      (t : SessionManager)
      → IsTracked (prepare n turn_id e prepared t)
  unfolding finish
  prepare-IsTracked n turn_id (some e) prepared t = tt
  prepare-IsTracked n turn_id none (err e) t = tt
  prepare-IsTracked n turn_id none (ok messages) t = tt

  start_turn-IsTracked :
      (n : ℕ) (t : Text) (ms : List Message) (w : Written) → IsTracked (start_turn n t ms w s)
  unfolding finish
  start_turn-IsTracked n t ms written = refl
  start_turn-IsTracked n t ms (create_throws e) = tt
  start_turn-IsTracked n t ms (update_throws e) = tt

  start_queued-IsTracked : (w : Written) (h : Holder) → IsTracked (start_queued w h s)
  unfolding finish
  start_queued-IsTracked w (queued n t ms) =
      if-both IsTracked s.shutting_down _ _ (λ _. tt) (λ _. start_turn-IsTracked n t ms w)
  start_queued-IsTracked w nobody = k
  start_queued-IsTracked w closer = k
  start_queued-IsTracked w (running n t ms) = k

  refuse_queued-IsTracked : (x : Thrown) (h : Holder) → IsTracked (refuse_queued x h s)
  unfolding finish
  refuse_queued-IsTracked x (queued n t ms) = tt
  refuse_queued-IsTracked x nobody = k
  refuse_queued-IsTracked x closer = k
  refuse_queued-IsTracked x (running n t ms) = k

  settle_running-IsTracked :
      (b : Broken) (r : Result Thrown TurnResult) (h : Holder) → IsTracked (settle_running b r h s)
  unfolding finish
  settle_running-IsTracked b r (running n t ms) = tt
  settle_running-IsTracked b r nobody = k
  settle_running-IsTracked b r closer = k
  settle_running-IsTracked b r (queued n t ms) = k

  close_read-IsTracked :
      (updated : Bool) (reads : List SessionStatus) → IsTracked (close_read updated reads s)
  close_read-IsTracked updated [] = k
  close_read-IsTracked updated (read ∷ reads) =
      if-both IsTracked (is_closed read || not updated) _ _ (λ _. k) (λ _. k)

  end_close-IsTracked : (returned : Bool) (h : Holder) → IsTracked (end_close returned h s)
  end_close-IsTracked true closer = tt
  end_close-IsTracked false closer = tt
  end_close-IsTracked true nobody = k
  end_close-IsTracked true (queued n t ms) = k
  end_close-IsTracked true (running n t ms) = k
  end_close-IsTracked false nobody = k
  end_close-IsTracked false (queued n t ms) = k
  end_close-IsTracked false (running n t ms) = k

  cancel_active-IsTracked :
      (turn_id : Option Text) (a : Option ActiveTurn) → IsTracked (cancel_active turn_id a s).1
  cancel_active-IsTracked turn_id none = k
  cancel_active-IsTracked turn_id (some a) =
      if-both (λ (r : Result Thrown Bool × SessionManager). IsTracked r.1) (is_other_turn turn_id a)
        _ _ (λ _. k) (λ _. k)

  step-IsTracked : (e : Event) → IsPatient e → IsTracked (step e s)
  unfolding begin_send lock_granted finish capacity_granted capacity_refused turn_settled
      client_aborts cancel begin_close close_checked close_locked close_settled begin_shutdown
      other_begins other_ends
  step-IsTracked (sends n signal) p =
      if-both IsTracked signal _ _ (λ _. k)
        (λ _.
          if-both IsTracked s.shutting_down _ _ (λ _. k)
            (λ _. if-both IsTracked (leb s.capacity s.admitted_turns) _ _ (λ _. k) (λ _. k)))
  step-IsTracked (gets_lock n signal turn_id prepared) p =
      if-both IsTracked (not (is_free s.holder && contains n s.waiting)) _ _ (λ _. k)
        (λ _.
          if-both IsTracked signal _ _ (λ _. tt)
            (λ _.
              if-both IsTracked s.shutting_down _ _ (λ _. tt)
                (λ _. prepare-IsTracked n turn_id (status_error s.status) prepared _)))
  step-IsTracked (is_refused_lock n e) p = absurd p
  step-IsTracked (gets_capacity w) p = start_queued-IsTracked w s.holder
  step-IsTracked (is_refused_capacity e) p = refuse_queued-IsTracked e s.holder
  step-IsTracked (settles b r) p = settle_running-IsTracked b r s.holder
  step-IsTracked (aborts n) p = if-both IsTracked (is_running n s.holder) _ _ (λ _. k) (λ _. k)
  step-IsTracked (cancels read turn_id) p =
      if-both (λ (r : Result Thrown Bool × SessionManager). IsTracked r.1) (is_closed read) _ _
        (λ _. k) (λ _. cancel_active-IsTracked turn_id s.active_turn)
  step-IsTracked closes p = k
  step-IsTracked (close_goes_on updated) p = close_read-IsTracked updated s.close_reads
  step-IsTracked close_gets_lock p =
      if-both IsTracked (is_free s.holder && ltb 0 s.closers) _ _ (λ _. tt) (λ _. k)
  step-IsTracked (close_ends returned) p = end_close-IsTracked returned s.holder
  step-IsTracked shuts_down p = k
  step-IsTracked other_enters p = if-both IsTracked (is_admitted s) _ _ (λ _. k) (λ _. k)
  step-IsTracked other_leaves p = if-both IsTracked (ltb 0 s.others) _ _ (λ _. k) (λ _. k)

run-IsTracked :
    (es : List Event) (s : SessionManager) → All IsPatient es → IsTracked s → IsTracked (run es s)
unfolding run
run-IsTracked [] s all k = k
run-IsTracked (e ∷ es) s all k = run-IsTracked es (step e s) all.1 (step-IsTracked s k e all.0)

abort_active-contains :
    (n : ℕ) (t : Text) (calls : List ℕ)
    → contains n (abort_active (some (record { turn_id = t; call = n })) calls) ≡ true
abort_active-contains n t calls = ground (arith, beq_self n)

cancel-entry :
    (n : ℕ) (t : Text) (a : Option ActiveTurn) (s : SessionManager)
    → a ≡ some (record { turn_id = t; call = n })
    → ((cancel_active none a s).0 ≡ ok true)
      × (contains n (cancel_active none a s).1.aborted_calls ≡ true)
cancel-entry n t a s e = rw e (refl, abort_active-contains n t s.aborted_calls)

cancel-open :
    (turn_id : Option Text) (s : SessionManager)
    → is_closed s.status ≡ false
    → cancel turn_id s ≡ cancel_active turn_id s.active_turn s
unfolding cancel
cancel-open turn_id s h =
    if-both (λ r. r ≡ cancel_active turn_id s.active_turn s) (is_closed s.status) _ _
      (λ c. absurd (ground (arith, c, h))) (λ _. refl)

closed_of : (k : SessionStatus) → is_closed k ≡ true → k ≡ closed
closed_of created h = cc
closed_of ready h = cc
closed_of busy h = cc
closed_of closing h = cc
closed_of closed h = refl
closed_of error h = cc

-- No turn runs in a closed session.
running-open :
    (s : SessionManager) (n : ℕ) (t : Text) (ms : List Message)
    → IsQuiet s
    → s.holder ≡ running n t ms
    → is_closed s.status ≡ false
running-open s n t ms q h = elim (Bool-cases (is_closed s.status)) [
  | inl c ↦ absurd (true-false (sym (q (closed_of s.status c)) ∙ ap is_idle h))
  | inr o ↦ o
]

-- As long as no call has been aborted while it waited for the lock, `cancel` of the latest turn reaches
-- the call whose provider runs its turn: it returns true, and the call's controller has aborted.
pub run-cancel :
    (capacity : ℕ) (es : List Event) (n : ℕ) (t : Text) (ms : List Message)
    → All IsPatient es
    → (run es (start capacity)).holder ≡ running n t ms
    → let r = cancel none (run es (start capacity)) in
      (r.0 ≡ ok true) × (contains n r.1.aborted_calls ≡ true)
run-cancel capacity es n t ms all h =
    let s = run es (start capacity) in
    let entry : IsEntry (running n t ms) s.active_turn =
      subst (λ k. IsEntry k s.active_turn) h (run-IsTracked es (start capacity) all tt) in
    let o = running-open s n t ms (run-IsQuiet es (start capacity) (λ is. cc)) h in
    let reached = cancel-entry n t s.active_turn s entry in
    let opened = cancel-open none s o in
    (
      ap (λ r. r.0) opened ∙ reached.0,
      ap (λ (r : Result Thrown Bool × SessionManager). contains n r.1.aborted_calls) opened
          ∙ reached.1,
    )

-- A call that is aborted while it waits for the lock, and the turn of another call runs meanwhile: the
-- session turns from `busy` to `ready`, the running turn is forgotten, so that `cancel` returns false and
-- `shutdown` does not abort it, and it runs on.
pub lock_refused_forgets :
    (s : SessionManager) (m n : ℕ) (t : Text) (ms : List Message) (e : Thrown)
    → s.holder ≡ running n t ms
    → s.status ≡ busy
    → contains m s.waiting ≡ true
    → let s' = lock_refused m e s in
      (s'.holder ≡ running n t ms)
      × (s'.status ≡ ready)
      × ((cancel none s').0 ≡ ok false)
      × ((begin_shutdown s').aborted_calls ≡ s.aborted_calls)
unfolding lock_refused finish cancel begin_shutdown
lock_refused_forgets s m n t ms e h b w =
    if-both
      (λ s'.
        (s'.holder ≡ running n t ms)
        × (s'.status ≡ ready)
        × ((cancel none s').0 ≡ ok false)
        × ((begin_shutdown s').aborted_calls ≡ s.aborted_calls))
      (contains m s.waiting) _ _
      (λ _. (
        h,
        ap settle_status b,
        if-both (λ (r : Result Thrown Bool × SessionManager). r.0 ≡ ok false)
            (is_closed (settle_status s.status)) _ _
            (λ c. absurd (ground (arith, c, ap (λ k. is_closed (settle_status k)) b))) (λ _. refl),
        refl,
      ))
      (λ k. absurd (ground (arith, k, w)))
