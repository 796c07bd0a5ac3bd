-- ===== src/SessionManager/Invariant.antt =====
-- src/core/session-manager.ts: the count of admitted turns.
use agent_chatgpt_bridge.Common.{
  ℕ, suc, ◌+◌, ◌≤◌, ◌<◌, Bool, true, false, ◌&&◌, ◌||◌, not, List, [], ◌∷◌, Option, none, some,
  list_equality, number_equality, ◌≡◌, refl, arith, contains, contains-count, erase, length,
  length-append, length-erase, leb, ltb, if-both, ap, ltb→lt,
}
use agent_chatgpt_bridge.Errors.{Thrown, Result, ok, err}
use agent_chatgpt_bridge.Js.{Text}
use agent_chatgpt_bridge.SessionManager.{
  SessionManager, Message, TurnResult, Broken, SessionStatus, Written, written, create_throws,
  update_throws, start_turn, ActiveTurn, Holder, nobody, closer, queued, running, Event, sends,
  gets_lock, is_refused_lock, gets_capacity, is_refused_capacity, settles, aborts, cancels, closes,
  close_goes_on, close_gets_lock, close_ends, shuts_down, other_enters, other_leaves, finish,
  begin_send, status_error, prepare, is_free, lock_granted, lock_refused, start_queued,
  capacity_granted, refuse_queued, capacity_refused, store, settle_running, turn_settled,
  client_aborts, is_running, cancel_active, cancel, begin_close, close_read, close_checked,
  close_locked, end_close, close_settled, begin_shutdown, other_begins, other_ends, step, run,
  start, is_closed, is_other_turn, client_cancelled, server_draining, is_admitted,
}

abbrev pub sends_of : Holder → ℕ
sends_of (queued n turn_id messages) = 1
sends_of (running n turn_id messages) = 1
sends_of _ = 0

-- The count is of the calls that wait for the lock, of the call that holds it and of other sessions.
pub record IsAccounted (s : SessionManager) : Type 0 where
  pub counted : s.admitted_turns ≡ length s.waiting + sends_of s.holder + s.others
  pub bounded : s.admitted_turns ≤ s.capacity

finish-IsAccounted :
    (n : ℕ) (turn_id : Option Text) (holder : Holder) (r : Result Thrown TurnResult)
    (s : SessionManager)
    → s.admitted_turns ≡ suc (length s.waiting + sends_of holder + s.others)
    → s.admitted_turns ≤ s.capacity
    → IsAccounted (finish n turn_id holder r s)
unfolding finish
finish-IsAccounted n turn_id holder r s h b = record {
  counted = omega (arith, h);
  bounded = omega (arith, b);
}

begin_send-IsAccounted :
    (n : ℕ) (signal : Bool) (s : SessionManager)
    → IsAccounted s
    → IsAccounted (begin_send n signal s)
unfolding begin_send
begin_send-IsAccounted n signal s a =
    if-both IsAccounted signal _ _ (λ _. record { counted = a.counted; bounded = a.bounded })
      (λ _.
        if-both IsAccounted s.shutting_down _ _
          (λ _. record { counted = a.counted; bounded = a.bounded })
          (λ _.
            if-both IsAccounted (leb s.capacity s.admitted_turns) _ _
              (λ _. record { counted = a.counted; bounded = a.bounded })
              (λ h. record {
                counted = omega (arith, a.counted, length-append s.waiting (n ∷ []));
                bounded = ground (arith, h);
              })))

module _ (n : ℕ) (s : SessionManager) (a : IsAccounted s) where
  abbrev left : SessionManager
  left = record s { waiting = erase n s.waiting }

  left_length : contains n s.waiting ≡ true → suc (length (erase n s.waiting)) ≡ length s.waiting
  left_length h = length-erase n s.waiting (contains-count n s.waiting h)

  prepare-IsAccounted :
      (turn_id : Text) (e : Option Thrown) (prepared : Result Thrown (List Message))
      → contains n s.waiting ≡ true
      → sends_of s.holder ≡ 0
      → IsAccounted (prepare n turn_id e prepared left)
  prepare-IsAccounted turn_id (some e) prepared h free =
      finish-IsAccounted n none nobody (err e) left (omega (arith, a.counted, left_length h, free))
        a.bounded
  prepare-IsAccounted turn_id none (err e) h free =
      finish-IsAccounted n none nobody (err e) left (omega (arith, a.counted, left_length h, free))
        a.bounded
  prepare-IsAccounted turn_id none (ok messages) h free = record {
    counted = omega (arith, a.counted, left_length h, free);
    bounded = a.bounded;
  }

pub free-sends : (h : Holder) → is_free h ≡ true → sends_of h ≡ 0
free-sends nobody e = refl
free-sends closer e = refl
free-sends (queued n t ms) e = cc
free-sends (running n t ms) e = cc

lock_granted-IsAccounted :
    (n : ℕ) (signal : Bool) (turn_id : Text) (prepared : Result Thrown (List Message))
    (s : SessionManager)
    → IsAccounted s
    → IsAccounted (lock_granted n signal turn_id prepared s)
unfolding lock_granted
lock_granted-IsAccounted n signal turn_id prepared s a =
    if-both IsAccounted (not (is_free s.holder && contains n s.waiting)) _ _ (λ _. a)
      (λ h.
        let at : contains n s.waiting ≡ true = ground (arith, h) in
        let free = free-sends s.holder (ground (arith, h)) in
        let count : s.admitted_turns ≡ suc (length (erase n s.waiting) + 0 + s.others) =
          omega (arith, a.counted, left_length n s a at, free) in
        if-both IsAccounted signal _ _
          (λ _.
            finish-IsAccounted n none nobody (err client_cancelled) (left n s a) count a.bounded)
          (λ _.
            if-both IsAccounted s.shutting_down _ _
              (λ _.
                finish-IsAccounted n none nobody (err server_draining) (left n s a) count a.bounded)
              (λ _. prepare-IsAccounted n s a turn_id (status_error s.status) prepared at free)))

lock_refused-IsAccounted :
    (n : ℕ) (e : Thrown) (s : SessionManager) → IsAccounted s → IsAccounted (lock_refused n e s)
unfolding lock_refused
lock_refused-IsAccounted n e s a =
    if-both IsAccounted (contains n s.waiting) _ _
      (λ at.
        finish-IsAccounted n none s.holder (err e) (left n s a)
          (omega (arith, a.counted, left_length n s a at)) a.bounded)
      (λ _. a)

-- The call that holds the lock.
module _ (s : SessionManager) (a : IsAccounted s) where
  finish_held :
      (n : ℕ) (turn_id : Option Text) (r : Result Thrown TurnResult) (t : SessionManager)
      → sends_of s.holder ≡ 1
      → t.admitted_turns ≡ s.admitted_turns
      → length t.waiting ≡ length s.waiting
      → t.others ≡ s.others
      → t.capacity ≡ s.capacity
      → IsAccounted (finish n turn_id nobody r t)
  finish_held n turn_id r t one admitted waiting others capacity =
      finish-IsAccounted n turn_id nobody r t
        (omega (arith, a.counted, one, admitted, waiting, others))
        (omega (arith, a.bounded, admitted, capacity))

  start_turn-IsAccounted :
      (n : ℕ) (t : Text) (ms : List Message) (w : Written)
      → sends_of s.holder ≡ 1
      → IsAccounted (start_turn n t ms w s)
  start_turn-IsAccounted n t ms written one = record {
    counted = omega (arith, a.counted, one);
    bounded = a.bounded;
  }
  start_turn-IsAccounted n t ms (create_throws e) one =
      finish_held n (some t) (err e) _ one refl refl refl refl
  start_turn-IsAccounted n t ms (update_throws e) one =
      finish_held n (some t) (err e) _ one refl refl refl refl

  start_queued-IsAccounted :
      (w : Written) (h : Holder) → s.holder ≡ h → IsAccounted (start_queued w h s)
  start_queued-IsAccounted w (queued n t ms) e =
      let one : sends_of s.holder ≡ 1 = ap sends_of e in
      if-both IsAccounted s.shutting_down _ _
        (λ _. finish_held n (some t) (err server_draining) s one refl refl refl refl)
        (λ _. start_turn-IsAccounted n t ms w one)
  start_queued-IsAccounted w nobody e = a
  start_queued-IsAccounted w closer e = a
  start_queued-IsAccounted w (running n t ms) e = a

  refuse_queued-IsAccounted :
      (x : Thrown) (h : Holder) → s.holder ≡ h → IsAccounted (refuse_queued x h s)
  refuse_queued-IsAccounted x (queued n t ms) e =
      finish_held n (some t) (err x) s (ap sends_of e) refl refl refl refl
  refuse_queued-IsAccounted x nobody e = a
  refuse_queued-IsAccounted x closer e = a
  refuse_queued-IsAccounted x (running n t ms) e = a

  settle_running-IsAccounted :
      (b : Broken) (r : Result Thrown TurnResult) (h : Holder)
      → s.holder ≡ h
      → IsAccounted (settle_running b r h s)
  settle_running-IsAccounted b r (running n t ms) e =
      finish_held n (some t) (store n t ms b r s).outcome _ (ap sends_of e) refl refl refl refl
  settle_running-IsAccounted b r nobody e = a
  settle_running-IsAccounted b r closer e = a
  settle_running-IsAccounted b r (queued n t ms) e = a

  close_read-IsAccounted :
      (updated : Bool) (reads : List SessionStatus) → IsAccounted (close_read updated reads s)
  close_read-IsAccounted updated [] = a
  close_read-IsAccounted updated (k ∷ ks) =
      if-both IsAccounted (is_closed k || not updated) _ _
        (λ _. record { counted = a.counted; bounded = a.bounded })
        (λ _. record { counted = a.counted; bounded = a.bounded })

  end_close-IsAccounted :
      (returned : Bool) (h : Holder) → s.holder ≡ h → IsAccounted (end_close returned h s)
  end_close-IsAccounted true closer e =
      let zeroed : sends_of s.holder ≡ 0 = ap sends_of e in
      record { counted = omega (arith, a.counted, zeroed); bounded = a.bounded }
  end_close-IsAccounted false closer e =
      let zeroed : sends_of s.holder ≡ 0 = ap sends_of e in
      record { counted = omega (arith, a.counted, zeroed); bounded = a.bounded }
  end_close-IsAccounted true nobody e = a
  end_close-IsAccounted true (queued n t ms) e = a
  end_close-IsAccounted true (running n t ms) e = a
  end_close-IsAccounted false nobody e = a
  end_close-IsAccounted false (queued n t ms) e = a
  end_close-IsAccounted false (running n t ms) e = a

cancel_active-IsAccounted :
    (turn_id : Option Text) (active : Option ActiveTurn) (s : SessionManager)
    → IsAccounted s
    → IsAccounted (cancel_active turn_id active s).1
cancel_active-IsAccounted turn_id none s a = a
cancel_active-IsAccounted turn_id (some x) s a =
    if-both (λ (r : Result Thrown Bool × SessionManager). IsAccounted r.1) (is_other_turn turn_id x)
      _ _ (λ _. a) (λ _. record { counted = a.counted; bounded = a.bounded })

step-IsAccounted : (e : Event) (s : SessionManager) → IsAccounted s → IsAccounted (step e s)
unfolding capacity_granted capacity_refused turn_settled client_aborts cancel begin_close
    close_checked close_locked close_settled begin_shutdown other_begins other_ends
step-IsAccounted (sends n signal) s a = begin_send-IsAccounted n signal s a
step-IsAccounted (gets_lock n signal turn_id prepared) s a =
    lock_granted-IsAccounted n signal turn_id prepared s a
step-IsAccounted (is_refused_lock n e) s a = lock_refused-IsAccounted n e s a
step-IsAccounted (gets_capacity w) s a = start_queued-IsAccounted s a w s.holder refl
step-IsAccounted (is_refused_capacity e) s a = refuse_queued-IsAccounted s a e s.holder refl
step-IsAccounted (settles b r) s a = settle_running-IsAccounted s a b r s.holder refl
step-IsAccounted (aborts n) s a =
    if-both IsAccounted (is_running n s.holder) _ _
      (λ _. record { counted = a.counted; bounded = a.bounded }) (λ _. a)
step-IsAccounted (cancels read turn_id) s a =
    if-both (λ (r : Result Thrown Bool × SessionManager). IsAccounted r.1) (is_closed read) _ _
      (λ _. a) (λ _. cancel_active-IsAccounted turn_id s.active_turn s a)
step-IsAccounted closes s a = record { counted = a.counted; bounded = a.bounded }
step-IsAccounted (close_goes_on updated) s a = close_read-IsAccounted s a updated s.close_reads
step-IsAccounted close_gets_lock s a =
    if-both IsAccounted (is_free s.holder && ltb 0 s.closers) _ _
      (λ h.
        let free = free-sends s.holder (ground (arith, h)) in
        record { counted = omega (arith, a.counted, free); bounded = a.bounded })
      (λ _. a)
step-IsAccounted (close_ends returned) s a = end_close-IsAccounted s a returned s.holder refl
step-IsAccounted shuts_down s a = record { counted = a.counted; bounded = a.bounded }
step-IsAccounted other_enters s a =
    if-both IsAccounted (is_admitted s) _ _
      (λ h. record { counted = omega (arith, a.counted); bounded = ground (arith, h) }) (λ _. a)
step-IsAccounted other_leaves s a =
    if-both IsAccounted (ltb 0 s.others) _ _
      (λ h.
        let some_left : 0 < s.others = ltb→lt 0 s.others h in
        record {
          counted = omega (arith, a.counted, some_left);
          bounded = omega (arith, a.bounded);
        })
      (λ _. a)

pub run-kept : (es : List Event) (s : SessionManager) → IsAccounted s → IsAccounted (run es s)
unfolding run
run-kept [] s a = a
run-kept (e ∷ es) s a = run-kept es (step e s) (step-IsAccounted e s a)

-- After any calls of `send`, `cancel`, `close` and `shutdown`, in any order of what they wait for,
-- `admittedTurns` is the number of calls of `send` that have been admitted and have not ended, and at most
-- `maxActive + maxQueued`.
pub run-IsAccounted : (capacity : ℕ) (es : List Event) → IsAccounted (run es (start capacity))
run-IsAccounted capacity es =
    run-kept es (start capacity) (record { counted = refl; bounded = omega arith })
