-- ===== src/SessionManager/Closed.antt =====
-- src/core/session-manager.ts: a session that is closed takes no turn.
use agent_chatgpt_bridge.Common.{
  ℕ, Bool, true, false, ◌&&◌, ◌||◌, not, List, [], ◌∷◌, Option, none, some, list_equality,
  number_equality, ◌≡◌, refl, ap, ◌∙◌, arith, contains, erase, leb, ltb, if-both,
}
use agent_chatgpt_bridge.Errors.{Thrown, Result, err}
use agent_chatgpt_bridge.Js.{Text}
use agent_chatgpt_bridge.SessionManager.{
  SessionManager, closing, closed, Message, TurnResult, Broken, SessionStatus, Written, TurnRow,
  ActiveTurn, Holder, nobody, closer, queued, running, Event, sends, gets_lock, is_refused_lock,
  gets_capacity, is_refused_capacity, settles, aborts, cancels, closes, close_goes_on,
  close_gets_lock, close_ends, shuts_down, other_enters, other_leaves, finish, settle_status,
  begin_send, status_error, prepare, is_free, lock_granted, lock_refused, start_queued,
  capacity_granted, refuse_queued, capacity_refused, settle_running, turn_settled, client_aborts,
  is_running, cancel_active, cancel, begin_close, close_read, close_checked, close_locked,
  end_close, close_settled, begin_shutdown, other_begins, other_ends, step, run, start, is_closed,
  is_other_turn, client_cancelled, server_draining, is_admitted,
}
use agent_chatgpt_bridge.SessionManager.Quiet.{is_idle, run-IsQuiet}

pub true-false : ◌≡◌ {A = Bool} true false → ⊥
true-false h = cc

abbrev pub is_shut : SessionStatus → Bool
is_shut closing = true
is_shut closed = true
is_shut _ = false

-- A session that takes no turn, with what it has stored.
pub record IsClosedWith (turns : List TurnRow) (messages : List Text) (s : SessionManager)
    : Type 0 where
  pub shut : is_shut s.status ≡ true
  pub idle : is_idle s.holder ≡ true
  pub same_turns : s.turns ≡ turns
  pub same_messages : s.messages ≡ messages

settle-shut : (k : SessionStatus) → is_shut k ≡ true → is_shut (settle_status k) ≡ true
settle-shut closing h = refl
settle-shut closed h = refl
settle-shut _ h = absurd (ground arith)

shut_none : (k : SessionStatus) → is_shut k ≡ true → status_error k ≡ none → ⊥
shut_none closing h e = cc
shut_none closed h e = cc
shut_none _ h e = ground arith

module _ (turns : List TurnRow) (messages : List Text) where
  abbrev Is : SessionManager → Type 0
  Is s = IsClosedWith turns messages s

  finish-IsClosedWith :
      (n : ℕ) (turn_id : Option Text) (holder : Holder) (r : Result Thrown TurnResult)
      (s : SessionManager)
      → Is s
      → is_idle holder ≡ true
      → Is (finish n turn_id holder r s)
  unfolding finish
  finish-IsClosedWith n turn_id holder r s c free = record {
    shut = settle-shut s.status c.shut;
    idle = free;
    same_turns = c.same_turns;
    same_messages = c.same_messages;
  }

  prepare-IsClosedWith :
      (n : ℕ) (turn_id : Text) (e : Option Thrown) (prepared : Result Thrown (List Message))
      (s : SessionManager)
      → Is s
      → status_error s.status ≡ e
      → Is (prepare n turn_id e prepared s)
  prepare-IsClosedWith n turn_id (some e) prepared s c h =
      finish-IsClosedWith n none nobody (err e) s c refl
  prepare-IsClosedWith n turn_id none prepared s c h = absurd (shut_none s.status c.shut h)

  module _ (s : SessionManager) (c : Is s) where
    -- Nothing but `waiting`, the counts and the outcomes changes.
    kept :
        (t : SessionManager)
        → t.status ≡ s.status
        → t.holder ≡ s.holder
        → t.turns ≡ s.turns
        → t.messages ≡ s.messages
        → Is t
    kept t status holder rows ids = record {
      shut = ap is_shut status ∙ c.shut;
      idle = ap is_idle holder ∙ c.idle;
      same_turns = rows ∙ c.same_turns;
      same_messages = ids ∙ c.same_messages;
    }

    start_queued-IsClosedWith :
        (w : Written) (h : Holder) → is_idle h ≡ true → Is (start_queued w h s)
    start_queued-IsClosedWith w (queued n t ms) i = cc
    start_queued-IsClosedWith w nobody i = c
    start_queued-IsClosedWith w closer i = c
    start_queued-IsClosedWith w (running n t ms) i = cc

    refuse_queued-IsClosedWith :
        (x : Thrown) (h : Holder) → is_idle h ≡ true → Is (refuse_queued x h s)
    refuse_queued-IsClosedWith x (queued n t ms) i = cc
    refuse_queued-IsClosedWith x nobody i = c
    refuse_queued-IsClosedWith x closer i = c
    refuse_queued-IsClosedWith x (running n t ms) i = c

    settle_running-IsClosedWith :
        (b : Broken) (r : Result Thrown TurnResult) (h : Holder)
        → is_idle h ≡ true
        → Is (settle_running b r h s)
    settle_running-IsClosedWith b r (running n t ms) i = cc
    settle_running-IsClosedWith b r nobody i = c
    settle_running-IsClosedWith b r closer i = c
    settle_running-IsClosedWith b r (queued n t ms) i = c

    end_close-IsClosedWith :
        (returned : Bool) (h : Holder) → is_idle h ≡ true → Is (end_close returned h s)
    end_close-IsClosedWith true closer i = record {
      shut = refl;
      idle = refl;
      same_turns = c.same_turns;
      same_messages = c.same_messages;
    }
    end_close-IsClosedWith false closer i = record {
      shut = c.shut;
      idle = refl;
      same_turns = c.same_turns;
      same_messages = c.same_messages;
    }
    end_close-IsClosedWith true nobody i = c
    end_close-IsClosedWith true (queued n t ms) i = c
    end_close-IsClosedWith true (running n t ms) i = c
    end_close-IsClosedWith false nobody i = c
    end_close-IsClosedWith false (queued n t ms) i = c
    end_close-IsClosedWith false (running n t ms) i = c

    close_read-IsClosedWith :
        (updated : Bool) (reads : List SessionStatus) → Is (close_read updated reads s)
    close_read-IsClosedWith updated [] = c
    close_read-IsClosedWith updated (k ∷ ks) =
        if-both Is (is_closed k || not updated) _ _ (λ _. kept _ refl refl refl refl)
          (λ _. record {
            shut = refl;
            idle = c.idle;
            same_turns = c.same_turns;
            same_messages = c.same_messages;
          })

    cancel_active-IsClosedWith :
        (turn_id : Option Text) (a : Option ActiveTurn) → Is (cancel_active turn_id a s).1
    cancel_active-IsClosedWith turn_id none = c
    cancel_active-IsClosedWith turn_id (some a) =
        if-both (λ (r : Result Thrown Bool × SessionManager). Is r.1) (is_other_turn turn_id a) _ _
          (λ _. c) (λ _. kept _ refl refl refl refl)

    step-IsClosedWith : (e : Event) → Is (step e s)
    unfolding begin_send lock_granted lock_refused capacity_granted capacity_refused turn_settled
        client_aborts cancel begin_close close_checked close_locked close_settled begin_shutdown
        other_begins other_ends
    step-IsClosedWith (sends n signal) =
        if-both Is signal _ _ (λ _. kept _ refl refl refl refl)
          (λ _.
            if-both Is s.shutting_down _ _ (λ _. kept _ refl refl refl refl)
              (λ _.
                if-both Is (leb s.capacity s.admitted_turns) _ _ (λ _. kept _ refl refl refl refl)
                  (λ _. kept _ refl refl refl refl)))
    step-IsClosedWith (gets_lock n signal turn_id prepared) =
        let t = record s { waiting = erase n s.waiting } in
        let same = kept t refl refl refl refl in
        if-both Is (not (is_free s.holder && contains n s.waiting)) _ _ (λ _. c)
          (λ _.
            if-both Is signal _ _
              (λ _. finish-IsClosedWith n none nobody (err client_cancelled) t same refl)
              (λ _.
                if-both Is s.shutting_down _ _
                  (λ _. finish-IsClosedWith n none nobody (err server_draining) t same refl)
                  (λ _.
                    prepare-IsClosedWith n turn_id (status_error s.status) prepared t same refl)))
    step-IsClosedWith (is_refused_lock n e) =
        if-both Is (contains n s.waiting) _ _
          (λ _.
            finish-IsClosedWith n none s.holder (err e) (record s { waiting = erase n s.waiting })
              (kept _ refl refl refl refl) c.idle)
          (λ _. c)
    step-IsClosedWith (gets_capacity w) = start_queued-IsClosedWith w s.holder c.idle
    step-IsClosedWith (is_refused_capacity e) = refuse_queued-IsClosedWith e s.holder c.idle
    step-IsClosedWith (settles b r) = settle_running-IsClosedWith b r s.holder c.idle
    step-IsClosedWith (aborts n) =
        if-both Is (is_running n s.holder) _ _ (λ _. kept _ refl refl refl refl) (λ _. c)
    step-IsClosedWith (cancels read turn_id) =
        if-both (λ (r : Result Thrown Bool × SessionManager). Is r.1) (is_closed read) _ _ (λ _. c)
          (λ _. cancel_active-IsClosedWith turn_id s.active_turn)
    step-IsClosedWith closes = kept _ refl refl refl refl
    step-IsClosedWith (close_goes_on updated) = close_read-IsClosedWith updated s.close_reads
    step-IsClosedWith close_gets_lock =
        if-both Is (is_free s.holder && ltb 0 s.closers) _ _
          (λ _. record {
            shut = c.shut;
            idle = refl;
            same_turns = c.same_turns;
            same_messages = c.same_messages;
          })
          (λ _. c)
    step-IsClosedWith (close_ends returned) = end_close-IsClosedWith returned s.holder c.idle
    step-IsClosedWith shuts_down = kept _ refl refl refl refl
    step-IsClosedWith other_enters =
        if-both Is (is_admitted s) _ _ (λ _. kept _ refl refl refl refl) (λ _. c)
    step-IsClosedWith other_leaves =
        if-both Is (ltb 0 s.others) _ _ (λ _. kept _ refl refl refl refl) (λ _. c)

  closed_lem : (es : List Event) (s : SessionManager) → Is s → Is (run es s)
  unfolding run
  closed_lem [] s c = c
  closed_lem (e ∷ es) s c = closed_lem es (step e s) (step-IsClosedWith s c e)

-- A session whose status is `closed` at some point of a run from its creation has the status `closed` or
-- `closing` ever after, whatever comes (a call of `close` that has read the status before sets `closing`
-- once more); and from that point on no turn is begun or settled, no message is stored, and the lock is
-- held by `close` or by nobody.
pub run-IsClosedWith :
    (capacity : ℕ) (before after : List Event)
    → (run before (start capacity)).status ≡ closed
    → IsClosedWith
        (run before (start capacity)).turns
        (run before (start capacity)).messages
        (run after (run before (start capacity)))
run-IsClosedWith capacity before after h =
    let s = run before (start capacity) in
    closed_lem s.turns s.messages after s (record {
      shut = ap is_shut h;
      idle = run-IsQuiet before (start capacity) (λ is. cc) h;
      same_turns = refl;
      same_messages = refl;
    })
