-- ===== src/SessionManager.antt =====
-- src/core/session-manager.ts, for one session of the store. What stands between two awaits of a method
-- is one step. A call of `send` has a number. The session's lock and the scheduler are what Mutex and
-- TurnScheduler show them to be: a call gets the lock when nobody holds it. Sends of other sessions are
-- events that only count. The status that `send` reads under the lock is tested in the same step: what
-- other calls do while `resolveSession` is awaited there neither depends on that test nor changes its
-- outcome. The writes of the stores may throw, but those of the session in `finally` are taken to succeed.
pub mod Stores
pub mod Invariant
pub mod Quiet
pub mod Closed
pub mod Waiters
pub mod Shutdown
mod Samples
use agent_chatgpt_bridge.Common.{
  ℕ, zero, suc, ◌+◌, ◌-◌, Bool, true, false, ◌&&◌, ◌||◌, not, List, [], ◌∷◌, ◌++◌, Option, none,
  some, ◌==◌, list_equality, number_equality, if◌then◌else◌, contains, erase, leb, ltb,
}
use agent_chatgpt_bridge.Errors.{BridgeError, Thrown, bridge, aborted, other, Result, ok, err}
use agent_chatgpt_bridge.Js.{Text, codes}
pub use agent_chatgpt_bridge.SessionManager.Stores.{
  Message, TurnResult, TurnRow, Written, written, create_throws, update_throws, create_turn, Stored,
  Broken, is_abort, store_error, store_result,
}

pub data SessionStatus : Type 0 where
  created ready busy closing closed error : SessionStatus

-- Who holds the session's lock: a call that waits for capacity, a call whose provider runs its turn, or
-- `close`.
pub data Holder : Type 0 where
  nobody closer : Holder
  queued running : ℕ → Text → List Message → Holder

-- An entry of `activeTurns`; its controller is that of the call.
pub record ActiveTurn : Type 0 where
  pub turn_id : Text
  pub call : ℕ

pub record SessionManager : Type 0 where
  pub status : SessionStatus
  pub shutting_down : Bool
  pub admitted_turns : ℕ
  -- `maxActive + maxQueued` of the scheduler.
  pub capacity : ℕ
  -- The calls that wait for the lock, those of `close` that do, and the sends of other sessions.
  pub waiting : List ℕ
  pub closers : ℕ
  -- The statuses that calls of `close` have read, of those that have not gone on since.
  pub close_reads : List SessionStatus
  pub others : ℕ
  pub holder : Holder
  pub active_turn : Option ActiveTurn
  -- The calls whose controller has aborted.
  pub aborted_calls : List ℕ
  pub turns : List TurnRow
  pub messages : List Text
  -- How calls have ended.
  pub outcomes : List (ℕ × Result Thrown TurnResult)

abbrev pub refuse : Text → Bool → Thrown
refuse code retryable = bridge (record { code = code; retryable = retryable })

abbrev pub client_cancelled : Thrown
client_cancelled = refuse (codes "client_cancelled") false

abbrev pub server_draining : Thrown
server_draining = refuse (codes "server_draining") true

abbrev pub local_queue_full : Thrown
local_queue_full = refuse (codes "local_queue_full") true

abbrev pub is_busy : SessionStatus → Bool
is_busy busy = true
is_busy _ = false

abbrev pub is_closed : SessionStatus → Bool
is_closed closed = true
is_closed _ = false

abbrev pub end_call : ℕ → Result Thrown TurnResult → SessionManager → SessionManager
end_call n r s = record s { outcomes = s.outcomes ++ (n, r) ∷ [] }

-- `!turnId || active?.turnId === turnId`
abbrev pub forget : Option Text → Option ActiveTurn → Option ActiveTurn
forget none active = none
forget (some turn_id) none = none
forget (some turn_id) (some a) = if a.turn_id == turn_id then none else some a

abbrev pub settle_status : SessionStatus → SessionStatus
settle_status status = if is_busy status then ready else status

-- The `finally` of `send`: `turn_id` if the call has one, and who holds the lock after it.
unfoldable pub finish :
    ℕ → Option Text → Holder → Result Thrown TurnResult → SessionManager → SessionManager
finish n turn_id holder r s = end_call n r (record s {
  active_turn = forget turn_id s.active_turn;
  status = settle_status s.status;
  holder = holder;
  admitted_turns = s.admitted_turns - 1;
})

-- `admitTurn`
abbrev pub is_admitted : SessionManager → Bool
is_admitted s = not s.shutting_down && ltb s.admitted_turns s.capacity

-- `send` as far as the lock, for a signal that has aborted or not.
unfoldable pub begin_send : ℕ → Bool → SessionManager → SessionManager
begin_send n signal_aborted s =
    if signal_aborted
    then end_call n (err client_cancelled) s
    else if s.shutting_down
    then end_call n (err server_draining) s
    else if leb s.capacity s.admitted_turns
    then end_call n (err local_queue_full) s
    else record s { admitted_turns = s.admitted_turns + 1; waiting = s.waiting ++ n ∷ [] }

-- What the status of the session says to a call that has the lock.
abbrev pub status_error : SessionStatus → Option Thrown
status_error closed = some (refuse (codes "session_closed") false)
status_error closing = some (refuse (codes "session_closed") false)
status_error error = some (refuse (codes "session_error") false)
status_error _ = none

-- `providerFor`, the checks of the request and the reading of the history may throw: `prepared`.
abbrev pub prepare :
    ℕ → Text → Option Thrown → Result Thrown (List Message) → SessionManager → SessionManager
prepare n turn_id (some e) prepared s = finish n none nobody (err e) s
prepare n turn_id none (err e) s = finish n none nobody (err e) s
prepare n turn_id none (ok messages) s = record s { holder = queued n turn_id messages }

abbrev pub is_free : Holder → Bool
is_free nobody = true
is_free _ = false

-- The lock is granted to a call that waits for it.
unfoldable pub lock_granted :
    ℕ → Bool → Text → Result Thrown (List Message) → SessionManager → SessionManager
lock_granted n signal_aborted turn_id prepared s =
    if not (is_free s.holder && contains n s.waiting)
    then s
    else let t = record s { waiting = erase n s.waiting } in
      if signal_aborted
      then finish n none nobody (err client_cancelled) t
      else if s.shutting_down
      then finish n none nobody (err server_draining) t
      else prepare n turn_id (status_error s.status) prepared t

-- A call that waits for the lock is aborted.
unfoldable pub lock_refused : ℕ → Thrown → SessionManager → SessionManager
lock_refused n e s =
    if contains n s.waiting
    then finish n none s.holder (err e) (record s { waiting = erase n s.waiting })
    else s

abbrev pub start_turn : ℕ → Text → List Message → Written → SessionManager → SessionManager
start_turn n turn_id messages written s = record s {
  active_turn = some (record { turn_id = turn_id; call = n });
  turns = create_turn turn_id s.turns;
  status = busy;
  holder = running n turn_id messages;
}
start_turn n turn_id messages (create_throws e) s =
    finish n (some turn_id) nobody (err e)
      (record s { active_turn = some (record { turn_id = turn_id; call = n }) })
start_turn n turn_id messages (update_throws e) s =
    finish n (some turn_id) nobody (err e) (record s {
      active_turn = some (record { turn_id = turn_id; call = n });
      turns = create_turn turn_id s.turns;
    })

abbrev pub start_queued : Written → Holder → SessionManager → SessionManager
start_queued w (queued n turn_id messages) s =
    if s.shutting_down
    then finish n (some turn_id) nobody (err server_draining) s
    else start_turn n turn_id messages w s
start_queued w _ s = s

-- The scheduler has capacity for the call that waits for it, or refuses it.
unfoldable pub capacity_granted : Written → SessionManager → SessionManager
capacity_granted w s = start_queued w s.holder s

abbrev pub refuse_queued : Thrown → Holder → SessionManager → SessionManager
refuse_queued e (queued n turn_id messages) s = finish n (some turn_id) nobody (err e) s
refuse_queued e _ s = s

unfoldable pub capacity_refused : Thrown → SessionManager → SessionManager
capacity_refused e s = refuse_queued e s.holder s

abbrev pub store :
    ℕ → Text → List Message → Broken → Result Thrown TurnResult → SessionManager → Stored
store n turn_id messages broken (ok r) s = store_result turn_id messages r broken s.turns s.messages
store n turn_id messages broken (err e) s =
    store_error turn_id (contains n s.aborted_calls || is_abort e) e broken s.turns s.messages

abbrev pub finish_stored : ℕ → Text → Stored → SessionManager → SessionManager
finish_stored n turn_id w s =
    finish n (some turn_id) nobody w.outcome (record s { turns = w.rows; messages = w.ids })

abbrev pub settle_running :
    Broken → Result Thrown TurnResult → Holder → SessionManager → SessionManager
settle_running broken r (running n turn_id messages) s =
    finish_stored n turn_id (store n turn_id messages broken r s) s
settle_running broken r _ s = s

-- The provider's turn returns or throws.
unfoldable pub turn_settled : Broken → Result Thrown TurnResult → SessionManager → SessionManager
turn_settled broken r s = settle_running broken r s.holder s

-- `controller.abort()` of the entry in `activeTurns`.
abbrev pub abort_active : Option ActiveTurn → List ℕ → List ℕ
abort_active none calls = calls
abort_active (some a) calls = if contains a.call calls then calls else a.call ∷ calls

abbrev pub is_running : ℕ → Holder → Bool
is_running n (running k turn_id messages) = k == n
is_running n _ = false

-- The signal of the request aborts while the provider runs its turn.
unfoldable pub client_aborts : ℕ → SessionManager → SessionManager
client_aborts n s =
    if is_running n s.holder then record s { aborted_calls = n ∷ s.aborted_calls } else s

-- `cancel`: of a turn id, or of the latest turn.
abbrev pub is_other_turn : Option Text → ActiveTurn → Bool
is_other_turn none a = false
is_other_turn (some turn_id) a = not (a.turn_id == turn_id)

abbrev pub cancel_active :
    Option Text → Option ActiveTurn → SessionManager → Result Thrown Bool × SessionManager
cancel_active turn_id none s = (ok false, s)
cancel_active turn_id (some a) s =
    if is_other_turn turn_id a
    then (err (refuse (codes "turn_not_active") false), s)
    else (ok true, record s { aborted_calls = abort_active (some a) s.aborted_calls })

-- What follows the reading of the session.
abbrev pub cancel_read :
    SessionStatus → Option Text → SessionManager → Result Thrown Bool × SessionManager
cancel_read read turn_id s =
    if is_closed read
    then (err (refuse (codes "session_closed") false), s)
    else cancel_active turn_id s.active_turn s

-- `cancel` when nothing comes in between.
unfoldable pub cancel : Option Text → SessionManager → Result Thrown Bool × SessionManager
cancel turn_id s = cancel_read s.status turn_id s

-- `close` reads the session.
unfoldable pub begin_close : SessionManager → SessionManager
begin_close s = record s { close_reads = s.close_reads ++ s.status ∷ [] }

abbrev pub close_read : Bool → List SessionStatus → SessionManager → SessionManager
close_read updated [] s = s
close_read updated (read ∷ reads) s =
    if is_closed read || not updated then record s { close_reads = reads } else record s {
      close_reads = reads;
      status = closing;
      aborted_calls = abort_active s.active_turn s.aborted_calls;
      closers = s.closers + 1;
    }

-- The first call of `close` that has read goes on as far as the lock, by what it has read;
-- `sessionStore.update` succeeds or throws.
unfoldable pub close_checked : Bool → SessionManager → SessionManager
close_checked updated s = close_read updated s.close_reads s

unfoldable pub close_locked : SessionManager → SessionManager
close_locked s =
    if is_free s.holder && ltb 0 s.closers
    then record s { holder = closer; closers = s.closers - 1 }
    else s

abbrev pub end_close : Bool → Holder → SessionManager → SessionManager
end_close true closer s = record s { status = closed; active_turn = none; holder = nobody }
end_close false closer s = record s { holder = nobody }
end_close _ _ s = s

-- `providerFor`, `closeSession` and the store's update return, or one of them throws.
unfoldable pub close_settled : Bool → SessionManager → SessionManager
close_settled returned s = end_close returned s.holder s

-- `shutdown` as far as its loop, and what it makes of the turns that are left after it.
unfoldable pub begin_shutdown : SessionManager → SessionManager
begin_shutdown s = record s {
  shutting_down = true;
  aborted_calls = abort_active s.active_turn s.aborted_calls;
}

unfoldable pub end_shutdown : SessionManager → Result Thrown (Unit {0})
end_shutdown s =
    if ltb 0 s.admitted_turns then err (refuse (codes "shutdown_timeout") false) else ok tt

-- A send of another session is admitted, or ends.
unfoldable pub other_begins : SessionManager → SessionManager
other_begins s =
    if is_admitted s
    then record s { admitted_turns = s.admitted_turns + 1; others = s.others + 1 }
    else s

unfoldable pub other_ends : SessionManager → SessionManager
other_ends s =
    if ltb 0 s.others
    then record s { admitted_turns = s.admitted_turns - 1; others = s.others - 1 }
    else s

pub data Event : Type 0 where
  sends : ℕ → Bool → Event
  gets_lock : ℕ → Bool → Text → Result Thrown (List Message) → Event
  is_refused_lock : ℕ → Thrown → Event
  gets_capacity : Written → Event
  is_refused_capacity : Thrown → Event
  settles : Broken → Result Thrown TurnResult → Event
  aborts : ℕ → Event
  -- `cancel`, and the status that it has read.
  cancels : SessionStatus → Option Text → Event
  closes : Event
  close_goes_on : Bool → Event
  close_gets_lock : Event
  close_ends : Bool → Event
  shuts_down : Event
  other_enters other_leaves : Event

abbrev pub step : Event → SessionManager → SessionManager
step (sends n signal_aborted) s = begin_send n signal_aborted s
step (gets_lock n signal_aborted turn_id prepared) s =
    lock_granted n signal_aborted turn_id prepared s
step (is_refused_lock n e) s = lock_refused n e s
step (gets_capacity w) s = capacity_granted w s
step (is_refused_capacity e) s = capacity_refused e s
step (settles broken r) s = turn_settled broken r s
step (aborts n) s = client_aborts n s
step (cancels read turn_id) s = (cancel_read read turn_id s).1
step closes s = begin_close s
step (close_goes_on updated) s = close_checked updated s
step close_gets_lock s = close_locked s
step (close_ends returned) s = close_settled returned s
step shuts_down s = begin_shutdown s
step other_enters s = other_begins s
step other_leaves s = other_ends s

unfoldable pub run : List Event → SessionManager → SessionManager
run [] s = s
run (e ∷ es) s = run es (step e s)

-- A session that has just been created, with nothing under way.
abbrev pub start : ℕ → SessionManager
start capacity = record {
  status = ready;
  shutting_down = false;
  admitted_turns = 0;
  capacity = capacity;
  waiting = [];
  closers = 0;
  close_reads = [];
  others = 0;
  holder = nobody;
  active_turn = none;
  aborted_calls = [];
  turns = [];
  messages = [];
  outcomes = [];
}
