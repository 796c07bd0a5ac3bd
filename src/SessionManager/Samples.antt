-- ===== src/SessionManager/Samples.antt =====
-- Two calls in one session, and a close.
use agent_chatgpt_bridge.Common.{
  true, false, List, [], ◌∷◌, none, some, ◌++◌, ◌+◌, arith, list_equality, number_equality, ◌≡◌,
  refl, contains,
}
use agent_chatgpt_bridge.Errors.{aborted, ok, err}
use agent_chatgpt_bridge.Js.{codes}
use agent_chatgpt_bridge.Providers.Health.{completed}
use agent_chatgpt_bridge.SessionManager.{
  SessionManager, TurnResult, Message, ready, busy, closing, closed, running, Event, sends,
  gets_lock, gets_capacity, settles, closes, close_gets_lock, close_ends, finish, begin_send,
  lock_granted, lock_refused, capacity_granted, turn_settled, cancel, begin_close, close_checked,
  close_goes_on, written, close_locked, close_settled, begin_shutdown, run, start, end_shutdown,
  client_cancelled,
}
use agent_chatgpt_bridge.SessionManager.Invariant.{IsAccounted, run-IsAccounted}
use agent_chatgpt_bridge.SessionManager.Closed.{IsClosedWith, run-IsClosedWith}
use agent_chatgpt_bridge.SessionManager.Waiters.{run-cancel, lock_refused_forgets}
use agent_chatgpt_bridge.SessionManager.Shutdown.{Poll, await_turns, times, events_of}
use agent_chatgpt_bridge.SessionManager.Shutdown.Returns.{answer, await_turns-answers}

program : Unit {0}
unfolding run begin_send lock_granted finish capacity_granted turn_settled begin_close close_checked
    close_locked close_settled begin_shutdown end_shutdown await_turns
program = tt

abbrev messages : List Message
messages =
    record { id = codes "m1"; transient = false }
    ∷ record { id = codes "m2"; transient = true }
    ∷ []

abbrev result : TurnResult
result = record { turn_id = codes "t1"; status = completed; error_code = none }

-- The provider runs the turn of call 1, and call 2 waits.
abbrev two_calls : List Event
two_calls =
    sends 1 false
    ∷ sends 2 false
    ∷ gets_lock 1 false (codes "t1") (ok messages)
    ∷ gets_capacity written
    ∷ []

abbrev midway : SessionManager
midway = run two_calls (start 10)

midway_running : midway.holder ≡ running 1 (codes "t1") messages
unfolding program
midway_running = refl

midway_busy : midway.status ≡ busy
unfolding program
midway_busy = refl

midway_waiting : contains 2 midway.waiting ≡ true
unfolding program
midway_waiting = refl

-- It completes, call 2 is refused in the closed session.
abbrev closed_events : List Event
closed_events =
    sends 1 false
    ∷ gets_lock 1 false (codes "t1") (ok messages)
    ∷ gets_capacity written
    ∷ settles none (ok result)
    ∷ closes
    ∷ closes
    ∷ close_goes_on true
    ∷ close_gets_lock
    ∷ close_ends true
    ∷ []

closed_after : (run closed_events (start 10)).status ≡ closed
unfolding program
closed_after = refl

-- The other call of `close` read the status before.
reclosed : (run (close_goes_on true ∷ []) (run closed_events (start 10))).status ≡ closing
unfolding program
reclosed = refl

-- The store throws at the second write of a turn that has returned: its row is written, no message is.
abbrev broken_events : List Event
broken_events =
    sends 1 false
    ∷ gets_lock 1 false (codes "t1") (ok messages)
    ∷ gets_capacity written
    ∷ settles (some (1, aborted)) (ok result)
    ∷ []

broken_outcome : (run broken_events (start 10)).outcomes ≡ (1, err aborted) ∷ []
unfolding program
broken_outcome = refl

broken_messages : (run broken_events (start 10)).messages ≡ []
unfolding program
broken_messages = refl

-- A transient message is not kept.
closed_messages : (run closed_events (start 10)).messages ≡ codes "m1" ∷ codes "msg_t1" ∷ []
unfolding program
closed_messages = refl

run-IsAccounted_example : IsAccounted midway
run-IsAccounted_example = run-IsAccounted 10 two_calls

run-IsClosedWith_example :
    IsClosedWith
      (run closed_events (start 10)).turns
      (run closed_events (start 10)).messages
      (run two_calls (run closed_events (start 10)))
run-IsClosedWith_example = run-IsClosedWith 10 closed_events two_calls closed_after

run-cancel_example :
    ((cancel none midway).0 ≡ ok true) × (contains 1 (cancel none midway).1.aborted_calls ≡ true)
run-cancel_example =
    run-cancel 10 two_calls 1 (codes "t1") messages (tt, (tt, (tt, (tt, tt)))) midway_running

lock_refused_forgets_example :
    let s' = lock_refused 2 client_cancelled midway in
    (s'.holder ≡ running 1 (codes "t1") messages)
    × (s'.status ≡ ready)
    × ((cancel none s').0 ≡ ok false)
    × ((begin_shutdown s').aborted_calls ≡ midway.aborted_calls)
lock_refused_forgets_example =
    lock_refused_forgets midway 2 1 (codes "t1") messages client_cancelled midway_running
      midway_busy midway_waiting

-- `shutdown` at that point: call 1 returns before the second test of its loop, call 2 is granted the lock
-- before the third.
abbrev polls : List Poll
polls = (1, settles none (ok result) ∷ []) ∷ (2, gets_lock 2 false (codes "t2") (ok []) ∷ []) ∷ []

abbrev draining : SessionManager
draining = begin_shutdown midway

await_turns_returned : (await_turns 10 (polls ++ (3, []) ∷ []) draining).0 ≡ some (ok tt)
unfolding program
await_turns_returned = refl

await_turns-answers_example :
    ((await_turns 10 (polls ++ (3, []) ∷ []) draining).0
      ≡ answer 10 3 (times (events_of polls) draining) draining.admitted_turns)
    × (times (events_of polls) draining + (run (events_of polls) draining).admitted_turns
        ≡ draining.admitted_turns)
unfolding run
await_turns-answers_example =
    await_turns-answers 10 two_calls [] 10 3 polls (omega arith, (omega arith, tt))
