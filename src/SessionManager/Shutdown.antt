-- ===== src/SessionManager/Shutdown.antt =====
-- src/core/session-manager.ts: the loop of `shutdown`, and the calls of `send` that it waits for.
pub mod Ends
pub mod Returns
pub mod Possible
use agent_chatgpt_bridge.Common.{
  ℕ, ◌+◌, Bool, true, false, ◌&&◌, List, [], ◌∷◌, ◌++◌, Option, none, some, list_equality,
  number_equality, if◌then◌else◌, contains, ltb,
}
use agent_chatgpt_bridge.Errors.{Thrown, Result}
use agent_chatgpt_bridge.SessionManager.{
  SessionManager, Holder, nobody, closer, queued, running, Event, sends, gets_lock, is_refused_lock,
  gets_capacity, is_refused_capacity, settles, other_leaves, is_free, step, run, end_shutdown,
}

-- A test of the loop: the clock, and what happens in the ten milliseconds after it.
abbrev pub Poll : Type 0
Poll = ℕ × List Event

-- The loop of `shutdown` and what follows it; with no test left it still waits.
unfoldable pub await_turns :
    ℕ → List Poll → SessionManager → Option (Result Thrown (Unit {0})) × SessionManager
await_turns deadline [] s = (none, s)
await_turns deadline ((now, events) ∷ polls) s =
    let waited = await_turns deadline polls (run events s) in
    if ltb 0 s.admitted_turns && ltb now deadline then waited else (some (end_shutdown s), s)

abbrev pub is_queued : Holder → Bool
is_queued (queued n turn_id messages) = true
is_queued _ = false

abbrev pub is_run : Holder → Bool
is_run (running n turn_id messages) = true
is_run _ = false

-- Whether an admitted call goes on by an event, be it that it gets what it waits for, that it is refused
-- it, or that its provider is done.
abbrev pub goes_on : Event → SessionManager → Bool
goes_on (gets_lock n signal_aborted turn_id prepared) s = is_free s.holder && contains n s.waiting
goes_on (is_refused_lock n e) s = contains n s.waiting
goes_on (gets_capacity w) s = is_queued s.holder
goes_on (is_refused_capacity e) s = is_queued s.holder
goes_on (settles broken r) s = is_run s.holder
goes_on other_leaves s = ltb 0 s.others
goes_on _ s = false

-- How often that happens.
unfoldable pub times : List Event → SessionManager → ℕ
times [] s = 0
times (e ∷ es) s = (if goes_on e s then 1 else 0) + times es (step e s)

-- What happens between the tests of the loop.
abbrev pub events_of : List Poll → List Event
events_of [] = []
events_of ((now, events) ∷ polls) = events ++ events_of polls
