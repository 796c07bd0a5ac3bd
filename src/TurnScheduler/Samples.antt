-- ===== src/TurnScheduler/Samples.antt =====
-- Runs of the turn scheduler.
use agent_chatgpt_bridge.Common.{◌≤◌, ◌<◌, ◌≡◌, refl, List, [], ◌∷◌, none, some, length}
use agent_chatgpt_bridge.TurnScheduler.{
  interactive, normal, granted, client_cancelled, local_queue_full, Event, acquires, releases,
  aborts, fresh, run, step, acquire, drain, release, cancel, abort,
}
use agent_chatgpt_bridge.TurnScheduler.Bounds.{run-IsBounded}
use agent_chatgpt_bridge.TurnScheduler.Order.{IsSorted, run-IsSorted}

-- One slot and three places in the queue: call 2 is interactive, call 3 is aborted, call 4 is too many.
abbrev events : List Event
events =
    acquires 0 normal none
    ∷ acquires 1 normal none
    ∷ acquires 2 interactive none
    ∷ acquires 3 normal (some 7)
    ∷ acquires 4 normal none
    ∷ aborts 7
    ∷ releases 0
    ∷ releases 0
    ∷ releases 2
    ∷ []

program : Unit {0}
unfolding run step acquire drain release cancel abort
program = tt

run_outcomes :
    (run 1 3 events fresh).outcomes
    ≡ granted 0 ∷ local_queue_full 4 ∷ client_cancelled 3 ∷ granted 2 ∷ granted 1 ∷ []
unfolding program
run_outcomes = refl

run-IsBounded_example :
    let s = run 1 3 events fresh in
    (s.active ≡ length s.held)
    × (s.active ≤ 1)
    × (length s.queue ≤ 3)
    × (s.active < 1 → length s.queue ≡ 0)
run-IsBounded_example = run-IsBounded 1 3 events

run-IsSorted_example : IsSorted (run 1 3 events fresh).queue
run-IsSorted_example = run-IsSorted 1 3 events
