-- ===== src/EventQueue/Samples.antt =====
-- A run of the event queue.
use agent_chatgpt_bridge.Common.{ℕ, ◌≤◌, ◌≡◌, ◌⊎◌, refl, List, [], ◌∷◌, ◌++◌, length}
use agent_chatgpt_bridge.EventQueue.{
  value, done, taken, overflow, Event, pushes, nexts, closes, empty, run, step,
}
use agent_chatgpt_bridge.EventQueue.Delivery.{accepted, given, run-IsDelivered}

abbrev events : List (Event ℕ)
events = nexts 0 ∷ pushes 10 ∷ pushes 11 ∷ pushes 12 ∷ nexts 1 ∷ nexts 2 ∷ closes ∷ []

program : Unit {0}
unfolding run step
program = tt

queue_outcomes :
    (run 1 events empty).outcomes
    ≡ taken 10 ∷ value 0 10 ∷ taken 11 ∷ overflow 12 ∷ value 1 11 ∷ done 2 ∷ []
unfolding program
queue_outcomes = refl

run-IsDelivered_example :
    let q = run 1 events empty in
    (accepted q.outcomes ≡ given q.outcomes ++ q.buffered)
    × (length q.buffered ≤ 1)
    × ((q.waiters ≡ []) ⊎ (q.buffered ≡ []))
run-IsDelivered_example = run-IsDelivered 1 events
