-- ===== src/Mutex/Samples.antt =====
-- Runs of the mutex.
use agent_chatgpt_bridge.Common.{◌≡◌, refl, false, List, [], ◌∷◌, none, some, length, if◌then◌else◌}
use agent_chatgpt_bridge.Mutex.{
  granted, client_cancelled, Event, acquires, releases, aborts, unlocked, run, step, acquire,
  pass_on, release, cancel, abort,
}
use agent_chatgpt_bridge.Mutex.Exclusion.{run-IsExclusive}

abbrev events : List Event
events =
    acquires 0 none
    ∷ acquires 1 (some 7)
    ∷ acquires 2 none
    ∷ aborts 7
    ∷ releases 0
    ∷ releases 0
    ∷ []

program : Unit {0}
unfolding run step acquire pass_on release cancel abort
program = tt

mutex_outcomes : (run events unlocked).outcomes ≡ granted 0 ∷ client_cancelled 1 ∷ granted 2 ∷ []
unfolding program
mutex_outcomes = refl

run-IsExclusive_example :
    let m = run events unlocked in
    (length m.held ≡ (if m.locked then 1 else 0)) × (m.locked ≡ false → length m.queue ≡ 0)
run-IsExclusive_example = run-IsExclusive events
