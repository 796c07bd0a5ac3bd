-- ===== src/Mutex.antt =====
-- src/core/mutex.ts: the class `Mutex`. A call of `acquire` has a number, which stands for its promise
-- and for the function that it resolves to; an `AbortSignal` is a number too.
pub mod Exclusion
mod Samples
use agent_chatgpt_bridge.Common.{
  ℕ, Bool, true, false, List, [], ◌∷◌, ◌++◌, Option, none, some, number_equality, if◌then◌else◌,
  contains, erase,
}

pub record Waiter : Type 0 where
  pub call : ℕ
  pub signal : Option ℕ

-- How promises settle.
pub data Outcome : Type 0 where
  granted client_cancelled : ℕ → Outcome

-- `held` has the calls with `released = false`; `aborted` the signals that are.
pub record Lock : Type 0 where
  pub queue : List Waiter
  pub locked : Bool
  pub held : List ℕ
  pub aborted : List ℕ
  pub outcomes : List Outcome

-- `signal?.aborted`
abbrev pub is_aborted : Option ℕ → List ℕ → Bool
is_aborted none aborted = false
is_aborted (some signal) aborted = contains signal aborted

abbrev pub reject : ℕ → Lock → Lock
reject call m = record m { outcomes = m.outcomes ++ client_cancelled call ∷ [] }

-- `waiter.grant()`
abbrev pub grant : ℕ → Lock → Lock
grant call m = record m {
  locked = true;
  held = m.held ++ call ∷ [];
  outcomes = m.outcomes ++ granted call ∷ [];
}

unfoldable pub acquire : ℕ → Option ℕ → Lock → Lock
acquire call signal m =
    if is_aborted signal m.aborted
    then reject call m
    else if m.locked
    then record m { queue = m.queue ++ record { call = call; signal = signal } ∷ [] }
    else grant call m

-- `release`, on the queue that is left.
unfoldable pub pass_on : List Waiter → Lock → Lock
pass_on [] m = record m { queue = []; locked = false }
pass_on (w ∷ ws) m =
    let rest = pass_on ws (reject w.call m) in
    if is_aborted w.signal m.aborted then rest else grant w.call (record m { queue = ws })

-- The function that a promise resolves to.
unfoldable pub release : ℕ → Lock → Lock
release call m =
    if contains call m.held then pass_on m.queue (record m { held = erase call m.held }) else m

-- The listeners of a signal, in the order of the queue.
unfoldable pub cancel : ℕ → List Waiter → Lock → Lock
cancel signal [] m = record m { queue = [] }
cancel signal (w ∷ ws) m =
    if is_aborted w.signal (signal ∷ [])
    then cancel signal ws (reject w.call m)
    else let rest = cancel signal ws m in record rest { queue = w ∷ rest.queue }

unfoldable pub abort : ℕ → Lock → Lock
abort signal m =
    if contains signal m.aborted
    then m
    else cancel signal m.queue (record m { aborted = m.aborted ++ signal ∷ [] })

pub data Event : Type 0 where
  acquires : ℕ → Option ℕ → Event
  releases aborts : ℕ → Event

unfoldable pub step : Event → Lock → Lock
step (acquires call signal) m = acquire call signal m
step (releases call) m = release call m
step (aborts signal) m = abort signal m

abbrev pub unlocked : Lock
unlocked = record { queue = []; locked = false; held = []; aborted = []; outcomes = [] }

unfoldable pub run : List Event → Lock → Lock
run [] m = m
run (e ∷ es) m = run es (step e m)
