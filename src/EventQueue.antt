-- ===== src/EventQueue.antt =====
-- src/event-queue.ts: the class `AsyncEventQueue`. A call of `next` has a number, which stands for its
-- promise. The values are of a type without `undefined`.
pub mod Delivery
mod Samples
use agent_chatgpt_bridge.Common.{
  ℕ, Bool, true, false, List, [], ◌∷◌, ◌++◌, if◌then◌else◌, leb, length,
}

-- How the promise of a call of `next` settles, and what a call of `push` does.
pub data Outcome (T : Type 0) : Type 0 where
  value : ℕ → T → Outcome T
  done : ℕ → Outcome T
  taken dropped overflow : T → Outcome T

pub record Queue (T : Type 0) : Type 0 where
  pub buffered : List T
  pub waiters : List ℕ
  pub closed : Bool
  pub outcomes : List (Outcome T)

module _ {T : Type 0} where
  abbrev pub note : Outcome T → Queue T → Queue T
  note o q = record q { outcomes = q.outcomes ++ o ∷ [] }

  -- `push` behind its test of `closed`, on the waiters.
  abbrev pub deliver : ℕ → T → List ℕ → Queue T → Queue T
  deliver max_buffered v (w ∷ ws) q = record q {
    waiters = ws;
    outcomes = q.outcomes ++ taken v ∷ value w v ∷ [];
  }
  deliver max_buffered v [] q =
      if leb max_buffered (length q.buffered)
      then note (overflow v) q
      else record q { buffered = q.buffered ++ v ∷ []; outcomes = q.outcomes ++ taken v ∷ [] }

  abbrev pub push : ℕ → T → Queue T → Queue T
  push max_buffered v q =
      if q.closed then note (dropped v) q else deliver max_buffered v q.waiters q

  abbrev pub all_done : List ℕ → List (Outcome T)
  all_done [] = []
  all_done (w ∷ ws) = done w ∷ all_done ws

  abbrev pub close : Queue T → Queue T
  close q =
      if q.closed
      then q
      else record q { closed = true; waiters = []; outcomes = q.outcomes ++ all_done q.waiters }

  -- `next`, on the values buffered.
  abbrev pub take : ℕ → List T → Queue T → Queue T
  take call (v ∷ vs) q = record q { buffered = vs; outcomes = q.outcomes ++ value call v ∷ [] }
  take call [] q =
      if q.closed then note (done call) q else record q { waiters = q.waiters ++ call ∷ [] }

  abbrev pub next : ℕ → Queue T → Queue T
  next call q = take call q.buffered q

-- A call of the class; `closes` is also `return` of the iterator.
pub data Event (T : Type 0) : Type 0 where
  pushes : T → Event T
  nexts : ℕ → Event T
  closes : Event T

module _ {T : Type 0} where
  unfoldable pub step : ℕ → Event T → Queue T → Queue T
  step max_buffered (pushes v) q = push max_buffered v q
  step max_buffered (nexts call) q = next call q
  step max_buffered closes q = close q

  abbrev pub empty : Queue T
  empty = record { buffered = []; waiters = []; closed = false; outcomes = [] }

  unfoldable pub run : ℕ → List (Event T) → Queue T → Queue T
  run max_buffered [] q = q
  run max_buffered (e ∷ es) q = run max_buffered es (step max_buffered e q)
