-- ===== src/TurnScheduler.antt =====
-- src/core/turn-scheduler.ts: the class `TurnScheduler`. A call of `acquire` has a number, which stands
-- for its promise and for the handle that it may get; an `AbortSignal` is a number too. `outcomes`
-- records how promises settle.
pub mod Bounds
pub mod Order
mod Samples
use agent_chatgpt_bridge.Common.{
  ℕ, zero, suc, ◌+◌, ◌-◌, Bool, true, false, not, ◌&&◌, ◌||◌, List, [], ◌∷◌, ◌++◌, Option, none,
  some, number_equality, if◌then◌else◌, leb, ltb, eqb, length, contains, erase,
}

pub data TurnPriority : Type 0 where
  interactive normal : TurnPriority

pub record Waiter : Type 0 where
  pub call : ℕ
  pub priority : TurnPriority
  pub sequence : ℕ
  pub signal : Option ℕ

pub data Outcome : Type 0 where
  granted client_cancelled local_queue_full : ℕ → Outcome

-- `held` has the calls whose handle has `released = false`; `aborted` the signals that are.
pub record Scheduler : Type 0 where
  pub active : ℕ
  pub sequence : ℕ
  pub queue : List Waiter
  pub held : List ℕ
  pub aborted : List ℕ
  pub outcomes : List Outcome

abbrev pub rank : TurnPriority → ℕ
rank interactive = 0
rank normal = 1

-- `compare(a, b) <= 0` of `sortQueue`.
abbrev pub before : Waiter → Waiter → Bool
before a b =
    ltb (rank a.priority) (rank b.priority)
    || eqb (rank a.priority) (rank b.priority) && leb a.sequence b.sequence

abbrev pub insert : Waiter → List Waiter → List Waiter
insert w [] = w ∷ []
insert w (x ∷ xs) = if before w x then w ∷ x ∷ xs else x ∷ insert w xs

-- `queue.sort`, which is stable.
abbrev pub sort_queue : List Waiter → List Waiter
sort_queue [] = []
sort_queue (w ∷ ws) = insert w (sort_queue ws)

-- `signal?.aborted`
abbrev pub is_aborted : Option ℕ → List ℕ → Bool
is_aborted none aborted = false
is_aborted (some signal) aborted = contains signal aborted

abbrev pub grant : ℕ → Scheduler → Scheduler
grant call s = record s {
  active = s.active + 1;
  held = s.held ++ call ∷ [];
  outcomes = s.outcomes ++ granted call ∷ [];
}

unfoldable pub acquire : ℕ → ℕ → ℕ → TurnPriority → Option ℕ → Scheduler → Scheduler
acquire max_active max_queued call priority signal s =
    if is_aborted signal s.aborted
    then record s { outcomes = s.outcomes ++ client_cancelled call ∷ [] }
    else if ltb s.active max_active
    then grant call s
    else if leb max_queued (length s.queue)
    then record s { outcomes = s.outcomes ++ local_queue_full call ∷ [] }
    else record s {
      sequence = s.sequence + 1;
      queue = sort_queue (
          s.queue
          ++ record { call = call; priority = priority; sequence = s.sequence; signal = signal }
            ∷ []);
    }

-- The loop of `drain` over the queue that is left.
unfoldable pub drain : ℕ → List Waiter → Scheduler → Scheduler
drain max_active [] s = record s { queue = [] }
drain max_active (w ∷ ws) s =
    let cancelled = is_aborted w.signal s.aborted in
    let rest = drain max_active ws (
      if cancelled
      then record s { outcomes = s.outcomes ++ client_cancelled w.call ∷ [] }
      else grant w.call s) in
    if ltb s.active max_active then rest else record s { queue = w ∷ ws }

-- The handle of a call.
unfoldable pub release : ℕ → ℕ → Scheduler → Scheduler
release max_active call s =
    if contains call s.held
    then drain max_active s.queue (record s { active = s.active - 1; held = erase call s.held })
    else s

abbrev pub has_signal : ℕ → Waiter → Bool
has_signal signal w = is_aborted w.signal (signal ∷ [])

-- The listeners of a signal, in the order of the queue.
unfoldable pub cancel : ℕ → List Waiter → Scheduler → Scheduler
cancel signal [] s = record s { queue = [] }
cancel signal (w ∷ ws) s =
    if has_signal signal w
    then cancel signal ws (record s { outcomes = s.outcomes ++ client_cancelled w.call ∷ [] })
    else let rest = cancel signal ws s in record rest { queue = w ∷ rest.queue }

unfoldable pub abort : ℕ → Scheduler → Scheduler
abort signal s =
    if contains signal s.aborted
    then s
    else cancel signal s.queue (record s { aborted = s.aborted ++ signal ∷ [] })

-- A call of the class, or the abort of a signal.
pub data Event : Type 0 where
  acquires : ℕ → TurnPriority → Option ℕ → Event
  releases aborts : ℕ → Event

unfoldable pub step : ℕ → ℕ → Event → Scheduler → Scheduler
step max_active max_queued (acquires call priority signal) s =
    acquire max_active max_queued call priority signal s
step max_active max_queued (releases call) s = release max_active call s
step max_active max_queued (aborts signal) s = abort signal s

abbrev pub fresh : Scheduler
fresh = record { active = 0; sequence = 0; queue = []; held = []; aborted = []; outcomes = [] }

unfoldable pub run : ℕ → ℕ → List Event → Scheduler → Scheduler
run max_active max_queued [] s = s
run max_active max_queued (e ∷ es) s = run max_active max_queued es (step max_active max_queued e s)
