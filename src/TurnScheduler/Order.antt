-- ===== src/TurnScheduler/Order.antt =====
-- src/core/turn-scheduler.ts: the order in which calls wait.
use agent_chatgpt_bridge.Common.{
  ℕ, ◌≡◌, true, false, List, [], ◌∷◌, ◌++◌, Option, number_equality, leb, ltb, length, contains,
  arith, if-both, All,
}
use agent_chatgpt_bridge.TurnScheduler.{
  TurnPriority, Waiter, Scheduler, before, insert, sort_queue, is_aborted, acquire, drain, release,
  has_signal, cancel, abort, Event, acquires, releases, aborts, step, fresh, run,
}

-- Each waiter goes before all that stand behind it.
abbrev pub IsSorted : List Waiter → Type 0
IsSorted [] = Unit
IsSorted (w ∷ ws) = All (λ x. before w x ≡ true) ws × IsSorted ws

before_trans : (a b c : Waiter) → before a b ≡ true → before b c ≡ true → before a c ≡ true
before_trans a b c h g = ground arith

before_total : (a b : Waiter) → before a b ≡ false → before b a ≡ true
before_total a b h = ground arith

All-trans :
    (a b : Waiter) (ws : List Waiter)
    → before a b ≡ true
    → All (λ x. before b x ≡ true) ws
    → All (λ x. before a x ≡ true) ws
All-trans a b [] h all = tt
All-trans a b (w ∷ ws) h all = (before_trans a b w h all.0, All-trans a b ws h all.1)

All-insert :
    (P : Waiter → Type 0) (w : Waiter) (ws : List Waiter) → P w → All P ws → All P (insert w ws)
All-insert P w [] p all = (p, tt)
All-insert P w (x ∷ xs) p all =
    if-both (All P) (before w x) _ _ (λ h. (p, all)) (λ h. (all.0, All-insert P w xs p all.1))

insert-IsSorted : (w : Waiter) (ws : List Waiter) → IsSorted ws → IsSorted (insert w ws)
insert-IsSorted w [] s = (tt, tt)
insert-IsSorted w (x ∷ xs) s =
    if-both IsSorted (before w x) _ _ (λ h. ((h, All-trans w x xs h s.0), s))
      (λ h. (
        All-insert (λ y. before x y ≡ true) w xs (before_total w x h) s.0,
        insert-IsSorted w xs s.1,
      ))

sort_queue-IsSorted : (ws : List Waiter) → IsSorted (sort_queue ws)
sort_queue-IsSorted [] = tt
sort_queue-IsSorted (w ∷ ws) = insert-IsSorted w (sort_queue ws) (sort_queue-IsSorted ws)

abbrev Waits : Scheduler → Type 0
Waits s = IsSorted s.queue

acquire-IsSorted :
    (max_active max_queued call : ℕ) (priority : TurnPriority) (signal : Option ℕ) (s : Scheduler)
    → Waits s
    → Waits (acquire max_active max_queued call priority signal s)
unfolding acquire
acquire-IsSorted max_active max_queued call priority signal s w =
    if-both Waits (is_aborted signal s.aborted) _ _ (λ a. w)
      (λ a.
        if-both Waits (ltb s.active max_active) _ _ (λ l. w)
          (λ l.
            if-both Waits (leb max_queued (length s.queue)) _ _ (λ q. w)
              (λ q. sort_queue-IsSorted (
                s.queue
                ++ record {
                  call = call;
                  priority = priority;
                  sequence = s.sequence;
                  signal = signal;
                }
                  ∷ []))))

drain-IsSorted :
    (max_active : ℕ) (ws : List Waiter) (s : Scheduler)
    → IsSorted ws
    → Waits (drain max_active ws s)
unfolding drain
drain-IsSorted max_active [] s w = tt
drain-IsSorted max_active (x ∷ xs) s w =
    if-both Waits (ltb s.active max_active) _ _ (λ l. drain-IsSorted max_active xs _ w.1) (λ l. w)

release-IsSorted :
    (max_active call : ℕ) (s : Scheduler) → Waits s → Waits (release max_active call s)
unfolding release
release-IsSorted max_active call s w =
    if-both Waits (contains call s.held) _ _ (λ c. drain-IsSorted max_active s.queue _ w) (λ c. w)

cancel-All :
    (P : Waiter → Type 0) (signal : ℕ) (ws : List Waiter) (s : Scheduler)
    → All P ws
    → All P (cancel signal ws s).queue
unfolding cancel
cancel-All P signal [] s all = tt
cancel-All P signal (w ∷ ws) s all =
    if-both (λ (s' : Scheduler). All P s'.queue) (has_signal signal w) _ _
      (λ h. cancel-All P signal ws _ all.1) (λ h. (all.0, cancel-All P signal ws s all.1))

cancel-IsSorted :
    (signal : ℕ) (ws : List Waiter) (s : Scheduler) → IsSorted ws → Waits (cancel signal ws s)
unfolding cancel
cancel-IsSorted signal [] s w = tt
cancel-IsSorted signal (x ∷ xs) s w =
    if-both Waits (has_signal signal x) _ _ (λ h. cancel-IsSorted signal xs _ w.1)
      (λ h. (cancel-All (λ y. before x y ≡ true) signal xs s w.0, cancel-IsSorted signal xs s w.1))

step-IsSorted :
    (max_active max_queued : ℕ) (e : Event) (s : Scheduler)
    → Waits s
    → Waits (step max_active max_queued e s)
unfolding step abort
step-IsSorted max_active max_queued (acquires call priority signal) s w =
    acquire-IsSorted max_active max_queued call priority signal s w
step-IsSorted max_active max_queued (releases call) s w = release-IsSorted max_active call s w
step-IsSorted max_active max_queued (aborts signal) s w =
    if-both Waits (contains signal s.aborted) _ _ (λ h. w) (λ h. cancel-IsSorted signal s.queue _ w)

run-kept_sorted :
    (max_active max_queued : ℕ) (es : List Event) (s : Scheduler)
    → Waits s
    → Waits (run max_active max_queued es s)
unfolding run
run-kept_sorted max_active max_queued [] s w = w
run-kept_sorted max_active max_queued (e ∷ es) s w =
    run-kept_sorted max_active max_queued es _ (step-IsSorted max_active max_queued e s w)

-- After any calls, releases and aborts the queue is in order: whoever stands before another call is
-- `interactive` where the other is `normal`, or has the same priority and a sequence number that is
-- not larger.
pub run-IsSorted :
    (max_active max_queued : ℕ) (events : List Event)
    → IsSorted (run max_active max_queued events fresh).queue
run-IsSorted max_active max_queued events = run-kept_sorted max_active max_queued events fresh tt
