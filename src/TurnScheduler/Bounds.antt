-- ===== src/TurnScheduler/Bounds.antt =====
-- src/core/turn-scheduler.ts: capacity, the bound of the queue, and its order.
use agent_chatgpt_bridge.Common.{
  ℕ, suc, ◌≤◌, ◌<◌, ◌≡◌, refl, ◌∙◌, sym, ap, List, [], ◌∷◌, ◌++◌, Option, number_equality, leb, ltb,
  length, contains, arith, length-append, length-erase, contains-count, length-erase, if-both,
  ltb→lt,
}
use agent_chatgpt_bridge.TurnScheduler.{
  TurnPriority, Waiter, client_cancelled, Scheduler, insert, sort_queue, is_aborted, grant, acquire,
  drain, release, has_signal, cancel, abort, Event, acquires, releases, aborts, step, fresh, run,
}

length-insert : (w : Waiter) (ws : List Waiter) → length (insert w ws) ≡ suc (length ws)
length-insert w [] = refl
length-insert w (x ∷ xs) = ground (arith, length-insert w xs)

length-sort_queue : (ws : List Waiter) → length (sort_queue ws) ≡ length ws
length-sort_queue [] = refl
length-sort_queue (w ∷ ws) = omega (arith, length-sort_queue ws, length-insert w (sort_queue ws))

-- The invariant, for `maxActive` and `maxQueued`.
pub record IsBounded (max_active max_queued : ℕ) (s : Scheduler) : Type 0 where
  pub counted : s.active ≡ length s.held
  pub capped : s.active ≤ max_active
  pub queued : length s.queue ≤ max_queued
  -- Nobody waits while there is capacity.
  pub busy : s.active < max_active → length s.queue ≡ 0

acquire-IsBounded :
    (max_active max_queued call : ℕ) (priority : TurnPriority) (signal : Option ℕ) (s : Scheduler)
    → IsBounded max_active max_queued s
    → IsBounded max_active max_queued (acquire max_active max_queued call priority signal s)
unfolding acquire
acquire-IsBounded max_active max_queued call priority signal s b =
    if-both (IsBounded max_active max_queued) (is_aborted signal s.aborted) _ _
      (λ a. record { counted = b.counted; capped = b.capped; queued = b.queued; busy = b.busy })
      (λ a.
        if-both (IsBounded max_active max_queued) (ltb s.active max_active) _ _
          (λ l. record {
            counted = omega (arith, b.counted, length-append s.held (call ∷ []));
            capped = omega (arith, ltb→lt s.active max_active l);
            queued = b.queued;
            busy = λ f. b.busy (omega (arith, f));
          })
          (λ l.
            if-both (IsBounded max_active max_queued) (leb max_queued (length s.queue)) _ _
              (λ q. record {
                counted = b.counted;
                capped = b.capped;
                queued = b.queued;
                busy = b.busy;
              })
              (λ q.
                let w : Waiter = record {
                  call = call;
                  priority = priority;
                  sequence = s.sequence;
                  signal = signal;
                } in
                record {
                  counted = b.counted;
                  capped = b.capped;
                  queued = ground (
                    arith,
                    q,
                    length-sort_queue (s.queue ++ w ∷ []),
                    length-append s.queue (w ∷ []),
                  );
                  busy = λ f. absurd (ground (arith, l, f));
                })))

drain-IsBounded :
    (max_active max_queued : ℕ) (ws : List Waiter) (s : Scheduler)
    → s.active ≡ length s.held
    → s.active ≤ max_active
    → length ws ≤ max_queued
    → IsBounded max_active max_queued (drain max_active ws s)
unfolding drain
drain-IsBounded max_active max_queued [] s h c q = record {
  counted = h;
  capped = c;
  queued = omega arith;
  busy = λ _. refl;
}
drain-IsBounded max_active max_queued (w ∷ ws) s h c q =
    if-both (IsBounded max_active max_queued) (ltb s.active max_active) _ _
      (λ l.
        if-both (λ s'. IsBounded max_active max_queued (drain max_active ws s'))
          (is_aborted w.signal s.aborted) _ _
          (λ a. drain-IsBounded max_active max_queued ws _ h c (omega (arith, q)))
          (λ a.
            drain-IsBounded max_active max_queued ws (grant w.call s)
              (omega (arith, h, length-append s.held (w.call ∷ [])))
              (omega (arith, ltb→lt s.active max_active l)) (omega (arith, q))))
      (λ l. record {
        counted = h;
        capped = c;
        queued = q;
        busy = λ f. absurd (ground (arith, l, f));
      })

release-IsBounded :
    (max_active max_queued call : ℕ) (s : Scheduler)
    → IsBounded max_active max_queued s
    → IsBounded max_active max_queued (release max_active call s)
unfolding release
release-IsBounded max_active max_queued call s b =
    if-both (IsBounded max_active max_queued) (contains call s.held) _ _
      (λ c.
        drain-IsBounded max_active max_queued s.queue _
          (omega (arith, b.counted, length-erase call s.held (contains-count call s.held c)))
          (omega (arith, b.capped)) b.queued)
      (λ c. b)

-- A cancellation changes the queue only, and does not lengthen it.
record IsShorter (s s' : Scheduler) (n : ℕ) : Type 0 where
  pub active_same : s'.active ≡ s.active
  pub held_same : s'.held ≡ s.held
  pub shorter : length s'.queue ≤ n

cancel-IsShorter :
    (signal : ℕ) (ws : List Waiter) (s : Scheduler) → IsShorter s (cancel signal ws s) (length ws)
unfolding cancel
cancel-IsShorter signal [] s = record {
  active_same = refl;
  held_same = refl;
  shorter = omega arith;
}
cancel-IsShorter signal (w ∷ ws) s =
    if-both (λ s'. IsShorter s s' (suc (length ws))) (has_signal signal w) _ _
      (λ h.
        let r =
          cancel-IsShorter signal ws
            (record s { outcomes = s.outcomes ++ client_cancelled w.call ∷ [] }) in
        record {
          active_same = r.active_same;
          held_same = r.held_same;
          shorter = omega (arith, r.shorter);
        })
      (λ h.
        let r = cancel-IsShorter signal ws s in
        record {
          active_same = r.active_same;
          held_same = r.held_same;
          shorter = omega (arith, r.shorter);
        })

abort-IsBounded :
    (max_active max_queued signal : ℕ) (s : Scheduler)
    → IsBounded max_active max_queued s
    → IsBounded max_active max_queued (abort signal s)
unfolding abort
abort-IsBounded max_active max_queued signal s b =
    if-both (IsBounded max_active max_queued) (contains signal s.aborted) _ _ (λ h. b)
      (λ h.
        let r = cancel-IsShorter signal s.queue (record s { aborted = s.aborted ++ signal ∷ [] }) in
        record {
          counted = r.active_same ∙ b.counted ∙ sym (ap (λ xs. length xs) r.held_same);
          capped = omega (arith, r.active_same, b.capped);
          queued = omega (arith, r.shorter, b.queued);
          busy = λ f. omega (arith, r.shorter, b.busy (omega (arith, f, r.active_same)));
        })

step-IsBounded :
    (max_active max_queued : ℕ) (e : Event) (s : Scheduler)
    → IsBounded max_active max_queued s
    → IsBounded max_active max_queued (step max_active max_queued e s)
unfolding step
step-IsBounded max_active max_queued (acquires call priority signal) s b =
    acquire-IsBounded max_active max_queued call priority signal s b
step-IsBounded max_active max_queued (releases call) s b =
    release-IsBounded max_active max_queued call s b
step-IsBounded max_active max_queued (aborts signal) s b =
    abort-IsBounded max_active max_queued signal s b

run-kept :
    (max_active max_queued : ℕ) (es : List Event) (s : Scheduler)
    → IsBounded max_active max_queued s
    → IsBounded max_active max_queued (run max_active max_queued es s)
unfolding run
run-kept max_active max_queued [] s b = b
run-kept max_active max_queued (e ∷ es) s b =
    run-kept max_active max_queued es _ (step-IsBounded max_active max_queued e s b)

-- After any calls, releases and aborts: `active` is the number of handles not released and at most
-- `maxActive`, at most `maxQueued` calls wait, and none waits while there is capacity.
pub run-IsBounded :
    (max_active max_queued : ℕ) (events : List Event)
    → let s = run max_active max_queued events fresh in
      (s.active ≡ length s.held)
      × (s.active ≤ max_active)
      × (length s.queue ≤ max_queued)
      × (s.active < max_active → length s.queue ≡ 0)
run-IsBounded max_active max_queued events =
    let b =
      run-kept max_active max_queued events fresh
        (record { counted = refl; capped = omega arith; queued = omega arith; busy = λ _. refl }) in
    (b.counted, b.capped, b.queued, b.busy)
