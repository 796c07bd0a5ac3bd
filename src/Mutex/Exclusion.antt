-- ===== src/Mutex/Exclusion.antt =====
-- src/core/mutex.ts: mutual exclusion.
use agent_chatgpt_bridge.Common.{
  ℕ, suc, ◌≤◌, ◌≡◌, refl, sym, ap, ◌∙◌, false, List, [], ◌∷◌, ◌++◌, Option, number_equality,
  if◌then◌else◌, length, contains, arith, if-both, length-append, length-erase, contains-count,
}
use agent_chatgpt_bridge.Mutex.{
  Waiter, Lock, is_aborted, reject, acquire, pass_on, release, cancel, abort, Event, acquires,
  releases, aborts, step, unlocked, run,
}

pub record IsExclusive (m : Lock) : Type 0 where
  pub counted : length m.held ≡ (if m.locked then 1 else 0)
  -- Nobody waits for a free lock.
  pub busy : m.locked ≡ false → length m.queue ≡ 0

acquire-IsExclusive :
    (call : ℕ) (signal : Option ℕ) (m : Lock) → IsExclusive m → IsExclusive (acquire call signal m)
unfolding acquire
acquire-IsExclusive call signal m x =
    if-both IsExclusive (is_aborted signal m.aborted) _ _
      (λ a. record { counted = x.counted; busy = x.busy })
      (λ a.
        if-both IsExclusive m.locked _ _
          (λ l. record { counted = x.counted; busy = λ f. absurd (cc) })
          (λ l. record {
            counted = ground (arith, l, x.counted, length-append m.held (call ∷ []));
            busy = λ f. absurd (cc);
          }))

pass_on-IsExclusive : (ws : List Waiter) (m : Lock) → length m.held ≡ 0 → IsExclusive (pass_on ws m)
unfolding pass_on
pass_on-IsExclusive [] m h = record { counted = h; busy = λ _. refl }
pass_on-IsExclusive (w ∷ ws) m h =
    if-both IsExclusive (is_aborted w.signal m.aborted) _ _
      (λ a. pass_on-IsExclusive ws (reject w.call m) h)
      (λ a. record {
        counted = omega (arith, h, length-append m.held (w.call ∷ []));
        busy = λ f. absurd (cc);
      })

release-IsExclusive : (call : ℕ) (m : Lock) → IsExclusive m → IsExclusive (release call m)
unfolding release
release-IsExclusive call m x =
    if-both IsExclusive (contains call m.held) _ _
      (λ c.
        pass_on-IsExclusive m.queue _
          (ground (arith, x.counted, length-erase call m.held (contains-count call m.held c))))
      (λ c. x)

-- A cancellation changes the queue only, and does not lengthen it.
record IsShorter (m m' : Lock) (n : ℕ) : Type 0 where
  pub locked_same : m'.locked ≡ m.locked
  pub held_same : m'.held ≡ m.held
  pub shorter : length m'.queue ≤ n

cancel-IsShorter :
    (signal : ℕ) (ws : List Waiter) (m : Lock) → IsShorter m (cancel signal ws m) (length ws)
unfolding cancel
cancel-IsShorter signal [] m = record {
  locked_same = refl;
  held_same = refl;
  shorter = omega arith;
}
cancel-IsShorter signal (w ∷ ws) m =
    if-both (λ m'. IsShorter m m' (suc (length ws))) (is_aborted w.signal (signal ∷ [])) _ _
      (λ h.
        let r = cancel-IsShorter signal ws (reject w.call m) in
        record {
          locked_same = r.locked_same;
          held_same = r.held_same;
          shorter = omega (arith, r.shorter);
        })
      (λ h.
        let r = cancel-IsShorter signal ws m in
        record {
          locked_same = r.locked_same;
          held_same = r.held_same;
          shorter = omega (arith, r.shorter);
        })

abort-IsExclusive : (signal : ℕ) (m : Lock) → IsExclusive m → IsExclusive (abort signal m)
unfolding abort
abort-IsExclusive signal m x =
    if-both IsExclusive (contains signal m.aborted) _ _ (λ h. x)
      (λ h.
        let r = cancel-IsShorter signal m.queue (record m { aborted = m.aborted ++ signal ∷ [] }) in
        record {
          counted =
              ap (λ xs. length xs) r.held_same
              ∙ x.counted
              ∙ sym (ap (λ b. if b then 1 else 0) r.locked_same);
          busy = λ f. omega (arith, r.shorter, x.busy (sym r.locked_same ∙ f));
        })

step-IsExclusive : (e : Event) (m : Lock) → IsExclusive m → IsExclusive (step e m)
unfolding step
step-IsExclusive (acquires call signal) m x = acquire-IsExclusive call signal m x
step-IsExclusive (releases call) m x = release-IsExclusive call m x
step-IsExclusive (aborts signal) m x = abort-IsExclusive signal m x

run-kept : (es : List Event) (m : Lock) → IsExclusive m → IsExclusive (run es m)
unfolding run
run-kept [] m x = x
run-kept (e ∷ es) m x = run-kept es _ (step-IsExclusive e m x)

-- After any calls, releases and aborts: the lock is held by exactly one call that has not released it
-- if `locked` is true, and by none otherwise; and if it is free, nobody waits for it.
pub run-IsExclusive :
    (events : List Event)
    → let m = run events unlocked in
      (length m.held ≡ (if m.locked then 1 else 0)) × (m.locked ≡ false → length m.queue ≡ 0)
run-IsExclusive events =
    let x = run-kept events unlocked (record { counted = refl; busy = λ _. refl }) in
    (x.counted, x.busy)
