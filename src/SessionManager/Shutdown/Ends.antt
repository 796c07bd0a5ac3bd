-- ===== src/SessionManager/Shutdown/Ends.antt =====
-- src/core/session-manager.ts: `shutdown` ends.
use agent_chatgpt_bridge.Common.{
  ℕ, ◌+◌, ◌<◌, Bool, true, false, ◌&&◌, ◌||◌, not, List, [], ◌∷◌, Option, none, some, list_equality,
  number_equality, ◌≡◌, refl, ap, ◌∙◌, arith, if◌then◌else◌, contains, ltb, length-erase,
  contains-count, if-both, ltb→lt,
}
use agent_chatgpt_bridge.Errors.{Thrown, Result, err}
use agent_chatgpt_bridge.Js.{Text}
use agent_chatgpt_bridge.SessionManager.{
  SessionManager, SessionStatus, Message, TurnResult, Broken, store, client_cancelled,
  server_draining, Written, ActiveTurn, Holder, nobody, closer, queued, running, Event, sends,
  gets_lock, is_refused_lock, gets_capacity, is_refused_capacity, settles, aborts, cancels, closes,
  close_goes_on, close_gets_lock, close_ends, shuts_down, other_enters, other_leaves, finish,
  begin_send, is_free, lock_granted, lock_refused, start_queued, capacity_granted, refuse_queued,
  capacity_refused, settle_running, turn_settled, client_aborts, is_running, cancel_active, cancel,
  begin_close, close_read, close_checked, close_locked, end_close, close_settled, begin_shutdown,
  other_begins, other_ends, step, run, is_closed, is_other_turn, is_admitted,
}
use agent_chatgpt_bridge.SessionManager.Invariant.{IsAccounted, sends_of, run-kept}
use agent_chatgpt_bridge.SessionManager.Shutdown.{is_queued, is_run, goes_on, times}

-- A step in which as many admitted calls end as are said to go on, and none is admitted.
pub record Drains (c : Bool) (s t : SessionManager) : Type 0 where
  pub kept : t.shutting_down ≡ true
  pub fewer : (if c then 1 else 0) + t.admitted_turns ≡ s.admitted_turns

module _ (s : SessionManager) (shut : s.shutting_down ≡ true) where
  same :
      (t : SessionManager)
      → t.shutting_down ≡ s.shutting_down
      → t.admitted_turns ≡ s.admitted_turns
      → Drains false s t
  same t d a = record { kept = d ∙ shut; fewer = omega (arith, a) }

  ended :
      (n : ℕ) (turn_id : Option Text) (holder : Holder) (r : Result Thrown TurnResult)
      (t : SessionManager)
      → t.shutting_down ≡ s.shutting_down
      → t.admitted_turns ≡ s.admitted_turns
      → 0 < s.admitted_turns
      → Drains true s (finish n turn_id holder r t)
  unfolding finish
  ended n turn_id holder r t d a positive = record {
    kept = d ∙ shut;
    fewer = omega (arith, a, positive);
  }

  when-Drains :
      (c : Bool) (t : SessionManager)
      → (c ≡ true → Drains true s t)
      → Drains c s (if c then t else s)
  when-Drains true t h = h refl
  when-Drains false t h = same s refl refl

  unless-Drains :
      (c : Bool) (t : SessionManager)
      → (c ≡ true → Drains true s t)
      → Drains c s (if not c then s else t)
  unless-Drains true t h = h refl
  unless-Drains false t h = same s refl refl

  draining_only :
      (t u : SessionManager) → Drains true s t → Drains true s (if s.shutting_down then t else u)
  draining_only t u d =
      if-both (Drains true s) s.shutting_down _ _ (λ _. d) (λ c. absurd (ground (arith, c, shut)))

  module _ (a : IsAccounted s) where
    waits-positive : (n : ℕ) → contains n s.waiting ≡ true → 0 < s.admitted_turns
    waits-positive n h =
        omega (arith, a.counted, length-erase n s.waiting (contains-count n s.waiting h))

    held-positive : sends_of s.holder ≡ 1 → 0 < s.admitted_turns
    held-positive one = omega (arith, a.counted, one)

    gets_lock-Drains :
        (n : ℕ) (signal : Bool) (turn_id : Text) (prepared : Result Thrown (List Message))
        → Drains
            (is_free s.holder && contains n s.waiting)
            s
            (lock_granted n signal turn_id prepared s)
    unfolding lock_granted
    gets_lock-Drains n signal turn_id prepared =
        unless-Drains (is_free s.holder && contains n s.waiting) _ (λ h.
          let positive = waits-positive n (ground (arith, h)) in
          if-both (Drains true s) signal _ _
            (λ _. ended n none nobody (err client_cancelled) _ refl refl positive)
            (λ _.
              draining_only _ _ (ended n none nobody (err server_draining) _ refl refl positive)))

    start_queued-Drains :
        (w : Written) (h : Holder) → s.holder ≡ h → Drains (is_queued h) s (start_queued w h s)
    start_queued-Drains w (queued n t ms) e =
        draining_only _ _ (
          ended n (some t) nobody (err server_draining) s refl refl (held-positive (ap sends_of e)))
    start_queued-Drains w nobody e = same s refl refl
    start_queued-Drains w closer e = same s refl refl
    start_queued-Drains w (running n t ms) e = same s refl refl

    refuse_queued-Drains :
        (x : Thrown) (h : Holder) → s.holder ≡ h → Drains (is_queued h) s (refuse_queued x h s)
    refuse_queued-Drains x (queued n t ms) e =
        ended n (some t) nobody (err x) s refl refl (held-positive (ap sends_of e))
    refuse_queued-Drains x nobody e = same s refl refl
    refuse_queued-Drains x closer e = same s refl refl
    refuse_queued-Drains x (running n t ms) e = same s refl refl

    settle_running-Drains :
        (b : Broken) (r : Result Thrown TurnResult) (h : Holder)
        → s.holder ≡ h
        → Drains (is_run h) s (settle_running b r h s)
    settle_running-Drains b r (running n t ms) e =
        ended n (some t) nobody (store n t ms b r s).outcome _ refl refl
          (held-positive (ap sends_of e))
    settle_running-Drains b r nobody e = same s refl refl
    settle_running-Drains b r closer e = same s refl refl
    settle_running-Drains b r (queued n t ms) e = same s refl refl

    end_close-Drains : (returned : Bool) (h : Holder) → Drains false s (end_close returned h s)
    end_close-Drains true closer = same _ refl refl
    end_close-Drains false closer = same _ refl refl
    end_close-Drains true nobody = same _ refl refl
    end_close-Drains true (queued n t ms) = same _ refl refl
    end_close-Drains true (running n t ms) = same _ refl refl
    end_close-Drains false nobody = same _ refl refl
    end_close-Drains false (queued n t ms) = same _ refl refl
    end_close-Drains false (running n t ms) = same _ refl refl

    close_read-Drains :
        (updated : Bool) (reads : List SessionStatus) → Drains false s (close_read updated reads s)
    close_read-Drains updated [] = same _ refl refl
    close_read-Drains updated (k ∷ ks) =
        if-both (Drains false s) (is_closed k || not updated) _ _ (λ _. same _ refl refl)
          (λ _. same _ refl refl)

    cancel_active-Drains :
        (turn_id : Option Text) (x : Option ActiveTurn)
        → Drains false s (cancel_active turn_id x s).1
    cancel_active-Drains turn_id none = same _ refl refl
    cancel_active-Drains turn_id (some x) =
        if-both (λ (r : Result Thrown Bool × SessionManager). Drains false s r.1)
          (is_other_turn turn_id x) _ _ (λ _. same _ refl refl) (λ _. same _ refl refl)

    pub step-Drains : (e : Event) → Drains (goes_on e s) s (step e s)
    unfolding begin_send lock_refused capacity_granted capacity_refused turn_settled client_aborts
        cancel begin_close close_checked close_locked close_settled begin_shutdown other_begins
        other_ends
    step-Drains (sends n signal) =
        if-both (Drains false s) signal _ _ (λ _. same _ refl refl)
          (λ _.
            if-both (Drains false s) s.shutting_down _ _ (λ _. same _ refl refl)
              (λ c. absurd (ground (arith, c, shut))))
    step-Drains (gets_lock n signal turn_id prepared) = gets_lock-Drains n signal turn_id prepared
    step-Drains (is_refused_lock n x) =
        when-Drains (contains n s.waiting) _
          (λ h. ended n none s.holder (err x) _ refl refl (waits-positive n h))
    step-Drains (gets_capacity w) = start_queued-Drains w s.holder refl
    step-Drains (is_refused_capacity x) = refuse_queued-Drains x s.holder refl
    step-Drains (settles b r) = settle_running-Drains b r s.holder refl
    step-Drains (aborts n) =
        if-both (Drains false s) (is_running n s.holder) _ _ (λ _. same _ refl refl)
          (λ _. same _ refl refl)
    step-Drains (cancels read turn_id) =
        if-both (λ (r : Result Thrown Bool × SessionManager). Drains false s r.1) (is_closed read) _
          _ (λ _. same _ refl refl) (λ _. cancel_active-Drains turn_id s.active_turn)
    step-Drains closes = same _ refl refl
    step-Drains (close_goes_on updated) = close_read-Drains updated s.close_reads
    step-Drains close_gets_lock =
        if-both (Drains false s) (is_free s.holder && ltb 0 s.closers) _ _ (λ _. same _ refl refl)
          (λ _. same _ refl refl)
    step-Drains (close_ends returned) = end_close-Drains returned s.holder
    step-Drains shuts_down = record { kept = refl; fewer = omega arith }
    step-Drains other_enters =
        if-both (Drains false s) (is_admitted s) _ _ (λ c. absurd (ground (arith, c, shut)))
          (λ _. same _ refl refl)
    step-Drains other_leaves = when-Drains (ltb 0 s.others) _ (λ h.
        let left : 0 < s.others = ltb→lt 0 s.others h in
        record { kept = shut; fewer = omega (arith, a.counted, left) })

-- What is left of the admitted calls, and of those that have gone on.
pub run_drains :
    (es : List Event) (s : SessionManager)
    → s.shutting_down ≡ true
    → IsAccounted s
    → ((run es s).shutting_down ≡ true)
      × (times es s + (run es s).admitted_turns ≡ s.admitted_turns)
unfolding run times
run_drains [] s shut a = (shut, omega arith)
run_drains (e ∷ es) s shut a =
    let d = step-Drains s shut a e in
    let (still, count) = run_drains es (step e s) d.kept (run-kept (e ∷ []) s a) in
    (still, omega (arith, d.fewer, count))
