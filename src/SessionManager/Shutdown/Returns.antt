-- ===== src/SessionManager/Shutdown/Returns.antt =====
-- src/core/session-manager.ts: what `shutdown` answers, and when.
use agent_chatgpt_bridge.Common.{
  ℕ, ◌+◌, ◌≤◌, ◌<◌, true, false, ◌&&◌, List, [], ◌∷◌, ◌++◌, Option, none, some, list_equality,
  number_equality, ◌≡◌, refl, sym, ap, ◌∙◌, arith, if◌then◌else◌, ltb, eqb, All, if-both,
}
use agent_chatgpt_bridge.Errors.{Thrown, Result, ok, err}
use agent_chatgpt_bridge.Js.{codes}
use agent_chatgpt_bridge.SessionManager.{
  SessionManager, Event, begin_shutdown, step, run, start, end_shutdown, refuse,
}
use agent_chatgpt_bridge.SessionManager.Invariant.{IsAccounted, run-kept, run-IsAccounted}
use agent_chatgpt_bridge.SessionManager.Shutdown.{Poll, await_turns, times, events_of}
use agent_chatgpt_bridge.SessionManager.Shutdown.Ends.{run_drains}

times-append :
    (es fs : List Event) (s : SessionManager)
    → times (es ++ fs) s ≡ times es s + times fs (run es s)
unfolding times run
times-append [] fs s = omega arith
times-append (e ∷ es) fs s = omega (arith, times-append es fs (step e s))

-- What is answered when the clock shows `now`, if `ended` of `admitted` calls have ended.
abbrev pub answer : ℕ → ℕ → ℕ → ℕ → Option (Result Thrown (Unit {0}))
answer deadline now ended admitted =
    if eqb ended admitted
    then some (ok tt)
    else if ltb now deadline
    then none
    else some (err (refuse (codes "shutdown_timeout") false))

last_answer :
    (deadline now : ℕ) (s : SessionManager)
    → (await_turns deadline ((now, []) ∷ []) s).0 ≡ answer deadline now 0 s.admitted_turns
unfolding await_turns end_shutdown
last_answer deadline now s = ground arith

module _ (deadline now : ℕ) where
  answer-none :
      (s : SessionManager) (ended : ℕ)
      → ended ≤ s.admitted_turns
      → s.admitted_turns ≡ 0
      → some (end_shutdown s) ≡ answer deadline now ended s.admitted_turns
  unfolding end_shutdown
  answer-none s ended few empty = ground arith

  answer-more :
      (k ended admitted : ℕ)
      → answer deadline now ended admitted ≡ answer deadline now (k + ended) (k + admitted)
  answer-more k ended admitted = ground arith

  answer_lem :
      (polls : List Poll) (s : SessionManager)
      → All (λ p. p.0 < deadline) polls
      → s.shutting_down ≡ true
      → IsAccounted s
      → (await_turns deadline (polls ++ (now, []) ∷ []) s).0
        ≡ answer deadline now (times (events_of polls) s) s.admitted_turns
  unfolding await_turns times
  answer_lem [] s early shut a = last_answer deadline now s
  answer_lem ((t, es) ∷ polls) s early shut a =
      let (still, drained) = run_drains es s shut a in
      let (_, all_drained) = run_drains (es ++ events_of polls) s shut a in
      if-both
        (λ (r : Option (Result Thrown (Unit {0})) × SessionManager).
          r.0 ≡ answer deadline now (times (es ++ events_of polls) s) s.admitted_turns)
        (ltb 0 s.admitted_turns && ltb t deadline) _ _
        (λ _.
          answer_lem polls (run es s) early.1 still (run-kept es s a)
          ∙ answer-more (times es s) (times (events_of polls) (run es s)) (run es s).admitted_turns
          ∙ ap (λ k. answer deadline now k (times es s + (run es s).admitted_turns))
              (sym (times-append es (events_of polls) s))
          ∙ ap (answer deadline now (times (es ++ events_of polls) s)) drained)
        (λ c.
          answer-none s (times (es ++ events_of polls) s) (omega (arith, all_drained))
            (ground (arith, c, early.0)))

-- After any calls, `shutdown` is called; then anything happens in its session and in others, before the
-- loop, and between the tests of the loop, whose clocks are before the deadline; at the next test the
-- clock shows `now`. Every admitted call that gets what it waits for (the lock or capacity), or is refused
-- it, or whose provider is done, whether that returns or throws and whether the stores write or throw,
-- ends and gives its place back at once, and no call is admitted; so `shutdown` has returned if as many
-- calls have gone on so as were admitted, else it throws `shutdown_timeout` if the deadline has come, and
-- else it still waits.
pub await_turns-answers :
    (capacity : ℕ) (before cancelling : List Event) (deadline now : ℕ) (polls : List Poll)
    → All (λ p. p.0 < deadline) polls
    → let s = run cancelling (begin_shutdown (run before (start capacity))) in
      ((await_turns deadline (polls ++ (now, []) ∷ []) s).0
        ≡ answer deadline now (times (events_of polls) s) s.admitted_turns)
      × (times (events_of polls) s + (run (events_of polls) s).admitted_turns ≡ s.admitted_turns)
unfolding begin_shutdown
await_turns-answers capacity before cancelling deadline now polls early =
    let a = run-IsAccounted capacity before in
    let s = begin_shutdown (run before (start capacity)) in
    let b : IsAccounted s = record { counted = a.counted; bounded = a.bounded } in
    let c = run-kept cancelling s b in
    let (still, _) = run_drains cancelling s refl b in
    (
      answer_lem deadline now polls (run cancelling s) early still c,
      (run_drains (events_of polls) (run cancelling s) still c).1,
    )
