-- ===== src/EventQueue/Delivery.antt =====
-- src/event-queue.ts: what is pushed is delivered, in order.
use agent_chatgpt_bridge.Common.{
  ℕ, ◌≤◌, ◌≡◌, ◌⊎◌, inl, inr, refl, ap, List, [], ◌∷◌, ◌++◌, leb, length, arith, if-both,
  length-append,
}
use agent_chatgpt_bridge.EventQueue.{
  Outcome, value, done, taken, dropped, overflow, Queue, deliver, push, all_done, close, take,
  Event, pushes, nexts, closes, step, empty, run,
}

module _ {T : Type 0} where
  -- The values that `push` has accepted, and those that `next` has given, in order.
  abbrev pub accepted : List (Outcome T) → List T
  accepted [] = []
  accepted (taken v ∷ os) = v ∷ accepted os
  accepted (_ ∷ os) = accepted os

  abbrev pub given : List (Outcome T) → List T
  given [] = []
  given (value call v ∷ os) = v ∷ given os
  given (_ ∷ os) = given os

  accepted-append : (os ps : List (Outcome T)) → accepted (os ++ ps) ≡ accepted os ++ accepted ps
  accepted-append [] ps = refl
  accepted-append (value call v ∷ os) ps = accepted-append os ps
  accepted-append (done call ∷ os) ps = accepted-append os ps
  accepted-append (taken v ∷ os) ps = cc (accepted-append os ps)
  accepted-append (dropped v ∷ os) ps = accepted-append os ps
  accepted-append (overflow v ∷ os) ps = accepted-append os ps

  given-append : (os ps : List (Outcome T)) → given (os ++ ps) ≡ given os ++ given ps
  given-append [] ps = refl
  given-append (value call v ∷ os) ps = cc (given-append os ps)
  given-append (done call ∷ os) ps = given-append os ps
  given-append (taken v ∷ os) ps = given-append os ps
  given-append (dropped v ∷ os) ps = given-append os ps
  given-append (overflow v ∷ os) ps = given-append os ps

  accepted-all_done : (ws : List ℕ) → accepted (all_done ws) ≡ []
  accepted-all_done [] = refl
  accepted-all_done (w ∷ ws) = accepted-all_done ws

  given-all_done : (ws : List ℕ) → given (all_done ws) ≡ []
  given-all_done [] = refl
  given-all_done (w ∷ ws) = given-all_done ws

  append_nil : (xs : List T) → xs ++ [] ≡ xs
  append_nil [] = refl
  append_nil (x ∷ xs) = cc (append_nil xs)

  append_assoc : (xs ys zs : List T) → (xs ++ ys) ++ zs ≡ xs ++ (ys ++ zs)
  append_assoc [] ys zs = refl
  append_assoc (x ∷ xs) ys zs = cc (append_assoc xs ys zs)

  pub record IsDelivered (max_buffered : ℕ) (q : Queue T) : Type 0 where
    pub kept : accepted q.outcomes ≡ given q.outcomes ++ q.buffered
    pub bounded : length q.buffered ≤ max_buffered
    pub idle : (q.waiters ≡ []) ⊎ (q.buffered ≡ [])

  -- Outcomes that neither accept nor give change nothing.
  silent :
      (q : Queue T) (os : List (Outcome T))
      → accepted os ≡ []
      → given os ≡ []
      → accepted q.outcomes ≡ given q.outcomes ++ q.buffered
      → accepted (q.outcomes ++ os) ≡ given (q.outcomes ++ os) ++ q.buffered
  silent q os a g k = cc (
    accepted-append q.outcomes os,
    given-append q.outcomes os,
    append_nil (accepted q.outcomes),
    append_nil (given q.outcomes),
  )

  no_values :
      (q : Queue T) (w : ℕ) (ws : List ℕ)
      → q.waiters ≡ w ∷ ws
      → (q.waiters ≡ []) ⊎ (q.buffered ≡ [])
      → q.buffered ≡ []
  no_values q w ws e (inl n) = absurd (cc)
  no_values q w ws e (inr n) = n

  no_waiters :
      (q : Queue T) (v : T) (vs : List T)
      → q.buffered ≡ v ∷ vs
      → (q.waiters ≡ []) ⊎ (q.buffered ≡ [])
      → q.waiters ≡ []
  no_waiters q v vs e (inl n) = n
  no_waiters q v vs e (inr n) = absurd (cc)

  deliver-IsDelivered :
      (max_buffered : ℕ) (v : T) (ws : List ℕ) (q : Queue T)
      → q.waiters ≡ ws
      → IsDelivered max_buffered q
      → IsDelivered max_buffered (deliver max_buffered v ws q)
  deliver-IsDelivered max_buffered v (w ∷ ws) q e d =
      let none_left : q.buffered ≡ [] = no_values q w ws e d.idle in
      record {
        kept = cc (
          accepted-append q.outcomes (taken v ∷ value w v ∷ []),
          given-append q.outcomes (taken v ∷ value w v ∷ []),
          append_nil (given q.outcomes),
          append_nil (given q.outcomes ++ v ∷ []),
          none_left,
          d.kept,
        );
        bounded = d.bounded;
        idle = inr none_left;
      }
  deliver-IsDelivered max_buffered v [] q e d =
      if-both (IsDelivered max_buffered) (leb max_buffered (length q.buffered)) _ _
        (λ h. record {
          kept = silent q (overflow v ∷ []) refl refl d.kept;
          bounded = d.bounded;
          idle = d.idle;
        })
        (λ h. record {
          kept = cc (
            accepted-append q.outcomes (taken v ∷ []),
            given-append q.outcomes (taken v ∷ []),
            append_nil (given q.outcomes),
            append_assoc (given q.outcomes) q.buffered (v ∷ []),
            d.kept,
          );
          bounded = ground (arith, h, length-append q.buffered (v ∷ []));
          idle = inl e;
        })

  take-IsDelivered :
      (max_buffered call : ℕ) (vs : List T) (q : Queue T)
      → q.buffered ≡ vs
      → IsDelivered max_buffered q
      → IsDelivered max_buffered (take call vs q)
  take-IsDelivered max_buffered call (v ∷ vs) q e d = record {
    kept = cc (
      accepted-append q.outcomes (value call v ∷ []),
      given-append q.outcomes (value call v ∷ []),
      append_nil (accepted q.outcomes),
      append_assoc (given q.outcomes) (v ∷ []) vs,
      e,
      d.kept,
    );
    bounded = omega (arith, d.bounded, ap (λ xs. length xs) e);
    idle = inl (no_waiters q v vs e d.idle);
  }
  take-IsDelivered max_buffered call [] q e d =
      if-both (IsDelivered max_buffered) q.closed _ _
        (λ h. record {
          kept = silent q (done call ∷ []) refl refl d.kept;
          bounded = d.bounded;
          idle = d.idle;
        })
        (λ h. record { kept = d.kept; bounded = d.bounded; idle = inr e })

  push-IsDelivered :
      (max_buffered : ℕ) (v : T) (q : Queue T)
      → IsDelivered max_buffered q
      → IsDelivered max_buffered (push max_buffered v q)
  push-IsDelivered max_buffered v q d =
      if-both (IsDelivered max_buffered) q.closed _ _
        (λ h. record {
          kept = silent q (dropped v ∷ []) refl refl d.kept;
          bounded = d.bounded;
          idle = d.idle;
        })
        (λ h. deliver-IsDelivered max_buffered v q.waiters q refl d)

  close-IsDelivered :
      (max_buffered : ℕ) (q : Queue T)
      → IsDelivered max_buffered q
      → IsDelivered max_buffered (close q)
  close-IsDelivered max_buffered q d =
      if-both (IsDelivered max_buffered) q.closed _ _ (λ h. d)
        (λ h. record {
          kept =
              silent q (all_done q.waiters) (accepted-all_done q.waiters) (given-all_done q.waiters)
                d.kept;
          bounded = d.bounded;
          idle = inl refl;
        })

  step-IsDelivered :
      (max_buffered : ℕ) (e : Event T) (q : Queue T)
      → IsDelivered max_buffered q
      → IsDelivered max_buffered (step max_buffered e q)
  unfolding step
  step-IsDelivered max_buffered (pushes v) q d = push-IsDelivered max_buffered v q d
  step-IsDelivered max_buffered (nexts call) q d =
      take-IsDelivered max_buffered call q.buffered q refl d
  step-IsDelivered max_buffered closes q d = close-IsDelivered max_buffered q d

  run-kept :
      (max_buffered : ℕ) (es : List (Event T)) (q : Queue T)
      → IsDelivered max_buffered q
      → IsDelivered max_buffered (run max_buffered es q)
  unfolding run
  run-kept max_buffered [] q d = d
  run-kept max_buffered (e ∷ es) q d =
      run-kept max_buffered es _ (step-IsDelivered max_buffered e q d)

-- After any calls of `push`, `next` and `close`: the values that `push` has accepted are those that
-- `next` has given, followed by those buffered, in the same order; at most `maxBuffered` are buffered;
-- and no call of `next` waits while a value is buffered.
pub run-IsDelivered :
    {T : Type 0} (max_buffered : ℕ) (events : List (Event T))
    → let q = run max_buffered events empty in
      (accepted q.outcomes ≡ given q.outcomes ++ q.buffered)
      × (length q.buffered ≤ max_buffered)
      × ((q.waiters ≡ []) ⊎ (q.buffered ≡ []))
run-IsDelivered max_buffered events =
    let d =
      run-kept max_buffered events empty
        (record { kept = refl; bounded = omega arith; idle = inl refl }) in
    (d.kept, d.bounded, d.idle)
