-- ===== src/DagScheduler/Bounds.antt =====
-- src/core/collaboration-dag-scheduler.ts: how many nodes run at once, and for which participants.
use agent_chatgpt_bridge.Common.{
  ℕ, ◌+◌, ◌≤◌, ◌<◌, ◌≡◌, refl, Bool, true, false, List, [], ◌∷◌, ◌++◌, some, ◌==◌, list_equality,
  number_equality, if◌then◌else◌, leb, length, contains, contains-append, count, IsDistinct, inl,
  inr, Bool-cases, Option-cases, arith, max, beq_self, list_beq_iff, count-append, length-append,
  leb→le,
}
use agent_chatgpt_bridge.Js.{Text, Number, positive_integer}
use agent_chatgpt_bridge.CollaborationDag.Limits
use agent_chatgpt_bridge.CollaborationDag.{
  CollaborationDagExecutionPlan, CollaborationDagFailurePolicy, running, status_beq,
}
use agent_chatgpt_bridge.DagScheduler.{
  State, state_of, Event, add_to, remove, Status, is_open, remove_key, values, participant_of,
  participant_in, transition, settle_as, dispatch, verdict, go,
}
use agent_chatgpt_bridge.DagScheduler.Moves.{
  release_entry, release, complete, skip_one, fail, load, no_state, run_with,
  run_bounded_collaboration_dag,
}
use agent_chatgpt_bridge.DagScheduler.Invariant.{Withstands, run_from-Withstands}
use agent_chatgpt_bridge.Common.{if-both}

record IsWithin (limit : ℕ) (active : List (Text × Text)) (busy : List Text) (most : ℕ)
    : Type 0 where
  pub few : length active ≤ limit
  pub bounded : most ≤ limit
  pub single : IsDistinct (values active)
  pub known : (p : Text) → 0 < count p (values active) → contains p busy ≡ true

contains-add_to :
    (p x : Text) (xs : List Text) → contains p xs ≡ true → contains p (add_to x xs) ≡ true
contains-add_to p x xs h = ground (arith, contains-append p xs (x ∷ []))

contains-add_to_self : (x : Text) (xs : List Text) → contains x (add_to x xs) ≡ true
contains-add_to_self x xs = elim (Bool-cases (contains x xs)) [
  | inl h ↦ ground (arith, h)
  | inr h ↦ ground (arith, h, contains-append x xs (x ∷ []), beq_self x)
]

contains-remove :
    (p x : Text) (xs : List Text)
    → (x == p) ≡ false
    → contains x xs ≡ true
    → contains x (remove p xs) ≡ true
contains-remove p x [] h c = c
contains-remove p x (y ∷ ys) h c =
    ground (arith, contains-remove p x ys h, list_beq_iff y p, list_beq_iff y x, list_beq_iff x p)

values-append : (xs ys : List (Text × Text)) → values (xs ++ ys) ≡ values xs ++ values ys
values-append [] ys = refl
values-append ((k, v) ∷ xs) ys = cc (values-append xs ys)

count-remove_key :
    (id p : Text) (xs : List (Text × Text))
    → count p (values (remove_key id xs)) ≤ count p (values xs)
count-remove_key id p [] = omega arith
count-remove_key id p ((k, v) ∷ xs) = ground (arith, count-remove_key id p xs)

length-remove_key : (id : Text) (xs : List (Text × Text)) → length (remove_key id xs) ≤ length xs
length-remove_key id [] = omega arith
length-remove_key id ((k, v) ∷ xs) = ground (arith, length-remove_key id xs)

count-participant_of :
    (id p : Text) (xs : List (Text × Text))
    → participant_of id xs ≡ some p
    → count p (values (remove_key id xs)) < count p (values xs)
count-participant_of id p [] h = absurd (cc)
count-participant_of id p ((k, v) ∷ xs) h =
    ground (arith, count-participant_of id p xs, count-remove_key id p xs, beq_self p)

IsWithin-remove :
    {limit : ℕ} {busy : List Text} {most : ℕ} (id p : Text) (active : List (Text × Text))
    → participant_of id active ≡ some p
    → IsWithin limit active busy most
    → IsWithin limit (remove_key id active) (remove p busy) most
IsWithin-remove {limit} {busy} {most} id p active h w = record {
  few = omega (arith, w.few, length-remove_key id active);
  bounded = w.bounded;
  single = λ x. omega (arith, w.single x, count-remove_key id x active);
  known = λ x c.
      contains-remove p x busy
        (ground (arith, w.single x, count-participant_of id p active h, c, list_beq_iff x p))
        (w.known x (omega (arith, c, count-remove_key id x active)));
}

IsWithin-add :
    {limit : ℕ} {busy : List Text} {most : ℕ} (id p : Text) (active : List (Text × Text))
    → length active < limit
    → contains p busy ≡ false
    → IsWithin limit active busy most
    → IsWithin limit (active ++ (id, p) ∷ []) (add_to p busy) (max most (length active + 1))
IsWithin-add {limit} {busy} {most} id p active h free w =
    let tally : (x : Text)
        → count x (values (active ++ (id, p) ∷ []))
          ≡ count x (values active) + (if p == x then 1 else 0) =
      λ x.
        (rw (values-append active ((id, p) ∷ []))
          (omega (arith, count-append x (values active) (p ∷ [])))) in
    record {
      few = omega (arith, h, length-append active ((id, p) ∷ []));
      bounded = ground (arith, w.bounded, h);
      single = λ x. ground (arith, w.single x, w.known x, tally x, list_beq_iff p x);
      known = λ x c. elim (Bool-cases (p == x)) [
        | inl e ↦ ground (arith, list_beq_iff p x, contains-add_to_self p busy)
        | inr e ↦ contains-add_to x p busy (w.known x (ground (arith, c, tally x)))
      ];
    }

-- What a run keeps of the slots, at any point.
module _ {T : Type 0} (limit : ℕ) where
  unfoldable Within : State T → Type 0
  Within s = IsWithin limit s.active s.active_participants s.max_observed_parallelism

  settle-Within : (id : Text) (to : Status) (s : State T) → Within s → Within (settle_as id to s)
  unfolding Within settle_as transition
  settle-Within id to s w = w

  release-Within : (id : Text) (s : State T) → Within s → Within (release id s)
  unfolding Within release release_entry
  release-Within id s w = elim (Option-cases (participant_of id s.active)) [
    | inl h ↦ rw h w
    | inr (p, h) ↦ rw h (IsWithin-remove id p s.active h w)
  ]

  dispatch-Within :
      (plan : CollaborationDagExecutionPlan) (id : Text) (s : State T)
      → verdict plan limit id s ≡ go
      → Within s
      → Within (dispatch plan id s)
  unfolding Within verdict dispatch transition
  dispatch-Within plan id s h w =
      IsWithin-add id (participant_in plan.nodes_by_id id) s.active (ground (arith, h))
        (ground (arith, h)) w

  skip_one-Within : (id : Text) (s : State T) → Within s → Within (skip_one id s)
  unfolding Within settle_as transition
  skip_one-Within id s w = if-both Within (is_open (s.statuses id)) _ _ (λ h. w) (λ h. w)

  Withstands-Within : (plan : CollaborationDagExecutionPlan) → Withstands plan limit Within
  unfolding Within transition complete fail settle_as
  Withstands-Within plan = record {
    marks = λ id s h m w. w;
    dispatches = dispatch-Within plan;
    cancels = λ id s h w. w;
    skips = skip_one-Within;
    aborts = λ s w. w;
    releases = release-Within;
    completes = λ id output s u w. release-Within id s w;
    fails = λ id s u w. release-Within id s w;
    interrupts = λ id s u w. release-Within id s w;
  }

  load-Within :
      (initial : Text → Status) (ids : List Text) (s : State T)
      → Within s
      → Within (state_of (load initial ids s))
  unfolding Within load
  load-Within initial [] s w = w
  load-Within initial (id ∷ ids) s w =
      if-both (λ phase. Within (state_of phase)) (status_beq (initial id) running) _ _ (λ h. w)
        (λ h. load-Within initial ids _ w)

  abbrev Capped : State T → Type 0
  Capped s =
      (length s.active ≤ limit)
      × (length s.active ≤ Limits.max_parallel_turns)
      × IsDistinct (values s.active)
      × (s.max_observed_parallelism ≤ limit)

  Within-Capped : limit ≤ Limits.max_parallel_turns → (s : State T) → Within s → Capped s
  unfolding Within
  Within-Capped h s w = (w.few, omega (arith, h, w.few), w.single, w.bounded)

no_state-Within : (T : Type 0) (limit : ℕ) (b : Bool) → Within {T = T} limit (no_state b)
unfolding Within
no_state-Within T limit b = record {
  few = omega arith;
  bounded = omega arith;
  single = λ a. omega arith;
  known = λ p c. absurd (omega (arith, c));
}

-- Whatever order the nodes settle in, and whenever the caller aborts: if `maxParallelTurns` is the
-- positive integer `k`, at every point where the function waits, and when it returns or throws, at
-- most `k` nodes run, at most `P5_LIMITS.maxParallelTurns`, no two of them for one participant, and
-- `maxObservedParallelism` is at most `k`.
pub run_bounded_collaboration_dag_parallelism :
    {T : Type 0} (plan : CollaborationDagExecutionPlan) (n : Number) (k : ℕ)
    (policy : CollaborationDagFailurePolicy) (initial : Text → Status) (aborted : Bool)
    (events : List (Event T))
    → positive_integer n ≡ some k
    → let s = state_of (run_bounded_collaboration_dag plan n policy initial aborted events) in
      (length s.active ≤ k)
      × (length s.active ≤ Limits.max_parallel_turns)
      × IsDistinct (values s.active)
      × (s.max_observed_parallelism ≤ k)
unfolding run_bounded_collaboration_dag run_with
run_bounded_collaboration_dag_parallelism {T} plan n k policy initial aborted events h =
    let begun = load-Within k initial plan.node_ids _ (no_state-Within T k aborted) in
    elim (Bool-cases (leb k Limits.max_parallel_turns)) [
      | inl small ↦
          rw (h, small)
            (Within-Capped k (leb→le k Limits.max_parallel_turns small) _
              (run_from-Withstands (Withstands-Within k plan) policy events _ begun))
      | inr large ↦ rw (h, large) (omega arith, omega arith, λ a. omega arith, omega arith)
    ]
