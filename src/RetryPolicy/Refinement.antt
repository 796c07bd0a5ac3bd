-- ===== src/RetryPolicy/Refinement.antt =====
-- src/adapters/chatgpt-web/retry-policy.ts: what the policy promises of each key.
use agent_chatgpt_bridge.Common.{
  ℕ, ◌≤◌, Bool, true, false, List, [], ◌∷◌, Option, none, some, ◌==◌, list_equality,
  number_equality, if◌then◌else◌, ◌≡◌, refl, sym, ap, ◌∙◌, arith, list_beq_iff, Bool-cases, inl,
  inr,
}
use agent_chatgpt_bridge.Js.{Text}
use agent_chatgpt_bridge.RetryPolicy.{
  ChatGptWebAdapterError, RetryBudgetEntry, Entries, entry_of, set_entry, delete_entry, is_stale,
  next_entry, answer, exhausted_entry, prune, record_retryable_failure, exhausted, clear,
}

-- A call, with the time at which it is made.
pub data Event : Type 0 where
  fails : Text → ChatGptWebAdapterError → Event
  asks clears : Text → Event

pub data Answer : Type 0 where
  failed_with : ChatGptWebAdapterError → Answer
  asked : Option ChatGptWebAdapterError → Answer
  cleared : Answer

-- The clock does not go back.
abbrev pub IsTimely : ℕ → List (ℕ × Event) → Type 0
IsTimely before [] = Unit
IsTimely before ((now, e) ∷ es) = (before ≤ now) × IsTimely now es

if-true : {A : Type 0} {b : Bool} (x y : A) → b ≡ true → (if b then x else y) ≡ x
if-true x y h = rw h refl

if-false : {A : Type 0} {b : Bool} (x y : A) → b ≡ false → (if b then x else y) ≡ y
if-false x y h = rw h refl

module _ (ttl : ℕ) where
  -- What an entry counts for at a time.
  abbrev pub fresh : ℕ → Option RetryBudgetEntry → Option RetryBudgetEntry
  fresh now none = none
  fresh now (some e) = if is_stale ttl now e then none else some e

  abbrev pub step : ℕ → Event → Entries → Answer × Entries
  step now (fails key error) entries =
      let r = record_retryable_failure ttl key error now entries in (failed_with r.0, r.1)
  step now (asks key) entries = let r = exhausted ttl key now entries in (asked r.0, r.1)
  step now (clears key) entries = (cleared, clear key entries)

  unfoldable pub answers : List (ℕ × Event) → Entries → List Answer
  answers [] entries = []
  answers ((now, e) ∷ es) entries = let r = step now e entries in r.0 ∷ answers es r.1

  -- The promise: each key has its own budget, which nothing of another key touches. Nothing is
  -- thrown away; an entry that is stale counts for nothing.
  abbrev pub Budgets : Type 0
  Budgets = Text → Option RetryBudgetEntry

  abbrev pub put : Text → Option RetryBudgetEntry → Budgets → Budgets
  put key o b other = if key == other then o else b other

  abbrev pub promise : ℕ → Event → Budgets → Answer × Budgets
  promise now (fails key error) b =
      let entry = next_entry (fresh now (b key)) error now in
      (failed_with (answer entry error), put key (some entry) b)
  promise now (asks key) b = (asked (exhausted_entry (fresh now (b key))), b)
  promise now (clears key) b = (cleared, put key none b)

  unfoldable pub promised : List (ℕ × Event) → Budgets → List Answer
  promised [] b = []
  promised ((now, e) ∷ es) b = let r = promise now e b in r.0 ∷ promised es r.1

  entry_of-set :
      (key k : Text) (e : RetryBudgetEntry) (entries : Entries)
      → entry_of key (set_entry k e entries) ≡ (if k == key then some e else entry_of key entries)
  entry_of-set key k e [] = refl
  entry_of-set key k e ((x, y) ∷ entries) = ground (
    arith,
    entry_of-set key k e entries,
    list_beq_iff x k,
    list_beq_iff x key,
    list_beq_iff k key,
  )

  entry_of-delete :
      (key k : Text) (entries : Entries)
      → entry_of key (delete_entry k entries) ≡ (if k == key then none else entry_of key entries)
  entry_of-delete key k [] = ground arith
  entry_of-delete key k ((x, y) ∷ entries) = ground (
    arith,
    entry_of-delete key k entries,
    list_beq_iff x k,
    list_beq_iff x key,
    list_beq_iff k key,
  )

  entry_of-prune :
      (key : Text) (now : ℕ) (entries : Entries)
      → entry_of key (prune ttl now entries) ≡ fresh now (entry_of key entries)
  unfolding prune
  entry_of-prune key now [] = refl
  entry_of-prune key now ((k, e) ∷ entries) = ground (
    arith,
    entry_of-prune key now entries,
    entry_of-delete key k (prune ttl now entries),
    list_beq_iff k key,
  )

  fresh-later :
      (now later : ℕ) (o : Option RetryBudgetEntry)
      → now ≤ later
      → fresh later (fresh now o) ≡ fresh later o
  fresh-later now later none h = refl
  fresh-later now later (some e) h = ground (arith, h)

  -- The map and the budgets count for the same at a time.
  abbrev IsAgreed : ℕ → Entries → Budgets → Type 0
  IsAgreed now entries b = (key : Text) → fresh now (entry_of key entries) ≡ fresh now (b key)

  IsAgreed-later :
      (now later : ℕ) (entries : Entries) (b : Budgets)
      → now ≤ later
      → IsAgreed now entries b
      → IsAgreed later entries b
  IsAgreed-later now later entries b h a key =
      sym (fresh-later now later (entry_of key entries) h)
      ∙ ap (fresh later) (a key)
      ∙ fresh-later now later (b key) h

  module _ (now : ℕ) (entries : Entries) (b : Budgets) (a : IsAgreed now entries b) where
    fresh-put :
        (key other : Text) (o x : Option RetryBudgetEntry)
        → fresh now x ≡ fresh now (b other)
        → fresh now (if key == other then o else x) ≡ fresh now (put key o b other)
    fresh-put key other o x same = elim (Bool-cases (key == other)) [
      | inl h ↦ ap (fresh now) (if-true _ _ h ∙ sym (if-true _ _ h))
      | inr h ↦ ap (fresh now) (if-false _ _ h) ∙ same ∙ ap (fresh now) (sym (if-false _ _ h))
    ]

    step-answer : (e : Event) → (step now e entries).0 ≡ (promise now e b).0
    unfolding record_retryable_failure exhausted
    step-answer (fails key error) =
        ap (λ o. failed_with (answer (next_entry o error now) error))
          (entry_of-prune key now entries ∙ a key)
    step-answer (asks key) =
        ap (λ o. asked (exhausted_entry o)) (entry_of-prune key now entries ∙ a key)
    step-answer (clears key) = refl

    step-IsAgreed : (e : Event) → IsAgreed now (step now e entries).1 (promise now e b).1
    unfolding record_retryable_failure exhausted clear
    step-IsAgreed (fails key error) other =
        let entry = next_entry (fresh now (b key)) error now in
        ap (fresh now) (
          ap (λ o. entry_of other (set_entry key (next_entry o error now) (prune ttl now entries)))
            (entry_of-prune key now entries ∙ a key)
          ∙ entry_of-set other key entry (prune ttl now entries)
          ∙ ap (λ o. if key == other then some entry else o) (entry_of-prune other now entries))
        ∙ fresh-put key other (some entry) (fresh now (entry_of other entries))
            (fresh-later now now (entry_of other entries) (omega arith) ∙ a other)
    step-IsAgreed (asks key) other =
        ap (fresh now) (entry_of-prune other now entries)
        ∙ fresh-later now now (entry_of other entries) (omega arith)
        ∙ a other
    step-IsAgreed (clears key) other =
        ap (fresh now) (entry_of-delete other key entries)
        ∙ fresh-put key other none (entry_of other entries) (a other)

  answers_lem :
      (es : List (ℕ × Event)) (before : ℕ) (entries : Entries) (b : Budgets)
      → IsTimely before es
      → IsAgreed before entries b
      → answers es entries ≡ promised es b
  unfolding answers promised
  answers_lem [] before entries b timely a = refl
  answers_lem ((now, e) ∷ es) before entries b timely a =
      let here = IsAgreed-later before now entries b timely.0 a in
      let rest =
        answers_lem es now (step now e entries).1 (promise now e b).1 timely.1
          (step-IsAgreed now entries b here e) in
      ap (λ x. x ∷ answers es (step now e entries).1) (step-answer now entries b here e)
      ∙ ap (λ xs. (promise now e b).0 ∷ xs) rest

-- If the clock does not go back, a policy that starts with no entries answers every sequence of calls as
-- the promise does, in which each key has a budget of its own, changed by the calls for that key alone,
-- and an entry is never removed but counts for nothing once it is `ttlMs` old.
pub answers-promised :
    (ttl : ℕ) (es : List (ℕ × Event))
    → IsTimely 0 es
    → answers ttl es [] ≡ promised ttl es (λ key. none)
answers-promised ttl es timely = answers_lem ttl es 0 [] (λ key. none) timely (λ key. refl)
