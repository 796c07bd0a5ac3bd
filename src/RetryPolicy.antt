-- ===== src/RetryPolicy.antt =====
-- src/adapters/chatgpt-web/retry-policy.ts. A time is a number of milliseconds.
pub mod Refinement
mod Samples
use agent_chatgpt_bridge.Common.{
  ℕ, suc, ◌+◌, ◌*◌, Bool, true, false, List, [], ◌∷◌, ◌++◌, Option, none, some, ◌==◌, list_equality,
  number_equality, if◌then◌else◌, leb, ltb,
}
use agent_chatgpt_bridge.Js.{Text, codes}

pub record ChatGptWebAdapterError : Type 0 where
  pub message : Text
  pub status : ℕ
  pub error_type : Text
  pub code : Text
  pub retryable : Bool

pub record RetryBudgetEntry : Type 0 where
  pub retries : ℕ
  pub updated_at : ℕ
  pub last_message : Text
  pub last_status : ℕ
  pub last_error_type : Text
  pub last_code : Text

-- `MAX_CHATGPT_WEB_TURN_RETRIES`
abbrev pub max_retries : ℕ
max_retries = 3

-- `RETRY_BUDGET_TTL_MS`
abbrev pub retry_budget_ttl_ms : ℕ
retry_budget_ttl_ms = 30 * 60000

-- `exhaustedError` of an entry
abbrev pub exhausted_error : RetryBudgetEntry → ChatGptWebAdapterError
exhausted_error e = record {
  message = e.last_message ++ codes " ChatGPT remained unavailable after several attempts.";
  status = e.last_status;
  error_type = e.last_error_type;
  code = e.last_code;
  retryable = false;
}

abbrev pub Entries : Type 0
Entries = List (Text × RetryBudgetEntry)

-- `entries.get`, `entries.set`, `entries.delete`
abbrev pub entry_of : Text → Entries → Option RetryBudgetEntry
entry_of key [] = none
entry_of key ((k, e) ∷ rest) = if k == key then some e else entry_of key rest

abbrev pub set_entry : Text → RetryBudgetEntry → Entries → Entries
set_entry key e [] = (key, e) ∷ []
set_entry key e ((k, x) ∷ rest) =
    if k == key then (key, e) ∷ rest else (k, x) ∷ set_entry key e rest

abbrev pub delete_entry : Text → Entries → Entries
delete_entry key [] = []
delete_entry key ((k, e) ∷ rest) =
    if k == key then delete_entry key rest else (k, e) ∷ delete_entry key rest

-- `now - entry.updatedAt >= this.ttlMs`
abbrev pub is_stale : ℕ → ℕ → RetryBudgetEntry → Bool
is_stale ttl now e = leb (e.updated_at + ttl) now

abbrev pub retries_of : Option RetryBudgetEntry → ℕ
retries_of none = 0
retries_of (some e) = e.retries

abbrev pub next_entry : Option RetryBudgetEntry → ChatGptWebAdapterError → ℕ → RetryBudgetEntry
next_entry previous error now = record {
  retries = retries_of previous + 1;
  updated_at = now;
  last_message = error.message;
  last_status = error.status;
  last_error_type = error.error_type;
  last_code = error.code;
}

abbrev pub answer : RetryBudgetEntry → ChatGptWebAdapterError → ChatGptWebAdapterError
answer e error = if ltb max_retries e.retries then exhausted_error e else error

abbrev pub exhausted_entry : Option RetryBudgetEntry → Option ChatGptWebAdapterError
exhausted_entry none = none
exhausted_entry (some e) = if ltb max_retries e.retries then some (exhausted_error e) else none

module _ (ttl : ℕ) where
  unfoldable pub prune : ℕ → Entries → Entries
  prune now [] = []
  prune now ((k, e) ∷ rest) =
      let kept = prune now rest in if is_stale ttl now e then delete_entry k kept else (k, e) ∷ kept

  unfoldable pub record_retryable_failure :
      Text → ChatGptWebAdapterError → ℕ → Entries → ChatGptWebAdapterError × Entries
  record_retryable_failure key error now entries =
      let pruned = prune now entries in
      let entry = next_entry (entry_of key pruned) error now in
      (answer entry error, set_entry key entry pruned)

  -- `exhaustedError` of a key
  unfoldable pub exhausted : Text → ℕ → Entries → Option ChatGptWebAdapterError × Entries
  exhausted key now entries =
      let pruned = prune now entries in (exhausted_entry (entry_of key pruned), pruned)

-- `clear`
unfoldable pub clear : Text → Entries → Entries
clear key entries = delete_entry key entries
