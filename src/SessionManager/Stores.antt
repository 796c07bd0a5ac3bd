-- ===== src/SessionManager/Stores.antt =====
-- src/core/session-manager.ts: what `send` writes to the stores of turns and messages.
use agent_chatgpt_bridge.Common.{
  ℕ, zero, suc, Bool, true, false, List, [], ◌∷◌, ◌++◌, Option, none, some, ◌==◌, list_equality,
  number_equality, if◌then◌else◌,
}
use agent_chatgpt_bridge.Errors.{Thrown, bridge, aborted, Result, ok, err}
use agent_chatgpt_bridge.Js.{Text, codes}
use agent_chatgpt_bridge.Providers.Health.{TurnStatus, completed, failed, cancelled}

-- A message of a request: `transient` is its metadata's flag.
pub record Message : Type 0 where
  pub id : Text
  pub transient : Bool

-- What a provider's turn returns, as far as it is stored.
pub record TurnResult : Type 0 where
  pub turn_id : Text
  pub status : TurnStatus
  pub error_code : Option Text

-- A row of the turn store: no status is `running`.
pub record TurnRow : Type 0 where
  pub id : Text
  pub status : Option TurnStatus
  pub error_code : Option Text

-- What the stores make of a turn that begins: both writes are done, or `turnStore.create` throws, or
-- `sessionStore.update` does.
pub data Written : Type 0 where
  written : Written
  create_throws update_throws : Thrown → Written

abbrev pub create_turn : Text → List TurnRow → List TurnRow
create_turn turn_id rows = rows ++ record { id = turn_id; status = none; error_code = none } ∷ []

-- `turnStore.update`
abbrev pub update_turn : Text → TurnStatus → Option Text → List TurnRow → List TurnRow
update_turn id status code [] = []
update_turn id status code (row ∷ rows) =
    if row.id == id
    then record { id = id; status = some status; error_code = code }
      ∷ update_turn id status code rows
    else row ∷ update_turn id status code rows

abbrev pub is_abort : Thrown → Bool
is_abort aborted = true
is_abort _ = false

abbrev pub thrown_code : Thrown → Text
thrown_code (bridge e) = e.code
thrown_code _ = codes "provider_exception"

abbrev pub kept_ids : List Message → List Text
kept_ids [] = []
kept_ids (m ∷ ms) = if m.transient then kept_ids ms else m.id ∷ kept_ids ms

abbrev pub new_messages : TurnStatus → List Message → TurnResult → List Text
new_messages completed messages r = kept_ids messages ++ (codes "msg_" ++ r.turn_id) ∷ []
new_messages _ messages r = []

-- What the stores hold of turns and messages, and how the call ends.
pub record Stored : Type 0 where
  pub outcome : Result Thrown TurnResult
  pub rows : List TurnRow
  pub ids : List Text

-- The writes at the end of a turn stand one after another. One of them may throw: `broken` says how many
-- come before it, and what it throws.
abbrev pub Broken : Type 0
Broken = Option (ℕ × Thrown)

-- The write of the turn's row when the provider has thrown: what it throws itself replaces that.
abbrev pub store_error : Text → Bool → Thrown → Broken → List TurnRow → List Text → Stored
store_error turn_id cancelled' e (some (zero, x)) rows ids = record {
  outcome = err x;
  rows = rows;
  ids = ids;
}
store_error turn_id cancelled' e _ rows ids = record {
  outcome = err e;
  rows =
      if cancelled'
      then update_turn turn_id cancelled (some (codes "client_cancelled")) rows
      else update_turn turn_id failed (some (thrown_code e)) rows;
  ids = ids;
}

-- Messages are created one after another: `left` writes are done before the one that throws.
abbrev pub create_messages :
    ℕ → Thrown → TurnResult → List Text → List Text → Result Thrown TurnResult × List Text
create_messages left x r [] ids = (ok r, ids)
create_messages zero x r (m ∷ ms) ids = (err x, ids)
create_messages (suc left) x r (m ∷ ms) ids = create_messages left x r ms (ids ++ m ∷ [])

abbrev pub store_broken :
    ℕ → Thrown → Text → List Message → TurnResult → List TurnRow → List Text → Stored
store_broken zero x turn_id messages r rows ids = record { outcome = err x; rows = rows; ids = ids }
store_broken (suc left) x turn_id messages r rows ids =
    let created = create_messages left x r (new_messages r.status messages r) ids in
    record {
      outcome = created.0;
      rows = update_turn turn_id r.status r.error_code rows;
      ids = created.1;
    }

-- The write of the turn's row and those of its messages, when the provider has returned.
abbrev pub store_result :
    Text → List Message → TurnResult → Broken → List TurnRow → List Text → Stored
store_result turn_id messages r none rows ids = record {
  outcome = ok r;
  rows = update_turn turn_id r.status r.error_code rows;
  ids = ids ++ new_messages r.status messages r;
}
store_result turn_id messages r (some (left, x)) rows ids =
    store_broken left x turn_id messages r rows ids
