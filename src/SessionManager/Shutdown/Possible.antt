-- ===== src/SessionManager/Shutdown/Possible.antt =====
-- src/core/session-manager.ts: the calls that `shutdown` waits for can always end by themselves.
use agent_chatgpt_bridge.Common.{
  ◌<◌, true, false, List, none, list_equality, number_equality, ◌≡◌, All,
}
use agent_chatgpt_bridge.Errors.{Thrown, Result}
use agent_chatgpt_bridge.SessionManager.{
  SessionManager, TurnResult, written, Event, gets_lock, gets_capacity, settles, close_ends,
  other_leaves, run,
}
use agent_chatgpt_bridge.SessionManager.Shutdown.{times}

-- What comes without a call being aborted or refused: the lock and capacity are granted, the provider is
-- done with `r`, `close` returns.
abbrev pub IsGranted : Result Thrown TurnResult → Event → Type 0
IsGranted r (gets_lock n signal_aborted turn_id prepared) = signal_aborted ≡ false
IsGranted r (gets_capacity w) = w ≡ written
IsGranted r (settles broken result) = (broken ≡ none) × (result ≡ r)
IsGranted r (close_ends returned) = returned ≡ true
IsGranted r other_leaves = Unit
IsGranted r _ = ⊥

-- Events of that kind by which some call goes on.
abbrev CanGoOn : Result Thrown TurnResult → SessionManager → Type 0
CanGoOn r s = (es : List Event) × All (IsGranted r) es × (0 < times es s)

-- Events of that kind after which no call is admitted any more.
abbrev pub CanEnd : Result Thrown TurnResult → SessionManager → Type 0
CanEnd r s = (es : List Event) × All (IsGranted r) es × ((run es s).admitted_turns ≡ 0)
