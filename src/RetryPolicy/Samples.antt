-- ===== src/RetryPolicy/Samples.antt =====
-- One key that fails four times, and is cleared.
use agent_chatgpt_bridge.Common.{
  ℕ, true, List, [], ◌∷◌, none, list_equality, number_equality, ◌≡◌, refl, arith,
}
use agent_chatgpt_bridge.Js.{codes}
use agent_chatgpt_bridge.RetryPolicy.{
  ChatGptWebAdapterError, exhausted_error, next_entry, prune, record_retryable_failure, exhausted,
  clear, retry_budget_ttl_ms,
}
use agent_chatgpt_bridge.RetryPolicy.Refinement.{
  Event, fails, asks, clears, failed_with, asked, cleared, answers, promised, answers-promised,
}

abbrev failure : ChatGptWebAdapterError
failure = record {
  message = codes "gone.";
  status = 503;
  error_type = codes "server_error";
  code = codes "chatgpt_unavailable";
  retryable = true;
}

abbrev events : List (ℕ × Event)
events =
    (1, fails (codes "k") failure)
    ∷ (2, fails (codes "k") failure)
    ∷ (3, fails (codes "k") failure)
    ∷ (4, fails (codes "k") failure)
    ∷ (5, clears (codes "k"))
    ∷ (6, asks (codes "k"))
    ∷ []

-- The fourth failure is the first that may not be retried.
events-answers :
    answers retry_budget_ttl_ms events []
    ≡ failed_with failure
      ∷ failed_with failure
      ∷ failed_with failure
      ∷ failed_with (exhausted_error (next_entry none failure 0))
      ∷ cleared
      ∷ asked none
      ∷ []
unfolding answers prune record_retryable_failure exhausted clear
events-answers = refl

answers-promised_example :
    answers retry_budget_ttl_ms events [] ≡ promised retry_budget_ttl_ms events (λ key. none)
answers-promised_example =
    answers-promised retry_budget_ttl_ms events
      (omega arith, (omega arith, (omega arith, (omega arith, (omega arith, (omega arith, tt))))))
