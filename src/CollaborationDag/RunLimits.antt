-- ===== src/CollaborationDag/RunLimits.antt =====
-- `P4_LIMITS` of src/core/collaboration-domain.ts: the hard limits of a run.
use agent_chatgpt_bridge.Common.{ℕ}

abbrev pub max_turns : ℕ
max_turns = 100

abbrev pub max_participants : ℕ
max_participants = 10

abbrev pub max_retries_per_participant : ℕ
max_retries_per_participant = 5

-- 4 * 60 * 60 * 1000, four hours
abbrev pub max_wall_clock_ms : ℕ
max_wall_clock_ms = 14400000
