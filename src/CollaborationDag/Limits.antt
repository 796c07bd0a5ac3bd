-- ===== src/CollaborationDag/Limits.antt =====
-- `P5_LIMITS` of src/core/collaboration-dag.ts: the hard limits of a graph.
use agent_chatgpt_bridge.Common.{ℕ}

abbrev pub max_nodes : ℕ
max_nodes = 64

abbrev pub max_edges : ℕ
max_edges = 256

abbrev pub max_parallel_turns : ℕ
max_parallel_turns = 4

abbrev pub max_node_instruction_chars : ℕ
max_node_instruction_chars = 32000
