-- ===== src/Hoc/Packing.antt =====
-- The packed state of the governor: one byte for each of CPU, GPU and VRR
-- (Source/ryazha-clk/common/include/hocclk/board.h).
use rcu.Base.{ℕ, ◌/◌, ◌%◌, ◌^◌, u8}

-- `x >> k` is division and `x & 0xFF` is the remainder.
abbrev pub governor_state_cpu : ℕ → ℕ
governor_state_cpu p = u8 (p % 2 ^ 8)

abbrev pub governor_state_gpu : ℕ → ℕ
governor_state_gpu p = u8 (p / 2 ^ 8 % 2 ^ 8)

abbrev pub governor_state_vrr : ℕ → ℕ
governor_state_vrr p = u8 (p / 2 ^ 16 % 2 ^ 8)

-- `ComponentGovernorState`.
abbrev pub component_do_not_override : ℕ
component_do_not_override = 0

abbrev pub component_disabled : ℕ
component_disabled = 1

abbrev pub component_enabled : ℕ
component_enabled = 2
