-- ===== src/Governor.antt =====
-- The governor of Source/ryazha-clk/sysmodule/src/mgr/governor.cpp: one round of `GovernorThread` for
-- the CPU and the GPU. `Governor/Vrr` has the display, `Governor/Flags` has `HandleGovernor`.
pub mod Limits
pub mod Hold
pub mod Vrr
pub mod Flags
use rcu.Base.{
  ℕ, ◌+◌, ◌-◌, ◌*◌, ◌/◌, ◌<◌, Bool, true, false, not, ◌&&◌, ◌||◌, Option, none, some, ◌>>=◌, List,
  [], ◌∷◌, ltb, ◌==◌, ◌/=◌, u32, u64, min, if◌then◌else◌,
}
use rcu.Hoc.{cpu, gpu}
use rcu.FreqTable.{FreqTable, table_lookup}
use rcu.FreqTable.Caps.{is_assignable_hz}

-- The local variables of the thread, and `isCpuGovernorInBoostMode`.
pub record State : Type 0 where
  pub cpu_down_hold : ℕ
  pub cpu_last_hz : ℕ
  pub gpu_down_hold : ℕ
  pub gpu_last_hz : ℕ
  pub min_hz : ℕ
  pub cpu_tick : ℕ
  pub in_boost_mode : Bool

-- What a round reads for one module: its table, load, target (`ResolveTargetHz`), limit
-- (`GetMaxAllowedHz`), whether its governor is on, and for the CPU whether the console is in boost mode
-- and the setting `CpuGovernorMinimumFreq`.
pub record Sample : Type 0 where
  pub enabled : Bool
  pub boost : Bool
  pub table : FreqTable
  pub load : ℕ
  pub target_hz : ℕ
  pub max_hz : ℕ
  pub config_min : ℕ

-- `DOWN_HOLD_TICKS` and `STEP_UTIL`.
abbrev pub down_hold_ticks : ℕ
down_hold_ticks = 10

abbrev pub step_util : ℕ
step_util = 900

-- `SchedutilTargetHz`.
unfoldable pub schedutil_target_hz : ℕ → ℕ → ℕ
schedutil_target_hz util table_max = u32 (min (u64 (table_max * util) / step_util) table_max)

-- `table.list[table.count - 1]`; `none` past an empty table.
abbrev pub last_entry : FreqTable → Option ℕ
last_entry [] = none
last_entry (f ∷ []) = some f
last_entry (f ∷ g ∷ rest) = last_entry (g ∷ rest)

-- `if (limit && desiredHz > limit) desiredHz = limit;`
abbrev pub clip : ℕ → ℕ → ℕ
clip limit hz = if limit /= 0 && ltb limit hz then limit else hz

-- `newHz` of a round: the load turned into an entry of the table.
unfoldable pub demand_at : FreqTable → ℕ → ℕ → ℕ → Option ℕ
unfolding schedutil_target_hz
demand_at table load target_hz max_hz = do
  table_max ← last_entry table
  table_lookup table (clip max_hz (clip target_hz (schedutil_target_hz load table_max)))

abbrev pub demand : Sample → Option ℕ
demand i = demand_at i.table i.load i.target_hz i.max_hz

abbrev pub going_down : ℕ → ℕ → Bool
going_down last_hz new_hz = last_hz /= 0 && ltb new_hz last_hz

-- The countdown of a round.
abbrev pub next_hold : Bool → ℕ → ℕ
next_hold down hold =
    let held = if not down then 0 else if hold == 0 then down_hold_ticks else hold in
    if ltb 0 held then held - 1 else held

-- The rest of the CPU's round, from `newHz` on: the new state, and the rate given to `board::SetHz`.
unfoldable pub cpu_ramp : State → ℕ → ℕ → State × Option ℕ
cpu_ramp s config_min new_hz =
    let down = going_down s.cpu_last_hz new_hz in
    let hold = next_hold down s.cpu_down_hold in
    let tick = u32 (s.cpu_tick + 1) in
    let due = ltb 50 tick in
    let floor = if due then u32 config_min else s.min_hz in
    let hz = if ltb new_hz floor then floor else new_hz in
    let s' = record s {
      cpu_down_hold = hold;
      cpu_tick = if due then 0 else tick;
      min_hz = floor;
    } in
    if (not down || hold == 0) && is_assignable_hz cpu hz
    then (record s' { cpu_last_hz = hz }, some hz)
    else (s', none)

unfoldable pub cpu_round : State → Sample → Option (State × Option ℕ)
unfolding cpu_ramp demand_at
cpu_round s i =
    if i.enabled
    then if i.boost
      then some (record s { in_boost_mode = true; cpu_down_hold = 0; cpu_last_hz = 0 }, none)
      else (demand i >>= λ new_hz.
          some (cpu_ramp (record s { in_boost_mode = false }) i.config_min new_hz))
    else some (record s { in_boost_mode = false; cpu_down_hold = 0; cpu_last_hz = 0 }, none)

-- The same for the GPU, which has no floor and no boost mode.
unfoldable pub gpu_ramp : State → ℕ → State × Option ℕ
gpu_ramp s new_hz =
    let down = going_down s.gpu_last_hz new_hz in
    let hold = next_hold down s.gpu_down_hold in
    let s' = record s { gpu_down_hold = hold } in
    if (not down || hold == 0) && is_assignable_hz gpu new_hz
    then (record s' { gpu_last_hz = new_hz }, some new_hz)
    else (s', none)

unfoldable pub gpu_round : State → Sample → Option (State × Option ℕ)
unfolding gpu_ramp demand_at
gpu_round s i =
    if i.enabled
    then (demand i >>= λ new_hz. some (gpu_ramp s new_hz))
    else some (record s { gpu_down_hold = 0; gpu_last_hz = 0 }, none)

-- The branch of a round while the service does not run.
abbrev pub idle : State → State
idle s = record s { cpu_down_hold = 0; cpu_last_hz = 0; gpu_down_hold = 0; gpu_last_hz = 0 }

-- The CPU and the GPU part of a round of the loop, with the two rates set.
unfoldable pub round : Bool → State → Sample → Sample → Option (State × Option ℕ × Option ℕ)
unfolding cpu_round gpu_round
round running s c g =
    if running
    then (cpu_round s c >>= λ (s', cpu_hz).
        gpu_round s' g >>= λ (s'', gpu_hz). some (s'', cpu_hz, gpu_hz))
    else some (idle s, none, none)

-- The start of the thread.
abbrev pub start : State
start = record {
  cpu_down_hold = 0;
  cpu_last_hz = 0;
  gpu_down_hold = 0;
  gpu_last_hz = 0;
  min_hz = 612;
  cpu_tick = 0;
  in_boost_mode = false;
}
