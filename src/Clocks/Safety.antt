-- ===== src/Clocks/Safety.antt =====
-- `HandleSafetyFeatures` and `ConfigIntervalTimeout` of
-- Source/ryazha-clk/sysmodule/src/mgr/clock_manager.cpp.

pub mod Limits
use rcu.Base.{
  ℕ, zero, suc, ◌+◌, ◌-◌, ◌*◌, ◌/◌, ◌^◌, Bool, true, false, not, ◌&&◌, ◌||◌, Option, none, some,
  List, [], ◌∷◌, ltb, leb, ◌==◌, ◌/=◌, if◌then◌else◌, u32, u64, ℤ, pos, negsuc, ltz, opposite, s32,
  div_towards_zero,
}
use rcu.Hoc.{Profile, handheld, docked, profile_index, ConsoleType, hoag, SocType, erista, mariko}
use rcu.Config.Key
use rcu.Clocks.{Env, Clocks, Call, reset_to_stock_cpu, reset_to_stock_gpu, call, value, dfll_call}

-- What the safety features read: `GetPowerMw(HocClkPowerSensor_Avg)` and `tmp451TempSoc()`.
pub record Sensors : Type 0 where
  pub console : ConsoleType
  pub power_mw : ℤ
  pub temp_soc : ℤ

-- `ResetToStockClocks`.
unfoldable pub reset_to_stock_clocks : Env → Clocks → Clocks
reset_to_stock_clocks env s =
    let t = call reset_to_stock_cpu s in
    call reset_to_stock_gpu
      (if value env Key.live_cpu_uv /= 0 then call (dfll_call env env.soc) t else t)

-- The limit that holds on the console.
abbrev pub tdp_key : ConsoleType → ℕ
tdp_key hoag = Key.lite_tdp_limit
tdp_key _ = Key.handheld_tdp_limit

-- The two conditions of `HandleSafetyFeatures`.
abbrev pub over_power : Env → Sensors → Clocks → Bool
over_power env i s =
    value env Key.handheld_tdp /= 0
    && (profile_index s.profile /= profile_index docked)
    && ltz i.power_mw (opposite (s32 (value env (tdp_key i.console))))

abbrev pub over_temp : Env → Sensors → Bool
over_temp env i =
    ltz (s32 (value env Key.thermal_throttle_threshold)) (div_towards_zero i.temp_soc 1000)
    && value env Key.thermal_throttle /= 0

-- `HandleSafetyFeatures`: whether it reset the clocks, and the state after it.
unfoldable pub handle_safety_features : Env → Sensors → Clocks → Bool × Clocks
handle_safety_features env i s =
    if over_power env i s || over_temp env i
    then (true, reset_to_stock_clocks env s)
    else (false, s)

-- `ConfigIntervalTimeout`: whether to log, and the time of the last log after it.
unfoldable pub config_interval_timeout : Env → ℕ → ℕ → ℕ → Bool × ℕ
config_interval_timeout env key ns last =
    let interval = u64 (value env key * 1000000) in
    if interval /= 0 && ltb interval (u64 (ns + 2 ^ 64 - last)) then (true, ns) else (false, last)
