-- ===== src/Clocks/Tick.antt =====
-- `RefreshContext` and `Tick` of Source/ryazha-clk/sysmodule/src/mgr/clock_manager.cpp. The readings that
-- are only reported (temperatures, power, loads, voltages, frames) are left out, and so is
-- `HandleMiscFeatures`.
pub mod Settles
pub mod Throttle
use rcu.Base.{
  ℕ, Bool, true, false, not, ◌&&◌, ◌||◌, Option, none, some, ◌>>=◌, List, [], ◌∷◌, ◌==◌, ◌/=◌,
  if◌then◌else◌,
}
use rcu.Hoc.{Module, gpu, module_index, Profile, profile_index}
use rcu.Config.Key
use rcu.Config.Store.{Config, Ini, refresh}
use rcu.Clocks.{
  Env, Clocks, Call, reset_to_stock, reset_to_stock_gpu, pcv_hijack, call, put, value,
  dvfs_mode_hijack, all_modules, set_clocks,
}
use rcu.Clocks.Safety.{Sensors, handle_safety_features}

-- The changes of the title and of the profile, with the reset that follows either.
unfoldable pub refresh_title : Env → ℕ → Profile → Clocks → Bool × Clocks
refresh_title env app profile s =
    let changed = (app /= s.application_id) || (profile_index profile /= profile_index s.profile) in
    let t = record s { application_id = app; profile = profile } in
    let reset = call reset_to_stock t in
    if changed
    then (
      true,
      if value env Key.dvfs_mode == dvfs_mode_hijack
          then call reset_to_stock_gpu (call (pcv_hijack 0) reset)
          else reset,
    )
    else (false, s)

-- A pass of the loop over the modules: its rate, and its override.
abbrev pub refresh_rate : ℕ → Module → Bool × Clocks → Bool × Clocks
refresh_rate hz m (changed, s) =
    if hz /= 0 && hz /= s.freqs m
    then (true, record s { freqs = put m hz s.freqs; stable_freqs = put m hz s.stable_freqs })
    else (changed, s)

abbrev pub refresh_override : ℕ → Module → Bool × Clocks → Bool × Clocks
refresh_override hz m (changed, s) =
    if hz /= s.override_freqs m
    then (
      true,
      record s {
        override_freqs = put m hz s.override_freqs;
        stable_override_freqs = put m hz s.stable_override_freqs;
      },
    )
    else (changed, s)

-- `hz` is `board::GetHz` in this loop, which calls nothing that changes it.
abbrev pub refresh_modules : (Module → ℕ) → (ℕ → ℕ) → List Module → Bool × Clocks → Bool × Clocks
refresh_modules hz overrides [] r = r
refresh_modules hz overrides (m ∷ ms) r =
    refresh_modules hz overrides ms
      (refresh_override (overrides (module_index m)) m (refresh_rate (hz m) m r))

-- `RefreshContext`, for the title and the profile that the system reports.
unfoldable pub refresh_context : Env → ℕ → Profile → Clocks → Bool × Clocks
refresh_context env app profile s =
    let r = refresh_title env app profile s in
    refresh_modules (env.get_hz r.1.calls) env.config.overrides all_modules r

-- What a tick finds: the mode, the sensors, the title, the profile, the file with its time, and the rate
-- that is measured for the GPU.
pub record Found (F : Type 0) : Type 0 where
  pub is_boost : Bool
  pub sensors : Sensors
  pub app : ℕ
  pub profile : Profile
  pub now : ℕ
  pub file : F
  pub real_gpu_hz : ℕ

-- `Tick`: the configuration and the state after it. The configuration is only refreshed if
-- `RefreshContext` reports no change.
unfoldable pub tick : {F : Type 0} → Ini F → Env → Found F → Clocks → Config × Option Clocks
tick ini env i s =
    let safety = handle_safety_features env i.sensors s in
    let context = refresh_context env i.app i.profile safety.1 in
    let config = if context.0 then (false, env.config) else refresh ini i.now i.file env.config in
    let act = context.0 || config.0 || i.real_gpu_hz /= context.1.freqs gpu in
    (
      config.1,
      if act && not safety.0
          then set_clocks (record env { config = config.1 }) i.is_boost context.1
          else some context.1,
    )
