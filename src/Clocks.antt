-- ===== src/Clocks.antt =====
-- The clock manager of Source/ryazha-clk/sysmodule/src/mgr/clock_manager.cpp: `SetClocks` and what it
-- calls. The calls of the board are recorded, the newest first; what the board answers to `GetHz` is a
-- function of them. Logging is left out.
pub mod Allowed
pub mod Safe
pub mod Dvfs
pub mod Safety
pub mod Tick
pub mod Misc
use rcu.Base.{
  ℕ, ◌+◌, ◌-◌, ◌*◌, ◌/◌, ◌<◌, Bool, true, false, not, ◌&&◌, ◌||◌, Option, none, some, ◌>>=◌, List,
  [], ◌∷◌, ◌++◌, ltb, leb, ◌==◌, ◌/=◌, if◌then◌else◌,
}
use rcu.Hoc.{
  Module, cpu, gpu, mem, governor, display, module_index, Profile, SocType, erista, mariko,
}
use rcu.Config.Key
use rcu.Config.Store.{Config, get_auto_clock_hz}
use rcu.FreqTable.{FreqTable, nearest_hz}
use rcu.FreqTable.Caps.{max_allowed_hz}
use rcu.Governor.Flags.{Flags, Stock, cpu_stock, gpu_stock, display_stock, handle_governor}
use rcu.Dvfs.{calculate_tbreak}
use rcu.Dvfs.Hijack.{dvfs_vmin}

-- The calls of the board that change something.
pub data Call : Type 0 where
  set_hz : Module → ℕ → Call
  reset_to_stock reset_to_stock_cpu reset_to_stock_gpu reset_to_stock_mem reset_to_stock_display :
      Call
  set_dfll_tunings : ℕ → ℕ → ℕ → Call
  pcv_hijack : ℕ → Call

-- What `SetClocks` reads: the configuration, the SoC, the bracket of the GPU, the frequency tables, and
-- `board::GetHz` after the calls so far.
pub record Env : Type 0 where
  pub config : Config
  pub soc : SocType
  pub bracket : ℕ
  pub tables : Module → FreqTable
  pub get_hz : List Call → Module → ℕ

-- `gContext`, the flags of the governor, the static `prepareBoostExit`, and the calls.
pub record Clocks : Type 0 where
  pub application_id : ℕ
  pub profile : Profile
  pub freqs : Module → ℕ
  pub stable_freqs : Module → ℕ
  pub real_freqs : Module → ℕ
  pub override_freqs : Module → ℕ
  pub stable_override_freqs : Module → ℕ
  pub flags : Flags
  pub prepare_boost_exit : Bool
  pub calls : List Call

abbrev pub call : Call → Clocks → Clocks
call c s = record s { calls = c ∷ s.calls }

abbrev pub put : Module → ℕ → (Module → ℕ) → Module → ℕ
put m hz freqs n = if module_index n == module_index m then hz else freqs n

-- `HOCCLK_GLOBAL_PROFILE_TID`, and `DVFSMode_Hijack`.
abbrev pub global_profile_tid : ℕ
global_profile_tid = 0xA111111111111111

abbrev pub dvfs_mode_hijack : ℕ
dvfs_mode_hijack = 1

abbrev pub value : Env → ℕ → ℕ
value env k = env.config.values k

abbrev pub or_else : ℕ → ℕ → ℕ
or_else a b = if a /= 0 then a else b

-- `targetHz`: the override, the clock of the title, or that of the global profile. `returnRaw` holds
-- for the modules above `HocClkModule_MEM`.
unfoldable pub target_hz : Env → Clocks → Module → ℕ
target_hz env s m =
    let raw = ltb 2 (module_index m) in
    or_else (s.override_freqs m) (
      or_else (get_auto_clock_hz env.config s.application_id (module_index m) s.profile raw)
        (get_auto_clock_hz env.config global_profile_tid (module_index m) s.profile raw))

-- `GetNearestHz` below `GetMaxAllowedHz`.
unfoldable pub allowed_hz : Env → Profile → Module → ℕ → Option ℕ
allowed_hz env p m hz = nearest_hz (env.tables m) hz (max_allowed_hz env.config.values env.soc m p)

-- The calls of `SetDfllTunings` in `HandleFreqReset`, by SoC.
abbrev pub dfll_call : Env → SocType → Call
dfll_call env erista = set_dfll_tunings (value env Key.erista_cpu_uv) 0 1581000000
dfll_call env mariko =
    set_dfll_tunings (value env Key.mariko_cpu_uv_low) (value env Key.mariko_cpu_uv_high)
      (calculate_tbreak mariko (value env Key.table_conf))

-- `DVFSReset`.
unfoldable pub dvfs_reset : Env → Clocks → Option Clocks
dvfs_reset env s =
    if value env Key.dvfs_mode == dvfs_mode_hijack
    then (let target = target_hz env s gpu in
        allowed_hz env s.profile gpu target >>= λ nearest.
        let t = call reset_to_stock_gpu (call (pcv_hijack 0) s) in
        some (if target /= 0 then call (set_hz gpu nearest) t else t))
    else some s

-- `ApplyGpuDvfs`.
unfoldable pub apply_gpu_dvfs : Env → ℕ → Clocks → Option Clocks
apply_gpu_dvfs env target s =
    (allowed_hz env s.profile gpu (env.get_hz s.calls gpu) >>= λ nearest.
    let t =
      call (pcv_hijack (dvfs_vmin env.soc (value env Key.dvfs_offset) env.bracket target)) s in
    some (if target /= 0 then call (set_hz gpu nearest) t else call reset_to_stock_gpu t))

-- `HandleFreqReset`. Its last parameter is passed by value, so what it assigns to it is lost.
unfoldable pub handle_freq_reset : Env → Module → Bool → Bool → Clocks → Option Clocks
handle_freq_reset env cpu is_boost did s =
    let t =
      if not (is_boost || (value env Key.overwrite_boost_mode /= 0 && is_boost))
      then call reset_to_stock_cpu s
      else s in
    some (if value env Key.live_cpu_uv /= 0 then call (dfll_call env env.soc) t else t)
handle_freq_reset env gpu is_boost did s = some (call reset_to_stock_gpu s)
handle_freq_reset env mem is_boost did s =
    let t = call reset_to_stock_mem s in if did then some t else dvfs_reset env t
handle_freq_reset env governor is_boost did s = some s
handle_freq_reset env display is_boost did s =
    some (if value env Key.overwrite_refresh_rate /= 0 then call reset_to_stock_display s else s)

-- `board::SetHz`, with `gContext.freqs` and its copy in `gContext.stable`.
abbrev pub set_clock : Module → ℕ → Clocks → Clocks
set_clock m hz s = record (call (set_hz m hz) s) {
  freqs = put m hz s.freqs;
  stable_freqs = put m hz s.stable_freqs;
}

-- `module == HocClkModule_MEM` and `DVFSMode_Hijack`.
abbrev pub hijacks : Env → Module → Bool
hijacks env m = module_index m == 2 && value env Key.dvfs_mode == dvfs_mode_hijack

-- The change of a rate in `SetClocks`: the voltage of the GPU goes first when the memory speeds up and
-- last when it slows down. `old` is `oldHz`.
unfoldable pub change_rate : Env → Module → ℕ → ℕ → ℕ → Clocks → Option Clocks
change_rate env m old target nearest s =
    ((if hijacks env m && ltb old target then apply_gpu_dvfs env target s else some s) >>= λ t.
    let u = set_clock m nearest t in
    if hijacks env m && ltb target old then apply_gpu_dvfs env target u else some u)

-- The branch of `SetClocks` with a target.
unfoldable pub apply_target : Env → Module → ℕ → ℕ → Clocks → Option Clocks
apply_target env m old target s =
    (allowed_hz env s.profile m target >>= λ nearest.
    if nearest == s.freqs m then some s else change_rate env m old target nearest s)

-- The end of a pass, for a module up to `HocClkModule_MEM`. `didHijackPcv` is false throughout: nothing
-- else is assigned to it.
unfoldable pub apply_or_reset : Env → Bool → Module → Clocks → Option Clocks
apply_or_reset env is_boost m s =
    let target = target_hz env s m in
    if target /= 0
    then apply_target env m (env.get_hz s.calls m) target s
    else handle_freq_reset env m is_boost false s

abbrev pub stock_call : Stock → Call
stock_call cpu_stock = reset_to_stock_cpu
stock_call gpu_stock = reset_to_stock_gpu
stock_call display_stock = reset_to_stock_display

abbrev pub push_stock : List Stock → Clocks → Clocks
push_stock [] s = s
push_stock (c ∷ cs) s = push_stock cs (call (stock_call c) s)

-- A pass of the loop of `SetClocks`. `HandleGovernor` looks its target up again, to the same result.
unfoldable pub set_module : Env → Bool → Module → Clocks → Option Clocks
set_module env is_boost cpu s = if s.flags.cpu then some s else apply_or_reset env is_boost cpu s
set_module env is_boost gpu s = if s.flags.gpu then some s else apply_or_reset env is_boost gpu s
set_module env is_boost mem s = apply_or_reset env is_boost mem s
set_module env is_boost governor s =
    let target = target_hz env s governor in
    let switched = handle_governor s.flags target target in
    some (push_stock switched.1 (record s { flags = switched.0 }))
set_module env is_boost display s =
    let target = target_hz env s display in
    if s.flags.vrr || value env Key.overwrite_refresh_rate == 0
    then some s
    else if target /= 0
    then some (record (set_clock display target s) { real_freqs = put display target s.real_freqs })
    else handle_freq_reset env display is_boost false s

abbrev pub set_modules : Env → Bool → List Module → Clocks → Option Clocks
set_modules env is_boost [] s = some s
set_modules env is_boost (m ∷ ms) s =
    (set_module env is_boost m s >>= λ t. set_modules env is_boost ms t)

abbrev pub all_modules : List Module
all_modules = cpu ∷ gpu ∷ mem ∷ governor ∷ display ∷ []

abbrev pub set_cpu_again : Env → Clocks → Clocks
set_cpu_again env s = call (set_hz cpu (env.get_hz s.calls cpu)) s

-- `SetClocks`.
unfoldable pub set_clocks : Env → Bool → Clocks → Option Clocks
set_clocks env is_boost s =
    if is_boost && value env Key.overwrite_boost_mode == 0
    then some (record (set_cpu_again env s) { prepare_boost_exit = true })
    else set_modules env is_boost all_modules (
        if s.prepare_boost_exit
        then record (set_cpu_again env s) { prepare_boost_exit = false }
        else s)
