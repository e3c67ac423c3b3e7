-- ===== src/Ipc/Service.antt =====
-- The commands of the service: Source/ryazha-clk/sysmodule/src/ipc/ipc_service.cpp. The loop of its
-- thread gives each request to `service_handler_func` through Ipc.Server.
pub mod Errors
pub mod Settings
use rcu.Base.{
  ℕ, ◌/◌, Bool, true, false, not, ◌&&◌, ◌||◌, Option, none, some, List, [], ◌∷◌, ltb, leb, ◌==◌,
  ◌/=◌, if◌then◌else◌, length,
}
use rcu.Config.Values.{Values}
use rcu.Config.Store.{module_max, Config, get_profile_count, get_profiles, set_override_hz}
use rcu.Config.Write.{set_profiles, set_config_values}
use rcu.FreqTable.{FreqTable}
use rcu.Clocks.{Clocks}
use rcu.Clocks.Misc.{get_freq_list}
use rcu.Kip.Data.{Kip, Env as Files, set_kip_data}
use rcu.Ipc.Request.{
  Result, success, generic, config_not_loaded, config_save_failed, Hipc, Data, Args,
}

-- What the commands change: the configuration with its file and hoc.kip, `gEnabled`, and `gRunning` of
-- the clock manager.
pub record State (F : Type 0) : Type 0 where
  pub kip : Kip F
  pub enabled : Bool
  pub running : Bool

-- What they only use: the files, the frequency tables and the context of the clock manager.
pub record Env (F : Type 0) : Type 0 where
  pub files : Files F
  pub tables : ℕ → FreqTable
  pub context : Clocks

-- What is written to the response, or to the first receive buffer.
pub data Reply : Type 0 where
  api_version : ℕ → Reply
  version_string : ℕ → Reply
  context : Clocks → Reply
  profile_count : ℕ → Reply
  profiles : (ℕ → ℕ → ℕ) → Reply
  config_values : Values → Reply
  freq_list : List ℕ → Reply

-- The numbers of the commands.
abbrev pub cmd_get_api_version : ℕ
cmd_get_api_version = 0

abbrev pub cmd_get_version_string : ℕ
cmd_get_version_string = 1

abbrev pub cmd_get_current_context : ℕ
cmd_get_current_context = 2

abbrev pub cmd_exit : ℕ
cmd_exit = 3

abbrev pub cmd_get_profile_count : ℕ
cmd_get_profile_count = 4

abbrev pub cmd_get_profiles : ℕ
cmd_get_profiles = 5

abbrev pub cmd_set_profiles : ℕ
cmd_set_profiles = 6

abbrev pub cmd_set_enabled : ℕ
cmd_set_enabled = 7

abbrev pub cmd_set_override : ℕ
cmd_set_override = 8

abbrev pub cmd_get_config_values : ℕ
cmd_get_config_values = 9

abbrev pub cmd_set_config_values : ℕ
cmd_set_config_values = 10

abbrev pub cmd_get_freq_list : ℕ
cmd_get_freq_list = 11

abbrev pub cmd_set_kip_data : ℕ
cmd_set_kip_data = 12

-- `HOCCLK_IPC_API_VERSION`, and the sizes of what the commands take and give.
abbrev pub ipc_api_version : ℕ
ipc_api_version = 2

abbrev pub context_size : ℕ
context_size = 1280

abbrev pub profile_list_size : ℕ
profile_list_size = 100

abbrev pub config_list_size : ℕ
config_list_size = 1080

abbrev pub set_profiles_args_size : ℕ
set_profiles_args_size = 112

-- The first buffer has at least that many bytes.
abbrev pub first_holds : List ℕ → ℕ → Bool
first_holds [] size = false
first_holds (b ∷ bs) size = leb size b

abbrev pub first_size : List ℕ → ℕ
first_size [] = 0
first_size (b ∷ bs) = b

abbrev pub Answer : Type 0 → Type 0
Answer F = Result × (Option Reply × State F)

module _ {F : Type 0} where
  abbrev pub reply : Reply → State F → Answer F
  reply r s = (success, (some r, s))

  abbrev pub done : State F → Answer F
  done s = (success, (none, s))

  -- An error, without data. `GetProfileCount` and `GetFreqList` have their size announced before the
  -- handler fails, which is left out: the server copies no data on an error.
  abbrev pub fail : Result → State F → Answer F
  fail e s = (e, (none, s))

  -- `if (!config::HasProfilesLoaded())`.
  abbrev pub if_loaded : State F → Answer F → Answer F
  if_loaded s answer = if s.kip.config.loaded then answer else fail config_not_loaded s

  -- `ConfigSaveFailed` unless the configuration was saved.
  abbrev pub saved : State F → Bool × (F × Config) → Answer F
  saved s (true, (ini_file, config)) =
      done (record s { kip = record s.kip { ini_file = ini_file; config = config } })
  saved s (false, (ini_file, config)) =
      fail config_save_failed
        (record s { kip = record s.kip { ini_file = ini_file; config = config } })

  unfoldable pub set_profiles_handler : Env F → Args → State F → Answer F
  set_profiles_handler env a s =
      if_loaded s
        (saved s (set_profiles env.files.ini a.tid a.mhz true s.kip.ini_file s.kip.config))

  unfoldable pub set_override_handler : Args → State F → Answer F
  set_override_handler a s =
      if ltb a.hoc_module module_max
      then done (record s {
        kip = record s.kip { config = set_override_hz a.hoc_module a.hz s.kip.config };
      })
      else fail generic s

  unfoldable pub set_config_values_handler : Env F → Values → State F → Answer F
  set_config_values_handler env values s =
      if_loaded s
        (saved s (set_config_values env.files.ini values true s.kip.ini_file s.kip.config))

  -- `GetFreqList`, where `size` is that of the receive buffer, whose entries have four bytes.
  unfoldable pub get_freq_list_handler : Env F → Args → ℕ → State F → Answer F
  get_freq_list_handler env a size s =
      if not (ltb a.hoc_module module_max) || a.max_count /= size / 4
      then fail generic s
      else reply (freq_list (get_freq_list (env.tables a.hoc_module) a.max_count)) s

  -- `switch`: the first case that is met and does not break off, or what follows the switch.
  abbrev pub first_case : List (Bool × Answer F) → Answer F → Answer F
  first_case [] otherwise = otherwise
  first_case ((met, answer) ∷ cases) otherwise = if met then answer else first_case cases otherwise

  -- The cases of `ServiceHandlerFunc`, each with its conditions.
  unfoldable pub commands : Env F → Hipc → Data → State F → List (Bool × Answer F)
  commands env r d s =
      let recv = r.recv_buffers in
      let config = s.kip.config in
      (d.cmd_id == cmd_get_api_version, reply (api_version ipc_api_version) s)
      ∷ (
        d.cmd_id == cmd_get_version_string && leb 1 (length recv),
        reply (version_string (first_size recv)) s,
      )
      ∷ (
        d.cmd_id == cmd_get_current_context && leb 8 d.size && first_holds recv context_size,
        reply (context env.context) s,
      )
      ∷ (d.cmd_id == cmd_exit, done (record s { running = false }))
      ∷ (
        d.cmd_id == cmd_get_profile_count && leb 8 d.size,
        if_loaded s (reply (profile_count (get_profile_count config r.args.tid)) s),
      )
      ∷ (
        d.cmd_id == cmd_get_profiles && leb 8 d.size && first_holds recv profile_list_size,
        if_loaded s (reply (profiles (get_profiles config r.args.tid)) s),
      )
      ∷ (
        d.cmd_id == cmd_set_profiles && leb set_profiles_args_size d.size,
        set_profiles_handler env r.args s,
      )
      ∷ (
        d.cmd_id == cmd_set_enabled && leb 1 d.size,
        done (record s { enabled = r.args.enabled /= 0 }),
      )
      ∷ (d.cmd_id == cmd_set_override && leb 8 d.size, set_override_handler r.args s)
      ∷ (
        d.cmd_id == cmd_get_config_values && first_holds recv config_list_size,
        if_loaded s (reply (config_values config.values) s),
      )
      ∷ (
        d.cmd_id == cmd_set_config_values && first_holds r.send_buffers config_list_size,
        set_config_values_handler env r.sent_values s,
      )
      ∷ (
        d.cmd_id == cmd_get_freq_list && leb 8 d.size && leb 1 (length recv),
        get_freq_list_handler env r.args (first_size recv) s,
      )
      ∷ (d.cmd_id == cmd_set_kip_data, done (record s { kip = set_kip_data env.files s.kip }))
      ∷ []

  -- `ServiceHandlerFunc`.
  unfoldable pub service_handler_func : Env F → Hipc → Data → State F → Answer F
  service_handler_func env r d s = first_case (commands env r d s) (fail generic s)
