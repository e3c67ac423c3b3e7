-- ===== src/Tests/Manager.antt =====
-- The clock manager, on a board that always reports the same rates.
use rcu.Base.{
  ℕ, ◌^◌, ◌<◌, ◌≡◌, refl, true, false, some, List, [], ◌∷◌, ◌==◌, if◌then◌else◌, neg, pos, arith,
}
use rcu.Hoc.{aula, Module, cpu, gpu, mem, governor, display, mariko, handheld, docked, icosa}
use rcu.Config.Key
use rcu.Config.Values.{default_config_value}
use rcu.Config.Store.{Config, Line}
use rcu.Governor.Flags.{Flags}
use rcu.FreqTable.{nearest_hz}
use rcu.FreqTable.Caps.{max_allowed_hz}
use rcu.Clocks.{
  set_hz, pcv_hijack, Env, Clocks, value, put, target_hz, allowed_hz, change_rate, apply_gpu_dvfs,
  apply_target, apply_or_reset, set_module, set_clocks, dvfs_mode_hijack,
}
use rcu.Clocks.Allowed.{HasTables, IsSafe, Done}
use rcu.Clocks.Safe.{set_clocks-IsSafe}
use rcu.Clocks.Dvfs.{in_order, volt_for, dvfs_order}
use rcu.Clocks.Safety.{Sensors, tdp_key}
use rcu.Clocks.Misc.{misc_calls, set_display_mv, set_display_color_mode}
use rcu.Clocks.Tick.{Found}
use rcu.Tests.Configs.{blank}

abbrev config : Config
config = record blank {
  loaded = true;
  values = default_config_value;
  overrides = λ m. if m == 2 then 1600000000 else 0;
}

abbrev tables : Module → List ℕ
tables cpu = 612000000 ∷ 1020000000 ∷ 1785000000 ∷ []
tables gpu = 307200000 ∷ 384000000 ∷ 768000000 ∷ []
tables mem = 665600000 ∷ 1331200000 ∷ 1600000000 ∷ 1862400000 ∷ []
tables governor = []
tables display = []

abbrev found_rates : Module → ℕ
found_rates cpu = 1020000000
found_rates gpu = 384000000
found_rates mem = 1331200000
found_rates governor = 0
found_rates display = 60

abbrev env : Env
env = record {
  config = config;
  soc = mariko;
  bracket = 0;
  tables = tables;
  get_hz = λ cs m. found_rates m;
}

abbrev off : Flags
off = record {
  cpu = false;
  gpu = false;
  vrr = false;
  last_cpu = false;
  last_gpu = false;
  last_vrr = false;
}

-- The memory has an override, nothing else has a target.
abbrev pub clocks : Clocks
clocks = record {
  application_id = 7;
  profile = handheld;
  freqs = found_rates;
  stable_freqs = found_rates;
  real_freqs = found_rates;
  override_freqs = λ m. elim m [ mem ↦ 1862400000 | _ ↦ 0 ];
  stable_override_freqs = λ m. 0;
  flags = off;
  prepare_boost_exit = false;
  calls = [];
}

env-HasTables : HasTables env
env-HasTables = ground arith

clocks-IsSafe : IsSafe env clocks clocks
clocks-IsSafe = (tt, (refl, ((λ m. refl), (refl, refl))))

set_clocks-IsSafe_example : Done (IsSafe env clocks) (set_clocks env false clocks)
set_clocks-IsSafe_example = set_clocks-IsSafe env clocks false clocks env-HasTables clocks-IsSafe

mem_allowed : allowed_hz env handheld mem (target_hz env clocks mem) ≡ some 1862400000
unfolding target_hz allowed_hz nearest_hz max_allowed_hz default_config_value
mem_allowed = refl

dvfs_mode_on : value env Key.dvfs_mode ≡ dvfs_mode_hijack
unfolding default_config_value
dvfs_mode_on = refl

abbrev sped_up : Clocks
sped_up = record clocks {
  freqs = put mem 1862400000 found_rates;
  stable_freqs = put mem 1862400000 found_rates;
  calls = set_hz mem 1862400000 ∷ set_hz gpu 384000000 ∷ pcv_hijack (volt_for env 1862400000) ∷ [];
}

mem_target : target_hz env clocks mem ≡ 1862400000
unfolding target_hz
mem_target = refl

speeds_up : set_module env false mem clocks ≡ some sped_up
unfolding set_module apply_or_reset target_hz apply_target change_rate apply_gpu_dvfs allowed_hz
    nearest_hz max_allowed_hz default_config_value
speeds_up = refl

dvfs_order_example :
    (g : ℕ) × (sped_up.calls
      ≡ in_order
          (env.get_hz clocks.calls mem)
          (target_hz env clocks mem)
          1862400000
          g
          (volt_for env (target_hz env clocks mem))
          clocks.calls)
dvfs_order_example =
    dvfs_order env false clocks sped_up 1862400000 dvfs_mode_on mem_allowed
      (λ e. absurd (omega (arith, e))) (omega (arith, mem_target)) speeds_up

abbrev hot : Sensors
hot = record { console = icosa; power_mw = neg 12000; temp_soc = pos 75000 }

abbrev found : Found (List Line)
found = record {
  is_boost = false;
  sensors = hot;
  app = 7;
  profile = docked;
  now = 1;
  file = [];
  real_gpu_hz = 384000000;
}

tdp_small : value env (tdp_key icosa) < 2 ^ 31
unfolding default_config_value
tdp_small = omega arith

aula_calls : misc_calls env aula ≡ set_display_mv 1200 ∷ set_display_color_mode 0xFF ∷ []
unfolding default_config_value
aula_calls = refl
