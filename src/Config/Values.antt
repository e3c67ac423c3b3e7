-- ===== src/Config/Values.antt =====
-- The settings: their defaults and the values that they may have
-- (Source/ryazha-clk/common/include/hocclk/config.h).
pub mod Valid
use rcu.Base.{
  ℕ, ◌%◌, ◌<◌, Bool, true, false, not, ◌&&◌, ◌||◌, List, [], ◌∷◌, ltb, leb, ◌==◌, ◌/=◌,
  if◌then◌else◌,
}
use rcu.Config.Key

abbrev pub Values : Type 0
Values = ℕ → ℕ

abbrev pub one_of : ℕ → List ℕ → Bool
one_of k [] = false
one_of k (x ∷ xs) = if k == x then true else one_of k xs

-- `AulaDisplayColorMode_DoNotOverride`.
abbrev pub aula_do_not_override : ℕ
aula_do_not_override = 0xFF

abbrev pub defaults_to_one : List ℕ
defaults_to_one = Key.thermal_throttle ∷ Key.handheld_tdp ∷ Key.is_first_load ∷ Key.dvfs_mode ∷ []

-- `hocclkDefaultConfigValue`. The settings that default to 0 and the `default` branch agree.
unfoldable pub default_config_value : ℕ → ℕ
default_config_value k =
    if k == Key.polling_interval_ms
    then 300
    else if k == Key.erista_max_cpu_clock
    then 1785
    else if k == Key.mariko_max_cpu_clock
    then 1963
    else if one_of k defaults_to_one
    then 1
    else if k == Key.thermal_throttle_threshold
    then 70
    else if k == Key.handheld_tdp_limit
    then 9600
    else if k == Key.lite_tdp_limit
    then 6400
    else if k == Key.cpu_governor_minimum_freq
    then 612000000
    else if k == Key.max_display_clock_h
    then 60
    else if k == Key.display_voltage
    then 1200
    else if k == Key.aula_display_color_preset
    then aula_do_not_override
    else 0

abbrev pub positive_keys : List ℕ
positive_keys =
    Key.erista_max_cpu_clock ∷ Key.mariko_max_cpu_clock ∷ Key.thermal_throttle_threshold
    ∷ Key.handheld_tdp_limit ∷ Key.lite_tdp_limit ∷ Key.polling_interval_ms
    ∷ Key.max_display_clock_h ∷ []

abbrev pub flag_keys : List ℕ
flag_keys =
    Key.temp_log_interval_ms ∷ Key.freq_log_interval_ms ∷ Key.power_log_interval_ms
    ∷ Key.csv_write_interval_ms ∷ Key.uncapped_clocks ∷ Key.overwrite_boost_mode
    ∷ Key.thermal_throttle ∷ Key.handheld_tdp ∷ Key.overwrite_refresh_rate ∷ Key.is_first_load
    ∷ Key.enable_experimental_settings ∷ Key.live_cpu_uv ∷ Key.gpu_scheduling_method
    ∷ Key.mariko_middle_freqs ∷ []

-- `hocclkValidConfigValue`; `input & 1` is the remainder by 2. All other settings take every value.
unfoldable pub valid_config_value : ℕ → ℕ → Bool
valid_config_value k input =
    if one_of k positive_keys
    then ltb 0 input
    else if one_of k flag_keys
    then input % 2 == input
    else if k == Key.battery_charge_current
    then (leb 1024 input && leb input 3072) || input == 0
    else if k == Key.display_voltage
    then leb 800 input && leb input 1325
    else true

-- The value that is stored for an input.
abbrev pub accepted : ℕ → ℕ → ℕ
accepted k input = if valid_config_value k input then input else default_config_value k

abbrev pub put_value : ℕ → ℕ → Values → Values
put_value k v values j = if j == k then v else values j

-- The loop over the settings below `enum_max` in `Close`, `Initialize` and `SetConfigValues`.
abbrev pub fill : (ℕ → ℕ) → Values → Values
fill f values j = if ltb j Key.enum_max then f j else values j
