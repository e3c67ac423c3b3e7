-- ===== src/Config/Key.antt =====
-- Enumerators of `HocClkConfigValue` with their values: every setting of the service itself, and of
-- the kip settings those that the modelled code reads by name
-- (Source/ryazha-clk/common/include/hocclk/config.h). `enum_max` is the number of settings.
use rcu.Base.{ℕ}

abbrev pub polling_interval_ms : ℕ
polling_interval_ms = 0

abbrev pub temp_log_interval_ms : ℕ
temp_log_interval_ms = 1

abbrev pub freq_log_interval_ms : ℕ
freq_log_interval_ms = 2

abbrev pub power_log_interval_ms : ℕ
power_log_interval_ms = 3

abbrev pub csv_write_interval_ms : ℕ
csv_write_interval_ms = 4

abbrev pub uncapped_clocks : ℕ
uncapped_clocks = 5

abbrev pub overwrite_boost_mode : ℕ
overwrite_boost_mode = 6

abbrev pub erista_max_cpu_clock : ℕ
erista_max_cpu_clock = 7

abbrev pub mariko_max_cpu_clock : ℕ
mariko_max_cpu_clock = 8

abbrev pub thermal_throttle : ℕ
thermal_throttle = 9

abbrev pub thermal_throttle_threshold : ℕ
thermal_throttle_threshold = 10

abbrev pub handheld_tdp : ℕ
handheld_tdp = 11

abbrev pub handheld_tdp_limit : ℕ
handheld_tdp_limit = 12

abbrev pub lite_tdp_limit : ℕ
lite_tdp_limit = 13

abbrev pub battery_charge_current : ℕ
battery_charge_current = 14

abbrev pub overwrite_refresh_rate : ℕ
overwrite_refresh_rate = 15

abbrev pub max_display_clock_h : ℕ
max_display_clock_h = 16

abbrev pub dvfs_mode : ℕ
dvfs_mode = 17

abbrev pub dvfs_offset : ℕ
dvfs_offset = 18

abbrev pub live_cpu_uv : ℕ
live_cpu_uv = 19

abbrev pub enable_experimental_settings : ℕ
enable_experimental_settings = 20

abbrev pub gpu_scheduling : ℕ
gpu_scheduling = 21

abbrev pub gpu_scheduling_method : ℕ
gpu_scheduling_method = 22

abbrev pub ram_volt_display_mode : ℕ
ram_volt_display_mode = 23

abbrev pub cpu_governor_minimum_freq : ℕ
cpu_governor_minimum_freq = 24

abbrev pub display_voltage : ℕ
display_voltage = 25

abbrev pub memory_frequency_measurement_mode : ℕ
memory_frequency_measurement_mode = 26

abbrev pub ram_display_unit : ℕ
ram_display_unit = 27

abbrev pub is_first_load : ℕ
is_first_load = 28

abbrev pub aula_display_color_preset : ℕ
aula_display_color_preset = 29

abbrev pub mariko_middle_freqs : ℕ
mariko_middle_freqs = 30

abbrev pub erista_cpu_uv : ℕ
erista_cpu_uv = 61

abbrev pub mariko_cpu_uv_low : ℕ
mariko_cpu_uv_low = 65

abbrev pub mariko_cpu_uv_high : ℕ
mariko_cpu_uv_high = 66

abbrev pub table_conf : ℕ
table_conf = 67

abbrev pub mariko_gpu_uv : ℕ
mariko_gpu_uv = 76

abbrev pub g_volt_e_76800 : ℕ
g_volt_e_76800 = 105

abbrev pub enum_max : ℕ
enum_max = 135
