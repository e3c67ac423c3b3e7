-- ===== src/Kip/Key.antt =====
-- The enumerators of `HocClkConfigValue` for the kip settings, with their values; of the GPU voltages
-- the first of each SoC, whose others follow it (Source/ryazha-clk/common/include/hocclk/config.h).
use rcu.Base.{ℕ}
pub use rcu.Config.Key.{
  erista_cpu_uv, g_volt_e_76800, mariko_cpu_uv_high, mariko_cpu_uv_low, mariko_gpu_uv, table_conf,
}

abbrev pub cust_rev : ℕ
cust_rev = 31

abbrev pub kip_version : ℕ
kip_version = 32

abbrev pub hp_mode : ℕ
hp_mode = 33

abbrev pub common_emc_mem_volt : ℕ
common_emc_mem_volt = 34

abbrev pub erista_emc_max_clock : ℕ
erista_emc_max_clock = 35

abbrev pub step_mode : ℕ
step_mode = 36

abbrev pub mariko_emc_max_clock : ℕ
mariko_emc_max_clock = 37

abbrev pub mariko_emc_vddq_volt : ℕ
mariko_emc_vddq_volt = 38

abbrev pub emc_dvb_shift : ℕ
emc_dvb_shift = 39

abbrev pub mariko_soc_vmax : ℕ
mariko_soc_vmax = 40

abbrev pub t1_trcd : ℕ
t1_trcd = 41

abbrev pub t2_trp : ℕ
t2_trp = 42

abbrev pub t3_tras : ℕ
t3_tras = 43

abbrev pub t4_trrd : ℕ
t4_trrd = 44

abbrev pub t5_trfc : ℕ
t5_trfc = 45

abbrev pub t6_trtw : ℕ
t6_trtw = 46

abbrev pub t7_twtr : ℕ
t7_twtr = 47

abbrev pub t8_trefi : ℕ
t8_trefi = 48

abbrev pub timing_emc_tbreak : ℕ
timing_emc_tbreak = 49

abbrev pub low_t6_trtw : ℕ
low_t6_trtw = 50

abbrev pub low_t7_twtr : ℕ
low_t7_twtr = 51

abbrev pub t2_trp_cap : ℕ
t2_trp_cap = 52

abbrev pub read_latency_1333 : ℕ
read_latency_1333 = 53

abbrev pub read_latency_1600 : ℕ
read_latency_1600 = 54

abbrev pub read_latency_1866 : ℕ
read_latency_1866 = 55

abbrev pub read_latency_2133 : ℕ
read_latency_2133 = 56

abbrev pub write_latency_1333 : ℕ
write_latency_1333 = 57

abbrev pub write_latency_1600 : ℕ
write_latency_1600 = 58

abbrev pub write_latency_1866 : ℕ
write_latency_1866 = 59

abbrev pub write_latency_2133 : ℕ
write_latency_2133 = 60

abbrev pub erista_cpu_vmin : ℕ
erista_cpu_vmin = 62

abbrev pub erista_cpu_max_volt : ℕ
erista_cpu_max_volt = 63

abbrev pub erista_cpu_unlock : ℕ
erista_cpu_unlock = 64

abbrev pub mariko_cpu_low_vmin : ℕ
mariko_cpu_low_vmin = 68

abbrev pub mariko_cpu_high_vmin : ℕ
mariko_cpu_high_vmin = 69

abbrev pub mariko_cpu_max_volt : ℕ
mariko_cpu_max_volt = 70

abbrev pub mariko_cpu_max_clock : ℕ
mariko_cpu_max_clock = 71

abbrev pub erista_cpu_boost_clock : ℕ
erista_cpu_boost_clock = 72

abbrev pub mariko_cpu_boost_clock : ℕ
mariko_cpu_boost_clock = 73

abbrev pub erista_gpu_uv : ℕ
erista_gpu_uv = 74

abbrev pub erista_gpu_vmin : ℕ
erista_gpu_vmin = 75

abbrev pub mariko_gpu_vmin : ℕ
mariko_gpu_vmin = 77

abbrev pub mariko_gpu_boot_volt : ℕ
mariko_gpu_boot_volt = 78

abbrev pub mariko_gpu_vmax : ℕ
mariko_gpu_vmax = 79

abbrev pub common_gpu_volt_offset : ℕ
common_gpu_volt_offset = 80

abbrev pub g_volt_76800 : ℕ
g_volt_76800 = 81

abbrev pub t6_trtw_fine_tune : ℕ
t6_trtw_fine_tune = 132

abbrev pub t7_twtr_fine_tune : ℕ
t7_twtr_fine_tune = 133

abbrev pub kip_crc32 : ℕ
kip_crc32 = 134
