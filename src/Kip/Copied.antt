-- ===== src/Kip/Copied.antt =====
-- Which field of the kip's table belongs to which setting: in the order in which `SetKipData` copies
-- the settings into the table, and in the order in which `GetKipData` copies the table into the
-- settings (Source/ryazha-clk/sysmodule/src/file/kip.cpp).
use rcu.Base.{ℕ, zero, suc, ◌+◌, List, [], ◌∷◌, ◌++◌}
use rcu.Kip.Key
use rcu.Kip.Field

-- A loop over an array: fields in a row, and settings in a row.
abbrev pub array : ℕ → ℕ → ℕ → List (ℕ × ℕ)
array w k zero = []
array w k (suc n) = (w, k) ∷ array (w + 1) (k + 1) n

-- `for (int i = 0; i < 24; i++)` and `for (int i = 0; i < 27; i++)`, the same in both functions.
abbrev pub gpu_volts : List (ℕ × ℕ)
gpu_volts =
    array Field.mariko_gpu_volt_array Key.g_volt_76800 24
    ++ array Field.erista_gpu_volt_array Key.g_volt_e_76800 27

-- The fields that `SetKipData` writes.
abbrev pub written : List (ℕ × ℕ)
written =
    (Field.hp_mode, Key.hp_mode)
    ∷ (Field.common_emc_mem_volt, Key.common_emc_mem_volt)
    ∷ (Field.erista_emc_max_clock, Key.erista_emc_max_clock)
    ∷ (Field.mariko_emc_max_clock, Key.mariko_emc_max_clock)
    ∷ (Field.mariko_emc_vddq_volt, Key.mariko_emc_vddq_volt)
    ∷ (Field.emc_dvb_shift, Key.emc_dvb_shift)
    ∷ (Field.mariko_soc_vmax, Key.mariko_soc_vmax)
    ∷ (Field.t1_trcd, Key.t1_trcd)
    ∷ (Field.t2_trp, Key.t2_trp)
    ∷ (Field.t3_tras, Key.t3_tras)
    ∷ (Field.t4_trrd, Key.t4_trrd)
    ∷ (Field.t5_trfc, Key.t5_trfc)
    ∷ (Field.t6_trtw, Key.t6_trtw)
    ∷ (Field.t7_twtr, Key.t7_twtr)
    ∷ (Field.t8_trefi, Key.t8_trefi)
    ∷ (Field.step_mode, Key.step_mode)
    ∷ (Field.timing_emc_tbreak, Key.timing_emc_tbreak)
    ∷ (Field.low_t6_trtw, Key.low_t6_trtw)
    ∷ (Field.low_t7_twtr, Key.low_t7_twtr)
    ∷ (Field.t2_trp_cap, Key.t2_trp_cap)
    ∷ (Field.read_latency_1333, Key.read_latency_1333)
    ∷ (Field.read_latency_1600, Key.read_latency_1600)
    ∷ (Field.read_latency_1866, Key.read_latency_1866)
    ∷ (Field.read_latency_2133, Key.read_latency_2133)
    ∷ (Field.write_latency_1333, Key.write_latency_1333)
    ∷ (Field.write_latency_1600, Key.write_latency_1600)
    ∷ (Field.write_latency_1866, Key.write_latency_1866)
    ∷ (Field.write_latency_2133, Key.write_latency_2133)
    ∷ (Field.erista_cpu_uv, Key.erista_cpu_uv)
    ∷ (Field.erista_cpu_vmin, Key.erista_cpu_vmin)
    ∷ (Field.erista_cpu_max_volt, Key.erista_cpu_max_volt)
    ∷ (Field.erista_cpu_unlock, Key.erista_cpu_unlock)
    ∷ (Field.mariko_cpu_uv_low, Key.mariko_cpu_uv_low)
    ∷ (Field.mariko_cpu_uv_high, Key.mariko_cpu_uv_high)
    ∷ (Field.table_conf, Key.table_conf)
    ∷ (Field.mariko_cpu_low_vmin, Key.mariko_cpu_low_vmin)
    ∷ (Field.mariko_cpu_high_vmin, Key.mariko_cpu_high_vmin)
    ∷ (Field.mariko_cpu_max_volt, Key.mariko_cpu_max_volt)
    ∷ (Field.mariko_cpu_max_clock, Key.mariko_cpu_max_clock)
    ∷ (Field.erista_cpu_boost_clock, Key.erista_cpu_boost_clock)
    ∷ (Field.mariko_cpu_boost_clock, Key.mariko_cpu_boost_clock)
    ∷ (Field.erista_gpu_uv, Key.erista_gpu_uv)
    ∷ (Field.erista_gpu_vmin, Key.erista_gpu_vmin)
    ∷ (Field.mariko_gpu_uv, Key.mariko_gpu_uv)
    ∷ (Field.mariko_gpu_vmin, Key.mariko_gpu_vmin)
    ∷ (Field.mariko_gpu_boot_volt, Key.mariko_gpu_boot_volt)
    ∷ (Field.mariko_gpu_vmax, Key.mariko_gpu_vmax)
    ∷ (Field.common_gpu_volt_offset, Key.common_gpu_volt_offset)
    ∷ (gpu_volts
        ++ ((Field.t6_trtw_fine_tune, Key.t6_trtw_fine_tune)
            ∷ (Field.t7_twtr_fine_tune, Key.t7_twtr_fine_tune)
            ∷ []))

-- The fields that `GetKipData` reads.
abbrev pub read : List (ℕ × ℕ)
read =
    (Field.cust_rev, Key.cust_rev)
    ∷ (Field.kip_version, Key.kip_version)
    ∷ (Field.hp_mode, Key.hp_mode)
    ∷ (Field.common_emc_mem_volt, Key.common_emc_mem_volt)
    ∷ (Field.erista_emc_max_clock, Key.erista_emc_max_clock)
    ∷ (Field.mariko_emc_max_clock, Key.mariko_emc_max_clock)
    ∷ (Field.mariko_emc_vddq_volt, Key.mariko_emc_vddq_volt)
    ∷ (Field.emc_dvb_shift, Key.emc_dvb_shift)
    ∷ (Field.mariko_soc_vmax, Key.mariko_soc_vmax)
    ∷ (Field.t1_trcd, Key.t1_trcd)
    ∷ (Field.t2_trp, Key.t2_trp)
    ∷ (Field.t3_tras, Key.t3_tras)
    ∷ (Field.t4_trrd, Key.t4_trrd)
    ∷ (Field.t5_trfc, Key.t5_trfc)
    ∷ (Field.t6_trtw, Key.t6_trtw)
    ∷ (Field.t7_twtr, Key.t7_twtr)
    ∷ (Field.t8_trefi, Key.t8_trefi)
    ∷ (Field.step_mode, Key.step_mode)
    ∷ (Field.timing_emc_tbreak, Key.timing_emc_tbreak)
    ∷ (Field.low_t6_trtw, Key.low_t6_trtw)
    ∷ (Field.low_t7_twtr, Key.low_t7_twtr)
    ∷ (Field.t2_trp_cap, Key.t2_trp_cap)
    ∷ (Field.read_latency_1333, Key.read_latency_1333)
    ∷ (Field.read_latency_1600, Key.read_latency_1600)
    ∷ (Field.read_latency_1866, Key.read_latency_1866)
    ∷ (Field.read_latency_2133, Key.read_latency_2133)
    ∷ (Field.write_latency_1333, Key.write_latency_1333)
    ∷ (Field.write_latency_1600, Key.write_latency_1600)
    ∷ (Field.write_latency_1866, Key.write_latency_1866)
    ∷ (Field.write_latency_2133, Key.write_latency_2133)
    ∷ (Field.erista_cpu_uv, Key.erista_cpu_uv)
    ∷ (Field.erista_cpu_vmin, Key.erista_cpu_vmin)
    ∷ (Field.erista_cpu_max_volt, Key.erista_cpu_max_volt)
    ∷ (Field.erista_cpu_unlock, Key.erista_cpu_unlock)
    ∷ (Field.mariko_cpu_uv_low, Key.mariko_cpu_uv_low)
    ∷ (Field.mariko_cpu_uv_high, Key.mariko_cpu_uv_high)
    ∷ (Field.table_conf, Key.table_conf)
    ∷ (Field.mariko_cpu_low_vmin, Key.mariko_cpu_low_vmin)
    ∷ (Field.mariko_cpu_high_vmin, Key.mariko_cpu_high_vmin)
    ∷ (Field.mariko_cpu_max_volt, Key.mariko_cpu_max_volt)
    ∷ (Field.mariko_cpu_max_clock, Key.mariko_cpu_max_clock)
    ∷ (Field.erista_cpu_boost_clock, Key.erista_cpu_boost_clock)
    ∷ (Field.mariko_cpu_boost_clock, Key.mariko_cpu_boost_clock)
    ∷ (Field.erista_gpu_uv, Key.erista_gpu_uv)
    ∷ (Field.erista_gpu_vmin, Key.erista_gpu_vmin)
    ∷ (Field.mariko_gpu_uv, Key.mariko_gpu_uv)
    ∷ (Field.mariko_gpu_vmin, Key.mariko_gpu_vmin)
    ∷ (Field.mariko_gpu_boot_volt, Key.mariko_gpu_boot_volt)
    ∷ (Field.mariko_gpu_vmax, Key.mariko_gpu_vmax)
    ∷ (Field.common_gpu_volt_offset, Key.common_gpu_volt_offset)
    ∷ (gpu_volts
        ++ ((Field.t7_twtr_fine_tune, Key.t7_twtr_fine_tune)
            ∷ (Field.t6_trtw_fine_tune, Key.t6_trtw_fine_tune)
            ∷ []))
