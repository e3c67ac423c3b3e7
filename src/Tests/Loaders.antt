-- ===== src/Tests/Loaders.antt =====
-- The patches of the loader.
use rcu.Base.{
  ℕ, ◌+◌, ◌-◌, ◌*◌, ◌%◌, ◌≤◌, ◌<◌, ◌≡◌, ◌⊎◌, inr, refl, Option, none, some, true, List, [], ◌∷◌,
  arith, ◌==◌, leb, if◌then◌else◌, In, All, map, drop, negsuc,
}
use rcu.Loader.Scan.{
  Memory, success, i2c_failed, patch_offset, invalid_regulator_entry, invalid_soc_volt_limit,
  invalid_gpu_freq_max_pattern,
}
use rcu.Loader.Custom.{CvbEntry, CustomizeTable, get_dvfs_table_last_entry, last_freq}
use rcu.Loader.Safety.{check, validators, safety_check}
use rcu.Loader.Regulators.{
  is_type_1, is_type_3, soc_volt_limit_array, mem_volt_handler, emc_vddq_volt, soc_volt_limit,
}
use rcu.Loader.Regulators.Range.{emc_vddq_volt-within, soc_volt_limit-raised}
use rcu.Loader.Cpu.{cpu_volt_dfll}
use rcu.Loader.Cpu.Dfll.{cpu_volt_dfll-high}
use rcu.Loader.Asm.{
  asm_get_rd, asm_set_rd, asm_set_imm16, asm_get_imm16, asm_get_mull_rn, asm_get_mull_rm,
  asm_compare_no_rd, asm_compare_no_regs, asm_subs_set_rn, asm_subs_compare_no_reg,
  asm_compare_br_con_no_imm19, scan_assembly, nop_ins,
}
use rcu.Loader.Soc.{Sites, find_sites, get_soc_process_id, soc_volt_asm}
use rcu.Loader.Soc.Volt.{Loads, soc_volt_asm-Loads}
use rcu.Loader.Gpu.{gpu_freq_max_asm}
use rcu.Loader.Gpu.Clock.{loaded, IsPair, MovesTo, gpu_freq_max_asm-loads}
use rcu.Loader.Mtc.{new_freq, step_loop, mtc_generate_freq_tables}
use rcu.Loader.Mtc.Steps.{Made}
use rcu.Loader.Mtc.Order.{IsFinal, mtc_generate_freq_tables-IsFinal, mtc_generate_freq_tables-In}
use rcu.Loader.Dvb.{DvbEntry, emc_dvb_oc_table_brackets, advance, dvb_entries, emc_dvb_table_oc}
use rcu.Loader.Dvb.Voltages.{IsWithin, row_of, emc_dvb_table_oc-row_of}
use rcu.Loader.Dvb.Safe.{mtc_dvb-IsWithin}

abbrev entry : ℕ → CvbEntry
entry f = record { freq = f; dfll = 1 ∷ []; pll = [] }

abbrev pub custom : CustomizeTable
custom = record {
  common_emc_mem_volt = 1175000;
  erista_max_emc_clock = 1862400;
  step_mode = 0;
  mariko_emc_max_clock = 1996800;
  mariko_emc_vddq_volt = 601000;
  emc_dvb_shift = negsuc 1;
  mariko_soc_vmax = 1110;
  erista_cpu_max_volt = 0;
  mariko_cpu_uv_low = 3;
  mariko_cpu_uv_high = 4;
  mariko_cpu_low_vmin = 0;
  mariko_cpu_high_vmin = 0;
  mariko_cpu_max_volt = 1120;
  mariko_cpu_max_clock = 2400000;
  erista_cpu_boost_clock = 1785000;
  mariko_cpu_boost_clock = 1963000;
  erista_gpu_uv = 0;
  mariko_gpu_uv = 0;
  mariko_gpu_vmin = 600;
  mariko_gpu_vmax = 900;
  common_gpu_volt_offset = 20;
  erista_gpu_volt_array = λ i. 0;
  mariko_gpu_volt_array = λ i. if i == 1 then 700 else 0;
  erista_cpu_dvfs_table = entry 1785000 ∷ [];
  mariko_cpu_dvfs_table = entry 1963500 ∷ [];
  mariko_cpu_dvfs_table_slt = entry 1963500 ∷ [];
  erista_gpu_dvfs_table = entry 921600 ∷ [];
  erista_gpu_dvfs_table_slt = entry 921600 ∷ [];
  erista_gpu_dvfs_table_hi_opt = entry 921600 ∷ [];
  mariko_gpu_dvfs_table = entry 1267200 ∷ [];
  mariko_gpu_dvfs_table_slt = entry 1267200 ∷ [];
  mariko_gpu_dvfs_table_hi_opt = entry 1267200 ∷ [];
}

safe : safety_check custom ≡ true
unfolding safety_check validators check get_dvfs_table_last_entry last_freq
safe = refl

-- A memory with a list of words from a place on, and 0 elsewhere.
abbrev placed : List ℕ → ℕ → Memory
placed [] at i = 0
placed (v ∷ vs) at i = if i == at then v else placed vs (at + 1) i

abbrev type_1 : Memory
type_1 = placed (1 ∷ 0 ∷ 0 ∷ 0 ∷ 1 ∷ 0x17 ∷ 12500 ∷ 600000 ∷ []) 12

type_1_patched : mem_volt_handler custom 20 type_1 ≡ (success, patch_offset 20 1175000 type_1)
unfolding mem_volt_handler is_type_1
type_1_patched = refl

abbrev type_3 : Memory
type_3 = placed (2 ∷ 0 ∷ 0 ∷ 0 ∷ 3 ∷ 0 ∷ 5000 ∷ 0 ∷ 250000 ∷ []) 9

type_3_patched :
    emc_vddq_volt custom i2c_failed 20 type_3 ≡ (i2c_failed 71, patch_offset 20 605000 type_3)
unfolding emc_vddq_volt is_type_3
type_3_patched = refl

emc_vddq_volt-within_example :
    (emc_vddq_volt custom i2c_failed 20 type_3 ≡ (invalid_regulator_entry, type_3))
    ⊎ ((v byte : ℕ) × (emc_vddq_volt custom i2c_failed 20 type_3
          ≡ (i2c_failed byte, patch_offset 20 v type_3))
        × (601000 ≤ v)
        × (v < 601000 + 5000)
        × (v ≤ 750000)
        × (v % 5000 ≡ 0)
        × (byte * 5000 + 250000 ≡ v))
emc_vddq_volt-within_example =
    emc_vddq_volt-within custom i2c_failed 20 type_3 safe (λ e. omega (arith, e))

abbrev limits : Memory
limits = placed soc_volt_limit_array 3

limits_raised :
    ((soc_volt_limit custom 20 limits).1 21 ≡ 1075) × ((soc_volt_limit custom 20 limits).1 23 ≡ 0)
unfolding soc_volt_limit
limits_raised = (refl, refl)

soc_volt_limit-raised_example :
    (soc_volt_limit custom 20 limits ≡ (invalid_soc_volt_limit, limits))
    ⊎ (((soc_volt_limit custom 20 limits).0 ≡ success)
        × ((soc_volt_limit custom 20 limits).1 (20 + 1 + 1)
            ≡ (if leb (1075 + 25 * 1) 1110 then 1075 + 25 * 1 else limits (20 + 1 + 1)))
        × ((soc_volt_limit custom 20 limits).1 (20 - 0) ≡ limits (20 - 0)))
soc_volt_limit-raised_example = soc_volt_limit-raised custom 20 1 0 limits safe (omega arith)

abbrev dfll : Memory
dfll = placed (0xFFCF ∷ 0 ∷ 0x12207FF ∷ 0x3FFF7FF ∷ []) 40

abbrev other_low : CustomizeTable
other_low = record custom { mariko_cpu_uv_low = 9 }

cpu_volt_dfll-high_example :
    ((cpu_volt_dfll custom 40 dfll).1 (40 + 1) ≡ (cpu_volt_dfll other_low 40 dfll).1 (40 + 1))
    × ((cpu_volt_dfll custom 40 dfll).1 (40 + 3) ≡ (cpu_volt_dfll other_low 40 dfll).1 (40 + 3))
cpu_volt_dfll-high_example =
    cpu_volt_dfll-high custom other_low 40 dfll refl (omega arith) (omega arith)

-- MOV and MOVK of register 10.
abbrev code : Memory
code = placed (0x5282000a ∷ 0x72A001Ca ∷ []) 40

code_patched :
    ((gpu_freq_max_asm 1267200 40 code).0 ≡ success)
    × (loaded 40 (gpu_freq_max_asm 1267200 40 code).1 ≡ 1267200)
unfolding gpu_freq_max_asm asm_compare_no_rd asm_get_rd asm_set_rd asm_set_imm16 asm_get_imm16
code_patched = (refl, refl)

gpu_freq_max_asm-loads_example :
    ((¬ IsPair 40 code) × (gpu_freq_max_asm 1267200 40 code ≡ (invalid_gpu_freq_max_pattern, code)))
    ⊎ (IsPair 40 code
        × ((gpu_freq_max_asm 1267200 40 code).0 ≡ success)
        × (loaded 40 (gpu_freq_max_asm 1267200 40 code).1 ≡ 1267200)
        × MovesTo (asm_get_rd (code 40)) 40 (gpu_freq_max_asm 1267200 40 code).1
        × ((gpu_freq_max_asm 1267200 40 code).1 42 ≡ code 42))
gpu_freq_max_asm-loads_example =
    gpu_freq_max_asm-loads 1267200 40 42 code (omega arith) (λ e. omega (arith, e))
      (λ e. omega (arith, e))

made :
    mtc_generate_freq_tables custom []
    ≡ some (
        204000 ∷ 1331200 ∷ 1600000 ∷ 1666000 ∷ 1733000 ∷ 1800000 ∷ 1866000 ∷ 1933000 ∷ 1996800 ∷ [])
unfolding mtc_generate_freq_tables step_loop new_freq
made = refl

mtc_generate_freq_tables-IsFinal_example :
    Made (IsFinal 1996800) (mtc_generate_freq_tables custom [])
mtc_generate_freq_tables-IsFinal_example =
    mtc_generate_freq_tables-IsFinal custom [] (omega arith) (omega arith)

mtc_generate_freq_tables-In_example : Made (In 1996800) (mtc_generate_freq_tables custom [])
mtc_generate_freq_tables-In_example =
    mtc_generate_freq_tables-In custom [] (omega arith) (omega arith) (inr (omega arith))

-- The limit is not in the list if it is above 3466 MHz, with steps of 66.667 MHz.
abbrev high : CustomizeTable
high = record custom { mariko_emc_max_clock = 3500000 }

abbrev last_of : Option (List ℕ) → List ℕ
last_of none = []
last_of (some fs) = drop 30 fs

high_lost : last_of (mtc_generate_freq_tables high []) ≡ 3466000 ∷ []
unfolding mtc_generate_freq_tables step_loop new_freq
high_lost = refl

emc_dvb_table_oc-row_of_example :
    emc_dvb_table_oc custom (1600000 ∷ 1996800 ∷ 2133000 ∷ [])
    ≡ map
        (λ f. record { freq = f; volt = (row_of custom f).volt })
        (1600000 ∷ 1996800 ∷ 2133000 ∷ [])
emc_dvb_table_oc-row_of_example =
    emc_dvb_table_oc-row_of custom (1600000 ∷ 1996800 ∷ 2133000 ∷ []) (ground arith) (ground arith)

mtc_dvb-IsWithin_example :
    Made
      (λ fs. All (λ (e : DvbEntry). IsWithin custom e.volt) (emc_dvb_table_oc custom fs))
      (mtc_generate_freq_tables custom [])
mtc_dvb-IsWithin_example = mtc_dvb-IsWithin custom [] (omega arith) (omega arith)

-- With a shift of -2, 1866 MHz get less than 1600 MHz.
shifted_dip :
    map (λ (e : DvbEntry). e.volt.zeroth) (emc_dvb_table_oc custom (1600000 ∷ 1866000 ∷ []))
    ≡ 675 ∷ 650 ∷ []
unfolding emc_dvb_table_oc emc_dvb_oc_table_brackets advance dvb_entries
shifted_dip = refl

abbrev soc_code : Memory
soc_code =
    placed
      (0x7118FAFF ∷ 0x2A1F03F4 ∷ 0x52808358 ∷ 0x1A9A3118 ∷ 0x1B1A7F0B ∷ 0x6B0A017F ∷ 0x540020AC
        ∷ [])
      40

abbrev sites : Sites
sites = record { write_process_id = 41; write_voltage = 42; branch_to_abort = 46 }

soc_found : find_sites 40 soc_code ≡ some sites
unfolding find_sites scan_assembly asm_compare_no_rd asm_compare_no_regs asm_get_mull_rn
    asm_get_mull_rm asm_get_rd asm_subs_set_rn asm_subs_compare_no_reg asm_compare_br_con_no_imm19
soc_found = refl

soc_volt_asm-Loads_example :
    ((soc_volt_asm custom (success, 1650) 40 soc_code).0 ≡ success)
    × Loads 1110 (soc_code 42) ((soc_volt_asm custom (success, 1650) 40 soc_code).1 42)
    × Loads
        (get_soc_process_id 1650)
        (soc_code 41)
        ((soc_volt_asm custom (success, 1650) 40 soc_code).1 41)
    × ((soc_volt_asm custom (success, 1650) 40 soc_code).1 46 ≡ nop_ins)
soc_volt_asm-Loads_example =
    soc_volt_asm-Loads custom 1650 40 soc_code sites soc_found (omega arith) (omega arith)
