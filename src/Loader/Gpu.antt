-- ===== src/Loader/Gpu.antt =====
-- The patches of the GPU of Mariko: `GpuVoltDVFS`, `GpuVoltThermals`, `GpuFreqMaxAsm`, `GpuFreqPllMax`
-- and `GpuFreqPllLimit` of pcv/pcv_mariko.cpp, and `MemFreqPllmLimit` of pcv/pcv.cpp.
pub mod Clock
use rcu.Base.{
  ℕ, zero, suc, ◌+◌, ◌-◌, ◌*◌, ◌/◌, ◌^◌, Bool, true, false, not, ◌&&◌, ◌||◌, Option, none, some,
  List, [], ◌∷◌, ◌==◌, ◌/=◌, if◌then◌else◌, u32,
}
use rcu.Loader.Scan.{
  Memory, patch_offset, success, invalid_gpu_dvfs, invalid_gpu_freq_max_pattern,
  invalid_gpu_pll_entry, invalid_mem_pllm_entry, Patcher,
}
use rcu.Loader.Custom.{CustomizeTable, last_freq, mariko_gpu_table}
use rcu.Loader.Regulators.{matches}
use rcu.Loader.Cpu.{patch_if}
use rcu.Loader.Asm.{asm_compare_no_rd, asm_get_rd, asm_set_rd, asm_set_imm16}

abbrev pub gpu_dvfs_pattern : List ℕ
gpu_dvfs_pattern = 1050 ∷ 1000 ∷ 100 ∷ 1000 ∷ 10 ∷ []

-- `GpuVoltDVFS`.
unfoldable pub gpu_volt_dvfs : CustomizeTable → Patcher
gpu_volt_dvfs c ptr m =
    if matches gpu_dvfs_pattern (ptr + 1) m
    then (success, patch_if ptr c.mariko_gpu_vmin (patch_if (ptr + 1) c.mariko_gpu_vmax m))
    else (invalid_gpu_dvfs, m)

abbrev pub gpu_volt_thermal_pattern : List ℕ
gpu_volt_thermal_pattern =
    800 ∷ 1120 ∷ 0 ∷ 610 ∷ 1120 ∷ 20000 ∷ 610 ∷ 1120 ∷ 30000 ∷ 610 ∷ 1120 ∷ 50000 ∷ 610 ∷ 1120
    ∷ 70000 ∷ 610 ∷ 1120 ∷ 90000 ∷ []

-- `GpuVoltThermals`.
unfoldable pub gpu_volt_thermals : CustomizeTable → Patcher
gpu_volt_thermals c ptr m =
    let vmin = c.mariko_gpu_vmin in
    if matches gpu_volt_thermal_pattern (ptr - 3) m
    then (
      success,
      patch_if (ptr + 12) vmin (
          patch_if (ptr + 9) vmin
            (patch_if (ptr + 6) vmin (patch_if (ptr + 3) vmin (patch_if ptr vmin m)))),
    )
    else (invalid_gpu_dvfs, m)

-- `GpuAsmPattern`: MOV and MOVK, shifted by 16.
abbrev pub gpu_asm_mov : ℕ
gpu_asm_mov = 0x52820000

abbrev pub gpu_asm_movk : ℕ
gpu_asm_movk = 0x72A001C0

-- `GpuMaxClockPatternFn`.
unfoldable pub gpu_max_clock_pattern_fn : ℕ → Memory → Bool
gpu_max_clock_pattern_fn ptr m = asm_compare_no_rd (m ptr) gpu_asm_mov

-- `max_clock` of `GpuFreqMaxAsm`; `none` is a read through `nullptr`.
unfoldable pub gpu_max_clock : CustomizeTable → Option ℕ
gpu_max_clock c = last_freq (mariko_gpu_table c)

-- `GpuFreqMaxAsm` with that clock.
unfoldable pub gpu_freq_max_asm : ℕ → Patcher
gpu_freq_max_asm max_clock ptr m =
    let rd = asm_get_rd (m ptr) in
    if not (asm_compare_no_rd (m ptr) gpu_asm_mov && asm_compare_no_rd (m (ptr + 1)) gpu_asm_movk)
      || rd /= asm_get_rd (m (ptr + 1))
    then (invalid_gpu_freq_max_pattern, m)
    else (
      success,
      patch_offset (ptr + 1) (asm_set_rd (asm_set_imm16 gpu_asm_movk (max_clock / 2 ^ 16)) rd)
          (patch_offset ptr (asm_set_rd (asm_set_imm16 gpu_asm_mov max_clock) rd) m),
    )

abbrev pub zero_from : ℕ → ℕ → Memory → Bool
zero_from zero ptr m = true
zero_from (suc n) ptr m = m ptr == 0 && zero_from n (ptr + 1) m

-- `GpuFreqPllMax`: a `clk_pll_param` has 18 words, all 0 but the first.
unfoldable pub gpu_freq_pll_max : Patcher
gpu_freq_pll_max ptr m =
    if zero_from 17 (ptr + 1) m
    then (success, patch_offset ptr (u32 (m ptr * 2)) m)
    else (invalid_gpu_pll_entry, m)

-- `GpuFreqPllLimit`.
unfoldable pub gpu_freq_pll_limit : Patcher
gpu_freq_pll_limit ptr m =
    let prev_freq = m (ptr - 1) in
    if prev_freq /= 128000 && prev_freq /= 1300000 && prev_freq /= 76800
    then (invalid_gpu_pll_entry, m)
    else (success, patch_offset ptr 3600000 m)

-- `MemFreqPllmLimit`: `freq` is the first word and `vco_max` the seventh.
unfoldable pub mem_freq_pllm_limit : Patcher
mem_freq_pllm_limit ptr m =
    let max_clk = u32 (m ptr * 2) in
    if m ptr == m (ptr + 6)
    then (success, patch_offset (ptr + 6) max_clk (patch_offset ptr max_clk m))
    else (invalid_mem_pllm_entry, m)
