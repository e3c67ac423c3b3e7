-- ===== src/Loader/Soc.antt =====
-- The patch of the code that limits the voltage of the SoC on Mariko: `SocVoltAsm` and `GetSocProcessId` of
-- pcv/pcv_mariko.cpp. `GetSocSpeedo` reads a fuse through the kernel: its result and the value are
-- arguments.
pub mod Volt
use rcu.Base.{
  ℕ, ◌+◌, Bool, true, false, not, ◌||◌, Option, none, some, ◌>>=◌, ltb, leb, ◌==◌, if◌then◌else◌,
}
use rcu.Loader.Scan.{Memory, patch_offset, Result, success, invalid_soc_volt_pattern, succeeded}
use rcu.Loader.Custom.{CustomizeTable}
use rcu.Loader.Asm.{
  asm_compare_no_rd, asm_get_rd, asm_set_rd, asm_set_imm16, asm_subs_set_rn, asm_subs_set_imm12,
  asm_compare_no_regs, asm_get_mull_rn, asm_get_mull_rm, asm_subs_compare_no_reg,
  asm_compare_br_con_no_imm19, nop_ins, scan_assembly,
}

abbrev pub soc_volt_compare_speedo_asm : ℕ
soc_volt_compare_speedo_asm = 0x7118FAFF

abbrev pub soc_volt_write_process_id_asm : ℕ
soc_volt_write_process_id_asm = 0x2A1F03F4

abbrev pub soc_volt_write_voltage_asm : ℕ
soc_volt_write_voltage_asm = 0x52808358

abbrev pub soc_volt_select_register_asm : ℕ
soc_volt_select_register_asm = 0x1A9A3118

abbrev pub soc_volt_multiply_volts_asm : ℕ
soc_volt_multiply_volts_asm = 0x1B1A7F0B

abbrev pub soc_volt_validate_limit_asm : ℕ
soc_volt_validate_limit_asm = 0x6B0A017F

abbrev pub soc_volt_branch_to_abort_asm : ℕ
soc_volt_branch_to_abort_asm = 0x540020AC

-- `SocVoltPatternFn`.
abbrev pub soc_volt_pattern_fn : ℕ → Memory → Bool
soc_volt_pattern_fn ptr m = asm_compare_no_rd (m ptr) soc_volt_compare_speedo_asm

-- `GetSocProcessId`.
unfoldable pub get_soc_process_id : ℕ → ℕ
get_soc_process_id soc_speedo =
    if leb soc_speedo 1597 then 0 else if leb soc_speedo 1708 then 1 else 2

-- The instructions that `SocVoltAsm` writes.
pub record Sites : Type 0 where
  pub write_process_id : ℕ
  pub write_voltage : ℕ
  pub branch_to_abort : ℕ

abbrev pub voltage_scan_limit : ℕ
voltage_scan_limit = 10

-- `R_UNLESS`.
abbrev pub unless : {A : Type 0} → Bool → Option A → Option A
unless b o = if b then o else none

-- The search for them, from each instruction on; `none` is `ResultInvalidSocVoltPattern`.
abbrev pub sites_at : ℕ → ℕ → ℕ → Memory → Option Sites
sites_at id volt validation m =
    unless (asm_compare_br_con_no_imm19 (m (validation + 1)) soc_volt_branch_to_abort_asm) (
      some
        (record { write_process_id = id; write_voltage = volt; branch_to_abort = validation + 1 }))

abbrev pub after_multiplier : ℕ → ℕ → ℕ → ℕ → Memory → Option Sites
after_multiplier id volt sel mul m =
    unless
      (asm_get_mull_rn (m mul) == asm_get_rd (m sel)
        || asm_get_mull_rm (m mul) == asm_get_rd (m sel))
      (scan_assembly voltage_scan_limit mul
          (asm_subs_set_rn soc_volt_validate_limit_asm (asm_get_rd (m mul))) asm_subs_compare_no_reg
          m
        >>= λ validation. sites_at id volt validation m)

abbrev pub after_select : ℕ → ℕ → ℕ → Memory → Option Sites
after_select id volt sel m =
    scan_assembly 200 sel soc_volt_multiply_volts_asm asm_compare_no_regs m >>= λ mul.
    after_multiplier id volt sel mul m

abbrev pub after_voltage : ℕ → ℕ → Memory → Option Sites
after_voltage id volt m =
    scan_assembly 24 volt soc_volt_select_register_asm asm_compare_no_regs m >>= λ sel.
    after_select id volt sel m

abbrev pub after_id : ℕ → Memory → Option Sites
after_id id m =
    scan_assembly voltage_scan_limit id soc_volt_write_voltage_asm asm_compare_no_rd m >>= λ volt.
    after_voltage id volt m

unfoldable pub find_sites : ℕ → Memory → Option Sites
find_sites compare_speedos m =
    scan_assembly voltage_scan_limit compare_speedos soc_volt_write_process_id_asm asm_compare_no_rd
      m
    >>= λ id. after_id id m

-- The writes, where the fuse could be read; the registers are those of the memory before any write.
abbrev pub patch_sites : ℕ → ℕ → Sites → Memory → Memory → Memory
patch_sites vmax process_id s old m = patch_offset s.branch_to_abort nop_ins (
    patch_offset s.write_voltage
      (asm_set_rd (asm_set_imm16 soc_volt_write_voltage_asm vmax)
        (asm_get_rd (old s.write_voltage)))
      (patch_offset s.write_process_id
        (asm_set_rd (asm_set_imm16 soc_volt_write_voltage_asm process_id)
          (asm_get_rd (old s.write_process_id)))
        m))

-- `SocVoltAsm` from where the search is done.
unfoldable pub soc_volt_asm_at :
    CustomizeTable → Result × ℕ → ℕ → Memory → Option Sites → Result × Memory
soc_volt_asm_at c speedo compare_speedos m none = (invalid_soc_volt_pattern, m)
soc_volt_asm_at c (read, soc_speedo) compare_speedos m (some s) =
    let tuned = patch_offset compare_speedos (asm_subs_set_imm12 (m compare_speedos) 2200) m in
    if c.mariko_soc_vmax == 0 || leb c.mariko_soc_vmax 1000
    then (success, m)
    else if succeeded read
    then (success, patch_sites c.mariko_soc_vmax (get_soc_process_id soc_speedo) s m tuned)
    else (read, tuned)

-- `SocVoltAsm`.
unfoldable pub soc_volt_asm : CustomizeTable → Result × ℕ → ℕ → Memory → Result × Memory
soc_volt_asm c speedo compare_speedos m =
    soc_volt_asm_at c speedo compare_speedos m (find_sites compare_speedos m)
