-- ===== src/Loader/Asm.antt =====
-- The fields of the instructions that are patched (pcv/pcv_asm.hpp), on 32-bit words: masks and shifts
-- by quotients and remainders.
pub mod Fields
use rcu.Base.{
  ℕ, zero, suc, ◌+◌, ◌-◌, ◌*◌, ◌/◌, ◌%◌, ◌^◌, Bool, ◌==◌, ◌&&◌, Option, none, some, if◌then◌else◌,
}

-- `asm_compare_no_rd`: the words agree above the lowest five bits.
unfoldable pub asm_compare_no_rd : ℕ → ℕ → Bool
asm_compare_no_rd ins1 ins2 = ins1 / 2 ^ 5 == ins2 / 2 ^ 5

-- `asm_get_rd` and `asm_set_rd`.
unfoldable pub asm_get_rd : ℕ → ℕ
asm_get_rd ins = ins % 2 ^ 5

unfoldable pub asm_set_rd : ℕ → ℕ → ℕ
asm_set_rd ins rd = ins / 2 ^ 5 * 2 ^ 5 + rd % 2 ^ 5

-- `asm_set_imm16` and `AsmGetImm16`: 16 bits from bit 5 on.
unfoldable pub asm_set_imm16 : ℕ → ℕ → ℕ
asm_set_imm16 ins imm = ins / 2 ^ 21 * 2 ^ 21 + imm % 2 ^ 16 * 2 ^ 5 + ins % 2 ^ 5

unfoldable pub asm_get_imm16 : ℕ → ℕ
asm_get_imm16 ins = ins / 2 ^ 5 % 2 ^ 16

-- `AsmSubsSetRn` and `AsmSubsSetImm12`.
unfoldable pub asm_subs_set_rn : ℕ → ℕ → ℕ
asm_subs_set_rn ins rn = ins / 2 ^ 10 * 2 ^ 10 + rn % 2 ^ 5 * 2 ^ 5 + ins % 2 ^ 5

unfoldable pub asm_subs_set_imm12 : ℕ → ℕ → ℕ
asm_subs_set_imm12 ins imm = ins / 2 ^ 22 * 2 ^ 22 + imm % 2 ^ 12 * 2 ^ 10 + ins % 2 ^ 10

-- `AsmCompareCselNoReg` and `AsmCompareMullNoReg`: all but bits 0 to 9 and 16 to 20.
unfoldable pub asm_compare_no_regs : ℕ → ℕ → Bool
asm_compare_no_regs ins1 ins2 =
    ins1 / 2 ^ 21 == ins2 / 2 ^ 21 && ins1 / 2 ^ 10 % 2 ^ 6 == ins2 / 2 ^ 10 % 2 ^ 6

-- `AsmGetMullRn` and `AsmGetMullRm`.
unfoldable pub asm_get_mull_rn : ℕ → ℕ
asm_get_mull_rn ins = ins / 2 ^ 5 % 2 ^ 5

unfoldable pub asm_get_mull_rm : ℕ → ℕ
asm_get_mull_rm ins = ins / 2 ^ 16 % 2 ^ 5

-- `AsmSubsCompareNoReg` and `AsmCompareBrConNoImm19`.
unfoldable pub asm_subs_compare_no_reg : ℕ → ℕ → Bool
asm_subs_compare_no_reg ins1 ins2 = ins1 / 2 ^ 10 == ins2 / 2 ^ 10

unfoldable pub asm_compare_br_con_no_imm19 : ℕ → ℕ → Bool
asm_compare_br_con_no_imm19 ins1 ins2 =
    ins1 / 2 ^ 24 == ins2 / 2 ^ 24 && ins1 % 2 ^ 5 == ins2 % 2 ^ 5

abbrev pub nop_ins : ℕ
nop_ins = 0x1f2003d5

-- `ScanAssembly`; `none` is `nullptr`.
unfoldable pub scan_assembly : ℕ → ℕ → ℕ → (ℕ → ℕ → Bool) → (ℕ → ℕ) → Option ℕ
scan_assembly zero ptr pattern comp m = none
scan_assembly (suc limit) ptr pattern comp m =
    let later = scan_assembly limit (ptr + 1) pattern comp m in
    if comp pattern (m ptr) then some ptr else later
