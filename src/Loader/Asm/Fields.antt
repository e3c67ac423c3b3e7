-- ===== src/Loader/Asm/Fields.antt =====
-- Writing a field of an instruction leaves its other fields.
use rcu.Base.{ℕ, ◌/◌, ◌%◌, ◌^◌, ◌≡◌, arith}
use rcu.Loader.Asm.{asm_get_rd, asm_set_rd, asm_set_imm16, asm_get_imm16}

-- The register.
pub set_rd_fields :
    (ins rd : ℕ)
    → (asm_get_rd (asm_set_rd ins rd) ≡ rd % 2 ^ 5)
      × (asm_set_rd ins rd / 2 ^ 5 ≡ ins / 2 ^ 5)
      × (asm_get_imm16 (asm_set_rd ins rd) ≡ asm_get_imm16 ins)
unfolding asm_get_rd asm_set_rd asm_get_imm16
set_rd_fields ins rd = (omega arith, omega arith, omega arith)

-- The immediate number.
pub set_imm16_fields :
    (ins imm : ℕ)
    → (asm_get_imm16 (asm_set_imm16 ins imm) ≡ imm % 2 ^ 16)
      × (asm_get_rd (asm_set_imm16 ins imm) ≡ asm_get_rd ins)
      × (asm_set_imm16 ins imm / 2 ^ 21 ≡ ins / 2 ^ 21)
unfolding asm_get_rd asm_set_imm16 asm_get_imm16
set_imm16_fields ins imm = (omega arith, omega arith, omega arith)
