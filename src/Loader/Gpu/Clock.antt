-- ===== src/Loader/Gpu/Clock.antt =====
-- The clock that the patched instructions load.
use rcu.Base.{
  true, false, ℕ, ◌+◌, ◌*◌, ◌/◌, ◌%◌, ◌^◌, ◌<◌, ◌≡◌, ◌≢◌, ◌⊎◌, inl, inr, refl, ap, ◌∙◌, not, ◌&&◌,
  ◌||◌, arith, ◌/=◌, Bool-cases,
}
use rcu.Loader.Scan.{Memory, patch_offset, success, invalid_gpu_freq_max_pattern}
use rcu.Loader.Asm.{asm_compare_no_rd, asm_get_rd, asm_set_rd, asm_set_imm16, asm_get_imm16}
use rcu.Loader.Gpu.{gpu_asm_mov, gpu_asm_movk, gpu_freq_max_asm}

-- An instruction with a register and an immediate number put into it.
patched_fields :
    (pattern imm rd : ℕ)
    → (asm_get_rd (asm_set_rd (asm_set_imm16 pattern imm) rd) ≡ rd % 2 ^ 5)
      × (asm_get_imm16 (asm_set_rd (asm_set_imm16 pattern imm) rd) ≡ imm % 2 ^ 16)
      × (asm_set_rd (asm_set_imm16 pattern imm) rd / 2 ^ 21 ≡ pattern / 2 ^ 21)
unfolding asm_get_rd asm_set_rd asm_set_imm16 asm_get_imm16
patched_fields pattern imm rd = (omega arith, omega arith, omega arith)

-- What two instructions that set a register, and then its upper half, leave in it.
abbrev pub loaded : ℕ → Memory → ℕ
loaded ptr m = asm_get_imm16 (m ptr) + asm_get_imm16 (m (ptr + 1)) * 2 ^ 16

-- The instructions at a pointer are a MOV (MOVZ), and a MOVK of the upper half, of one 32-bit register.
abbrev pub MovesTo : ℕ → ℕ → Memory → Type 0
MovesTo rd ptr m =
    (asm_get_rd (m ptr) ≡ rd)
    × (asm_get_rd (m (ptr + 1)) ≡ rd)
    × (m ptr / 2 ^ 21 ≡ 0b01010010100)
    × (m (ptr + 1) / 2 ^ 21 ≡ 0b01110010101)

two_halves : (k : ℕ) → k < 2 ^ 32 → k % 2 ^ 16 + k / 2 ^ 16 % 2 ^ 16 * 2 ^ 16 ≡ k
two_halves k h = omega arith

get_rd_small : (ins : ℕ) → asm_get_rd ins % 2 ^ 5 ≡ asm_get_rd ins
unfolding asm_get_rd
get_rd_small ins = omega arith

-- The two words after both writes.
module _ (ptr a b : ℕ) (m : Memory) where
  first_word : patch_offset (ptr + 1) b (patch_offset ptr a m) ptr ≡ a
  first_word = ground arith

  second_word : patch_offset (ptr + 1) b (patch_offset ptr a m) (ptr + 1) ≡ b
  second_word = ground arith

  other_word :
      (i : ℕ) → i ≢ ptr → i ≢ ptr + 1 → patch_offset (ptr + 1) b (patch_offset ptr a m) i ≡ m i
  other_word i p q = ground arith

-- The instructions at a pointer are the MOV and the MOVK that are looked for, up to their registers,
-- which are the same.
abbrev pub IsPair : ℕ → Memory → Type 0
IsPair ptr m =
    (m ptr / 2 ^ 5 ≡ gpu_asm_mov / 2 ^ 5)
    × (m (ptr + 1) / 2 ^ 5 ≡ gpu_asm_movk / 2 ^ 5)
    × (asm_get_rd (m ptr) ≡ asm_get_rd (m (ptr + 1)))

not-IsPair :
    (ptr : ℕ) (m : Memory)
    → not (asm_compare_no_rd (m ptr) gpu_asm_mov && asm_compare_no_rd (m (ptr + 1)) gpu_asm_movk)
        || asm_get_rd (m ptr) /= asm_get_rd (m (ptr + 1))
      ≡ true
    → ¬ IsPair ptr m
unfolding asm_compare_no_rd
not-IsPair ptr m h (a, b, c) = ground (arith, h, a, b, c)

same_rd-IsPair :
    (ptr : ℕ) (m : Memory)
    → not (asm_compare_no_rd (m ptr) gpu_asm_mov && asm_compare_no_rd (m (ptr + 1)) gpu_asm_movk)
        || asm_get_rd (m ptr) /= asm_get_rd (m (ptr + 1))
      ≡ false
    → IsPair ptr m
unfolding asm_compare_no_rd
same_rd-IsPair ptr m h = (ground (arith, h), ground (arith, h), ground (arith, h))

-- `GpuFreqMaxAsm` fails and changes nothing just where the two instructions at the pointer are not the MOV
-- and the MOVK that it looks for, or have two different registers. Else it succeeds, and the two
-- instructions then load just the clock, which has 32 bits, into the register that both had before, as
-- a MOV and a MOVK; another word is not changed.
pub gpu_freq_max_asm-loads :
    (clock ptr i : ℕ) (m : Memory)
    → clock < 2 ^ 32
    → i ≢ ptr
    → i ≢ ptr + 1
    → ((¬ IsPair ptr m) × (gpu_freq_max_asm clock ptr m ≡ (invalid_gpu_freq_max_pattern, m)))
      ⊎ (IsPair ptr m
          × ((gpu_freq_max_asm clock ptr m).0 ≡ success)
          × (loaded ptr (gpu_freq_max_asm clock ptr m).1 ≡ clock)
          × MovesTo (asm_get_rd (m ptr)) ptr (gpu_freq_max_asm clock ptr m).1
          × ((gpu_freq_max_asm clock ptr m).1 i ≡ m i))
unfolding gpu_freq_max_asm
gpu_freq_max_asm-loads clock ptr i m h p q =
    elim (Bool-cases (
      not (asm_compare_no_rd (m ptr) gpu_asm_mov && asm_compare_no_rd (m (ptr + 1)) gpu_asm_movk)
      || asm_get_rd (m ptr) /= asm_get_rd (m (ptr + 1)))) [
        | inl bad ↦ inl (not-IsPair ptr m bad, rw bad refl)
        | inr fine ↦
            let rd : ℕ = asm_get_rd (m ptr) in
            let a : ℕ = asm_set_rd (asm_set_imm16 gpu_asm_mov clock) rd in
            let b : ℕ = asm_set_rd (asm_set_imm16 gpu_asm_movk (clock / 2 ^ 16)) rd in
            let (a_rd, a_imm, a_op) = patched_fields gpu_asm_mov clock rd in
            let (b_rd, b_imm, b_op) = patched_fields gpu_asm_movk (clock / 2 ^ 16) rd in
            inr (
              rw fine (
                same_rd-IsPair ptr m fine,
                refl,
                rw (first_word ptr a b m, second_word ptr a b m, a_imm, b_imm) (two_halves clock h),
                (
                  ap asm_get_rd (first_word ptr a b m) ∙ a_rd ∙ get_rd_small (m ptr),
                  ap asm_get_rd (second_word ptr a b m) ∙ b_rd ∙ get_rd_small (m ptr),
                  ap (λ (n : ℕ). n / 2 ^ 21) (first_word ptr a b m) ∙ a_op,
                  ap (λ (n : ℕ). n / 2 ^ 21) (second_word ptr a b m) ∙ b_op,
                ),
                other_word ptr a b m i p q,
              ))
      ]
