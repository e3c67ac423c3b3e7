-- ===== src/Gm20b.antt =====
-- The clock of the GPU: sysmodule/src/soc/gm20b.cpp. A register is a 32-bit number; what the hardware
-- answers to the polls of `DYNRAMP_DONE_SYNCED` is a function of the number of the poll, and no other
-- register changes by itself. Reads that are thrown away and sleeping are left out.
pub mod Slide
use rcu.Base.{
  ℕ, zero, suc, ◌+◌, ◌*◌, ◌/◌, ◌%◌, ◌^◌, Bool, true, false, ◌||◌, List, [], ◌∷◌, ltb, ◌==◌,
  if◌then◌else◌, u32,
}

-- The registers of the PLL by their offsets, and the writes to them, the newest first.
pub record Pll : Type 0 where
  pub regs : ℕ → ℕ
  pub writes : List (ℕ × ℕ)

abbrev pub cfg2 : ℕ
cfg2 = 0x08

abbrev pub cfg3 : ℕ
cfg3 = 0x0C

abbrev pub coeff : ℕ
coeff = 0x04

abbrev pub ndiv_slowdown : ℕ
ndiv_slowdown = 0x1C

-- The bits of a number from a place on, and the number with others there.
abbrev pub bits : ℕ → ℕ → ℕ → ℕ
bits at width x = x / 2 ^ at % 2 ^ width

abbrev pub put_bits : ℕ → ℕ → ℕ → ℕ → ℕ
put_bits at width v x =
    x / 2 ^ (at + width) * 2 ^ (at + width) + v % 2 ^ width * 2 ^ at + x % 2 ^ at

abbrev pub write : ℕ → ℕ → Pll → Pll
write reg v s = record {
  regs = λ r. if r == reg then v else s.regs r;
  writes = (reg, v) ∷ s.writes;
}

-- `_gpu_mask`, where the mask is `width` bits from `at` on.
abbrev pub gpu_mask : ℕ → ℕ → ℕ → ℕ → Pll → Pll
gpu_mask reg at width v s = write reg (put_bits at width v (s.regs reg)) s

-- `_clk_setup_slide`.
unfoldable pub clk_setup_slide : Pll → Pll
clk_setup_slide s = gpu_mask cfg3 16 8 0x05 (gpu_mask cfg2 24 8 0x04 s)

abbrev pub ramp_timeout_us : ℕ
ramp_timeout_us = 500

-- The loop of `_gpu_pllg_slide`: the polls that are left, from the `n`th on.
unfoldable pub poll : (ℕ → Bool) → ℕ → ℕ → Bool
poll synced zero n = false
poll synced (suc timeout) n =
    let later = poll synced timeout (suc n) in if synced n then true else later

abbrev pub clear_sdm : Bool → Pll → Pll
clear_sdm success s = if success then gpu_mask cfg2 0 8 0 s else s

-- `_gpu_pllg_slide` for a divider that is not the current one, from where the slide is set up.
unfoldable pub slide_from : (ℕ → Bool) → ℕ → ℕ → Pll → Bool × Pll
slide_from synced new_divn old s =
    let slow = gpu_mask ndiv_slowdown 22 1 1 s in
    let new = gpu_mask cfg2 8 15 0 slow in
    let put = write coeff (put_bits 8 8 new_divn old) new in
    let ramp = gpu_mask ndiv_slowdown 23 1 1 put in
    let success = poll synced ramp_timeout_us 0 in
    (success, gpu_mask ndiv_slowdown 22 2 0 (clear_sdm success ramp))

-- `_gpu_pllg_slide`.
unfoldable pub gpu_pllg_slide : (ℕ → Bool) → ℕ → Pll → Bool × Pll
gpu_pllg_slide synced new_divn s =
    if new_divn == bits 8 8 (s.regs coeff)
    then (true, s)
    else slide_from synced new_divn (s.regs coeff) (clk_setup_slide s)

abbrev pub osc_khz : ℕ
osc_khz = 38400

-- `new_divn` before it is clamped.
unfoldable pub divn_for : ℕ → ℕ → ℕ → ℕ
divn_for khz divm divp = u32 (khz * divm * divp * 2 / osc_khz)

abbrev pub clamp_divn : ℕ → ℕ
clamp_divn n = if ltb n 8 then 8 else if ltb 255 n then 255 else n

-- `setClock`.
unfoldable pub set_clock : (ℕ → Bool) → ℕ → Pll → Bool × Pll
set_clock synced khz s =
    let divm = bits 0 8 (s.regs coeff) in
    let divp = bits 16 6 (s.regs coeff) in
    if divm == 0 || divp == 0
    then (false, s)
    else gpu_pllg_slide synced (clamp_divn (divn_for khz divm divp)) s
