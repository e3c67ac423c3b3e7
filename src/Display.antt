-- ===== src/Display.antt =====
-- The refresh rate of the display (Source/ryazha-clk/sysmodule/src/display/display_refresh_rate.cpp): the
-- rate of the built-in display by the PLL, and the choice of a rate for an external one. The calls of the
-- display driver are left out.
pub mod Handheld
pub mod Docked
pub mod Retro
use rcu.Base.{
  ℕ, zero, suc, ◌+◌, ◌-◌, ◌*◌, ◌/◌, ◌%◌, ◌^◌, Bool, true, false, not, ◌&&◌, ◌||◌, Option, none,
  some, List, [], ◌∷◌, ltb, leb, ◌==◌, ◌/=◌, if◌then◌else◌, u8, u32, length, get_elem?, ℤ, pos,
  negsuc, neg,
}

-- `DSI_CLOCK_HZ`.
abbrev pub dsi_clock_hz : ℕ
dsi_clock_hz = 234000000

-- `g_handheldModeRefreshRate`.
abbrev pub handheld_min : ℕ
handheld_min = 40

abbrev pub handheld_max : ℕ
handheld_max = 80

-- The loop that looks for a multiple, from `i` on with `n` left.
abbrev pub first_multiple : ℕ → ℕ → ℕ → ℕ
first_multiple rate zero i = 60
first_multiple rate (suc n) i =
    let rest = first_multiple rate n (i + 1) in
    let times = u32 (rate * i) in
    if leb handheld_min times && leb times handheld_max then times else rest

-- `new_refreshRate` of `_setPLLDHandheldRefreshRate` after its limits. The multiples are by 2 to 4.
unfoldable pub handheld_rate : ℕ → ℕ
handheld_rate rate =
    if ltb handheld_max rate
    then handheld_max
    else if ltb rate handheld_min
    then if rate * 2 == 60 || rate * 3 == 60 || rate * 4 == 60 then 60 else first_multiple rate 3 2
    else rate

-- `PLLD_BASE` and `PLLD_MISC`: the divisors, and the fraction, a signed 16-bit field.
pub record Plld : Type 0 where
  pub divn : ℕ
  pub divm : ℕ
  pub sdm_din : ℤ

-- A signed 16-bit field, from a number and one taken off it.
abbrev pub s16_minus : ℕ → ℕ → ℤ
s16_minus a b =
    let low = (a + 2 ^ 64 - b) % 2 ^ 16 in if ltb low (2 ^ 15) then pos low else neg (2 ^ 16 - low)

-- The end of `_setPLLDHandheldRefreshRate`: the registers for a rate.
unfoldable pub plld_for : ℕ → Plld
plld_for rate =
    let base = u8 (rate - rate % 5) in
    let divn = u8 (4 * base / 10) in
    record {
      divn = divn;
      divm = 1;
      sdm_din = s16_minus (8 * 1 * (dsi_clock_hz * rate / 60) / 9375) (4096 * (2 * divn + 1));
    }

-- `value` as `GetRate` first takes it from the registers.
abbrev pub plld_value : Plld → ℕ
plld_value r = r.divn / r.divm * 10 / 4

abbrev pub add_signed : ℕ → ℤ → ℕ
add_signed a (pos b) = a + b
add_signed a (negsuc b) = a - suc b

-- The rate that `GetRate` takes from the registers in handheld mode; `none` where it takes the display
-- for an external one.
unfoldable pub plld_rate : Plld → Option ℕ
plld_rate r =
    if plld_value r == 0 || plld_value r == 80
    then none
    else some (
        u32 (9375 * add_signed (4096 * (2 * r.divn + 1)) r.sdm_din / (8 * r.divm))
        / (dsi_clock_hz / 60))
