-- ===== src/Dvfs.antt =====
-- The voltage of the GPU that a frequency of the memory needs, and the tunings of the CPU
-- (Source/ryazha-clk/sysmodule/src/board/board_volt.cpp). `Dvfs/Hijack` has the table of PCV.
pub mod Tables
pub mod Vmin
pub mod Bracket
pub mod Hijack
pub mod Dfll
use rcu.Base.{
  ℕ, zero, suc, ◌+◌, ◌-◌, ◌*◌, ◌/◌, ◌%◌, Bool, true, false, not, ◌&&◌, ◌||◌, Option, none, some,
  List, [], ◌∷◌, get_elem?, ltb, leb, ◌==◌, if◌then◌else◌, u32,
}
use rcu.Hoc.{SocType, erista, mariko}

-- An entry of a table of `GetMinimumGpuVmin`: up to a frequency of the memory in MHz, a voltage in mV.
abbrev pub Entry : Type 0
Entry = ℕ × ℕ

-- The loop over a table, with what `baseVolt` is before it.
abbrev pub first_volt : ℕ → List Entry → ℕ → ℕ
first_volt freq [] base_volt = base_volt
first_volt freq ((limit, volt) ∷ entries) base_volt =
    let rest = first_volt freq entries base_volt in if leb freq limit then volt else rest

-- `ramTable[bracket]` of Mariko, beside `gpuVoltArray`: 590 mV, and 10 mV more for each entry.
abbrev pub volts_from : ℕ → List ℕ → List Entry
volts_from volt [] = []
volts_from volt (f ∷ fs) = (f, volt) ∷ volts_from (volt + 10) fs

abbrev pub mariko_row : ℕ → List ℕ
mariko_row b =
    if b == 1
    then 2300 ∷ 2366 ∷ 2433 ∷ 2466 ∷ 2533 ∷ 2566 ∷ 2633 ∷ 2700 ∷ 2733 ∷ 2800 ∷ 2833 ∷ 2900 ∷ 2933
      ∷ 2966 ∷ 3033 ∷ 3066 ∷ 3100 ∷ 3133 ∷ 3166 ∷ 3200 ∷ 3233 ∷ 3266 ∷ []
    else if b == 2
    then 2433 ∷ 2466 ∷ 2533 ∷ 2566 ∷ 2600 ∷ 2666 ∷ 2766 ∷ 2800 ∷ 2833 ∷ 2866 ∷ 2933 ∷ 2966 ∷ 3033
      ∷ 3066 ∷ 3100 ∷ 3133 ∷ 3166 ∷ 3200 ∷ 3233 ∷ 3300 ∷ 3333 ∷ 3366 ∷ []
    else if b == 3
    then 2500 ∷ 2533 ∷ 2600 ∷ 2633 ∷ 2666 ∷ 2733 ∷ 2800 ∷ 2866 ∷ 2900 ∷ 2966 ∷ 3033 ∷ 3100 ∷ 3166
      ∷ 3200 ∷ 3233 ∷ 3266 ∷ 3300 ∷ 3333 ∷ 3366 ∷ 3400 ∷ 3400 ∷ 3400 ∷ []
    else 2133 ∷ 2200 ∷ 2266 ∷ 2300 ∷ 2366 ∷ 2400 ∷ 2433 ∷ 2466 ∷ 2533 ∷ 2566 ∷ 2600 ∷ 2633 ∷ 2700
      ∷ 2733 ∷ 2766 ∷ 2833 ∷ 2866 ∷ 2900 ∷ 2933 ∷ 3033 ∷ 3066 ∷ 3100 ∷ []

-- `ramTable[bracket]` of Erista: its voltages fall by 10 mV with each bracket, here `less`.
abbrev pub erista_row : ℕ → List Entry
erista_row less =
    (1733, 725 - less)
    ∷ (1800, 730 - less)
    ∷ (1866, 735 - less)
    ∷ (1920, 740 - less)
    ∷ (1958, 745 - less)
    ∷ (1996, 750 - less)
    ∷ (2035, 755 - less)
    ∷ (2073, 760 - less)
    ∷ (2112, 765 - less)
    ∷ (2131, 770 - less)
    ∷ (2150, 775 - less)
    ∷ (2169, 780 - less)
    ∷ (2188, 785 - less)
    ∷ (2227, 790 - less)
    ∷ (2265, 795 - less)
    ∷ (2304, 800 - less)
    ∷ (2342, 805 - less)
    ∷ (2380, 810 - less)
    ∷ (2400, 815 - less)
    ∷ []

-- `if (bracket >= std::size(ramTable)) bracket = 0;`
abbrev pub known_bracket : ℕ → ℕ
known_bracket b = if ltb b 4 then b else 0

-- `bracketStart`.
abbrev pub row_start : List ℕ → ℕ
row_start [] = 0
row_start (f ∷ fs) = f

-- `rampStartVolt`.
abbrev pub ramp_start_volt : ℕ → ℕ
ramp_start_volt bracket = if bracket == 0 then 535 else 525

-- The voltage on the ramp from 1633 MHz to the start of the table. `freqMhz` is below `bracketStart`, so
-- no product reaches 2 ^ 32.
abbrev pub ramp_volt : ℕ → ℕ → ℕ → ℕ
ramp_volt freq start low =
    let raw = low + (freq - 1633) * (590 - low) / (start - 1633) in
    let volt = (raw + 2) / 5 * 5 in
    let raised = if ltb volt low then low else volt in if ltb 590 raised then 590 else raised

abbrev pub mariko_vmin : ℕ → ℕ → ℕ
mariko_vmin freq bracket =
    let row = mariko_row bracket in
    if leb 1633 freq && ltb freq (row_start row)
    then ramp_volt freq (row_start row) (ramp_start_volt bracket)
    else first_volt freq (volts_from 590 row) 800

abbrev pub erista_vmin : ℕ → ℕ → ℕ
erista_vmin freq bracket = first_volt freq (erista_row (10 * bracket)) (815 - 10 * bracket)

-- `GetMinimumGpuVmin`.
unfoldable pub get_minimum_gpu_vmin : SocType → ℕ → ℕ → ℕ
get_minimum_gpu_vmin mariko freq bracket =
    if leb freq 1600 then 0 else mariko_vmin freq (known_bracket bracket)
get_minimum_gpu_vmin erista freq bracket =
    if leb freq 1600 then 0 else erista_vmin freq (known_bracket bracket)

-- `CalculateTbreak`.
unfoldable pub calculate_tbreak : SocType → ℕ → ℕ
calculate_tbreak erista table = 1581000000
calculate_tbreak mariko table = if table == 3 then 1683000000 else 1581000000
