-- ===== src/Loader/Cpu.antt =====
-- The patches of the CPU of Mariko: `CapCpuClock`, `CpuFreqVdd`, `CpuVoltDVFS`, `CpuVoltThermals` and
-- `CpuVoltDfll` of pcv/pcv_mariko.cpp.
pub mod Cap
pub mod Dfll
use rcu.Base.{
  ℕ, ◌+◌, ◌-◌, Bool, true, false, not, ◌&&◌, ◌||◌, Option, none, some, List, [], ◌∷◌, leb, ◌==◌,
  ◌/=◌, if◌then◌else◌,
}
use rcu.Loader.Scan.{
  Memory, patch_offset, success, invalid_cpu_freq_vdd_entry, invalid_cpu_min_volt,
  invalid_cpu_volt_dfll_entry, Patcher,
}
use rcu.Loader.Custom.{CustomizeTable, last_freq}
use rcu.Loader.Regulators.{matches}

abbrev pub allowed_cpu_max_frequencies : List ℕ
allowed_cpu_max_frequencies =
    1963500 ∷ 2091000 ∷ 2193000 ∷ 2295000 ∷ 2397000 ∷ 2499000 ∷ 2601000 ∷ 2703000 ∷ []

-- The loop of `CapCpuClock`.
unfoldable pub cap_from : ℕ → ℕ → List ℕ → ℕ
cap_from max_clock cap [] = cap
cap_from max_clock cap (freq ∷ freqs) =
    let rest = cap_from max_clock freq freqs in if leb freq max_clock then rest else cap

-- `CapCpuClock`.
unfoldable pub cap_cpu_clock : CustomizeTable → ℕ
cap_cpu_clock c = cap_from c.mariko_cpu_max_clock 1963500 allowed_cpu_max_frequencies

-- Several words at given distances from a pointer.
abbrev pub write_all : List (ℕ × ℕ) → ℕ → Memory → Memory
write_all [] ptr m = m
write_all ((o, v) ∷ rest) ptr m = write_all rest ptr (patch_offset (ptr + o) v m)

abbrev pub patch_if : ℕ → ℕ → Memory → Memory
patch_if at value m = if value == 0 then m else patch_offset at value m

-- The frequency that `CpuFreqVdd` writes; `none` is a read through `nullptr`.
unfoldable pub cpu_freq_vdd_value : CustomizeTable → Option ℕ
cpu_freq_vdd_value c =
    if c.mariko_cpu_uv_high /= 0 then some (cap_cpu_clock c) else last_freq c.mariko_cpu_dvfs_table

-- `CpuFreqVdd` with that frequency, at the word `freq` of a `dvfs_rail`.
unfoldable pub cpu_freq_vdd : ℕ → Patcher
cpu_freq_vdd value ptr m =
    if m (ptr - 6) == 1 && m (ptr + 10) == 250000 && m (ptr + 11) == 5000 && m (ptr + 12) == 1525000
    then (success, patch_offset ptr value m)
    else (invalid_cpu_freq_vdd_entry, m)

-- `CpuVoltDVFS`, at the word `vmin` of a `CvbMeta`.
unfoldable pub cpu_volt_dvfs : CustomizeTable → Patcher
cpu_volt_dvfs c ptr m =
    if m (ptr - 2) == 850
      && m (ptr - 1) == 38
      && m (ptr + 5) == 1120
      && m (ptr + 6) == 1000
      && m (ptr + 7) == 100
      && m (ptr + 8) == 1000
      && m (ptr + 9) == 0
    then (
      success,
      patch_if (ptr + 5) c.mariko_cpu_max_volt
          (patch_if (ptr - 2) c.mariko_cpu_high_vmin (patch_if ptr c.mariko_cpu_low_vmin m)),
    )
    else (invalid_cpu_min_volt, m)

abbrev pub cpu_volt_thermal_data : List ℕ
cpu_volt_thermal_data =
    620 ∷ 1120 ∷ 20000 ∷ 620 ∷ 1120 ∷ 70000 ∷ 950 ∷ 1132 ∷ 0 ∷ 950 ∷ 1227 ∷ 0 ∷ []

-- `CpuVoltThermals`.
unfoldable pub cpu_volt_thermals : CustomizeTable → Patcher
cpu_volt_thermals c ptr m =
    let low = c.mariko_cpu_low_vmin in
    let high = c.mariko_cpu_max_volt in
    if matches cpu_volt_thermal_data ptr m
    then (
      success,
      patch_if (ptr + 4) high (
          patch_if (ptr + 1) high (
            patch_if (ptr - 5) high
              (patch_if (ptr - 2) high (patch_if (ptr + 3) low (patch_if ptr low m))))),
    )
    else (invalid_cpu_min_volt, m)

-- The two `switch`es of `CpuVoltDfll`: the words of `CvbCpuDfllData` that are written, by their places
-- (`tune0_low`, `tune0_high`, `tune1_low`, `tune1_high`).
unfoldable pub uv_low_writes : ℕ → List (ℕ × ℕ)
uv_low_writes n =
    if n == 1
    then (0, 0xffa0) ∷ (1, 0xffff) ∷ (2, 0x21107ff) ∷ (3, 0x0) ∷ []
    else if n == 2
    then (1, 0xffdf) ∷ (2, 0x21107ff) ∷ (3, 0x27207ff) ∷ []
    else if n == 3
    then (0, 0xffdf) ∷ (1, 0xffdf) ∷ (2, 0x21107ff) ∷ (3, 0x27307ff) ∷ []
    else if n == 4
    then (0, 0xffff) ∷ (1, 0xffdf) ∷ (2, 0x21107ff) ∷ (3, 0x27407ff) ∷ []
    else if n == 5
    then (1, 0xffdf) ∷ (2, 0x21607ff) ∷ (3, 0x27707ff) ∷ []
    else if n == 6
    then (1, 0xffdf) ∷ (2, 0x21607ff) ∷ (3, 0x27807ff) ∷ []
    else if n == 7
    then (1, 0xdfff) ∷ (2, 0x21607ff) ∷ (3, 0x27b07ff) ∷ []
    else if n == 8
    then (0, 0xdfff) ∷ (1, 0xdfff) ∷ (2, 0x21707ff) ∷ (3, 0x27b07ff) ∷ []
    else if n == 9
    then (0, 0xdfff) ∷ (1, 0xdfff) ∷ (2, 0x21707ff) ∷ (3, 0x27c07ff) ∷ []
    else if n == 10
    then (0, 0xdfff) ∷ (1, 0xdfff) ∷ (2, 0x21707ff) ∷ (3, 0x27d07ff) ∷ []
    else if n == 11
    then (0, 0xdfff) ∷ (1, 0xdfff) ∷ (2, 0x21707ff) ∷ (3, 0x27e07ff) ∷ []
    else if n == 12
    then (0, 0xdfff) ∷ (1, 0xdfff) ∷ (2, 0x21707ff) ∷ (3, 0x27f07ff) ∷ []
    else []

unfoldable pub uv_high_writes : ℕ → List (ℕ × ℕ)
uv_high_writes n =
    if n == 1
    then (3, 0x0) ∷ (1, 0xffff) ∷ []
    else if n == 2
    then (1, 0xffdf) ∷ (3, 0x27207ff) ∷ []
    else if n == 3
    then (1, 0xffdf) ∷ (3, 0x27307ff) ∷ []
    else if n == 4
    then (1, 0xffdf) ∷ (3, 0x27407ff) ∷ []
    else if n == 5
    then (1, 0xffdf) ∷ (3, 0x27707ff) ∷ []
    else if n == 6
    then (1, 0xffdf) ∷ (3, 0x27807ff) ∷ []
    else if n == 7 || n == 8
    then (1, 0xdfff) ∷ (3, 0x27b07ff) ∷ []
    else if n == 9
    then (1, 0xdfff) ∷ (3, 0x27c07ff) ∷ []
    else if n == 10
    then (1, 0xdfff) ∷ (3, 0x27d07ff) ∷ []
    else if n == 11
    then (1, 0xdfff) ∷ (3, 0x27e07ff) ∷ []
    else if n == 12
    then (1, 0xdfff) ∷ (3, 0x27f07ff) ∷ []
    else []

-- `CpuVoltDfll`.
unfoldable pub cpu_volt_dfll : CustomizeTable → Patcher
cpu_volt_dfll c ptr m =
    if m ptr == 0xFFCF && m (ptr + 1) == 0 && m (ptr + 2) == 0x12207FF && m (ptr + 3) == 0x3FFF7FF
    then (
      success,
      write_all (uv_high_writes c.mariko_cpu_uv_high) ptr
          (write_all (uv_low_writes c.mariko_cpu_uv_low) ptr m),
    )
    else (invalid_cpu_volt_dfll_entry, m)
