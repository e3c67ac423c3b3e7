-- ===== src/Loader/Dvb.antt =====
-- The voltages of the memory on Mariko: `MemFreqDvbTable` of pcv/pcv_mariko.cpp, and `MemFreqMax`. Clocks are in kHz,
-- voltages in mV; `25 * C.emcDvbShift` is taken not to overflow.
pub mod Brackets
pub mod Voltages
pub mod Safe
use rcu.Base.{
  ℕ, zero, suc, ◌+◌, ◌-◌, ◌*◌, Bool, true, false, ◌&&◌, List, [], ◌∷◌, ◌++◌, ltb, leb, ◌/=◌,
  if◌then◌else◌, ℤ, pos, negsuc, map,
}
use rcu.Loader.Scan.{Memory, patch_offset, success, invalid_dvb_table, Patcher}
use rcu.Loader.Custom.{CustomizeTable}
use rcu.Loader.Regulators.{matches}
use rcu.Loader.Mtc.{emc_clk_os_limit}

-- The three voltages of a `DvbEntry`, one for each process.
pub record Volts : Type 0 where
  pub zeroth : ℕ
  pub first : ℕ
  pub second : ℕ

pub record DvbEntry : Type 0 where
  pub freq : ℕ
  pub volt : Volts

abbrev pub min_volt : ℕ
min_volt = 637

-- `std::clamp(value + voltAdd, MinVolt, max)`, for `voltAdd` from 0 on, and below.
abbrev pub clamp : ℕ → ℕ → ℕ
clamp value max = if ltb value min_volt then min_volt else if ltb max value then max else value

abbrev pub clamp_volt : ℤ → ℕ → ℕ → ℕ
clamp_volt (pos n) value max = clamp (value + 25 * n) max
clamp_volt (negsuc n) value max = clamp (value - 25 * suc n) max

-- `max0`, `max1` and `max2`. They are `s32`; the conversion from the `u32` changes nothing below 2 ^ 31,
-- where `SafetyCheck` keeps `marikoSocVmax`.
abbrev pub max_volt : CustomizeTable → ℕ → ℕ
max_volt c usual =
    if c.mariko_soc_vmax /= 0 && ltb 1000 c.mariko_soc_vmax then c.mariko_soc_vmax else usual

-- `DvbVolt`.
abbrev pub dvb_volt : CustomizeTable → ℕ → ℕ → ℕ → Volts
dvb_volt c a b d = record {
  zeroth = clamp_volt c.emc_dvb_shift a (max_volt c 1050);
  first = clamp_volt c.emc_dvb_shift b (max_volt c 1025);
  second = clamp_volt c.emc_dvb_shift d (max_volt c 1000);
}

abbrev pub bracket : CustomizeTable → ℕ × ℕ × ℕ × ℕ → DvbEntry
bracket c (f, a, b, d) = record { freq = f; volt = dvb_volt c a b d }

-- The rows of `emcDvbOcTableBrackets` whose voltages are shifted.
abbrev pub shifted_rows : List (ℕ × ℕ × ℕ × ℕ)
shifted_rows =
    (1866000, 700, 675, 650)
    ∷ (2133000, 725, 700, 675)
    ∷ (2246000, 750, 725, 700)
    ∷ (2400000, 775, 750, 725)
    ∷ (2466000, 800, 775, 750)
    ∷ (2533000, 810, 785, 760)
    ∷ (2566000, 820, 795, 770)
    ∷ (2600000, 830, 805, 780)
    ∷ (2633000, 840, 815, 790)
    ∷ (2666000, 850, 825, 800)
    ∷ (2700000, 860, 835, 810)
    ∷ (2733000, 870, 845, 820)
    ∷ (2766000, 880, 855, 830)
    ∷ (2800000, 895, 865, 840)
    ∷ (2833000, 900, 875, 850)
    ∷ (2866000, 910, 885, 860)
    ∷ (2900000, 920, 895, 870)
    ∷ (2933000, 950, 905, 880)
    ∷ (2966000, 960, 915, 890)
    ∷ (3000000, 970, 925, 900)
    ∷ (3033000, 980, 940, 910)
    ∷ (3066000, 1000, 955, 920)
    ∷ (3100000, 1010, 990, 930)
    ∷ (3133000, 1025, 1005, 940)
    ∷ (3166000, 1035, 1015, 950)
    ∷ (3200000, 1050, 1025, 960)
    ∷ []

abbrev pub fixed : ℕ → ℕ → ℕ → ℕ → DvbEntry
fixed f a b d = record { freq = f; volt = record { zeroth = a; first = b; second = d } }

-- `emcDvbOcTableBrackets`, with its last row.
unfoldable pub emc_dvb_oc_table_brackets : CustomizeTable → List DvbEntry
emc_dvb_oc_table_brackets c =
    fixed 204000 637 637 637
    ∷ fixed 1331200 650 637 637
    ∷ fixed 1600000 675 650 637
    ∷ (map (bracket c) shifted_rows ++ (fixed 0xffffffff 0 0 0 ∷ []))

-- The `while` over the rows, from the row of `bracketIndex` on.
unfoldable pub advance : ℕ → DvbEntry → List DvbEntry → DvbEntry × List DvbEntry
advance f b [] = (b, [])
advance f b (next ∷ rest) =
    let further = advance f next rest in if leb next.freq f then further else (b, next ∷ rest)

-- The loop over the clocks; `bracketIndex` is kept from one to the next.
unfoldable pub dvb_entries : List ℕ → DvbEntry → List DvbEntry → List DvbEntry
dvb_entries [] b rest = []
dvb_entries (f ∷ fs) b rest =
    let (b', rest') = advance f b rest in
    record { freq = f; volt = b'.volt } ∷ dvb_entries fs b' rest'

abbrev pub from_first : List ℕ → List DvbEntry → List DvbEntry
from_first fs [] = []
from_first fs (b ∷ rest) = dvb_entries fs b rest

-- `emcDvbTableOc`.
unfoldable pub emc_dvb_table_oc : CustomizeTable → List ℕ → List DvbEntry
emc_dvb_table_oc c new_emc_list = from_first new_emc_list (emc_dvb_oc_table_brackets c)

abbrev pub words : List DvbEntry → List ℕ
words [] = []
words (e ∷ es) = e.freq ∷ e.volt.zeroth ∷ e.volt.first ∷ e.volt.second ∷ words es

-- `EmcDvbTableDefault`.
abbrev pub emc_dvb_table_default : List DvbEntry
emc_dvb_table_default =
    fixed 204000 637 637 637
    ∷ fixed 408000 637 637 637
    ∷ fixed 800000 637 637 637
    ∷ fixed 1065600 637 637 637
    ∷ fixed 1331200 650 637 637
    ∷ fixed 1600000 675 650 637
    ∷ []

-- `std::memcpy` of words.
abbrev pub write_words : ℕ → List ℕ → Memory → Memory
write_words at [] m = m
write_words at (w ∷ ws) m = write_words (at + 1) ws (patch_offset at w m)

-- `MemFreqDvbTable`, at the last entry of the table, with the list of `MtcGenerateFreqTables`.
unfoldable pub mem_freq_dvb_table : CustomizeTable → List ℕ → Patcher
mem_freq_dvb_table c new_emc_list ptr m =
    let head = ptr - 20 in
    if matches (words emc_dvb_table_default) head m
    then (if leb c.mariko_emc_max_clock emc_clk_os_limit then (success, m) else (
      success,
      write_words head (words (emc_dvb_table_oc c new_emc_list))
          (write_words head (map (λ w. 0) (words emc_dvb_table_default)) m),
    ))
    else (invalid_dvb_table, m)

-- `MemFreqMax`.
unfoldable pub mem_freq_max : CustomizeTable → Patcher
mem_freq_max c ptr m =
    if leb c.mariko_emc_max_clock emc_clk_os_limit
    then (success, m)
    else (success, patch_offset ptr c.mariko_emc_max_clock m)
