-- ===== src/Loader/Cvb.antt =====
-- `GpuFreqCvbTable` of pcv/pcv.hpp: the table of the GPU's voltages by frequency.
-- The mapped table is the list of the entries from its head on, and of what follows it in memory.
pub mod Offset
use rcu.Base.{
  ℕ, zero, suc, ◌+◌, ◌-◌, ◌*◌, ◌%◌, ◌^◌, Bool, true, false, not, ◌&&◌, List, [], ◌∷◌, ◌==◌, ◌/=◌,
  if◌then◌else◌, u32, length,
}
use rcu.Loader.Scan.{Result, success, invalid_gpu_dvfs}
use rcu.Loader.Custom.{CvbEntry, CustomizeTable, table_entries, mariko_gpu_table, erista_gpu_table}

abbrev pub equal_words : List ℕ → List ℕ → Bool
equal_words [] [] = true
equal_words [] (y ∷ ys) = false
equal_words (x ∷ xs) [] = false
equal_words (x ∷ xs) (y ∷ ys) = x == y && equal_words xs ys

-- `memcmp` of the table with the entries expected there.
abbrev pub begins_with : List CvbEntry → List CvbEntry → Bool
begins_with [] mapped = true
begins_with (e ∷ es) [] = false
begins_with (e ∷ es) (f ∷ fs) =
    e.freq == f.freq && equal_words e.dfll f.dfll && equal_words e.pll f.pll && begins_with es fs

-- `memcpy` of entries to the head of the table.
abbrev pub copy_over : List CvbEntry → List CvbEntry → List CvbEntry
copy_over [] mapped = mapped
copy_over (e ∷ es) [] = e ∷ copy_over es []
copy_over (e ∷ es) (f ∷ fs) = e ∷ copy_over es fs

abbrev pub c0 : List ℕ → ℕ
c0 [] = 0
c0 (c ∷ cs) = c

abbrev pub set_c0 : ℕ → List ℕ → List ℕ
set_c0 c [] = c ∷ []
set_c0 c (d ∷ ds) = c ∷ ds

-- `c0 - C.commonGpuVoltOffset * 1000`, as a `u32`.
unfoldable pub lowered : ℕ → ℕ → ℕ
lowered offset c = (u32 c + 2 ^ 32 - u32 (offset * 1000)) % 2 ^ 32

-- `PATCH_OFFSET` of `c0` with the offset taken off.
abbrev pub lower_entry : ℕ → CvbEntry → CvbEntry
lower_entry offset e = record e { pll = set_c0 (lowered offset (c0 e.pll)) e.pll }

-- The first loop's body: a fixed voltage, with `ClearCvbPllEntry`, or the offset.
abbrev pub set_volt : ℕ → ℕ → CvbEntry → CvbEntry
set_volt offset volt e =
    if volt /= 0
    then record e { pll = u32 (volt * 1000) ∷ 0 ∷ 0 ∷ 0 ∷ 0 ∷ 0 ∷ [] }
    else lower_entry offset e

-- The first loop, from the entry `i` for `n` entries.
unfoldable pub set_volts : ℕ → (ℕ → ℕ) → ℕ → ℕ → List CvbEntry → List CvbEntry
set_volts offset volts i zero es = es
set_volts offset volts i (suc n) [] = []
set_volts offset volts i (suc n) (e ∷ es) =
    set_volt offset (volts i) e ∷ set_volts offset volts (suc i) n es

-- The second loop.
unfoldable pub lower_all : ℕ → ℕ → List CvbEntry → List CvbEntry
lower_all offset zero es = es
lower_all offset (suc n) [] = []
lower_all offset (suc n) (e ∷ es) = lower_entry offset e ∷ lower_all offset n es

-- The configured table, voltages and undervolting of the template's two instances. The arrays of voltages
-- have 27 and 24 entries; for a longer table the code reads on in the fields behind them.
abbrev pub configured : Bool → CustomizeTable → List CvbEntry
configured is_mariko c =
    table_entries (if is_mariko then mariko_gpu_table c else erista_gpu_table c)

abbrev pub volt_array : Bool → CustomizeTable → ℕ → ℕ
volt_array is_mariko c = if is_mariko then c.mariko_gpu_volt_array else c.erista_gpu_volt_array

abbrev pub gpu_uv : Bool → CustomizeTable → ℕ
gpu_uv is_mariko c = if is_mariko then c.mariko_gpu_uv else c.erista_gpu_uv

-- `GpuFreqCvbTable<isMariko>`, with `GpuCvbTableDefault` and the mapped table.
unfoldable pub gpu_freq_cvb_table :
    Bool → CustomizeTable → List CvbEntry → List CvbEntry → Result × List CvbEntry
gpu_freq_cvb_table is_mariko c default_table mapped =
    let customized = configured is_mariko c in
    let n = length customized in
    let offset = c.common_gpu_volt_offset in
    let patched = set_volts offset (volt_array is_mariko c) 0 n (copy_over customized mapped) in
    if not (begins_with (table_entries default_table) mapped) then (invalid_gpu_dvfs, mapped) else (
      success,
      if offset /= 0 && gpu_uv is_mariko c == 0 then lower_all offset n patched else patched,
    )
