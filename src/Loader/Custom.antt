-- ===== src/Loader/Custom.antt =====
-- The table `C` of the kip's settings, as the loader declares it (customize.hpp), with the fields that
-- the modelled patches read, and the tables of voltages by frequency (pcv/pcv_common.hpp).
use rcu.Base.{
  ℕ, zero, suc, Bool, true, ◌&&◌, Option, none, some, List, [], ◌∷◌, ◌==◌, if◌then◌else◌, u32, ℤ,
}

-- `cvb_entry_t`: the frequency and the two sets of coefficients, as words.
pub record CvbEntry : Type 0 where
  pub freq : ℕ
  pub dfll : List ℕ
  pub pll : List ℕ

pub record CustomizeTable : Type 0 where
  pub common_emc_mem_volt : ℕ
  pub erista_max_emc_clock : ℕ
  pub step_mode : ℕ
  pub mariko_emc_max_clock : ℕ
  pub mariko_emc_vddq_volt : ℕ
  pub emc_dvb_shift : ℤ
  pub mariko_soc_vmax : ℕ
  pub erista_cpu_max_volt : ℕ
  pub mariko_cpu_uv_low : ℕ
  pub mariko_cpu_uv_high : ℕ
  pub mariko_cpu_low_vmin : ℕ
  pub mariko_cpu_high_vmin : ℕ
  pub mariko_cpu_max_volt : ℕ
  pub mariko_cpu_max_clock : ℕ
  pub erista_cpu_boost_clock : ℕ
  pub mariko_cpu_boost_clock : ℕ
  pub erista_gpu_uv : ℕ
  pub mariko_gpu_uv : ℕ
  pub mariko_gpu_vmin : ℕ
  pub mariko_gpu_vmax : ℕ
  pub common_gpu_volt_offset : ℕ
  -- By index, also past the array's end, where the fields that follow it are read.
  pub erista_gpu_volt_array : ℕ → ℕ
  pub mariko_gpu_volt_array : ℕ → ℕ
  pub erista_cpu_dvfs_table : List CvbEntry
  pub mariko_cpu_dvfs_table : List CvbEntry
  pub mariko_cpu_dvfs_table_slt : List CvbEntry
  pub erista_gpu_dvfs_table : List CvbEntry
  pub erista_gpu_dvfs_table_slt : List CvbEntry
  pub erista_gpu_dvfs_table_hi_opt : List CvbEntry
  pub mariko_gpu_dvfs_table : List CvbEntry
  pub mariko_gpu_dvfs_table_slt : List CvbEntry
  pub mariko_gpu_dvfs_table_hi_opt : List CvbEntry

abbrev pub dvfs_table_entry_limit : ℕ
dvfs_table_entry_limit = 31

abbrev pub all_zero : List ℕ → Bool
all_zero [] = true
all_zero (x ∷ xs) = x == 0 && all_zero xs

-- `is_empty`.
abbrev pub is_empty : CvbEntry → Bool
is_empty e = e.freq == 0 && all_zero e.dfll && all_zero e.pll

-- The entries before the first empty one, `n` at most: those that `GetDvfsTableEntryCount` counts.
abbrev pub counted : ℕ → List CvbEntry → List CvbEntry
counted zero es = []
counted (suc n) [] = []
counted (suc n) (e ∷ es) = if is_empty e then [] else e ∷ counted n es

abbrev pub last : List CvbEntry → Option CvbEntry
last [] = none
last (e ∷ []) = some e
last (e ∷ f ∷ es) = last (f ∷ es)

-- `GetDvfsTableEntryCount`'s entries.
abbrev pub table_entries : List CvbEntry → List CvbEntry
table_entries table = counted dvfs_table_entry_limit table

-- `GetDvfsTableLastEntry`; `none` is `nullptr`.
unfoldable pub get_dvfs_table_last_entry : List CvbEntry → Option CvbEntry
get_dvfs_table_last_entry table = last (counted dvfs_table_entry_limit table)

-- Its frequency as a `u32`; `none` where the code reads through `nullptr`.
unfoldable pub last_freq : List CvbEntry → Option ℕ
last_freq table = elim (get_dvfs_table_last_entry table) [
  | none ↦ none
  | some e ↦ some (u32 e.freq)
]

-- The tables by `marikoGpuUV` and `eristaGpuUV`.
abbrev pub mariko_gpu_table : CustomizeTable → List CvbEntry
mariko_gpu_table c =
    if c.mariko_gpu_uv == 1
    then c.mariko_gpu_dvfs_table_slt
    else if c.mariko_gpu_uv == 2
    then c.mariko_gpu_dvfs_table_hi_opt
    else c.mariko_gpu_dvfs_table

abbrev pub erista_gpu_table : CustomizeTable → List CvbEntry
erista_gpu_table c =
    if c.erista_gpu_uv == 1
    then c.erista_gpu_dvfs_table_slt
    else if c.erista_gpu_uv == 2
    then c.erista_gpu_dvfs_table_hi_opt
    else c.erista_gpu_dvfs_table
