-- ===== src/Loader/Safety.antt =====
-- `SafetyCheck` of pcv/pcv.cpp, which runs before any patch of PCV.
pub mod Limits
use rcu.Base.{
  ℕ, Bool, true, false, not, ◌&&◌, ◌||◌, Option, none, some, List, [], ◌∷◌, ltb, ◌==◌, ◌/=◌,
  if◌then◌else◌,
}
use rcu.Loader.Custom.{CustomizeTable, last_freq, mariko_gpu_table, erista_gpu_table}

-- `sValidator`, without the colour of its panic screen.
pub record Validator : Type 0 where
  pub value : ℕ
  pub min : ℕ
  pub max : ℕ
  pub value_required : Bool

-- `check`: a value of 0 passes unless it is required, and a limit of 0 is none.
unfoldable pub check : Validator → Bool
check v =
    if not v.value_required && v.value == 0
    then true
    else if v.min /= 0 && ltb v.value v.min
    then false
    else not (v.max /= 0 && ltb v.max v.value)

abbrev pub required : ℕ → ℕ → ℕ → Validator
required value min max = record { value = value; min = min; max = max; value_required = true }

abbrev pub optional : ℕ → ℕ → ℕ → Validator
optional value min max = record { value = value; min = min; max = max; value_required = false }

abbrev pub mariko_cpu_max_freq : CustomizeTable → Option ℕ
mariko_cpu_max_freq c =
    last_freq
      (if c.mariko_cpu_uv_high /= 0 then c.mariko_cpu_dvfs_table_slt else c.mariko_cpu_dvfs_table)

-- `validators`, with the four frequencies that are read from tables.
unfoldable pub validators : CustomizeTable → ℕ → ℕ → ℕ → ℕ → List Validator
validators c erista_cpu mariko_cpu erista_gpu mariko_gpu =
    required c.erista_cpu_boost_clock 1020000 2397000
    ∷ required c.mariko_cpu_boost_clock 1020000 2703000
    ∷ optional c.erista_cpu_max_volt 1000 1260
    ∷ optional c.mariko_cpu_max_volt 1000 1200
    ∷ optional erista_cpu 1785000 2397000
    ∷ optional mariko_cpu 1785000 2703000
    ∷ optional c.common_emc_mem_volt 912500 1350000
    ∷ optional c.erista_max_emc_clock 1600000 2600000
    ∷ optional c.mariko_emc_max_clock 1600000 3500000
    ∷ optional c.mariko_emc_vddq_volt 400000 750000
    ∷ optional c.mariko_soc_vmax 1000 1200
    ∷ optional erista_gpu 768000 1152000
    ∷ optional mariko_gpu 768000 1536000
    ∷ optional c.mariko_gpu_vmax 800 960
    ∷ []

abbrev pub all_pass : List Validator → Bool
all_pass [] = true
all_pass (v ∷ vs) = check v && all_pass vs

-- `SafetyCheck`; `false` is `CRASH`, and reading through `nullptr`.
unfoldable pub safety_check : CustomizeTable → Bool
safety_check c = elim (last_freq c.erista_cpu_dvfs_table) [
  | none ↦ false
  | some erista_cpu ↦ elim (mariko_cpu_max_freq c) [
    | none ↦ false
    | some mariko_cpu ↦ elim (last_freq (erista_gpu_table c)) [
      | none ↦ false
      | some erista_gpu ↦ elim (last_freq (mariko_gpu_table c)) [
        | none ↦ false
        | some mariko_gpu ↦ all_pass (validators c erista_cpu mariko_cpu erista_gpu mariko_gpu)
      ]
    ]
  ]
]
