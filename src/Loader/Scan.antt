-- ===== src/Loader/Scan.antt =====
-- `PATCH_OFFSET`, the results and `PatcherEntry` of oc_common.hpp, and the loops of `Patch` in
-- pcv/pcv_mariko.cpp over the words of the module and over the patches.
use rcu.Base.{
  ℕ, zero, suc, ◌+◌, Bool, true, false, ◌&&◌, Option, none, some, List, [], ◌∷◌, ltb, leb, ◌==◌,
  if◌then◌else◌,
}

abbrev pub Memory : Type 0
Memory = ℕ → ℕ

-- `PATCH_OFFSET`.
abbrev pub patch_offset : ℕ → ℕ → Memory → Memory
patch_offset at value m i = if i == at then value else m i

-- `R_SUCCEED()`, the results that the patches throw, and those of the I2C service
-- and of the kernel.
pub data Result : Type 0 where
  success : Result
  invalid_mem_pllm_entry invalid_dvb_table invalid_cpu_freq_vdd_entry : Result
  invalid_cpu_volt_dfll_entry invalid_cpu_min_volt invalid_gpu_dvfs : Result
  invalid_gpu_freq_max_pattern invalid_gpu_pll_entry invalid_regulator_entry : Result
  unsuccessful_patcher safety_check_failure invalid_soc_volt_limit invalid_soc_volt_pattern : Result
  i2c_failed svc_failed : ℕ → Result

abbrev pub succeeded : Result → Bool
succeeded success = true
succeeded r = false

-- A patch: from a pointer and the memory to a result and the memory, which it may have changed also
-- where it fails.
abbrev pub Patcher : Type 0
Patcher = ℕ → Memory → Result × Memory

-- `PatcherEntry`; `pattern` is `pattern_search_fn`, `none` where the word is compared with `value`.
pub record Entry : Type 0 where
  pub patcher : Patcher
  pub maximum : ℕ
  pub pattern : Option (ℕ → Memory → Bool)
  pub value : ℕ
  pub patched_count : ℕ

-- `Apply`.
unfoldable pub apply : Entry → ℕ → Memory → Result × (Entry × Memory)
apply e ptr m =
    let (res, after) = e.patcher ptr m in
    (res, ((if succeeded res then record e { patched_count = e.patched_count + 1 } else e), after))

abbrev pub search_ok : Entry → ℕ → Memory → Bool
search_ok e ptr m = elim e.pattern [ none ↦ e.value == m ptr | some pattern ↦ pattern ptr m ]

-- `SearchAndApply`.
unfoldable pub search_and_apply : Entry → ℕ → Memory → Result × (Entry × Memory)
search_and_apply e ptr m =
    if search_ok e ptr m then apply e ptr m else (unsuccessful_patcher, (e, m))

-- `CheckResult`.
unfoldable pub check_result : Entry → Result
check_result e =
    if leb e.patched_count 0
    then unsuccessful_patcher
    else if ltb 0 e.maximum && ltb e.maximum e.patched_count
    then unsuccessful_patcher
    else success

-- `for (auto &entry : patches)` at one word: until a patch succeeds.
unfoldable pub try_patches : List Entry → ℕ → Memory → List Entry × Memory
try_patches [] ptr m = ([], m)
try_patches (e ∷ es) ptr m =
    let (res, (after, m')) = search_and_apply e ptr m in
    let (rest, m'') = try_patches es ptr m' in
    if succeeded res then (after ∷ es, m') else (after ∷ rest, m'')

-- The loop over `n` words from a pointer on.
unfoldable pub scan_words : ℕ → ℕ → List Entry → Memory → List Entry × Memory
scan_words zero ptr es m = (es, m)
scan_words (suc n) ptr es m =
    let (after, m') = try_patches es ptr m in scan_words n (ptr + 1) after m'

abbrev pub all_successful : List Entry → Bool
all_successful [] = true
all_successful (e ∷ es) = succeeded (check_result e) && all_successful es

-- The two loops of `Patch`; `none` is `CRASH`.
unfoldable pub run_patches : ℕ → ℕ → List Entry → Memory → Option Memory
run_patches n ptr es m =
    let (after, m') = scan_words n ptr es m in if all_successful after then some m' else none
