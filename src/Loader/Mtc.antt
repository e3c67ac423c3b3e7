-- ===== src/Loader/Mtc.antt =====
-- The list of memory clocks that is made for Mariko: `MtcGenerateFreqTables`, `MtcGenerateJedecTable`
-- and `MtcGenerate133StepTable` of pcv/pcv_mariko.cpp. Clocks are in kHz.
pub mod Lists
pub mod Steps
pub mod Order
use rcu.Base.{
  ℕ, zero, suc, ◌+◌, ◌*◌, ◌/◌, ◌^◌, Bool, true, false, Option, none, some, List, [], ◌∷◌, ◌++◌, ltb,
  leb, ◌==◌, ◌/=◌, if◌then◌else◌, ◌>>=◌, take, u32,
}
use rcu.Loader.Custom.{CustomizeTable, dvfs_table_entry_limit}

abbrev pub emc_clk_os_limit : ℕ
emc_clk_os_limit = 1600000

abbrev pub emc_list_default : List ℕ
emc_list_default = 204000 ∷ 1331200 ∷ 1600000 ∷ []

abbrev pub jedec_freqs : List ℕ
jedec_freqs = 1866000 ∷ 1996000 ∷ 2133000 ∷ 2400000 ∷ 2666000 ∷ 2933000 ∷ 3200000 ∷ []

abbrev pub step_freqs_133 : List ℕ
step_freqs_133 =
    1733000 ∷ 1866000 ∷ 2000000 ∷ 2133000 ∷ 2266000 ∷ 2400000 ∷ 2533000 ∷ 2666000 ∷ 2800000
    ∷ 2933000 ∷ 3066000 ∷ 3200000 ∷ 3333000 ∷ 3466000 ∷ []

-- The loop over one of these lists: the clocks up to the first one above the limit.
abbrev pub up_to : ℕ → List ℕ → List ℕ
up_to max [] = []
up_to max (f ∷ fs) = let rest = up_to max fs in if leb f max then f ∷ rest else []

-- `if (newEmcList.back() != C.marikoEmcMaxClock) newEmcList.push_back(…)`.
abbrev pub push_max : ℕ → List ℕ → List ℕ
push_max max [] = max ∷ []
push_max max (f ∷ []) = if f /= max then f ∷ max ∷ [] else f ∷ []
push_max max (f ∷ g ∷ fs) = f ∷ push_max max (g ∷ fs)

-- `newEmcList.resize(std::min(newEmcList.size(), DvfsTableEntryLimit))`.
abbrev pub resize : List ℕ → List ℕ
resize fs = take dvfs_table_entry_limit fs

-- `MtcGenerateJedecTable` and `MtcGenerate133StepTable`, behind the default list.
abbrev pub listed_table : ℕ → List ℕ → List ℕ
listed_table max freqs = resize (push_max max (emc_list_default ++ up_to max freqs))

-- `newFreq` in the round `step_index`.
unfoldable pub new_freq : ℕ → ℕ → ℕ
new_freq step_rate step_index = u32 (emc_clk_os_limit + step_index * step_rate) / 1000 * 1000

-- The loop over the steps, with fuel for its rounds.
unfoldable pub step_loop : ℕ → ℕ → ℕ → ℕ → List ℕ → Option (List ℕ)
step_loop zero step_rate step_index max fs = none
step_loop (suc fuel) step_rate step_index max fs =
    let f = new_freq step_rate step_index in
    let rest = step_loop fuel step_rate (suc step_index) max (fs ++ (f ∷ [])) in
    if ltb max f then some (push_max max fs) else rest

-- Rounds that are enough for a limit that has passed `SafetyCheck`.
abbrev pub step_fuel : ℕ
step_fuel = 40

abbrev pub stepped_table : ℕ → ℕ → Option (List ℕ)
stepped_table max step_rate = do
  fs ← step_loop step_fuel step_rate 1 max emc_list_default
  some (resize fs)

-- `MtcGenerateFreqTables`, which leaves `newEmcList` as it is for a limit up to 1600 MHz.
unfoldable pub mtc_generate_freq_tables : CustomizeTable → List ℕ → Option (List ℕ)
mtc_generate_freq_tables c new_emc_list =
    let max = c.mariko_emc_max_clock in
    if leb max emc_clk_os_limit
    then some new_emc_list
    else if c.step_mode == 1
    then stepped_table max 100000
    else if c.step_mode == 2
    then some (listed_table max jedec_freqs)
    else if c.step_mode == 3
    then some (listed_table max step_freqs_133)
    else stepped_table max 66667
