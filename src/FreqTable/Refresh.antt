-- ===== src/FreqTable/Refresh.antt =====
-- `RefreshFreqTableRow` of Source/ryazha-clk/sysmodule/src/mgr/clock_manager.cpp: the table of a module
-- from the rates that PCV reports. Logging is left out.
pub mod Order
pub mod Members
use rcu.Base.{
  ℕ, zero, suc, ◌+◌, ◌-◌, ◌%◌, Bool, true, false, not, ◌&&◌, List, [], ◌∷◌, ◌++◌, ltb, leb, ◌==◌,
  ◌/=◌, u32, length, if◌then◌else◌,
}
use rcu.Hoc.{Module, cpu, gpu, mem, governor, display, SocType, erista, mariko}
use rcu.Config.Key
use rcu.FreqTable.{FreqTable}
use rcu.FreqTable.Caps.{is_assignable_hz}

-- `HOCCLK_FREQ_LIST_MAX`.
abbrev pub freq_list_max : ℕ
freq_list_max = 48

abbrev pub k_step : ℕ
k_step = 38400000

abbrev pub k_pcv_step : ℕ
k_pcv_step = 76800000

abbrev pub contains : ℕ → List ℕ → Bool
contains f [] = false
contains f (x ∷ xs) = if x == f then true else contains f xs

-- The outer loop over `i` that sets `kMax` to `freqs[i] + kStep` where that rate is reported too. The
-- last one found stays.
paired_max : List ℕ → List ℕ → ℕ → ℕ
paired_max freqs [] k_max = k_max
paired_max freqs (f ∷ rest) k_max =
    paired_max freqs rest (if contains (u32 (f + k_step)) freqs then u32 (f + k_step) else k_max)

largest : List ℕ → ℕ → ℕ
largest [] k_max = k_max
largest (f ∷ rest) k_max = largest rest (if ltb k_max f then f else k_max)

unfoldable pub top_of_grid : List ℕ → ℕ
unfolding paired_max largest
top_of_grid freqs =
    let k_max = paired_max freqs freqs 0 in if k_max == 0 then largest freqs 0 else k_max

-- The loop over `f`, with `room` for `HOCCLK_FREQ_LIST_MAX - count`. `f` wraps at 32 bits.
pub grid_scan : Bool → List ℕ → ℕ → ℕ → ℕ → ℕ → List ℕ
grid_scan middle freqs k_max zero f room = []
grid_scan middle freqs k_max (suc fuel) f room =
    let skip = grid_scan middle freqs k_max fuel (u32 (f + k_step)) room in
    let put = f ∷ grid_scan middle freqs k_max fuel (u32 (f + k_step)) (room - 1) in
    if leb f k_max && ltb 0 room
    then if f % k_pcv_step /= 0
      then if middle then put else skip
      else if contains f freqs
      then put
      else skip
    else []

-- The loop over the rates above the grid.
pub tail_scan : Module → ℕ → List ℕ → ℕ → List ℕ
tail_scan m k_max [] room = []
tail_scan m k_max (f ∷ rest) room =
    let put = f ∷ tail_scan m k_max rest (room - 1) in
    let skip = tail_scan m k_max rest room in
    if ltb 0 room then if ltb k_max f && is_assignable_hz m f then put else skip else []

-- More rounds than there are multiples of `kStep` in 32 bits.
abbrev pub grid_fuel : ℕ
grid_fuel = 112

unfoldable pub mariko_gpu_row : Bool → List ℕ → FreqTable
unfolding top_of_grid grid_scan tail_scan
mariko_gpu_row middle freqs =
    let k_max = top_of_grid freqs in
    let grid = grid_scan middle freqs k_max grid_fuel k_pcv_step freq_list_max in
    grid ++ tail_scan gpu k_max freqs (freq_list_max - length grid)

-- `eristaGpuVoltMap`: the setting with the voltage of each rate.
abbrev pub erista_gpu_volt_map : List (ℕ × ℕ)
erista_gpu_volt_map =
    (76800000, Key.g_volt_e_76800 + 0)
    ∷ (115200000, Key.g_volt_e_76800 + 1)
    ∷ (153600000, Key.g_volt_e_76800 + 2)
    ∷ (192000000, Key.g_volt_e_76800 + 3)
    ∷ (230400000, Key.g_volt_e_76800 + 4)
    ∷ (268800000, Key.g_volt_e_76800 + 5)
    ∷ (307200000, Key.g_volt_e_76800 + 6)
    ∷ (345600000, Key.g_volt_e_76800 + 7)
    ∷ (384000000, Key.g_volt_e_76800 + 8)
    ∷ (422400000, Key.g_volt_e_76800 + 9)
    ∷ (460800000, Key.g_volt_e_76800 + 10)
    ∷ (499200000, Key.g_volt_e_76800 + 11)
    ∷ (537600000, Key.g_volt_e_76800 + 12)
    ∷ (576000000, Key.g_volt_e_76800 + 13)
    ∷ (614400000, Key.g_volt_e_76800 + 14)
    ∷ (652800000, Key.g_volt_e_76800 + 15)
    ∷ (691200000, Key.g_volt_e_76800 + 16)
    ∷ (729600000, Key.g_volt_e_76800 + 17)
    ∷ (768000000, Key.g_volt_e_76800 + 18)
    ∷ (806400000, Key.g_volt_e_76800 + 19)
    ∷ (844800000, Key.g_volt_e_76800 + 20)
    ∷ (883200000, Key.g_volt_e_76800 + 21)
    ∷ (921600000, Key.g_volt_e_76800 + 22)
    ∷ (960000000, Key.g_volt_e_76800 + 23)
    ∷ (998400000, Key.g_volt_e_76800 + 24)
    ∷ (1036800000, Key.g_volt_e_76800 + 25)
    ∷ (1075200000, Key.g_volt_e_76800 + 26)
    ∷ []

-- A rate is left out where the first entry of the map for it has the voltage 2000.
abbrev pub is_blocked : (ℕ → ℕ) → ℕ → List (ℕ × ℕ) → Bool
is_blocked values f [] = false
is_blocked values f ((hz, key) ∷ rest) =
    if hz == f then values key == 2000 else is_blocked values f rest

abbrev pub keeps : (ℕ → ℕ) → SocType → Module → ℕ → Bool
keeps values erista gpu f = is_assignable_hz gpu f && not (is_blocked values f erista_gpu_volt_map)
keeps values _ m f = is_assignable_hz m f

pub plain_row : (ℕ → Bool) → List ℕ → FreqTable
plain_row keep [] = []
plain_row keep (f ∷ rest) =
    let put = f ∷ plain_row keep rest in if keep f then put else plain_row keep rest

abbrev pub row : (ℕ → ℕ) → SocType → Module → List ℕ → FreqTable
row values mariko gpu freqs = mariko_gpu_row (values Key.mariko_middle_freqs /= 0) freqs
row values soc m freqs = plain_row (keeps values soc m) freqs

-- `RefreshFreqTableRow`: `freqs` are the `count` rates that `board::GetFreqList` returns.
unfoldable pub refresh_freq_table_row : (ℕ → ℕ) → SocType → Module → List ℕ → FreqTable
unfolding mariko_gpu_row plain_row
refresh_freq_table_row values soc m freqs = row values soc m freqs
