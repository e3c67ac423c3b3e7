-- ===== src/Board.antt =====
-- The clocks of the board (Source/ryazha-clk/sysmodule/src/board/board_freq.cpp and board_profile.cpp):
-- `SetHz` and `GetHz` of the CPU, the GPU and the memory, and `GetProfile`. The session calls of PCV are one
-- rate for each module; sleeping and the second call for the CPU are left out.
pub mod Rates
use rcu.Base.{
  ℕ, ◌+◌, ◌-◌, ◌*◌, ◌/◌, ◌%◌, Bool, true, false, not, ◌&&◌, Option, none, some, ltb, ◌==◌, ◌/=◌,
  if◌then◌else◌,
}
use rcu.Hoc.{
  Module, cpu, gpu, mem, governor, display, module_index, Profile, handheld, handheld_charging_usb,
  handheld_charging_official, docked, SocType, erista, mariko,
}

-- The rates that PCV was told, `currentInjectedHz`, and the kHz that the driver of the GPU was told.
pub record Board : Type 0 where
  pub pcv_hz : Module → ℕ
  pub injected_hz : ℕ
  pub gm20b_khz : Option ℕ

abbrev pub is_mariko : SocType → Bool
is_mariko erista = false
is_mariko mariko = true

-- `useGm20b`: the frequencies of the GPU between two that PCV knows, below `MIDDLE_FREQ_TABLE_START_POINT`.
unfoldable pub use_gm20b : SocType → Module → ℕ → Bool
use_gm20b soc m hz =
    module_index m == 1
    && is_mariko soc
    && hz % 38400000 == 0
    && hz % 76800000 /= 0
    && ltb hz 1228800000

-- `pcvHz`: the next rate that PCV knows.
unfoldable pub pcv_hz_for : SocType → Module → ℕ → ℕ
pcv_hz_for soc m hz = if use_gm20b soc m hz then (hz + 76800000 - 1) / 76800000 * 76800000 else hz

abbrev pub tell_pcv : Module → ℕ → (Module → ℕ) → Module → ℕ
tell_pcv m hz rates n = if module_index n == module_index m then hz else rates n

-- `SetHz`, for a module up to `HocClkModule_MEM`; the governor and the display change nothing here.
unfoldable pub set_hz : SocType → Module → ℕ → Board → Board
set_hz soc m hz b =
    let told = record b { pcv_hz = tell_pcv m (pcv_hz_for soc m hz) b.pcv_hz } in
    let cleared = if module_index m == 1 then record told { injected_hz = 0 } else told in
    if ltb 2 (module_index m)
    then b
    else if use_gm20b soc m hz
    then record cleared { injected_hz = hz; gm20b_khz = some (hz / 1000) }
    else cleared

-- `GetHz`, where PCV reports the rate that it was told.
unfoldable pub get_hz : Board → Module → ℕ
get_hz b m = if module_index m == 1 && b.injected_hz /= 0 then b.injected_hz else b.pcv_hz m

-- `PsmChargerType`, as far as it is told apart.
pub data Charger : Type 0 where
  enough_power low_power other_charger : Charger

-- `GetProfile`, from the performance mode and the charger.
unfoldable pub get_profile : ℕ → Charger → Profile
get_profile mode enough_power = if mode /= 0 then docked else handheld_charging_official
get_profile mode low_power = if mode /= 0 then docked else handheld_charging_usb
get_profile mode other_charger = if mode /= 0 then docked else handheld
