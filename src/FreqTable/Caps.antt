-- ===== src/FreqTable/Caps.antt =====
-- The frequency limits of Source/ryazha-clk/sysmodule/src/mgr/clock_manager.cpp.
use rcu.Base.{
  ℕ, ◌-◌, ◌^◌, ◌≤◌, ◌<◌, ◌≡◌, ◌⊎◌, arith, Bool, true, ◌&&◌, ltb, leb, ◌==◌, ◌/=◌, if◌then◌else◌,
}
use rcu.Hoc.{Module, cpu, gpu, mem, Profile, profile_index, SocType, erista, mariko}
use rcu.Config.Key

-- `IsAssignableHz`.
unfoldable pub is_assignable_hz : Module → ℕ → Bool
is_assignable_hz cpu hz = leb 500000000 hz
is_assignable_hz mem hz = leb 665600000 hz
is_assignable_hz _ hz = true

-- The two inner `switch` statements of `GetMaxAllowedHz`, on the undervolt level of the GPU.
abbrev pub gpu_cap_handheld : SocType → ℕ → ℕ
gpu_cap_handheld erista uv = 460800000
gpu_cap_handheld mariko uv =
    if uv == 0
    then 614400000
    else if uv == 1
    then 691200000
    else if uv == 2
    then 768000000
    else 614400000

abbrev pub gpu_cap_charging : SocType → ℕ → ℕ
gpu_cap_charging erista uv = 768000000
gpu_cap_charging mariko uv =
    if uv == 0
    then 844800000
    else if uv == 1
    then 921600000
    else if uv == 2
    then 998400000
    else 844800000

abbrev pub is_erista : SocType → Bool
is_erista erista = true
is_erista mariko = Bool.false

-- The limits with `UncappedClocks` off, by module; 0 means that there is none.
abbrev pub capped_hz : (ℕ → ℕ) → SocType → Profile → Module → ℕ
capped_hz values soc profile gpu =
    if ltb (profile_index profile) 1
    then gpu_cap_handheld soc (values Key.mariko_gpu_uv)
    else if leb (profile_index profile) 2
    then gpu_cap_charging soc (values Key.mariko_gpu_uv)
    else 0
capped_hz values soc profile cpu =
    if ltb (profile_index profile) 1 && is_erista soc then 1581000000 else 2 ^ 32 - 1
capped_hz values soc profile _ = 0

-- `GetMaxAllowedHz`; `values` is `config::GetConfigValue`.
unfoldable pub max_allowed_hz : (ℕ → ℕ) → SocType → Module → Profile → ℕ
max_allowed_hz values soc m profile =
    if values Key.uncapped_clocks /= 0 then 2 ^ 32 - 1 else capped_hz values soc profile m

-- What the callers make of a limit: 0 lets everything pass.
abbrev pub Permits : ℕ → ℕ → Type 0
Permits cap hz = (cap ≡ 0) ⊎ (hz ≤ cap)

-- A frequency that a profile permits is permitted under every profile with a better supply (the order
-- of the profiles), for every module, SoC and setting.
pub max_allowed_mono :
    (values : ℕ → ℕ) (soc : SocType) (m : Module) (p q : Profile) (hz : ℕ)
    → hz < 2 ^ 32
    → profile_index p ≤ profile_index q
    → Permits (max_allowed_hz values soc m p) hz
    → Permits (max_allowed_hz values soc m q) hz
unfolding max_allowed_hz
max_allowed_mono values soc m p q hz w le h = ground arith
