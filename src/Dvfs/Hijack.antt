-- ===== src/Dvfs/Hijack.antt =====
-- The voltage table of the GPU in PCV: what is cached of it, and what is written over it
-- (`PcvHijackGpuVolts` of Source/ryazha-clk/sysmodule/src/board/board_volt.cpp, `ApplyGpuDvfs` of
-- Source/ryazha-clk/sysmodule/src/mgr/clock_manager.cpp).
pub mod Raised
pub mod Voltage
use rcu.Hoc.{SocType}
use rcu.Dvfs.{get_minimum_gpu_vmin}
use rcu.Base.{
  ◌/◌, ◌^◌, ℕ, zero, suc, ◌+◌, ◌-◌, Bool, true, false, not, ◌&&◌, List, [], ◌∷◌, map, ltb, leb,
  ◌==◌, ◌/=◌, min, if◌then◌else◌, u32,
}

-- `voltData`, and the table in the memory of PCV.
pub record VoltData : Type 0 where
  pub volt_table : List ℕ
  pub ram_vmin : ℕ
  pub pcv_table : List ℕ

-- The body of the loop of `PcvHijackGpuVolts`.
abbrev pub raise_entry : ℕ → ℕ → ℕ
raise_entry vmin entry = if entry /= 0 && leb entry vmin then vmin else entry

-- `PcvHijackGpuVolts`; `written` tells whether PCV was found and `svcWriteDebugProcessMemory` succeeded.
unfoldable pub pcv_hijack_gpu_volts : Bool → ℕ → VoltData → VoltData
pcv_hijack_gpu_volts written vmin d =
    if d.ram_vmin == vmin
    then d
    else if written
    then record d { pcv_table = map (raise_entry vmin) d.volt_table; ram_vmin = vmin }
    else d

-- `dvfsOffset` of `ApplyGpuDvfs` as a `uint32_t`: the setting cut to 32 bits, and no lower than -80.
abbrev pub dvfs_offset : ℕ → ℕ
dvfs_offset setting =
    let offset = u32 setting in
    if leb (2 ^ 31) offset && ltb offset (2 ^ 32 - 80) then 2 ^ 32 - 80 else offset

-- The voltage that `ApplyGpuDvfs` writes, for a frequency of the memory in Hz.
unfoldable pub dvfs_vmin : SocType → ℕ → ℕ → ℕ → ℕ
dvfs_vmin soc setting bracket target_hz =
    let vmin = get_minimum_gpu_vmin soc (target_hz / 1000000) bracket in
    min (if vmin /= 0 then u32 (vmin + dvfs_offset setting) else vmin) 1000
