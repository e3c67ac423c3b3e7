-- ===== src/Dvfs/Hijack/Voltage.antt =====
-- The voltage that `ApplyGpuDvfs` writes stays within bounds.
use rcu.Base.{ℕ, ◌+◌, ◌-◌, ◌/◌, ◌≤◌, ◌<◌, ◌/=◌, min, if◌then◌else◌, u32, arith}
use rcu.Hoc.{SocType, erista, mariko}
use rcu.Dvfs.{get_minimum_gpu_vmin}
use rcu.Dvfs.Vmin.{vmin_within}
use rcu.Dvfs.Hijack.{dvfs_offset, dvfs_vmin}

offset_within :
    (v setting : ℕ)
    → 500 < v
    → v < 1000
    → let w = min (if v /= 0 then u32 (v + dvfs_offset setting) else v) 1000 in
      (v - 80 ≤ w) × (w ≤ 1000)
offset_within v setting a b = ground (arith, a, b)

-- For a frequency of the memory from 1601 MHz on, the voltage that `ApplyGpuDvfs` writes is at most 80 mV
-- below what `GetMinimumGpuVmin` gives, whatever the setting holds, and at most 1000 mV.
pub dvfs_vmin_within :
    (soc : SocType) (setting b target_hz : ℕ)
    → 1601000000 ≤ target_hz
    → (get_minimum_gpu_vmin soc (target_hz / 1000000) b - 80 ≤ dvfs_vmin soc setting b target_hz)
      × (dvfs_vmin soc setting b target_hz ≤ 1000)
unfolding dvfs_vmin
dvfs_vmin_within mariko setting b target_hz h =
    let w = vmin_within mariko (target_hz / 1000000) b (omega (arith, h)) in
    offset_within (get_minimum_gpu_vmin mariko (target_hz / 1000000) b) setting (omega (arith, w))
      (omega (arith, w))
dvfs_vmin_within erista setting b target_hz h =
    let w = vmin_within erista (target_hz / 1000000) b (omega (arith, h)) in
    offset_within (get_minimum_gpu_vmin erista (target_hz / 1000000) b) setting (omega (arith, w))
      (omega (arith, w))
