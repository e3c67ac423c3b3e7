-- ===== src/Dvfs/Vmin.antt =====
-- The voltage that `GetMinimumGpuVmin` gives, over the frequencies of the memory.
use rcu.Base.{ℕ, ◌-◌, ◌*◌, ◌≤◌, ◌<◌, ◌≡◌, ◌&&◌, ltb, leb, if◌then◌else◌, arith}
use rcu.Hoc.{SocType, erista, mariko}
use rcu.Dvfs.{
  volts_from, row_start, ramp_start_volt, mariko_row, erista_row, known_bracket, mariko_vmin,
  get_minimum_gpu_vmin,
}
use rcu.Dvfs.Tables.{
  first_volt_ge, first_volt_le, first_volt_mono, each_bracket, row_rises, erista_rises, IsRamp-mono,
  ramp_le, ramp_ge, ramp_start_le, le_trans,
}

-- Two branches, of which the first stays below the second, rise when each of them does.
branch_mono :
    (f g start r s v w : ℕ)
    → 1633 ≤ f
    → f ≤ g
    → r ≤ s
    → r ≤ 590
    → 590 ≤ w
    → v ≤ w
    → (if leb 1633 f && ltb f start then r else v) ≤ (if leb 1633 g && ltb g start then s else w)
branch_mono f g start r s v w hf h hr top low hv = ground (arith, hf, h, hr, top, low, hv)

mariko_mono :
    (f g b : ℕ)
    → 1633 ≤ f
    → f ≤ g
    → mariko_vmin f (known_bracket b) ≤ mariko_vmin g (known_bracket b)
mariko_mono f g b hf h =
    let row = mariko_row (known_bracket b) in
    let low = ramp_start_volt (known_bracket b) in
    branch_mono f g (row_start row) _ _ _ _ hf h (IsRamp-mono b f g h)
      (ramp_le f (row_start row) low (ramp_start_le (known_bracket b)))
      (first_volt_ge g 590 (volts_from 590 row) 800 (row_rises b))
      (first_volt_mono f g 590 (volts_from 590 row) 800 (row_rises b) h)

-- No voltage below 1601 MHz.
above_mono :
    (f g v w : ℕ)
    → 1633 ≤ f
    → f ≤ g
    → v ≤ w
    → (if leb f 1600 then 0 else v) ≤ (if leb g 1600 then 0 else w)
above_mono f g v w hf h hv = ground (arith, hf, h, hv)

-- The frequency of the memory may rise above 1632 MHz without the voltage that it needs falling, on
-- both SoCs and in every bracket.
pub vmin_mono :
    (soc : SocType) (f g b : ℕ)
    → 1633 ≤ f
    → f ≤ g
    → get_minimum_gpu_vmin soc f b ≤ get_minimum_gpu_vmin soc g b
unfolding get_minimum_gpu_vmin
vmin_mono mariko f g b hf h = above_mono f g _ _ hf h (mariko_mono f g b hf h)
vmin_mono erista f g b hf h = above_mono f g _ _ hf h (
    first_volt_mono f g 695 (erista_row (10 * known_bracket b)) (815 - 10 * known_bracket b)
      (erista_rises b) h)

-- The voltages in mV between which the code stays, per SoC.
abbrev pub lowest : SocType → ℕ
lowest mariko = 525
lowest erista = 695

abbrev pub highest : SocType → ℕ
highest mariko = 800
highest erista = 815

branch_within :
    (f start r v : ℕ)
    → 525 ≤ r
    → r ≤ 590
    → 590 ≤ v
    → v ≤ 800
    → let x = (if leb 1633 f && ltb f start then r else v) in (525 ≤ x) × (x ≤ 800)
branch_within f start r v a b c d = ground (arith, a, b, c, d)

low_start : (b : ℕ) → 525 ≤ ramp_start_volt b
low_start b = ground arith

above_within :
    (f v lo hi : ℕ)
    → 1600 < f
    → lo ≤ v
    → v ≤ hi
    → let x = (if leb f 1600 then 0 else v) in (lo ≤ x) × (x ≤ hi)
above_within f v lo hi h a b = ground (arith, h, a, b)

mariko_within :
    (f b : ℕ) → (525 ≤ mariko_vmin f (known_bracket b)) × (mariko_vmin f (known_bracket b) ≤ 800)
mariko_within f b =
    let row = mariko_row (known_bracket b) in
    let low = ramp_start_volt (known_bracket b) in
    let at = ramp_start_le (known_bracket b) in
    let low_le = low_start (known_bracket b) in
    let ramp = ramp_ge f (row_start row) low at in
    branch_within f (row_start row) _ _ (le_trans low_le ramp) (ramp_le f (row_start row) low at)
      (first_volt_ge f 590 (volts_from 590 row) 800 (row_rises b))
      (first_volt_le f 590 (volts_from 590 row) 800 (row_rises b))

-- A frequency of the memory above 1600 MHz needs a voltage between the bounds of the SoC, in every
-- bracket.
pub vmin_within :
    (soc : SocType) (f b : ℕ)
    → 1600 < f
    → (lowest soc ≤ get_minimum_gpu_vmin soc f b) × (get_minimum_gpu_vmin soc f b ≤ highest soc)
unfolding get_minimum_gpu_vmin
vmin_within mariko f b h =
    let within = mariko_within f b in above_within f _ 525 800 h within.0 within.1
vmin_within erista f b h =
    let top = 815 - 10 * known_bracket b in
    let row = erista_row (10 * known_bracket b) in
    above_within f _ 695 815 h (first_volt_ge f 695 row top (erista_rises b))
      (le_trans (first_volt_le f 695 row top (erista_rises b)) (omega arith))

abbrev Dips : ℕ → ℕ → Type 0
Dips f k = (mariko_vmin f k ≡ 590) × (mariko_vmin 1633 k < 590)

dips : (f b : ℕ) → 1600 < f → f < 1633 → Dips f (known_bracket b)
dips f b h l =
    each_bracket (Dips f) (ground (arith, h, l), omega arith) (ground (arith, h, l), omega arith)
      (ground (arith, h, l), omega arith) (ground (arith, h, l), omega arith) b

-- On Mariko, 1601 to 1632 MHz need 590 mV, and 1633 MHz less: the voltage falls there.
pub vmin_dip :
    (f b : ℕ)
    → 1600 < f
    → f < 1633
    → (get_minimum_gpu_vmin mariko f b ≡ 590) × (get_minimum_gpu_vmin mariko 1633 b < 590)
unfolding get_minimum_gpu_vmin
vmin_dip f b h l = let (d, e) = dips f b h l in (ground (arith, h, d), e)
