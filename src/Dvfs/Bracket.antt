-- ===== src/Dvfs/Bracket.antt =====
-- The voltage that `GetMinimumGpuVmin` gives, over the brackets of the GPU.
use rcu.Base.{
  ℕ, zero, suc, ◌-◌, ◌*◌, ◌≤◌, ◌<◌, ◌≡◌, ◌⊎◌, inl, inr, refl, sym, subst, true, ◌&&◌, ltb, leb,
  if◌then◌else◌, arith,
}
use rcu.Hoc.{SocType, erista, mariko}
use rcu.Dvfs.{
  volts_from, row_start, ramp_volt, ramp_start_volt, mariko_row, erista_row, known_bracket,
  mariko_vmin, erista_vmin, get_minimum_gpu_vmin,
}
use rcu.Dvfs.Tables.{
  rises, first_volt_ge, is_better, first_volt_better, ramp_le, ramp_start_le, le_trans,
}

better_branch :
    (f start start' r r' v v' : ℕ)
    → start ≤ start'
    → (1633 ≤ f → f < start → r' ≤ r)
    → r' ≤ 590
    → 590 ≤ v
    → v' ≤ v
    → (if leb 1633 f && ltb f start' then r' else v') ≤ (if leb 1633 f && ltb f start then r else v)
better_branch f start start' r r' v v' hs hr top low hv = ground (arith, hs, hr, top, low, hv)

abbrev IsLowerRamp : ℕ → Type 0
IsLowerRamp b =
    (f : ℕ)
    → 1633 ≤ f
    → f < row_start (mariko_row b)
    → ramp_volt f (row_start (mariko_row (suc b))) (ramp_start_volt (suc b))
      ≤ ramp_volt f (row_start (mariko_row b)) (ramp_start_volt b)

mariko_better :
    (f b : ℕ)
    → row_start (mariko_row b) ≤ row_start (mariko_row (suc b))
    → IsLowerRamp b
    → is_better (volts_from 590 (mariko_row (suc b))) (volts_from 590 (mariko_row b)) ≡ true
    → rises 590 (volts_from 590 (mariko_row b)) 800 ≡ true
    → mariko_vmin f (suc b) ≤ mariko_vmin f b
mariko_better f b hs lower better rise =
    better_branch f (row_start (mariko_row b)) (row_start (mariko_row (suc b))) _ _ _ _ hs (lower f)
      (ramp_le f (row_start (mariko_row (suc b))) (ramp_start_volt (suc b)) (ramp_start_le (suc b)))
      (first_volt_ge f 590 (volts_from 590 (mariko_row b)) 800 rise)
      (first_volt_better f 590 (volts_from 590 (mariko_row (suc b))) (volts_from 590 (mariko_row b))
        800 800 better rise (omega arith))

mariko_next : (f b : ℕ) → suc b < 4 → mariko_vmin f (suc b) ≤ mariko_vmin f b
mariko_next f zero h = mariko_better f 0 (omega arith) (λ g a l. ground (arith, a, l)) refl refl
mariko_next f (suc zero) h =
    mariko_better f 1 (omega arith) (λ g a l. ground (arith, a, l)) refl refl
mariko_next f (suc (suc zero)) h =
    mariko_better f 2 (omega arith) (λ g a l. ground (arith, a, l)) refl refl
mariko_next f (suc (suc (suc b))) h = absurd (omega (arith, h))

erista_better :
    (f b : ℕ)
    → is_better (erista_row (10 * suc b)) (erista_row (10 * b)) ≡ true
    → rises 695 (erista_row (10 * b)) (815 - 10 * b) ≡ true
    → erista_vmin f (suc b) ≤ erista_vmin f b
erista_better f b better rise =
    first_volt_better f 695 (erista_row (10 * suc b)) (erista_row (10 * b)) (815 - 10 * suc b)
      (815 - 10 * b) better rise (omega arith)

erista_next : (f b : ℕ) → suc b < 4 → erista_vmin f (suc b) ≤ erista_vmin f b
erista_next f zero h = erista_better f 0 refl refl
erista_next f (suc zero) h = erista_better f 1 refl refl
erista_next f (suc (suc zero)) h = erista_better f 2 refl refl
erista_next f (suc (suc (suc b))) h = absurd (omega (arith, h))

known : (b : ℕ) → b < 4 → known_bracket b ≡ b
known b h = ground (arith, h)

below_mono : (f v w : ℕ) → v ≤ w → (if leb f 1600 then 0 else v) ≤ (if leb f 1600 then 0 else w)
below_mono f v w h = ground (arith, h)

vmin_next :
    (soc : SocType) (f b : ℕ)
    → suc b < 4
    → get_minimum_gpu_vmin soc f (suc b) ≤ get_minimum_gpu_vmin soc f b
unfolding get_minimum_gpu_vmin
vmin_next mariko f b h = below_mono f _ _ (
    subst (λ k. mariko_vmin f k ≤ mariko_vmin f (known_bracket b)) (sym (known (suc b) h))
      (subst (λ k. mariko_vmin f (suc b) ≤ mariko_vmin f k) (sym (known b (omega (arith, h))))
        (mariko_next f b h)))
vmin_next erista f b h = below_mono f _ _ (
    subst (λ k. erista_vmin f k ≤ erista_vmin f (known_bracket b)) (sym (known (suc b) h))
      (subst (λ k. erista_vmin f (suc b) ≤ erista_vmin f k) (sym (known b (omega (arith, h))))
        (erista_next f b h)))

zero_of_le : (b : ℕ) → b ≤ 0 → 0 ≡ b
zero_of_le b h = omega (arith, h)

le_split : (b c : ℕ) → b ≤ suc c → (b ≡ suc c) ⊎ (b ≤ c)
le_split b c h = ground (arith, h)

-- A GPU in a higher bracket never needs a higher voltage at the same frequency of the memory.
pub vmin_bracket :
    (soc : SocType) (f b c : ℕ)
    → b ≤ c
    → c < 4
    → get_minimum_gpu_vmin soc f c ≤ get_minimum_gpu_vmin soc f b
vmin_bracket soc f b zero h l =
    subst (λ k. get_minimum_gpu_vmin soc f 0 ≤ get_minimum_gpu_vmin soc f k) (zero_of_le b h)
      (omega arith)
vmin_bracket soc f b (suc c) h l = elim (le_split b c h) [
  | inl e ↦
      subst (λ k. get_minimum_gpu_vmin soc f (suc c) ≤ get_minimum_gpu_vmin soc f k) (sym e)
        (omega arith)
  | inr k ↦ le_trans (vmin_next soc f c l) (vmin_bracket soc f b c k (omega (arith, l)))
]
