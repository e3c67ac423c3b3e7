-- ===== src/Loader/Regulators/Range.antt =====
-- The voltages that are written for a table that has passed `SafetyCheck`.
use rcu.Base.{
  ℕ, zero, suc, ◌+◌, ◌-◌, ◌*◌, ◌%◌, ◌≤◌, ◌<◌, ◌≡◌, ◌≢◌, refl, ◌∙◌, true, false, not, ◌||◌, ◌⊎◌, inl,
  inr, arith, ltb, leb, ◌==◌, if◌then◌else◌, Bool-cases, if_then_else_ind, lt→ltb, leb→le,
  leb-false,
}
use rcu.Loader.Scan.{
  Memory, patch_offset, Result, success, invalid_regulator_entry, invalid_soc_volt_limit,
}
use rcu.Loader.Custom.{CustomizeTable}
use rcu.Loader.Safety.{safety_check}
use rcu.Loader.Safety.Limits.{safe_mem_volt, safe_vddq, safe_soc_vmax}
use rcu.Loader.Regulators.{
  is_type_1, round_down, mem_volt_handler, is_type_3, round_up, i2c_value, emc_vddq_volt, step_down,
  raise_limits, matches, soc_volt_limit_array, soc_volt_limit,
}

not_zero : (v : ℕ) → v ≢ 0 → v == 0 ≡ false
not_zero v ne = ground arith

-- Rounding between limits that are multiples themselves.
round_down-within :
    (v : ℕ)
    → 912500 ≤ v
    → v ≤ 1350000
    → (912500 ≤ round_down v)
      × (round_down v ≤ v)
      × (v < round_down v + 12500)
      × (round_down v % 12500 ≡ 0)
round_down-within v lo hi = ground arith

round_up-within :
    (v : ℕ)
    → 400000 ≤ v
    → v ≤ 750000
    → (v ≤ round_up v)
      × (round_up v < v + 5000)
      × (round_up v ≤ 750000)
      × (round_up v % 5000 ≡ 0)
      × (i2c_value (round_up v) * 5000 + 250000 ≡ round_up v)
round_up-within v lo hi = ground arith

-- No other word is written.
patch_offset-other : (at v i : ℕ) (m : Memory) → i ≢ at → patch_offset at v m i ≡ m i
patch_offset-other at v i m ne = ground arith

patch_offset-at : (at v : ℕ) (m : Memory) → patch_offset at v m at ≡ v
patch_offset-at at v m = ground arith

-- For a table that has passed `SafetyCheck` and asks for a voltage, `MemVoltHandler` fails and changes
-- nothing, or it writes to its word and to no other a multiple of 12.5 mV between 912.5 and 1350 mV,
-- the highest that is not above the one that is asked for.
pub mem_volt_handler-within :
    (c : CustomizeTable) (ptr : ℕ) (m : Memory)
    → safety_check c ≡ true
    → c.common_emc_mem_volt ≢ 0
    → (mem_volt_handler c ptr m ≡ (invalid_regulator_entry, m))
      ⊎ ((v : ℕ) × (mem_volt_handler c ptr m ≡ (success, patch_offset ptr v m))
          × (912500 ≤ v)
          × (v ≤ c.common_emc_mem_volt)
          × (c.common_emc_mem_volt < v + 12500)
          × (v ≤ 1350000)
          × (v % 12500 ≡ 0))
unfolding mem_volt_handler
mem_volt_handler-within c ptr m safe asked =
    let (lo, hi) = safe_mem_volt c safe asked in
    let (a, b, d, e) = round_down-within c.common_emc_mem_volt lo hi in
    elim (Bool-cases (not (is_type_1 (ptr - 8) m || is_type_1 (ptr - 9) m))) [
      | inl bad ↦ inl (rw bad refl)
      | inr fine ↦ inr (
        round_down c.common_emc_mem_volt,
        rw (fine, not_zero c.common_emc_mem_volt asked) refl,
        a,
        b,
        d,
        omega (arith, b, hi),
        e,
      )
    ]

-- For a table that has passed `SafetyCheck` and asks for a voltage, `EmcVddqVolt` fails and changes
-- nothing, or it writes to its word a multiple of 5 mV that is at most 750 mV and the lowest not below
-- the one that is asked for, and sends the regulator the byte that stands for just that voltage, whose
-- answer is its result.
pub emc_vddq_volt-within :
    (c : CustomizeTable) (i2c : ℕ → Result) (ptr : ℕ) (m : Memory)
    → safety_check c ≡ true
    → c.mariko_emc_vddq_volt ≢ 0
    → (emc_vddq_volt c i2c ptr m ≡ (invalid_regulator_entry, m))
      ⊎ ((v byte : ℕ) × (emc_vddq_volt c i2c ptr m ≡ (i2c byte, patch_offset ptr v m))
          × (c.mariko_emc_vddq_volt ≤ v)
          × (v < c.mariko_emc_vddq_volt + 5000)
          × (v ≤ 750000)
          × (v % 5000 ≡ 0)
          × (byte * 5000 + 250000 ≡ v))
unfolding emc_vddq_volt
emc_vddq_volt-within c i2c ptr m safe asked =
    let (lo, hi) = safe_vddq c safe asked in
    let (a, b, d, e, f) = round_up-within c.mariko_emc_vddq_volt lo hi in
    elim (Bool-cases (not (is_type_3 (ptr - 11) m))) [
      | inl bad ↦ inl (rw bad refl)
      | inr fine ↦ inr (
        round_up c.mariko_emc_vddq_volt,
        i2c_value (round_up c.mariko_emc_vddq_volt),
        rw (fine, not_zero c.mariko_emc_vddq_volt asked) refl,
        a,
        b,
        d,
        e,
        f,
      )
    ]

ltb_no : (a b : ℕ) → b ≤ a → ltb a b ≡ false
ltb_no a b h = ground arith

above : (v : ℕ) → 1050 < v → v == 0 || leb v 1050 ≡ false
above v h = ground arith

-- The loop of `SocVoltLimit` leaves the words before its index, and writes the steps below the limit.
raise_limits-before :
    (n i volt max_volt ptr : ℕ) (m : Memory) (j : ℕ)
    → j < ptr + i
    → raise_limits n i volt max_volt ptr m j ≡ m j
raise_limits-before zero i volt max_volt ptr m j lt = refl
raise_limits-before (suc n) i volt max_volt ptr m j lt =
    if_then_else_ind (λ (x : Memory). x j ≡ m j) (ltb volt max_volt) _ _
      (λ e.
        raise_limits-before n (i + 1) (volt + 25) max_volt ptr _ j (omega arith)
        ∙ patch_offset-other (ptr + i) (volt + 25) j m (λ e. omega (arith, e, lt)))
      (λ e. refl)

raise_limits-raised :
    (n i d volt max_volt ptr : ℕ) (m : Memory) (j : ℕ)
    → j ≡ ptr + i + d
    → d < n
    → volt + 25 * d < max_volt
    → raise_limits n i volt max_volt ptr m j ≡ volt + 25 * d + 25
raise_limits-raised zero i d volt max_volt ptr m j e lt more = absurd (omega arith)
raise_limits-raised (suc n) i zero volt max_volt ptr m j e lt more =
    rw (lt→ltb volt max_volt (omega arith))
      (raise_limits-before n (i + 1) (volt + 25) max_volt ptr _ j (omega arith) ∙ ground arith)
raise_limits-raised (suc n) i (suc d) volt max_volt ptr m j e lt more =
    rw (lt→ltb volt max_volt (omega arith)) (
      omega (
        arith,
        raise_limits-raised n (i + 1) d (volt + 25) max_volt ptr
            (patch_offset (ptr + i) (volt + 25) m) j (omega arith) (omega arith) (omega arith),
      ))

raise_limits-kept :
    (n i d volt max_volt ptr : ℕ) (m : Memory) (j : ℕ)
    → j ≡ ptr + i + d
    → max_volt ≤ volt + 25 * d
    → raise_limits n i volt max_volt ptr m j ≡ m j
raise_limits-kept zero i d volt max_volt ptr m j e enough = refl
raise_limits-kept (suc n) i zero volt max_volt ptr m j e enough =
    rw (ltb_no volt max_volt (omega arith)) refl
raise_limits-kept (suc n) i (suc d) volt max_volt ptr m j e enough =
    if_then_else_ind (λ (x : Memory). x j ≡ m j) (ltb volt max_volt) _ _
      (λ t.
        raise_limits-kept n (i + 1) d (volt + 25) max_volt ptr _ j (omega arith) (omega arith)
        ∙ patch_offset-other (ptr + i) (volt + 25) j m (λ f. omega (arith, e, f)))
      (λ t. refl)

round_25 :
    (v d : ℕ)
    → (1075 + 25 * d ≤ v → 1050 + 25 * d < step_down v)
      × (v < 1075 + 25 * d → step_down v ≤ 1050 + 25 * d)
round_25 v d = ground arith

-- For a table that has passed `SafetyCheck` and asks for a limit above 1050 mV, `SocVoltLimit` fails
-- and changes nothing, or it continues the list of limits behind 1050 mV in steps of 25 mV up to the
-- limit that is asked for, and changes no other word.
pub soc_volt_limit-raised :
    (c : CustomizeTable) (ptr d k : ℕ) (m : Memory)
    → safety_check c ≡ true
    → 1050 < c.mariko_soc_vmax
    → (soc_volt_limit c ptr m ≡ (invalid_soc_volt_limit, m))
      ⊎ (((soc_volt_limit c ptr m).0 ≡ success)
          × ((soc_volt_limit c ptr m).1 (ptr + 1 + d)
              ≡ (if leb (1075 + 25 * d) c.mariko_soc_vmax then 1075 + 25 * d else m (ptr + 1 + d)))
          × ((soc_volt_limit c ptr m).1 (ptr - k) ≡ m (ptr - k)))
unfolding soc_volt_limit
soc_volt_limit-raised c ptr d k m safe asked =
    elim (Bool-cases (not (matches soc_volt_limit_array (ptr - 17) m))) [
      | inl bad ↦ inl (rw bad refl)
      | inr fine ↦ inr (
          rw (fine, above c.mariko_soc_vmax asked)
            (
              refl,
              elim (Bool-cases (leb (1075 + 25 * d) c.mariko_soc_vmax)) [
                | inl le ↦ rw le (
                    omega (
                      arith,
                      raise_limits-raised 14 1 d 1050 (step_down c.mariko_soc_vmax) ptr m
                          (ptr + 1 + d) refl
                          (omega (
                            arith,
                            leb→le _ _ le,
                            safe_soc_vmax c safe (λ e. omega (arith, e, asked)),
                          ))
                          ((round_25 c.mariko_soc_vmax d).0 (leb→le _ _ le)),
                    ))
                | inr gt ↦ rw gt (
                    raise_limits-kept 14 1 d 1050 (step_down c.mariko_soc_vmax) ptr m (ptr + 1 + d)
                      refl ((round_25 c.mariko_soc_vmax d).1 (leb-false _ _ gt)))
              ],
              raise_limits-before 14 1 1050 (step_down c.mariko_soc_vmax) ptr m (ptr - k)
                  (omega arith),
            ))
    ]
