-- ===== src/Loader/Regulators.antt =====
-- The patches of the memory's voltages and of the limit of the SoC's: `MemVoltHandler` of pcv/pcv.cpp,
-- `EmcVddqVolt` and `SocVoltLimit` of pcv/pcv_mariko.cpp.
pub mod Range
use rcu.Base.{
  ℕ, zero, suc, ◌+◌, ◌-◌, ◌*◌, ◌/◌, ◌%◌, Bool, true, false, not, ◌&&◌, ◌||◌, List, [], ◌∷◌, ltb,
  leb, ◌==◌, ◌/=◌, if◌then◌else◌, u8, u32, ◌^◌,
}
use rcu.Loader.Scan.{
  Memory, patch_offset, Result, success, invalid_regulator_entry, invalid_soc_volt_limit,
  i2c_failed, Patcher,
}
use rcu.Loader.Custom.{CustomizeTable}

-- `memcmp` with a list of words.
abbrev pub matches : List ℕ → ℕ → Memory → Bool
matches [] ptr m = true
matches (v ∷ vs) ptr m = m ptr == v && matches vs (ptr + 1) m

-- `validator` of `MemVoltHandler` at the `regulator` whose words begin at `at`.
unfoldable pub is_type_1 : ℕ → Memory → Bool
is_type_1 at m =
    m at == 1
    && m (at + 1) == 0
    && m (at + 4) == 1
    && m (at + 5) == 0x17
    && m (at + 6) == 12500
    && m (at + 7) == 600000

-- `emc_uv / uv_step * uv_step`.
abbrev pub round_down : ℕ → ℕ
round_down emc_uv = if emc_uv % 12500 /= 0 then emc_uv / 12500 * 12500 else emc_uv

-- `MemVoltHandler`: the pointer may be at `default_uv` or at `max_uv`.
unfoldable pub mem_volt_handler : CustomizeTable → Patcher
mem_volt_handler c ptr m =
    if not (is_type_1 (ptr - 8) m || is_type_1 (ptr - 9) m)
    then (invalid_regulator_entry, m)
    else if c.common_emc_mem_volt == 0
    then (success, m)
    else (success, patch_offset ptr (round_down c.common_emc_mem_volt) m)

abbrev pub uv_min : ℕ
uv_min = 250000

-- `validator` of `EmcVddqVolt`.
unfoldable pub is_type_3 : ℕ → Memory → Bool
is_type_3 at m =
    m at == 2 && m (at + 1) == 0 && m (at + 4) == 3 && m (at + 6) == 5000 && m (at + 8) == uv_min

-- `(emc_uv + uv_step - 1) / uv_step * uv_step`.
abbrev pub round_up : ℕ → ℕ
round_up emc_uv = if emc_uv % 5000 /= 0 then u32 (emc_uv + 4999) / 5000 * 5000 else emc_uv

-- The byte that `I2cSet_U8` sends to the regulator.
abbrev pub i2c_value : ℕ → ℕ
i2c_value emc_uv = u8 (u32 (emc_uv + 2 ^ 32 - uv_min) / 5000)

-- `EmcVddqVolt`, where `i2c` is what `I2cSet_U8` answers to the byte.
unfoldable pub emc_vddq_volt : CustomizeTable → (ℕ → Result) → Patcher
emc_vddq_volt c i2c ptr m =
    if not (is_type_3 (ptr - 11) m)
    then (invalid_regulator_entry, m)
    else if c.mariko_emc_vddq_volt == 0
    then (success, m)
    else let emc_uv = round_up c.mariko_emc_vddq_volt in
      (i2c (i2c_value emc_uv), patch_offset ptr emc_uv m)

abbrev pub zeros : ℕ → List ℕ
zeros zero = []
zeros (suc n) = 0 ∷ zeros n

abbrev pub from_step_up : ℕ → ℕ → List ℕ → List ℕ
from_step_up zero volt tail = tail
from_step_up (suc n) volt tail = volt ∷ from_step_up n (volt + 25) tail

-- `socVoltLimitArray`: 637, 650, then steps of 25 up to 1050, and zeros up to 32 words.
abbrev pub soc_volt_limit_array : List ℕ
soc_volt_limit_array = 637 ∷ 650 ∷ from_step_up 16 675 (zeros 14)

abbrev pub soc_volt_limit_official : ℕ
soc_volt_limit_official = 1050

-- `maxVolt / Step * Step`.
abbrev pub step_down : ℕ → ℕ
step_down volt = if volt % 25 /= 0 then volt / 25 * 25 else volt

-- The loop of `SocVoltLimit`: the rounds that are left, from index `i` on.
abbrev pub raise_limits : ℕ → ℕ → ℕ → ℕ → ℕ → Memory → Memory
raise_limits zero i volt max_volt ptr m = m
raise_limits (suc n) i volt max_volt ptr m =
    let after =
      raise_limits n (i + 1) (volt + 25) max_volt ptr (patch_offset (ptr + i) (volt + 25) m) in
    if ltb volt max_volt then after else m

-- `SocVoltLimit`: 32 words, of which 17 stand before the official maximum.
unfoldable pub soc_volt_limit : CustomizeTable → Patcher
soc_volt_limit c ptr m =
    if not (matches soc_volt_limit_array (ptr - 17) m)
    then (invalid_soc_volt_limit, m)
    else if c.mariko_soc_vmax == 0 || leb c.mariko_soc_vmax soc_volt_limit_official
    then (success, m)
    else (success, raise_limits 14 1 soc_volt_limit_official (step_down c.mariko_soc_vmax) ptr m)
