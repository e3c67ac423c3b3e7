-- ===== src/Config/Values/Valid.antt =====
-- Settings that hold values that they may have.
use rcu.Base.{all_below, all_below_sound, ℕ, ◌<◌, ◌≡◌, refl, true, arith}
use rcu.Config.Key
use rcu.Config.Values.{Values, default_config_value, valid_config_value, accepted, put_value}

defaults_table : all_below Key.enum_max (λ k. valid_config_value k (default_config_value k)) ≡ true
unfolding valid_config_value default_config_value
defaults_table = refl

-- The default of a setting is a value that it may have.
pub default_valid :
    (k : ℕ) → k < Key.enum_max → valid_config_value k (default_config_value k) ≡ true
default_valid k h =
    all_below_sound Key.enum_max (λ j. valid_config_value j (default_config_value j)) k
      defaults_table h

-- Every setting holds a value that it may have.
abbrev pub AreValid : Values → Type 0
AreValid values = (k : ℕ) → k < Key.enum_max → valid_config_value k (values k) ≡ true

pub accepted_valid :
    (k input : ℕ) → k < Key.enum_max → valid_config_value k (accepted k input) ≡ true
accepted_valid k input h = ground (arith, default_valid k h)

pub put_valid :
    (k value : ℕ) (v : Values)
    → valid_config_value k value ≡ true
    → AreValid v
    → AreValid (put_value k value v)
put_valid k value v ok h j lt = ground (arith, h j lt, ok)
