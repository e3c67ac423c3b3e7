-- ===== src/Clocks/Safety/Limits.antt =====
-- When the safety features act, and how often something is logged.
use rcu.Base.{
  ℕ, zero, suc, ◌∙◌, ◌+◌, ◌*◌, ◌^◌, ◌≤◌, ◌<◌, ◌≡◌, ◌≢◌, ◌↔◌, ◌⊎◌, inl, inr, refl, sym, ap, subst,
  ◌%◌, true, ltb, ◌==◌, pos, neg, ltz, opposite, s32, arith,
}
use rcu.Hoc.{docked, profile_index}
use rcu.Config.Key
use rcu.Config.Values.{Values, valid_config_value}
use rcu.Config.Values.Valid.{AreValid}
use rcu.Clocks.{Env, Clocks, value}
use rcu.Clocks.Safety.{Sensors, tdp_key, over_power, config_interval_timeout}

s32_small : (n : ℕ) → n < 2 ^ 31 → s32 n ≡ pos n
s32_small n h = ground (arith, h)

ltz-neg : (a b : ℕ) → ltz (neg a) (neg b) ≡ ltb b a
ltz-neg zero zero = refl
ltz-neg zero (suc b) = ground arith
ltz-neg (suc a) zero = ground arith
ltz-neg (suc a) (suc b) = ground arith

below_opposite :
    (draw limit : ℕ) → limit < 2 ^ 31 → ltz (neg draw) (opposite (s32 limit)) ≡ ltb limit draw
below_opposite draw limit h =
    ap (λ z. ltz (neg draw) (opposite z)) (s32_small limit h) ∙ ltz-neg draw limit

-- With a limit below 2 ^ 31 mW, a console that draws power is stopped for it just when the limit is on,
-- the console is not docked, and the draw is above the limit of the console.
pub over_power_iff :
    (env : Env) (i : Sensors) (s : Clocks) (draw : ℕ)
    → i.power_mw ≡ neg draw
    → value env (tdp_key i.console) < 2 ^ 31
    → (over_power env i s ≡ true) ↔ (
        (value env Key.handheld_tdp ≢ 0)
        × ((profile_index s.profile ≢ profile_index docked)
            × (value env (tdp_key i.console) < draw)))
over_power_iff env i s draw e h =
    let limit = value env (tdp_key i.console) in
    let below = ap (λ z. ltz z (opposite (s32 limit))) e ∙ below_opposite draw limit h in
    ground (arith, below)

-- When `ConfigIntervalTimeout` reports that it is time, on a clock that has not gone back and an interval
-- below 2 ^ 64 ns, more than the interval has passed since the last time, and the time is remembered.
pub interval_passed :
    (env : Env) (key ns last : ℕ)
    → last ≤ ns
    → ns < 2 ^ 64
    → value env key * 1000000 < 2 ^ 64
    → (config_interval_timeout env key ns last).0 ≡ true
    → (last + value env key * 1000000 < ns) × ((config_interval_timeout env key ns last).1 ≡ ns)
unfolding config_interval_timeout
interval_passed env key ns last le w v h = ground (arith, le, w, v, h)

one_bit : (n : ℕ) → (n % 2 == n) ≡ true → n ≤ 1
one_bit n h = ground (arith, h)

-- A setting for the interval of a log never holds more than 1 ms.
pub interval_at_most_one :
    (values : Values) (key : ℕ)
    → AreValid values
    → (key ≡ Key.temp_log_interval_ms)
      ⊎ ((key ≡ Key.freq_log_interval_ms)
          ⊎ ((key ≡ Key.power_log_interval_ms) ⊎ (key ≡ Key.csv_write_interval_ms)))
    → values key ≤ 1
unfolding valid_config_value
interval_at_most_one values key h (inl e) =
    subst (λ k. values k ≤ 1) (sym e) (one_bit (values 1) (h 1 (omega arith)))
interval_at_most_one values key h (inr (inl e)) =
    subst (λ k. values k ≤ 1) (sym e) (one_bit (values 2) (h 2 (omega arith)))
interval_at_most_one values key h (inr (inr (inl e))) =
    subst (λ k. values k ≤ 1) (sym e) (one_bit (values 3) (h 3 (omega arith)))
interval_at_most_one values key h (inr (inr (inr e))) =
    subst (λ k. values k ≤ 1) (sym e) (one_bit (values 4) (h 4 (omega arith)))
