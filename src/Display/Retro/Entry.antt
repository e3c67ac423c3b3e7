-- ===== src/Display/Retro/Entry.antt =====
-- Which rate a replaced built-in display is given.
use rcu.Base.{
  ℕ, ◌+◌, ◌-◌, ◌/◌, ◌≤◌, ◌≡◌, refl, subst, Bool, true, false, Option, none, some, ◌==◌, all_below,
  all_below_sound, arith,
}
use rcu.Display.Retro.{retro_rate}

abbrev is_at : ℕ → Bool
is_at n = elim (retro_rate (n + 40)) [ none ↦ false | some r ↦ r == 40 + n / 5 ]

all_at : all_below 41 is_at ≡ true
unfolding retro_rate
all_at = refl

at_index : (o : Option ℕ) (x : ℕ) → elim o [ none ↦ false | some r ↦ r == x ] ≡ true → o ≡ some x
at_index none x h = absurd (ground (arith, h))
at_index (some r) x h = ground (arith, h)

back : (rate : ℕ) → 40 ≤ rate → rate - 40 + 40 ≡ rate
back rate low = omega (arith, low)

-- A replaced built-in display that is set to a rate from 40 to 80 Hz gets a timing for only 1 Hz more than
-- 40 Hz for every 5 Hz that the rate is above 40 Hz: the table has an entry for every Hz, not every 5 Hz.
pub retro_rate_lost :
    (rate : ℕ) → 40 ≤ rate → rate ≤ 80 → retro_rate rate ≡ some (40 + (rate - 40) / 5)
retro_rate_lost rate low high =
    let checked = all_below_sound 41 is_at (rate - 40) all_at (omega (arith, high)) in
    subst (λ r. retro_rate r ≡ some (40 + (rate - 40) / 5)) (back rate low)
      (at_index (retro_rate (rate - 40 + 40)) (40 + (rate - 40) / 5) checked)
