-- ===== src/Display/Handheld.antt =====
-- The rate of the built-in display.
use rcu.Base.{
  ℕ, ◌+◌, ◌-◌, ◌≤◌, ◌<◌, ◌≡◌, refl, ap, ◌∙◌, ◌⊎◌, subst, Bool, true, false, Option, none, some,
  ◌==◌, all_below, all_below_sound, arith,
}
use rcu.Display.{handheld_min, handheld_max, handheld_rate, plld_for, plld_rate}

-- Whether a rate is read back.
abbrev is_read_back : ℕ → Bool
is_read_back rate = elim (plld_rate (plld_for rate)) [ none ↦ false | some r ↦ r == rate ]

all_read_back : all_below 40 (λ n. is_read_back (n + 40)) ≡ true
unfolding plld_for plld_rate
all_read_back = refl

read_back :
    (o : Option ℕ) (rate : ℕ) → elim o [ none ↦ false | some r ↦ r == rate ] ≡ true → o ≡ some rate
read_back none rate h = absurd (ground (arith, h))
read_back (some r) rate h = ground (arith, h)

-- The rate that is set on the built-in display is from 40 to 80 Hz, and is the rate asked for unless that
-- is below 40 or above 80 Hz.
pub handheld_rate_within :
    (rate : ℕ)
    → (handheld_min ≤ handheld_rate rate)
      × ((handheld_rate rate ≤ handheld_max)
          × ((rate < handheld_min) ⊎ ((handheld_max < rate) ⊎ (handheld_rate rate ≡ rate))))
unfolding handheld_rate
handheld_rate_within rate = ground arith

back : (rate : ℕ) → 40 ≤ rate → rate - 40 + 40 ≡ rate
back rate low = omega (arith, low)

-- The registers that are set for a rate from 40 to 79 Hz are read back as that rate.
pub plld_rate-plld_for : (rate : ℕ) → 40 ≤ rate → rate < 80 → plld_rate (plld_for rate) ≡ some rate
plld_rate-plld_for rate low high =
    let checked =
      all_below_sound 40 (λ n. is_read_back (n + 40)) (rate - 40) all_read_back
        (omega (arith, high)) in
    subst (λ r. plld_rate (plld_for r) ≡ some r) (back rate low)
      (read_back (plld_rate (plld_for (rate - 40 + 40))) (rate - 40 + 40) checked)

top : (rate : ℕ) → 80 ≤ rate → handheld_rate rate ≡ 80
unfolding handheld_rate
top rate h = ground (arith, h)

at_80 : plld_rate (plld_for 80) ≡ none
unfolding plld_rate plld_for
at_80 = refl

-- After a request for 80 Hz or more, the registers are taken for those of an external display.
pub plld_rate_lost : (rate : ℕ) → 80 ≤ rate → plld_rate (plld_for (handheld_rate rate)) ≡ none
plld_rate_lost rate h = ap (λ r. plld_rate (plld_for r)) (top rate h) ∙ at_80
