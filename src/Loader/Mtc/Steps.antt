-- ===== src/Loader/Mtc/Steps.antt =====
-- The lists of `MtcGenerateFreqTables` before they are cut.
use rcu.Base.{
  ℕ, zero, suc, ◌+◌, ◌<◌, ◌≤◌, ◌≡◌, refl, Option, none, some, List, [], ◌∷◌, ◌++◌, arith, ltb,
  length, length-append, In, All, All-map, IsIncreasing, if_then_else_ind, ltb-false,
}
use rcu.Loader.Mtc.{
  emc_clk_os_limit, emc_list_default, jedec_freqs, step_freqs_133, up_to, push_max, new_freq,
  step_loop,
}
use rcu.Loader.Mtc.Lists.{
  IsTable, All-snoc, snoc-IsIncreasing, push_max-IsTable, In-push_max, length-push_max, up_to-All,
  up_to-IsTable, length-up_to,
}

-- The loop returns a list with the property.
abbrev pub Made : (List ℕ → Type 0) → Option (List ℕ) → Type 0
Made P none = ⊥
Made P (some fs) = P fs

-- The list before it is cut: a table with the limit, of `n` clocks at most.
abbrev pub IsWhole : ℕ → ℕ → List ℕ → Type 0
IsWhole max n fs = IsTable max fs × In max fs × (length fs ≤ n)

abbrev pub whole : ℕ → List ℕ → List ℕ
whole max freqs = push_max max (emc_list_default ++ up_to max freqs)

pushed :
    (max n : ℕ) (fs : List ℕ)
    → IsTable max fs
    → length fs ≤ n
    → IsWhole max (suc n) (push_max max fs)
pushed max n fs t h =
    (push_max-IsTable max fs t, In-push_max max fs, omega (arith, h, length-push_max max fs))

default-IsTable :
    (max : ℕ) (fs : List ℕ)
    → emc_clk_os_limit < max
    → IsTable max fs
    → All (λ f. emc_clk_os_limit < f) fs
    → IsTable max (emc_list_default ++ fs)
default-IsTable max fs h (inc, all) above = (
  (
    (omega arith, (omega arith, All-map (λ y lt. omega (arith, lt)) fs above)),
    ((omega arith, All-map (λ y lt. omega (arith, lt)) fs above), (above, inc)),
  ),
  (omega arith, (omega arith, (omega arith, all))),
)

listed-IsWhole :
    (max : ℕ) (freqs : List ℕ)
    → emc_clk_os_limit < max
    → IsIncreasing freqs
    → All (λ f. emc_clk_os_limit < f) freqs
    → length freqs ≤ 14
    → IsWhole max 18 (whole max freqs)
listed-IsWhole max freqs h inc above len =
    pushed max 17 (emc_list_default ++ up_to max freqs)
      (default-IsTable max (up_to max freqs) h (up_to-IsTable max freqs inc)
        (up_to-All (λ f. emc_clk_os_limit < f) max freqs above))
      (omega (arith, len, length-up_to max freqs))

-- The steps of one size, where the clocks grow and `bound` of them are all up to the limit.
module _ (max rate bound : ℕ) (few : bound ≤ 40)
    (grows : (k : ℕ) → k ≤ 40 → new_freq rate k < new_freq rate (suc k))
    (short : (k : ℕ) → k ≤ 40 → new_freq rate k ≤ max → k < bound) where
  ends :
      (k : ℕ) (fs : List ℕ)
      → k ≤ bound
      → IsTable max fs
      → length fs ≤ k + 2
      → IsWhole max (bound + 3) (push_max max fs)
  ends k fs small t len =
      let (whole, has, le) = pushed max (k + 2) fs t len in (whole, has, omega (arith, le, small))

  step_loop-Made :
      (fuel k : ℕ) (fs : List ℕ)
      → k + fuel ≡ 40
      → k ≤ bound
      → IsTable max fs
      → All (λ f. f < new_freq rate k) fs
      → length fs ≤ k + 2
      → Made (IsWhole max (bound + 3)) (step_loop (suc fuel) rate k max fs)
  unfolding step_loop
  step_loop-Made zero k fs total small t below len =
      if_then_else_ind (Made (IsWhole max (bound + 3))) (ltb max (new_freq rate k))
        (some (push_max max fs)) none (λ over. ends k fs small t len)
        (λ fits. omega (
          arith,
          total,
          few,
          short k (omega (arith, total)) (ltb-false max (new_freq rate k) fits),
        ))
  step_loop-Made (suc fuel) k fs total small t below len =
      if_then_else_ind (Made (IsWhole max (bound + 3))) (ltb max f) (some (push_max max fs))
        (step_loop (suc fuel) rate (suc k) max (fs ++ (f ∷ []))) (λ over. ends k fs small t len)
        (λ fits.
          step_loop-Made fuel (suc k) (fs ++ (f ∷ [])) (omega (arith, total))
            (short k (omega (arith, total)) (ltb-false max f fits))
            (
              snoc-IsIncreasing fs f t.0 below,
              All-snoc (λ g. g ≤ max) fs f t.1 (ltb-false max f fits),
            )
            (All-snoc (λ g. g < new_freq rate (suc k)) fs f
              (All-map (λ g lt. omega (arith, lt, up)) fs below) up)
            (omega (arith, len, length-append fs (f ∷ []))))
    where
      f : ℕ
      f = new_freq rate k

      up : new_freq rate k < new_freq rate (suc k)
      up = grows k (omega (arith, total))

  stepped-Made :
      emc_clk_os_limit < max
      → 1 ≤ bound
      → emc_clk_os_limit < new_freq rate 1
      → Made (IsWhole max (bound + 3)) (step_loop 40 rate 1 max emc_list_default)
  stepped-Made h pos low =
      step_loop-Made 39 1 emc_list_default refl pos (default-IsTable max [] h (tt, tt) tt)
        (omega (arith, low), (omega (arith, low), (omega (arith, low), tt))) (omega arith)

grows_100 : (k : ℕ) → k ≤ 40 → new_freq 100000 k < new_freq 100000 (suc k)
unfolding new_freq
grows_100 k h = omega arith

grows_66 : (k : ℕ) → k ≤ 40 → new_freq 66667 k < new_freq 66667 (suc k)
unfolding new_freq
grows_66 k h = omega arith

short_100 : (max : ℕ) → max ≤ 3500000 → (k : ℕ) → k ≤ 40 → new_freq 100000 k ≤ max → k < 20
unfolding new_freq
short_100 max m k h le = omega (arith, m, h, le)

pub short_66 : (max : ℕ) → max ≤ 3500000 → (k : ℕ) → k ≤ 40 → new_freq 66667 k ≤ max → k < 29
unfolding new_freq
short_66 max m k h le = omega (arith, m, h, le)

pub short_66_low : (max : ℕ) → max < 3466000 → (k : ℕ) → k ≤ 40 → new_freq 66667 k ≤ max → k < 28
unfolding new_freq
short_66_low max m k h le = omega (arith, m, h, le)

above-os : new_freq 100000 1 ≡ 1700000
unfolding new_freq
above-os = refl

above-os_66 : new_freq 66667 1 ≡ 1666000
unfolding new_freq
above-os_66 = refl

pub jedec-IsWhole : (max : ℕ) → emc_clk_os_limit < max → IsWhole max 18 (whole max jedec_freqs)
jedec-IsWhole max h = listed-IsWhole max jedec_freqs h (ground arith) (ground arith) (omega arith)

pub step-IsWhole : (max : ℕ) → emc_clk_os_limit < max → IsWhole max 18 (whole max step_freqs_133)
step-IsWhole max h = listed-IsWhole max step_freqs_133 h (ground arith) (ground arith) (omega arith)

-- The lists with a step of 100 MHz and of 66.667 MHz, before the cut.
pub hundred-Made :
    (max : ℕ)
    → emc_clk_os_limit < max
    → max ≤ 3500000
    → Made (IsWhole max 23) (step_loop 40 100000 1 max emc_list_default)
hundred-Made max h le =
    stepped-Made max 100000 20 (omega arith) grows_100 (short_100 max le) h (omega arith)
      (omega (arith, above-os))

pub sixty-Made :
    (max bound : ℕ)
    → bound ≤ 40
    → 1 ≤ bound
    → ((k : ℕ) → k ≤ 40 → new_freq 66667 k ≤ max → k < bound)
    → emc_clk_os_limit < max
    → Made (IsWhole max (bound + 3)) (step_loop 40 66667 1 max emc_list_default)
sixty-Made max bound few pos short h =
    stepped-Made max 66667 bound few grows_66 short h pos (omega (arith, above-os_66))
