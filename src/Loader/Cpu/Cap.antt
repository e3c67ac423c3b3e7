-- ===== src/Loader/Cpu/Cap.antt =====
-- The clock that `CapCpuClock` picks.
use rcu.Base.{
  ℕ, ◌≤◌, ◌<◌, ◌≡◌, ◌⊎◌, inl, inr, refl, false, List, [], ◌∷◌, arith, leb, In, All, IsIncreasing,
  In-All, if_then_else_ind, All-map, leb→le, leb-false, Bool-cases,
}
use rcu.Loader.Custom.{CustomizeTable}
use rcu.Loader.Cpu.{allowed_cpu_max_frequencies, cap_from, cap_cpu_clock}

abbrev Picked : ℕ → ℕ → List ℕ → ℕ → Type 0
Picked clock best freqs r =
    In r (best ∷ freqs)
    × ((f : ℕ) → In f freqs → f ≤ clock → f ≤ r)
    × (best ≤ clock → r ≤ clock)
    × (best ≤ r)
    × (clock < best → r ≡ best)

cap_from_lem :
    (clock best : ℕ) (freqs : List ℕ)
    → All (λ f. best ≤ f) freqs
    → IsIncreasing freqs
    → Picked clock best freqs (cap_from clock best freqs)
unfolding cap_from
cap_from_lem clock best [] above inc = (inl refl, λ f m h. absurd m, λ h. h, omega arith, λ h. refl)
cap_from_lem clock best (freq ∷ freqs) above inc =
    let ih = cap_from_lem clock freq freqs (All-map (λ y lt. below y lt) freqs inc.0) inc.1 in
    if_then_else_ind (Picked clock best (freq ∷ freqs)) (leb freq clock) (cap_from clock freq freqs)
      best
      (λ le. (
        inr ih.0,
        λ f m h. elim m [ inl e ↦ omega (arith, e, ih.3) | inr n ↦ ih.1 f n h ],
        λ h. ih.2 (leb→le freq clock le),
        omega (arith, ih.3, above.0),
        λ h. omega (arith, h, above.0, leb→le freq clock le),
      ))
      (λ gt. (inl refl, λ f m h. absurd (too_high f m h gt), λ h. h, omega arith, λ h. refl))
  where
    below : (y : ℕ) → freq < y → freq ≤ y
    below y lt = omega arith

    too_high : (f : ℕ) → In f (freq ∷ freqs) → f ≤ clock → leb freq clock ≡ false → ⊥
    too_high f (inl e) h gt = omega (arith, e, h, leb-false freq clock gt)
    too_high f (inr n) h gt =
        omega (arith, h, leb-false freq clock gt, In-All (λ y. freq < y) f freqs inc.0 n)

-- `CapCpuClock` picks one of the allowed clocks: the highest that is not above the clock of the table,
-- and the lowest of all if that is above it too.
pub cap_cpu_clock-highest :
    (c : CustomizeTable)
    → In (cap_cpu_clock c) allowed_cpu_max_frequencies
      × ((f : ℕ)
          → In f allowed_cpu_max_frequencies
          → f ≤ c.mariko_cpu_max_clock
          → f ≤ cap_cpu_clock c)
      × ((cap_cpu_clock c ≤ c.mariko_cpu_max_clock)
          ⊎ ((c.mariko_cpu_max_clock < 1963500) × (cap_cpu_clock c ≡ 1963500)))
unfolding cap_cpu_clock
cap_cpu_clock-highest c =
    let (m, all, le, _, low) =
      cap_from_lem c.mariko_cpu_max_clock 1963500 allowed_cpu_max_frequencies (omega arith)
        (omega arith) in
    (
      once _ m,
      all,
      elim (Bool-cases (leb 1963500 c.mariko_cpu_max_clock)) [
        | inl e ↦ inl (le (leb→le 1963500 c.mariko_cpu_max_clock e))
        | inr e ↦ inr (
          leb-false 1963500 c.mariko_cpu_max_clock e,
          low (leb-false 1963500 c.mariko_cpu_max_clock e),
        )
      ],
    )
  where
    once : (r : ℕ) → In r (1963500 ∷ allowed_cpu_max_frequencies) → In r allowed_cpu_max_frequencies
    once r (inl e) = inl e
    once r (inr n) = n
