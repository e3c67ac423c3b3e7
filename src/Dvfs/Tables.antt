-- ===== src/Dvfs/Tables.antt =====
-- The tables of `GetMinimumGpuVmin`: their voltages rise, and so does the ramp before them.
use rcu.Base.{
  ℕ, ◌-◌, ◌*◌, ◌≤◌, ◌≡◌, ◌⊎◌, inl, inr, refl, sym, subst, Bool, true, false, ◌&&◌, List, [], ◌∷◌,
  leb, arith,
}
use rcu.Dvfs.{
  Entry, first_volt, volts_from, row_start, ramp_volt, ramp_start_volt, mariko_row, erista_row,
  known_bracket,
}

-- The voltages rise from `low` to `high`.
abbrev pub rises : ℕ → List Entry → ℕ → Bool
rises low [] high = leb low high
rises low ((limit, volt) ∷ es) high = leb low volt && rises volt es high

pub first_volt_ge :
    (f low : ℕ) (es : List Entry) (high : ℕ) → rises low es high ≡ true → low ≤ first_volt f es high
first_volt_ge f low [] high h = ground (arith, h)
first_volt_ge f low ((limit, volt) ∷ es) high h = ground (arith, h, first_volt_ge f volt es high)

pub first_volt_le :
    (f low : ℕ) (es : List Entry) (high : ℕ)
    → rises low es high ≡ true
    → first_volt f es high ≤ high
first_volt_le f low [] high h = omega arith
first_volt_le f low ((limit, volt) ∷ es) high h =
    ground (arith, h, first_volt_le f volt es high, first_volt_ge f volt es high)

pub first_volt_mono :
    (f g low : ℕ) (es : List Entry) (high : ℕ)
    → rises low es high ≡ true
    → f ≤ g
    → first_volt f es high ≤ first_volt g es high
first_volt_mono f g low [] high h le = omega arith
first_volt_mono f g low ((limit, volt) ∷ es) high h le =
    ground (arith, h, first_volt_mono f g volt es high, first_volt_ge g volt es high)

-- Entry by entry, the first table allows more at no higher voltage.
abbrev pub is_better : List Entry → List Entry → Bool
is_better [] [] = true
is_better [] (e ∷ es) = false
is_better (e ∷ es) [] = false
is_better ((l, v) ∷ es) ((m, w) ∷ fs) = leb m l && leb v w && is_better es fs

pub first_volt_better :
    (f low : ℕ) (es fs : List Entry) (high' high : ℕ)
    → is_better es fs ≡ true
    → rises low fs high ≡ true
    → high' ≤ high
    → first_volt f es high' ≤ first_volt f fs high
first_volt_better f low [] [] high' high b h t = t
first_volt_better f low [] (e ∷ es) high' high b h t = absurd (ground (arith, b))
first_volt_better f low (e ∷ es) [] high' high b h t = absurd (ground (arith, b))
first_volt_better f low ((l, v) ∷ es) ((m, w) ∷ fs) high' high b h t =
    ground (arith, b, h, first_volt_better f w es fs high' high, first_volt_ge f w fs high, t)

pub known_cases :
    (b : ℕ)
    → (known_bracket b ≡ 0) ⊎ (known_bracket b ≡ 1) ⊎ (known_bracket b ≡ 2) ⊎ (known_bracket b ≡ 3)
known_cases b = ground arith

-- What holds of the four brackets holds of every bracket, as the code takes it.
pub each_bracket {ℓ} : (P : ℕ → Type ℓ) → P 0 → P 1 → P 2 → P 3 → (b : ℕ) → P (known_bracket b)
each_bracket P p0 p1 p2 p3 b = elim (known_cases b) [
  | inl e ↦ subst P (sym e) p0
  | inr (inl e) ↦ subst P (sym e) p1
  | inr (inr (inl e)) ↦ subst P (sym e) p2
  | inr (inr (inr e)) ↦ subst P (sym e) p3
]

pub row_rises : (b : ℕ) → rises 590 (volts_from 590 (mariko_row (known_bracket b))) 800 ≡ true
row_rises b =
    each_bracket (λ k. rises 590 (volts_from 590 (mariko_row k)) 800 ≡ true) refl refl refl refl b

pub erista_rises :
    (b : ℕ) → rises 695 (erista_row (10 * known_bracket b)) (815 - 10 * known_bracket b) ≡ true
erista_rises b =
    each_bracket (λ k. rises 695 (erista_row (10 * k)) (815 - 10 * k) ≡ true) refl refl refl refl b

abbrev pub IsRamp : ℕ → Type 0
IsRamp b =
    (f g : ℕ)
    → f ≤ g
    → ramp_volt f (row_start (mariko_row b)) (ramp_start_volt b)
      ≤ ramp_volt g (row_start (mariko_row b)) (ramp_start_volt b)

pub IsRamp-mono : (b : ℕ) → IsRamp (known_bracket b)
IsRamp-mono b =
    each_bracket IsRamp (λ f g h. ground (arith, h)) (λ f g h. ground (arith, h))
      (λ f g h. ground (arith, h)) (λ f g h. ground (arith, h)) b

pub ramp_le : (f start low : ℕ) → low ≤ 590 → ramp_volt f start low ≤ 590
ramp_le f start low h = ground (arith, h)

pub ramp_ge : (f start low : ℕ) → low ≤ 590 → low ≤ ramp_volt f start low
ramp_ge f start low h = ground (arith, h)

pub ramp_start_le : (b : ℕ) → ramp_start_volt b ≤ 590
ramp_start_le b = ground arith

pub le_trans : {a b c : ℕ} → a ≤ b → b ≤ c → a ≤ c
le_trans h k = omega (arith, h, k)
