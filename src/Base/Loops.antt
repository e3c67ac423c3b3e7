-- ===== src/Base/Loops.antt =====
-- `for` loops over the numbers below a bound, in rising order, and what one pass of them does.
use Prim.Native.Nat.{ℕ, zero, suc, ◌<◌}
use mathlib.Core.Path.{◌≡◌, refl, ◌∙◌}
use mathlib.Core.Logic.{◌≢◌, ◌⊎◌, inl, inr}
use native.Mathlib.Omega.{arith}

module _ {ℓ} {S : Type ℓ} where
  abbrev pub for_below : ℕ → (ℕ → S → S) → S → S
  for_below zero body s = s
  for_below (suc n) body s = body n (for_below n body s)

  module _ {κ} {X : Type κ} (see : S → X) (body : ℕ → S → S) where
    -- What no pass changes, the loop does not change.
    pub for-other :
        (n : ℕ) (s : S)
        → ((i : ℕ) (t : S) → i < n → see (body i t) ≡ see t)
        → see (for_below n body s) ≡ see s
    for-other zero s h = refl
    for-other (suc n) s h = h n _ (omega arith) ∙ for-other n s (λ i t lt. h i t (omega arith))

    -- What only one pass sets is as that pass leaves it.
    pub for-hit :
        (n i : ℕ) (x : X) (s : S)
        → i < n
        → ((t : S) → see (body i t) ≡ x)
        → ((j : ℕ) (t : S) → j ≢ i → see (body j t) ≡ see t)
        → see (for_below n body s) ≡ x
    for-hit zero i x s lt hit other = absurd (omega arith)
    for-hit (suc n) i x s lt hit other = elim (eq_or_lt n i lt) [
      | inl e ↦ cc (e, hit (for_below n body s))
      | inr l ↦ other n _ (λ e. omega (arith, e, l)) ∙ for-hit n i x s l hit other
    ]
      where
        eq_or_lt : (n i : ℕ) → i < suc n → (n ≡ i) ⊎ (i < n)
        eq_or_lt n i h = ground arith

  -- What each pass keeps, the loop keeps.
  pub for-keeps {κ} :
      (P : S → Type κ) (body : ℕ → S → S) (n : ℕ) (s : S)
      → ((i : ℕ) (t : S) → P t → P (body i t))
      → P s
      → P (for_below n body s)
  for-keeps P body zero s keep h = h
  for-keeps P body (suc n) s keep h = keep n _ (for-keeps P body n s keep h)
