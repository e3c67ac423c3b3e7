-- ===== src/Governor/Vrr/Rate.antt =====
-- The rate that the governor picks for a frame rate.
use rcu.Base.{
  Option, subst, sym, ap, ℕ, zero, suc, ◌+◌, ◌*◌, ◌≤◌, ◌<◌, ◌≡◌, true, false, none, some, ◌==◌,
  arith, ◌∙◌, inl, inr, Option-cases, Bool-cases,
}
use rcu.Governor.Vrr.{fits, multiple_from, rate_for}

-- The multiples from `i` up to `k` do not fit.
abbrev pub NoneBefore : ℕ → ℕ → ℕ → ℕ → ℕ → Type 0
NoneBefore low high fps i k = (j : ℕ) → i ≤ j → j < k → fits low high (fps * j) ≡ false

NoneBefore-from :
    (low high fps i k : ℕ)
    → fits low high (fps * i) ≡ false
    → NoneBefore low high fps (i + 1) k
    → NoneBefore low high fps i k
NoneBefore-from low high fps i k e rest j a b = elim (Bool-cases (j == i)) [
  | inl same ↦ ground arith
  | inr other ↦ rest j (ground arith) b
]

multiple_from-lem :
    (low high fps rounds i : ℕ) {hz : ℕ}
    → multiple_from low high fps rounds i ≡ some hz
    → (k : ℕ) × (i ≤ k)
      × (k < i + rounds)
      × (hz ≡ fps * k)
      × (fits low high hz ≡ true)
      × NoneBefore low high fps i k
unfolding multiple_from
multiple_from-lem low high fps zero i h = absurd (ground arith)
multiple_from-lem low high fps (suc rounds) i {hz} h = elim (Bool-cases (fits low high (fps * i))) [
  | inl e ↦
      (i, omega arith, omega arith, ground arith, ground arith, (λ j a b. absurd (omega arith)))
  | inr e ↦
      let (k, from, to, eq, ok, rest) =
        multiple_from-lem low high fps rounds (i + 1) {hz = hz} (ground arith) in
      (k, omega arith, omega arith, eq, ok, NoneBefore-from low high fps i k e rest)
]

multiple_from-none :
    (low high fps rounds i : ℕ)
    → multiple_from low high fps rounds i ≡ none
    → NoneBefore low high fps i (i + rounds)
unfolding multiple_from
multiple_from-none low high fps zero i h = λ j a b. absurd (omega arith)
multiple_from-none low high fps (suc rounds) i h = elim (Bool-cases (fits low high (fps * i))) [
  | inl e ↦ absurd (ground arith)
  | inr e ↦
      let rest = multiple_from-none low high fps rounds (i + 1) (ground arith) in
      NoneBefore-from low high fps i (i + suc rounds) e (λ j a b. rest j a (omega arith))
]

pub rate_for-some :
    (low high fps hz : ℕ)
    → rate_for low high fps ≡ some hz
    → (k : ℕ) × (1 ≤ k)
      × (k ≤ 9)
      × (hz ≡ fps * k)
      × (low ≤ hz)
      × (hz ≤ high)
      × NoneBefore low high fps 1 k
unfolding rate_for
rate_for-some low high fps hz h = elim (Bool-cases (fits low high fps)) [
  | inl e ↦ (
    1,
    omega arith,
    omega arith,
    ground arith,
    ground arith,
    ground arith,
    (λ j a b. absurd (omega arith)),
  )
  | inr e ↦
      let (k, from, to, eq, ok, rest) =
        multiple_from-lem low high fps 9 1 {hz = hz} (ground arith) in
      (k, from, omega arith, eq, ground arith, ground arith, rest)
]

rate_for-none : (low high fps : ℕ) → rate_for low high fps ≡ none → NoneBefore low high fps 1 10
unfolding rate_for
rate_for-none low high fps h = elim (Bool-cases (fits low high fps)) [
  | inl e ↦ absurd (ground arith)
  | inr e ↦ multiple_from-none low high fps 9 1 (ground arith)
]

-- The first multiple, of those by 1 to 9, that lies in the range, if any.
pub data FirstFit (low high fps : ℕ) : Option ℕ → Type 0 where
  fit :
      (k : ℕ)
      → 1 ≤ k
      → k ≤ 9
      → low ≤ fps * k
      → fps * k ≤ high
      → NoneBefore low high fps 1 k
      → FirstFit low high fps (some (fps * k))
  no_fit : NoneBefore low high fps 1 10 → FirstFit low high fps none

-- The rate that the governor picks for a frame rate is the first of its multiples by 1 to 9 that lies in
-- the range of the display, and it picks none if none of them does.
pub rate_for_first : (low high fps : ℕ) → FirstFit low high fps (rate_for low high fps)
rate_for_first low high fps = elim (Option-cases (rate_for low high fps)) [
  | inl e ↦ subst (FirstFit low high fps) (sym e) (no_fit (rate_for-none low high fps e))
  | inr (hz, e) ↦
      let (k, from, to, eq, a, b, rest) = rate_for-some low high fps hz e in
      subst (FirstFit low high fps) (sym (e ∙ ap some eq))
        (fit k from to (subst (λ x. low ≤ x) eq a) (subst (λ x. x ≤ high) eq b) rest)
]

pub rate_for-fits :
    (low high fps : ℕ) {hz : ℕ} → rate_for low high fps ≡ some hz → (low ≤ hz) × (hz ≤ high)
rate_for-fits low high fps {hz} h =
    let (k, from, to, eq, a, b, rest) = rate_for-some low high fps hz h in (a, b)
