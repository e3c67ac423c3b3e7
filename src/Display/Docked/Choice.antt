-- ===== src/Display/Docked/Choice.antt =====
-- Which rate an external display is given.
use rcu.Base.{
  ℕ, zero, suc, ◌+◌, ◌%◌, ◌≤◌, ◌<◌, ◌≡◌, refl, sym, subst, Bool, ◌&&◌, Option, none, some, List, [],
  ◌∷◌, ltb, leb, ◌==◌, if◌then◌else◌, length, get_elem?, if_then_else_ind, drop, leb→le, arith,
}
use rcu.Display.Docked.{
  docked_refresh_rates, first_rate, or_else_rate, index_of_60, docked_index, down_to, docked_choice,
  docked_rate,
}

first_rate_below :
    (test : ℕ → Bool) (i j : ℕ) (rs : List ℕ) → first_rate test i rs ≡ some j → j < i + length rs
first_rate_below test i j [] h = absurd (ground (arith, h))
first_rate_below test i j (r ∷ rs) h = ground (arith, h, first_rate_below test (i + 1) j rs)

get_below : (i : ℕ) (rs : List ℕ) → i < length rs → (x : ℕ) × (get_elem? rs i ≡ some x)
get_below i [] h = absurd (omega (arith, h))
get_below zero (r ∷ rs) h = (r, refl)
get_below (suc i) (r ∷ rs) h = get_below i rs (omega (arith, h))

-- The rate at the index is allowed.
abbrev IsAllowedAt : ℕ → List ℕ → ℕ → Type 0
IsAllowedAt highest rates i = (x : ℕ) × ((get_elem? rates i ≡ some x) × (x ≤ highest))

step_down :
    (highest i below y : ℕ) (rates : List ℕ)
    → get_elem? rates i ≡ some y
    → IsAllowedAt highest rates below
    → IsAllowedAt highest rates
        (elim (get_elem? rates i) [ none ↦ below | some r ↦ if leb r highest then i else below ])
step_down highest i below y rates e h =
    subst
      (λ o.
        IsAllowedAt highest rates
          (elim o [ none ↦ below | some r ↦ if leb r highest then i else below ]))
      (sym e)
      (if_then_else_ind (IsAllowedAt highest rates) (leb y highest) i below
        (λ l. (y, (e, leb→le y highest l))) (λ l. h))

-- What `down_to` finds is allowed, where the first rate is.
down_to-allowed :
    (highest start i r : ℕ) (rs : List ℕ)
    → r ≤ highest
    → i < length (r ∷ rs)
    → IsAllowedAt highest (r ∷ rs) (down_to highest (r ∷ rs) start i)
down_to-allowed highest start zero r rs h lt =
    if_then_else_ind (IsAllowedAt highest (r ∷ rs)) (leb r highest) zero start (λ l. (r, (refl, h)))
      (λ l. absurd (ground (arith, l, h)))
down_to-allowed highest start (suc i) r rs h lt =
    let found = get_below (suc i) (r ∷ rs) lt in
    step_down highest (suc i) (down_to highest (r ∷ rs) start i) found.0 (r ∷ rs) found.1
      (down_to-allowed highest start i r rs h (omega (arith, lt)))

or_else_below :
    (o : Option ℕ) (i n : ℕ) → i < n → ((j : ℕ) → o ≡ some j → j < n) → or_else_rate o i < n
or_else_below none i n h k = h
or_else_below (some j) i n h k = k j refl

index_of_60_below : index_of_60 < 28
index_of_60_below = omega arith

docked_index_below : (lowest : Bool) (rate : ℕ) → docked_index lowest rate < 28
unfolding docked_index
docked_index_below lowest rate =
    if_then_else_ind (λ i. i < 28) (leb rate 60 && 60 % rate == 0) index_of_60 _
      (λ e. index_of_60_below)
      (λ e.
        or_else_below (first_rate (λ r. r % rate == 0) 0 docked_refresh_rates) _ 28
          (if_then_else_ind (λ i. i < 28) lowest
            (or_else_rate (first_rate (λ r. ltb rate r) 0 docked_refresh_rates) index_of_60)
            index_of_60
            (λ k.
              or_else_below (first_rate (λ r. ltb rate r) 0 docked_refresh_rates) index_of_60 28
                index_of_60_below
                (λ j h. first_rate_below (λ r. ltb rate r) 0 j docked_refresh_rates h))
            (λ k. index_of_60_below))
          (λ j h. first_rate_below (λ r. r % rate == 0) 0 j docked_refresh_rates h))

-- An external display that allows 40 Hz is always given a rate of the list, for any request, and never
-- a rate above the highest that it allows.
pub docked_rate_allowed :
    (lowest : Bool) (highest rate : ℕ)
    → 40 ≤ highest
    → (x : ℕ) × ((docked_rate lowest highest rate ≡ some x) × (x ≤ highest))
unfolding docked_choice
docked_rate_allowed lowest highest rate h =
    let i = docked_index lowest rate in
    down_to-allowed highest i i 40 (drop 1 docked_refresh_rates) h (docked_index_below lowest rate)
