-- ===== src/Display/Docked.antt =====
-- The rate of an external display: the end of `_setNvDispDockedRefreshRate` of
-- Source/ryazha-clk/sysmodule/src/display/display_refresh_rate.cpp, up to the timings.
pub mod Choice
use rcu.Base.{
  ℕ, zero, suc, ◌+◌, ◌-◌, ◌%◌, Bool, true, false, not, ◌&&◌, Option, none, some, List, [], ◌∷◌, ltb,
  leb, ◌==◌, if◌then◌else◌, length, get_elem?,
}

-- `g_dockedRefreshRates`.
abbrev pub docked_refresh_rates : List ℕ
docked_refresh_rates =
    40 ∷ 45 ∷ 50 ∷ 55 ∷ 60 ∷ 70 ∷ 72 ∷ 75 ∷ 80 ∷ 90 ∷ 95 ∷ 100 ∷ 110 ∷ 120 ∷ 130 ∷ 140 ∷ 144 ∷ 150
    ∷ 160 ∷ 165 ∷ 170 ∷ 180 ∷ 190 ∷ 200 ∷ 210 ∷ 220 ∷ 230 ∷ 240 ∷ []

-- A loop over the rates, from index `i` on, up to the first that passes a test.
abbrev pub first_rate : (ℕ → Bool) → ℕ → List ℕ → Option ℕ
first_rate test i [] = none
first_rate test i (r ∷ rs) =
    let later = first_rate test (i + 1) rs in if test r then some i else later

abbrev pub or_else_rate : Option ℕ → ℕ → ℕ
or_else_rate none i = i
or_else_rate (some i) j = i

-- `_getDockedRefreshRateIterator(60)`.
abbrev pub index_of_60 : ℕ
index_of_60 = or_else_rate (first_rate (λ r. r == 60) 0 docked_refresh_rates) 0xFF

-- The index for a request above 0, before the limit of the display; `lowest` is `matchLowestDocked`.
unfoldable pub docked_index : Bool → ℕ → ℕ
docked_index lowest rate =
    let multiple = first_rate (λ r. r % rate == 0) 0 docked_refresh_rates in
    let above = first_rate (λ r. ltb rate r) 0 docked_refresh_rates in
    if leb rate 60 && 60 % rate == 0
    then index_of_60
    else or_else_rate multiple (if lowest then or_else_rate above index_of_60 else index_of_60)

-- The loop down from an index to the first rate that the display allows; the index stays where none is.
abbrev pub down_to : ℕ → List ℕ → ℕ → ℕ → ℕ
down_to highest rates start zero = elim (get_elem? rates zero) [
  | none ↦ start
  | some r ↦ if leb r highest then zero else start
]
down_to highest rates start (suc i) =
    let below = down_to highest rates start i in
    elim (get_elem? rates (suc i)) [
      | none ↦ below
      | some r ↦ if leb r highest then suc i else below
    ]

-- `itr` at the end: the index of the rate that is set.
unfoldable pub docked_choice : Bool → ℕ → ℕ → ℕ
docked_choice lowest highest rate =
    let i = docked_index lowest rate in down_to highest docked_refresh_rates i i

-- The rate that is set.
abbrev pub docked_rate : Bool → ℕ → ℕ → Option ℕ
docked_rate lowest highest rate = get_elem? docked_refresh_rates (docked_choice lowest highest rate)
