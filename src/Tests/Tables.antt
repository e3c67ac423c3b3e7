-- ===== src/Tests/Tables.antt =====
-- Frequency tables.
use rcu.Base.{
  ℕ, ◌≤◌, ◌≡◌, ◌↔◌, inr, refl, some, List, [], ◌∷◌, All, In, IsIncreasing, length, arith,
}
use rcu.Hoc.{mem, mariko}
use rcu.FreqTable.{nearest_hz, table_lookup}
use rcu.FreqTable.Nearest.{gap, nearest_optimal}
use rcu.FreqTable.Refresh.{refresh_freq_table_row, freq_list_max}
use rcu.FreqTable.Refresh.Order.{refresh-IsIncreasing, rate_limit}
use rcu.FreqTable.Refresh.Members.{lowest_hz, refresh_members}

abbrev small : List ℕ
small = 200 ∷ 300 ∷ []

small-IsIncreasing : IsIncreasing (100 ∷ small)
small-IsIncreasing = ground arith

nearest_optimal_example :
    (r : ℕ) × (nearest_hz (100 ∷ small) 160 0 ≡ some r)
    × In r (100 ∷ small)
    × All (λ g. gap 160 r ≤ gap 160 g) (100 ∷ small)
nearest_optimal_example = nearest_optimal 160 100 small small-IsIncreasing

nearest_160 : nearest_hz (100 ∷ small) 160 0 ≡ some 200
unfolding nearest_hz
nearest_160 = refl

lookup_150 : table_lookup (100 ∷ small) 150 ≡ some 200
unfolding table_lookup
lookup_150 = refl

nearest_290 : nearest_hz (100 ∷ small) 290 0 ≡ some 300
unfolding nearest_hz
nearest_290 = refl

not-In-small : ¬ In 150 (100 ∷ small)
not-In-small h = ground (arith, h)

nearest_300_150 : nearest_hz (100 ∷ small) 300 150 ≡ some 200
unfolding nearest_hz
nearest_300_150 = refl

abbrev no_values : ℕ → ℕ
no_values k = 0

-- Reported rates.
abbrev reported : List ℕ
reported = 400000000 ∷ 665600000 ∷ 1600000000 ∷ []

reported-IsIncreasing : IsIncreasing reported
reported-IsIncreasing = ground arith

reported_small : All (λ x. x ≤ rate_limit) reported
reported_small = ground arith

refresh-IsIncreasing_example :
    IsIncreasing (refresh_freq_table_row no_values mariko mem reported)
    × (length (refresh_freq_table_row no_values mariko mem reported) ≤ freq_list_max)
refresh-IsIncreasing_example =
    refresh-IsIncreasing no_values mariko mem reported reported-IsIncreasing reported_small
      (omega arith)

refresh_members_example :
    In 1600000000 (refresh_freq_table_row no_values mariko mem reported)
    ↔ (In 1600000000 reported × (lowest_hz mem ≤ 1600000000))
refresh_members_example = refresh_members no_values mariko mem reported 1600000000 (inr refl)
