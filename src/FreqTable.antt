-- ===== src/FreqTable.antt =====
-- The frequency tables of the clock manager and the searches in them
-- (Source/ryazha-clk/sysmodule/src/mgr/clock_manager.cpp and mgr/governor.cpp).
pub mod Search
pub mod Nearest
pub mod Caps
pub mod Refresh
use rcu.Base.{
  ℕ, ◌+◌, ◌/◌, ◌^◌, ◌-◌, Option, none, some, List, [], ◌∷◌, Bool, ◌&&◌, ◌||◌, ltb, leb, u32, length,
  get_elem?, if◌then◌else◌,
}

-- The first `count` entries of `FreqTable`; no function reads the entries past them but through
-- an empty table, which the options below report.
abbrev pub FreqTable : Type 0
FreqTable = List ℕ

-- The loop of `GetNearestHz`, at `freqs[i]` with the entries behind it. An average of two `uint32_t`
-- is taken in 64 bits, so nothing wraps.
pub nearest_from : ℕ → ℕ → ℕ → List ℕ → ℕ
nearest_from in_hz max_hz f [] = f
nearest_from in_hz max_hz f (g ∷ rest) =
    if ltb 0 max_hz && leb max_hz f
    then f
    else if leb in_hz ((f + g) / 2)
    then f
    else nearest_from in_hz max_hz g rest

-- `GetNearestHz`. An empty table makes `count - 1` wrap and the loop run past the array: `none`.
unfoldable pub nearest_hz : FreqTable → ℕ → ℕ → Option ℕ
unfolding nearest_from
nearest_hz [] in_hz max_hz = none
nearest_hz (f ∷ rest) in_hz max_hz = some (nearest_from in_hz max_hz f rest)

-- The loop of `TableIndexForHz` from index `i` on; `none` at its end.
first_at_least : ℕ → ℕ → List ℕ → Option ℕ
first_at_least hz i [] = none
first_at_least hz i (f ∷ rest) = if leb hz f then some i else first_at_least hz (i + 1) rest

abbrev or_last : Option ℕ → ℕ → ℕ
or_last none count = u32 (count + 2 ^ 32 - 1)
or_last (some i) count = i

-- `TableIndexForHz`.
unfoldable pub table_index_for_hz : FreqTable → ℕ → ℕ
unfolding first_at_least
table_index_for_hz table hz = or_last (first_at_least hz 0 table) (length table)

-- `table.list[TableIndexForHz(table, hz)]`; `none` where the index lies past the table.
unfoldable pub table_lookup : FreqTable → ℕ → Option ℕ
unfolding table_index_for_hz
table_lookup table hz = get_elem? table (table_index_for_hz table hz)
