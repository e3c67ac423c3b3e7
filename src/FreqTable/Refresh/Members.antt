-- ===== src/FreqTable/Refresh/Members.antt =====
-- Which rates a refreshed table holds, and the rounds that its loop needs.
use rcu.Base.{
  ℕ, zero, suc, ◌+◌, ◌-◌, ◌*◌, ◌^◌, ◌≤◌, ◌<◌, ◌≡◌, ◌⊎◌, ◌↔◌, refl, Bool, true, false, List, [], ◌∷◌,
  ◌++◌, arith, u32, length, All, In, inr,
}
use native.Mathlib.Nat.{zero-add, suc-add}
use rcu.Hoc.{Module, cpu, gpu, mem, SocType, erista, mariko}
use rcu.Config.Key
use rcu.FreqTable.Caps.{is_assignable_hz}
use rcu.FreqTable.Refresh.Order.{rate_limit, top_of_grid-le}
use rcu.FreqTable.Refresh.{
  k_step, k_pcv_step, freq_list_max, grid_fuel, contains, grid_scan, tail_scan, top_of_grid,
  mariko_gpu_row, plain_row, keeps, row, refresh_freq_table_row,
}

contains-In : (f : ℕ) (l : List ℕ) → contains f l ≡ true → In f l
contains-In f [] h = cc
contains-In f (x ∷ l) h = ground (arith, contains-In f l)

plain_row_sound :
    (keep : ℕ → Bool) (x : ℕ) (freqs : List ℕ)
    → In x (plain_row keep freqs)
    → In x freqs × (keep x ≡ true)
unfolding plain_row
plain_row_sound keep x [] m = absurd m
plain_row_sound keep x (f ∷ freqs) m = ground (arith, plain_row_sound keep x freqs)

plain_row_complete :
    (keep : ℕ → Bool) (x : ℕ) (freqs : List ℕ)
    → In x freqs
    → keep x ≡ true
    → In x (plain_row keep freqs)
unfolding plain_row
plain_row_complete keep x [] m k = absurd m
plain_row_complete keep x (f ∷ freqs) m k = ground (arith, plain_row_complete keep x freqs)

In-append : (x : ℕ) (xs ys : List ℕ) → In x (xs ++ ys) → In x xs ⊎ In x ys
In-append x [] ys m = inr m
In-append x (y ∷ xs) ys m = ground (arith, In-append x xs ys)

grid_scan-reported :
    (freqs : List ℕ) (k_max fuel f room x : ℕ)
    → In x (grid_scan false freqs k_max fuel f room)
    → In x freqs
unfolding grid_scan
grid_scan-reported freqs k_max zero f room x m = absurd m
grid_scan-reported freqs k_max (suc fuel) f room x m = ground (
  arith,
  grid_scan-reported freqs k_max fuel (u32 (f + k_step)) (room - 1) x,
  grid_scan-reported freqs k_max fuel (u32 (f + k_step)) room x,
  contains-In f freqs,
)

tail_scan-reported :
    (m : Module) (k_max : ℕ) (freqs : List ℕ) (room x : ℕ)
    → In x (tail_scan m k_max freqs room)
    → In x freqs
unfolding tail_scan
tail_scan-reported m k_max [] room x h = absurd h
tail_scan-reported m k_max (f ∷ freqs) room x h =
    ground (
      arith,
      tail_scan-reported m k_max freqs (room - 1) x,
      tail_scan-reported m k_max freqs room x,
    )

-- More rounds change nothing where the fuel reaches beyond `kMax`.
grid_scan_enough :
    (middle : Bool) (freqs : List ℕ) (k_max fuel more f room : ℕ)
    → k_max + k_step < 2 ^ 32
    → k_max < f + fuel * k_step
    → grid_scan middle freqs k_max (fuel + more) f room ≡ grid_scan middle freqs k_max fuel f room
unfolding grid_scan
grid_scan_enough middle freqs k_max zero zero f room h e = refl
grid_scan_enough middle freqs k_max zero (suc more) f room h e = rw zero-add (ground arith)
grid_scan_enough middle freqs k_max (suc fuel) more f room h e =
    let next = u32 (f + k_step) in
    rw suc-add (
      ground (
        arith,
        grid_scan_enough middle freqs k_max fuel more next (room - 1) h,
        grid_scan_enough middle freqs k_max fuel more next room h,
      ))

-- For reported rates small enough that `kStep` can be added in 32 bits, more rounds than the model gives
-- the loop over the grid change nothing.
grid_fuel_enough :
    (middle : Bool) (freqs : List ℕ) (more : ℕ)
    → All (λ x. x ≤ rate_limit) freqs
    → grid_scan middle freqs (top_of_grid freqs) (grid_fuel + more) k_pcv_step freq_list_max
      ≡ grid_scan middle freqs (top_of_grid freqs) grid_fuel k_pcv_step freq_list_max
grid_fuel_enough middle freqs more b =
    let k_le = top_of_grid-le rate_limit freqs b in
    grid_scan_enough middle freqs (top_of_grid freqs) grid_fuel more k_pcv_step freq_list_max
      (omega (arith, k_le)) (omega (arith, k_le))

mariko_gpu_row-reported : (freqs : List ℕ) (x : ℕ) → In x (mariko_gpu_row false freqs) → In x freqs
unfolding mariko_gpu_row
mariko_gpu_row-reported freqs x m =
    let k_max = top_of_grid freqs in
    let grid = grid_scan false freqs k_max grid_fuel k_pcv_step freq_list_max in
    let room = freq_list_max - length grid in
    ground (
      arith,
      In-append x grid (tail_scan gpu k_max freqs room) m,
      grid_scan-reported freqs k_max grid_fuel k_pcv_step freq_list_max x,
      tail_scan-reported gpu k_max freqs room x,
    )

keeps-assignable :
    (values : ℕ → ℕ) (soc : SocType) (m : Module) (x : ℕ)
    → keeps values soc m x ≡ true
    → is_assignable_hz m x ≡ true
unfolding is_assignable_hz
keeps-assignable values erista gpu x h = refl
keeps-assignable values _ _ x h = h

row-reported :
    (values : ℕ → ℕ) (soc : SocType) (m : Module) (freqs : List ℕ) (x : ℕ)
    → values Key.mariko_middle_freqs ≡ 0
    → In x (row values soc m freqs)
    → In x freqs × (is_assignable_hz m x ≡ true)
unfolding is_assignable_hz
row-reported values mariko gpu freqs x off h = (mariko_gpu_row-reported freqs x (rw off at h), refl)
row-reported values soc m freqs x off h =
    let (there, kept) = plain_row_sound (keeps values soc m) x freqs h in
    (there, keeps-assignable values soc m x kept)

-- With `MarikoMiddleFreqs` off, `RefreshFreqTableRow` invents no rate: each entry of the table is one
-- that PCV reported, and one that may be set for the module.
pub refresh_reported :
    (values : ℕ → ℕ) (soc : SocType) (m : Module) (freqs : List ℕ) (x : ℕ)
    → values Key.mariko_middle_freqs ≡ 0
    → In x (refresh_freq_table_row values soc m freqs)
    → In x freqs × (is_assignable_hz m x ≡ true)
unfolding refresh_freq_table_row
refresh_reported values soc m freqs x off h = row-reported values soc m freqs x off h

-- For the CPU and the memory `RefreshFreqTableRow` keeps every reported rate that may be set.
refresh_complete :
    (values : ℕ → ℕ) (soc : SocType) (m : Module) (freqs : List ℕ) (x : ℕ)
    → (m ≡ cpu) ⊎ (m ≡ mem)
    → In x freqs
    → is_assignable_hz m x ≡ true
    → In x (refresh_freq_table_row values soc m freqs)
unfolding refresh_freq_table_row
refresh_complete values erista cpu freqs x c m a = plain_row_complete _ x freqs m a
refresh_complete values erista mem freqs x c m a = plain_row_complete _ x freqs m a
refresh_complete values mariko cpu freqs x c m a = plain_row_complete _ x freqs m a
refresh_complete values mariko mem freqs x c m a = plain_row_complete _ x freqs m a
refresh_complete values soc _ freqs x c m a = absurd (ground arith)

-- The lowest rate that may be set.
abbrev pub lowest_hz : Module → ℕ
lowest_hz cpu = 500000000
lowest_hz mem = 665600000
lowest_hz _ = 0

assignable_iff :
    (m : Module) (x : ℕ) → (m ≡ cpu) ⊎ (m ≡ mem) → (is_assignable_hz m x ≡ true) ↔ (lowest_hz m ≤ x)
unfolding is_assignable_hz
assignable_iff cpu x c = ground arith
assignable_iff mem x c = ground arith
assignable_iff _ x c = absurd (ground arith)

refresh_sound :
    (values : ℕ → ℕ) (soc : SocType) (m : Module) (freqs : List ℕ) (x : ℕ)
    → (m ≡ cpu) ⊎ (m ≡ mem)
    → In x (refresh_freq_table_row values soc m freqs)
    → In x freqs × (is_assignable_hz m x ≡ true)
unfolding refresh_freq_table_row
refresh_sound values erista cpu freqs x c h = plain_row_sound _ x freqs h
refresh_sound values erista mem freqs x c h = plain_row_sound _ x freqs h
refresh_sound values mariko cpu freqs x c h = plain_row_sound _ x freqs h
refresh_sound values mariko mem freqs x c h = plain_row_sound _ x freqs h
refresh_sound values soc _ freqs x c h = absurd (ground arith)

-- For the CPU and the memory, on both SoCs and with any settings, the table that `RefreshFreqTableRow`
-- makes holds exactly the reported rates that are not below the lowest one that may be set, which is
-- 500 MHz for the CPU and 665.6 MHz for the memory.
pub refresh_members :
    (values : ℕ → ℕ) (soc : SocType) (m : Module) (freqs : List ℕ) (x : ℕ)
    → (m ≡ cpu) ⊎ (m ≡ mem)
    → In x (refresh_freq_table_row values soc m freqs) ↔ (In x freqs × (lowest_hz m ≤ x))
refresh_members values soc m freqs x c =
    let (to, from) = assignable_iff m x c in
    (
      (λ h. let (there, fits) = refresh_sound values soc m freqs x c h in (there, to fits)),
      (λ h. refresh_complete values soc m freqs x c h.0 (from h.1)),
    )
