-- ===== src/FreqTable/Refresh/Order.antt =====
-- The order and the size of a refreshed table.
use rcu.Base.{
  ℕ, zero, suc, ◌+◌, ◌-◌, ◌^◌, ◌≤◌, ◌<◌, max, ◌≡◌, Bool, true, List, [], ◌∷◌, ◌++◌, arith, u32,
  length, All, All-map, IsIncreasing,
}
use rcu.Hoc.{Module, gpu, SocType, erista, mariko}
use rcu.FreqTable.Refresh.{
  k_step, k_pcv_step, freq_list_max, grid_fuel, contains, grid_scan, tail_scan, top_of_grid,
  paired_max, largest, mariko_gpu_row, plain_row, keeps, row, refresh_freq_table_row,
}

-- The list climbs from `lo` on, and stays within `hi`.
abbrev pub Climbs : ℕ → ℕ → List ℕ → Type 0
Climbs lo hi [] = Unit
Climbs lo hi (x ∷ xs) = (lo ≤ x) × (x ≤ hi) × Climbs (suc x) hi xs

Climbs-from : (lo lo' hi : ℕ) (l : List ℕ) → lo ≤ lo' → Climbs lo' hi l → Climbs lo hi l
Climbs-from lo lo' hi [] h c = tt
Climbs-from lo lo' hi (x ∷ l) h c = (omega arith, c.1, c.2)

Climbs-All : (lo hi : ℕ) (l : List ℕ) → Climbs lo hi l → All (λ x. lo ≤ x) l
Climbs-All lo hi [] c = tt
Climbs-All lo hi (x ∷ l) c = (c.0, All-map (λ y h. omega arith) l (Climbs-All (suc x) hi l c.2))

Climbs-IsIncreasing : (lo hi : ℕ) (l : List ℕ) → Climbs lo hi l → IsIncreasing l
Climbs-IsIncreasing lo hi [] c = tt
Climbs-IsIncreasing lo hi (x ∷ l) c =
    (Climbs-All (suc x) hi l c.2, Climbs-IsIncreasing (suc x) hi l c.2)

Climbs-append :
    (lo mid hi : ℕ) (xs ys : List ℕ)
    → Climbs lo mid xs
    → mid ≤ hi
    → lo ≤ suc mid
    → Climbs (suc mid) hi ys
    → Climbs lo hi (xs ++ ys)
Climbs-append lo mid hi [] ys c h l d = Climbs-from lo (suc mid) hi ys l d
Climbs-append lo mid hi (x ∷ xs) ys c h l d =
    (c.0, omega arith, Climbs-append (suc x) mid hi xs ys c.2 h (omega arith) d)

-- The entries of the grid climb from `f` up to `k_max`, and there is room for them.
grid_scan-Climbs :
    (middle : Bool) (freqs : List ℕ) (k_max fuel f room : ℕ)
    → k_max + k_step < 2 ^ 32
    → Climbs f k_max (grid_scan middle freqs k_max fuel f room)
      × (length (grid_scan middle freqs k_max fuel f room) ≤ room)
unfolding grid_scan
grid_scan-Climbs middle freqs k_max zero f room h = (tt, omega arith)
grid_scan-Climbs middle freqs k_max (suc fuel) f room h =
    let next = u32 (f + k_step) in
    let put = grid_scan-Climbs middle freqs k_max fuel next (room - 1) h in
    let skip = grid_scan-Climbs middle freqs k_max fuel next room h in
    ground (
      arith,
      put,
      skip,
      Climbs-from (suc f) next k_max (grid_scan middle freqs k_max fuel next (room - 1)),
      Climbs-from f next k_max (grid_scan middle freqs k_max fuel next room),
    )

-- So do the rates above the grid.
tail_scan-Climbs :
    (m : Module) (k_max lo hi room : ℕ) (freqs : List ℕ)
    → Climbs lo hi freqs
    → Climbs (max lo (suc k_max)) hi (tail_scan m k_max freqs room)
      × (length (tail_scan m k_max freqs room) ≤ room)
unfolding tail_scan
tail_scan-Climbs m k_max lo hi room [] c = (tt, omega arith)
tail_scan-Climbs m k_max lo hi room (f ∷ freqs) c =
    let floor = max (suc f) (suc k_max) in
    ground (
      arith,
      tail_scan-Climbs m k_max (suc f) hi (room - 1) freqs c.2,
      tail_scan-Climbs m k_max (suc f) hi room freqs c.2,
      Climbs-from (suc f) floor hi (tail_scan m k_max freqs (room - 1)),
      Climbs-from (max lo (suc k_max)) floor hi (tail_scan m k_max freqs room),
    )

plain_row-Climbs :
    (keep : ℕ → Bool) (lo hi : ℕ) (freqs : List ℕ)
    → Climbs lo hi freqs
    → Climbs lo hi (plain_row keep freqs) × (length (plain_row keep freqs) ≤ length freqs)
unfolding plain_row
plain_row-Climbs keep lo hi [] c = (tt, omega arith)
plain_row-Climbs keep lo hi (f ∷ freqs) c = ground (
  arith,
  plain_row-Climbs keep (suc f) hi freqs c.2,
  Climbs-from lo (suc f) hi (plain_row keep freqs),
)

Climbs-of_increasing :
    (lo hi : ℕ) (l : List ℕ)
    → IsIncreasing l
    → All (λ x. lo ≤ x) l
    → All (λ x. x ≤ hi) l
    → Climbs lo hi l
Climbs-of_increasing lo hi [] s a b = tt
Climbs-of_increasing lo hi (x ∷ l) s a b = (a.0, b.0, Climbs-of_increasing (suc x) hi l s.1 s.0 b.1)

contains-le : (hi f : ℕ) (l : List ℕ) → All (λ x. x ≤ hi) l → contains f l ≡ true → f ≤ hi
contains-le hi f [] b h = cc
contains-le hi f (x ∷ l) b h = ground (arith, contains-le hi f l b.1)

paired_max-le :
    (hi : ℕ) (freqs rest : List ℕ) (k : ℕ)
    → All (λ x. x ≤ hi) freqs
    → k ≤ hi
    → paired_max freqs rest k ≤ hi
unfolding paired_max
paired_max-le hi freqs [] k b h = h
paired_max-le hi freqs (f ∷ rest) k b h =
    paired_max-le hi freqs rest _ b (ground (arith, contains-le hi (u32 (f + k_step)) freqs b))

largest-le : (hi : ℕ) (l : List ℕ) (k : ℕ) → All (λ x. x ≤ hi) l → k ≤ hi → largest l k ≤ hi
unfolding largest
largest-le hi [] k b h = h
largest-le hi (f ∷ l) k b h = largest-le hi l _ b.1 (ground arith)

pub top_of_grid-le : (hi : ℕ) (freqs : List ℕ) → All (λ x. x ≤ hi) freqs → top_of_grid freqs ≤ hi
unfolding top_of_grid
top_of_grid-le hi freqs b =
    ground
      (arith, paired_max-le hi freqs freqs 0 b (omega arith), largest-le hi freqs 0 b (omega arith))

length-append : (xs ys : List ℕ) → length (xs ++ ys) ≡ length xs + length ys
length-append [] ys = omega arith
length-append (x ∷ xs) ys = omega (arith, length-append xs ys)

-- The largest 32-bit rate to which `kStep` can be added.
abbrev pub rate_limit : ℕ
rate_limit = 2 ^ 32 - 1 - k_step

mariko_gpu_row-Climbs :
    (middle : Bool) (freqs : List ℕ)
    → Climbs 0 rate_limit freqs
    → All (λ x. x ≤ rate_limit) freqs
    → Climbs 0 rate_limit (mariko_gpu_row middle freqs)
      × (length (mariko_gpu_row middle freqs) ≤ freq_list_max)
unfolding mariko_gpu_row
mariko_gpu_row-Climbs middle freqs c b =
    let k_max = top_of_grid freqs in
    let k_le = top_of_grid-le rate_limit freqs b in
    let grid = grid_scan middle freqs k_max grid_fuel k_pcv_step freq_list_max in
    let g =
      grid_scan-Climbs middle freqs k_max grid_fuel k_pcv_step freq_list_max
        (omega (arith, k_le)) in
    let room = freq_list_max - length grid in
    let t = tail_scan-Climbs gpu k_max 0 rate_limit room freqs c in
    let rest = tail_scan gpu k_max freqs room in
    (
      Climbs-append 0 k_max rate_limit grid rest
          (Climbs-from 0 k_pcv_step k_max grid (omega arith) g.0) k_le (omega arith)
          (Climbs-from (suc k_max) (max 0 (suc k_max)) rate_limit rest (omega arith) t.0),
      omega (arith, length-append grid rest, g.1, t.1),
    )

row-Climbs :
    (values : ℕ → ℕ) (soc : SocType) (m : Module) (freqs : List ℕ)
    → Climbs 0 rate_limit freqs
    → All (λ x. x ≤ rate_limit) freqs
    → length freqs ≤ freq_list_max
    → Climbs 0 rate_limit (row values soc m freqs)
      × (length (row values soc m freqs) ≤ freq_list_max)
row-Climbs values mariko gpu freqs c b n = mariko_gpu_row-Climbs _ freqs c b
row-Climbs values mariko m freqs c b n =
    let p = plain_row-Climbs (keeps values mariko m) 0 rate_limit freqs c in
    (p.0, omega (arith, p.1))
row-Climbs values erista m freqs c b n =
    let p = plain_row-Climbs (keeps values erista m) 0 rate_limit freqs c in
    (p.0, omega (arith, p.1))

-- From rates that PCV reports in increasing order, at most 48 of them and each small enough that
-- `kStep` can be added in 32 bits, `RefreshFreqTableRow` makes an increasing table of at most 48
-- entries, for every module, SoC and setting.
pub refresh-IsIncreasing :
    (values : ℕ → ℕ) (soc : SocType) (m : Module) (freqs : List ℕ)
    → IsIncreasing freqs
    → All (λ x. x ≤ rate_limit) freqs
    → length freqs ≤ freq_list_max
    → IsIncreasing (refresh_freq_table_row values soc m freqs)
      × (length (refresh_freq_table_row values soc m freqs) ≤ freq_list_max)
unfolding refresh_freq_table_row
refresh-IsIncreasing values soc m freqs s b n =
    let c = Climbs-of_increasing 0 rate_limit freqs s (All-map (λ x h. omega arith) freqs b) b in
    let r = row-Climbs values soc m freqs c b n in
    (Climbs-IsIncreasing 0 rate_limit (row values soc m freqs) r.0, r.1)
