-- ===== src/Loader/Ptm.antt =====
-- The patch of the module PTM: ptm/ptm.cpp and ptm/ptm.hpp. The table of performance modes has 16 entries
-- of 8 words; clocks are in Hz.
pub mod Modes
pub mod Table
use rcu.Base.{
  ℕ, zero, suc, ◌+◌, ◌*◌, Bool, true, false, not, ◌&&◌, ◌||◌, Option, none, some, ◌>>=◌, ◌==◌,
  if◌then◌else◌, u32,
}
use rcu.Loader.Scan.{Memory, patch_offset, success, succeeded, Patcher, Entry, apply, check_result}
use rcu.Loader.Custom.{CustomizeTable}

abbrev pub entry_cnt : ℕ
entry_cnt = 16

abbrev pub cpu_ptm_default : ℕ
cpu_ptm_default = 1020000000

abbrev pub cpu_ptm_dev_oc : ℕ
cpu_ptm_dev_oc = 1224000000

abbrev pub cpu_boost : ℕ
cpu_boost = 1785000000

abbrev pub mem_ptm_limit : ℕ
mem_ptm_limit = 1600000000

abbrev pub mem_ptm_alt : ℕ
mem_ptm_alt = 1331200000

abbrev pub mem_ptm_clamp : ℕ
mem_ptm_clamp = 1065600000

-- `CpuPtmBoost`, by whether the console is a Mariko.
unfoldable pub cpu_ptm_boost : CustomizeTable → Bool → Patcher
cpu_ptm_boost c is_mariko ptr m =
    let new =
      u32 ((if is_mariko then c.mariko_cpu_boost_clock else c.erista_cpu_boost_clock) * 1000) in
    if c.erista_cpu_boost_clock == 0 || c.mariko_cpu_boost_clock == 0
    then (success, m)
    else (success, patch_offset (ptr + 2) new (patch_offset (ptr + 1) new m))

-- `MemPtm`.
unfoldable pub mem_ptm : Patcher
mem_ptm ptr m =
    (success, patch_offset (ptr + 6) mem_ptm_limit (patch_offset (ptr + 5) mem_ptm_limit m))

-- `PtmEntryIsValid`.
abbrev pub ptm_entry_is_valid : ℕ → Memory → Bool
ptm_entry_is_valid ptr m =
    m (ptr + 1) == m (ptr + 2) && m (ptr + 3) == m (ptr + 4) && m (ptr + 5) == m (ptr + 6)

-- `PtmTablePatternFn`.
abbrev pub ptm_table_pattern_fn : ℕ → Memory → Bool
ptm_table_pattern_fn ptr m = ptm_entry_is_valid ptr m && m (ptr + 1) == cpu_ptm_default

-- The first loop of `Patch`: over the places for the table, from a pointer on.
unfoldable pub find_table : ℕ → ℕ → Memory → Option ℕ
find_table zero ptr m = none
find_table (suc places) ptr m =
    let later = find_table places (ptr + 1) m in
    if ptm_table_pattern_fn ptr m then some ptr else later

-- The `switch` over `cpu_freq_1`; `none` is `CRASH`.
abbrev pub patch_cpu : Entry → ℕ → Memory → Option (Entry × Memory)
patch_cpu cpu ptr m =
    if m (ptr + 1) == cpu_boost
    then some (apply cpu ptr m).1
    else if m (ptr + 1) == cpu_ptm_default || m (ptr + 1) == cpu_ptm_dev_oc
    then some (cpu, m)
    else none

-- The `switch` over `emc_freq_1`.
abbrev pub patch_mem : Bool → Entry → ℕ → Memory → Option (Entry × Memory)
patch_mem is_mariko mem ptr m =
    if m (ptr + 5) == mem_ptm_limit || m (ptr + 5) == mem_ptm_alt || m (ptr + 5) == mem_ptm_clamp
    then some (if is_mariko then (apply mem ptr m).1 else (mem, m))
    else none

-- One entry.
abbrev pub patch_entry : Bool → Entry → Entry → ℕ → Memory → Option (Entry × (Entry × Memory))
patch_entry is_mariko cpu mem ptr m =
    if not (ptm_entry_is_valid ptr m)
    then none
    else (patch_cpu cpu ptr m >>= λ p.
        patch_mem is_mariko mem ptr p.1 >>= λ q. some (p.0, (q.0, q.1)))

-- The second loop of `Patch`: the entries that are left, from a pointer on.
unfoldable pub patch_entries :
    Bool → ℕ → ℕ → Entry → Entry → Memory → Option (Entry × (Entry × Memory))
patch_entries is_mariko zero ptr cpu mem m = some (cpu, (mem, m))
patch_entries is_mariko (suc n) ptr cpu mem m =
    patch_entry is_mariko cpu mem ptr m >>= λ r. patch_entries is_mariko n (ptr + 8) r.0 r.1.0 r.1.1

abbrev pub cpu_ptm_boost_patch : CustomizeTable → Bool → ℕ → Entry
cpu_ptm_boost_patch c is_mariko count = record {
  patcher = cpu_ptm_boost c is_mariko;
  maximum = 2;
  pattern = none;
  value = 0;
  patched_count = count;
}

abbrev pub mem_ptm_patch : ℕ → Entry
mem_ptm_patch count = record {
  patcher = mem_ptm;
  maximum = 16;
  pattern = none;
  value = 0;
  patched_count = count;
}

-- The checks of the counts.
abbrev pub checked : Bool → Entry × (Entry × Memory) → Option Memory
checked is_mariko (cpu, (mem, m)) =
    if not (succeeded (check_result cpu))
    then none
    else if is_mariko && not (succeeded (check_result mem))
    then none
    else some m

-- `Patch`, where the table may stand at `places` words from `ptr` on; `none` is `CRASH`.
unfoldable pub patch : CustomizeTable → Bool → ℕ → ℕ → Memory → Option Memory
patch c is_mariko places ptr m = find_table places ptr m >>= λ table.
    patch_entries is_mariko entry_cnt table (cpu_ptm_boost_patch c is_mariko 0) (mem_ptm_patch 0) m
    >>= λ r. checked is_mariko r
