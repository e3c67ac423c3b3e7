-- ===== src/Loader/Mtc/Order.antt =====
-- The list that `MtcGenerateFreqTables` makes for a limit that has passed `SafetyCheck`.
use rcu.Base.{
  ℕ, ◌<◌, ◌≤◌, ◌⊎◌, inl, inr, Option, none, some, List, arith, leb, ◌==◌, length, In,
  if_then_else_ind, leb→le, ◌>>=◌, subst, sym,
}
use rcu.Loader.Custom.{CustomizeTable, dvfs_table_entry_limit}
use rcu.Loader.Mtc.{
  emc_clk_os_limit, emc_list_default, jedec_freqs, step_freqs_133, resize, listed_table, step_loop,
  stepped_table, mtc_generate_freq_tables,
}
use rcu.Loader.Mtc.Lists.{IsTable, take-All, take-IsIncreasing, length-take_le, take-all}
use rcu.Loader.Mtc.Steps.{
  Made, IsWhole, whole, jedec-IsWhole, step-IsWhole, hundred-Made, sixty-Made, short_66,
  short_66_low,
}

-- What the cut leaves.
abbrev pub IsFinal : ℕ → List ℕ → Type 0
IsFinal max fs = IsTable max fs × (length fs ≤ dvfs_table_entry_limit)

resize-IsFinal : (max n : ℕ) (fs : List ℕ) → IsWhole max n fs → IsFinal max (resize fs)
resize-IsFinal max n fs h = (
  (
    take-IsIncreasing dvfs_table_entry_limit fs h.0.0,
    take-All (λ f. f ≤ max) dvfs_table_entry_limit fs h.0.1,
  ),
  length-take_le dvfs_table_entry_limit fs,
)

resize-In :
    (max n : ℕ) (fs : List ℕ) → IsWhole max n fs → n ≤ dvfs_table_entry_limit → In max (resize fs)
resize-In max n fs h le =
    subst (In max) (sym (take-all dvfs_table_entry_limit fs (omega (arith, le, h.2)))) h.1

-- What holds of the list after the cut, where the loop has made it.
stepped_table-Made :
    (P Q : List ℕ → Type 0) (max rate : ℕ)
    → ((fs : List ℕ) → P fs → Q (resize fs))
    → Made P (step_loop 40 rate 1 max emc_list_default)
    → Made Q (stepped_table max rate)
stepped_table-Made P Q max rate cut h = from (step_loop 40 rate 1 max emc_list_default) h
  where
    from : (r : Option (List ℕ)) → Made P r → Made Q (r >>= λ fs. some (resize fs))
    from none h = h
    from (some fs) h = cut fs h

-- A property of the four lists holds of the one that `stepMode` chooses.
branches :
    (Q : List ℕ → Type 0) (c : CustomizeTable) (old : List ℕ)
    → emc_clk_os_limit < c.mariko_emc_max_clock
    → Made Q (stepped_table c.mariko_emc_max_clock 100000)
    → Q (listed_table c.mariko_emc_max_clock jedec_freqs)
    → Q (listed_table c.mariko_emc_max_clock step_freqs_133)
    → (((1 ≤ c.step_mode) × (c.step_mode ≤ 3) → ⊥)
        → Made Q (stepped_table c.mariko_emc_max_clock 66667))
    → Made Q (mtc_generate_freq_tables c old)
unfolding mtc_generate_freq_tables
branches Q c old h one two three other =
    if_then_else_ind (Made Q) (leb c.mariko_emc_max_clock emc_clk_os_limit) (some old) _
      (λ low. absurd (omega (arith, h, leb→le c.mariko_emc_max_clock emc_clk_os_limit low)))
      (λ high.
        if_then_else_ind (Made Q) (c.step_mode == 1) (stepped_table c.mariko_emc_max_clock 100000) _
          (λ e. one)
          (λ n.
            if_then_else_ind (Made Q) (c.step_mode == 2)
              (some (listed_table c.mariko_emc_max_clock jedec_freqs)) _ (λ e. two)
              (λ m.
                if_then_else_ind (Made Q) (c.step_mode == 3)
                  (some (listed_table c.mariko_emc_max_clock step_freqs_133))
                  (stepped_table c.mariko_emc_max_clock 66667) (λ e. three)
                  (λ k. other (λ r. absurd (ground (arith, n, m, k, r.0, r.1)))))))

-- For a limit above 1600 MHz and up to 3500 MHz, `MtcGenerateFreqTables` returns a list: its clocks
-- increase, none is above the limit, and there are 31 at most.
pub mtc_generate_freq_tables-IsFinal :
    (c : CustomizeTable) (old : List ℕ)
    → emc_clk_os_limit < c.mariko_emc_max_clock
    → c.mariko_emc_max_clock ≤ 3500000
    → Made (IsFinal c.mariko_emc_max_clock) (mtc_generate_freq_tables c old)
mtc_generate_freq_tables-IsFinal c old h le =
    branches (IsFinal max) c old h
      (stepped_table-Made (IsWhole max 23) (IsFinal max) max 100000 (resize-IsFinal max 23)
        (hundred-Made max h le))
      (resize-IsFinal max 18 (whole max jedec_freqs) (jedec-IsWhole max h))
      (resize-IsFinal max 18 (whole max step_freqs_133) (step-IsWhole max h))
      (λ n.
        stepped_table-Made (IsWhole max 32) (IsFinal max) max 66667 (resize-IsFinal max 32)
          (sixty-Made max 29 (omega arith) (omega arith) (short_66 max le) h))
  where
    max : ℕ
    max = c.mariko_emc_max_clock

-- The list that `MtcGenerateFreqTables` returns for such a limit contains the limit itself, where
-- `stepMode` is 1, 2 or 3 or the limit is below 3466 MHz.
pub mtc_generate_freq_tables-In :
    (c : CustomizeTable) (old : List ℕ)
    → emc_clk_os_limit < c.mariko_emc_max_clock
    → c.mariko_emc_max_clock ≤ 3500000
    → ((1 ≤ c.step_mode) × (c.step_mode ≤ 3)) ⊎ (c.mariko_emc_max_clock < 3466000)
    → Made (In c.mariko_emc_max_clock) (mtc_generate_freq_tables c old)
mtc_generate_freq_tables-In c old h le short =
    branches (In max) c old h
      (stepped_table-Made (IsWhole max 23) (In max) max 100000
        (λ fs w. resize-In max 23 fs w (omega arith)) (hundred-Made max h le))
      (resize-In max 18 (whole max jedec_freqs) (jedec-IsWhole max h) (omega arith))
      (resize-In max 18 (whole max step_freqs_133) (step-IsWhole max h) (omega arith))
      (λ n.
        stepped_table-Made (IsWhole max 31) (In max) max 66667
          (λ fs w. resize-In max 31 fs w (omega arith))
          (sixty-Made max 28 (omega arith) (omega arith) (short_66_low max (below n short)) h))
  where
    max : ℕ
    max = c.mariko_emc_max_clock

    below :
        ((1 ≤ c.step_mode) × (c.step_mode ≤ 3) → ⊥)
        → ((1 ≤ c.step_mode) × (c.step_mode ≤ 3)) ⊎ (max < 3466000)
        → max < 3466000
    below n (inl r) = absurd (n r)
    below n (inr b) = b
