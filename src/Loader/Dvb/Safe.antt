-- ===== src/Loader/Dvb/Safe.antt =====
-- The table of `MemFreqDvbTable` for the list that `MtcGenerateFreqTables` has made.
use rcu.Base.{ℕ, ◌≤◌, ◌<◌, sym, List, [], ◌∷◌, map, arith, subst, Option, none, some, All, All-map}
use rcu.Loader.Custom.{CustomizeTable}
use rcu.Loader.Mtc.{emc_clk_os_limit, mtc_generate_freq_tables}
use rcu.Loader.Mtc.Steps.{Made}
use rcu.Loader.Mtc.Order.{IsFinal, mtc_generate_freq_tables-IsFinal}
use rcu.Loader.Dvb.{DvbEntry, emc_dvb_table_oc}
use rcu.Loader.Dvb.Voltages.{IsWithin, row_of, emc_dvb_table_oc-row_of, row_of-IsWithin}

map-IsWithin :
    (c : CustomizeTable) (fs : List ℕ)
    → All
        (λ (e : DvbEntry). IsWithin c e.volt)
        (map (λ f. record { freq = f; volt = (row_of c f).volt }) fs)
map-IsWithin c [] = tt
map-IsWithin c (f ∷ fs) = (row_of-IsWithin c f, map-IsWithin c fs)

-- For a limit above 1600 MHz and up to 3500 MHz, `MtcGenerateFreqTables` returns a list for which every
-- voltage in the table of `MemFreqDvbTable` is at least 637 mV and at most the limit of its column,
-- whatever `emcDvbShift` is: that is `marikoSocVmax` where it is above 1000, else 1050, 1025 or 1000 mV.
pub mtc_dvb-IsWithin :
    (c : CustomizeTable) (old : List ℕ)
    → emc_clk_os_limit < c.mariko_emc_max_clock
    → c.mariko_emc_max_clock ≤ 3500000
    → Made
        (λ fs. All (λ (e : DvbEntry). IsWithin c e.volt) (emc_dvb_table_oc c fs))
        (mtc_generate_freq_tables c old)
mtc_dvb-IsWithin c old h le =
    from (mtc_generate_freq_tables c old) (mtc_generate_freq_tables-IsFinal c old h le)
  where
    from :
        (r : Option (List ℕ))
        → Made (IsFinal c.mariko_emc_max_clock) r
        → Made (λ fs. All (λ (e : DvbEntry). IsWithin c e.volt) (emc_dvb_table_oc c fs)) r
    from none h = h
    from (some fs) h =
        subst (All (λ (e : DvbEntry). IsWithin c e.volt))
          (sym
            (emc_dvb_table_oc-row_of c fs h.0.0 (All-map (λ f k. omega (arith, k, le)) fs h.0.1)))
          (map-IsWithin c fs)
