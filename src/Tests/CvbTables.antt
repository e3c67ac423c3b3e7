-- ===== src/Tests/CvbTables.antt =====
-- The table of the GPU's voltages of the loader.
use rcu.Base.{ℕ, ◌+◌, ◌-◌, ◌*◌, ◌≡◌, refl, arith, true, some, List, [], ◌∷◌, get_elem?}
use rcu.Loader.Scan.{success, invalid_gpu_dvfs}
use rcu.Loader.Custom.{CvbEntry, CustomizeTable}
use rcu.Loader.Cvb.{c0, set_volts, lower_all, lowered, gpu_freq_cvb_table}
use rcu.Loader.Cvb.Offset.{gpu_freq_cvb_table-lowered}
use rcu.Tests.Loaders.{custom}

abbrev cvb_entry : ℕ → ℕ → CvbEntry
cvb_entry freq volt = record {
  freq = freq;
  dfll = 0 ∷ 0 ∷ 0 ∷ 0 ∷ 0 ∷ 0 ∷ [];
  pll = volt ∷ 0 ∷ 0 ∷ 0 ∷ 0 ∷ 0 ∷ [];
}

abbrev default_table : List CvbEntry
default_table = cvb_entry 76800 610000 ∷ cvb_entry 153600 610000 ∷ []

abbrev mapped_table : List CvbEntry
mapped_table = cvb_entry 76800 610000 ∷ cvb_entry 153600 610000 ∷ cvb_entry 0 0 ∷ cvb_entry 0 0 ∷ []

abbrev with_offset : CustomizeTable
with_offset = record custom {
  mariko_gpu_dvfs_table =
      cvb_entry 76800 600000 ∷ cvb_entry 153600 605000 ∷ cvb_entry 230400 610000 ∷ [];
}

-- The offset of 20 mV is taken off twice from the first entry, and once from the second, whose
-- voltage is fixed at 700 mV.
volts_written :
    (gpu_freq_cvb_table true with_offset default_table mapped_table).1
    ≡ cvb_entry 76800 560000
      ∷ cvb_entry 153600 680000
      ∷ cvb_entry 230400 570000
      ∷ cvb_entry 0 0
      ∷ []
unfolding gpu_freq_cvb_table set_volts lower_all lowered
volts_written = refl

not_the_default :
    gpu_freq_cvb_table true with_offset default_table (cvb_entry 76800 600000 ∷ [])
    ≡ (invalid_gpu_dvfs, cvb_entry 76800 600000 ∷ [])
unfolding gpu_freq_cvb_table
not_the_default = refl

gpu_freq_cvb_table-lowered_example :
    ((gpu_freq_cvb_table true with_offset default_table mapped_table).0 ≡ success)
    × (r : CvbEntry) × (get_elem?
          (gpu_freq_cvb_table true with_offset default_table mapped_table).1
          1
        ≡ some r)
    × (r.freq ≡ 153600)
    × (c0 r.pll ≡ 700 * 1000 - (0 + 1) * (20 * 1000))
gpu_freq_cvb_table-lowered_example =
    gpu_freq_cvb_table-lowered true with_offset default_table mapped_table 1
      (cvb_entry 153600 605000) refl refl (omega arith) (omega arith)
