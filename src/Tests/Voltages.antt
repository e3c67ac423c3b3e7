-- ===== src/Tests/Voltages.antt =====
-- Voltages.
use rcu.Base.{ℕ, ◌≤◌, ◌≡◌, refl, true, List, [], ◌∷◌, arith}
use rcu.Hoc.{mariko}
use rcu.Dvfs.{get_minimum_gpu_vmin, calculate_tbreak}
use rcu.Dvfs.Vmin.{vmin_mono}
use rcu.Dvfs.Hijack.{VoltData, pcv_hijack_gpu_volts}
use rcu.Dvfs.Hijack.Raised.{Reached, cached, hijacked, IsRaised, Reached-IsRaised}

vmin_2400 : get_minimum_gpu_vmin mariko 2400 0 ≡ 640
unfolding get_minimum_gpu_vmin
vmin_2400 = refl

vmin_1800 : get_minimum_gpu_vmin mariko 1800 1 ≡ 540
unfolding get_minimum_gpu_vmin
vmin_1800 = refl

tbreak_3 : calculate_tbreak mariko 3 ≡ 1683000000
unfolding calculate_tbreak
tbreak_3 = refl

vmin_mono_example : get_minimum_gpu_vmin mariko 1866 1 ≤ get_minimum_gpu_vmin mariko 2133 1
vmin_mono_example = vmin_mono mariko 1866 2133 1 (omega arith) (omega arith)

abbrev volts : List ℕ
volts = 500 ∷ 0 ∷ 610 ∷ []

abbrev after_cache : VoltData
after_cache = record { volt_table = volts; ram_vmin = 0; pcv_table = volts }

abbrev hijacked_twice : VoltData
hijacked_twice = pcv_hijack_gpu_volts true 560 (pcv_hijack_gpu_volts true 700 after_cache)

twice_Reached : Reached volts hijacked_twice
twice_Reached = hijacked true 560 _ (hijacked true 700 after_cache cached)

Reached-IsRaised_example : IsRaised volts hijacked_twice
Reached-IsRaised_example = Reached-IsRaised {table = volts} {d = hijacked_twice} twice_Reached

twice_table : hijacked_twice.pcv_table ≡ 560 ∷ 0 ∷ 610 ∷ []
unfolding pcv_hijack_gpu_volts
twice_table = refl
