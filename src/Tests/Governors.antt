-- ===== src/Tests/Governors.antt =====
-- The governor.
use rcu.Base.{ℕ, ◌≡◌, refl, true, false, some, List, [], ◌∷◌, All, arith}
use rcu.FreqTable.{FreqTable, table_lookup}
use rcu.FreqTable.Caps.{is_assignable_hz}
use rcu.Governor.{State, Sample, demand_at, cpu_ramp, cpu_round, gpu_round, gpu_ramp, round, start}
use rcu.Governor.Hold.{begin, next, IsSteady, Reached-IsSteady}
use rcu.Governor.Limits.{IsRates}
use rcu.Governor.Vrr.{VrrState, VrrSample, rate_for, vrr_round}
use rcu.Governor.Vrr.Calls.{IsProper, vrr_round-IsProper}
use rcu.Governor.Flags.{Flags}
use rcu.Governor.Flags.Edges.{IsSettled}

abbrev rest : List ℕ
rest = 1000000000 ∷ 1500000000 ∷ []

abbrev table : FreqTable
table = 600000000 ∷ rest

table-IsRates : IsRates table
table-IsRates = ground arith

demand_600 : demand_at table 600 0 1000000000 ≡ some 1000000000
unfolding demand_at table_lookup
demand_600 = refl

demand_300 : demand_at table 300 0 1000000000 ≡ some 600000000
unfolding demand_at table_lookup
demand_300 = refl

abbrev sample : Sample
sample = record {
  enabled = true;
  boost = false;
  table = table;
  load = 600;
  target_hz = 0;
  max_hz = 1000000000;
  config_min = 612000000;
}

abbrev after_first : State
after_first = record start { in_boost_mode = false; cpu_tick = 1; cpu_last_hz = 1000000000 }

first_cpu : cpu_round start sample ≡ some (after_first, some 1000000000)
unfolding cpu_round cpu_ramp demand_at table_lookup is_assignable_hz
first_cpu = refl

abbrev after_round : State
after_round = record after_first { gpu_last_hz = 1000000000 }

first_round : round true start sample sample ≡ some (after_round, some 1000000000, some 1000000000)
unfolding round cpu_round gpu_round cpu_ramp gpu_ramp demand_at table_lookup is_assignable_hz
first_round = refl

Reached-IsSteady_example : IsSteady after_round
Reached-IsSteady_example =
    Reached-IsSteady {s = after_round} (next true sample sample begin first_round)

abbrev eight : List ℕ
eight = 5 ∷ 6 ∷ 5 ∷ 6 ∷ 5 ∷ 6 ∷ 5 ∷ 6 ∷ []

abbrev fast : State
fast = record start { gpu_last_hz = 900 }

rate_for_20 : rate_for 40 60 20 ≡ some 40
unfolding rate_for
rate_for_20 = refl

abbrev vrr_start : VrrState
vrr_start = record { vrr_tick = 0; focus_tick = 0 }

abbrev seen : ℕ → VrrSample
seen target = record {
  enabled = true;
  docked = false;
  salty_nx = true;
  focus_failed = false;
  out_of_focus = false;
  fps = 25;
  target_hz = target;
  aula = false;
}

vrr_round-IsProper_example : All (IsProper (seen 60)) (vrr_round vrr_start (seen 60)).1
vrr_round-IsProper_example = vrr_round-IsProper vrr_start (seen 60) (omega arith) (omega arith)

abbrev on : Flags
on = record {
  cpu = true;
  gpu = false;
  vrr = false;
  last_cpu = true;
  last_gpu = false;
  last_vrr = false;
}

on-IsSettled : IsSettled on
on-IsSettled = record { cpu = refl; gpu = refl; vrr = refl }
