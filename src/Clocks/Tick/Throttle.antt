-- ===== src/Clocks/Tick/Throttle.antt =====
-- A tick in which the safety features act.
use rcu.Base.{ℕ, List, [], ◌∷◌}
use rcu.Hoc.{Module}
use rcu.Config.Key
use rcu.Clocks.{Clocks, Call, set_hz}

-- The rates that are set, among the calls.
abbrev pub rates : List Call → List (Module × ℕ)
rates [] = []
rates (set_hz m hz ∷ cs) = (m, hz) ∷ rates cs
rates (c ∷ cs) = rates cs
