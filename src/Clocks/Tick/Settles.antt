-- ===== src/Clocks/Tick/Settles.antt =====
-- What `RefreshContext` leaves: the context agrees with the board and with the overrides.
use rcu.Base.{ℕ, zero, suc, ◌≡◌, ◌⊎◌, refl, ◌∙◌, Bool, List, [], ◌∷◌, arith}
use rcu.Hoc.{
  Module, cpu, gpu, mem, governor, display, module_index, Profile, handheld, handheld_charging,
  handheld_charging_usb, handheld_charging_official, docked,
}
use rcu.Clocks.{Clocks, Call}
use rcu.Clocks.Tick.{refresh_rate, refresh_override, refresh_modules}

abbrev from_index : ℕ → Module
from_index zero = cpu
from_index (suc zero) = gpu
from_index (suc (suc zero)) = mem
from_index (suc (suc (suc zero))) = governor
from_index (suc (suc (suc (suc n)))) = display

module _ (hz : Module → ℕ) (overrides : ℕ → ℕ) where
  -- The rate of the module, if the board reports one, and its override are in the context.
  abbrev pub IsCurrentAt : Module → Clocks → Type 0
  IsCurrentAt m s =
      ((hz m ≡ 0) ⊎ (s.freqs m ≡ hz m)) × (s.override_freqs m ≡ overrides (module_index m))

  abbrev step : Module → Bool × Clocks → Bool × Clocks
  step m r = refresh_override (overrides (module_index m)) m (refresh_rate (hz m) m r)

  -- What only the title's part sees, the loop keeps.
  abbrev pub sees : Clocks → ℕ × (Profile × List Call)
  sees s = (s.application_id, (s.profile, s.calls))

  rate_keeps : (m : Module) (h : ℕ) (r : Bool × Clocks) → sees (refresh_rate h m r).1 ≡ sees r.1
  rate_keeps m h (b, s) = ground arith

  override_keeps :
      (m : Module) (o : ℕ) (r : Bool × Clocks) → sees (refresh_override o m r).1 ≡ sees r.1
  override_keeps m o (b, s) = ground arith

  pub loop_keeps :
      (ms : List Module) (r : Bool × Clocks) → sees (refresh_modules hz overrides ms r).1 ≡ sees r.1
  loop_keeps [] r = refl
  loop_keeps (m ∷ ms) r =
      loop_keeps ms (step m r)
      ∙ override_keeps m (overrides (module_index m)) (refresh_rate (hz m) m r)
      ∙ rate_keeps m (hz m) r

profile_of : ℕ → Profile
profile_of zero = handheld
profile_of (suc zero) = handheld_charging
profile_of (suc (suc zero)) = handheld_charging_usb
profile_of (suc (suc (suc zero))) = handheld_charging_official
profile_of (suc (suc (suc (suc n)))) = docked
