-- ===== src/Clocks/Allowed.antt =====
-- Which rates `SetClocks` sets.
use rcu.Base.{
  ℕ, suc, ◌^◌, ◌<◌, ◌≡◌, ◌≢◌, ◌⊎◌, refl, sym, subst, Bool, Option, none, some, ◌>>=◌, List, [], ◌∷◌,
  if◌then◌else◌, if_then_else_ind, All, In, IsIncreasing, length,
}
use rcu.Hoc.{Module, cpu, gpu, mem, governor, display, Profile}
use rcu.FreqTable.{FreqTable, nearest_hz, nearest_from}
use rcu.FreqTable.Search.{IsUnder, ceiling-IsUnder}
use rcu.FreqTable.Nearest.{nearest_from-In, nearest_from-le}
use rcu.FreqTable.Caps.{max_allowed_hz}
use rcu.Clocks.{Call, set_hz, Env, Clocks, target_hz, allowed_hz}

-- A table that `Initialize` has filled: not empty, rising, and of fewer than 2 ^ 32 entries.
abbrev pub IsTable : FreqTable → Type 0
IsTable [] = ⊥
IsTable (f ∷ rest) = IsIncreasing (f ∷ rest) × (suc (length rest) < 2 ^ 32)

abbrev pub HasTables : Env → Type 0
HasTables env = IsTable (env.tables cpu) × (IsTable (env.tables gpu) × IsTable (env.tables mem))

-- An entry of the table of the module, and under a limit none above the first entry that reaches it.
abbrev pub IsAllowedHz : Env → Profile → Module → ℕ → Type 0
IsAllowedHz env p m hz =
    In hz (env.tables m) × IsUnder (env.tables m) (max_allowed_hz env.config.values env.soc m p) hz

-- The call sets an allowed rate of the CPU, the GPU or the memory, or gives the CPU the rate that the
-- board reports, or gives the display, which has no table, the target of the state `w`, which is not 0,
-- or sets no rate; the governor has no rate.
abbrev pub IsAllowed : Env → Clocks → Call → Type 0
IsAllowed env w (set_hz cpu hz) =
    IsAllowedHz env w.profile cpu hz ⊎ ((cs : List Call) × (hz ≡ env.get_hz cs cpu))
IsAllowed env w (set_hz gpu hz) = IsAllowedHz env w.profile gpu hz
IsAllowed env w (set_hz mem hz) = IsAllowedHz env w.profile mem hz
IsAllowed env w (set_hz governor hz) = ⊥
IsAllowed env w (set_hz display hz) = (hz ≡ target_hz env w display) × (hz ≢ 0)
IsAllowed env w _ = Unit

-- The calls are allowed, `stable` repeats the rates, and what the targets are read from (the profile, the
-- overrides and the title) is as in the state `w`.
abbrev pub IsSafe : Env → Clocks → Clocks → Type 0
IsSafe env w s =
    All (IsAllowed env w) s.calls
    × ((s.profile ≡ w.profile)
        × (((m : Module) → s.stable_freqs m ≡ s.freqs m)
            × ((s.override_freqs ≡ w.override_freqs) × (s.application_id ≡ w.application_id))))

-- The result is there and has the property.
abbrev pub Done : (Clocks → Type 0) → Option Clocks → Type 0
Done P none = ⊥
Done P (some s) = P s

pub Done-bind :
    (P Q : Clocks → Type 0) (o : Option Clocks) (f : Clocks → Option Clocks)
    → Done P o
    → ((s : Clocks) → P s → Done Q (f s))
    → Done Q (o >>= f)
Done-bind P Q none f h k = absurd h
Done-bind P Q (some s) f h k = k s h

pub Done-if :
    (P : Clocks → Type 0) (b : Bool) (x y : Option Clocks)
    → Done P x
    → Done P y
    → Done P (if b then x else y)
Done-if P b x y h k = if_then_else_ind (Done P) b x y (λ e. h) (λ e. k)

nearest_allowed :
    (table : FreqTable) (hz cap : ℕ)
    → IsTable table
    → (r : ℕ) × ((nearest_hz table hz cap ≡ some r) × (In r table × IsUnder table cap r))
unfolding nearest_hz
nearest_allowed [] hz cap h = absurd h
nearest_allowed (f ∷ rest) hz cap (inc, small) = (
  nearest_from hz cap f rest,
  (
    refl,
    (
      nearest_from-In hz cap f rest,
      ceiling-IsUnder cap f (nearest_from hz cap f rest) rest small
          (nearest_from-le hz cap f rest inc),
    ),
  ),
)

-- With a filled table, `GetNearestHz` below `GetMaxAllowedHz` returns an allowed rate.
pub allowed_hz-Done :
    (env : Env) (p : Profile) (m : Module) (hz : ℕ) (P : Clocks → Type 0) (f : ℕ → Option Clocks)
    → IsTable (env.tables m)
    → ((r : ℕ) → IsAllowedHz env p m r → Done P (f r))
    → Done P (allowed_hz env p m hz >>= f)
unfolding allowed_hz
allowed_hz-Done env p m hz P f h k =
    let found =
      nearest_allowed (env.tables m) hz (max_allowed_hz env.config.values env.soc m p) h in
    subst (λ o. Done P (o >>= f)) (sym found.1.0) (k found.0 found.1.1)
