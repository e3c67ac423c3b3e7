-- ===== src/Governor/Hold.antt =====
-- How long the governor keeps a higher rate while the load falls, and the invariant of its counters.
use rcu.Base.{
  ℕ, suc, ◌≤◌, ◌<◌, ◌≡◌, ◌⊎◌, refl, Bool, true, false, Option, none, some, List, [], ◌∷◌, ◌++◌,
  arith, length, All, Option-cases, inl, inr,
}
use rcu.FreqTable.Caps.{is_assignable_hz}
use rcu.Governor.{
  State, Sample, down_hold_ticks, cpu_ramp, cpu_round, gpu_ramp, gpu_round, round, start, demand,
}

-- What a round of the thread leaves: countdowns below `DOWN_HOLD_TICKS`, a tick of at most 50, and as
-- the last CPU rate 0 or one that may be set.
pub record IsSteady (s : State) : Type 0 where
  pub cpu_hold : s.cpu_down_hold < down_hold_ticks
  pub gpu_hold : s.gpu_down_hold < down_hold_ticks
  pub tick : s.cpu_tick ≤ 50
  pub last : (s.cpu_last_hz ≡ 0) ⊎ (500000000 ≤ s.cpu_last_hz)

cpu_ramp-IsSteady :
    (s : State) (config_min hz : ℕ) → IsSteady s → IsSteady (cpu_ramp s config_min hz).0
unfolding cpu_ramp is_assignable_hz
cpu_ramp-IsSteady s config_min hz v = ground arith

gpu_ramp-IsSteady : (s : State) (hz : ℕ) → IsSteady s → IsSteady (gpu_ramp s hz).0
unfolding gpu_ramp
gpu_ramp-IsSteady s hz v = ground arith

cpu_round-IsSteady :
    (s : State) (i : Sample) {t : State} {o : Option ℕ}
    → IsSteady s
    → cpu_round s i ≡ some (t, o)
    → IsSteady t
unfolding cpu_round
cpu_round-IsSteady s i v h = elim (Option-cases (demand i)) [
  | inl e ↦ ground arith
  | inr (hz, e) ↦
      ground (arith, cpu_ramp-IsSteady (record s { in_boost_mode = false }) i.config_min hz)
]

gpu_round-IsSteady :
    (s : State) (i : Sample) {t : State} {o : Option ℕ}
    → IsSteady s
    → gpu_round s i ≡ some (t, o)
    → IsSteady t
unfolding gpu_round
gpu_round-IsSteady s i v h = elim (Option-cases (demand i)) [
  | inl e ↦ ground arith
  | inr (hz, e) ↦ ground (arith, gpu_ramp-IsSteady s hz)
]

round-IsSteady :
    (running : Bool) (s : State) (c g : Sample) {t : State} {x y : Option ℕ}
    → IsSteady s
    → round running s c g ≡ some (t, x, y)
    → IsSteady t
unfolding round
round-IsSteady false s c g v h = ground arith
round-IsSteady true s c g v h = elim (Option-cases (cpu_round s c)) [
  | inl e ↦ ground arith
  | inr (m, e) ↦ elim (Option-cases (gpu_round m.0 g)) [
    | inl e' ↦ ground arith
    | inr (n, e') ↦ ground (
      arith,
      gpu_round-IsSteady m.0 g {t = n.0} {o = n.1} (cpu_round-IsSteady s c {t = m.0} {o = m.1} v e)
          e',
    )
  ]
]

-- The states that the thread can be in between two rounds, whatever it reads in each of them.
pub data Reached : State → Type 0 where
  begin : Reached start
  next :
      {s t : State} {x y : Option ℕ} (running : Bool) (c g : Sample)
      → Reached s
      → round running s c g ≡ some (t, x, y)
      → Reached t

-- In every state that the governor thread reaches, both countdowns are below `DOWN_HOLD_TICKS`, the
-- CPU's tick is at most 50, and the CPU rate that it remembers is 0 or one that may be set.
pub Reached-IsSteady : {s : State} → Reached s → IsSteady s
Reached-IsSteady begin = ground arith
Reached-IsSteady (next {s} running c g r h) = round-IsSteady running s c g (Reached-IsSteady r) h

abbrev put : Option ℕ → List ℕ → List ℕ
put none l = l
put (some x) l = x ∷ l

-- Rounds of the GPU at a list of demands: the last state, and the rates set.
pub gpu_ramps : State → List ℕ → State × List ℕ
gpu_ramps s [] = (s, [])
gpu_ramps s (hz ∷ demands) =
    let (s', o) = gpu_ramp s hz in let (t, sets) = gpu_ramps s' demands in (t, put o sets)

-- A round that counts down and sets nothing.
gpu_ramp_waits :
    (s : State) (hz k : ℕ)
    → s.gpu_down_hold ≡ suc (suc k)
    → hz < s.gpu_last_hz
    → gpu_ramp s hz ≡ (record s { gpu_down_hold = suc k }, none)
unfolding gpu_ramp
gpu_ramp_waits s hz k e h = ground arith

-- The first round of a descent.
gpu_ramp_starts :
    (s : State) (hz : ℕ)
    → s.gpu_down_hold ≡ 0
    → hz < s.gpu_last_hz
    → gpu_ramp s hz ≡ (record s { gpu_down_hold = 9 }, none)
unfolding gpu_ramp
gpu_ramp_starts s hz e h = ground arith

-- The last round of a descent.
gpu_ramp_drops :
    (s : State) (hz : ℕ)
    → s.gpu_down_hold ≡ 1
    → hz < s.gpu_last_hz
    → gpu_ramp s hz ≡ (record s { gpu_down_hold = 0; gpu_last_hz = hz }, some hz)
unfolding gpu_ramp is_assignable_hz
gpu_ramp_drops s hz e h = ground arith

gpu_ramp_rises :
    (s : State) (hz : ℕ)
    → s.gpu_last_hz ≤ hz
    → gpu_ramp s hz ≡ (record s { gpu_down_hold = 0; gpu_last_hz = hz }, some hz)
unfolding gpu_ramp is_assignable_hz
gpu_ramp_rises s hz h = ground arith

gpu_ramps_wait :
    (ds : List ℕ) (hz : ℕ) (s : State)
    → s.gpu_down_hold ≡ suc (length ds)
    → All (λ d. d < s.gpu_last_hz) ds
    → hz < s.gpu_last_hz
    → gpu_ramps s (ds ++ hz ∷ []) ≡ (record s { gpu_down_hold = 0; gpu_last_hz = hz }, hz ∷ [])
unfolding gpu_ramps
gpu_ramps_wait [] hz s e b h = rw (gpu_ramp_drops s hz e h)
gpu_ramps_wait (d ∷ ds) hz s e b h =
    rw (gpu_ramp_waits s d (length ds) e b.0)
      (rw (gpu_ramps_wait ds hz (record s { gpu_down_hold = suc (length ds) }) refl b.1 h))

-- When the demand for the GPU stays below the rate last set, for any ten rounds in a row with no countdown
-- running before them, nothing is set in the first nine of them, and the tenth sets its demand.
pub gpu_descent :
    (s : State) (d : ℕ) (ds : List ℕ) (hz : ℕ)
    → s.gpu_down_hold ≡ 0
    → length ds ≡ 8
    → All (λ x. x < s.gpu_last_hz) (d ∷ ds)
    → hz < s.gpu_last_hz
    → gpu_ramps s (d ∷ ds ++ hz ∷ []) ≡ (record s { gpu_down_hold = 0; gpu_last_hz = hz }, hz ∷ [])
unfolding gpu_ramps
gpu_descent s d ds hz e n b h =
    rw (gpu_ramp_starts s d e b.0)
      (rw (gpu_ramps_wait ds hz (record s { gpu_down_hold = 9 }) (rw n) b.1 h))

-- A demand that is not below the rate last set is set at once, and ends any countdown: the same rates
-- are set in the rounds after it as from a thread that never counted down.
pub gpu_rise :
    (s : State) (hz : ℕ) (demands : List ℕ)
    → s.gpu_last_hz ≤ hz
    → gpu_ramps s (hz ∷ demands) ≡ (
      (gpu_ramps (record s { gpu_down_hold = 0; gpu_last_hz = hz }) demands).0,
      hz ∷ (gpu_ramps (record s { gpu_down_hold = 0; gpu_last_hz = hz }) demands).1,
    )
unfolding gpu_ramps
gpu_rise s hz demands h = rw (gpu_ramp_rises s hz h)
