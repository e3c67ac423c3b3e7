-- ===== src/Governor/Vrr/Calls.antt =====
-- Which calls a round makes for the display.
use rcu.Base.{
  Option, ℕ, ◌+◌, ◌*◌, ◌%◌, ◌^◌, ◌≤◌, ◌<◌, ◌≡◌, ◌⊎◌, refl, not, ◌&&◌, ◌||◌, ◌++◌, ltb,
  if◌then◌else◌, if_then_else_ind, true, none, some, List, [], ◌∷◌, ◌==◌, u8, u32, arith, All, ◌∙◌,
  inl, inr,
}
use rcu.Governor.Vrr.{
  VrrState, VrrSample, DisplayCall, reset, set_rate, max_display, min_display, call_for, rate_for,
  follow, watch, vrr_round,
}
use rcu.Governor.Vrr.Rate.{rate_for-some, rate_for-fits}

-- What holds of a reset that is allowed, of the highest rate and of the rate that is picked, holds of every
-- call of a round.
module _ (i : VrrSample) (P : DisplayCall → Type 0)
    (on_reset : i.focus_failed || i.out_of_focus ≡ true → P reset)
    (on_top : P (set_rate (max_display i.target_hz)))
    (on_pick : (hz : ℕ)
      → rate_for (min_display i.aula) (max_display i.target_hz) i.fps ≡ some hz
      → P (set_rate hz)) where
  call_for-All :
      (o : Option ℕ) (rest : List DisplayCall)
      → rate_for (min_display i.aula) (max_display i.target_hz) i.fps ≡ o
      → All P rest
      → All P (call_for o ++ rest)
  call_for-All none rest e h = h
  call_for-All (some hz) rest e h = (on_pick hz e, h)

  picked-All :
      (o : Option ℕ)
      → rate_for (min_display i.aula) (max_display i.target_hz) i.fps ≡ o
      → All P (call_for o)
  picked-All none e = tt
  picked-All (some hz) e = (on_pick hz e, tt)

  abbrev IsFine : VrrState × List DisplayCall → Type 0
  IsFine r = All P r.1

  follow-All : (s : VrrState) → IsFine (follow s i)
  unfolding follow
  follow-All s =
      let high = max_display i.target_hz in
      let first = rate_for (min_display i.aula) high i.fps in
      if_then_else_ind IsFine (high == min_display i.aula) _ _ (λ e. tt)
        (λ e.
          if_then_else_ind IsFine (ltb 50 (u8 (s.vrr_tick + 1))) _ _
            (λ e. call_for-All first (set_rate high ∷ []) refl (on_top, tt))
            (λ e. picked-All first refl))

  watch-All : (s : VrrState) → IsFine (watch s i)
  watch-All s =
      if_then_else_ind IsFine (i.fps == 254) (s, []) (follow s i) (λ e. tt) (λ e. follow-All s)

  vrr_round-All : (s : VrrState) → IsFine (vrr_round s i)
  unfolding vrr_round
  vrr_round-All s =
      let tick = u8 (s.focus_tick + 1) in
      if_then_else_ind IsFine (i.enabled && not i.docked && i.salty_nx) _ (s, [])
        (λ e.
          if_then_else_ind IsFine (ltb 100 tick) _ _
            (λ e.
              if_then_else_ind IsFine (i.focus_failed || i.out_of_focus) _ _ (λ e. (on_reset e, tt))
                (λ e. watch-All (record s { focus_tick = 0 })))
            (λ e. watch-All (record s { focus_tick = tick })))
        (λ e. tt)

-- A reset, or a rate of the range that the code computes, or its highest rate.
abbrev IsOwn : VrrSample → DisplayCall → Type 0
IsOwn i reset = Unit
IsOwn i (set_rate hz) =
    (hz ≡ max_display i.target_hz) ⊎ ((min_display i.aula ≤ hz) × (hz ≤ max_display i.target_hz))

vrr_round-IsOwn : (s : VrrState) (i : VrrSample) → All (IsOwn i) (vrr_round s i).1
vrr_round-IsOwn s i =
    vrr_round-All i (IsOwn i) (λ e. tt) (inl refl)
      (λ hz e. inr (rate_for-fits (min_display i.aula) (max_display i.target_hz) i.fps {hz = hz} e))
      s

-- The range of the display, for a target of it that has 8 bits; without a target the highest rate is 60.
abbrev pub highest : VrrSample → ℕ
highest i = if i.target_hz == 0 then 60 else i.target_hz

abbrev pub lowest : VrrSample → ℕ
lowest i = if i.aula then 45 else 40

-- A call that a round may make at a sample: a reset where the application is out of focus, or this
-- cannot be asked, or a rate of the range that is the highest or a multiple of the frame rate by 1 to 9.
abbrev pub IsProper : VrrSample → DisplayCall → Type 0
IsProper i reset = (i.focus_failed ≡ true) ⊎ (i.out_of_focus ≡ true)
IsProper i (set_rate hz) =
    (lowest i ≤ hz)
    × (hz ≤ highest i)
    × ((hz ≡ highest i) ⊎ ((k : ℕ) × (1 ≤ k) × (k ≤ 9) × (hz ≡ i.fps * k)))

module _ (i : VrrSample) (in_range : lowest i ≤ highest i) (byte : i.target_hz < 256) where
  max_display-highest : max_display i.target_hz ≡ highest i
  max_display-highest = ground (arith, byte)

  top-IsProper : (hz : ℕ) → hz ≡ max_display i.target_hz → IsProper i (set_rate hz)
  top-IsProper hz e =
      let same : hz ≡ highest i = e ∙ max_display-highest in
      (omega (arith, same, in_range), omega (arith, same), inl same)

  picked-IsProper :
      (hz : ℕ)
      → rate_for (min_display i.aula) (max_display i.target_hz) i.fps ≡ some hz
      → IsProper i (set_rate hz)
  picked-IsProper hz e =
      let (k, from, to, eq, low, high, rest) =
        rate_for-some (min_display i.aula) (max_display i.target_hz) i.fps hz e in
      (low, omega (arith, high, max_display-highest), inr (k, from, to, eq))

-- For a target of the display that has 8 bits and is not below the lowest rate, or no target, a round of the
-- governor resets the display only if the application is out of focus or the query for that fails, and
-- every rate that it sets lies between the lowest one, 40 Hz or 45 Hz on an Aula, and the highest one,
-- the target or 60 Hz, and is the highest one or a multiple of the frame rate by 1 to 9.
pub vrr_round-IsProper :
    (s : VrrState) (i : VrrSample)
    → lowest i ≤ highest i
    → i.target_hz < 256
    → All (IsProper i) (vrr_round s i).1
vrr_round-IsProper s i in_range byte =
    vrr_round-All i (IsProper i) (λ e. ground (arith, e))
      (top-IsProper i in_range byte (max_display i.target_hz) refl)
      (picked-IsProper i in_range byte) s

-- The call is a reset, or sets the rate 0.
abbrev pub IsIdle : DisplayCall → Type 0
IsIdle reset = Unit
IsIdle (set_rate hz) = hz ≡ 0

-- For a display target from a profile, which `GetAutoClockHz` multiplies by a million, the highest rate
-- that the governor allows is 64 times the remainder of the profile's rate by 4, whatever the rate is.
pub profile_limit :
    (rate : ℕ)
    → 0 < rate
    → rate * 1000000 < 2 ^ 32
    → max_display (u32 (rate * 1000000)) ≡ 64 * (rate % 4)
profile_limit rate p w = ground arith

IsOwn-IsIdle :
    (i : VrrSample) (l : List DisplayCall)
    → max_display i.target_hz ≡ 0
    → All (IsOwn i) l
    → All IsIdle l
IsOwn-IsIdle i [] e h = tt
IsOwn-IsIdle i (reset ∷ l) e (p, ps) = (tt, IsOwn-IsIdle i l e ps)
IsOwn-IsIdle i (set_rate hz ∷ l) e (p, ps) = (ground arith, IsOwn-IsIdle i l e ps)

-- If the profile's rate for the display is a multiple of 4, as 40, 48 and 60 are, and there is no override,
-- the governor never sets a rate other than 0: the display does not follow the frame rate.
pub profile_rate_lost :
    (s : VrrState) (i : VrrSample) (rate : ℕ)
    → 0 < rate
    → rate * 1000000 < 2 ^ 32
    → rate % 4 ≡ 0
    → i.target_hz ≡ u32 (rate * 1000000)
    → All IsIdle (vrr_round s i).1
profile_rate_lost s i rate p w m e =
    IsOwn-IsIdle i (vrr_round s i).1 (rw e (profile_limit rate p w ∙ omega arith))
      (vrr_round-IsOwn s i)
