-- ===== src/Display/Retro.antt =====
-- The rate of a replaced built-in display: `g_handheldTimingsRETRO` and the choice of an entry in
-- `_setNvDispHandheldRefreshRate` of Source/ryazha-clk/sysmodule/src/display/display_refresh_rate.cpp.
pub mod Entry
use rcu.Base.{ℕ, suc, ◌+◌, ◌-◌, ◌*◌, ◌/◌, Option, none, some, List, [], ◌∷◌, get_elem?}
use rcu.Display.{handheld_rate}

-- `HandheldTimings`, in the order of its fields: the width, the front and the back porch of a line, the
-- same of a frame, and the pixel clock in kHz.
pub data Timing : Type 0 where
  timing : ℕ → ℕ → ℕ → ℕ → ℕ → ℕ → ℕ → Timing

-- `g_handheldTimingsRETRO`.
abbrev pub handheld_timings_retro : List Timing
handheld_timings_retro =
    timing 72 136 72 1 660 9 78000
    ∷ timing 72 136 72 1 612 9 77982
    ∷ timing 72 136 72 1 567 9 77994
    ∷ timing 72 136 72 1 524 9 78002
    ∷ timing 72 136 72 1 483 9 78012
    ∷ timing 72 136 72 1 443 9 77985
    ∷ timing 72 136 72 1 406 9 78016
    ∷ timing 72 136 72 1 370 9 78020
    ∷ timing 72 136 72 1 335 9 78000
    ∷ timing 72 136 72 1 302 9 78008
    ∷ timing 72 136 72 1 270 9 78000
    ∷ timing 72 136 72 1 239 9 77979
    ∷ timing 72 136 72 1 210 9 78000
    ∷ timing 72 136 72 1 182 9 78016
    ∷ timing 72 136 72 1 154 9 77976
    ∷ timing 72 136 72 1 128 9 77990
    ∷ timing 72 136 72 1 103 9 78008
    ∷ timing 72 136 72 1 78 9 77976
    ∷ timing 72 136 72 1 55 9 78010
    ∷ timing 72 136 72 1 32 9 77998
    ∷ timing 72 136 72 1 10 9 78000
    ∷ []

-- The rate of a display of 720 by 1280 with a timing, as `refreshRateNow` is taken.
abbrev pub rate_of : Timing → ℕ
rate_of (timing h_sync h_front h_back v_sync v_front v_back clock) =
    (clock * 1000 + 999) / ((720 + h_front + h_sync + h_back) * (1280 + v_front + v_sync + v_back))

-- `itr`, for a rate within the limits.
abbrev pub retro_index : ℕ → ℕ
retro_index rate = (rate - 40) / 5

-- The rate that the display has after a rate was set.
unfoldable pub retro_rate : ℕ → Option ℕ
retro_rate rate = elim (get_elem? handheld_timings_retro (retro_index rate)) [
  | none ↦ none
  | some t ↦ some (rate_of t)
]
