-- ===== src/Governor/Vrr.antt =====
-- The display part of a round of `GovernorThread`
-- (Source/ryazha-clk/sysmodule/src/mgr/governor.cpp): the refresh rate follows the frame rate.
pub mod Rate
pub mod Calls
use rcu.Base.{
  ℕ, zero, suc, ◌+◌, ◌-◌, ◌*◌, ◌<◌, Bool, true, false, not, ◌&&◌, ◌||◌, Option, none, some, List,
  [], ◌∷◌, ◌++◌, ltb, leb, ◌==◌, ◌/=◌, u8, if◌then◌else◌,
}

-- `vrrTick` and `vrrFocusTick`, both `uint8_t`.
pub record VrrState : Type 0 where
  pub vrr_tick : ℕ
  pub focus_tick : ℕ

-- What a round reads: `isVRREnabled`, whether the console is docked and SaltyNX is installed, whether
-- `processManagement::isApplicationOutOfFocus` fails, and what it gives, the frames per second, the target of the display
-- (an override, or the profile's value), and whether the console is an Aula.
pub record VrrSample : Type 0 where
  pub enabled : Bool
  pub docked : Bool
  pub salty_nx : Bool
  pub focus_failed : Bool
  pub out_of_focus : Bool
  pub fps : ℕ
  pub target_hz : ℕ
  pub aula : Bool

-- The calls made: `ResetToStockDisplay`, and `SetHz` of the display.
pub data DisplayCall : Type 0 where
  reset : DisplayCall
  set_rate : ℕ → DisplayCall

abbrev pub max_display : ℕ → ℕ
max_display target_hz = if target_hz /= 0 then u8 target_hz else 60

abbrev pub min_display : Bool → ℕ
min_display aula = if aula then 45 else 40

abbrev pub fits : ℕ → ℕ → ℕ → Bool
fits low high hz = leb low hz && leb hz high

-- The loop over `i`, from `i` on, with `rounds` left of those below 10.
pub multiple_from : ℕ → ℕ → ℕ → ℕ → ℕ → Option ℕ
multiple_from low high fps zero i = none
multiple_from low high fps (suc rounds) i =
    let later = multiple_from low high fps rounds (i + 1) in
    if fits low high (fps * i) then some (fps * i) else later

-- The rate for a frame rate: itself, or its first multiple that the display can show.
unfoldable pub rate_for : ℕ → ℕ → ℕ → Option ℕ
unfolding multiple_from
rate_for low high fps = if fits low high fps then some fps else multiple_from low high fps 9 1

abbrev pub call_for : Option ℕ → List DisplayCall
call_for none = []
call_for (some hz) = set_rate hz ∷ []

-- The part under the lock.
unfoldable pub follow : VrrState → VrrSample → VrrState × List DisplayCall
follow s i =
    let high = max_display i.target_hz in
    let low = min_display i.aula in
    let tick = u8 (s.vrr_tick + 1) in
    let first = call_for (rate_for low high i.fps) in
    if high == low
    then (s, [])
    else if ltb 50 tick
    then (record s { vrr_tick = 0 }, first ++ (set_rate high ∷ []))
    else (record s { vrr_tick = tick }, first)

abbrev pub watch : VrrState → VrrSample → VrrState × List DisplayCall
watch s i = if i.fps == 254 then (s, []) else follow s i

unfoldable pub vrr_round : VrrState → VrrSample → VrrState × List DisplayCall
unfolding follow
vrr_round s i =
    let tick = u8 (s.focus_tick + 1) in
    if i.enabled && not i.docked && i.salty_nx
    then if ltb 100 tick
      then if i.focus_failed || i.out_of_focus
        then (record s { focus_tick = 0 }, reset ∷ [])
        else watch (record s { focus_tick = 0 }) i
      else watch (record s { focus_tick = tick }) i
    else (s, [])
