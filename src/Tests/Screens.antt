-- ===== src/Tests/Screens.antt =====
-- The display and the board.
use rcu.Base.{ℕ, ◌≤◌, ◌≡◌, refl, false, true, none, some, arith}
use rcu.Hoc.{gpu, mariko}
use rcu.Board.{Board, set_hz, use_gm20b, pcv_hz_for}
use rcu.Display.{handheld_rate, plld_for, plld_rate}
use rcu.Display.Handheld.{plld_rate-plld_for}
use rcu.Display.Docked.{docked_choice, docked_index, docked_rate}
use rcu.Display.Docked.Choice.{docked_rate_allowed}

-- 30 Hz are shown at 60 Hz, and 24 Hz at 48 Hz.
handheld_30 : handheld_rate 30 ≡ 60
unfolding handheld_rate
handheld_30 = refl

handheld_24 : handheld_rate 24 ≡ 48
unfolding handheld_rate
handheld_24 = refl

-- An external display of 144 Hz.
docked_48 : docked_rate false 144 48 ≡ some 144
unfolding docked_choice docked_index
docked_48 = refl

docked_240 : docked_rate true 144 240 ≡ some 144
unfolding docked_choice docked_index
docked_240 = refl

plld_rate-plld_for_example : plld_rate (plld_for 57) ≡ some 57
plld_rate-plld_for_example = plld_rate-plld_for 57 (omega arith) (omega arith)

docked_rate_allowed_example : (x : ℕ) × ((docked_rate true 75 118 ≡ some x) × (x ≤ 75))
docked_rate_allowed_example = docked_rate_allowed true 75 118 (omega arith)

abbrev board : Board
board = record { pcv_hz = λ m. 307200000; injected_hz = 0; gm20b_khz = none }

pcv_384 : (set_hz mariko gpu 345600000 board).pcv_hz gpu ≡ 384000000
unfolding set_hz pcv_hz_for use_gm20b
pcv_384 = refl
