-- ===== src/Hoc.antt =====
-- The enumerations of Source/ryazha-clk/common/include/hocclk/board.h, with their numeric order, and
-- the packed state of the governor.
mod Packing
pub use Packing.*
use rcu.Base.{ℕ, ◌≡◌, refl, Bool}

pub data Module : Type 0 where
  cpu gpu mem governor display : Module

pub data Profile : Type 0 where
  handheld handheld_charging handheld_charging_usb handheld_charging_official docked : Profile

pub data SocType : Type 0 where
  erista mariko : SocType

pub data ConsoleType : Type 0 where
  icosa iowa hoag aula : ConsoleType

-- The value of the enumerator, by which the code compares profiles.
abbrev pub profile_index : Profile → ℕ
profile_index handheld = 0
profile_index handheld_charging = 1
profile_index handheld_charging_usb = 2
profile_index handheld_charging_official = 3
profile_index docked = 4

abbrev pub module_index : Module → ℕ
module_index cpu = 0
module_index gpu = 1
module_index mem = 2
module_index governor = 3
module_index display = 4
