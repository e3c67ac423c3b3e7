-- ===== src/Config/Store.antt =====
-- The state of Source/ryazha-clk/sysmodule/src/file/config.cpp and the functions that read and write
-- it, with the file `config.ini` behind the interface `Ini`. Locks, logging and `Enabled` are left out.
use rcu.Base.{
  ℕ, ◌+◌, ◌*◌, Bool, true, false, not, ◌&&◌, ◌||◌, Option, none, some, List, [], ◌∷◌, ltb, ◌==◌,
  ◌/=◌, if◌then◌else◌, u8, u32,
}
use rcu.Hoc.{
  Profile, handheld, handheld_charging, handheld_charging_usb, handheld_charging_official, docked,
  profile_index,
}
use rcu.Config.Key
use rcu.Config.Values.{Values, default_config_value, accepted, put_value, fill}

-- `HocClkProfile_EnumMax` and `HocClkModule_EnumMax`.
abbrev pub profile_max : ℕ
profile_max = 5

abbrev pub module_max : ℕ
module_max = 5

-- A line of the file, as `BrowseIniFunc` takes it: a setting with the number that `strtoul` reads, a
-- clock of a title (its profile, module and MHz), or a line that is skipped.
pub data Line : Type 0 where
  setting : ℕ → ℕ → Line
  clock : ℕ → ℕ → ℕ → ℕ → Line
  other : Line

-- A section of the file: `CONFIG_VAL_SECTION`, or that of a title.
pub data Section : Type 0 where
  values_section : Section
  title_section : ℕ → Section

abbrev pub in_section : Section → Line → Bool
in_section values_section (setting k v) = true
in_section values_section (clock t p m z) = false
in_section values_section other = false
in_section (title_section u) (setting k v) = false
in_section (title_section u) (clock t p m z) = t == u
in_section (title_section u) other = false

-- minIni: `ini_putsection`, which fails or gives the new file, and the lines that `ini_browse` reads.
pub record Ini (F : Type 0) : Type 0 where
  pub put_section : Section → List Line → F → Option F
  pub lines : F → List Line

-- The globals. A map is a function: `none` where it has no entry.
pub record Config : Type 0 where
  pub loaded : Bool
  pub mtime : ℕ
  pub overrides : ℕ → ℕ
  pub clocks : ℕ → ℕ → ℕ → Option ℕ
  pub counts : ℕ → Option ℕ
  pub values : Values

abbrev pub put_clock : ℕ → ℕ → ℕ → Option ℕ → Config → Config
put_clock tid p m mhz c = record c {
  clocks = λ t q n. if t == tid && q == p && n == m then mhz else c.clocks t q n;
}

abbrev pub put_count : ℕ → ℕ → Config → Config
put_count tid n c = record c { counts = λ t. if t == tid then some n else c.counts t }

-- The new count of a title: `it->second++` on a `uint8_t`.
abbrev pub next_count : Option ℕ → ℕ
next_count none = 1
next_count (some n) = u8 (n + 1)

-- `BrowseIniFunc`.
unfoldable pub browse : Line → Config → Config
browse (setting k input) c =
    if ltb k Key.enum_max then record c { values = put_value k (accepted k input) c.values } else c
browse (clock tid p m mhz) c =
    if tid == 0 || not (ltb p profile_max) || not (ltb m module_max) || mhz == 0
    then c
    else put_count tid (next_count (c.counts tid)) (put_clock tid p m (some mhz) c)
browse other c = c

abbrev pub browse_all : List Line → Config → Config
browse_all [] c = c
browse_all (l ∷ ls) c = browse_all ls (browse l c)

-- `Close`.
unfoldable pub close : Config → Config
close c = record c {
  loaded = false;
  clocks = λ t p m. none;
  counts = λ t. none;
  values = fill default_config_value c.values;
}

-- `Initialize`.
unfoldable pub initialize : Config → Config
initialize c = record c {
  loaded = false;
  mtime = 0;
  overrides = λ m. if ltb m module_max then 0 else c.overrides m;
  clocks = λ t p m. none;
  counts = λ t. none;
  values = fill default_config_value c.values;
}

-- `Load`, where `now` is what `CheckModificationTime` returns.
unfoldable pub load : {F : Type 0} → Ini F → ℕ → F → Config → Config
load ini now file c =
    let opened = record (close c) { mtime = now } in
    let read = if now == 0 then opened else browse_all (ini.lines file) opened in
    record read { loaded = true }

-- `Refresh`.
unfoldable pub refresh : {F : Type 0} → Ini F → ℕ → F → Config → Bool × Config
refresh ini now file c =
    if not c.loaded || c.mtime /= now then (true, load ini now file c) else (false, c)

-- `FindClockMHz`.
unfoldable pub find_clock_mhz : Config → ℕ → ℕ → ℕ → ℕ
find_clock_mhz c tid m p =
    if c.loaded then elim (c.clocks tid p m) [ none ↦ 0 | some mhz ↦ mhz ] else 0

-- The loop of `FindClockHzFromProfiles`.
abbrev pub first_clock : Config → ℕ → ℕ → List Profile → ℕ
first_clock c tid m [] = 0
first_clock c tid m (p ∷ ps) =
    let rest = first_clock c tid m ps in
    let mhz = find_clock_mhz c tid m (profile_index p) in if mhz /= 0 then mhz else rest

-- `FindClockHzFromProfiles`.
unfoldable pub find_clock_hz_from_profiles : Config → ℕ → ℕ → List Profile → ℕ → ℕ
find_clock_hz_from_profiles c tid m ps multiplier =
    u32 ((if c.loaded then first_clock c tid m ps else 0) * multiplier)

-- The profiles that `GetAutoClockHz` looks at, in order.
abbrev pub auto_profiles : Profile → List Profile
auto_profiles handheld = handheld ∷ []
auto_profiles handheld_charging = handheld_charging_usb ∷ handheld_charging ∷ handheld ∷ []
auto_profiles handheld_charging_usb = handheld_charging_usb ∷ handheld_charging ∷ handheld ∷ []
auto_profiles handheld_charging_official =
    handheld_charging_official ∷ handheld_charging ∷ handheld ∷ []
auto_profiles docked = docked ∷ []

-- `GetAutoClockHz`.
unfoldable pub get_auto_clock_hz : Config → ℕ → ℕ → Profile → Bool → ℕ
get_auto_clock_hz c tid m p raw =
    find_clock_hz_from_profiles c tid m (auto_profiles p) (if raw then 1 else 1000000)

-- `GetProfiles`: the cell of the table for a profile and a module.
abbrev pub get_profiles : Config → ℕ → ℕ → ℕ → ℕ
get_profiles c tid p m = find_clock_mhz c tid m p

-- `GetProfileCount`.
unfoldable pub get_profile_count : Config → ℕ → ℕ
get_profile_count c tid = elim (c.counts tid) [ none ↦ 0 | some n ↦ n ]

-- `SetOverrideHz`; `ASSERT_ENUM_VALID` of the callers is left out.
unfoldable pub set_override_hz : ℕ → ℕ → Config → Config
set_override_hz m hz c = record c { overrides = λ n. if n == m then hz else c.overrides n }

-- `GetOverrideHz`.
unfoldable pub get_override_hz : Config → ℕ → ℕ
get_override_hz c m = c.overrides m
