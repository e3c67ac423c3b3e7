-- ===== src/Tests/Configs.antt =====
-- The configuration, on a file that is a list of lines.
use rcu.Base.{
  ℕ, ◌≡◌, refl, true, false, ◌&&◌, none, some, List, [], ◌∷◌, ◌++◌, All, ◌==◌, if◌then◌else◌, arith,
}
use rcu.Hoc.{handheld_charging_usb}
use rcu.Config.Values.{Values, default_config_value, valid_config_value, accepted}
use rcu.Config.Store.{
  Line, setting, clock, Section, in_section, Ini, Config, initialize, load, refresh, browse, close,
  find_clock_mhz, find_clock_hz_from_profiles, get_profiles, get_auto_clock_hz,
}
use rcu.Config.Write.{set_profiles, set_config_values, reset_config_value, set_config_value}
use rcu.Config.Write.Valid.{Reached, initialized, refreshed, IsSound, Reached-IsSound}
use rcu.Config.Write.Reload.{only, IsIni, set_config_values-load}
use rcu.Config.Write.Titles.{set_profiles-get}

abbrev outside : Section → List Line → List Line
outside s [] = []
outside s (l ∷ ls) = if in_section s l then outside s ls else l ∷ outside s ls

abbrev pub list_ini : Ini (List Line)
list_ini = record { put_section = λ s ls file. some (ls ++ outside s file); lines = λ file. file }

only-outside : (s : Section) (ls : List Line) → only s (outside s ls) ≡ []
only-outside s [] = refl
only-outside s (l ∷ ls) = ground (arith, only-outside s ls)

only-append :
    (s : Section) (ls ms : List Line)
    → All (λ l. in_section s l ≡ true) ls
    → only s ms ≡ []
    → only s (ls ++ ms) ≡ ls
only-append s [] ms h e = e
only-append s (l ∷ ls) ms (p, h) e = ground (arith, p, only-append s ls ms h e)

list_ini-IsIni : IsIni list_ini
list_ini-IsIni = record {
  put_lines = λ s ls file new h e.
      let same = only-append s ls (outside s file) h (only-outside s file) in cc (same, e);
}

-- The globals before `Initialize`.
abbrev pub blank : Config
blank = record {
  loaded = false;
  mtime = 0;
  overrides = λ m. 0;
  clocks = λ t p m. none;
  counts = λ t. none;
  values = λ k. 0;
}

abbrev file : List Line
file = setting 10 65 ∷ clock 7 1 0 1785 ∷ clock 7 0 0 1020 ∷ setting 5 9 ∷ []

abbrev opened : Config
opened = (refresh list_ini 1 file (initialize blank)).1

opened_values : (opened.values 10 ≡ 65) × (opened.values 5 ≡ 0)
unfolding refresh load initialize browse close valid_config_value default_config_value
opened_values = (refl, refl)

opened_loaded : opened.loaded ≡ true
unfolding refresh load initialize
opened_loaded = refl

opened_clock : get_auto_clock_hz opened 7 0 handheld_charging_usb false ≡ 1785000000
unfolding refresh load initialize browse close get_auto_clock_hz find_clock_hz_from_profiles
    find_clock_mhz
opened_clock = refl

opened-Reached : Reached list_ini opened
opened-Reached = refreshed 1 file (initialize blank) (initialized blank)

Reached-IsSound_example : IsSound opened
Reached-IsSound_example = Reached-IsSound {ini = list_ini} {c = opened} opened-Reached

-- 60 for the threshold of the temperature, 70 for the limit of the power, and 0, which most settings
-- may have.
abbrev inputs : Values
inputs k = if k == 10 then 60 else if k == 12 then 70 else 0

saved : (set_config_values list_ini inputs true file opened).0 ≡ true
unfolding set_config_values
saved = refl

set_config_values-load_example :
    (load list_ini 2 (set_config_values list_ini inputs true file opened).1.0 opened).values 10
    ≡ accepted 10 (inputs 10)
set_config_values-load_example =
    set_config_values-load list_ini list_ini-IsIni 2 (omega arith) inputs true file opened opened
      saved 10 (omega arith)

saved_one : (set_config_value list_ini 10 60 true file opened).0 ≡ true
unfolding set_config_value valid_config_value
saved_one = refl

was_reset : (reset_config_value list_ini 9 file opened).0 ≡ true
unfolding reset_config_value
was_reset = refl

-- A reset of `ThermalThrottle` is read back as 0, though its default is 1.
throttle_reset : (if 9 == 9 && valid_config_value 9 0 then 0 else default_config_value 9) ≡ 0
unfolding valid_config_value
throttle_reset = refl

abbrev clocks_set : ℕ → ℕ → ℕ
clocks_set p m = if m == 1 then 768 else 0

profiles_saved : (set_profiles list_ini 7 clocks_set true file opened).0 ≡ true
unfolding set_profiles
profiles_saved = refl

set_profiles-get_example :
    get_profiles (set_profiles list_ini 7 clocks_set true file opened).1.1 7 0 1
    ≡ (if 7 == 7 then clocks_set 0 1 else get_profiles opened 7 0 1)
set_profiles-get_example =
    set_profiles-get list_ini 7 clocks_set file opened opened_loaded profiles_saved 7 0 1
      (omega arith) (omega arith)
