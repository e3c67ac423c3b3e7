-- ===== src/Config/Write.antt =====
-- The functions of Source/ryazha-clk/sysmodule/src/file/config.cpp that write a section of the file and,
-- if told to, the globals.
pub mod Valid
pub mod Reload
pub mod Titles
use rcu.Base.{
  ℕ, zero, suc, ◌+◌, ◌*◌, Bool, true, false, not, ◌&&◌, ◌||◌, Option, none, some, List, [], ◌∷◌,
  ◌++◌, ltb, ◌==◌, ◌/=◌, if◌then◌else◌, u8, u32, for_below,
}
use rcu.Config.Key
use rcu.Config.Values.{Values, default_config_value, valid_config_value, accepted, put_value, fill}
use rcu.Config.Store.{
  profile_max, module_max, Line, setting, clock, Section, values_section, title_section, Ini,
  Config, put_clock, put_count,
}

-- A pass of the first loop of `SetProfiles`: the lines of the section, and `numProfiles`. The table
-- gives the MHz of a profile and a module.
abbrev pub clock_line : ℕ → (ℕ → ℕ → ℕ) → ℕ → ℕ → List Line × ℕ → List Line × ℕ
clock_line tid mhz p m (ls, n) =
    if mhz p m /= 0 then (ls ++ (clock tid p m (mhz p m) ∷ []), u8 (n + 1)) else (ls, n)

-- A pass of the second.
abbrev pub put_slot : ℕ → (ℕ → ℕ → ℕ) → ℕ → ℕ → Config → Config
put_slot tid mhz p m c = put_clock tid p m (if mhz p m /= 0 then some (mhz p m) else none) c

-- The two nested loops over the profiles and the modules.
abbrev pub for_slots {ℓ} : {S : Type ℓ} → (ℕ → ℕ → S → S) → S → S
for_slots body s = for_below profile_max (λ p. for_below module_max (body p)) s

-- `if (!ini_putsection(…)) return false;`, and what follows it up to `return true;`.
abbrev pub commit : {F : Type 0} → Option F → F → Config → Config → Bool × (F × Config)
commit none file c d = (false, (file, c))
commit (some new) file c d = (true, (new, d))

-- `SetProfiles`.
unfoldable pub set_profiles :
    {F : Type 0} → Ini F → ℕ → (ℕ → ℕ → ℕ) → Bool → F → Config → Bool × (F × Config)
set_profiles ini tid mhz immediate file c =
    let built = for_slots (clock_line tid mhz) ([], 0) in
    commit (ini.put_section (title_section tid) built.0 file) file c
      (if immediate then for_slots (put_slot tid mhz) (put_count tid built.1 c) else c)

-- The first loop of `SetConfigValues`: the settings below a number that are saved.
abbrev pub setting_lines : Values → ℕ → List Line → List Line
setting_lines inputs k ls =
    if not (valid_config_value k (inputs k)) || inputs k == default_config_value k
    then ls
    else ls ++ (setting k (inputs k) ∷ [])

-- `SetConfigValues`.
unfoldable pub set_config_values :
    {F : Type 0} → Ini F → Values → Bool → F → Config → Bool × (F × Config)
set_config_values ini inputs immediate file c =
    commit (ini.put_section values_section (for_below Key.enum_max (setting_lines inputs) []) file)
      file c
      (if immediate then record c { values = fill (λ k. accepted k (inputs k)) c.values } else c)

-- `ResetConfigValue`: the value of its line is the empty text, which `strtoul` reads as 0.
unfoldable pub reset_config_value : {F : Type 0} → Ini F → ℕ → F → Config → Bool × (F × Config)
reset_config_value ini k file c =
    if ltb k Key.enum_max
    then commit (ini.put_section values_section (setting k 0 ∷ []) file) file c
        (record c { values = put_value k (default_config_value k) c.values })
    else (false, (file, c))

-- `SetConfigValue`.
unfoldable pub set_config_value :
    {F : Type 0} → Ini F → ℕ → ℕ → Bool → F → Config → Bool × (F × Config)
set_config_value ini k value immediate file c =
    if ltb k Key.enum_max && valid_config_value k value
    then commit (ini.put_section values_section (setting k value ∷ []) file) file c
        (if immediate then record c { values = put_value k value c.values } else c)
    else (false, (file, c))
