-- ===== src/Governor/Flags.antt =====
-- `HandleGovernor` of Source/ryazha-clk/sysmodule/src/mgr/governor.cpp: which parts of the governor are on.
-- Logging is left out.
pub mod Edges
use rcu.Base.{ℕ, Bool, true, false, not, ◌&&◌, ◌||◌, List, [], ◌∷◌, ◌++◌, ◌==◌, ◌/=◌, if◌then◌else◌}
use rcu.Hoc.{
  governor_state_cpu, governor_state_gpu, governor_state_vrr, component_disabled, component_enabled,
  component_do_not_override,
}

-- The globals `is…Enabled` and `last…State`.
pub record Flags : Type 0 where
  pub cpu : Bool
  pub gpu : Bool
  pub vrr : Bool
  pub last_cpu : Bool
  pub last_gpu : Bool
  pub last_vrr : Bool

-- The calls of `ResetToStockCpu`, `ResetToStockGpu` and `ResetToStockDisplay`.
pub data Stock : Type 0 where
  cpu_stock gpu_stock display_stock : Stock

-- The lambda `resolve`.
unfoldable pub resolve : ℕ → ℕ → ℕ
resolve app temp =
    if temp == component_disabled
    then component_disabled
    else if temp /= component_do_not_override
    then temp
    else app

abbrev pub xor_bool : Bool → Bool → Bool
xor_bool a b = if a then not b else b

abbrev pub on_fall : Bool → Bool → Stock → List Stock
on_fall new last call = if not new && last then call ∷ [] else []

-- The function from the three new states on.
unfoldable pub switch : Flags → Bool → Bool → Bool → Flags × List Stock
switch f cpu gpu vrr =
    let f' = record f { cpu = cpu; gpu = gpu; vrr = vrr } in
    let resets =
      on_fall cpu f.last_cpu cpu_stock
      ++ (on_fall gpu f.last_gpu gpu_stock ++ on_fall vrr f.last_vrr display_stock) in
    if xor_bool cpu f.last_cpu || (xor_bool gpu f.last_gpu || xor_bool vrr f.last_vrr)
    then (record f' { last_cpu = cpu; last_gpu = gpu; last_vrr = vrr }, resets)
    else (f', resets)

abbrev pub is_on : ℕ → ℕ → Bool
is_on app temp = resolve app temp == component_enabled

-- `target_hz` is the argument, `temp_hz` is what the function looks up itself.
unfoldable pub handle_governor : Flags → ℕ → ℕ → Flags × List Stock
handle_governor f target_hz temp_hz =
    switch f (is_on (governor_state_cpu target_hz) (governor_state_cpu temp_hz))
      (is_on (governor_state_gpu target_hz) (governor_state_gpu temp_hz))
      (is_on (governor_state_vrr target_hz) (governor_state_vrr temp_hz))
