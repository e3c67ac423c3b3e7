-- ===== src/Governor/Flags/Edges.antt =====
-- What `HandleGovernor` leaves and resets.
use rcu.Base.{ℕ, ◌≡◌, Bool, ◌++◌, ◌==◌, arith}
use rcu.Hoc.{governor_state_cpu, governor_state_gpu, governor_state_vrr, component_enabled}
use rcu.Governor.Flags.{
  Flags, cpu_stock, gpu_stock, display_stock, switch, resolve, handle_governor, on_fall,
}

-- What was remembered is what is on.
pub record IsSettled (f : Flags) : Type 0 where
  pub cpu : f.last_cpu ≡ f.cpu
  pub gpu : f.last_gpu ≡ f.gpu
  pub vrr : f.last_vrr ≡ f.vrr

switch_lem :
    (f : Flags) (cpu gpu vrr : Bool)
    → IsSettled f
    → let (f', resets) = switch f cpu gpu vrr in
      IsSettled f'
      × (f'.cpu ≡ cpu)
      × (f'.gpu ≡ gpu)
      × (f'.vrr ≡ vrr)
      × (resets
          ≡ on_fall f'.cpu f.cpu cpu_stock
            ++ (on_fall f'.gpu f.gpu gpu_stock ++ on_fall f'.vrr f.vrr display_stock))
unfolding switch
switch_lem f cpu gpu vrr h = ground arith

resolve_same : (a : ℕ) → (resolve a a == component_enabled) ≡ (a == component_enabled)
unfolding resolve
resolve_same a = ground arith

-- As `SetClocks` calls it, where both words are the same, `HandleGovernor` turns on exactly the parts
-- whose byte is `ComponentGovernor_Enabled`, resets exactly those that were on and now are off, in the
-- order CPU, GPU, display, and remembers what is on.
pub handle_governor_lem :
    (f : Flags) (word : ℕ)
    → IsSettled f
    → let (f', resets) = handle_governor f word word in
      IsSettled f'
      × (f'.cpu ≡ (governor_state_cpu word == component_enabled))
      × (f'.gpu ≡ (governor_state_gpu word == component_enabled))
      × (f'.vrr ≡ (governor_state_vrr word == component_enabled))
      × (resets
          ≡ on_fall f'.cpu f.cpu cpu_stock
            ++ (on_fall f'.gpu f.gpu gpu_stock ++ on_fall f'.vrr f.vrr display_stock))
unfolding handle_governor
handle_governor_lem f word h =
    rw
      (
        resolve_same (governor_state_cpu word),
        resolve_same (governor_state_gpu word),
        resolve_same (governor_state_vrr word),
      )
      (switch_lem f _ _ _ h)
