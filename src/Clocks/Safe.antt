-- ===== src/Clocks/Safe.antt =====
-- `SetClocks` sets allowed rates only.
use rcu.Base.{
  ℕ, ◌≡◌, ◌≢◌, inl, inr, refl, sym, ap, subst, arith, Bool, true, false, not, ◌&&◌, ◌||◌, Option,
  some, ◌>>=◌, List, [], ◌∷◌, ltb, ◌==◌, ◌/=◌, if◌then◌else◌, if_then_else_ind,
}
use rcu.Hoc.{Module, cpu, gpu, mem, governor, display, module_index, SocType, erista, mariko}
use rcu.Config.Key
use rcu.Governor.Flags.{Stock, cpu_stock, gpu_stock, display_stock, handle_governor}
use rcu.Clocks.{
  Call, set_hz, reset_to_stock_cpu, reset_to_stock_gpu, reset_to_stock_mem, reset_to_stock_display,
  pcv_hijack, Env, Clocks, call, put, value, target_hz, allowed_hz, dfll_call, dvfs_reset,
  apply_gpu_dvfs, handle_freq_reset, set_clock, hijacks, apply_target, change_rate, apply_or_reset,
  push_stock, set_module, set_modules, all_modules, set_cpu_again, set_clocks, dvfs_mode_hijack,
}
use rcu.Clocks.Allowed.{
  IsTable, HasTables, IsAllowedHz, IsAllowed, IsSafe, Done, Done-bind, Done-if, allowed_hz-Done,
}

module _ (env : Env) (w : Clocks) (tables : HasTables env) where
  call-IsSafe :
      (c : Call) (s : Clocks) → IsAllowed env w c → IsSafe env w s → IsSafe env w (call c s)
  call-IsSafe c s ok (h, same) = ((ok, h), same)

  push_stock-IsSafe :
      (cs : List Stock) (s : Clocks) → IsSafe env w s → IsSafe env w (push_stock cs s)
  push_stock-IsSafe [] s h = h
  push_stock-IsSafe (cpu_stock ∷ cs) s h =
      push_stock-IsSafe cs _ (call-IsSafe reset_to_stock_cpu s tt h)
  push_stock-IsSafe (gpu_stock ∷ cs) s h =
      push_stock-IsSafe cs _ (call-IsSafe reset_to_stock_gpu s tt h)
  push_stock-IsSafe (display_stock ∷ cs) s h =
      push_stock-IsSafe cs _ (call-IsSafe reset_to_stock_display s tt h)

  allowed-Done :
      (m : Module) (hz : ℕ) (P : Clocks → Type 0) (f : ℕ → Option Clocks) (s : Clocks)
      → s.profile ≡ w.profile
      → IsTable (env.tables m)
      → ((r : ℕ) → IsAllowedHz env w.profile m r → Done P (f r))
      → Done P (allowed_hz env s.profile m hz >>= f)
  allowed-Done m hz P f s e t k =
      subst (λ q. Done P (allowed_hz env q m hz >>= f)) (sym e)
        (allowed_hz-Done env w.profile m hz P f t k)

  dvfs_reset-IsSafe : (s : Clocks) → IsSafe env w s → Done (IsSafe env w) (dvfs_reset env s)
  unfolding dvfs_reset
  dvfs_reset-IsSafe s h =
      Done-if (IsSafe env w) (value env Key.dvfs_mode == dvfs_mode_hijack) _ (some s)
        (allowed-Done gpu (target_hz env s gpu) (IsSafe env w) _ s h.1.0 tables.1.0 (λ r ok.
          let t = call reset_to_stock_gpu (call (pcv_hijack 0) s) in
          let k : IsSafe env w t = ((tt, (tt, h.0)), h.1) in
          if_then_else_ind (IsSafe env w) (target_hz env s gpu /= 0) (call (set_hz gpu r) t) t
            (λ e. call-IsSafe (set_hz gpu r) t ok k) (λ e. k)))
        h

  apply_gpu_dvfs-IsSafe :
      (target : ℕ) (s : Clocks) → IsSafe env w s → Done (IsSafe env w) (apply_gpu_dvfs env target s)
  unfolding apply_gpu_dvfs
  apply_gpu_dvfs-IsSafe target s h =
      allowed-Done gpu (env.get_hz s.calls gpu) (IsSafe env w) _ s h.1.0 tables.1.0 (λ r ok.
        if_then_else_ind (IsSafe env w) (target /= 0) _ _ (λ e. ((ok, (tt, h.0)), h.1))
          (λ e. ((tt, (tt, h.0)), h.1)))

  dfll_call-IsAllowed : (soc : SocType) → IsAllowed env w (dfll_call env soc)
  dfll_call-IsAllowed erista = tt
  dfll_call-IsAllowed mariko = tt

  handle_freq_reset-IsSafe :
      (m : Module) (b did : Bool) (s : Clocks)
      → IsSafe env w s
      → Done (IsSafe env w) (handle_freq_reset env m b did s)
  unfolding handle_freq_reset
  handle_freq_reset-IsSafe cpu b did s h =
      let t =
        if not (b || (value env Key.overwrite_boost_mode /= 0 && b))
        then call reset_to_stock_cpu s
        else s in
      let k : IsSafe env w t =
        if_then_else_ind (IsSafe env w) (not (b || (value env Key.overwrite_boost_mode /= 0 && b)))
          _ s (λ e. ((tt, h.0), h.1)) (λ e. h) in
      if_then_else_ind (IsSafe env w) (value env Key.live_cpu_uv /= 0)
        (call (dfll_call env env.soc) t) t
        (λ e. call-IsSafe (dfll_call env env.soc) t (dfll_call-IsAllowed env.soc) k) (λ e. k)
  handle_freq_reset-IsSafe gpu b did s h = ((tt, h.0), h.1)
  handle_freq_reset-IsSafe mem b did s h =
      Done-if (IsSafe env w) did _ _ ((tt, h.0), h.1)
        (dvfs_reset-IsSafe (call reset_to_stock_mem s) ((tt, h.0), h.1))
  handle_freq_reset-IsSafe governor b did s h = h
  handle_freq_reset-IsSafe display b did s h =
      if_then_else_ind (IsSafe env w) (value env Key.overwrite_refresh_rate /= 0) _ s
        (λ e. ((tt, h.0), h.1)) (λ e. h)

  put_same : (m n : Module) (hz : ℕ) (f g : Module → ℕ) → f n ≡ g n → put m hz f n ≡ put m hz g n
  put_same m n hz f g h = ap (λ x. if module_index n == module_index m then hz else x) h

  set_clock-IsSafe :
      (m : Module) (hz : ℕ) (s : Clocks)
      → IsAllowed env w (set_hz m hz)
      → IsSafe env w s
      → IsSafe env w (set_clock m hz s)
  set_clock-IsSafe m hz s ok h =
      ((ok, h.0), (h.1.0, ((λ n. put_same m n hz s.stable_freqs s.freqs (h.1.1.0 n)), h.1.1.1)))

  -- A module with a table, whose allowed rates may be set.
  abbrev IsRated : Module → Type 0
  IsRated m =
      IsTable (env.tables m)
      × ((r : ℕ) → IsAllowedHz env w.profile m r → IsAllowed env w (set_hz m r))

  apply_target-IsSafe :
      (m : Module) (old target : ℕ) (s : Clocks)
      → IsRated m
      → IsSafe env w s
      → Done (IsSafe env w) (apply_target env m old target s)
  unfolding apply_target change_rate
  apply_target-IsSafe m old target s rated h =
      allowed-Done m target (IsSafe env w) _ s h.1.0 rated.0 (λ r ok.
        Done-if (IsSafe env w) (r == s.freqs m) (some s) _ h (
          Done-bind (IsSafe env w) (IsSafe env w) _ _
            (Done-if (IsSafe env w) (hijacks env m && ltb old target) _ (some s)
              (apply_gpu_dvfs-IsSafe target s h) h)
            (λ t k.
              let u = set_clock-IsSafe m r t (rated.1 r ok) k in
              Done-if (IsSafe env w) (hijacks env m && ltb target old) _ _
                (apply_gpu_dvfs-IsSafe target (set_clock m r t) u) u)))

  apply_or_reset-IsSafe :
      (b : Bool) (m : Module) (s : Clocks)
      → IsRated m
      → IsSafe env w s
      → Done (IsSafe env w) (apply_or_reset env b m s)
  unfolding apply_or_reset
  apply_or_reset-IsSafe b m s rated h =
      Done-if (IsSafe env w) (target_hz env s m /= 0) _ _
        (apply_target-IsSafe m (env.get_hz s.calls m) (target_hz env s m) s rated h)
        (handle_freq_reset-IsSafe m b false s h)

  target_same : (s : Clocks) → IsSafe env w s → target_hz env s display ≡ target_hz env w display
  unfolding target_hz
  target_same s (calls, (profile, (stable, (overrides, title)))) =
      rw (profile, overrides, title) refl

  not_zero : (n : ℕ) → n /= 0 ≡ true → n ≢ 0
  not_zero n h = ground arith

  set_module-IsSafe :
      (b : Bool) (m : Module) (s : Clocks)
      → IsSafe env w s
      → Done (IsSafe env w) (set_module env b m s)
  unfolding set_module
  set_module-IsSafe b cpu s h =
      Done-if (IsSafe env w) s.flags.cpu (some s) _ h
        (apply_or_reset-IsSafe b cpu s (tables.0, λ r ok. inl ok) h)
  set_module-IsSafe b gpu s h =
      Done-if (IsSafe env w) s.flags.gpu (some s) _ h
        (apply_or_reset-IsSafe b gpu s (tables.1.0, λ r ok. ok) h)
  set_module-IsSafe b mem s h = apply_or_reset-IsSafe b mem s (tables.1.1, λ r ok. ok) h
  set_module-IsSafe b governor s h =
      let target = target_hz env s governor in
      let switched = handle_governor s.flags target target in
      push_stock-IsSafe switched.1 (record s { flags = switched.0 }) h
  set_module-IsSafe b display s h =
      let target = target_hz env s display in
      Done-if (IsSafe env w) (s.flags.vrr || value env Key.overwrite_refresh_rate == 0) (some s) _ h
        (if_then_else_ind (Done (IsSafe env w)) (target /= 0) _ _
          (λ e. set_clock-IsSafe display target s (target_same s h, not_zero target e) h)
          (λ e. handle_freq_reset-IsSafe display b false s h))

  set_modules-IsSafe :
      (b : Bool) (ms : List Module) (s : Clocks)
      → IsSafe env w s
      → Done (IsSafe env w) (set_modules env b ms s)
  set_modules-IsSafe b [] s h = h
  set_modules-IsSafe b (m ∷ ms) s h =
      Done-bind (IsSafe env w) (IsSafe env w) _ _ (set_module-IsSafe b m s h)
        (λ t k. set_modules-IsSafe b ms t k)

  set_cpu_again-IsSafe : (s : Clocks) → IsSafe env w s → IsSafe env w (set_cpu_again env s)
  set_cpu_again-IsSafe s h = ((inr (s.calls, refl), h.0), h.1)

-- With filled tables `SetClocks` always comes to its end, in boost mode or not, and every rate that it
-- sets is allowed, as all before are taken to be: for the CPU, the GPU and the memory an entry of the
-- table of the module that is, under a limit, not above the first entry that reaches the limit; for
-- the CPU also the rate that the board reports; for the display, which has no table, only the target
-- that the override, the title or the global profile gives, and never 0. `stable` repeats the rates.
pub set_clocks-IsSafe :
    (env : Env) (w : Clocks) (is_boost : Bool) (s : Clocks)
    → HasTables env
    → IsSafe env w s
    → Done (IsSafe env w) (set_clocks env is_boost s)
unfolding set_clocks
set_clocks-IsSafe env w is_boost s tables h =
    Done-if (IsSafe env w) (is_boost && value env Key.overwrite_boost_mode == 0) _ _
      (set_cpu_again-IsSafe env w tables s h)
      (set_modules-IsSafe env w tables is_boost all_modules _ (
        if_then_else_ind (IsSafe env w) s.prepare_boost_exit _ s
          (λ e. set_cpu_again-IsSafe env w tables s h) (λ e. h)))
