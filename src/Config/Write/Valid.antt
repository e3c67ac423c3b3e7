-- ===== src/Config/Write/Valid.antt =====
-- What the functions of the configuration keep: each setting has a value that it may have, and no clock
-- of a title is 0.
use rcu.Base.{
  ℕ, ◌≢◌, Bool, not, ◌&&◌, ◌||◌, Option, none, some, List, [], ◌∷◌, ltb, ◌==◌, ◌/=◌, if◌then◌else◌,
  for_below, if_then_else_ind, for-keeps, ltb→lt, arith,
}
use rcu.Config.Key
use rcu.Config.Values.{Values, default_config_value, valid_config_value, accepted, put_value, fill}
use rcu.Config.Values.Valid.{AreValid, default_valid, accepted_valid, put_valid}
use rcu.Config.Store.{
  profile_max, module_max, Line, setting, clock, other, Ini, Config, put_clock, put_count, browse,
  browse_all, close, initialize, load, refresh, set_override_hz,
}
use rcu.Config.Write.{
  commit, put_slot, clock_line, for_slots, set_profiles, set_config_values, reset_config_value,
  set_config_value,
}

-- Each setting has a value that it may have, and no clock of a title is 0.
abbrev pub IsSound : Config → Type 0
IsSound c = AreValid c.values × ((t p m : ℕ) → c.clocks t p m ≢ some 0)

fill_default-AreValid : (v : Values) → AreValid (fill default_config_value v)
fill_default-AreValid v k h = ground (arith, default_valid k h)

fill-accepted-AreValid : (inputs v : Values) → AreValid (fill (λ k. accepted k (inputs k)) v)
fill-accepted-AreValid inputs v k h = ground (arith, accepted_valid k (inputs k) h)

put_clock-IsSound :
    (tid p m : ℕ) (o : Option ℕ) (c : Config)
    → o ≢ some 0
    → IsSound c
    → IsSound (put_clock tid p m o c)
put_clock-IsSound tid p m o c ok (v, h) = (v, λ t q n. ground (arith, h t q n))

browse-IsSound : (l : Line) (c : Config) → IsSound c → IsSound (browse l c)
unfolding browse
browse-IsSound (setting k input) c (v, h) =
    if_then_else_ind IsSound (ltb k Key.enum_max)
      (record c { values = put_value k (accepted k input) c.values }) c
      (λ e. (put_valid k (accepted k input) c.values (accepted_valid k input (ltb→lt k _ e)) v, h))
      (λ e. (v, h))
browse-IsSound (clock tid p m mhz) c (v, h) =
    if_then_else_ind IsSound
      (tid == 0 || not (ltb p profile_max) || not (ltb m module_max) || mhz == 0) c _ (λ e. (v, h))
      (λ e. put_clock-IsSound tid p m (some mhz) c (λ z. ground (arith, e, z)) (v, h))
browse-IsSound other c h = h

browse_all-IsSound : (ls : List Line) (c : Config) → IsSound c → IsSound (browse_all ls c)
browse_all-IsSound [] c h = h
browse_all-IsSound (l ∷ ls) c h = browse_all-IsSound ls (browse l c) (browse-IsSound l c h)

close-IsSound : (c : Config) → IsSound (close c)
unfolding close
close-IsSound c = (fill_default-AreValid c.values, λ t p m. ground arith)

initialize-IsSound : (c : Config) → IsSound (initialize c)
unfolding initialize
initialize-IsSound c = (fill_default-AreValid c.values, λ t p m. ground arith)

put_slot-IsSound :
    (tid : ℕ) (mhz : ℕ → ℕ → ℕ) (p m : ℕ) (c : Config)
    → IsSound c
    → IsSound (put_slot tid mhz p m c)
put_slot-IsSound tid mhz p m c h =
    put_clock-IsSound tid p m (if mhz p m /= 0 then some (mhz p m) else none) c (ground arith) h

put_slots-IsSound :
    (tid : ℕ) (mhz : ℕ → ℕ → ℕ) (c : Config) → IsSound c → IsSound (for_slots (put_slot tid mhz) c)
put_slots-IsSound tid mhz c h =
    for-keeps IsSound (λ p. for_below module_max (put_slot tid mhz p)) profile_max c
      (λ p d k.
        for-keeps IsSound (put_slot tid mhz p) module_max d (λ m e. put_slot-IsSound tid mhz p m e)
          k)
      h

module _ {F : Type 0} (ini : Ini F) where
  load-IsSound : (now : ℕ) (file : F) (c : Config) → IsSound (load ini now file c)
  unfolding load
  load-IsSound now file c =
      if_then_else_ind IsSound (now == 0) _ _ (λ e. close-IsSound c)
        (λ e. browse_all-IsSound (ini.lines file) _ (close-IsSound c))

  refresh-IsSound :
      (now : ℕ) (file : F) (c : Config) → IsSound c → IsSound (refresh ini now file c).1
  unfolding refresh
  refresh-IsSound now file c h =
      if_then_else_ind (λ (r : Bool × Config). IsSound r.1) (not c.loaded || c.mtime /= now) _ _
        (λ e. load-IsSound now file c) (λ e. h)

  commit-IsSound :
      (o : Option F) (file : F) (c d : Config)
      → IsSound c
      → IsSound d
      → IsSound (commit o file c d).1.1
  commit-IsSound none file c d h k = h
  commit-IsSound (some new) file c d h k = k

  set_profiles-IsSound :
      (tid : ℕ) (mhz : ℕ → ℕ → ℕ) (immediate : Bool) (file : F) (c : Config)
      → IsSound c
      → IsSound (set_profiles ini tid mhz immediate file c).1.1
  unfolding set_profiles
  set_profiles-IsSound tid mhz immediate file c h =
      let built = for_slots (clock_line tid mhz) ([], 0) in
      commit-IsSound _ file c _ h (
        if_then_else_ind IsSound immediate _ c
          (λ e. put_slots-IsSound tid mhz (put_count tid built.1 c) h) (λ e. h))

  set_config_values-IsSound :
      (inputs : Values) (immediate : Bool) (file : F) (c : Config)
      → IsSound c
      → IsSound (set_config_values ini inputs immediate file c).1.1
  unfolding set_config_values
  set_config_values-IsSound inputs immediate file c h = commit-IsSound _ file c _ h (
      if_then_else_ind IsSound immediate
        (record c { values = fill (λ k. accepted k (inputs k)) c.values }) c
        (λ e. (fill-accepted-AreValid inputs c.values, h.1)) (λ e. h))

  reset_config_value-IsSound :
      (k : ℕ) (file : F) (c : Config) → IsSound c → IsSound (reset_config_value ini k file c).1.1
  unfolding reset_config_value
  reset_config_value-IsSound k file c h =
      if_then_else_ind (λ (r : Bool × (F × Config)). IsSound r.1.1) (ltb k Key.enum_max) _ _
        (λ e.
          commit-IsSound _ file c _ h
            (put_valid k _ c.values (default_valid k (ltb→lt k _ e)) h.0, h.1))
        (λ e. h)

  set_config_value-IsSound :
      (k value : ℕ) (immediate : Bool) (file : F) (c : Config)
      → IsSound c
      → IsSound (set_config_value ini k value immediate file c).1.1
  unfolding set_config_value
  set_config_value-IsSound k value immediate file c h =
      if_then_else_ind (λ (r : Bool × (F × Config)). IsSound r.1.1)
        (ltb k Key.enum_max && valid_config_value k value) _ _
        (λ e. commit-IsSound _ file c _ h (
          if_then_else_ind IsSound immediate (record c { values = put_value k value c.values }) c
            (λ i. (put_valid k value c.values (ground (arith, e)) h.0, h.1)) (λ i. h)))
        (λ e. h)

-- The states after `Initialize` and any calls, on any file.
pub data Reached {F : Type 0} (ini : Ini F) : Config → Type 0 where
  initialized : (c : Config) → Reached ini (initialize c)
  exited : (c : Config) → Reached ini c → Reached ini (close c)
  refreshed :
      (now : ℕ) (file : F) (c : Config) → Reached ini c → Reached ini (refresh ini now file c).1
  overridden : (m hz : ℕ) (c : Config) → Reached ini c → Reached ini (set_override_hz m hz c)
  profiles_set :
      (tid : ℕ) (mhz : ℕ → ℕ → ℕ) (immediate : Bool) (file : F) (c : Config)
      → Reached ini c
      → Reached ini (set_profiles ini tid mhz immediate file c).1.1
  values_set :
      (inputs : Values) (immediate : Bool) (file : F) (c : Config)
      → Reached ini c
      → Reached ini (set_config_values ini inputs immediate file c).1.1
  value_reset :
      (k : ℕ) (file : F) (c : Config)
      → Reached ini c
      → Reached ini (reset_config_value ini k file c).1.1
  value_set :
      (k value : ℕ) (immediate : Bool) (file : F) (c : Config)
      → Reached ini c
      → Reached ini (set_config_value ini k value immediate file c).1.1

-- After `Initialize` and any calls of the functions of the configuration, whatever the file holds at
-- each, every setting has a value that it may have and no clock of a title is stored as 0.
pub Reached-IsSound : {F : Type 0} {ini : Ini F} {c : Config} → Reached ini c → IsSound c
unfolding set_override_hz
Reached-IsSound (initialized c) = initialize-IsSound c
Reached-IsSound (exited c r) = close-IsSound c
Reached-IsSound (refreshed now file c r) = refresh-IsSound _ now file c (Reached-IsSound r)
Reached-IsSound (overridden m hz c r) = Reached-IsSound r
Reached-IsSound (profiles_set tid mhz immediate file c r) =
    set_profiles-IsSound _ tid mhz immediate file c (Reached-IsSound r)
Reached-IsSound (values_set inputs immediate file c r) =
    set_config_values-IsSound _ inputs immediate file c (Reached-IsSound r)
Reached-IsSound (value_reset k file c r) = reset_config_value-IsSound _ k file c (Reached-IsSound r)
Reached-IsSound (value_set k value immediate file c r) =
    set_config_value-IsSound _ k value immediate file c (Reached-IsSound r)
