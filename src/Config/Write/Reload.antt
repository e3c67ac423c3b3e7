-- ===== src/Config/Write/Reload.antt =====
-- What `Load` reads back of the settings that were saved.
use rcu.Base.{
  ℕ, zero, suc, ◌<◌, ◌≡◌, inl, inr, refl, sym, ap, ◌∙◌, Bool, true, false, not, ◌&&◌, ◌||◌, Option,
  none, some, List, [], ◌∷◌, ◌++◌, ltb, ◌==◌, if◌then◌else◌, for_below, for-keeps, All, Bool-cases,
  if_then_else_ind, ==_iff, subst, arith,
}
use rcu.Config.Key
use rcu.Config.Values.{Values, default_config_value, valid_config_value, accepted}
use rcu.Config.Store.{
  Line, setting, clock, other, Section, values_section, in_section, Ini, Config, browse, browse_all,
  close, load,
}
use rcu.Config.Write.{
  commit, setting_lines, set_config_values, reset_config_value, set_config_value,
}

-- The lines of a section.
abbrev pub only : Section → List Line → List Line
only s [] = []
only s (l ∷ ls) = if in_section s l then l ∷ only s ls else only s ls

-- minIni: a section that was written is read back with the lines written, in their order.
pub record IsIni {F : Type 0} (ini : Ini F) : Type 0 where
  pub put_lines :
      (s : Section) (ls : List Line) (file new : F)
      → All (λ l. in_section s l ≡ true) ls
      → ini.put_section s ls file ≡ some new
      → only s (ini.lines new) ≡ ls

browse-clock_values : (t p m z : ℕ) (c : Config) → (browse (clock t p m z) c).values ≡ c.values
unfolding browse
browse-clock_values t p m z c =
    if_then_else_ind (λ (d : Config). d.values ≡ c.values) _ c _ (λ e. refl) (λ e. refl)

browse_setting_values :
    (k v j : ℕ) (c d : Config)
    → c.values j ≡ d.values j
    → (browse (setting k v) c).values j ≡ (browse (setting k v) d).values j
unfolding browse
browse_setting_values k v j c d h = ground (arith, h)

browse_other : (c : Config) → browse other c ≡ c
unfolding browse
browse_other c = refl

browse_only_values :
    (j : ℕ) (ls : List Line) (c d : Config)
    → c.values j ≡ d.values j
    → (browse_all ls c).values j ≡ (browse_all (only values_section ls) d).values j
browse_only_values j [] c d h = h
browse_only_values j (setting k v ∷ ls) c d h =
    browse_only_values j ls _ _ (browse_setting_values k v j c d h)
browse_only_values j (clock t p m z ∷ ls) c d h =
    browse_only_values j ls _ d (ap (λ v. v j) (browse-clock_values t p m z c) ∙ h)
browse_only_values j (other ∷ ls) c d h =
    browse_only_values j ls _ d (ap (λ e. e.values j) (browse_other c) ∙ h)

browse_all-snoc :
    (ls : List Line) (l : Line) (c : Config)
    → browse_all (ls ++ (l ∷ [])) c ≡ browse l (browse_all ls c)
browse_all-snoc [] l c = refl
browse_all-snoc (x ∷ ls) l c = browse_all-snoc ls l (browse x c)

All-snoc :
    (s : Section) (ls : List Line) (l : Line)
    → All (λ x. in_section s x ≡ true) ls
    → in_section s l ≡ true
    → All (λ x. in_section s x ≡ true) (ls ++ (l ∷ []))
All-snoc s [] l h e = (e, tt)
All-snoc s (x ∷ ls) l (p, h) e = (p, All-snoc s ls l h e)

-- The lines of the settings below `n`.
abbrev lines_below : (inputs : Values) → ℕ → List Line
lines_below inputs n = for_below n (setting_lines inputs) []

lines_below-in_section :
    (inputs : Values) (n : ℕ) → All (λ l. in_section values_section l ≡ true) (lines_below inputs n)
lines_below-in_section inputs n =
    for-keeps (λ ls. All (λ l. in_section values_section l ≡ true) ls) (setting_lines inputs) n []
      (λ k ls h.
        if_then_else_ind (λ r. All (λ l. in_section values_section l ≡ true) r)
          (not (valid_config_value k (inputs k)) || inputs k == default_config_value k) ls _
          (λ e. h) (λ e. All-snoc values_section ls (setting k (inputs k)) h refl))
      tt

browse_setting :
    (k v j : ℕ) (c : Config)
    → k < Key.enum_max
    → (browse (setting k v) c).values j ≡ (if j == k then accepted k v else c.values j)
unfolding browse
browse_setting k v j c h = ground (arith, h)

is_left_out : Values → ℕ → Bool
is_left_out inputs k = not (valid_config_value k (inputs k)) || inputs k == default_config_value k

browse_step :
    (inputs : Values) (n j : ℕ) (ls : List Line) (c : Config)
    → n < Key.enum_max
    → (browse_all (setting_lines inputs n ls) c).values j ≡ (
        if is_left_out inputs n
        then (browse_all ls c).values j
        else if j == n
        then accepted n (inputs n)
        else (browse_all ls c).values j)
unfolding is_left_out
browse_step inputs n j ls c h =
    let at =
      ap (λ (d : Config). d.values j) (browse_all-snoc ls (setting n (inputs n)) c)
      ∙ browse_setting n (inputs n) j _ h in
    elim (Bool-cases
      (not (valid_config_value n (inputs n)) || inputs n == default_config_value n)) [
        | inl s ↦ ground (arith, s)
        | inr s ↦ ground (arith, s, at)
      ]

left_out :
    (inputs : Values) (k : ℕ)
    → is_left_out inputs k ≡ true
    → accepted k (inputs k) ≡ default_config_value k
unfolding is_left_out
left_out inputs k h = ground (arith, h)

-- The lines saved below `n` give the settings below `n` over the defaults.
browse_lines_below :
    (inputs : Values) (n j : ℕ) (c : Config)
    → n < suc Key.enum_max
    → c.values j ≡ default_config_value j
    → (browse_all (lines_below inputs n) c).values j
      ≡ (if ltb j n then accepted j (inputs j) else default_config_value j)
browse_lines_below inputs zero j c h e = ground (arith, e)
browse_lines_below inputs (suc n) j c h e =
    let ih = browse_lines_below inputs n j c (omega (arith, h)) e in
    let step = browse_step inputs n j (lines_below inputs n) c (omega (arith, h)) in
    elim (Bool-cases (is_left_out inputs n)) [
      | inl s ↦ ground (arith, s, ih, step, left_out inputs n s)
      | inr s ↦ ground (arith, s, ih, step)
    ]

commit_file :
    {F : Type 0} (o : Option F) (file : F) (c d : Config)
    → (commit o file c d).0 ≡ true
    → o ≡ some (commit o file c d).1.0
commit_file none file c d h = absurd (ground (arith, h))
commit_file (some new) file c d h = refl

close_values : (c : Config) (j : ℕ) → j < Key.enum_max → (close c).values j ≡ default_config_value j
unfolding close
close_values c j h = ground (arith, h)

read_zero :
    (j k : ℕ)
    → (if j == k then accepted k 0 else default_config_value j)
      ≡ (if j == k && valid_config_value k 0 then 0 else default_config_value j)
read_zero j k = elim (Bool-cases (j == k)) [
  | inl e ↦
      subst
        (λ (i : ℕ).
          (if i == k then accepted k 0 else default_config_value i)
          ≡ (if i == k && valid_config_value k 0 then 0 else default_config_value i))
        (sym ((==_iff j k).0 e)) (ground arith)
  | inr e ↦ ground (arith, e)
]

commit_if :
    {F : Type 0} (b : Bool) (o : Option F) (file : F) (c d : Config)
    → (if b then commit o file c d else (false, (file, c))).0 ≡ true
    → (b ≡ true) × (o ≡ some (if b then commit o file c d else (false, (file, c))).1.0)
commit_if true o file c d h = (refl, commit_file o file c d h)
commit_if false o file c d h = absurd (ground (arith, h))

module _ {F : Type 0} (ini : Ini F) (laws : IsIni ini) (now : ℕ) (is_now : 0 < now) where
  load_values :
      (ls : List Line) (file new : F) (c : Config) (j : ℕ)
      → All (λ l. in_section values_section l ≡ true) ls
      → ini.put_section values_section ls file ≡ some new
      → (load ini now new c).values j ≡ (browse_all ls (close c)).values j
  unfolding load
  load_values ls file new c j h e =
      if_then_else_ind (λ (d : Config). d.values j ≡ (browse_all ls (close c)).values j) (now == 0)
        _ _ (λ z. absurd (ground (arith, z, is_now)))
        (λ z.
          browse_only_values j (ini.lines new) _ (close c) refl
          ∙ ap (λ r. (browse_all r (close c)).values j)
              (laws.put_lines values_section ls file new h e))

  load_one :
      (k v j : ℕ) (file new : F) (c : Config)
      → k < Key.enum_max
      → j < Key.enum_max
      → ini.put_section values_section (setting k v ∷ []) file ≡ some new
      → (load ini now new c).values j ≡ (if j == k then accepted k v else default_config_value j)
  load_one k v j file new c hk hj e =
      load_values (setting k v ∷ []) file new c j (refl, tt) e
      ∙ browse_setting k v j (close c) hk
      ∙ ap (λ x. if j == k then accepted k v else x) (close_values c j hj)

  -- When `SetConfigValues` has returned true, the next `Load` that finds the file gives each setting
  -- below `enum_max` the value that `SetConfigValues` was given, or the default where that is a value
  -- that the setting may not have.
  pub set_config_values-load :
      (inputs : Values) (immediate : Bool) (file : F) (c d : Config)
      → (set_config_values ini inputs immediate file c).0 ≡ true
      → (j : ℕ) → j < Key.enum_max
      → (load ini now (set_config_values ini inputs immediate file c).1.0 d).values j
        ≡ accepted j (inputs j)
  unfolding set_config_values
  set_config_values-load inputs immediate file c d ok j h =
      load_values (lines_below inputs Key.enum_max) file _ d j
        (lines_below-in_section inputs Key.enum_max) (commit_file _ file c _ ok)
      ∙ browse_lines_below inputs Key.enum_max j (close d) (omega arith) (close_values d j h)
      ∙ ground (arith, h)

  -- When `SetConfigValue` has returned true, the next `Load` that finds the file gives the setting its
  -- value, and gives every other setting its default, whatever was saved before.
  pub set_config_value-load :
      (k value : ℕ) (immediate : Bool) (file : F) (c d : Config)
      → (set_config_value ini k value immediate file c).0 ≡ true
      → (j : ℕ) → j < Key.enum_max
      → (load ini now (set_config_value ini k value immediate file c).1.0 d).values j
        ≡ (if j == k then value else default_config_value j)
  unfolding set_config_value
  set_config_value-load k value immediate file c d ok j h =
      let saved = commit_if (ltb k Key.enum_max && valid_config_value k value) _ file c _ ok in
      let b = saved.0 in
      load_one k value j file _ d (ground (arith, b)) h saved.1
      ∙ ap (λ x. if j == k then x else default_config_value j) (ground (arith, b))

  -- When `ResetConfigValue` has returned true, the next `Load` that finds the file gives the setting 0
  -- if it may be 0, and its default if not, and gives every other setting its default.
  pub reset_config_value-load :
      (k : ℕ) (file : F) (c d : Config)
      → (reset_config_value ini k file c).0 ≡ true
      → (j : ℕ) → j < Key.enum_max
      → (load ini now (reset_config_value ini k file c).1.0 d).values j
        ≡ (if j == k && valid_config_value k 0 then 0 else default_config_value j)
  unfolding reset_config_value
  reset_config_value-load k file c d ok j h =
      let saved = commit_if (ltb k Key.enum_max) _ file c _ ok in
      let b = saved.0 in load_one k 0 j file _ d (ground (arith, b)) h saved.1 ∙ read_zero j k
