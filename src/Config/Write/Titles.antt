-- ===== src/Config/Write/Titles.antt =====
-- The clocks of a title: what `SetProfiles` changes, and which clock `GetAutoClockHz` takes.
use rcu.Base.{
  ℕ, ◌*◌, ◌<◌, ◌≡◌, ◌≢◌, ◌⊎◌, inl, inr, refl, sym, ap, ◌∙◌, Bool, true, Option, none, some, List,
  [], ◌∷◌, ◌==◌, ◌/=◌, if◌then◌else◌, u32, for_below, for-hit, for-other, Bool-cases,
  if_then_else_ind, arith,
}
use rcu.Hoc.{Profile, profile_index}
use rcu.Config.Store.{
  profile_max, module_max, Ini, Config, put_count, find_clock_mhz, first_clock,
  find_clock_hz_from_profiles, auto_profiles, get_auto_clock_hz, get_profiles,
}
use rcu.Config.Write.{commit, put_slot, for_slots, clock_line, set_profiles}

module _ (tid : ℕ) (mhz : ℕ → ℕ → ℕ) where
  put_row_hit :
      (p m : ℕ) (c : Config)
      → m < module_max
      → (for_below module_max (put_slot tid mhz p) c).clocks tid p m
        ≡ (if mhz p m /= 0 then some (mhz p m) else none)
  put_row_hit p m c h =
      for-hit (λ d. d.clocks tid p m) (put_slot tid mhz p) module_max m _ c h (λ d. ground arith)
        (λ j d n. ground (arith, n))

  put_row_other :
      (p t q n : ℕ) (c : Config)
      → (t ≢ tid) ⊎ (q ≢ p)
      → (for_below module_max (put_slot tid mhz p) c).clocks t q n ≡ c.clocks t q n
  put_row_other p t q n c h =
      for-other (λ d. d.clocks t q n) (put_slot tid mhz p) module_max c
        (λ i d lt. elim h [ inl a ↦ ground (arith, a) | inr b ↦ ground (arith, b) ])

  put_slots_hit :
      (p m : ℕ) (c : Config)
      → p < profile_max
      → m < module_max
      → (for_slots (put_slot tid mhz) c).clocks tid p m
        ≡ (if mhz p m /= 0 then some (mhz p m) else none)
  put_slots_hit p m c hp hm =
      for-hit (λ d. d.clocks tid p m) (λ q. for_below module_max (put_slot tid mhz q)) profile_max p
        _ c hp (λ d. put_row_hit p m d hm)
        (λ j d n. put_row_other j tid p m d (inr (λ e. n (sym e))))

  put_slots_other :
      (t p m : ℕ) (c : Config)
      → t ≢ tid
      → (for_slots (put_slot tid mhz) c).clocks t p m ≡ c.clocks t p m
  put_slots_other t p m c h =
      for-other (λ d. d.clocks t p m) (λ q. for_below module_max (put_slot tid mhz q)) profile_max c
        (λ i d lt. put_row_other i t p m d (inl h))

  put_slots_loaded : (c : Config) → (for_slots (put_slot tid mhz) c).loaded ≡ c.loaded
  put_slots_loaded c =
      for-other (λ d. d.loaded) (λ q. for_below module_max (put_slot tid mhz q)) profile_max c
        (λ i d lt. for-other (λ d. d.loaded) (put_slot tid mhz i) module_max d (λ j e l. refl))

commit_done :
    {F : Type 0} (o : Option F) (file : F) (c d : Config)
    → (commit o file c d).0 ≡ true
    → (commit o file c d).1.1 ≡ d
commit_done none file c d h = absurd (ground (arith, h))
commit_done (some new) file c d h = refl

entry : Option ℕ → ℕ
entry none = 0
entry (some z) = z

get_entry :
    (d : Config) (t p m : ℕ) (o : Option ℕ)
    → d.loaded ≡ true
    → d.clocks t p m ≡ o
    → get_profiles d t p m ≡ entry o
unfolding find_clock_mhz entry
get_entry d t p m none l e = ground (arith, l, e)
get_entry d t p m (some z) l e = ground (arith, l, e)

get_same :
    (c d : Config) (t p m : ℕ)
    → c.loaded ≡ true
    → d.loaded ≡ true
    → d.clocks t p m ≡ c.clocks t p m
    → get_profiles d t p m ≡ get_profiles c t p m
get_same c d t p m l k e = get_entry d t p m _ k e ∙ sym (get_entry c t p m _ l refl)

put_slots_get :
    (tid : ℕ) (mhz : ℕ → ℕ → ℕ) (c : Config)
    → c.loaded ≡ true
    → (t p m : ℕ) → p < profile_max
    → m < module_max
    → get_profiles (for_slots (put_slot tid mhz) c) t p m
      ≡ (if t == tid then mhz p m else get_profiles c t p m)
unfolding entry
put_slots_get tid mhz c l t p m hp hm =
    let k = put_slots_loaded tid mhz c ∙ l in
    let d = for_slots (put_slot tid mhz) c in
    let hit = get_entry d tid p m _ k (put_slots_hit tid mhz p m c hp hm) in
    elim (Bool-cases (t == tid)) [
      | inl e ↦ ground (arith, hit, e)
      | inr e ↦
          let other =
            get_same c d t p m l k (put_slots_other tid mhz t p m c (ground (arith, e))) in
          ground (arith, other, e)
    ]

-- When the profiles are loaded and `SetProfiles` with `immediate` returns true, `GetProfiles` then
-- returns the table that was set for its title, and what it returned before for every other title.
pub set_profiles-get :
    {F : Type 0} (ini : Ini F) (tid : ℕ) (mhz : ℕ → ℕ → ℕ) (file : F) (c : Config)
    → c.loaded ≡ true
    → (set_profiles ini tid mhz true file c).0 ≡ true
    → (t p m : ℕ) → p < profile_max
    → m < module_max
    → get_profiles (set_profiles ini tid mhz true file c).1.1 t p m
      ≡ (if t == tid then mhz p m else get_profiles c t p m)
unfolding set_profiles find_clock_mhz
set_profiles-get ini tid mhz file c l ok t p m hp hm =
    let built = for_slots (clock_line tid mhz) ([], 0) in
    let d = put_count tid built.1 c in
    ap (λ r. get_profiles r t p m) (commit_done _ file c (for_slots (put_slot tid mhz) d) ok)
    ∙ put_slots_get tid mhz d l t p m hp hm

-- The clock found first: the profiles before it have no clock.
pub data IsFirst (c : Config) (tid m : ℕ) : List Profile → ℕ → Type 0 where
  nowhere : IsFirst c tid m [] 0
  here :
      (p : Profile) (ps : List Profile)
      → 0 < find_clock_mhz c tid m (profile_index p)
      → IsFirst c tid m (p ∷ ps) (find_clock_mhz c tid m (profile_index p))
  later :
      (p : Profile) (ps : List Profile) (z : ℕ)
      → find_clock_mhz c tid m (profile_index p) ≡ 0
      → IsFirst c tid m ps z
      → IsFirst c tid m (p ∷ ps) z

first_clock-IsFirst :
    (c : Config) (tid m : ℕ) (ps : List Profile) → IsFirst c tid m ps (first_clock c tid m ps)
first_clock-IsFirst c tid m [] = nowhere
first_clock-IsFirst c tid m (p ∷ ps) =
    if_then_else_ind (IsFirst c tid m (p ∷ ps)) (find_clock_mhz c tid m (profile_index p) /= 0) _ _
      (λ e. here p ps (ground (arith, e)))
      (λ e. later p ps _ (ground (arith, e)) (first_clock-IsFirst c tid m ps))

-- With the profiles loaded, `GetAutoClockHz` returns the clock of the first profile of its list that has
-- one, and 0 when none has: in MHz if `returnRaw`, otherwise in Hz, reduced modulo 2 ^ 32.
pub get_auto_clock_hz-IsFirst :
    (c : Config) (tid m : ℕ) (p : Profile) (raw : Bool)
    → c.loaded ≡ true
    → (z : ℕ) × (IsFirst c tid m (auto_profiles p) z
        × (get_auto_clock_hz c tid m p raw ≡ u32 (z * (if raw then 1 else 1000000))))
unfolding get_auto_clock_hz find_clock_hz_from_profiles
get_auto_clock_hz-IsFirst c tid m p raw l =
    let z = first_clock c tid m (auto_profiles p) in
    (
      z,
      (
        first_clock-IsFirst c tid m (auto_profiles p),
        ap (λ b. u32 ((if b then z else 0) * (if raw then 1 else 1000000))) l,
      ),
    )
