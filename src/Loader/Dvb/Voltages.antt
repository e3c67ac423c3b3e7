-- ===== src/Loader/Dvb/Voltages.antt =====
-- The voltages of the table of `MemFreqDvbTable`.
use rcu.Base.{
  ℕ, suc, ◌+◌, ◌-◌, ◌*◌, ◌≤◌, ◌<◌, ◌≡◌, refl, sym, ap, ◌∙◌, false, List, [], ◌∷◌, ◌++◌, map, arith,
  leb, ℤ, pos, negsuc, subst, drop, Bool-cases, inl, inr, leb→le, leb-false, All, IsIncreasing,
  if_then_else_ind,
}
use rcu.Loader.Custom.{CustomizeTable}
use rcu.Loader.Dvb.{
  Volts, DvbEntry, min_volt, clamp, clamp_volt, max_volt, bracket, shifted_rows, fixed,
  emc_dvb_oc_table_brackets, emc_dvb_table_oc,
}
use rcu.Loader.Dvb.Brackets.{row_at, Rising, row_at-none, le→leb, dvb_entries-row_at, map-All}

clamp-within : (v m : ℕ) → min_volt ≤ m → (min_volt ≤ clamp v m) × (clamp v m ≤ m)
clamp-within v m h = ground arith

clamp_mono : (v w m : ℕ) → v ≤ w → min_volt ≤ m → clamp v m ≤ clamp w m
clamp_mono v w m h k = ground arith

clamp_volt-within :
    (s : ℤ) (v m : ℕ) → min_volt ≤ m → (min_volt ≤ clamp_volt s v m) × (clamp_volt s v m ≤ m)
clamp_volt-within (pos n) v m h = clamp-within (v + 25 * n) m h
clamp_volt-within (negsuc n) v m h = clamp-within (v - 25 * suc n) m h

clamp_volt_mono : (s : ℤ) (v w m : ℕ) → v ≤ w → min_volt ≤ m → clamp_volt s v m ≤ clamp_volt s w m
clamp_volt_mono (pos n) v w m h k = clamp_mono (v + 25 * n) (w + 25 * n) m (omega arith) k
clamp_volt_mono (negsuc n) v w m h k =
    clamp_mono (v - 25 * suc n) (w - 25 * suc n) m (omega arith) k

max_volt-enough : (c : CustomizeTable) (usual : ℕ) → 1000 ≤ usual → min_volt ≤ max_volt c usual
max_volt-enough c usual h = ground arith

-- Voltages in the limits that the table sets for them.
abbrev pub IsWithin : CustomizeTable → Volts → Type 0
IsWithin c v =
    (min_volt ≤ v.zeroth)
    × (v.zeroth ≤ max_volt c 1050)
    × (min_volt ≤ v.first)
    × (v.first ≤ max_volt c 1025)
    × (min_volt ≤ v.second)
    × (v.second ≤ max_volt c 1000)

abbrev pub IsBelow : Volts → Volts → Type 0
IsBelow v w = (v.zeroth ≤ w.zeroth) × (v.first ≤ w.first) × (v.second ≤ w.second)

IsBelow-trans : {u v w : Volts} → IsBelow u v → IsBelow v w → IsBelow u w
IsBelow-trans (a, b, c) (d, e, f) = (omega (arith, a, d), omega (arith, b, e), omega (arith, c, f))

bracket-IsWithin : (c : CustomizeTable) (row : ℕ × ℕ × ℕ × ℕ) → IsWithin c (bracket c row).volt
bracket-IsWithin c (f, a, b, d) =
    let (z, z') =
      clamp_volt-within c.emc_dvb_shift a (max_volt c 1050)
        (max_volt-enough c 1050 (omega arith)) in
    let (o, o') =
      clamp_volt-within c.emc_dvb_shift b (max_volt c 1025)
        (max_volt-enough c 1025 (omega arith)) in
    let (t, t') =
      clamp_volt-within c.emc_dvb_shift d (max_volt c 1000)
        (max_volt-enough c 1000 (omega arith)) in
    (z, z', o, o', t, t')

brackets-IsWithin :
    (c : CustomizeTable) (rows : List (ℕ × ℕ × ℕ × ℕ))
    → All (λ (e : DvbEntry). IsWithin c e.volt) (map (bracket c) rows)
brackets-IsWithin c [] = tt
brackets-IsWithin c (r ∷ rows) = (bracket-IsWithin c r, brackets-IsWithin c rows)

-- The next row is for higher clocks and has no lower voltage.
abbrev pub Climbs : DvbEntry → List DvbEntry → Type 0
Climbs b [] = Unit
Climbs b (r ∷ rest) = (b.freq < r.freq) × IsBelow b.volt r.volt × Climbs r rest

abbrev Steps : ℕ × ℕ × ℕ × ℕ → List (ℕ × ℕ × ℕ × ℕ) → Type 0
Steps r [] = Unit
Steps (f, a, b, d) ((f', a', b', d') ∷ rows) =
    (f < f') × (a ≤ a') × (b ≤ b') × (d ≤ d') × Steps (f', a', b', d') rows

brackets-Climbs :
    (c : CustomizeTable) (r : ℕ × ℕ × ℕ × ℕ) (rows : List (ℕ × ℕ × ℕ × ℕ))
    → Steps r rows
    → Climbs (bracket c r) (map (bracket c) rows)
brackets-Climbs c r [] h = tt
brackets-Climbs c (f, a, b, d) ((f', a', b', d') ∷ rows) (lt, p, q, s, h) = (
  lt,
  (
    clamp_volt_mono c.emc_dvb_shift a a' (max_volt c 1050) p (max_volt-enough c 1050 (omega arith)),
    clamp_volt_mono c.emc_dvb_shift b b' (max_volt c 1025) q (max_volt-enough c 1025 (omega arith)),
    clamp_volt_mono c.emc_dvb_shift d d' (max_volt c 1000) s (max_volt-enough c 1000 (omega arith)),
  ),
  brackets-Climbs c (f', a', b', d') rows h,
)

Climbs→Rising : (b : DvbEntry) (rest : List DvbEntry) → Climbs b rest → Rising b rest
Climbs→Rising b [] h = tt
Climbs→Rising b (r ∷ rest) (lt, v, h) = (lt, Climbs→Rising r rest h)

row_at-above :
    (f : ℕ) (b : DvbEntry) (rest : List DvbEntry)
    → Climbs b rest
    → IsBelow b.volt (row_at f b rest).volt
unfolding row_at
row_at-above f b [] h = (omega arith, omega arith, omega arith)
row_at-above f b (r ∷ rest) (lt, v, h) =
    if_then_else_ind (λ (x : DvbEntry). IsBelow b.volt x.volt) (leb r.freq f) (row_at f r rest)
      (row_at f b rest) (λ e. IsBelow-trans v (row_at-above f r rest h))
      (λ e.
        subst (λ (x : DvbEntry). IsBelow b.volt x.volt)
          (sym (row_at-none f b r rest (leb-false r.freq f e) (Climbs→Rising r rest h)))
          (omega arith, omega arith, omega arith))

row_at-first :
    (f : ℕ) (b r : DvbEntry) (rest : List DvbEntry)
    → leb r.freq f ≡ false
    → Rising r rest
    → row_at f b (r ∷ rest) ≡ b
unfolding row_at
row_at-first f b r rest e h = rw e (row_at-none f b r rest (leb-false r.freq f e) h)

row_at_mono :
    (f g : ℕ) (b : DvbEntry) (rest : List DvbEntry)
    → f ≤ g
    → Climbs b rest
    → IsBelow (row_at f b rest).volt (row_at g b rest).volt
unfolding row_at
row_at_mono f g b [] le h = (omega arith, omega arith, omega arith)
row_at_mono f g b (r ∷ rest) le h = elim (Bool-cases (leb r.freq f)) [
  | inl e ↦
      rw (e, le→leb r.freq g (omega (arith, le, leb→le r.freq f e))) (row_at_mono f g r rest le h.2)
  | inr e ↦
      subst (λ (x : DvbEntry). IsBelow x.volt (row_at g b (r ∷ rest)).volt)
        (sym (row_at-first f b r rest e (Climbs→Rising r rest h.2))) (row_at-above g b (r ∷ rest) h)
]

not_up : (a b : ℕ) → b < a → leb a b ≡ false
not_up a b h = ground arith

-- The last row, which is for no clock.
row_at-cut :
    (f : ℕ) (b t : DvbEntry) (rest : List DvbEntry)
    → f < t.freq
    → row_at f b (rest ++ (t ∷ [])) ≡ row_at f b rest
unfolding row_at
row_at-cut f b t [] lt = rw (not_up t.freq f lt) refl
row_at-cut f b t (r ∷ rest) lt = elim (Bool-cases (leb r.freq f)) [
  | inl e ↦ rw e (row_at-cut f r t rest lt)
  | inr e ↦ rw e (row_at-cut f b t rest lt)
]

row_at-All :
    (P : DvbEntry → Type 0) (f : ℕ) (b : DvbEntry) (rest : List DvbEntry)
    → P b
    → All P rest
    → P (row_at f b rest)
unfolding row_at
row_at-All P f b [] p h = p
row_at-All P f b (r ∷ rest) p (q, h) =
    if_then_else_ind P (leb r.freq f) (row_at f r rest) (row_at f b rest)
      (λ e. row_at-All P f r rest q h) (λ e. row_at-All P f b rest p h)

row_at-step :
    (f : ℕ) (b r : DvbEntry) (rest : List DvbEntry)
    → r.freq ≤ f
    → row_at f b (r ∷ rest) ≡ row_at f r rest
unfolding row_at
row_at-step f b r rest le = rw (le→leb r.freq f le) refl

-- The row of a clock: the last one of the brackets up to it.
abbrev pub shifted : CustomizeTable → List DvbEntry
shifted c = map (bracket c) shifted_rows

abbrev pub row_of : CustomizeTable → ℕ → DvbEntry
row_of c f =
    row_at f (fixed 204000 637 637 637)
      (fixed 1331200 650 637 637 ∷ fixed 1600000 675 650 637 ∷ shifted c)

brackets-Rising :
    (c : CustomizeTable)
    → Rising (fixed 204000 637 637 637) (
        fixed 1331200 650 637 637
        ∷ fixed 1600000 675 650 637
        ∷ (shifted c ++ (fixed 0xffffffff 0 0 0 ∷ [])))
brackets-Rising c = ground arith

-- The table of `MemFreqDvbTable` for an increasing list of clocks below the largest word has an entry
-- for each clock, with the voltages of the last bracket that is not above it, or of the first bracket
-- for a clock below all of them.
pub emc_dvb_table_oc-row_of :
    (c : CustomizeTable) (fs : List ℕ)
    → IsIncreasing fs
    → All (λ f. f < 0xffffffff) fs
    → emc_dvb_table_oc c fs ≡ map (λ f. record { freq = f; volt = (row_of c f).volt }) fs
unfolding emc_dvb_table_oc emc_dvb_oc_table_brackets
emc_dvb_table_oc-row_of c fs inc below =
    dvb_entries-row_at fs (fixed 204000 637 637 637) _ (brackets-Rising c) inc
    ∙ map-All (λ f. f < 0xffffffff) _ _
        (λ f lt.
          ap (λ (r : DvbEntry). record { freq = f; volt = r.volt })
            (row_at-cut f (fixed 204000 637 637 637) (fixed 0xffffffff 0 0 0)
              (fixed 1331200 650 637 637 ∷ fixed 1600000 675 650 637 ∷ shifted c) lt))
        fs below

fixed-IsWithin :
    (c : CustomizeTable) (f a b d : ℕ)
    → (637 ≤ a) × (a ≤ 1000) × (637 ≤ b) × (b ≤ 1000) × (637 ≤ d) × (d ≤ 1000)
    → IsWithin c (fixed f a b d).volt
fixed-IsWithin c f a b d h = ground arith

pub row_of-IsWithin : (c : CustomizeTable) (f : ℕ) → IsWithin c (row_of c f).volt
row_of-IsWithin c f =
    row_at-All (λ (e : DvbEntry). IsWithin c e.volt) f (fixed 204000 637 637 637)
      (fixed 1331200 650 637 637 ∷ fixed 1600000 675 650 637 ∷ shifted c)
      (fixed-IsWithin c 204000 637 637 637 (ground arith))
      (
        fixed-IsWithin c 1331200 650 637 637 (ground arith),
        (fixed-IsWithin c 1600000 675 650 637 (ground arith), brackets-IsWithin c shifted_rows),
      )

row_of-from :
    (c : CustomizeTable) (f : ℕ)
    → 1866000 ≤ f
    → row_of c f
      ≡ row_at f (bracket c (1866000, 700, 675, 650)) (map (bracket c) (drop 1 shifted_rows))
row_of-from c f h =
    row_at-step f _ (fixed 1331200 650 637 637) _ (omega arith)
    ∙ (row_at-step f _ (fixed 1600000 675 650 637) _ (omega arith)
        ∙ row_at-step f _ (bracket c (1866000, 700, 675, 650)) _ h)

shifted_rows-Steps : Steps (1866000, 700, 675, 650) (drop 1 shifted_rows)
shifted_rows-Steps = ground arith

-- A higher one of two clocks from 1866 MHz on has no lower voltage in any of the three columns of the
-- brackets, whatever `emcDvbShift` is.
pub row_of_mono :
    (c : CustomizeTable) (f g : ℕ)
    → 1866000 ≤ f
    → f ≤ g
    → IsBelow (row_of c f).volt (row_of c g).volt
row_of_mono c f g lo le =
    rw (row_of-from c f lo, row_of-from c g (omega (arith, lo, le)))
      (row_at_mono f g _ _ le
        (brackets-Climbs c (1866000, 700, 675, 650) (drop 1 shifted_rows) shifted_rows-Steps))
