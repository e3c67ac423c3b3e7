-- ===== src/Loader/Dvb/Brackets.antt =====
-- The rows that the loop of `MemFreqDvbTable` finds, against a search from the first row for each clock.
use rcu.Base.{
  ℕ, ◌≤◌, ◌<◌, ◌≡◌, refl, sym, ap, ◌∙◌, true, List, [], ◌∷◌, map, arith, leb, if◌then◌else◌,
  fun_ext, Bool-cases, inl, inr, leb→le, leb-false, All, IsIncreasing, if_then_else_ind,
}
use rcu.Loader.Dvb.{DvbEntry, advance, dvb_entries}

-- The last row up to the clock, with all rows read.
unfoldable pub row_at : ℕ → DvbEntry → List DvbEntry → DvbEntry
row_at f b [] = b
row_at f b (r ∷ rest) = if leb r.freq f then row_at f r rest else row_at f b rest

abbrev pub Rising : DvbEntry → List DvbEntry → Type 0
Rising b [] = Unit
Rising b (r ∷ rest) = (b.freq < r.freq) × Rising r rest

pub row_at-none :
    (f : ℕ) (b r : DvbEntry) (rest : List DvbEntry)
    → f < r.freq
    → Rising r rest
    → row_at f b rest ≡ b
unfolding row_at
row_at-none f b r [] lt h = refl
row_at-none f b r (s ∷ rest) lt (le, h) =
    if_then_else_ind (λ x. x ≡ b) (leb s.freq f) (row_at f s rest) (row_at f b rest)
      (λ e. absurd (omega (arith, lt, le, leb→le s.freq f e)))
      (λ e. row_at-none f b s rest (omega (arith, lt, le)) h)

-- The `while` stops at that row.
advance_lem :
    (f : ℕ) (b : DvbEntry) (rest : List DvbEntry)
    → Rising b rest
    → (advance f b rest).0 ≡ row_at f b rest
unfolding advance row_at
advance_lem f b [] h = refl
advance_lem f b (r ∷ rest) (le, h) = elim (Bool-cases (leb r.freq f)) [
  | inl e ↦ rw e (advance_lem f r rest h)
  | inr e ↦ rw e (sym (row_at-none f b r rest (leb-false r.freq f e) h))
]

pub le→leb : (a b : ℕ) → a ≤ b → leb a b ≡ true
le→leb a b h = ground arith

-- Searching on from a row found for a lower clock.
advance-advance :
    (f g : ℕ) (b : DvbEntry) (rest : List DvbEntry)
    → f ≤ g
    → advance g (advance f b rest).0 (advance f b rest).1 ≡ advance g b rest
unfolding advance
advance-advance f g b [] le = refl
advance-advance f g b (r ∷ rest) le = elim (Bool-cases (leb r.freq f)) [
  | inl e ↦
      rw (e, le→leb r.freq g (omega (arith, le, leb→le r.freq f e))) (advance-advance f g r rest le)
  | inr e ↦ rw e refl
]

pub map-All :
    {A : Type 0} (P : ℕ → Type 0) (f g : ℕ → A)
    → ((x : ℕ) → P x → f x ≡ g x)
    → (xs : List ℕ) → All P xs
    → map f xs ≡ map g xs
map-All P f g same [] h = refl
map-All P f g same (x ∷ xs) (p, h) =
    ap (λ y. y ∷ map f xs) (same x p) ∙ ap (λ ys. g x ∷ ys) (map-All P f g same xs h)

abbrev found : DvbEntry → List DvbEntry → ℕ → DvbEntry
found b rest f = record { freq = f; volt = (advance f b rest).0.volt }

dvb_entries_lem :
    (fs : List ℕ) (b : DvbEntry) (rest : List DvbEntry)
    → IsIncreasing fs
    → dvb_entries fs b rest ≡ map (found b rest) fs
unfolding dvb_entries
dvb_entries_lem [] b rest h = refl
dvb_entries_lem (f ∷ fs) b rest (low, inc) =
    ap (λ es. found b rest f ∷ es)
      (dvb_entries_lem fs (advance f b rest).0 (advance f b rest).1 inc
        ∙ map-All (λ g. f < g) (found (advance f b rest).0 (advance f b rest).1) (found b rest)
            (λ g lt.
              ap (λ (p : DvbEntry × List DvbEntry). record { freq = g; volt = p.0.volt })
                (advance-advance f g b rest (omega arith)))
            fs low)

pub dvb_entries-row_at :
    (fs : List ℕ) (b : DvbEntry) (rest : List DvbEntry)
    → Rising b rest
    → IsIncreasing fs
    → dvb_entries fs b rest ≡ map (λ f. record { freq = f; volt = (row_at f b rest).volt }) fs
dvb_entries-row_at fs b rest rising inc =
    dvb_entries_lem fs b rest inc
    ∙ ap (λ (v : ℕ → DvbEntry). map (λ f. record { freq = f; volt = (v f).volt }) fs)
        (fun_ext (λ f. advance_lem f b rest rising))
