-- ===== src/FreqTable/Search.antt =====
-- What `TableIndexForHz` finds: the first entry that reaches the frequency, or the last entry.
use rcu.Base.{
  ℕ, suc, ◌+◌, ◌^◌, ◌≤◌, ◌<◌, ◌≡◌, ◌⊎◌, refl, sym, Option, none, some, List, [], ◌∷◌, arith, leb,
  length, if◌then◌else◌, true, false, subst, inl, inr, Bool-cases, All, All-map, In, IsIncreasing,
  leb-false,
}
use rcu.FreqTable.{FreqTable, first_at_least, or_last, table_lookup}

-- The first of `f` and the entries behind it that reaches `hz`, or the last of them.
unfoldable pub ceiling : ℕ → ℕ → List ℕ → ℕ
ceiling hz f [] = f
ceiling hz f (g ∷ rest) = if leb hz f then f else ceiling hz g rest

abbrev map_suc : Option ℕ → Option ℕ
map_suc none = none
map_suc (some i) = some (suc i)

first_at_least-suc :
    (hz i : ℕ) (l : List ℕ) → first_at_least hz (suc i) l ≡ map_suc (first_at_least hz i l)
unfolding first_at_least
first_at_least-suc hz i [] = refl
first_at_least-suc hz i (f ∷ l) = ground (arith, first_at_least-suc hz (i + 1) l)

or_last-suc :
    (o : Option ℕ) (n : ℕ)
    → 0 < n
    → suc n < 2 ^ 32
    → or_last (map_suc o) (suc n) ≡ suc (or_last o n)
or_last-suc none n p h = omega arith
or_last-suc (some i) n p h = refl

-- On a table that is not empty the entry found is the ceiling of the frequency.
pub lookup-ceiling :
    (hz f : ℕ) (rest : List ℕ)
    → suc (length rest) < 2 ^ 32
    → table_lookup (f ∷ rest) hz ≡ some (ceiling hz f rest)
unfolding table_lookup first_at_least ceiling
lookup-ceiling hz f [] h = ground arith
lookup-ceiling hz f (g ∷ rest) h = ground (
  arith,
  first_at_least-suc hz 0 (g ∷ rest),
  or_last-suc (first_at_least hz 0 (g ∷ rest)) (suc (length rest)),
  lookup-ceiling hz g rest,
)

-- The ceiling is not below the first entry of an increasing table.
pub le-ceiling : (hz f : ℕ) (rest : List ℕ) → IsIncreasing (f ∷ rest) → f ≤ ceiling hz f rest
unfolding ceiling
le-ceiling hz f [] s = omega arith
le-ceiling hz f (g ∷ rest) s = ground (arith, le-ceiling hz g rest s.1)

ceiling-here : (hz f g : ℕ) (rest : List ℕ) → leb hz f ≡ true → ceiling hz f (g ∷ rest) ≡ f
unfolding ceiling
ceiling-here hz f g rest e = rw e

ceiling-next :
    (hz f g : ℕ) (rest : List ℕ) → leb hz f ≡ false → ceiling hz f (g ∷ rest) ≡ ceiling hz g rest
unfolding ceiling
ceiling-next hz f g rest e = rw e

-- It is not above any entry that reaches the frequency.
pub ceiling-least :
    (hz f : ℕ) (rest : List ℕ)
    → IsIncreasing (f ∷ rest)
    → All (λ g. hz ≤ g → ceiling hz f rest ≤ g) (f ∷ rest)
unfolding ceiling
ceiling-least hz f [] s = ((λ h. omega arith), tt)
ceiling-least hz f (g ∷ rest) s = elim (Bool-cases (leb hz f)) [
  | inl low ↦
      subst (λ r. All (λ x. hz ≤ x → r ≤ x) (f ∷ g ∷ rest)) (sym (ceiling-here hz f g rest low))
        ((λ h. omega arith), All-map (λ x h _. omega arith) (g ∷ rest) s.0)
  | inr high ↦
      subst (λ r. All (λ x. hz ≤ x → r ≤ x) (f ∷ g ∷ rest)) (sym (ceiling-next hz f g rest high))
        ((λ h. absurd (omega (arith, leb-false hz f high))), ceiling-least hz g rest s.1)
]

-- It stands in the table.
pub ceiling-In : (hz f : ℕ) (rest : List ℕ) → In (ceiling hz f rest) (f ∷ rest)
unfolding ceiling
ceiling-In hz f [] = inl refl
ceiling-In hz f (g ∷ rest) = elim (Bool-cases (leb hz f)) [
  | inl low ↦ inl (ceiling-here hz f g rest low)
  | inr high ↦
      subst (λ r. In r (f ∷ g ∷ rest)) (sym (ceiling-next hz f g rest high))
        (inr (ceiling-In hz g rest))
]

-- A higher frequency has no lower ceiling.
pub ceiling_mono :
    (a b f : ℕ) (rest : List ℕ)
    → IsIncreasing (f ∷ rest)
    → a ≤ b
    → ceiling a f rest ≤ ceiling b f rest
unfolding ceiling
ceiling_mono a b f [] s h = omega arith
ceiling_mono a b f (g ∷ rest) s h =
    ground (arith, ceiling_mono a b g rest s.1, le-ceiling b g rest s.1)

-- It reaches the frequency where some entry does.
pub le-ceiling_of_In :
    (hz f g : ℕ) (rest : List ℕ) → In g (f ∷ rest) → hz ≤ g → hz ≤ ceiling hz f rest
unfolding ceiling
le-ceiling_of_In hz f g [] m h = ground arith
le-ceiling_of_In hz f g (x ∷ rest) m h = ground (arith, le-ceiling_of_In hz x g rest)

-- A rate is under a limit if there is none (0), or if the rate is at most the entry that the search
-- finds for the limit.
abbrev pub IsUnder : FreqTable → ℕ → ℕ → Type 0
IsUnder table limit r = (limit ≡ 0) ⊎ ((c : ℕ) × ((table_lookup table limit ≡ some c) × (r ≤ c)))

zero_or_pos : (n : ℕ) → (n ≡ 0) ⊎ (0 < n)
zero_or_pos n = ground arith

pub ceiling-IsUnder :
    (limit f r : ℕ) (rest : List ℕ)
    → suc (length rest) < 2 ^ 32
    → (0 < limit → r ≤ ceiling limit f rest)
    → IsUnder (f ∷ rest) limit r
ceiling-IsUnder limit f r rest small h = elim (zero_or_pos limit) [
  | inl e ↦ inl e
  | inr p ↦ inr (ceiling limit f rest, (lookup-ceiling limit f rest small, h p))
]
