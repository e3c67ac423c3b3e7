-- ===== src/FreqTable/Nearest.antt =====
-- What `GetNearestHz` chooses.
use rcu.Base.{
  ℕ, suc, ◌+◌, ◌-◌, ◌^◌, ◌/◌, ◌≤◌, ◌<◌, ◌≡◌, refl, some, List, [], ◌∷◌, arith, leb, length, inl,
  inr, Bool-cases, ◌≢◌, In-All, true, false, subst, sym, All, All-map, In, IsIncreasing, leb-false,
  leb→le, min,
}
use rcu.FreqTable.{nearest_from, nearest_hz, table_lookup}
use rcu.FreqTable.Search.{
  ceiling, ceiling-In, ceiling-least, le-ceiling_of_In, le-ceiling, lookup-ceiling,
}

-- The distance between two frequencies.
abbrev pub gap : ℕ → ℕ → ℕ
gap a b = (a - b) + (b - a)

le-nearest_from :
    (in_hz max_hz f : ℕ) (rest : List ℕ)
    → IsIncreasing (f ∷ rest)
    → f ≤ nearest_from in_hz max_hz f rest
unfolding nearest_from
le-nearest_from in_hz max_hz f [] s = omega arith
le-nearest_from in_hz max_hz f (g ∷ rest) s =
    ground (arith, le-nearest_from in_hz max_hz g rest s.1)

nearest_from-min :
    (in_hz max_hz f : ℕ) (rest : List ℕ)
    → IsIncreasing (f ∷ rest)
    → 0 < max_hz
    → nearest_from in_hz max_hz f rest ≡ min (nearest_from in_hz 0 f rest) (ceiling max_hz f rest)
unfolding nearest_from ceiling
nearest_from-min in_hz max_hz f [] s p = omega arith
nearest_from-min in_hz max_hz f (g ∷ rest) s p = ground (
  arith,
  nearest_from-min in_hz max_hz g rest s.1 p,
  le-nearest_from in_hz 0 g rest s.1,
  le-ceiling max_hz g rest s.1,
)

nearest_from-here :
    (in_hz f g : ℕ) (rest : List ℕ)
    → leb in_hz ((f + g) / 2) ≡ true
    → nearest_from in_hz 0 f (g ∷ rest) ≡ f
unfolding nearest_from
nearest_from-here in_hz f g rest e = rw e

nearest_from-next :
    (in_hz f g : ℕ) (rest : List ℕ)
    → leb in_hz ((f + g) / 2) ≡ false
    → nearest_from in_hz 0 f (g ∷ rest) ≡ nearest_from in_hz 0 g rest
unfolding nearest_from
nearest_from-next in_hz f g rest e = rw e

nearest_from-gap :
    (in_hz f : ℕ) (rest : List ℕ)
    → IsIncreasing (f ∷ rest)
    → All (λ g. gap in_hz (nearest_from in_hz 0 f rest) ≤ gap in_hz g) (f ∷ rest)
unfolding nearest_from
nearest_from-gap in_hz f [] s = (omega arith, tt)
nearest_from-gap in_hz f (g ∷ rest) s = elim (Bool-cases (leb in_hz ((f + g) / 2))) [
  | inl low ↦
      subst (λ r. All (λ x. gap in_hz r ≤ gap in_hz x) (f ∷ g ∷ rest))
        (sym (nearest_from-here in_hz f g rest low))
        (let half = leb→le in_hz ((f + g) / 2) low in
          (omega arith, (omega arith, All-map (λ x h. omega arith) rest s.1.0)))
  | inr high ↦
      subst (λ r. All (λ x. gap in_hz r ≤ gap in_hz x) (f ∷ g ∷ rest))
        (sym (nearest_from-next in_hz f g rest high))
        (let ih = nearest_from-gap in_hz g rest s.1 in
          (omega (arith, leb-false in_hz ((f + g) / 2) high, ih.0), ih))
]

pub nearest_from-In :
    (in_hz max_hz f : ℕ) (rest : List ℕ) → In (nearest_from in_hz max_hz f rest) (f ∷ rest)
unfolding nearest_from
nearest_from-In in_hz max_hz f [] = inl refl
nearest_from-In in_hz max_hz f (g ∷ rest) = ground (arith, nearest_from-In in_hz max_hz g rest)

-- Without a limit `GetNearestHz` returns an entry of an increasing table to which no entry of the
-- table is nearer.
pub nearest_optimal :
    (in_hz f : ℕ) (rest : List ℕ)
    → IsIncreasing (f ∷ rest)
    → (r : ℕ) × (nearest_hz (f ∷ rest) in_hz 0 ≡ some r)
      × In r (f ∷ rest)
      × All (λ g. gap in_hz r ≤ gap in_hz g) (f ∷ rest)
unfolding nearest_hz
nearest_optimal in_hz f rest s = (
  nearest_from in_hz 0 f rest,
  refl,
  nearest_from-In in_hz 0 f rest,
  nearest_from-gap in_hz f rest s,
)

-- On an increasing table of fewer than 2^32 entries, with a limit above 0, `GetNearestHz` returns
-- the smaller of two entries: the one that it returns without a limit, and the one that the search of
-- the governor (`TableIndexForHz`) finds for the limit.
pub nearest-limit :
    (in_hz max_hz f : ℕ) (rest : List ℕ) {n c : ℕ}
    → IsIncreasing (f ∷ rest)
    → suc (length rest) < 2 ^ 32
    → 0 < max_hz
    → nearest_hz (f ∷ rest) in_hz 0 ≡ some n
    → table_lookup (f ∷ rest) max_hz ≡ some c
    → nearest_hz (f ∷ rest) in_hz max_hz ≡ some (min n c)
unfolding nearest_hz
nearest-limit in_hz max_hz f rest s small p hn hc =
    ground (arith, nearest_from-min in_hz max_hz f rest s p, lookup-ceiling max_hz f rest small)

pub nearest_from-le :
    (in_hz max_hz f : ℕ) (rest : List ℕ)
    → IsIncreasing (f ∷ rest)
    → 0 < max_hz
    → nearest_from in_hz max_hz f rest ≤ ceiling max_hz f rest
nearest_from-le in_hz max_hz f rest s p = omega (arith, nearest_from-min in_hz max_hz f rest s p)

-- If the limit itself stands in an increasing table, `GetNearestHz` never returns more than it.
pub nearest_within :
    (in_hz max_hz f : ℕ) (rest : List ℕ) {r : ℕ}
    → IsIncreasing (f ∷ rest)
    → 0 < max_hz
    → In max_hz (f ∷ rest)
    → nearest_hz (f ∷ rest) in_hz max_hz ≡ some r
    → r ≤ max_hz
unfolding nearest_hz
nearest_within in_hz max_hz f rest s p m h =
    let least : max_hz ≤ max_hz → ceiling max_hz f rest ≤ max_hz =
      In-All (λ x. max_hz ≤ x → ceiling max_hz f rest ≤ x) max_hz (f ∷ rest)
        (ceiling-least max_hz f rest s) m in
    ground (arith, least, nearest_from-le in_hz max_hz f rest s p)

-- If the limit, above 0, does not stand in an increasing table that holds something above it, then a
-- request not below any entry gets an entry above the limit.
pub nearest_overshoots :
    (in_hz max_hz f g : ℕ) (rest : List ℕ) {r : ℕ}
    → IsIncreasing (f ∷ rest)
    → 0 < max_hz
    → ¬ In max_hz (f ∷ rest)
    → In g (f ∷ rest)
    → max_hz < g
    → All (λ x. x ≤ in_hz) (f ∷ rest)
    → nearest_hz (f ∷ rest) in_hz max_hz ≡ some r
    → max_hz < r
unfolding nearest_hz
nearest_overshoots in_hz max_hz f g rest s p out m above top h =
    let c = ceiling max_hz f rest in
    let n = nearest_from in_hz 0 f rest in
    let reach : max_hz ≤ c = le-ceiling_of_In max_hz f g rest m (omega arith) in
    let other : c ≢ max_hz = λ e. out (subst (λ x. In x (f ∷ rest)) e (ceiling-In max_hz f rest)) in
    let close : gap in_hz n ≤ gap in_hz g =
      In-All (λ x. gap in_hz n ≤ gap in_hz x) g (f ∷ rest) (nearest_from-gap in_hz f rest s) m in
    let below : g ≤ in_hz = In-All (λ x. x ≤ in_hz) g (f ∷ rest) top m in
    let n_below : n ≤ in_hz =
      In-All (λ x. x ≤ in_hz) n (f ∷ rest) top (nearest_from-In in_hz 0 f rest) in
    ground (arith, nearest_from-min in_hz max_hz f rest s p)
