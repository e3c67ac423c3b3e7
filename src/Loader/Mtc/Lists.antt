-- ===== src/Loader/Mtc/Lists.antt =====
-- What the steps of `MtcGenerateFreqTables` on its list keep.
use rcu.Base.{
  ℕ, zero, suc, ◌<◌, ◌≤◌, ◌≡◌, inl, inr, refl, List, [], ◌∷◌, ◌++◌, arith, leb, ◌/=◌, take, length,
  ap, In, All, IsIncreasing, if_then_else_ind, leb→le,
}
use rcu.Loader.Mtc.{up_to, push_max}

-- An increasing list of clocks up to the limit.
abbrev pub IsTable : ℕ → List ℕ → Type 0
IsTable max fs = IsIncreasing fs × All (λ f. f ≤ max) fs

-- Such a list with a place for one more.
pub All-snoc : (P : ℕ → Type 0) (fs : List ℕ) (x : ℕ) → All P fs → P x → All P (fs ++ (x ∷ []))
All-snoc P [] x h p = (p, tt)
All-snoc P (f ∷ fs) x (q, h) p = (q, All-snoc P fs x h p)

pub snoc-IsIncreasing :
    (fs : List ℕ) (x : ℕ) → IsIncreasing fs → All (λ f. f < x) fs → IsIncreasing (fs ++ (x ∷ []))
snoc-IsIncreasing [] x h below = (tt, tt)
snoc-IsIncreasing (f ∷ fs) x (h, inc) (lt, below) =
    (All-snoc (λ y. f < y) fs x h lt, snoc-IsIncreasing fs x inc below)

pub push_max-All :
    (P : ℕ → Type 0) (max : ℕ) (fs : List ℕ) → All P fs → P max → All P (push_max max fs)
push_max-All P max [] h p = (p, tt)
push_max-All P max (f ∷ []) h p =
    if_then_else_ind (All P) (f /= max) (f ∷ max ∷ []) (f ∷ []) (λ d. (h.0, (p, tt))) (λ s. h)
push_max-All P max (f ∷ g ∷ fs) (q, h) p = (q, push_max-All P max (g ∷ fs) h p)

pub push_max-IsTable : (max : ℕ) (fs : List ℕ) → IsTable max fs → IsTable max (push_max max fs)
push_max-IsTable max [] h = ((tt, tt), (omega arith, tt))
push_max-IsTable max (f ∷ []) h =
    if_then_else_ind (IsTable max) (f /= max) (f ∷ max ∷ []) (f ∷ [])
      (λ d. (((ground (arith, d, h.1.0), tt), (tt, tt)), (h.1.0, (omega arith, tt)))) (λ s. h)
push_max-IsTable max (f ∷ g ∷ fs) ((low, inc), (le, all)) =
    let ih = push_max-IsTable max (g ∷ fs) (inc, all) in
    ((push_max-All (λ y. f < y) max (g ∷ fs) low (omega (arith, low.0, all.0)), ih.0), (le, ih.1))

pub In-push_max : (max : ℕ) (fs : List ℕ) → In max (push_max max fs)
In-push_max max [] = inl refl
In-push_max max (f ∷ []) =
    if_then_else_ind (In max) (f /= max) (f ∷ max ∷ []) (f ∷ []) (λ d. inr (inl refl))
      (λ s. inl (ground (arith, s)))
In-push_max max (f ∷ g ∷ fs) = inr (In-push_max max (g ∷ fs))

pub length-push_max : (max : ℕ) (fs : List ℕ) → length (push_max max fs) ≤ suc (length fs)
length-push_max max [] = omega arith
length-push_max max (f ∷ []) =
    if_then_else_ind (λ xs. length xs ≤ 2) (f /= max) (f ∷ max ∷ []) (f ∷ []) (λ d. omega arith)
      (λ s. omega arith)
length-push_max max (f ∷ g ∷ fs) = omega (arith, length-push_max max (g ∷ fs))

-- The clocks up to the limit are some of the first ones.
pub up_to-All : (P : ℕ → Type 0) (max : ℕ) (fs : List ℕ) → All P fs → All P (up_to max fs)
up_to-All P max [] h = tt
up_to-All P max (f ∷ fs) (p, h) =
    if_then_else_ind (All P) (leb f max) (f ∷ up_to max fs) [] (λ le. (p, up_to-All P max fs h))
      (λ gt. tt)

pub up_to-IsTable : (max : ℕ) (fs : List ℕ) → IsIncreasing fs → IsTable max (up_to max fs)
up_to-IsTable max [] h = (tt, tt)
up_to-IsTable max (f ∷ fs) (low, inc) =
    if_then_else_ind (IsTable max) (leb f max) (f ∷ up_to max fs) []
      (λ le. (
        (up_to-All (λ y. f < y) max fs low, (up_to-IsTable max fs inc).0),
        (leb→le f max le, (up_to-IsTable max fs inc).1),
      ))
      (λ gt. (tt, tt))

pub length-up_to : (max : ℕ) (fs : List ℕ) → length (up_to max fs) ≤ length fs
length-up_to max [] = omega arith
length-up_to max (f ∷ fs) =
    if_then_else_ind (λ xs. length xs ≤ suc (length fs)) (leb f max) (f ∷ up_to max fs) []
      (λ le. omega (arith, length-up_to max fs)) (λ gt. omega arith)

-- Cutting a list.
pub take-All : (P : ℕ → Type 0) (n : ℕ) (fs : List ℕ) → All P fs → All P (take n fs)
take-All P zero fs h = tt
take-All P (suc n) [] h = tt
take-All P (suc n) (f ∷ fs) (p, h) = (p, take-All P n fs h)

pub take-IsIncreasing : (n : ℕ) (fs : List ℕ) → IsIncreasing fs → IsIncreasing (take n fs)
take-IsIncreasing zero fs h = tt
take-IsIncreasing (suc n) [] h = tt
take-IsIncreasing (suc n) (f ∷ fs) (low, inc) =
    (take-All (λ y. f < y) n fs low, take-IsIncreasing n fs inc)

pub length-take_le : (n : ℕ) (fs : List ℕ) → length (take n fs) ≤ n
length-take_le zero fs = omega arith
length-take_le (suc n) [] = omega arith
length-take_le (suc n) (f ∷ fs) = omega (arith, length-take_le n fs)

pub take-all : (n : ℕ) (fs : List ℕ) → length fs ≤ n → take n fs ≡ fs
take-all zero [] h = refl
take-all zero (f ∷ fs) h = absurd (omega arith)
take-all (suc n) [] h = refl
take-all (suc n) (f ∷ fs) h = ap (λ xs. f ∷ xs) (take-all n fs (omega (arith, h)))
