-- ===== src/Governor/Limits.antt =====
-- Which rate the governor asks for, and how it stands to the load, the target and the limit.
use rcu.Base.{
  ℕ, suc, ◌-◌, ◌*◌, ◌/◌, ◌^◌, ◌≤◌, ◌<◌, ◌≡◌, All-map, ◌⊎◌, refl, sym, subst, true, false, some,
  List, [], ◌∷◌, arith, length, All, In, In-All, IsIncreasing, inl, inr, min,
}
use native.Mathlib.Nat.{mul-le-mul}
use rcu.FreqTable.Search.{
  IsUnder, ceiling-IsUnder, ceiling, ceiling-In, ceiling_mono, le-ceiling_of_In, lookup-ceiling,
}
use rcu.FreqTable.Caps.{is_assignable_hz}
use rcu.Governor.{
  State, Sample, step_util, schedutil_target_hz, last_entry, clip, demand_at, demand, cpu_round,
}

-- The last entry of an increasing table.
top : ℕ → List ℕ → ℕ
top f [] = f
top f (g ∷ rest) = top g rest

last_entry-top : (f : ℕ) (rest : List ℕ) → last_entry (f ∷ rest) ≡ some (top f rest)
unfolding top
last_entry-top f [] = refl
last_entry-top f (g ∷ rest) = last_entry-top g rest

top-In : (f : ℕ) (rest : List ℕ) → In (top f rest) (f ∷ rest)
unfolding top
top-In f [] = inl refl
top-In f (g ∷ rest) = inr (top-In g rest)

le-top : (f : ℕ) (rest : List ℕ) → IsIncreasing (f ∷ rest) → All (λ x. x ≤ top f rest) (f ∷ rest)
unfolding top
le-top f [] s = (omega arith, tt)
le-top f (g ∷ rest) s = let ih = le-top g rest s.1 in (omega (arith, ih.0, s.0.0), ih)

demand_at-ceiling :
    (f : ℕ) (rest : List ℕ) (load target_hz max_hz : ℕ)
    → suc (length rest) < 2 ^ 32
    → demand_at (f ∷ rest) load target_hz max_hz
      ≡ some (ceiling (clip max_hz (clip target_hz (schedutil_target_hz load (top f rest)))) f rest)
unfolding demand_at
demand_at-ceiling f rest load target_hz max_hz n =
    rw (last_entry-top f rest) (lookup-ceiling _ f rest n)

-- With loads and rates of 32 bits nothing wraps.
schedutil_exact :
    (util table_max : ℕ)
    → util < 2 ^ 32
    → table_max < 2 ^ 32
    → schedutil_target_hz util table_max ≡ min (table_max * util / step_util) table_max
unfolding schedutil_target_hz
schedutil_exact util table_max hu ht =
    let small : table_max * util ≤ (2 ^ 32 - 1) * (2 ^ 32 - 1) =
      mul-le-mul {n₁ = table_max} {m₁ = util} {n₂ = 2 ^ 32 - 1} {m₂ = 2 ^ 32 - 1} (omega arith)
        (omega arith) in
    omega (arith, small)

schedutil_mono :
    (a b table_max : ℕ)
    → a ≤ b
    → b < 2 ^ 32
    → table_max < 2 ^ 32
    → schedutil_target_hz a table_max ≤ schedutil_target_hz b table_max
schedutil_mono a b table_max h hb ht =
    let grows : table_max * a ≤ table_max * b =
      mul-le-mul {n₁ = table_max} {m₁ = a} {n₂ = table_max} {m₂ = b} (omega arith) h in
    omega (
      arith,
      schedutil_exact a table_max (omega arith) ht,
      schedutil_exact b table_max hb ht,
      grows,
    )

clip_mono : (limit a b : ℕ) → a ≤ b → clip limit a ≤ clip limit b
clip_mono limit a b h = ground arith

clip_le : (limit hz : ℕ) → 0 < limit → clip limit hz ≤ limit
clip_le limit hz p = ground arith

clip_below : (limit hz : ℕ) → clip limit hz ≤ hz
clip_below limit hz = ground arith

-- Every rate of the table is a 32-bit number.
abbrev pub IsRates : List ℕ → Type 0
IsRates table = IsIncreasing table × All (λ x. x < 2 ^ 32) table × (length table < 2 ^ 32)

-- On an increasing table of rates, the governor asks for an entry of the table, and for none above the
-- first entry that reaches its target, or above the first that reaches its limit, if there are such.
demand_within :
    (f : ℕ) (rest : List ℕ) (load target_hz max_hz : ℕ) {r : ℕ}
    → IsRates (f ∷ rest)
    → demand_at (f ∷ rest) load target_hz max_hz ≡ some r
    → In r (f ∷ rest) × (IsUnder (f ∷ rest) target_hz r × IsUnder (f ∷ rest) max_hz r)
demand_within f rest load target_hz max_hz {r} (s, w, n) h =
    let hz = schedutil_target_hz load (top f rest) in
    let wanted = clip target_hz hz in
    let c = ceiling (clip max_hz wanted) f rest in
    let e : r ≡ c = cc (demand_at-ceiling f rest load target_hz max_hz n) in
    let under : (l : ℕ) → clip max_hz wanted ≤ l → r ≤ ceiling l f rest = λ l below.
      subst (λ x. x ≤ ceiling l f rest) (sym e)
        (ceiling_mono (clip max_hz wanted) l f rest s below) in
    (
      subst (λ x. In x (f ∷ rest)) (sym e) (ceiling-In (clip max_hz wanted) f rest),
      (
        ceiling-IsUnder target_hz f r rest n (λ p.
            under target_hz (omega (arith, clip_below max_hz wanted, clip_le target_hz hz p))),
        ceiling-IsUnder max_hz f r rest n (λ p. under max_hz (clip_le max_hz wanted p)),
      ),
    )

-- A higher load never makes the governor ask for less.
pub demand_mono :
    (f : ℕ) (rest : List ℕ) (a b target_hz max_hz : ℕ) {r t : ℕ}
    → IsRates (f ∷ rest)
    → a ≤ b
    → b < 2 ^ 32
    → demand_at (f ∷ rest) a target_hz max_hz ≡ some r
    → demand_at (f ∷ rest) b target_hz max_hz ≡ some t
    → r ≤ t
demand_mono f rest a b target_hz max_hz {r} {t} (s, w, n) h hb hr ht =
    let last = top f rest in
    let small = In-All (λ x. x < 2 ^ 32) last (f ∷ rest) w (top-In f rest) in
    let u = schedutil_target_hz a last in
    let v = schedutil_target_hz b last in
    let below =
      clip_mono max_hz (clip target_hz u) (clip target_hz v)
        (clip_mono target_hz u v (schedutil_mono a b last h hb small)) in
    let grows =
      ceiling_mono (clip max_hz (clip target_hz u)) (clip max_hz (clip target_hz v)) f rest s
        below in
    let er : r ≡ ceiling (clip max_hz (clip target_hz u)) f rest =
      cc (demand_at-ceiling f rest a target_hz max_hz n) in
    let et : t ≡ ceiling (clip max_hz (clip target_hz v)) f rest =
      cc (demand_at-ceiling f rest b target_hz max_hz n) in
    omega (arith, er, et, grows)

-- From a load of 90 percent (`STEP_UTIL` of 1000) on, without a target or a limit, the governor asks for
-- the highest entry of an increasing table of rates.
pub demand_saturates :
    (f : ℕ) (rest : List ℕ) (load : ℕ) {r : ℕ}
    → IsRates (f ∷ rest)
    → step_util ≤ load
    → load < 2 ^ 32
    → demand_at (f ∷ rest) load 0 0 ≡ some r
    → In r (f ∷ rest) × All (λ x. x ≤ r) (f ∷ rest)
demand_saturates f rest load {r} (s, w, n) full hl h =
    let last = top f rest in
    let small = In-All (λ x. x < 2 ^ 32) last (f ∷ rest) w (top-In f rest) in
    let enough : last * 900 ≤ last * load =
      mul-le-mul {n₁ = last} {m₁ = 900} {n₂ = last} {m₂ = load} (omega arith) full in
    let all : schedutil_target_hz load last ≡ last =
      omega (arith, schedutil_exact load last hl small, enough) in
    let e : r ≡ ceiling last f rest = cc (demand_at-ceiling f rest load 0 0 n, all) in
    let reach : last ≤ ceiling last f rest =
      le-ceiling_of_In last f last rest (top-In f rest) (omega arith) in
    (
      subst (λ x. In x (f ∷ rest)) (sym e) (ceiling-In last f rest),
      All-map (λ x b. omega (arith, e, reach, b)) (f ∷ rest) (le-top f rest s),
    )

-- What a round of the CPU governor sets may be set, is not below the floor that it ends with, and is that
-- floor or the rate that the load demands; the thread remembers it.
pub cpu_round_sets :
    (s : State) (i : Sample) {t : State} {hz : ℕ}
    → cpu_round s i ≡ some (t, some hz)
    → (i.enabled ≡ true)
      × (i.boost ≡ false)
      × (500000000 ≤ hz)
      × (t.min_hz ≤ hz)
      × ((hz ≡ t.min_hz) ⊎ (demand i ≡ some hz))
      × (t.cpu_last_hz ≡ hz)
unfolding cpu_round is_assignable_hz
cpu_round_sets s i h = ground arith
