-- ===== src/Loader/Cvb/Offset.antt =====
-- What the offset of `GpuFreqCvbTable` does to each entry.
use rcu.Base.{
  ℕ, zero, suc, ◌+◌, ◌-◌, ◌*◌, ◌^◌, ◌≤◌, ◌<◌, ◌≡◌, refl, Bool, true, false, not, ◌&&◌, Option, none,
  some, List, [], ◌∷◌, ◌==◌, ◌/=◌, if◌then◌else◌, u32, length, get_elem?, arith, ap, ◌∙◌,
  if_then_else_ind,
}
use rcu.Loader.Scan.{Result, success, invalid_gpu_dvfs}
use rcu.Loader.Custom.{CvbEntry, CustomizeTable, table_entries}
use rcu.Loader.Cvb.{
  configured, volt_array, gpu_uv, begins_with, copy_over, c0, set_c0, lowered, lower_entry,
  set_volt, set_volts, lower_all, gpu_freq_cvb_table,
}

get_elem-lt : (es : List CvbEntry) (i : ℕ) (e : CvbEntry) → get_elem? es i ≡ some e → i < length es
get_elem-lt [] i e h = cc
get_elem-lt (x ∷ es) zero e h = omega arith
get_elem-lt (x ∷ es) (suc i) e h = omega (arith, get_elem-lt es i e h)

get_elem-copy_over :
    (es mapped : List CvbEntry) (i : ℕ) (e : CvbEntry)
    → get_elem? es i ≡ some e
    → get_elem? (copy_over es mapped) i ≡ some e
get_elem-copy_over [] mapped i e h = cc
get_elem-copy_over (x ∷ es) [] zero e h = h
get_elem-copy_over (x ∷ es) [] (suc i) e h = get_elem-copy_over es [] i e h
get_elem-copy_over (x ∷ es) (f ∷ fs) zero e h = h
get_elem-copy_over (x ∷ es) (f ∷ fs) (suc i) e h = get_elem-copy_over es fs i e h

abbrev over : (CvbEntry → CvbEntry) → Option CvbEntry → Option CvbEntry
over f none = none
over f (some e) = some (f e)

get_elem-set_volts :
    (offset : ℕ) (volts : ℕ → ℕ) (k n i : ℕ) (es : List CvbEntry) (e : CvbEntry)
    → i < n
    → get_elem? es i ≡ some e
    → get_elem? (set_volts offset volts k n es) i ≡ some (set_volt offset (volts (i + k)) e)
unfolding set_volts
get_elem-set_volts offset volts k zero i es e lt h = absurd (omega (arith, lt))
get_elem-set_volts offset volts k (suc n) i [] e lt h = cc
get_elem-set_volts offset volts k (suc n) zero (x ∷ es) e lt h =
    ap (over (set_volt offset (volts k))) h
    ∙ ap (λ j. some (set_volt offset (volts j) e)) (omega arith)
get_elem-set_volts offset volts k (suc n) (suc i) (x ∷ es) e lt h =
    get_elem-set_volts offset volts (suc k) n i es e (omega (arith, lt)) h
    ∙ ap (λ j. some (set_volt offset (volts j) e)) moved
  where
    moved : i + suc k ≡ suc i + k
    moved = omega arith

get_elem-lower_all :
    (offset n i : ℕ) (es : List CvbEntry) (e : CvbEntry)
    → i < n
    → get_elem? es i ≡ some e
    → get_elem? (lower_all offset n es) i ≡ some (lower_entry offset e)
unfolding lower_all
get_elem-lower_all offset zero i es e lt h = absurd (omega (arith, lt))
get_elem-lower_all offset (suc n) i [] e lt h = cc
get_elem-lower_all offset (suc n) zero (x ∷ es) e lt h = ap (over (lower_entry offset)) h
get_elem-lower_all offset (suc n) (suc i) (x ∷ es) e lt h =
    get_elem-lower_all offset n i es e (omega (arith, lt)) h

lowered_lem : (offset c : ℕ) → offset * 1000 ≤ c → c < 2 ^ 32 → lowered offset c ≡ c - offset * 1000
unfolding lowered
lowered_lem offset c le lt = omega (arith, le, lt)

-- The voltage in microvolts that an entry starts from: its own one, or the fixed one.
abbrev pub start : ℕ → CvbEntry → ℕ
start volt e = if volt == 0 then c0 e.pll else volt * 1000

-- How often the offset is taken off.
abbrev pub passes : ℕ → ℕ → ℕ
passes volt uv = (if volt == 0 then 1 else 0) + (if uv == 0 then 1 else 0)

c0-set_c0 : (c : ℕ) (cs : List ℕ) → c0 (set_c0 c cs) ≡ c
c0-set_c0 c [] = refl
c0-set_c0 c (d ∷ ds) = refl

set_volt_lem :
    (offset volt : ℕ) (e : CvbEntry)
    → offset * 1000 ≤ start volt e
    → start volt e < 2 ^ 32
    → c0 (set_volt offset volt e).pll
      ≡ start volt e - (if volt == 0 then 1 else 0) * (offset * 1000)
set_volt_lem offset zero e le lt =
    c0-set_c0 (lowered offset (c0 e.pll)) e.pll ∙ lowered_lem offset (c0 e.pll) le lt ∙ omega arith
set_volt_lem offset (suc v) e le lt = grind (arith, lt)

twice_lem :
    (s x offset volt uv : ℕ)
    → offset /= 0 && uv == 0 ≡ true
    → s - (if volt == 0 then 1 else 0) * x - x ≡ s - passes volt uv * x
twice_lem s x offset volt uv h = grind arith

once_lem :
    (s offset volt uv : ℕ)
    → offset /= 0 && uv == 0 ≡ false
    → s - (if volt == 0 then 1 else 0) * (offset * 1000) ≡ s - passes volt uv * (offset * 1000)
once_lem s offset volt uv h = grind arith

enough_left : (s x volt : ℕ) → 2 * x ≤ s → x ≤ s - (if volt == 0 then 1 else 0) * x
enough_left s x volt le = grind arith

-- After both loops.
final_lem :
    (offset volt uv : ℕ) (e : CvbEntry)
    → 2 * (offset * 1000) ≤ start volt e
    → start volt e < 2 ^ 32
    → c0
        (if offset /= 0 && uv == 0
          then lower_entry offset (set_volt offset volt e)
          else set_volt offset volt e).pll
      ≡ start volt e - passes volt uv * (offset * 1000)
final_lem offset volt uv e le lt =
    let first = set_volt_lem offset volt e (omega (arith, le)) lt in
    let after = set_volt offset volt e in
    let s = start volt e in
    let x = offset * 1000 in
    if_then_else_ind (λ (r : CvbEntry). c0 r.pll ≡ s - passes volt uv * x) (offset /= 0 && uv == 0)
      (lower_entry offset after) after
      (λ h.
        c0-set_c0 (lowered offset (c0 after.pll)) after.pll
        ∙ lowered_lem offset (c0 after.pll) (omega (arith, first, enough_left s x volt le))
            (omega (arith, first, lt))
        ∙ ap (λ y. y - x) first
        ∙ twice_lem s x offset volt uv h)
      (λ h. first ∙ once_lem s offset volt uv h)

not_refuted : (b : Bool) → b ≡ true → not b ≡ true → ⊥
not_refuted true v h = cc
not_refuted false v h = cc

set_volt_freq : (offset volt : ℕ) (e : CvbEntry) → (set_volt offset volt e).freq ≡ e.freq
set_volt_freq offset volt e =
    if_then_else_ind (λ (r : CvbEntry). r.freq ≡ e.freq) (volt /= 0)
      (record e { pll = u32 (volt * 1000) ∷ 0 ∷ 0 ∷ 0 ∷ 0 ∷ 0 ∷ [] }) (lower_entry offset e)
      (λ h. refl) (λ h. refl)

module _ (offset : ℕ) (volts : ℕ → ℕ) (n i : ℕ) (es : List CvbEntry) (e : CvbEntry) (lt : i < n)
    (at : get_elem? es i ≡ some e) where
  first_loop : get_elem? (set_volts offset volts 0 n es) i ≡ some (set_volt offset (volts i) e)
  first_loop =
      get_elem-set_volts offset volts 0 n i es e lt at
      ∙ ap (λ j. some (set_volt offset (volts j) e)) (omega arith)

  both_loops :
      (b : Bool)
      → (get_elem?
            (if b
              then lower_all offset n (set_volts offset volts 0 n es)
              else set_volts offset volts 0 n es)
            i
          ≡ some (
              if b
              then lower_entry offset (set_volt offset (volts i) e)
              else set_volt offset (volts i) e))
        × ((if b
              then lower_entry offset (set_volt offset (volts i) e)
              else set_volt offset (volts i) e).freq
            ≡ e.freq)
  both_loops true = (
    get_elem-lower_all offset n i (set_volts offset volts 0 n es) (set_volt offset (volts i) e) lt
        first_loop,
    set_volt_freq offset (volts i) e,
  )
  both_loops false = (first_loop, set_volt_freq offset (volts i) e)

-- If the mapped table is the default one, the patch succeeds. It takes `commonGpuVoltOffset` millivolts
-- off the voltage (`c0`, in microvolts) of each entry of the configured table, once where the entry has
-- no fixed voltage, and once more where the undervolting is 0, also from a fixed voltage; the
-- frequencies are those of the configured table. The voltage fits a word, and twice the offset is
-- not more than it.
pub gpu_freq_cvb_table-lowered :
    (is_mariko : Bool) (c : CustomizeTable) (default_table mapped : List CvbEntry) (i : ℕ)
    (e : CvbEntry)
    → begins_with (table_entries default_table) mapped ≡ true
    → get_elem? (configured is_mariko c) i ≡ some e
    → 2 * (c.common_gpu_volt_offset * 1000) ≤ start (volt_array is_mariko c i) e
    → start (volt_array is_mariko c i) e < 2 ^ 32
    → ((gpu_freq_cvb_table is_mariko c default_table mapped).0 ≡ success)
      × (r : CvbEntry) × (get_elem? (gpu_freq_cvb_table is_mariko c default_table mapped).1 i
          ≡ some r)
      × (r.freq ≡ e.freq)
      × (c0 r.pll
          ≡ start (volt_array is_mariko c i) e
            - passes (volt_array is_mariko c i) (gpu_uv is_mariko c)
              * (c.common_gpu_volt_offset * 1000))
unfolding gpu_freq_cvb_table
gpu_freq_cvb_table-lowered is_mariko c default_table mapped i e valid at le lt =
    let offset = c.common_gpu_volt_offset in
    let volts = volt_array is_mariko c in
    let customized = configured is_mariko c in
    let n = length customized in
    let copied = copy_over customized mapped in
    let patched = set_volts offset volts 0 n copied in
    let b = offset /= 0 && gpu_uv is_mariko c == 0 in
    let after = set_volt offset (volts i) e in
    let loops =
      both_loops offset volts n i copied e (get_elem-lt customized i e at)
        (get_elem-copy_over customized mapped i e at) b in
    if_then_else_ind
      (λ (res : Result × List CvbEntry).
        (res.0 ≡ success)
        × (r : CvbEntry) × (get_elem? res.1 i ≡ some r)
        × (r.freq ≡ e.freq)
        × (c0 r.pll ≡ start (volts i) e - passes (volts i) (gpu_uv is_mariko c) * (offset * 1000)))
      (not (begins_with (table_entries default_table) mapped)) (invalid_gpu_dvfs, mapped)
      (success, if b then lower_all offset n patched else patched)
      (λ h. absurd (not_refuted (begins_with (table_entries default_table) mapped) valid h))
      (λ h. (
        refl,
        if b then lower_entry offset after else after,
        loops.0,
        loops.1,
        final_lem offset (volts i) (gpu_uv is_mariko c) e le lt,
      ))
