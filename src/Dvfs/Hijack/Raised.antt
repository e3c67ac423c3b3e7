-- ===== src/Dvfs/Hijack/Raised.antt =====
-- The table of PCV is the cached one, raised to the voltage that is remembered.
use rcu.Base.{
  ℕ, ◌≡◌, refl, ap, ◌∙◌, Bool, List, [], ◌∷◌, map, ◌==◌, if◌then◌else◌, if_then_else_ind, max,
  arith,
}
use rcu.Dvfs.Hijack.{VoltData, raise_entry, pcv_hijack_gpu_volts}

-- The states after the table was cached and any calls, each with its success.
pub data Reached (table : List ℕ) : VoltData → Type 0 where
  cached : Reached table (record { volt_table = table; ram_vmin = 0; pcv_table = table })
  hijacked :
      (written : Bool) (vmin : ℕ) (d : VoltData)
      → Reached table d
      → Reached table (pcv_hijack_gpu_volts written vmin d)

-- An entry that is not 0 is at least the voltage, and no entry is otherwise changed.
abbrev pub raised : ℕ → ℕ → ℕ
raised vmin entry = if entry == 0 then 0 else max entry vmin

raise_entry_lem : (vmin entry : ℕ) → raise_entry vmin entry ≡ raised vmin entry
raise_entry_lem vmin entry = ground arith

map_same : (f g : ℕ → ℕ) (xs : List ℕ) → ((x : ℕ) → f x ≡ g x) → map f xs ≡ map g xs
map_same f g [] h = refl
map_same f g (x ∷ xs) h = cc (h x, map_same f g xs h)

raised_zero : (x : ℕ) → raised 0 x ≡ x
raised_zero x = ground arith

map_unraised : (xs : List ℕ) → xs ≡ map (raised 0) xs
map_unraised [] = refl
map_unraised (x ∷ xs) = cc (raised_zero x, map_unraised xs)

-- The cached table is kept, and the table of PCV is the cached one with each entry raised.
abbrev pub IsRaised : List ℕ → VoltData → Type 0
IsRaised table d = (d.volt_table ≡ table) × (d.pcv_table ≡ map (raised d.ram_vmin) table)

hijack-IsRaised :
    (table : List ℕ) (written : Bool) (vmin : ℕ) (d : VoltData)
    → IsRaised table d
    → IsRaised table (pcv_hijack_gpu_volts written vmin d)
unfolding pcv_hijack_gpu_volts
hijack-IsRaised table written vmin d (e, h) =
    if_then_else_ind (IsRaised table) (d.ram_vmin == vmin) d _ (λ i. (e, h))
      (λ i.
        if_then_else_ind (IsRaised table) written _ d
          (λ j. (
            e,
            ap (map (raise_entry vmin)) e
                ∙ map_same (raise_entry vmin) (raised vmin) table (raise_entry_lem vmin),
          ))
          (λ j. (e, h)))

-- After any calls of `PcvHijackGpuVolts`, whether or not they reach PCV, its table is the cached one with
-- every entry other than 0 raised to the voltage that is remembered, so calls leave nothing behind.
pub Reached-IsRaised : {table : List ℕ} {d : VoltData} → Reached table d → IsRaised table d
Reached-IsRaised cached = (refl, map_unraised _)
Reached-IsRaised (hijacked written vmin d r) = hijack-IsRaised _ written vmin d (Reached-IsRaised r)
