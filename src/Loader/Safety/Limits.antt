-- ===== src/Loader/Safety/Limits.antt =====
-- What a table that passes `SafetyCheck` holds.
use rcu.Base.{
  ℕ, zero, suc, ◌≤◌, ◌<◌, ◌≡◌, ◌≢◌, refl, true, some, List, [], ◌∷◌, inl, inr, arith, get_elem?,
  Option-cases,
}
use rcu.Loader.Custom.{
  CustomizeTable, get_dvfs_table_last_entry, last_freq, mariko_gpu_table, erista_gpu_table,
}
use rcu.Loader.Safety.{
  Validator, check, optional, mariko_cpu_max_freq, validators, all_pass, safety_check,
}

-- All validators pass, whatever frequencies the tables gave.
safety_check-validators :
    (c : CustomizeTable)
    → safety_check c ≡ true
    → (a b d e : ℕ) × (all_pass (validators c a b d e) ≡ true)
unfolding safety_check last_freq get_dvfs_table_last_entry
safety_check-validators c h = elim (Option-cases (last_freq c.erista_cpu_dvfs_table)) [
  | inl p ↦ absurd (cc (rw p at h))
  | inr (a, p) ↦ elim (Option-cases (mariko_cpu_max_freq c)) [
    | inl q ↦ absurd (cc (rw (p, q) at h))
    | inr (b, q) ↦ elim (Option-cases (last_freq (erista_gpu_table c))) [
      | inl r ↦ absurd (cc (rw (p, q, r) at h))
      | inr (d, r) ↦ elim (Option-cases (last_freq (mariko_gpu_table c))) [
        | inl t ↦ absurd (cc (rw (p, q, r, t) at h))
        | inr (e, t) ↦ (a, b, d, e, rw (p, q, r, t) at h)
      ]
    ]
  ]
]

pass_at :
    (vs : List Validator) (n : ℕ) (v : Validator)
    → all_pass vs ≡ true
    → get_elem? vs n ≡ some v
    → check v ≡ true
pass_at [] n v h e = cc
pass_at (w ∷ vs) zero v h e = ground arith
pass_at (w ∷ vs) (suc n) v h e = pass_at vs n v (ground arith) e

check-within :
    (value lo hi : ℕ)
    → 0 < lo
    → 0 < hi
    → value ≢ 0
    → check (optional value lo hi) ≡ true
    → (lo ≤ value) × (value ≤ hi)
unfolding check
check-within value lo hi pl ph ne h = ground arith

module _ (c : CustomizeTable) (safe : safety_check c ≡ true) where
  safe_at :
      (n value lo hi : ℕ)
      → ((a b d e : ℕ) → get_elem? (validators c a b d e) n ≡ some (optional value lo hi))
      → 0 < lo
      → 0 < hi
      → value ≢ 0
      → (lo ≤ value) × (value ≤ hi)
  safe_at n value lo hi place pl ph ne =
      let (a, b, d, e, pass) = safety_check-validators c safe in
      check-within value lo hi pl ph ne (pass_at (validators c a b d e) n _ pass (place a b d e))

  -- Each of these voltages is 0 or within its limits.
  pub safe_mem_volt :
      c.common_emc_mem_volt ≢ 0
      → (912500 ≤ c.common_emc_mem_volt) × (c.common_emc_mem_volt ≤ 1350000)
  unfolding validators
  safe_mem_volt = safe_at 6 _ 912500 1350000 (λ a b d e. refl) (omega arith) (omega arith)

  pub safe_emc_clock :
      c.mariko_emc_max_clock ≢ 0
      → (1600000 ≤ c.mariko_emc_max_clock) × (c.mariko_emc_max_clock ≤ 3500000)
  unfolding validators
  safe_emc_clock = safe_at 8 _ 1600000 3500000 (λ a b d e. refl) (omega arith) (omega arith)

  pub safe_vddq :
      c.mariko_emc_vddq_volt ≢ 0
      → (400000 ≤ c.mariko_emc_vddq_volt) × (c.mariko_emc_vddq_volt ≤ 750000)
  unfolding validators
  safe_vddq = safe_at 9 _ 400000 750000 (λ a b d e. refl) (omega arith) (omega arith)

  pub safe_soc_vmax :
      c.mariko_soc_vmax ≢ 0 → (1000 ≤ c.mariko_soc_vmax) × (c.mariko_soc_vmax ≤ 1200)
  unfolding validators
  safe_soc_vmax = safe_at 10 _ 1000 1200 (λ a b d e. refl) (omega arith) (omega arith)
