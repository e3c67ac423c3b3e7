-- ===== src/Loader/Ptm/Modes.antt =====
-- What the patch of PTM leaves in the table on a Mariko.
use rcu.Base.{
  ℕ, ◌+◌, ◌*◌, ◌≤◌, ◌<◌, ◌≡◌, ◌⊎◌, inl, inr, refl, sym, ap, Bool, true, false, ◌&&◌, ◌||◌, Option,
  some, ◌>>=◌, arith, ◌==◌, if◌then◌else◌, u32, subst, Bool-cases,
}
use rcu.Loader.Scan.{Memory, patch_offset, Entry, apply}
use rcu.Loader.Custom.{CustomizeTable}
use rcu.Loader.Ptm.{
  cpu_ptm_default, cpu_ptm_dev_oc, cpu_boost, mem_ptm_limit, mem_ptm_alt, mem_ptm_clamp,
  cpu_ptm_boost, mem_ptm, ptm_entry_is_valid, patch_cpu, patch_mem, patch_entry,
  cpu_ptm_boost_patch, mem_ptm_patch,
}

-- An entry of a known mode: it is valid, and its clocks are those that the patch knows.
abbrev pub IsKnown : ℕ → Memory → Type 0
IsKnown ptr m =
    (ptm_entry_is_valid ptr m ≡ true)
    × (m (ptr + 1) == cpu_boost || (m (ptr + 1) == cpu_ptm_default || m (ptr + 1) == cpu_ptm_dev_oc)
        ≡ true)
    × (m (ptr + 5) == mem_ptm_limit || m (ptr + 5) == mem_ptm_alt || m (ptr + 5) == mem_ptm_clamp
        ≡ true)

-- The word at a distance in the entry, after the patch.
abbrev pub word_after : ℕ → ℕ → ℕ → Memory → ℕ
word_after clock ptr k m =
    if (k == 1 || k == 2) && m (ptr + 1) == cpu_boost
    then clock
    else if k == 5 || k == 6
    then mem_ptm_limit
    else m (ptr + k)

-- The memory after the two patches of an entry, and the number of entries that have had the first.
abbrev cpu_after : ℕ → ℕ → Memory → Memory
cpu_after clock ptr m =
    if m (ptr + 1) == cpu_boost
    then patch_offset (ptr + 2) clock (patch_offset (ptr + 1) clock m)
    else m

abbrev mem_after : ℕ → Memory → Memory
mem_after ptr m = patch_offset (ptr + 6) mem_ptm_limit (patch_offset (ptr + 5) mem_ptm_limit m)

abbrev pub boosted : ℕ → Memory → ℕ → ℕ
boosted ptr m a = if m (ptr + 1) == cpu_boost then a + 1 else a

abbrev pub entry_after : ℕ → ℕ → Memory → Memory
entry_after clock ptr m = mem_after ptr (cpu_after clock ptr m)

-- Its words, and the others.
pub entry_after-word :
    (clock ptr k : ℕ) (m : Memory) → entry_after clock ptr m (ptr + k) ≡ word_after clock ptr k m
entry_after-word clock ptr k m = elim (Bool-cases (m (ptr + 1) == cpu_boost)) [
  | inl e ↦ rw e (ground arith)
  | inr e ↦ rw e (ground arith)
]

pub entry_after-other :
    (clock ptr j : ℕ) (m : Memory) → (j < ptr) ⊎ (ptr + 8 ≤ j) → entry_after clock ptr m j ≡ m j
entry_after-other clock ptr j m far = elim (Bool-cases (m (ptr + 1) == cpu_boost)) [
  | inl e ↦ rw e (ground (arith, far))
  | inr e ↦ rw e (ground (arith, far))
]

or_right : (a b : Bool) → a || b ≡ true → a ≡ false → b ≡ true
or_right true b h e = absurd (cc e)
or_right false b h e = h

module _ (c : CustomizeTable)
    (set : c.erista_cpu_boost_clock == 0 || c.mariko_cpu_boost_clock == 0 ≡ false) where
  abbrev pub clock : ℕ
  clock = u32 (c.mariko_cpu_boost_clock * 1000)

  patch_cpu-known :
      (a ptr : ℕ) (m : Memory)
      → m (ptr + 1) == cpu_boost
          || (m (ptr + 1) == cpu_ptm_default || m (ptr + 1) == cpu_ptm_dev_oc)
        ≡ true
      → patch_cpu (cpu_ptm_boost_patch c true a) ptr m
        ≡ some (cpu_ptm_boost_patch c true (boosted ptr m a), cpu_after clock ptr m)
  unfolding cpu_ptm_boost apply
  patch_cpu-known a ptr m known = elim (Bool-cases (m (ptr + 1) == cpu_boost)) [
    | inl e ↦ rw (e, set) refl
    | inr e ↦ rw (e, or_right _ _ known e) refl
  ]

  patch_mem-known :
      (b ptr : ℕ) (m : Memory)
      → m (ptr + 5) == mem_ptm_limit || m (ptr + 5) == mem_ptm_alt || m (ptr + 5) == mem_ptm_clamp
        ≡ true
      → patch_mem true (mem_ptm_patch b) ptr m ≡ some (mem_ptm_patch (b + 1), mem_after ptr m)
  unfolding mem_ptm apply
  patch_mem-known b ptr m known = rw known refl

  cpu_after-emc : (ptr : ℕ) (m : Memory) → cpu_after clock ptr m (ptr + 5) ≡ m (ptr + 5)
  cpu_after-emc ptr m = elim (Bool-cases (m (ptr + 1) == cpu_boost)) [
    | inl e ↦ rw e (ground arith)
    | inr e ↦ rw e refl
  ]

  pub patch_entry-known :
      (a b ptr : ℕ) (m : Memory)
      → IsKnown ptr m
      → patch_entry true (cpu_ptm_boost_patch c true a) (mem_ptm_patch b) ptr m
        ≡ some (
          cpu_ptm_boost_patch c true (boosted ptr m a),
          (mem_ptm_patch (b + 1), mem_after ptr (cpu_after clock ptr m)),
        )
  patch_entry-known a b ptr m (valid, cpu, mem) =
      rw (valid, patch_cpu-known a ptr m cpu)
        (ap
          (λ (o : Option (Entry × Memory)).
            o >>= λ q. some (cpu_ptm_boost_patch c true (boosted ptr m a), (q.0, q.1)))
          (patch_mem-known b ptr (cpu_after clock ptr m) (
            subst (λ n. n == mem_ptm_limit || n == mem_ptm_alt || n == mem_ptm_clamp ≡ true)
              (sym (cpu_after-emc ptr m)) mem)))
