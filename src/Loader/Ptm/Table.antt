-- ===== src/Loader/Ptm/Table.antt =====
-- The whole table of PTM after the patch on a Mariko.
use rcu.Base.{
  u32, ℕ, zero, suc, ◌+◌, ◌*◌, ◌≤◌, ◌<◌, ◌≡◌, inl, inr, refl, sym, ap, ◌∙◌, subst, true, false,
  ◌||◌, some, arith, ◌==◌, if◌then◌else◌,
}
use rcu.Loader.Scan.{Memory, success, check_result}
use rcu.Loader.Custom.{CustomizeTable}
use rcu.Loader.Ptm.{cpu_boost, find_table, patch_entries, cpu_ptm_boost_patch, mem_ptm_patch, patch}
use rcu.Loader.Ptm.Modes.{
  IsKnown, word_after, entry_after, boosted, entry_after-word, entry_after-other, clock,
  patch_entry-known,
}

-- The number of entries of the boost mode, added to one.
abbrev pub boosts : ℕ → ℕ → Memory → ℕ → ℕ
boosts zero ptr m a = a
boosts (suc n) ptr m a = boosts n (ptr + 8) m (boosted ptr m a)

-- Two memories that are the same from a word on.
abbrev IsSame : ℕ → Memory → Memory → Type 0
IsSame ptr m k = (j : ℕ) → ptr ≤ j → m j ≡ k j

boosts-IsSame : (n ptr a : ℕ) (m k : Memory) → IsSame ptr m k → boosts n ptr m a ≡ boosts n ptr k a
boosts-IsSame zero ptr a m k same = refl
boosts-IsSame (suc n) ptr a m k same =
    boosts-IsSame n (ptr + 8) (boosted ptr m a) m k (λ j le. same j (omega arith))
    ∙ ap (λ w. boosts n (ptr + 8) k (if w == cpu_boost then a + 1 else a))
        (same (ptr + 1) (omega arith))

IsKnown-IsSame :
    (ptr at : ℕ) (m k : Memory) → IsSame at m k → at ≤ ptr → IsKnown ptr m → IsKnown ptr k
IsKnown-IsSame ptr at m k same le h =
    rw
      (
        sym (same (ptr + 1) (omega arith)),
        sym (same (ptr + 2) (omega arith)),
        sym (same (ptr + 3) (omega arith)),
        sym (same (ptr + 4) (omega arith)),
        sym (same (ptr + 5) (omega arith)),
        sym (same (ptr + 6) (omega arith)),
      )
      h

no_more : (b : ℕ) → b ≡ b + 0
no_more b = omega arith

word_after-IsSame :
    (clock p at k : ℕ) (m l : Memory)
    → IsSame at m l
    → at ≤ p
    → word_after clock p k l ≡ word_after clock p k m
word_after-IsSame clock p at k m l same le =
    rw (same (p + 1) (omega arith), same (p + k) (omega arith)) refl

module _ (c : CustomizeTable)
    (set : c.erista_cpu_boost_clock == 0 || c.mariko_cpu_boost_clock == 0 ≡ false) where
  -- What the loop over the entries leaves.
  abbrev IsPatched : ℕ → ℕ → ℕ → ℕ → Memory → Type 0
  IsPatched n ptr a b m =
      (after : Memory) × (patch_entries true n ptr (cpu_ptm_boost_patch c true a) (mem_ptm_patch b)
          m
        ≡ some (cpu_ptm_boost_patch c true (boosts n ptr m a), (mem_ptm_patch (b + n), after)))
      × ((i k : ℕ)
          → i < n
          → k < 8
          → after (ptr + 8 * i + k) ≡ word_after (clock c set) (ptr + 8 * i) k m)
      × ((j : ℕ) → j < ptr → after j ≡ m j)

  patch_entries-known :
      (n ptr a b : ℕ) (m : Memory)
      → ((i : ℕ) → i < n → IsKnown (ptr + 8 * i) m)
      → IsPatched n ptr a b m
  unfolding patch_entries
  patch_entries-known zero ptr a b m known = (
    m,
    ap (λ v. some (cpu_ptm_boost_patch c true a, (mem_ptm_patch v, m))) (no_more b),
    λ i k lt. absurd (omega arith),
    λ j lt. refl,
  )
  patch_entries-known (suc n) ptr a b m known =
      let (after, runs, words, before) =
        patch_entries-known n (ptr + 8) (boosted ptr m a) (b + 1) next (λ i lt.
          IsKnown-IsSame (ptr + 8 + 8 * i) (ptr + 8) m next same (omega arith)
            (subst (λ p. IsKnown p m) (next_at i) (known (suc i) (omega (arith, lt))))) in
      (
        after,
        rw
            (patch_entry-known c set a b ptr m
              (subst (λ p. IsKnown p m) (first_at ptr) (known 0 (omega arith))))
            (runs
              ∙ (ap (λ w. some (cpu_ptm_boost_patch c true w, (mem_ptm_patch (b + 1 + n), after)))
                    (sym (boosts-IsSame n (ptr + 8) (boosted ptr m a) m next same))
                  ∙ ap
                      (λ v. some (
                        cpu_ptm_boost_patch c true (boosts n (ptr + 8) m (boosted ptr m a)),
                        (mem_ptm_patch v, after),
                      ))
                      (one_more b n))),
        words_at after words before,
        λ j lt. before j (omega (arith, lt)) ∙ entry_after-other (clock c set) ptr j m (inl lt),
      )
    where
      next : Memory
      next = entry_after (clock c set) ptr m

      same : IsSame (ptr + 8) m next
      same j le = sym (entry_after-other (clock c set) ptr j m (inr le))

      first_at : (p : ℕ) → p + 8 * 0 ≡ p
      first_at p = omega arith

      next_at : (i : ℕ) → ptr + 8 * suc i ≡ ptr + 8 + 8 * i
      next_at i = omega arith

      one_more : (b n : ℕ) → b + 1 + n ≡ b + suc n
      one_more b n = omega arith

      words_at :
          (after : Memory)
          → ((i k : ℕ)
              → i < n
              → k < 8
              → after (ptr + 8 + 8 * i + k) ≡ word_after (clock c set) (ptr + 8 + 8 * i) k next)
          → ((j : ℕ) → j < ptr + 8 → after j ≡ next j)
          → (i k : ℕ) → i < suc n
          → k < 8
          → after (ptr + 8 * i + k) ≡ word_after (clock c set) (ptr + 8 * i) k m
      words_at after words before zero k lt small =
          rw (first_at ptr)
            (before (ptr + k) (omega (arith, small)) ∙ entry_after-word (clock c set) ptr k m)
      words_at after words before (suc i) k lt small = rw (next_at i) (
          words i k (omega (arith, lt)) small
          ∙ word_after-IsSame (clock c set) (ptr + 8 + 8 * i) (ptr + 8) k m next same (omega arith))

few :
    (p : CustomizeTable) (n : ℕ)
    → 1 ≤ n
    → n ≤ 2
    → check_result (cpu_ptm_boost_patch p true n) ≡ success
unfolding check_result
few p n lo hi = ground arith

sixteen : check_result (mem_ptm_patch 16) ≡ success
unfolding check_result
sixteen = refl

-- On a Mariko with boost clocks that are not 0: where a table is found whose 16 entries are of known
-- modes, one or two of them with the boost clock, the patch of PTM does not crash, and afterwards the
-- clocks of the CPU are `marikoCpuBoostClock` in the entries that had the boost clock, those of the
-- memory are 1600 MHz in every entry, and the other words of the table are as before.
pub patch-IsKnown :
    (c : CustomizeTable) (places ptr table i k : ℕ) (m : Memory)
    → c.erista_cpu_boost_clock == 0 || c.mariko_cpu_boost_clock == 0 ≡ false
    → find_table places ptr m ≡ some table
    → ((e : ℕ) → e < 16 → IsKnown (table + 8 * e) m)
    → 1 ≤ boosts 16 table m 0
    → boosts 16 table m 0 ≤ 2
    → i < 16
    → k < 8
    → (after : Memory) × (patch c true places ptr m ≡ some after)
      × (after (table + 8 * i + k)
          ≡ word_after (u32 (c.mariko_cpu_boost_clock * 1000)) (table + 8 * i) k m)
unfolding patch
patch-IsKnown c places ptr table i k m set found known some_boost not_more lt small =
    let (after, runs, words, before) = patch_entries-known c set 16 table 0 0 m known in
    (
      after,
      rw (found, runs, few c (boosts 16 table m 0) some_boost not_more, sixteen) refl,
      words i k lt small,
    )
