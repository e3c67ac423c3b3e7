-- ===== src/Loader/Cpu/Dfll.antt =====
-- Which setting decides which tuning of the CPU.
use rcu.Base.{
  ℕ, ◌+◌, ◌≤◌, ◌≡◌, refl, sym, ap, ◌∙◌, Bool, true, false, ◌&&◌, ◌||◌, List, [], ◌∷◌, arith, ◌==◌,
  if◌then◌else◌, all_below, all_below_sound, Bool-cases, inl, inr,
}
use rcu.Loader.Scan.{Memory, patch_offset}
use rcu.Loader.Custom.{CustomizeTable}
use rcu.Loader.Cpu.{write_all, uv_low_writes, uv_high_writes, cpu_volt_dfll}

-- The last value that is written at a distance, or what stands there.
abbrev pub written_or : List (ℕ × ℕ) → ℕ → ℕ → ℕ
written_or [] o old = old
written_or ((p, v) ∷ rest) o old = written_or rest o (if o == p then v else old)

write_all-at :
    (ws : List (ℕ × ℕ)) (ptr : ℕ) (m : Memory) (o : ℕ)
    → write_all ws ptr m (ptr + o) ≡ written_or ws o (m (ptr + o))
write_all-at [] ptr m o = refl
write_all-at ((p, v) ∷ ws) ptr m o =
    write_all-at ws ptr (patch_offset (ptr + p) v m) o ∙ ap (written_or ws o) (same p v)
  where
    same : (p v : ℕ) → patch_offset (ptr + p) v m (ptr + o) ≡ (if o == p then v else m (ptr + o))
    same p v = ground arith

abbrev pub writes_at : List (ℕ × ℕ) → ℕ → Bool
writes_at [] o = false
writes_at ((p, v) ∷ rest) o = o == p || writes_at rest o

written_or-once :
    (ws : List (ℕ × ℕ)) (o a b : ℕ) → writes_at ws o ≡ true → written_or ws o a ≡ written_or ws o b
written_or-once [] o a b h = cc
written_or-once ((p, v) ∷ ws) o a b h = elim (Bool-cases (o == p)) [
  | inl e ↦ rw e refl
  | inr e ↦ rw e (written_or-once ws o a b (rw e at h))
]

written_or-never : (ws : List (ℕ × ℕ)) (o a : ℕ) → writes_at ws o ≡ false → written_or ws o a ≡ a
written_or-never [] o a h = refl
written_or-never ((p, v) ∷ ws) o a h = elim (Bool-cases (o == p)) [
  | inl e ↦ cc
  | inr e ↦ rw e (written_or-never ws o a (rw e at h))
]

-- `marikoCpuUVHigh` from 1 to 12 writes both words for high voltages.
abbrev writes_both : ℕ → Bool
writes_both n = n == 0 || (writes_at (uv_high_writes n) 1 && writes_at (uv_high_writes n) 3)

high_tables : all_below 13 writes_both ≡ true
unfolding uv_high_writes
high_tables = refl

high_writes :
    (n : ℕ)
    → 1 ≤ n
    → n ≤ 12
    → (writes_at (uv_high_writes n) 1 ≡ true) × (writes_at (uv_high_writes n) 3 ≡ true)
high_writes n a b = (ground (arith, e), ground (arith, e))
  where
    e : writes_both n ≡ true
    e = all_below_sound 13 writes_both n high_tables (omega arith)

high_spares :
    (n : ℕ) → (writes_at (uv_high_writes n) 0 ≡ false) × (writes_at (uv_high_writes n) 2 ≡ false)
unfolding uv_high_writes
high_spares n = (ground arith, ground arith)

-- The memory after the patch, where it applies.
abbrev tuned : CustomizeTable → ℕ → Memory → Memory
tuned c ptr m =
    write_all (uv_high_writes c.mariko_cpu_uv_high) ptr
      (write_all (uv_low_writes c.mariko_cpu_uv_low) ptr m)

tuned-at :
    (c : CustomizeTable) (ptr : ℕ) (m : Memory) (o : ℕ)
    → tuned c ptr m (ptr + o)
      ≡ written_or
          (uv_high_writes c.mariko_cpu_uv_high)
          o
          (written_or (uv_low_writes c.mariko_cpu_uv_low) o (m (ptr + o)))
tuned-at c ptr m o =
    write_all-at (uv_high_writes c.mariko_cpu_uv_high) ptr
      (write_all (uv_low_writes c.mariko_cpu_uv_low) ptr m) o
    ∙ ap (written_or (uv_high_writes c.mariko_cpu_uv_high) o)
        (write_all-at (uv_low_writes c.mariko_cpu_uv_low) ptr m o)

-- Settings for high voltages that write a word decide it.
tuned-high :
    (c d : CustomizeTable) (ptr : ℕ) (m : Memory) (o : ℕ)
    → c.mariko_cpu_uv_high ≡ d.mariko_cpu_uv_high
    → writes_at (uv_high_writes d.mariko_cpu_uv_high) o ≡ true
    → tuned c ptr m (ptr + o) ≡ tuned d ptr m (ptr + o)
tuned-high c d ptr m o same h =
    tuned-at c ptr m o
    ∙ (ap
          (λ n.
            written_or (uv_high_writes n) o
              (written_or (uv_low_writes c.mariko_cpu_uv_low) o (m (ptr + o))))
          same
        ∙ (written_or-once (uv_high_writes d.mariko_cpu_uv_high) o _ _ h
            ∙ sym (tuned-at d ptr m o)))

-- And the settings for low voltages decide a word that those do not write.
tuned-low :
    (c d : CustomizeTable) (ptr : ℕ) (m : Memory) (o : ℕ)
    → c.mariko_cpu_uv_low ≡ d.mariko_cpu_uv_low
    → ((n : ℕ) → writes_at (uv_high_writes n) o ≡ false)
    → tuned c ptr m (ptr + o) ≡ tuned d ptr m (ptr + o)
tuned-low c d ptr m o same h =
    tuned-at c ptr m o
    ∙ (written_or-never (uv_high_writes c.mariko_cpu_uv_high) o _ (h c.mariko_cpu_uv_high)
        ∙ (ap (λ n. written_or (uv_low_writes n) o (m (ptr + o))) same
            ∙ (sym (
                  written_or-never (uv_high_writes d.mariko_cpu_uv_high) o _
                    (h d.mariko_cpu_uv_high))
                ∙ sym (tuned-at d ptr m o))))

-- The memory after `cpu_volt_dfll` is `tuned`, or unchanged.
after-cases :
    (c d : CustomizeTable) (ptr : ℕ) (m : Memory) (at : ℕ)
    → tuned c ptr m at ≡ tuned d ptr m at
    → (cpu_volt_dfll c ptr m).1 at ≡ (cpu_volt_dfll d ptr m).1 at
unfolding cpu_volt_dfll
after-cases c d ptr m at same =
    elim (Bool-cases (
      m ptr == 0xFFCF
      && m (ptr + 1) == 0
      && m (ptr + 2) == 0x12207FF
      && m (ptr + 3) == 0x3FFF7FF)) [ inl e ↦ rw e same | inr e ↦ rw e refl ]

-- Where `marikoCpuUVHigh` is from 1 to 12, the two words that `CpuVoltDfll` leaves for high voltages are
-- the same for every `marikoCpuUVLow`, which also writes them.
pub cpu_volt_dfll-high :
    (c d : CustomizeTable) (ptr : ℕ) (m : Memory)
    → c.mariko_cpu_uv_high ≡ d.mariko_cpu_uv_high
    → 1 ≤ d.mariko_cpu_uv_high
    → d.mariko_cpu_uv_high ≤ 12
    → ((cpu_volt_dfll c ptr m).1 (ptr + 1) ≡ (cpu_volt_dfll d ptr m).1 (ptr + 1))
      × ((cpu_volt_dfll c ptr m).1 (ptr + 3) ≡ (cpu_volt_dfll d ptr m).1 (ptr + 3))
cpu_volt_dfll-high c d ptr m same low high =
    let writes = high_writes d.mariko_cpu_uv_high low high in
    (
      after-cases c d ptr m (ptr + 1) (tuned-high c d ptr m 1 same writes.0),
      after-cases c d ptr m (ptr + 3) (tuned-high c d ptr m 3 same writes.1),
    )

-- The two words that `CpuVoltDfll` leaves for low voltages depend only on `marikoCpuUVLow`.
pub cpu_volt_dfll-low :
    (c d : CustomizeTable) (ptr : ℕ) (m : Memory)
    → c.mariko_cpu_uv_low ≡ d.mariko_cpu_uv_low
    → ((cpu_volt_dfll c ptr m).1 (ptr + 0) ≡ (cpu_volt_dfll d ptr m).1 (ptr + 0))
      × ((cpu_volt_dfll c ptr m).1 (ptr + 2) ≡ (cpu_volt_dfll d ptr m).1 (ptr + 2))
cpu_volt_dfll-low c d ptr m same = (
  after-cases c d ptr m (ptr + 0) (tuned-low c d ptr m 0 same (λ n. (high_spares n).0)),
  after-cases c d ptr m (ptr + 2) (tuned-low c d ptr m 2 same (λ n. (high_spares n).1)),
)
