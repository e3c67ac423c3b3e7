-- ===== src/Loader/Soc/Volt.antt =====
-- The instructions that `SocVoltAsm` leaves.
use rcu.Base.{
  ℕ, zero, suc, ◌+◌, ◌/◌, ◌^◌, ◌%◌, ◌≤◌, ◌<◌, ◌≡◌, ◌≢◌, inl, inr, refl, sym, ap, ◌∙◌, Bool, true,
  false, ◌||◌, Option, none, some, ◌>>=◌, arith, leb, ◌==◌, subst, Bool-cases,
}
use rcu.Loader.Scan.{Memory, patch_offset, success}
use rcu.Loader.Custom.{CustomizeTable}
use rcu.Loader.Asm.{
  asm_compare_no_rd, asm_get_rd, asm_set_rd, asm_set_imm16, asm_get_imm16, asm_subs_set_rn,
  asm_subs_set_imm12, asm_compare_no_regs, asm_get_mull_rn, asm_get_mull_rm,
  asm_subs_compare_no_reg, nop_ins, scan_assembly,
}
use rcu.Loader.Soc.{
  soc_volt_write_process_id_asm, soc_volt_write_voltage_asm, get_soc_process_id, Sites, unless,
  sites_at, after_multiplier, after_select, after_voltage, after_id, voltage_scan_limit,
  soc_volt_select_register_asm, soc_volt_multiply_volts_asm, soc_volt_validate_limit_asm,
  find_sites, patch_sites, soc_volt_asm_at, soc_volt_asm,
}

>>=-some :
    {A B : Type 0} (o : Option A) (f : A → Option B) (y : B)
    → o >>= f ≡ some y
    → (x : A) × (o ≡ some x) × (f x ≡ some y)
>>=-some none f y h = absurd (cc h)
>>=-some (some x) f y h = (x, refl, h)

unless-some : {A : Type 0} (b : Bool) (o : Option A) (y : A) → unless b o ≡ some y → o ≡ some y
unless-some true o y h = h
unless-some false o y h = absurd (cc h)

abbrev from_some : {A : Type 0} → A → Option A → A
from_some a none = a
from_some a (some b) = b

some-inj : {A : Type 0} (a b : A) → some a ≡ some b → a ≡ b
some-inj a b h = ap (from_some a) h

-- A place that is found is not before the start, and the pattern is there.
scan_assembly-some :
    (limit ptr pattern : ℕ) (comp : ℕ → ℕ → Bool) (m : Memory) (p : ℕ)
    → scan_assembly limit ptr pattern comp m ≡ some p
    → (ptr ≤ p) × (comp pattern (m p) ≡ true)
unfolding scan_assembly
scan_assembly-some zero ptr pattern comp m p h = absurd (cc h)
scan_assembly-some (suc limit) ptr pattern comp m p h = elim (Bool-cases (comp pattern (m ptr))) [
  | inl e ↦
      subst (λ q. (ptr ≤ q) × (comp pattern (m q) ≡ true)) (some-inj ptr p (rw e at h))
        (omega arith, e)
  | inr e ↦
      let (le, found) = scan_assembly-some limit (ptr + 1) pattern comp m p (rw e at h) in
      (omega (arith, le), found)
]

different :
    (a b : ℕ)
    → asm_compare_no_rd soc_volt_write_process_id_asm a ≡ true
    → asm_compare_no_rd soc_volt_write_voltage_asm b ≡ true
    → a ≢ b
unfolding asm_compare_no_rd
different a b p q e = ground (arith, p, q, e)

-- What the sites are, from each instruction on.
sites_at-some :
    (id volt validation : ℕ) (m : Memory) (s : Sites)
    → sites_at id volt validation m ≡ some s
    → (s.write_process_id ≡ id) × (s.write_voltage ≡ volt) × (s.branch_to_abort ≡ validation + 1)
sites_at-some id volt validation m s h =
    let e : s
        ≡ record { write_process_id = id; write_voltage = volt; branch_to_abort = validation + 1 } =
      sym (some-inj _ s (unless-some _ _ s h)) in
    (
      ap (λ (x : Sites). x.write_process_id) e,
      ap (λ (x : Sites). x.write_voltage) e,
      ap (λ (x : Sites). x.branch_to_abort) e,
    )

after_multiplier-some :
    (id volt sel mul : ℕ) (m : Memory) (s : Sites)
    → after_multiplier id volt sel mul m ≡ some s
    → (s.write_process_id ≡ id) × (s.write_voltage ≡ volt) × (mul < s.branch_to_abort)
after_multiplier-some id volt sel mul m s h =
    let (validation, found, rest) =
      >>=-some
        (scan_assembly voltage_scan_limit mul
          (asm_subs_set_rn soc_volt_validate_limit_asm (asm_get_rd (m mul))) asm_subs_compare_no_reg
          m)
        (λ validation. sites_at id volt validation m) s
        (unless-some
          (asm_get_mull_rn (m mul) == asm_get_rd (m sel)
            || asm_get_mull_rm (m mul) == asm_get_rd (m sel))
          _ s h) in
    let (a, b, c) = sites_at-some id volt validation m s rest in
    (
      a,
      b,
      omega (
        arith,
        c,
        (scan_assembly-some voltage_scan_limit mul _ asm_subs_compare_no_reg m validation found).0,
      ),
    )

after_voltage-some :
    (id volt : ℕ) (m : Memory) (s : Sites)
    → after_voltage id volt m ≡ some s
    → (s.write_process_id ≡ id) × (s.write_voltage ≡ volt) × (volt < s.branch_to_abort)
after_voltage-some id volt m s h =
    let (sel, found, rest) =
      >>=-some (scan_assembly 24 volt soc_volt_select_register_asm asm_compare_no_regs m)
        (λ sel. after_select id volt sel m) s h in
    let (mul, found', rest') =
      >>=-some (scan_assembly 200 sel soc_volt_multiply_volts_asm asm_compare_no_regs m)
        (λ mul. after_multiplier id volt sel mul m) s rest in
    let (a, b, c) = after_multiplier-some id volt sel mul m s rest' in
    (
      a,
      b,
      omega (
        arith,
        c,
        (scan_assembly-some 24 volt _ asm_compare_no_regs m sel found).0,
        (scan_assembly-some 200 sel _ asm_compare_no_regs m mul found').0,
      ),
    )

-- Where the sites are.
find_sites-some :
    (ptr : ℕ) (m : Memory) (s : Sites)
    → find_sites ptr m ≡ some s
    → (s.write_process_id ≢ s.write_voltage)
      × (s.write_process_id < s.branch_to_abort)
      × (s.write_voltage < s.branch_to_abort)
unfolding find_sites
find_sites-some ptr m s h =
    let (id, found, rest) =
      >>=-some
        (scan_assembly voltage_scan_limit ptr soc_volt_write_process_id_asm asm_compare_no_rd m)
        (λ id. after_id id m) s h in
    let (volt, found', rest') =
      >>=-some (scan_assembly voltage_scan_limit id soc_volt_write_voltage_asm asm_compare_no_rd m)
        (λ volt. after_voltage id volt m) s rest in
    let (a, b, c) = after_voltage-some id volt m s rest' in
    let (le, is_id) = scan_assembly-some voltage_scan_limit ptr _ asm_compare_no_rd m id found in
    let (le', is_volt) =
      scan_assembly-some voltage_scan_limit id _ asm_compare_no_rd m volt found' in
    (
      λ e. different (m id) (m volt) is_id is_volt (ap m (sym a ∙ (e ∙ b))),
      omega (arith, a, c, le'),
      omega (arith, b, c),
    )

-- The words at the sites after the writes.
module _ (vmax id : ℕ) (s : Sites) (old m : Memory) (other : s.write_process_id ≢ s.write_voltage)
    (first : s.write_process_id < s.branch_to_abort)
    (second : s.write_voltage < s.branch_to_abort) where
  at_voltage :
      patch_sites vmax id s old m s.write_voltage
      ≡ asm_set_rd
          (asm_set_imm16 soc_volt_write_voltage_asm vmax)
          (asm_get_rd (old s.write_voltage))
  at_voltage = ground arith

  at_id :
      patch_sites vmax id s old m s.write_process_id
      ≡ asm_set_rd
          (asm_set_imm16 soc_volt_write_voltage_asm id)
          (asm_get_rd (old s.write_process_id))
  at_id = ground arith

  at_branch : patch_sites vmax id s old m s.branch_to_abort ≡ nop_ins
  at_branch = ground arith

-- The bits of MOVZ above the immediate number, for a 32-bit register without a shift.
abbrev pub movz_w : ℕ
movz_w = 0b01010010100

mov_fields :
    (imm ins : ℕ)
    → (asm_get_imm16 (asm_set_rd (asm_set_imm16 soc_volt_write_voltage_asm imm) (asm_get_rd ins))
        ≡ imm % 2 ^ 16)
      × (asm_get_rd (asm_set_rd (asm_set_imm16 soc_volt_write_voltage_asm imm) (asm_get_rd ins))
          ≡ asm_get_rd ins)
      × (asm_set_rd (asm_set_imm16 soc_volt_write_voltage_asm imm) (asm_get_rd ins) / 2 ^ 21
          ≡ movz_w)
unfolding asm_get_rd asm_set_rd asm_set_imm16 asm_get_imm16
mov_fields imm ins = (omega arith, omega arith, omega arith)

-- The instruction is a MOVZ of a 32-bit register without a shift that loads the number into the register
-- of another instruction.
abbrev pub Loads : ℕ → ℕ → ℕ → Type 0
Loads imm old new =
    (new / 2 ^ 21 ≡ movz_w) × (asm_get_imm16 new ≡ imm) × (asm_get_rd new ≡ asm_get_rd old)

asked : (v : ℕ) → 1000 < v → v == 0 || leb v 1000 ≡ false
asked v h = ground arith

small : (v : ℕ) → v < 2 ^ 16 → v % 2 ^ 16 ≡ v
small v h = omega arith

small_id : (speedo : ℕ) → get_soc_process_id speedo % 2 ^ 16 ≡ get_soc_process_id speedo
unfolding get_soc_process_id
small_id speedo = ground arith

-- For a limit above 1000 and below 2 ^ 16 mV, where the sites are found and the fuse is read,
-- `SocVoltAsm` succeeds: the instruction for the limit is then a MOVZ that loads just that limit, and the
-- one for the process a MOVZ that loads the number of the console's own process, each into the register
-- that the instruction there had before, and at the branch to the abort the word is `nop_ins`.
pub soc_volt_asm-Loads :
    (c : CustomizeTable) (speedo ptr : ℕ) (m : Memory) (s : Sites)
    → find_sites ptr m ≡ some s
    → 1000 < c.mariko_soc_vmax
    → c.mariko_soc_vmax < 2 ^ 16
    → ((soc_volt_asm c (success, speedo) ptr m).0 ≡ success)
      × Loads c.mariko_soc_vmax
          (m s.write_voltage)
          ((soc_volt_asm c (success, speedo) ptr m).1 s.write_voltage)
      × Loads
          (get_soc_process_id speedo)
          (m s.write_process_id)
          ((soc_volt_asm c (success, speedo) ptr m).1 s.write_process_id)
      × ((soc_volt_asm c (success, speedo) ptr m).1 s.branch_to_abort ≡ nop_ins)
unfolding soc_volt_asm soc_volt_asm_at
soc_volt_asm-Loads c speedo ptr m s found lo hi =
    let (other, first, second) = find_sites-some ptr m s found in
    let tuned : Memory = patch_offset ptr (asm_subs_set_imm12 (m ptr) 2200) m in
    let pid : ℕ = get_soc_process_id speedo in
    let (volt_imm, volt_rd, volt_op) = mov_fields c.mariko_soc_vmax (m s.write_voltage) in
    let (id_imm, id_rd, id_op) = mov_fields pid (m s.write_process_id) in
    rw (found, asked c.mariko_soc_vmax lo)
      (
        refl,
        (
          ap (λ (n : ℕ). n / 2 ^ 21) (at_voltage c.mariko_soc_vmax pid s m tuned other first second)
              ∙ volt_op,
          ap asm_get_imm16 (at_voltage c.mariko_soc_vmax pid s m tuned other first second)
              ∙ (volt_imm ∙ small c.mariko_soc_vmax hi),
          ap asm_get_rd (at_voltage c.mariko_soc_vmax pid s m tuned other first second) ∙ volt_rd,
        ),
        (
          ap (λ (n : ℕ). n / 2 ^ 21) (at_id c.mariko_soc_vmax pid s m tuned other first second)
              ∙ id_op,
          ap asm_get_imm16 (at_id c.mariko_soc_vmax pid s m tuned other first second)
              ∙ (id_imm ∙ small_id speedo),
          ap asm_get_rd (at_id c.mariko_soc_vmax pid s m tuned other first second) ∙ id_rd,
        ),
        at_branch c.mariko_soc_vmax pid s m tuned other first second,
      )
