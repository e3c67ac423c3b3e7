-- ===== src/Gm20b/Slide.antt =====
-- What `setClock` leaves in the registers.
use rcu.Base.{
  ℕ, zero, suc, ◌+◌, ◌*◌, ◌/◌, ◌≤◌, ◌<◌, ◌≡◌, ◌≢◌, inl, inr, refl, Bool, true, false, ◌||◌, arith,
  ◌==◌, u32, subst, Bool-cases, if_then_else_ind,
}
use rcu.Gm20b.{
  Pll, coeff, ndiv_slowdown, bits, put_bits, clk_setup_slide, poll, slide_from, gpu_pllg_slide,
  osc_khz, divn_for, clamp_divn, set_clock,
}

clamp_divn-within : (n : ℕ) → (8 ≤ clamp_divn n) × (clamp_divn n ≤ 255)
clamp_divn-within n = ground arith

-- The three fields of the coefficients with another divider.
put_bits-fields :
    (n x : ℕ)
    → n ≤ 255
    → (bits 8 8 (put_bits 8 8 n x) ≡ n)
      × (bits 0 8 (put_bits 8 8 n x) ≡ bits 0 8 x)
      × (bits 16 6 (put_bits 8 8 n x) ≡ bits 16 6 x)
put_bits-fields n x h = (omega arith, omega arith, omega arith)

put_bits-same : (x : ℕ) → put_bits 8 8 (bits 8 8 x) x ≡ x
put_bits-same x = omega arith

slide_off : (x : ℕ) → bits 22 2 (put_bits 22 2 0 x) ≡ 0
slide_off x = omega arith

slide_from-regs :
    (synced : ℕ → Bool) (n old : ℕ) (s : Pll)
    → ((slide_from synced n old s).1.regs coeff ≡ put_bits 8 8 n old)
      × (bits 22 2 ((slide_from synced n old s).1.regs ndiv_slowdown) ≡ 0)
unfolding slide_from
slide_from-regs synced n old s = elim (Bool-cases (poll synced 500 0)) [
  | inl e ↦ rw e (refl, slide_off _)
  | inr e ↦ rw e (refl, slide_off _)
]

-- The dividers that a PLL is set to.
abbrev pub divm : Pll → ℕ
divm s = bits 0 8 (s.regs coeff)

abbrev pub divp : Pll → ℕ
divp s = bits 16 6 (s.regs coeff)

abbrev pub divn : Pll → ℕ
divn s = bits 8 8 (s.regs coeff)

-- The divider is set, the others are kept, and no slide goes on.
abbrev pub IsTuned : ℕ → Pll → Pll → Type 0
IsTuned n s t =
    (divn t ≡ n) × (divm t ≡ divm s) × (divp t ≡ divp s) × (bits 22 2 (t.regs ndiv_slowdown) ≡ 0)

gpu_pllg_slide-IsTuned :
    (synced : ℕ → Bool) (n : ℕ) (s : Pll)
    → n ≤ 255
    → bits 22 2 (s.regs ndiv_slowdown) ≡ 0
    → IsTuned n s (gpu_pllg_slide synced n s).1
unfolding gpu_pllg_slide
gpu_pllg_slide-IsTuned synced n s h off = elim (Bool-cases (n == bits 8 8 (s.regs coeff))) [
  | inl e ↦ rw e (ground (arith, e), refl, refl, off)
  | inr e ↦
      let (at, stopped) = slide_from-regs synced n (s.regs coeff) (clk_setup_slide s) in
      let (a, b, c) = put_bits-fields n (s.regs coeff) h in rw (e, at) (a, b, c, stopped)
]

runs : (s : Pll) → divm s ≢ 0 → divp s ≢ 0 → divm s == 0 || divp s == 0 ≡ false
runs s m p = ground (arith, m, p)

-- Where neither of the dividers M and P is 0 and no slide goes on, `setClock` sets the divider N to the
-- one for the clock, from 8 to 255, keeps M and P, and leaves no slide going on, whether the hardware
-- answers in time or not.
pub set_clock-IsTuned :
    (synced : ℕ → Bool) (khz : ℕ) (s : Pll)
    → divm s ≢ 0
    → divp s ≢ 0
    → bits 22 2 (s.regs ndiv_slowdown) ≡ 0
    → IsTuned (clamp_divn (divn_for khz (divm s) (divp s))) s (set_clock synced khz s).1
unfolding set_clock
set_clock-IsTuned synced khz s m p off = rw (runs s m p) (
    gpu_pllg_slide-IsTuned synced (clamp_divn (divn_for khz (divm s) (divp s))) s
      (clamp_divn-within (divn_for khz (divm s) (divp s))).1 off)

at_poll : (synced : ℕ → Bool) (a b : ℕ) → a ≡ b → synced a ≡ true → synced b ≡ true
at_poll synced a b e h = subst (λ n. synced n ≡ true) e h

poll-answered :
    (synced : ℕ → Bool) (timeout n d : ℕ)
    → d < timeout
    → synced (n + d) ≡ true
    → poll synced timeout n ≡ true
unfolding poll
poll-answered synced zero n d lt h = absurd (omega arith)
poll-answered synced (suc timeout) n zero lt h = rw (at_poll synced (n + 0) n (omega arith) h) refl
poll-answered synced (suc timeout) n (suc d) lt h =
    if_then_else_ind (λ b. b ≡ true) (synced n) true (poll synced timeout (suc n)) (λ e. refl)
      (λ e.
        poll-answered synced timeout (suc n) d (omega arith)
          (at_poll synced (n + suc d) (suc n + d) (omega arith) h))

-- Where neither of the dividers M and P is 0, `setClock` returns true if the hardware answers one of
-- the first 500 polls.
pub set_clock-answered :
    (synced : ℕ → Bool) (khz n : ℕ) (s : Pll)
    → divm s ≢ 0
    → divp s ≢ 0
    → n < 500
    → synced n ≡ true
    → (set_clock synced khz s).0 ≡ true
unfolding set_clock gpu_pllg_slide slide_from
set_clock-answered synced khz n s m p lt h = rw (runs s m p) (
    if_then_else_ind (λ (r : Bool × Pll). r.0 ≡ true)
      (clamp_divn (divn_for khz (divm s) (divp s)) == divn s) _ _ (λ e. refl)
      (λ e. poll-answered synced 500 0 n lt (at_poll synced n (0 + n) (omega arith) h)))

divn_for-nearest :
    (khz m p : ℕ)
    → 8 * osc_khz ≤ khz * m * p * 2
    → khz * m * p * 2 < 256 * osc_khz
    → (osc_khz * clamp_divn (divn_for khz m p) ≤ khz * m * p * 2)
      × (khz * m * p * 2 < osc_khz * (clamp_divn (divn_for khz m p) + 1))
unfolding divn_for
divn_for-nearest khz m p lo hi = within (khz * m * p * 2) lo hi
  where
    within :
        (x : ℕ)
        → 8 * osc_khz ≤ x
        → x < 256 * osc_khz
        → (osc_khz * clamp_divn (u32 (x / osc_khz)) ≤ x)
          × (x < osc_khz * (clamp_divn (u32 (x / osc_khz)) + 1))
    within x lo hi = ground arith

-- Where moreover the divider N for the clock is from 8 to 255, the rate that `setClock` sets,
-- 38400 kHz times N over twice M times P, is the highest of these rates that is not above the clock.
pub set_clock-nearest :
    (synced : ℕ → Bool) (khz : ℕ) (s : Pll)
    → divm s ≢ 0
    → divp s ≢ 0
    → bits 22 2 (s.regs ndiv_slowdown) ≡ 0
    → 8 * osc_khz ≤ khz * divm s * divp s * 2
    → khz * divm s * divp s * 2 < 256 * osc_khz
    → (osc_khz * divn (set_clock synced khz s).1 ≤ khz * divm s * divp s * 2)
      × (khz * divm s * divp s * 2 < osc_khz * (divn (set_clock synced khz s).1 + 1))
set_clock-nearest synced khz s m p off lo hi =
    rw ((set_clock-IsTuned synced khz s m p off).0) (divn_for-nearest khz (divm s) (divp s) lo hi)
