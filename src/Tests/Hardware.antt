-- ===== src/Tests/Hardware.antt =====
-- The clock of the GPU, and the table of PTM.
use rcu.Base.{
  ℕ, ◌+◌, ◌*◌, ◌/◌, ◌%◌, ◌^◌, ◌<◌, ◌≤◌, ◌≡◌, refl, Bool, true, false, ◌&&◌, ◌||◌, some, [], arith,
  ◌==◌, if◌then◌else◌, u32, all_below, all_below_sound,
}
use rcu.Gm20b.{
  Pll, coeff, clk_setup_slide, gpu_pllg_slide, slide_from, poll, osc_khz, divn_for, clamp_divn,
  set_clock,
}
use rcu.Gm20b.Slide.{IsTuned, divn, set_clock-IsTuned, set_clock-answered, set_clock-nearest}
use rcu.Loader.Scan.{Memory}
use rcu.Loader.Ptm.{
  cpu_boost, cpu_ptm_default, cpu_ptm_dev_oc, mem_ptm_limit, mem_ptm_alt, mem_ptm_clamp,
  ptm_entry_is_valid, find_table, patch,
}
use rcu.Loader.Ptm.Modes.{IsKnown, word_after}
use rcu.Loader.Ptm.Table.{patch-IsKnown}
use rcu.Tests.Loaders.{custom}

-- M is 1, N is 20, P is 2.
abbrev pll : Pll
pll = record { regs = λ r. if r == coeff then 1 + 20 * 2 ^ 8 + 2 * 2 ^ 16 else 0; writes = [] }

abbrev at_once : ℕ → Bool
at_once n = true

tuned : divn (set_clock at_once 921600 pll).1 ≡ 96
unfolding set_clock gpu_pllg_slide slide_from clk_setup_slide divn_for poll
tuned = refl

set_clock-IsTuned_example :
    IsTuned (clamp_divn (divn_for 921600 1 2)) pll (set_clock at_once 921600 pll).1
set_clock-IsTuned_example =
    set_clock-IsTuned at_once 921600 pll (λ e. omega (arith, e)) (λ e. omega (arith, e)) refl

set_clock-answered_example : (set_clock (λ n. n == 7) 921600 pll).0 ≡ true
set_clock-answered_example =
    set_clock-answered (λ n. n == 7) 921600 7 pll (λ e. omega (arith, e)) (λ e. omega (arith, e))
      (omega arith) refl

set_clock-nearest_example :
    (osc_khz * divn (set_clock at_once 921600 pll).1 ≤ 921600 * 1 * 2 * 2)
    × (921600 * 1 * 2 * 2 < osc_khz * (divn (set_clock at_once 921600 pll).1 + 1))
set_clock-nearest_example =
    set_clock-nearest at_once 921600 pll (λ e. omega (arith, e)) (λ e. omega (arith, e)) refl
      (omega arith) (omega arith)

-- Entries of which the fourth has the boost clock.
abbrev clock_at : ℕ → ℕ
clock_at e = if e == 3 then cpu_boost else cpu_ptm_default

abbrev modes : Memory
modes j =
    if j % 8 == 1 || j % 8 == 2
    then clock_at (j / 8)
    else if j % 8 == 5 || j % 8 == 6
    then mem_ptm_alt
    else 7

abbrev known : ℕ → Bool
known e =
    ptm_entry_is_valid (0 + 8 * e) modes
    && (modes (0 + 8 * e + 1) == cpu_boost
        || (modes (0 + 8 * e + 1) == cpu_ptm_default || modes (0 + 8 * e + 1) == cpu_ptm_dev_oc))
    && (modes (0 + 8 * e + 5) == mem_ptm_limit
        || modes (0 + 8 * e + 5) == mem_ptm_alt
        || modes (0 + 8 * e + 5) == mem_ptm_clamp)

all_known : all_below 16 known ≡ true
all_known = refl

three : (a b c : Bool) → a && b && c ≡ true → (a ≡ true) × (b ≡ true) × (c ≡ true)
three true true true h = (refl, refl, refl)
three true true false h = absurd (cc h)
three true false c h = absurd (cc h)
three false b c h = absurd (cc h)

modes-IsKnown : (e : ℕ) → e < 16 → IsKnown (0 + 8 * e) modes
modes-IsKnown e lt = three _ _ _ (all_below_sound 16 known e all_known lt)

found : find_table 1 0 modes ≡ some 0
unfolding find_table
found = refl

patch-IsKnown_example :
    (after : Memory) × (patch custom true 1 0 modes ≡ some after)
    × (after (0 + 8 * 3 + 2) ≡ word_after (u32 (1963000 * 1000)) (0 + 8 * 3) 2 modes)
patch-IsKnown_example =
    patch-IsKnown custom 1 0 0 3 2 modes refl found modes-IsKnown (omega arith) (omega arith)
      (omega arith) (omega arith)
