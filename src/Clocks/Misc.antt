-- ===== src/Clocks/Misc.antt =====
-- `HandleMiscFeatures`, `WaitForNextTick` and `GetFreqList` of
-- Source/ryazha-clk/sysmodule/src/mgr/clock_manager.cpp.
use rcu.Base.{
  ℕ, zero, suc, ◌+◌, ◌*◌, ◌≤◌, ◌≡◌, refl, ap, sym, subst, ◌⊎◌, inl, inr, Bool, true, false, List,
  [], ◌∷◌, ◌++◌, length, take, min, ltb, ◌/=◌, if◌then◌else◌, u32, u64, arith,
}
use rcu.Hoc.{ConsoleType, aula}
use rcu.Config.Key
use rcu.FreqTable.{FreqTable}
use rcu.Clocks.{Env, value}

-- The calls of the drivers.
pub data MiscCall : Type 0 where
  set_fast_charge_current_limit set_display_mv set_display_color_mode : ℕ → MiscCall
  handle_cpu_uv : MiscCall

abbrev pub is_aula : ConsoleType → Bool
is_aula aula = true
is_aula _ = false

-- The settings that are applied.
abbrev pub misc_calls : Env → ConsoleType → List MiscCall
misc_calls env console =
    (if value env Key.battery_charge_current /= 0
      then set_fast_charge_current_limit (value env Key.battery_charge_current) ∷ []
      else [])
    ++ (set_display_mv (value env Key.display_voltage)
        ∷ (if is_aula console
            then set_display_color_mode (value env Key.aula_display_color_preset) ∷ []
            else []))
    ++ (if value env Key.live_cpu_uv /= 0 then handle_cpu_uv ∷ [] else [])

-- `HandleMiscFeatures`: the static counter after it, and the calls.
unfoldable pub handle_misc_features : Env → ConsoleType → ℕ → ℕ × List MiscCall
handle_misc_features env console counter =
    let next = u32 (counter + 1) in if ltb 10 next then (0, misc_calls env console) else (next, [])

-- A number of ticks in a row: the counter after them, and all calls.
abbrev pub misc_ticks : Env → ConsoleType → ℕ → ℕ → ℕ × List MiscCall
misc_ticks env console zero counter = (counter, [])
misc_ticks env console (suc n) counter =
    let now = handle_misc_features env console counter in
    let later = misc_ticks env console n now.0 in (later.0, now.1 ++ later.1)

-- `WaitForNextTick`, in ns, at a rate of the memory.
unfoldable pub wait_ns : Env → ℕ → ℕ
wait_ns env mem_hz =
    if ltb 665000000 mem_hz then u64 (value env Key.polling_interval_ms * 1000000) else 5000000000

-- `GetFreqList`.
unfoldable pub get_freq_list : FreqTable → ℕ → List ℕ
get_freq_list table max_count = take (min max_count (length table)) table

append-nil : {A : Type 0} (xs : List A) → xs ++ [] ≡ xs
append-nil [] = refl
append-nil (x ∷ xs) = ap (λ ys. x ∷ ys) (append-nil xs)

-- What holds of the numbers up to 10 in turn holds of each.
up_to_10 {ℓ} :
    (P : ℕ → Type ℓ)
    → P 0 × (P 1 × (P 2 × (P 3 × (P 4 × (P 5 × (P 6 × (P 7 × (P 8 × (P 9 × P 10)))))))))
    → (n : ℕ) → n ≤ 10
    → P n
up_to_10 P (p0, (p1, (p2, (p3, (p4, (p5, (p6, (p7, (p8, (p9, p10)))))))))) n h =
    elim (cases_to_10 n h) [
      | inl e ↦ subst P (sym e) p0
      | inr (inl e) ↦ subst P (sym e) p1
      | inr (inr (inl e)) ↦ subst P (sym e) p2
      | inr (inr (inr (inl e))) ↦ subst P (sym e) p3
      | inr (inr (inr (inr (inl e)))) ↦ subst P (sym e) p4
      | inr (inr (inr (inr (inr (inl e))))) ↦ subst P (sym e) p5
      | inr (inr (inr (inr (inr (inr (inl e)))))) ↦ subst P (sym e) p6
      | inr (inr (inr (inr (inr (inr (inr (inl e))))))) ↦ subst P (sym e) p7
      | inr (inr (inr (inr (inr (inr (inr (inr (inl e)))))))) ↦ subst P (sym e) p8
      | inr (inr (inr (inr (inr (inr (inr (inr (inr (inl e))))))))) ↦ subst P (sym e) p9
      | inr (inr (inr (inr (inr (inr (inr (inr (inr (inr e))))))))) ↦ subst P (sym e) p10
    ]
  where
    cases_to_10 :
        (n : ℕ)
        → n ≤ 10
        → (n ≡ 0)
          ⊎ ((n ≡ 1)
              ⊎ ((n ≡ 2)
                  ⊎ ((n ≡ 3)
                      ⊎ ((n ≡ 4)
                          ⊎ ((n ≡ 5) ⊎ ((n ≡ 6) ⊎ ((n ≡ 7) ⊎ ((n ≡ 8) ⊎ ((n ≡ 9) ⊎ (n ≡ 10))))))))))
    cases_to_10 n h = ground (arith, h)

with_counter : ℕ → List MiscCall → ℕ × List MiscCall
with_counter k calls = (k, calls)

all_once : (calls : List MiscCall) (k : ℕ) → with_counter k (calls ++ []) ≡ with_counter k calls
all_once calls k = ap (with_counter k) (append-nil calls)

-- Eleven ticks in a row apply the settings exactly once, wherever the counter stands, and leave the
-- counter where it was.
pub misc_ticks-once :
    (env : Env) (console : ConsoleType) (counter : ℕ)
    → counter ≤ 10
    → misc_ticks env console 11 counter ≡ (counter, misc_calls env console)
unfolding handle_misc_features with_counter
misc_ticks-once env console counter h =
    let once = all_once (misc_calls env console) in
    up_to_10 (λ k. misc_ticks env console 11 k ≡ (k, misc_calls env console))
      (
        once 0,
        (
          once 1,
          (once 2, (once 3, (once 4, (once 5, (once 6, (once 7, (once 8, (once 9, once 10)))))))),
        ),
      )
      counter h
