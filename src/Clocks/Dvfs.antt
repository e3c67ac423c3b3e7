-- ===== src/Clocks/Dvfs.antt =====
-- The order in which the voltage of the GPU and the rate of the memory change.
use rcu.Base.{
  ℕ, ◌<◌, ◌≡◌, ◌≢◌, refl, sym, ◌∙◌, inl, inr, Bool, true, false, ◌&&◌, Option, none, some, ◌>>=◌,
  List, ◌∷◌, ltb, if◌then◌else◌, Option-cases, arith,
}
use rcu.Hoc.{gpu, mem}
use rcu.Config.Key
use rcu.Dvfs.Hijack.{dvfs_vmin}
use rcu.Clocks.{
  Call, set_hz, pcv_hijack, Env, Clocks, value, target_hz, allowed_hz, apply_gpu_dvfs, set_clock,
  hijacks, apply_target, apply_or_reset, set_module, change_rate, dvfs_mode_hijack,
}

-- The voltage that is written for a rate of the memory.
abbrev pub volt_for : Env → ℕ → ℕ
volt_for env target = dvfs_vmin env.soc (value env Key.dvfs_offset) env.bracket target

apply_gpu_dvfs_calls :
    (env : Env) (target : ℕ) (s t : Clocks)
    → 0 < target
    → apply_gpu_dvfs env target s ≡ some t
    → (g : ℕ) × (t.calls ≡ set_hz gpu g ∷ pcv_hijack (volt_for env target) ∷ s.calls)
unfolding apply_gpu_dvfs
apply_gpu_dvfs_calls env target s t p h =
    elim (Option-cases (allowed_hz env s.profile gpu (env.get_hz s.calls gpu))) [
      | inl e ↦ absurd (ground (arith, e, h))
      | inr (g, e) ↦ (g, ground (arith, e, h, p))
    ]

-- The calls of `SetClocks` for the memory, the newest first, with the rate `g` given to the GPU and the
-- voltage `v`.
abbrev pub in_order : ℕ → ℕ → ℕ → ℕ → ℕ → List Call → List Call
in_order old target r g v calls =
    if ltb old target
    then set_hz mem r ∷ set_hz gpu g ∷ pcv_hijack v ∷ calls
    else if ltb target old
    then set_hz gpu g ∷ pcv_hijack v ∷ set_hz mem r ∷ calls
    else set_hz mem r ∷ calls

apply_if :
    (env : Env) (b : Bool) (target : ℕ) (s t : Clocks)
    → 0 < target
    → (if b then apply_gpu_dvfs env target s else some s) ≡ some t
    → (g : ℕ) × (t.calls
        ≡ (if b then set_hz gpu g ∷ pcv_hijack (volt_for env target) ∷ s.calls else s.calls))
apply_if env true target s t p h = apply_gpu_dvfs_calls env target s t p h
apply_if env false target s t p h = (0, ground (arith, h))

bind_some :
    {A B : Type 0} (o : Option A) (f : A → Option B) (b : B)
    → (o >>= f) ≡ some b
    → (a : A) × ((o ≡ some a) × (f a ≡ some b))
bind_some none f b h = absurd (ground (arith, h))
bind_some (some a) f b h = (a, (refl, h))

apply_target_changes :
    (env : Env) (s : Clocks) (old target r : ℕ)
    → allowed_hz env s.profile mem target ≡ some r
    → r ≢ s.freqs mem
    → change_rate env mem old target r s ≡ apply_target env mem old target s
unfolding apply_target
apply_target_changes env s old target r found changed = ground (arith, found, changed)

change_rate_order :
    (env : Env) (s t : Clocks) (old target r : ℕ)
    → value env Key.dvfs_mode ≡ dvfs_mode_hijack
    → 0 < target
    → change_rate env mem old target r s ≡ some t
    → (g : ℕ) × (t.calls ≡ in_order old target r g (volt_for env target) s.calls)
unfolding change_rate
change_rate_order env s t old target r mode p h =
    let b = hijacks env mem && ltb old target in
    let c = hijacks env mem && ltb target old in
    let first =
      bind_some (if b then apply_gpu_dvfs env target s else some s)
        (λ u. let v = set_clock mem r u in if c then apply_gpu_dvfs env target v else some v) t h in
    let (g, before) = apply_if env b target s first.0 p first.1.0 in
    let (k, after) = apply_if env c target (set_clock mem r first.0) t p first.1.1 in
    (if ltb old target then g else k, ground (arith, mode, before, after))

with_target :
    (env : Env) (is_boost : Bool) (s : Clocks)
    → 0 < target_hz env s mem
    → set_module env is_boost mem s
      ≡ apply_target env mem (env.get_hz s.calls mem) (target_hz env s mem) s
unfolding set_module apply_or_reset
with_target env is_boost s p = ground (arith, p)

-- If the memory has a target and gets another rate `r`, and the voltage is hijacked, `SetClocks` writes the
-- voltage of the GPU that belongs to the target, and sets the GPU's rate again, before it sets the
-- memory's rate if the target is above the rate that the board reports for the memory, and after that
-- if it is below; if the two are equal, it sets the memory's rate only.
pub dvfs_order :
    (env : Env) (is_boost : Bool) (s t : Clocks) (r : ℕ)
    → value env Key.dvfs_mode ≡ dvfs_mode_hijack
    → allowed_hz env s.profile mem (target_hz env s mem) ≡ some r
    → r ≢ s.freqs mem
    → 0 < target_hz env s mem
    → set_module env is_boost mem s ≡ some t
    → (g : ℕ) × (t.calls
        ≡ in_order
            (env.get_hz s.calls mem)
            (target_hz env s mem)
            r
            g
            (volt_for env (target_hz env s mem))
            s.calls)
dvfs_order env is_boost s t r mode found changed p h =
    let old = env.get_hz s.calls mem in
    let target = target_hz env s mem in
    change_rate_order env s t old target r mode p (
      apply_target_changes env s old target r found changed
      ∙ sym (with_target env is_boost s p)
      ∙ h)
