-- ===== src/Dvfs/Dfll.antt =====
-- The tunings of the CPU's DFLL: `SetDfllTunings` of Source/ryazha-clk/sysmodule/src/board/board_volt.cpp,
-- without the branches that no call reaches.
use rcu.Base.{
  ℕ, zero, suc, ◌<◌, ◌≡◌, ◌&&◌, ◌||◌, Option, none, some, List, [], ◌∷◌, get_elem?, ltb, ◌/=◌,
  if◌then◌else◌, arith,
}
use rcu.Hoc.{SocType, erista, mariko}

-- The registers `CL_DVFS_TUNE0_0` and `CL_DVFS_TUNE1_0`.
abbrev pub Tunings : Type 0
Tunings = ℕ × ℕ

-- `eristaCpuUvTable`.
abbrev pub erista_cpu_uv_table : List Tunings
erista_cpu_uv_table =
    (0xFFEAD0FF, 0x0)
    ∷ (0xffff, 0x27007ff)
    ∷ (0xefff, 0x27407ff)
    ∷ (0xdfff, 0x27807ff)
    ∷ (0xdfdf, 0x27a07ff)
    ∷ (0xcfdf, 0x37007ff)
    ∷ []

-- The fields `tune0_low` and `tune1_low` of `marikoCpuUvLow`, which are all that is read of it.
abbrev pub mariko_cpu_uv_low : List Tunings
mariko_cpu_uv_low =
    (0xffa0, 0x21107ff)
    ∷ (0x0, 0x21107ff)
    ∷ (0xffdf, 0x21107ff)
    ∷ (0xffff, 0x21107ff)
    ∷ (0x0, 0x21607ff)
    ∷ (0x0, 0x21607ff)
    ∷ (0x0, 0x21607ff)
    ∷ (0xdfff, 0x21707ff)
    ∷ (0xdfff, 0x21707ff)
    ∷ (0xdfff, 0x21707ff)
    ∷ (0xdfff, 0x21707ff)
    ∷ (0xdfff, 0x21707ff)
    ∷ []

-- The fields `tune0_high` and `tune1_high` of `marikoCpuUvHigh`.
abbrev pub mariko_cpu_uv_high : List Tunings
mariko_cpu_uv_high =
    (0xffff, 0)
    ∷ (0xffdf, 0x27207ff)
    ∷ (0xffdf, 0x27307ff)
    ∷ (0xffdf, 0x27407ff)
    ∷ (0xffdf, 0x27707ff)
    ∷ (0xffdf, 0x27807ff)
    ∷ (0xdfff, 0x27b07ff)
    ∷ (0xdfff, 0x27c07ff)
    ∷ (0xdfff, 0x27d07ff)
    ∷ (0xdfff, 0x27e07ff)
    ∷ (0xdfff, 0x27f07ff)
    ∷ (0xdfff, 0x27f07ff)
    ∷ []

-- A level above 0 writes its entry; `none` where the level lies past the table.
abbrev pub write_level : List Tunings → ℕ → Tunings → Option Tunings
write_level table zero t = some t
write_level table (suc level) t = get_elem? table level

abbrev pub then_write : Option Tunings → List Tunings → ℕ → Option Tunings
then_write none table level = none
then_write (some t) table level = write_level table level t

-- `SetDfllTunings`, at a rate of the CPU, from the registers before it.
unfoldable pub set_dfll_tunings : SocType → ℕ → ℕ → ℕ → ℕ → Tunings → Option Tunings
set_dfll_tunings erista low high tbreak cpu_hz t = get_elem? erista_cpu_uv_table low
set_dfll_tunings mariko low high tbreak cpu_hz t =
    if ltb cpu_hz tbreak && (low /= 0 || high /= 0)
    then write_level mariko_cpu_uv_low low t
    else then_write (write_level mariko_cpu_uv_low low t) mariko_cpu_uv_high high

-- On Mariko the level for the high rates makes no difference below the break point.
pub high_level_ignored :
    (low high other tbreak cpu_hz : ℕ) (t : Tunings)
    → cpu_hz < tbreak
    → 0 < low
    → set_dfll_tunings mariko low high tbreak cpu_hz t
      ≡ set_dfll_tunings mariko low other tbreak cpu_hz t
unfolding set_dfll_tunings
high_level_ignored low high other tbreak cpu_hz t below p = ground (arith, below, p)
