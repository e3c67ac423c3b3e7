-- ===== src/Board/Rates.antt =====
-- A rate that is set is the rate that is read.
use rcu.Base.{ℕ, ◌≤◌, ◌≡◌, ◌==◌, if◌then◌else◌, arith}
use rcu.Hoc.{Module, module_index, SocType}
use rcu.Board.{Board, use_gm20b, pcv_hz_for, set_hz, get_hz}

-- After `SetHz` of the CPU, the GPU or the memory, `GetHz` returns the rate that was set for it, and for
-- every other of the three what it returned before; for a rate of the GPU in the middle too, for which PCV
-- is told the next rate that it knows.
pub get_hz-set_hz :
    (soc : SocType) (m n : Module) (hz : ℕ) (b : Board)
    → module_index m ≤ 2
    → module_index n ≤ 2
    → get_hz (set_hz soc m hz b) n ≡ (if module_index n == module_index m then hz else get_hz b n)
unfolding set_hz get_hz pcv_hz_for use_gm20b
get_hz-set_hz soc m n hz b hm hn = ground (arith, hm, hn)
