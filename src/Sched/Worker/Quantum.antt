-- ===== src/Sched/Worker/Quantum.antt =====
-- The range of the quantum of a level.
use ift.Base.{ℕ, ◌^◌, ◌<◌, ◌≡◌, some, arith}
use ift.Sched.Queue.{Queue}
use ift.Sched.Worker.{get_quantum}

-- A quantum is a positive `int`.
pub get_quantum-bounds :
    (scale : ℕ → ℕ → ℕ) (q : Queue) (level quantum : ℕ)
    → get_quantum scale q level ≡ some quantum
    → (0 < quantum) × (quantum < 2 ^ 31)
unfolding get_quantum
get_quantum-bounds scale q level quantum e = (ground (arith, e), ground (arith, e))
