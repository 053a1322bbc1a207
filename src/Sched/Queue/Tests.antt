-- ===== src/Sched/Queue/Tests.antt =====
-- A ready queue with a process.
use ift.Base.{ℕ, zero, suc, ◌≤◌, ◌<◌, ◌≡◌, refl, true, some, [], ◌∷◌, arith, All}
use ift.Sched.Process.{Processes, create_process}
use ift.Sched.Level.Order.{key, IsSorted}
use ift.Sched.Level.Push.{insert}
use ift.Sched.Level.Search.{has, delete}
use ift.Sched.Queue.{Queue, init, push, pop, remove}
use ift.Sched.Queue.Rep.{View, Holds, with_level, init-Holds, push-Holds, pop-Holds, remove-Holds}
use ift.Sched.Queue.Order.{push-IsSorted, pop-shortest}

-- Process `n` has run for `n` milliseconds, and has level 1.
abbrev procs : Processes
procs n = record (create_process n) { burst_length = n; priority_level = 1 }

abbrev empty : View
empty i = []

abbrev one : View
one = with_level empty 1 (some 5 ∷ [])

abbrev two : View
two = with_level one 1 (some 7 ∷ some 5 ∷ [])

five_waits : (q : Queue) × (push procs init (some 5) ≡ some q) × Holds q one
unfolding create_process insert
five_waits = push-Holds procs init empty 5 init-Holds (omega arith) tt

seven_waits : (q : Queue) × (push procs five_waits.0 (some 7) ≡ some q) × Holds q two
unfolding create_process insert
seven_waits = push-Holds procs five_waits.0 one 7 five_waits.2 (omega arith) (refl, tt)

level_0 : (j : ℕ) → j < 1 → two j ≡ []
level_0 zero lt = refl
level_0 (suc j) lt = absurd (omega arith)

push-Holds_example : (q : Queue) × (push procs five_waits.0 (some 7) ≡ some q) × Holds q two
unfolding create_process insert
push-Holds_example = push-Holds procs five_waits.0 one 7 five_waits.2 (omega arith) (refl, tt)

pop-Holds_example :
    (q : Queue) × (pop seven_waits.0 ≡ some (some 5, q)) × Holds q (with_level two 1 (some 7 ∷ []))
pop-Holds_example =
    pop-Holds seven_waits.0 two 1 (some 7 ∷ []) (some 5) seven_waits.2 (omega arith) level_0 refl

remove-Holds_example :
    (q : Queue) × (remove procs seven_waits.0 (some 5) ≡ some (true, q))
    × Holds q (with_level two 1 (some 7 ∷ []))
unfolding create_process has delete
remove-Holds_example = remove-Holds procs seven_waits.0 two 5 seven_waits.2 (omega arith)

push-IsSorted_example :
    (q : Queue) × (view : View) × (push procs five_waits.0 (some 7) ≡ some q)
    × Holds q view
    × IsSorted procs (view 1)
unfolding create_process
push-IsSorted_example =
    push-IsSorted procs five_waits.0 one 7 five_waits.2 (omega arith) (omega arith) refl (refl, tt)
      (tt, tt)

pop-shortest_example :
    (q : Queue) × (pop seven_waits.0 ≡ some (some 5, q))
    × Holds q (with_level two 1 (some 7 ∷ []))
    × All (λ b. key procs (some 5) ≤ key procs b) (some 7 ∷ [])
unfolding create_process
pop-shortest_example =
    pop-shortest procs seven_waits.0 two 1 (some 7 ∷ []) (some 5) seven_waits.2 (omega arith)
      level_0 refl ((omega arith, tt), (tt, tt))
