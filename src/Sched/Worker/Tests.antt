-- ===== src/Sched/Worker/Tests.antt =====
-- A worker and a monitor thread at a ready queue with a process.
use ift.Base.{◌+◌, ◌≡◌, min, refl, false, some, [], ◌∷◌, arith}
use ift.Sched.Process.{Processes, run_preempted, create_process, min_priority_level}
use ift.Sched.Level.Push.{insert}
use ift.Sched.Level.Search.{has}
use ift.Sched.Queue.{Queue, init, push}
use ift.Sched.Queue.Rep.{View, Holds, with_level, pushed, init-Holds, push-Holds}
use ift.Sched.Worker.{monitor, process_ran}
use ift.Sched.Worker.Placed.{Placed, process_ran-preempted}
use ift.Sched.Worker.Boost.{monitor-stays}

-- Process `n` has level 2.
abbrev procs : Processes
procs n = record (create_process n) { burst_length = n; priority_level = 2; status = run_preempted }

abbrev one : View
one = with_level (λ i. []) 2 (some 5 ∷ [])

five_waits : (q : Queue) × (push procs init (some 5) ≡ some q) × Holds q one
unfolding create_process insert
five_waits = push-Holds procs init (λ i. []) 5 init-Holds (omega arith) tt

monitor-stays_example :
    (procs' : Processes) × (q' : Queue) × (monitor procs five_waits.0 5 ≡ some (procs', q'))
    × Holds q' one
    × ((procs' 5).priority_level ≡ 1)
unfolding create_process has
monitor-stays_example = monitor-stays procs five_waits.0 one 5 five_waits.2 refl (omega arith) refl

process_ran-preempted_example :
    (procs' : Processes) × (q' : Queue) × (view' : View) × (process_ran
        (λ k x. x)
        procs
        init
        5
        run_preempted
        0
      ≡ some (procs', q', false))
    × ((procs' 5).priority_level ≡ min ((procs 5).priority_level + 1) min_priority_level)
    × (view' ≡ with_level (λ i. []) (procs' 5).priority_level (pushed procs' 5 []))
    × Holds q' view'
    × Placed procs' view'
process_ran-preempted_example =
    process_ran-preempted procs init (λ i. []) 5 0 init-Holds (λ i. tt) (λ i. tt) tt
