-- ===== src/Sched/Turn/Follows.antt =====
-- A turn of a worker fits what the operating system holds of the process.
use ift.Base.{ℕ, ◌-◌, ◌*◌, refl, ◌^◌, ◌<◌, ◌≡◌, sym, subst, Bool, Option, none, some, Yields-some}
use ift.Sched.Process.{Processes, Status, run_done, run_blocked, run_preempted, not_run}
use ift.Sched.Queue.{Queue, pop}
use ift.Sched.Os.{Os, CpuCtx, os_cores, os_start_io}
use ift.Sched.Os.World.{Phase, waiting, ready, after_status}
use ift.Sched.Os.World.Run.{At, os_start_io-At}
use ift.Sched.Os.World.Spent.{At-Uses, Uses-At}
use ift.Sched.Worker.{set_process, get_quantum, process_ran}
use ift.Sched.Worker.Statuses.{Tells, is_blocked, KeepsStatus, process_ran-Tells}
use ift.Sched.Worker.Quantum.{get_quantum-bounds}
use ift.Sched.Micro.{Micro}
use ift.Sched.Micro.Quantum.{Quiet, Ends, piece, run_quantum-Ends}
use ift.Sched.Turn.{
  Around, Worked, goes_on, waits, no_more, asserts, out_of_fuel, no_result, with_io, finish, settle,
  after_quantum, with_quantum, worked, worker_turn,
}

-- Where a process is behind a turn that ended with a status: a blocked one waits for its input or
-- output.
abbrev place_of : Status → Phase
place_of run_blocked = waiting
place_of run_done = after_status run_done
place_of run_preempted = ready
place_of not_run = ready

-- The run ends, no assertion fails, and if the calls on the ready queue return, the process is where
-- its status says.
abbrev pub Follows : ℕ → Worked → Type 0
Follows p (goes_on os ctx procs q held) = At p (place_of (procs p).status) os
Follows p waits = Unit
Follows p no_more = Unit
Follows p no_result = Unit
Follows p asserts = ⊥
Follows p out_of_fuel = ⊥

finish-Follows :
    (p now : ℕ) (os : Os) (ctx : CpuCtx) (procs : Processes) (q : Queue) (held : Bool) (s : Status)
    → (procs p).status ≡ s
    → At p (after_status s) os
    → Follows p (finish ctx procs q held (with_io os p now (is_blocked s)))
unfolding finish with_io
finish-Follows p now os ctx procs q held run_blocked e h =
    let (os', f, h') =
      Yields-some (At p waiting) (os_start_io os p now) (os_start_io-At os p now h) in
    rw f (subst (λ s. At p (place_of s) os') (sym e) h')
finish-Follows p now os ctx procs q held run_done e h = subst (λ s. At p (place_of s) os) (sym e) h
finish-Follows p now os ctx procs q held run_preempted e h =
    subst (λ s. At p (place_of s) os) (sym e) h
finish-Follows p now os ctx procs q held not_run e h = subst (λ s. At p (place_of s) os) (sym e) h

settle-Follows :
    (a : Around) (p : ℕ) (os : Os) (ctx : CpuCtx) (held : Bool) (s : Status)
    (o : Option (Processes × Queue × Bool))
    → Tells p s o
    → At p (after_status s) os
    → Follows p (settle a p os ctx held o)
unfolding settle
settle-Follows a p os ctx held s none t h = tt
settle-Follows a p os ctx held s (some (procs, q, io)) (e, f) h =
    subst (λ b. Follows p (finish ctx procs q held (with_io os p a.now b))) (sym f)
      (finish-Follows p a.now os ctx procs q held s e h)

after_quantum-Follows :
    (a : Around) (p quantum slice k left : ℕ) (procs : Processes) (q : Queue) (m : Micro)
    → KeepsStatus p a.others
    → Ends p quantum slice a.turns k left m
    → Follows p (after_quantum a p procs q m)
unfolding after_quantum
after_quantum-Follows a p quantum slice k left procs q Micro.asserts keeps h = absurd h
after_quantum-Follows a p quantum slice k left procs q Micro.out_of_fuel keeps h = absurd h
after_quantum-Follows a p quantum slice k left procs q (Micro.stops os ctx v held n) keeps h =
    let procs' = set_process procs p v in
    settle-Follows a p os ctx held v.status (process_ran a.others procs' q p v.status a.elapsed)
      (process_ran-Tells a.others procs' q p a.elapsed v.status keeps)
      (Uses-At p k (left - n * slice) (after_status v.status) os h.3)

with_quantum-Follows :
    (core p : ℕ) (a : Around) (os : Os) (ctx : CpuCtx) (procs : Processes) (q : Queue)
    (o : Option ℕ)
    → ((quantum : ℕ) → o ≡ some quantum → (0 < quantum) × (quantum < 2 ^ 31))
    → core < os_cores
    → Quiet p a.turns
    → KeepsStatus p a.others
    → At p ready os
    → Follows p (with_quantum core a os ctx procs p q o)
unfolding with_quantum
with_quantum-Follows core p a os ctx procs q none bounds in_range quiet keeps h = tt
with_quantum-Follows core p a os ctx procs q (some quantum) bounds in_range quiet keeps h =
    let (k, left, uses) = At-Uses p os h in
    let (positive, small) = bounds quantum refl in
    after_quantum-Follows a p quantum (piece quantum (procs p)) k left procs q _ keeps (
      run_quantum-Ends p core quantum k left a.turns in_range quiet positive small os ctx (procs p)
        uses)

-- A worker that pops a ready process, which the other threads leave alone while it runs and whose
-- status they leave alone behind the run: no assertion fails in its turn, the run ends, and behind the
-- turn, when the quantum is an `int` and the calls on the ready queue return, the process is ready,
-- finished, or waiting for its input or output, as its status says.
pub worker_turn-Follows :
    (scale : ℕ → ℕ → ℕ) (core p : ℕ) (a : Around) (os : Os) (ctx : CpuCtx) (procs : Processes)
    (q q' : Queue)
    → core < os_cores
    → Quiet p a.turns
    → KeepsStatus p a.others
    → pop q ≡ some (some p, q')
    → At p ready os
    → Follows p (worker_turn scale core a os ctx procs q)
unfolding worker_turn worked
worker_turn-Follows scale core p a os ctx procs q q' in_range quiet keeps popped h = rw popped (
    with_quantum-Follows core p a os ctx procs q' (get_quantum scale q' (procs p).priority_level)
      (get_quantum-bounds scale q' (procs p).priority_level) in_range quiet keeps h)
