-- ===== src/Sched/Turn.antt =====
-- tp2/src/worker.c: a turn of the loop of `worker_run`, which joins the ready queue, the run of a
-- quantum and the operating system.
pub mod Follows
mod Tests
use ift.Base.{ℕ, Bool, true, false, Option, none, some, if◌then◌else◌}
use ift.Sched.Process.{Process, Processes, Status}
use ift.Sched.Queue.{Queue, pop}
use ift.Sched.Os.{Os, CpuCtx, os_start_io}
use ift.Sched.Worker.{set_process, get_quantum, process_ran}
use ift.Sched.Micro
use ift.Sched.Micro.{Micro, run_quantum}

-- What a worker meets in a turn: the turns of the run, what the other threads do to the processes and
-- to the ready queue between the steps behind the run, and the times around `os_start_io`.
pub record Around : Type 0 where
  pub turns : ℕ → Micro.Turn
  pub others : ℕ → Processes × Queue → Processes × Queue
  pub elapsed : ℕ
  pub now : ℕ

-- How a turn ends: it waits, the worker stops at a poison pill, it goes on with or without the mutex,
-- or a call has no result.
pub data Worked : Type 0 where
  goes_on : Os → CpuCtx → Processes → Queue → Bool → Worked
  waits no_more asserts out_of_fuel no_result : Worked

-- `os_start_io`, which the `switch` calls for a process that is blocked
pub with_io : Os → ℕ → ℕ → Bool → Option Os
with_io os p now io = if io then os_start_io os p now else some os

pub finish : CpuCtx → Processes → Queue → Bool → Option Os → Worked
finish ctx procs q held none = asserts
finish ctx procs q held (some os) = goes_on os ctx procs q held

pub settle : Around → ℕ → Os → CpuCtx → Bool → Option (Processes × Queue × Bool) → Worked
unfolding with_io finish
settle a p os ctx held none = no_result
settle a p os ctx held (some (procs, q, io)) = finish ctx procs q held (with_io os p a.now io)

-- behind the run
pub after_quantum : Around → ℕ → Processes → Queue → Micro → Worked
unfolding settle
after_quantum a p procs q Micro.asserts = asserts
after_quantum a p procs q Micro.out_of_fuel = out_of_fuel
after_quantum a p procs q (Micro.stops os ctx v held n) =
    settle a p os ctx held (process_ran a.others (set_process procs p v) q p v.status a.elapsed)

-- the run of process `p`, of a quantum that is an `int`
pub with_quantum : ℕ → Around → Os → CpuCtx → Processes → ℕ → Queue → Option ℕ → Worked
unfolding after_quantum
with_quantum core a os ctx procs p q none = no_result
with_quantum core a os ctx procs p q (some quantum) =
    after_quantum a p procs q (run_quantum p core quantum a.turns os ctx (procs p))

pub worked : (ℕ → ℕ → ℕ) → ℕ → Around → Os → CpuCtx → Processes → Option (Option ℕ × Queue) → Worked
unfolding with_quantum
worked scale core a os ctx procs none = waits
worked scale core a os ctx procs (some (none, q)) = no_more
worked scale core a os ctx procs (some (some p, q)) =
    with_quantum core a os ctx procs p q (get_quantum scale q (procs p).priority_level)

-- The body of the loop.
pub worker_turn : (ℕ → ℕ → ℕ) → ℕ → Around → Os → CpuCtx → Processes → Queue → Worked
unfolding worked
worker_turn scale core a os ctx procs q = worked scale core a os ctx procs (pop q)
