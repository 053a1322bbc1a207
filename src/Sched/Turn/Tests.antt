-- ===== src/Sched/Turn/Tests.antt =====
-- A worker pops a process from the second level and runs it.
use ift.Base.{◌≡◌, refl, true, false, some, none, [], ◌∷◌, arith, ◌==◌, if◌then◌else◌}
use ift.Sched.Process.{Processes, create_process}
use ift.Sched.Level.{Level, pop_head}
use ift.Sched.Queue.{Queue, empty_level, set_level, first_level, pop}
use ift.Sched.Os.{Os, Burst, ProcessInfo, CpuCtx}
use ift.Sched.Os.World.{ready}
use ift.Sched.Os.World.Run.{At}
use ift.Sched.Turn.{Around, worker_turn}
use ift.Sched.Turn.Follows.{Follows, worker_turn-Follows}

abbrev burst : Burst
burst = record {
  cpu_time = 200;
  io_time = 5;
  remaining = 200;
  arrival = 0;
  completion = 0;
  first_run = 0;
}

abbrev info : ProcessInfo
info = record {
  process = some 0;
  bursts = burst ∷ burst ∷ [];
  burst_cpu_index = 0;
  burst_io_index = 0;
  burst_count = 2;
  is_new = false;
  is_waiting = false;
  is_ready_at = 0;
}

abbrev os : Os
os = record { process_infos = info ∷ []; process_count = 1; process_done_count = 0 }

abbrev ctx : CpuCtx
ctx = record { last = none; total_ctx_switches = 0 }

abbrev around : Around
around = record {
  turns = λ k. record {
    before = λ o. o;
    during = λ o. o;
    start_time = 0;
    end_time = 140;
    t1 = 20;
    t2 = 140;
    locked = true;
    highest_size = 0;
  };
  others = λ k x. x;
  elapsed = 0;
  now = 300;
}

abbrev procs : Processes
procs p = record (create_process p) { priority_level = 1 }

abbrev level : Level
level = record {
  cells = λ c. record { process = some 0; next = none; prev = none };
  fresh = 1;
  head = some 0;
  tail = some 0;
  size = 1;
}

abbrev queue : Queue
queue = record {
  levels = λ i. if i == 1 then level else empty_level;
  quantum = 300;
  quantum_counter = 1;
}

At-ready : At 0 ready os
At-ready = (
  info,
  refl,
  (
    record {
      size = refl;
      small = omega arith;
      timed = ((omega arith, omega arith), ((omega arith, omega arith), tt));
    },
    record { in_step = refl; more = omega arith },
    record { not_waiting = refl; not_new = refl },
  ),
)

popped : pop queue ≡ some (some 0, set_level queue 1 (pop_head level).1)
unfolding pop first_level pop_head
popped = refl

worker_turn-Follows_example : Follows 0 (worker_turn (λ quantum i. 150) 0 around os ctx procs queue)
worker_turn-Follows_example =
    worker_turn-Follows (λ quantum i. 150) 0 0 around os ctx procs queue
      (set_level queue 1 (pop_head level).1) (omega arith) (λ k. (λ o. refl, λ o. refl))
      (λ k procs q. refl) popped At-ready
