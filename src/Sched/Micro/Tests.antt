-- ===== src/Sched/Micro/Tests.antt =====
-- A process with a burst of 200 that runs for a quantum of 300.
use ift.Base.{refl, true, false, some, none, [], ◌∷◌, arith}
use ift.Sched.Process.{Process, create_process}
use ift.Sched.Os.{Os, Burst, ProcessInfo, CpuCtx}
use ift.Sched.Os.World.{ready}
use ift.Sched.Os.World.Spent.{Uses}
use ift.Sched.Micro.{Turn, run_quantum}
use ift.Sched.Micro.Quantum.{Ends, piece, run_quantum-Ends}

abbrev burst : Burst
burst = record {
  cpu_time = 200;
  io_time = 5;
  remaining = 200;
  arrival = 0;
  completion = 0;
  first_run = 0;
}

abbrev info : ProcessInfo
info = record {
  process = some 0;
  bursts = burst ∷ [];
  burst_cpu_index = 0;
  burst_io_index = 0;
  burst_count = 1;
  is_new = false;
  is_waiting = false;
  is_ready_at = 0;
}

abbrev os : Os
os = record { process_infos = info ∷ []; process_count = 1; process_done_count = 0 }

abbrev ctx : CpuCtx
ctx = record { last = none; total_ctx_switches = 0 }

abbrev turn : Turn
turn = record {
  before = λ o. o;
  during = λ o. o;
  start_time = 0;
  end_time = 140;
  t1 = 20;
  t2 = 140;
  locked = true;
  highest_size = 0;
}

abbrev process : Process
process = record (create_process 0) { priority_level = 1 }

Uses-ready : Uses 0 0 200 ready os
Uses-ready = record {
  info = info;
  found = refl;
  fits = (
    record { size = refl; small = omega arith; timed = ((omega arith, omega arith), tt) },
    record { in_step = refl; more = omega arith },
    record { not_waiting = refl; not_new = refl },
  );
  burst = burst;
  burst_at = refl;
  remaining = refl;
  current = λ e. refl;
}

run_quantum-Ends_example :
    Ends 0 300
      (piece 300 process)
      (λ k. turn)
      0
      200
      (run_quantum 0 0 300 (λ k. turn) os ctx process)
run_quantum-Ends_example =
    run_quantum-Ends 0 0 300 0 200 (λ k. turn) (omega arith) (λ k. (λ o. refl, λ o. refl))
      (omega arith) (omega arith) os ctx process Uses-ready
