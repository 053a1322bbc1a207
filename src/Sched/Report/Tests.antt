-- ===== src/Sched/Report/Tests.antt =====
-- The report of a process with two bursts.
use ift.Base.{ℕ, ◌≡◌, refl, false, some, [], ◌∷◌, arith}
use ift.Sched.Os.{Os, Burst, ProcessInfo, CpuCtx}
use ift.Sched.Report.{os_print_report}
use ift.Sched.Report.Sums.{IsOrdered, sums_of}
use ift.Sched.Report.Figures.{divide, average_of, os_print_report-exact}

abbrev first : Burst
first = record {
  cpu_time = 3;
  io_time = 5;
  remaining = 0;
  arrival = 10;
  completion = 16;
  first_run = 12;
}

abbrev second : Burst
second = record {
  cpu_time = 3;
  io_time = 5;
  remaining = 0;
  arrival = 21;
  completion = 28;
  first_run = 24;
}

abbrev info : ProcessInfo
info = record {
  process = some 0;
  bursts = first ∷ second ∷ [];
  burst_cpu_index = 2;
  burst_io_index = 1;
  burst_count = 2;
  is_new = false;
  is_waiting = false;
  is_ready_at = 21;
}

abbrev os : Os
os = record { process_infos = info ∷ []; process_count = 1; process_done_count = 1 }

abbrev ctxs : ℕ → CpuCtx
ctxs i = record { last = some 0; total_ctx_switches = 1 }

first-IsOrdered : IsOrdered first
first-IsOrdered = record {
  arrives = omega arith;
  runs = omega arith;
  completes = omega arith;
  small = omega arith;
}

second-IsOrdered : IsOrdered second
second-IsOrdered = record {
  arrives = omega arith;
  runs = omega arith;
  completes = omega arith;
  small = omega arith;
}

os_print_report-exact_example :
    os_print_report os ctxs
    ≡ some (record {
      processes = average_of info ∷ [];
      average = divide (sums_of (first ∷ second ∷ [])) 2;
      max_response_time = 3;
      total_ctx_switches = 2;
    })
os_print_report-exact_example =
    os_print_report-exact os ctxs refl (omega arith)
      ((omega arith, refl, (first-IsOrdered, (second-IsOrdered, tt))), tt) (omega arith)
      (omega arith)
