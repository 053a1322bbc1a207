-- ===== src/Sched/Report.antt =====
-- tp2/src/os.c: the figures of the report. The score, a division of doubles, is left out, as is the
-- printing.
pub mod Sums
pub mod Figures
mod Tests
use ift.Base.{
  ℕ, zero, suc, ◌+◌, ◌-◌, ◌/◌, ◌%◌, ◌^◌, Bool, Option, none, some, List, [], ◌∷◌, ltb, ◌==◌,
  if◌then◌else◌, take, ◌>>=◌,
}
use ift.Sched.Os.{uint64, Burst, ProcessInfo, CpuCtx, Os, os_cores}

abbrev pub minus64 : ℕ → ℕ → ℕ
minus64 a b = uint64 (a + (2 ^ 64 - b))

-- the times of a burst, and the sums of them
pub record Times : Type 0 where
  pub burst_time : ℕ
  pub turnaround_time : ℕ
  pub wait_time : ℕ
  pub response_time : ℕ

pub times_of : Burst → Times
times_of b = record {
  burst_time = b.cpu_time;
  turnaround_time = minus64 b.completion b.arrival;
  wait_time = minus64 (minus64 b.completion b.arrival) b.cpu_time;
  response_time = minus64 b.first_run b.arrival;
}

abbrev pub no_times : Times
no_times = record { burst_time = 0; turnaround_time = 0; wait_time = 0; response_time = 0 }

pub add_times : Times → Times → Times
add_times s t = record {
  burst_time = uint64 (s.burst_time + t.burst_time);
  turnaround_time = uint64 (s.turnaround_time + t.turnaround_time);
  wait_time = uint64 (s.wait_time + t.wait_time);
  response_time = uint64 (s.response_time + t.response_time);
}

-- The loop over the bursts of a process: the sums, and the longest response so far.
pub sum_bursts : List Burst → Times → ℕ → Times × ℕ
unfolding add_times times_of
sum_bursts [] sums longest = (sums, longest)
sum_bursts (b ∷ bs) sums longest =
    let t = times_of b in
    sum_bursts bs (add_times sums t)
      (if ltb longest t.response_time then t.response_time else longest)

-- the averages; a division by zero has no result
pub averages : Times → ℕ → Option Times
averages sums n =
    if n == 0
    then none
    else some (record {
      burst_time = sums.burst_time / n;
      turnaround_time = sums.turnaround_time / n;
      wait_time = sums.wait_time / n;
      response_time = sums.response_time / n;
    })

-- the variables of the report: `total_` and `max_response_time`
pub record Totals : Type 0 where
  pub times : Times
  pub max_response_time : ℕ
  pub total_bursts : ℕ

pub add_process : ProcessInfo → Totals → Totals
unfolding sum_bursts add_times
add_process info totals =
    let (sums, longest) =
      sum_bursts (take info.burst_count info.bursts) no_times totals.max_response_time in
    record {
      times = add_times totals.times sums;
      max_response_time = longest;
      total_bursts = uint64 (totals.total_bursts + info.burst_count);
    }

-- the averages of a process
pub process_averages : ProcessInfo → Option Times
unfolding sum_bursts averages
process_averages info =
    averages (sum_bursts (take info.burst_count info.bursts) no_times 0).0 info.burst_count

-- The loop over the processes, with the averages of each.
pub sum_processes : List ProcessInfo → Totals → Option (List Times × Totals)
unfolding add_process process_averages
sum_processes [] totals = some ([], totals)
sum_processes (info ∷ infos) totals = process_averages info >>= λ avg.
    sum_processes infos (add_process info totals) >>= λ (avgs, totals'). some (avg ∷ avgs, totals')

abbrev pub no_totals : Totals
no_totals = record { times = no_times; max_response_time = 0; total_bursts = 0 }

pub sum_switches : ℕ → (ℕ → CpuCtx) → ℕ
sum_switches zero ctxs = 0
sum_switches (suc n) ctxs = uint64 (sum_switches n ctxs + (ctxs n).total_ctx_switches)

-- what is printed
pub record Report : Type 0 where
  pub processes : List Times
  pub average : Times
  pub max_response_time : ℕ
  pub total_ctx_switches : ℕ

pub report_of : (ℕ → CpuCtx) → List Times × Totals → Option Report
unfolding averages sum_switches
report_of ctxs (avgs, totals) = averages totals.times totals.total_bursts >>= λ avg. some (record {
  processes = avgs;
  average = avg;
  max_response_time = totals.max_response_time;
  total_ctx_switches = sum_switches os_cores ctxs;
})

pub os_print_report : Os → (ℕ → CpuCtx) → Option Report
unfolding sum_processes report_of
os_print_report os ctxs =
    sum_processes (take os.process_count os.process_infos) no_totals >>= report_of ctxs
