-- ===== src/Sched/Process.antt =====
-- tp2/src/process.c and process.h. A pointer to a process is a number, and the processes are a
-- function from such numbers.
use ift.Base.{ℕ, Bool, false, ◌+◌, ◌%◌, ◌^◌}

abbrev pub num_priority_levels : ℕ
num_priority_levels = 4

abbrev pub max_priority_level : ℕ
max_priority_level = 0

abbrev pub min_priority_level : ℕ
min_priority_level = 3

abbrev pub default_priority_level : ℕ
default_priority_level = max_priority_level

abbrev pub initial_quantum : ℕ
initial_quantum = 500

-- `OS_RUN_DONE`, `OS_RUN_BLOCKED`, `OS_RUN_PREEMPTED`, and the -1 of a process that has not run
pub data Status : Type 0 where
  run_done run_blocked run_preempted not_run : Status

pub record Process : Type 0 where
  pub pid : ℕ
  pub burst_length : ℕ
  pub io_length : ℕ
  pub priority_level : ℕ
  pub status : Status
  pub found_burst : Bool
  pub found_io : Bool
  pub already_executed : Bool
  pub waiting_boost : Bool

-- `create_process`
unfoldable pub create_process : ℕ → Process
create_process pid = record {
  pid = pid;
  burst_length = 0;
  io_length = 0;
  priority_level = default_priority_level;
  status = not_run;
  found_burst = false;
  found_io = false;
  already_executed = false;
  waiting_boost = false;
}

abbrev pub Processes : Type 0
Processes = ℕ → Process

-- `burst_length + io_length`, in a `uint64_t`
abbrev pub length_of : Process → ℕ
length_of p = (p.burst_length + p.io_length) % 2 ^ 64
