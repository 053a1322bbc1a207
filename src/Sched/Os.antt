-- ===== src/Sched/Os.antt =====
-- tp2/src/os.c: the processes as the operating system sees them. Each function is what is done under
-- one lock of the mutex; the times are those that `os_time` returns. A process is its number in
-- `process_infos`, which is its pid. An assertion that fails has no result.
pub mod World
use ift.Base.{
  ℕ, zero, suc, ◌+◌, ◌-◌, ◌%◌, ◌^◌, Bool, true, false, not, ◌&&◌, ◌||◌, Option, none, some, List,
  [], ◌∷◌, map, ltb, leb, ◌==◌, if◌then◌else◌, length, get_elem?, set, modify, replicate, ◌>>=◌,
}
use ift.Sched.Process.{Status, run_done, run_blocked, run_preempted}

abbrev pub uint64 : ℕ → ℕ
uint64 n = n % 2 ^ 64

-- `burst_t`
pub record Burst : Type 0 where
  pub cpu_time : ℕ
  pub io_time : ℕ
  pub remaining : ℕ
  pub arrival : ℕ
  pub completion : ℕ
  pub first_run : ℕ

-- `process_info_t`
pub record ProcessInfo : Type 0 where
  pub process : Option ℕ
  pub bursts : List Burst
  pub burst_cpu_index : ℕ
  pub burst_io_index : ℕ
  pub burst_count : ℕ
  pub is_new : Bool
  pub is_waiting : Bool
  pub is_ready_at : ℕ

-- the static variables
pub record Os : Type 0 where
  pub process_infos : List ProcessInfo
  pub process_count : ℕ
  pub process_done_count : ℕ

-- `cpu_ctx_t`, without its worker
pub record CpuCtx : Type 0 where
  pub last : Option ℕ
  pub total_ctx_switches : ℕ

pub same_process : Option ℕ → ℕ → Bool
same_process none process = false
same_process (some last) process = last == process

pub os_switch_process : CpuCtx → ℕ → CpuCtx × Bool
unfolding same_process
os_switch_process cpu process = if same_process cpu.last process then (cpu, false) else (
  record { last = some process; total_ctx_switches = uint64 (cpu.total_ctx_switches + 1) },
  true,
)

-- What `os_run_user_mode` has found out when it runs the process: its local variables.
pub record Running : Type 0 where
  pub pid : ℕ
  pub current : ℕ
  pub burst : Burst
  pub preempted : Bool
  pub done : Bool
  pub time : ℕ

pub running_of : ℕ → ℕ → ProcessInfo → Burst → Running
running_of pid time_slice info burst =
    let preempted = ltb 0 time_slice && ltb time_slice burst.remaining in
    record {
      pid = pid;
      current = info.burst_cpu_index;
      burst = burst;
      preempted = preempted;
      done = not preempted && leb info.burst_count (uint64 (info.burst_cpu_index + 1));
      time = if preempted then time_slice else burst.remaining;
    }

pub enter_info : ℕ → ℕ → ProcessInfo → Option Running
unfolding running_of
enter_info pid time_slice info =
    if ltb info.burst_cpu_index info.burst_count
    then (get_elem? info.bursts info.burst_cpu_index >>= λ burst.
        some (running_of pid time_slice info burst))
    else none

-- `os_run_user_mode` up to its sleep
pub enter_user_mode : Os → ℕ → ℕ → Option Running
unfolding enter_info
enter_user_mode os pid time_slice =
    get_elem? os.process_infos pid >>= λ info. enter_info pid time_slice info

pub first_run_at : Running → ℕ → Burst → Burst
first_run_at r t1 burst =
    if r.burst.cpu_time == r.burst.remaining then record burst { first_run = t1 } else burst

-- the burst behind the sleep
pub ran_burst : Running → ℕ → ℕ → Burst → Burst
unfolding first_run_at
ran_burst r t1 t2 burst =
    let b = first_run_at r t1 burst in
    if r.preempted
    then record b { remaining = uint64 (b.remaining + (2 ^ 64 - r.time)) }
    else record b { remaining = 0; completion = t2 }

pub ran_info : Running → ℕ → ℕ → ProcessInfo → ProcessInfo
unfolding ran_burst
ran_info r t1 t2 info = record info {
  bursts = modify info.bursts r.current (ran_burst r t1 t2);
  burst_cpu_index = if r.preempted then info.burst_cpu_index else uint64 (info.burst_cpu_index + 1);
}

pub status_of : Running → Status
status_of r = if r.preempted then run_preempted else if r.done then run_done else run_blocked

-- `os_run_user_mode` behind its sleep
pub leave_user_mode : Os → Running → ℕ → ℕ → Os × Status
unfolding ran_info status_of
leave_user_mode os r t1 t2 = (
  record os {
    process_infos = modify os.process_infos r.pid (ran_info r t1 t2);
    process_done_count =
        if r.done then uint64 (os.process_done_count + 1) else os.process_done_count;
  },
  status_of r,
)

abbrev pub os_cores : ℕ
os_cores = 2

-- `os_run_process`, with the context of its core; `during` is what the other threads do to the
-- processes while it sleeps.
pub os_run_process :
    Os → CpuCtx → Option ℕ → ℕ → ℕ → (Os → Os) → ℕ → ℕ → Option (Os × CpuCtx × Status)
unfolding enter_user_mode leave_user_mode os_switch_process
os_run_process os ctx none core time_slice during t1 t2 = none
os_run_process os ctx (some process) core time_slice during t1 t2 =
    if ltb core os_cores
    then (enter_user_mode os process time_slice >>= λ r.
        let (os', status) = leave_user_mode (during os) r t1 t2 in
        some (os', (os_switch_process ctx process).0, status))
    else none

pub io_info : ℕ → ProcessInfo → Option ProcessInfo
io_info now info =
    if uint64 (info.burst_io_index + 1) == info.burst_cpu_index
    then (get_elem? info.bursts info.burst_io_index >>= λ burst. some (record info {
      is_ready_at = uint64 (now + burst.io_time);
      is_waiting = true;
      burst_io_index = uint64 (info.burst_io_index + 1);
    }))
    else none

-- `os_start_io`
pub os_start_io : Os → ℕ → ℕ → Option Os
unfolding io_info
os_start_io os pid now = get_elem? os.process_infos pid >>= λ info. io_info now info >>= λ info'.
    some (record os { process_infos = set os.process_infos pid info' })

-- A row of the file: the pid, the time of the arrival, and the numbers of the bursts. The count of its
-- bursts is taken to be one that `malloc` can serve and that the `int` of the loop over them reaches.
pub record Row : Type 0 where
  pub row_pid : ℕ
  pub row_arrival : ℕ
  pub row_burst_count : ℕ
  pub row_burst_time : ℕ
  pub row_io_time : ℕ

pub info_of : ℕ → Row → ProcessInfo
info_of now row = record {
  process = none;
  bursts = replicate row.row_burst_count (record {
    cpu_time = row.row_burst_time;
    io_time = row.row_io_time;
    remaining = row.row_burst_time;
    arrival = 0;
    completion = 0;
    first_run = 0;
  });
  burst_cpu_index = 0;
  burst_io_index = 0;
  burst_count = row.row_burst_count;
  is_new = true;
  is_waiting = true;
  is_ready_at = uint64 (now + row.row_arrival);
}

-- `os_parse_file` from the rows that `fscanf` reads, of which the first number is the count
pub os_parse_file : List Row → ℕ → Os
unfolding info_of
os_parse_file rows now = record {
  process_infos = map (info_of now) rows;
  process_count = length rows;
  process_done_count = 0;
}

pub move_to_ready : ProcessInfo → ℕ → Bool
move_to_ready info now =
    (info.is_waiting && leb info.is_ready_at now) || (info.is_new && leb info.is_ready_at now)

-- The process that becomes ready, with its `process_t` if it is new.
pub ready_info : ℕ → ℕ → ProcessInfo → Option ProcessInfo
ready_info i now info =
    let moved = record info {
      process = if info.is_new then some i else info.process;
      bursts = modify info.bursts info.burst_cpu_index (λ b. record b { arrival = now });
      is_waiting = false;
      is_new = false;
    } in
    if info.is_new && not (info.burst_cpu_index == 0)
    then none
    else if ltb info.burst_cpu_index (length info.bursts)
    then some moved
    else none

-- The body of the loops of `os_loop`, and whether the process is pushed into the ready queue. A write
-- behind the bursts has no result.
pub poll : Os → ℕ → ℕ → Option (Os × Bool)
unfolding move_to_ready ready_info
poll os i now = get_elem? os.process_infos i >>= λ info.
    if move_to_ready info now
    then (ready_info i now info >>= λ info'.
        some (record os { process_infos = set os.process_infos i info' }, true))
    else some (os, false)

-- the test that ends `os_loop`
pub all_done : Os → Bool
all_done os = leb os.process_count os.process_done_count
