-- ===== src/Sched/Micro.antt =====
-- tp2/src/worker.c: the loop of `worker_run` that runs a process for its quantum in pieces.
pub mod Quantum
mod Tests
use ift.Base.{
  ℕ, zero, suc, ◌+◌, ◌-◌, ◌%◌, ◌^◌, min, Bool, true, false, not, ◌&&◌, Option, none, some, ◌==◌,
  ltb, if◌then◌else◌,
}
use ift.Sched.Process.{
  Process, Status, run_done, run_blocked, run_preempted, not_run, max_priority_level,
}
use ift.Sched.Os.{Os, CpuCtx, uint64, os_run_process}

abbrev pub micro_quantum_max : ℕ
micro_quantum_max = 120

-- `min` takes two values of type `int` and gives one: the quantum is cut to 32 bits, and a negative
-- answer is a large `uint64_t`.
unfoldable pub micro_quantum : ℕ → ℕ
micro_quantum quantum =
    let low = quantum % 2 ^ 32 in
    if ltb low (2 ^ 31) then min micro_quantum_max low else low + (2 ^ 64 - 2 ^ 32)

-- What a worker meets in a turn: what the other threads do to the processes before and during the
-- run, the times that it reads, the times of the run, whether `pthread_mutex_trylock` locks the mutex,
-- and the size of the highest level.
pub record Turn : Type 0 where
  pub before : Os → Os
  pub during : Os → Os
  pub start_time : ℕ
  pub end_time : ℕ
  pub t1 : ℕ
  pub t2 : ℕ
  pub locked : Bool
  pub highest_size : ℕ

-- How the loop ends: with the number of runs, and with the mutex held or not.
pub data Micro : Type 0 where
  stops : Os → CpuCtx → Process → Bool → ℕ → Micro
  asserts : Micro
  out_of_fuel : Micro

-- the update of the process behind a run
unfoldable pub ran_process : Turn → Status → Process → Process
ran_process t status v = record v {
  status = status;
  burst_length =
      if v.found_burst
      then v.burst_length
      else uint64 (v.burst_length + uint64 (t.end_time + (2 ^ 64 - t.start_time)));
}

-- A process of the highest level waits, and this worker is the one that saw it.
unfoldable pub is_preempted : Turn → Bool
is_preempted t = t.locked && not (t.highest_size == 0)

-- It keeps the mutex when there is one such process.
unfoldable pub keeps_mutex : Turn → Bool
keeps_mutex t = t.locked && t.highest_size == 1

abbrev pub has_left : Status → Bool
has_left run_blocked = true
has_left run_done = true
has_left run_preempted = false
has_left not_run = false

module _ (p core quantum : ℕ) (turns : ℕ → Turn) where
  -- the loop behind the run of turn `n`, with `rest` for what follows when it goes on
  pub after_micro :
      ℕ → Process → Option (Os × CpuCtx × Status) → (Os → CpuCtx → Process → Micro) → Micro
  unfolding ran_process is_preempted keeps_mutex
  after_micro n v none rest = asserts
  after_micro n v (some (os, ctx, status)) rest =
      let v' = ran_process (turns n) status v in
      let more = rest os ctx v' in
      if is_preempted (turns n)
      then stops os ctx v' (keeps_mutex (turns n)) (suc n)
      else if has_left status
      then stops os ctx v' false (suc n)
      else more

  -- the loop in its turn `n`
  pub micro_loop : ℕ → ℕ → ℕ → Os → CpuCtx → Process → Micro
  unfolding after_micro micro_quantum
  micro_loop zero n i os ctx v = out_of_fuel
  micro_loop (suc fuel) n i os ctx v =
      let t = turns n in
      let run =
        after_micro n v
          (os_run_process (t.before os) ctx (some p) core (micro_quantum quantum) t.during t.t1
            t.t2)
          (micro_loop fuel (suc n) (uint64 (i + micro_quantum quantum))) in
      if ltb i quantum then run else stops os ctx v false n

  -- the run at the highest level, in one piece
  pub full_run : Process → Turn → Option (Os × CpuCtx × Status) → Micro
  full_run v t none = asserts
  full_run v t (some (os, ctx, status)) = stops os ctx (ran_process t status v) false 1

  -- the run of `worker_run`; each turn takes one from the quantum at least
  pub run_quantum : Os → CpuCtx → Process → Micro
  unfolding micro_loop full_run
  run_quantum os ctx v =
      let t = turns 0 in
      let whole =
        full_run v t (os_run_process (t.before os) ctx (some p) core quantum t.during t.t1 t.t2) in
      let pieces = micro_loop (suc quantum) 0 0 os ctx v in
      if v.priority_level == max_priority_level then whole else pieces
