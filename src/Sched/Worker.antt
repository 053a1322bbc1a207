-- ===== src/Sched/Worker.antt =====
-- tp2/src/worker.c: what a worker and a monitor thread do to a process and to the ready queue. Time
-- and the float product of `get_quantum` are parameters. The mutex of a process makes the updates of
-- its fields one step each; what the other threads do between two such steps is a parameter.
mod Tests
pub mod Placed
pub mod Boost
pub mod Statuses
pub mod Quantum
use ift.Base.{
  ℕ, zero, suc, ◌+◌, ◌-◌, ◌^◌, min, Bool, true, false, not, Option, none, some, ◌==◌, ltb,
  if◌then◌else◌, ◌>>=◌,
}
use ift.Sched.Process.{
  Process, Processes, Status, run_done, run_blocked, run_preempted, not_run, max_priority_level,
  min_priority_level, initial_quantum,
}
use ift.Sched.Queue.{Queue, push, remove, add_to_quantum_average, remove_from_quantum_average}

unfoldable pub set_process : Processes → ℕ → Process → Processes
set_process procs p v r = if r == p then v else procs r

-- `get_quantum`; `scale` is the product with the constant of the level, without its fraction. A
-- product that is no `int` has no result.
pub get_quantum : (ℕ → ℕ → ℕ) → Queue → ℕ → Option ℕ
get_quantum scale q priority =
    let quantum = scale q.quantum priority in
    if priority == max_priority_level
    then some 1
    else if ltb quantum (2 ^ 31)
    then some (if quantum == 0 then initial_quantum else quantum)
    else none

-- The new level of `update_priority_level`, and whether a monitor thread is started.
pub new_level : Process → Process × Bool
new_level v = elim v.status [
  | run_preempted ↦ (
    record v {
      priority_level = min (v.priority_level + 1) min_priority_level;
      waiting_boost = true;
    },
    not v.waiting_boost,
  )
  | run_blocked ↦ (record v { priority_level = max_priority_level }, false)
  | run_done ↦ (record v { priority_level = max_priority_level }, false)
  | not_run ↦ (v, false)
]

pub update_priority_level : Processes → ℕ → Processes × Bool
unfolding new_level set_process
update_priority_level procs p =
    let (v, monitored) = new_level (procs p) in (set_process procs p v, monitored)

-- the level of a boosted process
abbrev pub boost_level : Status → ℕ
boost_level run_blocked = max_priority_level
boost_level _ = max_priority_level + 1

abbrev pub is_done : Status → Bool
is_done run_done = true
is_done _ = false

-- The removal and the push of `priority_monitor_thread`.
pub requeue : Processes → Queue → ℕ → Option Queue
requeue procs q p = remove procs q (some p) >>= λ (was_removed, q').
    if was_removed then push procs q' (some p) else some q'

-- `priority_monitor_thread` behind its sleep
pub monitor : Processes → Queue → ℕ → Option (Processes × Queue)
unfolding requeue set_process
monitor procs q p =
    let v = procs p in
    let level = boost_level v.status in
    let boosted = set_process procs p (record v { priority_level = level }) in
    let settle : Processes → Processes =
      λ ps. set_process ps p (record (ps p) { waiting_boost = false }) in
    if is_done v.status
    then some (settle procs, q)
    else if ltb level v.priority_level
    then (requeue boosted q p >>= λ q'. some (settle boosted, q'))
    else some (settle procs, q)

-- The `switch` of `worker_run` behind the run of a process; `elapsed` is the time that the call of
-- `os_start_io` took. The last result says whether an input or output was started.
pub after_run : Processes → Queue → ℕ → ℕ → Option (Processes × Queue × Bool)
unfolding set_process
after_run procs q p elapsed =
    let v = procs p in
    elim v.status [
      | run_preempted ↦ (push procs q (some p) >>= λ q'. some (procs, q', false))
      | run_blocked ↦ some (
        set_process procs p (record v {
          found_burst = true;
          io_length = if v.found_io then v.io_length else elapsed;
        }),
        add_to_quantum_average q v,
        true,
      )
      | run_done ↦
          (remove_from_quantum_average q v >>= λ q'.
          some
            (set_process procs p (record v { found_burst = false; burst_length = 0 }), q', false))
      | not_run ↦ some (procs, q, false)
    ]

-- What a worker does when a process stopped running with a status: three sections under the mutex of
-- the process. `others` is what the other threads do before the second one and before the third one.
pub process_ran :
    (ℕ → Processes × Queue → Processes × Queue)
    → Processes
    → Queue
    → ℕ
    → Status
    → ℕ
    → Option (Processes × Queue × Bool)
unfolding update_priority_level after_run
process_ran others procs q p status elapsed =
    let ran = set_process procs p (record (procs p) { status = status }) in
    let (procs', q') = others 0 (ran, q) in
    let (procs'', q'') = others 1 ((update_priority_level procs' p).0, q') in
    after_run procs'' q'' p elapsed
