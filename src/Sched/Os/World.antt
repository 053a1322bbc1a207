-- ===== src/Sched/Os/World.antt =====
-- The life of the processes: what the operating system and the workers do to them, in any order.
pub mod Lists
pub mod Fits
pub mod Ran
pub mod Count
pub mod Reach
pub mod Ends
pub mod Left
pub mod Time
pub mod Run
pub mod Spent
pub mod Live
mod Tests
use ift.Base.{
  ℕ, zero, suc, ◌+◌, Bool, true, false, Option, none, some, List, [], ◌∷◌, get_elem?, set, map, ◌≡◌,
  if◌then◌else◌,
}
use ift.Sched.Process.{Status, run_done, run_blocked, run_preempted, not_run}
use ift.Sched.Os.{
  Os, Row, Running, poll, enter_user_mode, leave_user_mode, os_start_io, os_parse_file,
}

-- Where a process is: with the operating system, in the ready queue, on a core, with a worker that
-- has seen it block, or nowhere.
pub data Phase : Type 0 where
  waiting ready blocked finished : Phase
  running : Running → Phase

pub record World : Type 0 where
  pub os : Os
  pub phases : List Phase

-- A turn of `os_loop` over a process, the two parts of `os_run_user_mode`, and `os_start_io`.
pub data Event : Type 0 where
  polls enters starts_io : ℕ → ℕ → Event
  leaves : ℕ → ℕ → ℕ → Event

-- `disabled` is an event that the phase of the process rules out, `fails` a failed assertion.
pub data Outcome : Type 0 where
  steps : World → Outcome
  disabled fails : Outcome

abbrev pub after_status : Status → Phase
after_status run_preempted = ready
after_status run_blocked = blocked
after_status run_done = finished
after_status not_run = ready

pub polled : World → ℕ → Option (Os × Bool) → Outcome
polled w i none = fails
polled w i (some (os, moved)) =
    steps (record { os = os; phases = if moved then set w.phases i ready else w.phases })

pub entered : World → ℕ → Option Running → Outcome
entered w i none = fails
entered w i (some r) = steps (record w { phases = set w.phases i (running r) })

pub started_io : World → ℕ → Option Os → Outcome
started_io w i none = fails
started_io w i (some os) = steps (record { os = os; phases = set w.phases i waiting })

pub left : World → ℕ → Os × Status → Outcome
left w i (os, status) = steps (record { os = os; phases = set w.phases i (after_status status) })

pub step_at : World → Event → Option Phase → Outcome
unfolding polled entered started_io left
step_at w e none = disabled
step_at w (polls i now) (some phase) = polled w i (poll w.os i now)
step_at w (enters i time_slice) (some ready) = entered w i (enter_user_mode w.os i time_slice)
step_at w (leaves i t1 t2) (some (running r)) = left w i (leave_user_mode w.os r t1 t2)
step_at w (starts_io i now) (some blocked) = started_io w i (os_start_io w.os i now)
step_at w e (some phase) = disabled

abbrev pub process_of : Event → ℕ
process_of (polls i now) = i
process_of (enters i time_slice) = i
process_of (leaves i t1 t2) = i
process_of (starts_io i now) = i

pub step : World → Event → Outcome
unfolding step_at
step w e = step_at w e (get_elem? w.phases (process_of e))

pub start : List Row → ℕ → World
start rows now = record { os = os_parse_file rows now; phases = map (λ row. waiting) rows }

abbrev pub time_of : Option Phase → ℕ
time_of (some (running r)) = r.time
time_of (some waiting) = 0
time_of (some ready) = 0
time_of (some blocked) = 0
time_of (some finished) = 0
time_of none = 0

-- the time that a process has run at the end of an event
abbrev pub spent : World → Event → ℕ
spent w (leaves i t1 t2) = time_of (get_elem? w.phases i)
spent w (polls i now) = 0
spent w (enters i time_slice) = 0
spent w (starts_io i now) = 0

-- The worlds that a sequence of events leads to, with the time that processes have run.
pub data Reachable (w : World) : ℕ → World → Type 0 where
  here : Reachable w 0 w
  onward :
      (n : ℕ) (v u : World) (e : Event)
      → Reachable w n v
      → step v e ≡ steps u
      → Reachable w (n + spent v e) u
