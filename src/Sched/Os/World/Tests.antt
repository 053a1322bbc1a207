-- ===== src/Sched/Os/World/Tests.antt =====
-- A process with two bursts of 3, from its arrival to its end.
use ift.Base.{ℕ, true, ◌≡◌, refl, List, [], ◌∷◌, arith}
use ift.Sched.Os.{
  Row, os_parse_file, poll, enter_user_mode, leave_user_mode, status_of, os_start_io, all_done,
}
use ift.Sched.Os.World.{
  World, Event, polls, enters, leaves, starts_io, Outcome, steps, disabled, fails, step, start,
  Reachable, here, onward,
}
use ift.Sched.Os.World.Reach.{Safe}
use ift.Sched.Os.World.Ends.{start-Safe}
use ift.Sched.Os.World.Live.{all_done-Reachable}
use ift.Sched.Os.World.Time.{all_done-total, total_time}

abbrev row : Row
row = record {
  row_pid = 0;
  row_arrival = 0;
  row_burst_count = 2;
  row_burst_time = 3;
  row_io_time = 5;
}

abbrev rows : List Row
rows = row ∷ []

abbrev world_of : World → Outcome → World
world_of w (steps v) = v
world_of w disabled = w
world_of w fails = w

next : World → Event → World
unfolding step
next w e = world_of w (step w e)

w0 : World
unfolding start
w0 = start rows 0

w1 : World
unfolding w0 next
w1 = next w0 (polls 0 0)

w2 : World
unfolding w1
w2 = next w1 (enters 0 2)

w3 : World
unfolding w2
w3 = next w2 (leaves 0 1 3)

w4 : World
unfolding w3
w4 = next w3 (enters 0 0)

w5 : World
unfolding w4
w5 = next w4 (leaves 0 3 4)

w6 : World
unfolding w5
w6 = next w5 (starts_io 0 4)

w7 : World
unfolding w6
w7 = next w6 (polls 0 9)

w8 : World
unfolding w7
w8 = next w7 (enters 0 0)

w9 : World
unfolding w8
w9 = next w8 (leaves 0 9 12)

blocks : Reachable (start rows 0) 3 w5
unfolding w5 os_parse_file poll enter_user_mode leave_user_mode status_of
blocks =
    onward 2 w4 w5 (leaves 0 3 4)
      (onward 2 w3 w4 (enters 0 0)
        (onward 0 w2 w3 (leaves 0 1 3)
          (onward 0 w1 w2 (enters 0 2) (onward 0 w0 w1 (polls 0 0) here refl) refl) refl)
        refl)
      refl

ends : Reachable (start rows 0) 6 w9
unfolding w9 os_parse_file poll enter_user_mode leave_user_mode status_of os_start_io
ends =
    onward 3 w8 w9 (leaves 0 9 12)
      (onward 3 w7 w8 (enters 0 0)
        (onward 3 w6 w7 (polls 0 9) (onward 3 w5 w6 (starts_io 0 4) blocks refl) refl) refl)
      refl

start-Safe_example : Safe (step w5 (starts_io 0 4))
start-Safe_example =
    start-Safe rows 0 ((omega arith, omega arith, omega arith), tt) (omega arith) 3 w5
      (starts_io 0 4) blocks

all_done-total_example : 6 ≡ total_time rows
unfolding w9 os_parse_file poll enter_user_mode leave_user_mode status_of os_start_io all_done
all_done-total_example =
    all_done-total rows 0 ((omega arith, omega arith, omega arith), tt) (omega arith) 6 w9 ends refl

all_done-Reachable_example : (m : ℕ) × (v : World) × Reachable w5 m v × (all_done v.os ≡ true)
all_done-Reachable_example =
    all_done-Reachable rows 0 ((omega arith, omega arith, omega arith), tt) (omega arith) 3 w5
      blocks
