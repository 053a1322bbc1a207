-- ===== src/Sched/Queue.antt =====
-- tp2/src/ready_queue.c and ready_queue.h: the ready queue. A call is one step: what it does between
-- the locking and the unlocking of a level's mutex. The mutexes and the condition variable are left
-- out, as is `ready_queue_remove_par`.
pub mod Rep
mod Tests
pub mod Order
use ift.Base.{
  ℕ, zero, suc, ◌+◌, ◌-◌, ◌*◌, ◌/◌, ◌%◌, ◌^◌, Bool, true, false, not, Option, none, some, List, [],
  ◌∷◌, ◌==◌, ltb, if◌then◌else◌, ◌>>=◌,
}
use ift.Sched.Process.{
  Process, Processes, num_priority_levels, max_priority_level, default_priority_level,
  initial_quantum,
}
use ift.Sched.Level.{Node, Level, push_tail, push_head, push_sorted, pop_head}
use ift.Sched.Level

-- `struct ready_queue`
pub record Queue : Type 0 where
  pub levels : ℕ → Level
  pub quantum : ℕ
  pub quantum_counter : ℕ

abbrev pub empty_level : Level
empty_level = record {
  cells = λ a. record { process = none; next = none; prev = none };
  fresh = 0;
  head = none;
  tail = none;
  size = 0;
}

-- `ready_queue_init`
unfoldable pub init : Queue
init = record { levels = λ i. empty_level; quantum = initial_quantum; quantum_counter = 0 }

pub set_level : Queue → ℕ → Level → Queue
set_level q i l = record q { levels = λ j. if j == i then l else q.levels j }

-- The branches of `ready_queue_push` for a process that is not NULL.
pub push_level : Processes → Level → ℕ → Option Level
push_level procs l p =
    if (procs p).priority_level == max_priority_level
    then some (push_tail l (some p))
    else if (procs p).already_executed
    then some (push_head l (some p))
    else push_sorted procs l p

-- `ready_queue_push`; a priority level out of range is an access out of bounds, and has no result.
pub push : Processes → Queue → Option ℕ → Option Queue
unfolding push_level set_level
push procs q none =
    let i = default_priority_level + 1 in some (set_level q i (push_tail (q.levels i) none))
push procs q (some p) =
    let i = (procs p).priority_level in
    if ltb i num_priority_levels
    then (push_level procs (q.levels i) p >>= λ l. some (set_level q i l))
    else none

-- the first level of `n` levels from `i` on that is not empty
unfoldable pub first_level : ℕ → ℕ → Queue → Option ℕ
first_level zero i q = none
first_level (suc n) i q =
    let rest = first_level n (suc i) q in if ltb 0 (q.levels i).size then some i else rest

-- `ready_queue_pop`; `none` is a caller that waits on the condition variable.
unfoldable pub pop : Queue → Option (Option ℕ × Queue)
unfolding first_level set_level
pop q = first_level num_priority_levels 0 q >>= λ i.
    let (process, l) = pop_head (q.levels i) in some (process, set_level q i l)

-- `ready_queue_remove`
pub remove : Processes → Queue → Option ℕ → Option (Bool × Queue)
unfolding set_level
remove procs q none = some (false, q)
remove procs q (some p) =
    let i = (procs p).priority_level in
    let (was_found, l) = Level.remove (q.levels i) p in
    if ltb i num_priority_levels then some (was_found, set_level q i l) else none

-- `ready_queue_size`
pub size_from : ℕ → ℕ → Queue → ℕ
size_from zero i q = 0
size_from (suc n) i q = (q.levels i).size + size_from n (suc i) q

pub size : Queue → ℕ
unfolding size_from
size q = size_from num_priority_levels 0 q

-- `add_to_quantum_average`, on `uint64_t`
pub add_to_quantum_average : Queue → Process → Queue
add_to_quantum_average q p = if p.found_burst then q else record q {
  quantum = (q.quantum * q.quantum_counter + p.burst_length) % 2 ^ 64 / (q.quantum_counter + 1);
  quantum_counter = q.quantum_counter + 1;
}

-- `remove_from_quantum_average`; a counter of 0 would become -1, and has no result.
pub remove_from_quantum_average : Queue → Process → Option Queue
remove_from_quantum_average q p =
    if not p.found_burst
    then some q
    else if q.quantum_counter == 1
    then some (record q { quantum = initial_quantum; quantum_counter = 0 })
    else if q.quantum_counter == 0
    then none
    else some (record q {
      quantum =
          ((q.quantum * q.quantum_counter) % 2 ^ 64 + 2 ^ 64 - p.burst_length)
          % 2 ^ 64
          / (q.quantum_counter - 1);
      quantum_counter = q.quantum_counter - 1;
    })
