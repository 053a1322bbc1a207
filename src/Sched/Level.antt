-- ===== src/Sched/Level.antt =====
-- tp2/src/ready_queue.c and ready_queue.h: the linked nodes of one priority level. An address is a
-- number; `malloc` returns one that was not used before, and no address is used again. `next` leads
-- from the tail to the head.
pub mod Links
pub mod Insert
pub mod Push
pub mod Unlink
pub mod Search
pub mod Order
use ift.Base.{
  ℕ, zero, suc, ◌+◌, ◌-◌, Bool, true, false, Option, none, some, is_some, List, [], ◌∷◌, ◌==◌, ltb,
  if◌then◌else◌, ◌>>=◌,
}
use ift.Sched.Process.{Process, Processes, length_of}

-- `struct node`; a `process` that is `none` is a poison pill.
pub record Node : Type 0 where
  pub process : Option ℕ
  pub next : Option ℕ
  pub prev : Option ℕ

abbrev pub Cells : Type 0
Cells = ℕ → Node

pub record Level : Type 0 where
  pub cells : Cells
  pub fresh : ℕ
  pub head : Option ℕ
  pub tail : Option ℕ
  pub size : ℕ

pub put : Cells → ℕ → Node → Cells
put c a n b = if b == a then n else c b

-- `a->next = v` and `a->prev = v` under the test that `a` is not NULL
pub set_next : Cells → Option ℕ → Option ℕ → Cells
unfolding put
set_next c none v = c
set_next c (some a) v = put c a (record (c a) { next = v })

pub set_prev : Cells → Option ℕ → Option ℕ → Cells
unfolding put
set_prev c none v = c
set_prev c (some a) v = put c a (record (c a) { prev = v })

abbrev pub or_new : Option ℕ → ℕ → Option ℕ → Option ℕ
or_new none n old = some n
or_new (some a) n old = old

-- A new node between `prev` and `current`: a branch of `ready_queue_push`.
pub splice : Level → Option ℕ → Option ℕ → Option ℕ → Level
unfolding set_next set_prev
splice l process prev current =
    let n = l.fresh in
    let c = put l.cells n (record { process = process; next = current; prev = prev }) in
    record {
      cells = set_prev (set_next c prev (some n)) current (some n);
      fresh = n + 1;
      head = or_new current n l.head;
      tail = or_new prev n l.tail;
      size = l.size + 1;
    }

-- The loop that looks for the place of a process of length `k`: the node before it and the node
-- behind it. `none` is a read through NULL, or the end of the fuel.
pub seek : ℕ → Cells → Processes → ℕ → Option ℕ → Option ℕ → Option (Option ℕ × Option ℕ)
seek fuel c procs k prev none = some (prev, none)
seek zero c procs k prev (some a) = none
seek (suc fuel) c procs k prev (some a) =
    let rest = seek fuel c procs k (some a) (c a).next in
    elim (c a).process [
      | none ↦ none
      | some p ↦ if ltb (length_of (procs p)) k then some (prev, some a) else rest
    ]

pub push_tail : Level → Option ℕ → Level
unfolding splice
push_tail l process = splice l process none l.tail

pub push_head : Level → Option ℕ → Level
unfolding splice
push_head l process = splice l process l.head none

-- The number of nodes is fuel enough.
pub push_sorted : Processes → Level → ℕ → Option Level
unfolding splice seek
push_sorted procs l p =
    seek l.size l.cells procs (length_of (procs p)) none l.tail >>= λ (prev, current).
    some (splice l (some p) prev current)

-- `ready_queue_pop` on the level that it chose; without a head it returns NULL.
unfoldable pub pop_head : Level → Option ℕ × Level
unfolding set_next
pop_head l = elim l.head [
  | none ↦ (none, record l { size = l.size - 1 })
  | some a ↦
      let new_head = (l.cells a).prev in
      (
        (l.cells a).process,
        record l {
          cells = set_next l.cells new_head none;
          head = new_head;
          tail = if is_some new_head then l.tail else none;
          size = l.size - 1;
        },
      )
]

abbrev pub is_process : Option ℕ → ℕ → Bool
is_process none p = false
is_process (some q) p = q == p

-- The loop of `ready_queue_remove`: the node before the one of the process, and that one.
pub search_for : ℕ → Cells → ℕ → Option ℕ → Option ℕ → Option (Option ℕ × ℕ)
search_for fuel c p prev none = none
search_for zero c p prev (some a) = none
search_for (suc fuel) c p prev (some a) =
    let rest = search_for fuel c p (some a) (c a).next in
    if is_process (c a).process p then some (prev, a) else rest

-- the body of its `if`
pub unlink : Level → Option ℕ → ℕ → Level
unfolding set_next set_prev
unlink l prev a =
    let next = (l.cells a).next in
    record l {
      cells = set_prev (set_next l.cells prev next) next prev;
      head = if is_some next then l.head else (l.cells a).prev;
      tail = if is_some prev then l.tail else next;
      size = l.size - 1;
    }

pub remove : Level → ℕ → Bool × Level
unfolding search_for unlink
remove l p = elim (search_for l.size l.cells p none l.tail) [
  | none ↦ (false, l)
  | some found ↦ (true, unlink l found.0 found.1)
]
