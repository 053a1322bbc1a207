-- ===== src/Sched/Queue/Rep.antt =====
-- The ready queue as a list of processes for each level, from the tail to the head.
use ift.Base.{
  inl, inr, ℕ, zero, suc, ◌+◌, ◌≤◌, ◌<◌, ◌≡◌, refl, ◌∙◌, ap, subst, true, false, Option, none, some,
  is_some, List, [], ◌∷◌, ◌++◌, arith, ltb, ◌==◌, if◌then◌else◌, All, Bool-cases, length,
  length-append, lt→ltb,
}
use ift.Sched.Process.{Processes, num_priority_levels, max_priority_level}
use ift.Sched.Level.{Level, push_tail, push_head, push_sorted, pop_head}
use ift.Sched.Level
use ift.Sched.Level.Insert.{Rep}
use ift.Sched.Level.Push.{push_tail-Rep, push_head-Rep, push_sorted-Rep, insert}
use ift.Sched.Level.Unlink.{pop_head-Rep}
use ift.Sched.Level.Search.{remove-Rep, has, delete}
use ift.Sched.Queue.{
  Queue, init, set_level, push_level, push, first_level, pop, remove, size, size_from,
}

-- the processes of each level
abbrev pub View : Type 0
View = ℕ → List (Option ℕ)

abbrev pub Holds : Queue → View → Type 0
Holds q view = (i : ℕ) → Rep (q.levels i) (view i)

abbrev pub with_level : View → ℕ → List (Option ℕ) → View
with_level view i ps j = if j == i then ps else view j

pub init-Holds : Holds init (λ i. [])
unfolding init
init-Holds i = record {
  nodes = [];
  seg = tt;
  head_last = refl;
  tail_first = refl;
  distinct = tt;
  used = tt;
  processes = refl;
  size_length = refl;
}

set_level-Holds :
    (q : Queue) (view : View) (i : ℕ) (l : Level) (ps : List (Option ℕ))
    → Holds q view
    → Rep l ps
    → Holds (set_level q i l) (with_level view i ps)
unfolding set_level
set_level-Holds q view i l ps h r j = elim (Bool-cases (j == i)) [
  | inl e ↦ rw e r
  | inr e ↦ rw e (h j)
]

-- What a push makes of the list of a level: a process of the highest level stands at the tail, one
-- that is marked as executed at the head, and any other one before the first shorter one.
abbrev pub pushed : Processes → ℕ → List (Option ℕ) → List (Option ℕ)
pushed procs p ps =
    let sorted = insert procs p ps in
    if (procs p).priority_level == max_priority_level
    then some p ∷ ps
    else if (procs p).already_executed
    then ps ++ some p ∷ []
    else sorted

push_level-Rep :
    (procs : Processes) (l : Level) (p : ℕ) (ps : List (Option ℕ))
    → Rep l ps
    → All (λ o. is_some o ≡ true) ps
    → (l' : Level) × (push_level procs l p ≡ some l') × Rep l' (pushed procs p ps)
unfolding push_level
push_level-Rep procs l p ps r h =
    elim (Bool-cases ((procs p).priority_level == max_priority_level)) [
      | inl e ↦ rw e (push_tail l (some p), refl, push_tail-Rep l (some p) ps r)
      | inr e ↦ rw e (elim (Bool-cases (procs p).already_executed) [
        | inl e2 ↦ rw e2 (push_head l (some p), refl, push_head-Rep l (some p) ps r)
        | inr e2 ↦ rw e2 (push_sorted-Rep procs l p ps r h)
      ])
    ]

-- `ready_queue_push` of a process whose level has no poison pill changes the list of its level, and
-- no other one.
pub push-Holds :
    (procs : Processes) (q : Queue) (view : View) (p : ℕ)
    → Holds q view
    → (procs p).priority_level < num_priority_levels
    → All (λ o. is_some o ≡ true) (view (procs p).priority_level)
    → (q' : Queue) × (push procs q (some p) ≡ some q')
      × Holds q' (
          with_level view (procs p).priority_level (pushed procs p (view (procs p).priority_level)))
unfolding push
push-Holds procs q view p h lt n =
    let i = (procs p).priority_level in
    let (l, e, r) = push_level-Rep procs (q.levels i) p (view i) (h i) n in
    let e2 = lt→ltb i num_priority_levels lt in
    (set_level q i l, rw (e2, e) refl, set_level-Holds q view i l _ h r)

-- A poison pill stands at the tail of level 1.
pub push-pill :
    (procs : Processes) (q : Queue) (view : View)
    → Holds q view
    → (q' : Queue) × (push procs q none ≡ some q') × Holds q' (with_level view 1 (none ∷ view 1))
unfolding push
push-pill procs q view h = (
  _,
  refl,
  set_level-Holds q view 1 (push_tail (q.levels 1) none) (none ∷ view 1) h
      (push_tail-Rep (q.levels 1) none (view 1) (h 1)),
)

first_level-first :
    (q : Queue) (view : View) (n s i : ℕ)
    → Holds q view
    → s ≤ i
    → i < s + n
    → ((j : ℕ) → j < i → view j ≡ [])
    → 0 < length (view i)
    → first_level n s q ≡ some i
unfolding first_level
first_level-first q view zero s i h le lt none_before pos = absurd (omega arith)
first_level-first q view (suc n) s i h le lt none_before pos = elim (Bool-cases (s == i)) [
  | inl e ↦
      let e2 : s ≡ i = ground arith in
      let size_i : (q.levels s).size ≡ length (view i) =
        (h s).size_length ∙ ap (λ j. length (view j)) e2 in
      let t = lt→ltb 0 (q.levels s).size (omega arith) in rw t (ap some e2)
  | inr e ↦
      let ne : s < i = ground arith in
      let size_s : (q.levels s).size ≡ 0 = (h s).size_length ∙ ap length (none_before s ne) in
      let t : ltb 0 (q.levels s).size ≡ false = rw size_s refl in
      rw t (first_level-first q view n (suc s) i h (omega arith) (omega arith) none_before pos)
]

-- `ready_queue_pop` takes the process at the head of the first level that is not empty, and leaves
-- the other levels.
pub pop-Holds :
    (q : Queue) (view : View) (i : ℕ) (qs : List (Option ℕ)) (x : Option ℕ)
    → Holds q view
    → i < num_priority_levels
    → ((j : ℕ) → j < i → view j ≡ [])
    → view i ≡ qs ++ x ∷ []
    → (q' : Queue) × (pop q ≡ some (x, q')) × Holds q' (with_level view i qs)
unfolding pop
pop-Holds q view i qs x h lt none_before e =
    let pos : 0 < length (view i) = omega (arith, ap length e, length-append qs (x ∷ [])) in
    let at_i =
      first_level-first q view num_priority_levels 0 i h (omega arith) lt none_before pos in
    let (same, rep) = pop_head-Rep (q.levels i) qs x (subst (Rep (q.levels i)) e (h i)) in
    (
      set_level q i (pop_head (q.levels i)).1,
      rw at_i (ap (λ y. some (y, set_level q i (pop_head (q.levels i)).1)) same),
      set_level-Holds q view i (pop_head (q.levels i)).1 qs h rep,
    )

-- When every level is empty, `ready_queue_pop` waits.
no_level :
    (q : Queue) (view : View) (n s : ℕ)
    → Holds q view
    → ((j : ℕ) → view j ≡ [])
    → first_level n s q ≡ none
unfolding first_level
no_level q view zero s h e = refl
no_level q view (suc n) s h e =
    let size_s : (q.levels s).size ≡ 0 = (h s).size_length ∙ ap length (e s) in
    let t : ltb 0 (q.levels s).size ≡ false = rw size_s refl in rw t (no_level q view n (suc s) h e)

pub pop-waits : (q : Queue) (view : View) → Holds q view → ((j : ℕ) → view j ≡ []) → pop q ≡ none
unfolding pop
pop-waits q view h e = rw (no_level q view num_priority_levels 0 h e) refl

-- `ready_queue_remove` looks for the process in the level that it has now, takes it away there, and
-- returns whether it was there.
pub remove-Holds :
    (procs : Processes) (q : Queue) (view : View) (p : ℕ)
    → Holds q view
    → (procs p).priority_level < num_priority_levels
    → (q' : Queue) × (remove procs q (some p) ≡ some (has p (view (procs p).priority_level), q'))
      × Holds q'
          (with_level view (procs p).priority_level (delete p (view (procs p).priority_level)))
unfolding remove
remove-Holds procs q view p h lt =
    let i = (procs p).priority_level in
    let (same, rep) = remove-Rep (q.levels i) p (view i) (h i) in
    (
      set_level q i (Level.remove (q.levels i) p).1,
      rw (lt→ltb i num_priority_levels lt)
          (ap (λ b. some (b, set_level q i (Level.remove (q.levels i) p).1)) same),
      set_level-Holds q view i (Level.remove (q.levels i) p).1 (delete p (view i)) h rep,
    )

-- `ready_queue_size` counts the processes of the four levels.
pub size-Holds :
    (q : Queue) (view : View)
    → Holds q view
    → size q ≡ length (view 0) + (length (view 1) + (length (view 2) + length (view 3)))
unfolding size size_from
size-Holds q view h =
    omega (arith, (h 0).size_length, (h 1).size_length, (h 2).size_length, (h 3).size_length)
