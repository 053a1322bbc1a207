-- ===== src/Sched/Queue/Order.antt =====
-- The ready queue as a scheduler of the shortest process first.
use ift.Base.{
  ℕ, ◌≤◌, ◌<◌, ◌≡◌, refl, sym, subst, true, false, Option, none, some, is_some, List, [], ◌∷◌, ◌++◌,
  arith, ◌==◌, All, All-mono,
}
use ift.Sched.Process.{Processes, num_priority_levels, max_priority_level}
use ift.Sched.Level.Order.{key, IsSorted, IsProcess, insert-IsSorted}
use ift.Sched.Queue.{Queue, push, pop}
use ift.Sched.Queue.Rep.{View, Holds, with_level, pushed, push-Holds, pop-Holds}

IsProcess-some : (o : Option ℕ) → is_some o ≡ true → IsProcess o
IsProcess-some none e = absurd (cc e)
IsProcess-some (some p) e = tt

pushed-IsSorted :
    (procs : Processes) (p : ℕ) (ps : List (Option ℕ))
    → 0 < (procs p).priority_level
    → (procs p).already_executed ≡ false
    → All (λ o. is_some o ≡ true) ps
    → IsSorted procs ps
    → IsSorted procs (pushed procs p ps)
pushed-IsSorted procs p ps pos fresh n s =
    let e : ((procs p).priority_level == max_priority_level) ≡ false = ground arith in
    rw (e, fresh) (insert-IsSorted procs p ps (All-mono _ _ ps IsProcess-some n) s)

level_self : (view : View) (i : ℕ) (ps : List (Option ℕ)) → with_level view i ps i ≡ ps
level_self view i ps = let e : (i == i) ≡ true = ground arith in rw e refl

-- `ready_queue_push` of a process that was not executed keeps a level below the highest one, without
-- a poison pill, sorted: from the tail to the head, no process is longer than one before it.
pub push-IsSorted :
    (procs : Processes) (q : Queue) (view : View) (p : ℕ)
    → Holds q view
    → 0 < (procs p).priority_level
    → (procs p).priority_level < num_priority_levels
    → (procs p).already_executed ≡ false
    → All (λ o. is_some o ≡ true) (view (procs p).priority_level)
    → IsSorted procs (view (procs p).priority_level)
    → (q' : Queue) × (view' : View) × (push procs q (some p) ≡ some q')
      × Holds q' view'
      × IsSorted procs (view' (procs p).priority_level)
push-IsSorted procs q view p h pos lt fresh n s =
    let i = (procs p).priority_level in
    let (q', e, h') = push-Holds procs q view p h lt n in
    (
      q',
      with_level view i (pushed procs p (view i)),
      e,
      h',
      subst (IsSorted procs) (sym (level_self view i (pushed procs p (view i))))
          (pushed-IsSorted procs p (view i) pos fresh n s),
    )

last-shortest :
    (procs : Processes) (qs : List (Option ℕ)) (x : Option ℕ)
    → IsSorted procs (qs ++ x ∷ [])
    → All (λ b. key procs x ≤ key procs b) qs
last-shortest procs [] x s = tt
last-shortest procs (q ∷ qs) x s = (at_end qs s.0, last-shortest procs qs x s.1)
  where
    at_end :
        (rs : List (Option ℕ))
        → All (λ b. key procs b ≤ key procs q) (rs ++ x ∷ [])
        → key procs x ≤ key procs q
    at_end [] h = h.0
    at_end (r ∷ rs) h = at_end rs h.1

-- `ready_queue_pop` takes a process from the first level that is not empty, and from a sorted level
-- one that is not longer than any other process of the level.
pub pop-shortest :
    (procs : Processes) (q : Queue) (view : View) (i : ℕ) (qs : List (Option ℕ)) (x : Option ℕ)
    → Holds q view
    → i < num_priority_levels
    → ((j : ℕ) → j < i → view j ≡ [])
    → view i ≡ qs ++ x ∷ []
    → IsSorted procs (view i)
    → (q' : Queue) × (pop q ≡ some (x, q'))
      × Holds q' (with_level view i qs)
      × All (λ b. key procs x ≤ key procs b) qs
pop-shortest procs q view i qs x h lt none_before e s =
    let (q', popped, h') = pop-Holds q view i qs x h lt none_before e in
    (q', popped, h', last-shortest procs qs x (subst (IsSorted procs) e s))
