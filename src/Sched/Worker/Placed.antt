-- ===== src/Sched/Worker/Placed.antt =====
-- A process that stopped running goes back to the ready queue in the level that it has.
use ift.Base.{
  inl, inr, ℕ, ◌+◌, ◌<◌, ◌≡◌, ◌≢◌, min, refl, sym, ◌∙◌, ap, subst, Bool, true, false, Option, none,
  some, is_some, List, [], ◌∷◌, arith, ◌==◌, if◌then◌else◌, Bool-cases, All, All-append, All-zip,
}
use ift.Sched.Process.{
  Process, Processes, run_preempted, num_priority_levels, max_priority_level, min_priority_level,
  length_of,
}
use ift.Sched.Level.Push.{insert, is_shorter}
use ift.Sched.Queue.{Queue, push}
use ift.Sched.Queue.Rep.{View, Holds, with_level, pushed, push-Holds}
use ift.Sched.Worker.{set_process, new_level, update_priority_level, after_run, process_ran}
use ift.Sched.Worker.Boost.{set_process-same}

-- A process waits in the level that it has.
abbrev pub AtLevel : Processes → ℕ → Option ℕ → Type 0
AtLevel procs i none = Unit
AtLevel procs i (some p) = (procs p).priority_level ≡ i

abbrev pub Placed : Processes → View → Type 0
Placed procs view = (i : ℕ) → All (AtLevel procs i) (view i)

-- A process that runs waits nowhere.
abbrev pub Absent : ℕ → View → Type 0
Absent p view = (i : ℕ) → All (λ o. o ≢ some p) (view i)

insert-every :
    (P : Option ℕ → Type 0) (procs : Processes) (p : ℕ) (qs : List (Option ℕ))
    → P (some p)
    → All P qs
    → All P (insert procs p qs)
unfolding insert
insert-every P procs p [] h k = (h, tt)
insert-every P procs p (q ∷ qs) h k = elim (Bool-cases (is_shorter procs (length_of (procs p)) q)) [
  | inl t ↦ rw t (h, k)
  | inr t ↦ rw t (k.0, insert-every P procs p qs h k.1)
]

All-if :
    (P : Option ℕ → Type 0) (b : Bool) (xs ys : List (Option ℕ))
    → All P xs
    → All P ys
    → All P (if b then xs else ys)
All-if P true xs ys h k = h
All-if P false xs ys h k = k

pushed-every :
    (P : Option ℕ → Type 0) (procs : Processes) (p : ℕ) (qs : List (Option ℕ))
    → P (some p)
    → All P qs
    → All P (pushed procs p qs)
pushed-every P procs p qs h k =
    All-if P ((procs p).priority_level == max_priority_level) _ _ (h, k)
      (All-if P (procs p).already_executed _ _ (All-append P qs (some p ∷ []) k (h, tt))
        (insert-every P procs p qs h k))

set_process-apart :
    (procs : Processes) (p r : ℕ) (v : Process) → r ≢ p → set_process procs p v r ≡ procs r
unfolding set_process
set_process-apart procs p r v ne = ground arith

AtLevel-apart :
    (procs : Processes) (p : ℕ) (v : Process) (i : ℕ) (o : Option ℕ)
    → o ≢ some p
    → AtLevel procs i o
    → AtLevel (set_process procs p v) i o
AtLevel-apart procs p v i none ne h = tt
AtLevel-apart procs p v i (some r) ne h =
    ap (λ (x : Process). x.priority_level) (set_process-apart procs p r v λ e. ne (ap some e)) ∙ h

set_process-Placed :
    (procs : Processes) (p : ℕ) (v : Process) (view : View)
    → Absent p view
    → Placed procs view
    → Placed (set_process procs p v) view
set_process-Placed procs p v view a h i =
    All-zip _ _ _ (view i) (λ o ne k. AtLevel-apart procs p v i o ne k) (a i) (h i)

with_level-Placed :
    (procs : Processes) (p : ℕ) (view : View)
    → Placed procs view
    → Placed procs
        (with_level view (procs p).priority_level (pushed procs p (view (procs p).priority_level)))
with_level-Placed procs p view h j = elim (Bool-cases (j == (procs p).priority_level)) [
  | inl t ↦
      let e : j ≡ (procs p).priority_level = ground arith in
      let i = (procs p).priority_level in
      rw t (
        subst (λ k. All (AtLevel procs k) (pushed procs p (view i))) (sym e)
          (pushed-every (AtLevel procs i) procs p (view i) refl (h i)))
  | inr t ↦ rw t (h j)
]

update-preempted :
    (procs : Processes) (p : ℕ)
    → (procs p).status ≡ run_preempted
    → (update_priority_level procs p).0 p ≡ record (procs p) {
      priority_level = min ((procs p).priority_level + 1) min_priority_level;
      waiting_boost = true;
    }
unfolding update_priority_level new_level
update-preempted procs p e = set_process-same procs p (new_level (procs p)).0 ∙ rw e refl

update-Placed :
    (procs : Processes) (p : ℕ) (view : View)
    → Absent p view
    → Placed procs view
    → Placed (update_priority_level procs p).0 view
unfolding update_priority_level
update-Placed procs p view a h = set_process-Placed procs p (new_level (procs p)).0 view a h

after_run-preempted :
    (procs : Processes) (q q' : Queue) (p elapsed : ℕ)
    → (procs p).status ≡ run_preempted
    → push procs q (some p) ≡ some q'
    → after_run procs q p elapsed ≡ some (procs, q', false)
unfolding after_run
after_run-preempted procs q q' p elapsed e e2 = rw (e, e2, after_run) refl

-- A process that waits nowhere and was preempted falls one level, to the lowest one at most, and
-- goes into the list of its new level, so that every process of the ready queue waits in the level
-- that it has. There is no poison pill in the new level, and no other thread acts in between.
pub process_ran-preempted :
    (procs : Processes) (q : Queue) (view : View) (p elapsed : ℕ)
    → Holds q view
    → Placed procs view
    → Absent p view
    → All (λ o. is_some o ≡ true) (view (min ((procs p).priority_level + 1) min_priority_level))
    → (procs' : Processes) × (q' : Queue) × (view' : View) × (process_ran
          (λ k x. x)
          procs
          q
          p
          run_preempted
          elapsed
        ≡ some (procs', q', false))
      × ((procs' p).priority_level ≡ min ((procs p).priority_level + 1) min_priority_level)
      × (view'
          ≡ with_level view
              (procs' p).priority_level
              (pushed procs' p (view (procs' p).priority_level)))
      × Holds q' view'
      × Placed procs' view'
unfolding process_ran
process_ran-preempted procs q view p elapsed h k a n =
    let ran = set_process procs p (record (procs p) { status = run_preempted }) in
    let e_ran : ran p ≡ record (procs p) { status = run_preempted } = set_process-same procs p _ in
    let procs' = (update_priority_level ran p).0 in
    let e_new = update-preempted ran p (ap (λ (x : Process). x.status) e_ran) in
    let status' : (procs' p).status ≡ run_preempted =
      ap (λ (x : Process). x.status) e_new ∙ ap (λ (x : Process). x.status) e_ran in
    let level' : (procs' p).priority_level ≡ min ((procs p).priority_level + 1) min_priority_level =
      ap (λ (x : Process). x.priority_level) e_new
      ∙ ap (λ (x : Process). min (x.priority_level + 1) min_priority_level) e_ran in
    let below : (procs' p).priority_level < num_priority_levels = omega (arith, level') in
    let n' = subst (λ i. All (λ o. is_some o ≡ true) (view i)) (sym level') n in
    let placed = update-Placed ran p view a (set_process-Placed procs p _ view a k) in
    let (q', e, h') = push-Holds procs' q view p h below n' in
    (
      procs',
      q',
      with_level view (procs' p).priority_level (pushed procs' p (view (procs' p).priority_level)),
      after_run-preempted procs' q q' p elapsed status' e,
      level',
      refl,
      h',
      with_level-Placed procs' p view placed,
    )
