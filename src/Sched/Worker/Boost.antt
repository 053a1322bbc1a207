-- ===== src/Sched/Worker/Boost.antt =====
-- What a monitor thread does to a process that waits in the ready queue.
use ift.Base.{
  inl, inr, ℕ, ◌<◌, ◌≡◌, refl, ◌∙◌, ap, subst, Bool, true, false, Option, some, List, [], ◌∷◌,
  arith, ◌==◌, if◌then◌else◌, Bool-cases, lt→ltb,
}
use ift.Sched.Process.{
  Process, Processes, Status, run_done, run_blocked, run_preempted, not_run, num_priority_levels,
}
use ift.Sched.Level.{is_process}
use ift.Sched.Level.Search.{has, delete}
use ift.Sched.Level.Insert.{Rep}
use ift.Sched.Queue.{Queue, remove}
use ift.Sched.Queue.Rep.{View, Holds, with_level, remove-Holds}
use ift.Sched.Worker.{set_process, boost_level, is_done, requeue, monitor}

both_false : (b x : Bool) → (if b then true else x) ≡ false → (b ≡ false) × (x ≡ false)
both_false true x e = absurd (cc e)
both_false false x e = (refl, e)

delete-absent : (p : ℕ) (ps : List (Option ℕ)) → has p ps ≡ false → delete p ps ≡ ps
unfolding has delete
delete-absent p [] e = refl
delete-absent p (q ∷ qs) e =
    let (t, e2) = both_false (is_process q p) (has p qs) e in
    rw t (ap (λ z. q ∷ z) (delete-absent p qs e2))

pub set_process-same : (procs : Processes) (p : ℕ) (v : Process) → set_process procs p v p ≡ v
unfolding set_process
set_process-same procs p v = ground arith

level_same :
    (view : View) (i j : ℕ) (ps : List (Option ℕ)) → ps ≡ view i → with_level view i ps j ≡ view j
level_same view i j ps e = elim (Bool-cases (j == i)) [
  | inl t ↦ rw t (let e2 : i ≡ j = ground arith in e ∙ ap view e2)
  | inr t ↦ rw t refl
]

-- A removal in a level that has not the process changes no list.
remove-absent :
    (procs : Processes) (q : Queue) (view : View) (p : ℕ)
    → Holds q view
    → (procs p).priority_level < num_priority_levels
    → has p (view (procs p).priority_level) ≡ false
    → (q' : Queue) × (remove procs q (some p) ≡ some (false, q')) × Holds q' view
remove-absent procs q view p h lt e =
    let (q', e2, h') = remove-Holds procs q view p h lt in
    (
      q',
      e2 ∙ ap (λ b. some (b, q')) e,
      λ j.
          subst (Rep (q'.levels j))
            (level_same view (procs p).priority_level j _ (delete-absent p _ e)) (h' j),
    )

boost_level-below : (s : Status) → boost_level s < num_priority_levels
boost_level-below run_done = omega arith
boost_level-below run_blocked = omega arith
boost_level-below run_preempted = omega arith
boost_level-below not_run = omega arith

-- A monitor thread that raises the level of a process looks for it in the new level. When the process
-- does not wait there, the thread moves nothing: every list of the ready queue stays as it is, and
-- the level that the process has from then on is the new one.
pub monitor-stays :
    (procs : Processes) (q : Queue) (view : View) (p : ℕ)
    → Holds q view
    → is_done (procs p).status ≡ false
    → boost_level (procs p).status < (procs p).priority_level
    → has p (view (boost_level (procs p).status)) ≡ false
    → (procs' : Processes) × (q' : Queue) × (monitor procs q p ≡ some (procs', q'))
      × Holds q' view
      × ((procs' p).priority_level ≡ boost_level (procs p).status)
unfolding monitor requeue
monitor-stays procs q view p h n_done lt absent =
    let level = boost_level (procs p).status in
    let v : Process = record (procs p) { priority_level = level } in
    let boosted = set_process procs p v in
    let same : (boosted p).priority_level ≡ level =
      ap (λ (x : Process). x.priority_level) (set_process-same procs p v) in
    let below : (boosted p).priority_level < num_priority_levels =
      omega (arith, same, boost_level-below (procs p).status) in
    let absent2 : has p (view (boosted p).priority_level) ≡ false =
      ap (λ i. has p (view i)) same ∙ absent in
    let (q', e, h') = remove-absent boosted q view p h below absent2 in
    (
      set_process boosted p (record (boosted p) { waiting_boost = false }),
      q',
      rw (n_done, lt→ltb level (procs p).priority_level lt, e) refl,
      h',
      ap (λ (x : Process). x.priority_level)
            (set_process-same boosted p (record (boosted p) { waiting_boost = false }))
          ∙ same,
    )
