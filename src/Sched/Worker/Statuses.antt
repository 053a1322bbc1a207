-- ===== src/Sched/Worker/Statuses.antt =====
-- The status of a process behind its run, and whether an input or output is started.
use ift.Base.{ℕ, ◌≡◌, refl, ap, ◌∙◌, Bool, true, false, Option, none, some, inl, inr, Option-cases}
use ift.Sched.Process.{Process, Processes, Status, run_done, run_blocked, run_preempted, not_run}
use ift.Sched.Queue.{Queue, push, remove_from_quantum_average}
use ift.Sched.Worker.{set_process, new_level, update_priority_level, after_run, process_ran}
use ift.Sched.Worker.Boost.{set_process-same}

abbrev pub is_blocked : Status → Bool
is_blocked run_blocked = true
is_blocked run_done = false
is_blocked run_preempted = false
is_blocked not_run = false

-- If the call returns, the process has the status, and the flag is set for one that is blocked.
abbrev pub Tells : ℕ → Status → Option (Processes × Queue × Bool) → Type 0
Tells p s none = Unit
Tells p s (some (procs, q, io)) = ((procs p).status ≡ s) × (io ≡ is_blocked s)

new_level-status : (v : Process) (s : Status) → v.status ≡ s → (new_level v).0.status ≡ s
unfolding new_level
new_level-status v run_done e = rw (e, new_level) e
new_level-status v run_blocked e = rw (e, new_level) e
new_level-status v run_preempted e = rw (e, new_level) e
new_level-status v not_run e = rw (e, new_level) e

after_run-Tells :
    (procs : Processes) (q : Queue) (p elapsed : ℕ) (s : Status)
    → (procs p).status ≡ s
    → Tells p s (after_run procs q p elapsed)
unfolding after_run
after_run-Tells procs q p elapsed run_preempted e = elim (Option-cases (push procs q (some p))) [
  | inl f ↦ rw (e, after_run, f) tt
  | inr (q', f) ↦ rw (e, after_run, f) (e, refl)
]
after_run-Tells procs q p elapsed run_blocked e =
    rw (e, after_run) (ap (λ (v : Process). v.status) (set_process-same procs p _) ∙ e, refl)
after_run-Tells procs q p elapsed run_done e =
    elim (Option-cases (remove_from_quantum_average q (procs p))) [
      | inl f ↦ rw (e, after_run, f) tt
      | inr (q', f) ↦
          rw (e, after_run, f)
            (ap (λ (v : Process). v.status) (set_process-same procs p _) ∙ e, refl)
    ]
after_run-Tells procs q p elapsed not_run e = rw (e, after_run) (e, refl)

update-status :
    (procs : Processes) (p : ℕ) (s : Status)
    → (procs p).status ≡ s
    → ((update_priority_level procs p).0 p).status ≡ s
unfolding update_priority_level
update-status procs p s e =
    ap (λ (v : Process). v.status) (set_process-same procs p _) ∙ new_level-status (procs p) s e

-- The other threads leave the status of the process alone.
abbrev pub KeepsStatus : ℕ → (ℕ → Processes × Queue → Processes × Queue) → Type 0
KeepsStatus p others =
    (k : ℕ) (procs : Processes) (q : Queue) → ((others k (procs, q)).0 p).status ≡ (procs p).status

pub process_ran-Tells :
    (others : ℕ → Processes × Queue → Processes × Queue) (procs : Processes) (q : Queue)
    (p elapsed : ℕ) (s : Status)
    → KeepsStatus p others
    → Tells p s (process_ran others procs q p s elapsed)
unfolding process_ran
process_ran-Tells others procs q p elapsed s keeps =
    let ran = set_process procs p (record (procs p) { status = s }) in
    let ran_status : (ran p).status ≡ s =
      ap (λ (v : Process). v.status) (set_process-same procs p _) in
    let (procs', q') = others 0 (ran, q) in
    let updated = (update_priority_level procs' p).0 in
    let (procs'', q'') = others 1 (updated, q') in
    after_run-Tells procs'' q'' p elapsed s
      (keeps 1 updated q' ∙ update-status procs' p s (keeps 0 ran q ∙ ran_status))
