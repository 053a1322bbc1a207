-- ===== src/Sched/Os/World/Reach.antt =====
-- The invariant of the operating system, kept by every event.
use ift.Base.{
  ℕ, ◌+◌, ◌^◌, ◌≤◌, ◌<◌, ◌≡◌, refl, sym, ap, subst, ◌∙◌, Option, none, some, inl, inr, arith,
  length, get_elem?, modify, Bool-cases, set, Yields-some, length-set,
}
use ift.Sched.Os.{
  ProcessInfo, Running, running_of, enter_info, ran_info, status_of, io_info, move_to_ready,
  ready_info, Os, poll, enter_user_mode, leave_user_mode, os_start_io,
}
use ift.Sched.Os.World.{
  Phase, waiting, ready, blocked, finished, running, after_status, World, Event, polls, enters,
  leaves, starts_io, Outcome, steps, disabled, fails, polled, entered, started_io, left, step_at,
  process_of, step,
}
use ift.Sched.Os.World.Lists.{AllAt-some, AllAt-modify, AllAt-set, some_inj, set_same, AllAt}
use ift.Sched.Os.World.Fits.{Fits, moved-waiting, ready_info-Fits, enter_info-Fits, io_info-Fits}
use ift.Sched.Os.World.Ran.{ran_info-Fits}
use ift.Sched.Os.World.Count.{
  finished_of, finished_count, finished_count-set, finished_count-le, one_if, done-finished,
  counted_up,
}

pub record Inv (w : World) : Type 0 where
  pub fits : AllAt Fits 0 w.os.process_infos w.phases
  pub counted : w.os.process_count ≡ length w.phases
  pub small : w.os.process_count < 2 ^ 64
  pub done : w.os.process_done_count ≡ finished_count w.phases

-- No assertion fails, and the invariant is kept.
abbrev pub Safe : Outcome → Type 0
Safe (steps w) = Inv w
Safe disabled = Unit
Safe fails = ⊥

pub info_at :
    (w : World) (i : ℕ) (phase : Phase)
    → Inv w
    → get_elem? w.phases i ≡ some phase
    → (info : ProcessInfo) × (get_elem? w.os.process_infos i ≡ some info) × Fits i info phase
info_at w i phase inv e = AllAt-some Fits 0 i i w.os.process_infos w.phases (omega arith) inv.fits e

module _ (w : World) (i : ℕ) (phase : Phase) (inv : Inv w)
    (e : get_elem? w.phases i ≡ some phase) where
  -- The invariant where one process moves from a phase to another.
  moves-Inv :
      (os : Os) (next : Phase)
      → AllAt Fits 0 os.process_infos (set w.phases i next)
      → os.process_count ≡ w.os.process_count
      → os.process_done_count + finished_of phase ≡ w.os.process_done_count + finished_of next
      → Inv (record { os = os; phases = set w.phases i next })
  moves-Inv os next fits counted done = record {
    fits = fits;
    counted = counted ∙ inv.counted ∙ sym (length-set w.phases i next);
    small = subst (λ n. n < 2 ^ 64) (sym counted) inv.small;
    done = omega (arith, done, inv.done, finished_count-set w.phases i phase next e);
  }

  polls-Safe : (now : ℕ) → Safe (polled w i (poll w.os i now))
  unfolding polled poll
  polls-Safe now =
      let (info, f, fit) = info_at w i phase inv e in
      elim (Bool-cases (move_to_ready info now)) [
        | inr t ↦ rw (f, t) inv
        | inl t ↦
            let is_waiting : phase ≡ waiting = moved-waiting i info phase now fit t in
            let (info', g, fit') =
              Yields-some (λ info'. Fits i info' ready) (ready_info i now info)
                (ready_info-Fits i now info (subst (Fits i info) is_waiting fit)) in
            rw (f, t, g)
              (moves-Inv _ ready
                (AllAt-set Fits 0 i i w.os.process_infos w.phases info' ready (omega arith) inv.fits
                  fit')
                refl (ap (λ p. w.os.process_done_count + finished_of p) is_waiting))
      ]

enters-Safe :
    (w : World) (i time_slice : ℕ)
    → Inv w
    → get_elem? w.phases i ≡ some ready
    → Safe (entered w i (enter_user_mode w.os i time_slice))
unfolding entered enter_user_mode
enters-Safe w i time_slice inv e =
    let (info, f, fit) = info_at w i ready inv e in
    let (r, g, fit') =
      Yields-some (λ r. Fits i info (running r)) (enter_info i time_slice info)
        (enter_info-Fits i time_slice info fit) in
    rw (f, g)
      (moves-Inv w i ready inv e w.os (running r)
        (subst (λ l. AllAt Fits 0 l (set w.phases i (running r)))
          (set_same w.os.process_infos i info f)
          (AllAt-set Fits 0 i i w.os.process_infos w.phases info (running r) (omega arith) inv.fits
            fit'))
        refl refl)

starts_io-Safe :
    (w : World) (i now : ℕ)
    → Inv w
    → get_elem? w.phases i ≡ some blocked
    → Safe (started_io w i (os_start_io w.os i now))
unfolding started_io os_start_io
starts_io-Safe w i now inv e =
    let (info, f, fit) = info_at w i blocked inv e in
    let (info', g, fit') =
      Yields-some (λ info'. Fits i info' waiting) (io_info now info)
        (io_info-Fits i now info fit) in
    rw (f, g)
      (moves-Inv w i blocked inv e _ waiting
        (AllAt-set Fits 0 i i w.os.process_infos w.phases info' waiting (omega arith) inv.fits fit')
        refl refl)

leaves-Safe :
    (w : World) (i t1 t2 : ℕ) (r : Running)
    → Inv w
    → get_elem? w.phases i ≡ some (running r)
    → Safe (left w i (leave_user_mode w.os r t1 t2))
unfolding left leave_user_mode running_of
leaves-Safe w i t1 t2 r inv e =
    let (info, f, fit) = info_at w i (running r) inv e in
    let run = fit.3 in
    let same : i ≡ r.pid = ap (λ s. s.pid) (sym run.snapshot) in
    let status : finished_of (after_status (status_of r)) ≡ one_if r.done =
      subst (λ s. finished_of (after_status (status_of s)) ≡ one_if s.done) (sym run.snapshot)
        (done-finished i run.time_slice info run.burst) in
    let room : finished_count w.phases + 1 ≤ length w.phases = omega (
      arith,
      finished_count-set w.phases i (running r) finished e,
      finished_count-le (set w.phases i finished),
      length-set w.phases i finished,
    ) in
    moves-Inv w i (running r) inv e _ (after_status (status_of r))
      (subst
        (λ k.
          AllAt Fits 0 (modify w.os.process_infos k (ran_info r t1 t2))
            (set w.phases i (after_status (status_of r))))
        same
        (AllAt-modify Fits 0 i i w.os.process_infos w.phases (ran_info r t1 t2)
          (after_status (status_of r)) (omega arith) inv.fits
          (λ x g.
            ran_info-Fits i t1 t2 x r
              (subst (λ y. Fits i y (running r)) (some_inj (sym f ∙ g)) fit))))
      refl
      (counted_up r.done w.os.process_done_count _
        (omega (arith, inv.done, inv.counted, inv.small, room)) status)

-- No event makes an assertion fail, and each keeps the invariant.
pub step-Safe : (w : World) (e : Event) → Inv w → Safe (step w e)
unfolding step
step-Safe w e inv = step_at-Safe e (get_elem? w.phases (process_of e)) refl
  where
    step_at-Safe :
        (e : Event) (o : Option Phase)
        → get_elem? w.phases (process_of e) ≡ o
        → Safe (step_at w e o)
    step_at-Safe e none f = tt
    step_at-Safe (polls i now) (some phase) f = polls-Safe w i phase inv f now
    step_at-Safe (enters i time_slice) (some ready) f = enters-Safe w i time_slice inv f
    step_at-Safe (enters i time_slice) (some waiting) f = tt
    step_at-Safe (enters i time_slice) (some blocked) f = tt
    step_at-Safe (enters i time_slice) (some finished) f = tt
    step_at-Safe (enters i time_slice) (some (running r)) f = tt
    step_at-Safe (leaves i t1 t2) (some (running r)) f = leaves-Safe w i t1 t2 r inv f
    step_at-Safe (leaves i t1 t2) (some waiting) f = tt
    step_at-Safe (leaves i t1 t2) (some blocked) f = tt
    step_at-Safe (leaves i t1 t2) (some finished) f = tt
    step_at-Safe (leaves i t1 t2) (some ready) f = tt
    step_at-Safe (starts_io i now) (some blocked) f = starts_io-Safe w i now inv f
    step_at-Safe (starts_io i now) (some waiting) f = tt
    step_at-Safe (starts_io i now) (some ready) f = tt
    step_at-Safe (starts_io i now) (some finished) f = tt
    step_at-Safe (starts_io i now) (some (running r)) f = tt
