-- ===== src/Sched/Os/World/Time.antt =====
-- The time that the processes run, against what is left of their bursts.
use ift.Base.{
  ℕ, ◌+◌, ◌^◌, ◌<◌, ◌≡◌, refl, sym, ap, subst, ◌∙◌, true, some, List, [], ◌∷◌, inl, inr, arith,
  length, get_elem?, modify, All, Bool-cases, Option-cases, map, ◌*◌,
}
use ift.Sched.Os.{
  Running, Row, running_of, ran_info, io_info, info_of, move_to_ready, ready_info, poll,
  enter_user_mode, leave_user_mode, os_start_io, os_parse_file, all_done,
}
use ift.Sched.Os.World.{
  Phase, waiting, ready, blocked, finished, running, World, Event, polls, enters, leaves, starts_io,
  Outcome, steps, disabled, fails, polled, entered, started_io, left, step_at, step, start,
  Reachable, here, onward, spent,
}
use ift.Sched.Os.World.Lists.{sum_of, sum_of-set, sum_of-modify, OnSome}
use ift.Sched.Os.World.Reach.{Inv, info_at}
use ift.Sched.Os.World.Ends.{IsRow, start-Inv, Reachable-Inv, all_done-Inv}
use ift.Sched.Os.World.Left.{
  time_left, ran_info-time_left, ready_info-time_left, io_info-time_left, time_left-info_of,
  all_finished-left,
}

abbrev total_left : World → ℕ
total_left w = sum_of time_left w.os.process_infos

-- An event takes `n` off what is left.
abbrev Takes : World → ℕ → Outcome → Type 0
Takes w n (steps v) = total_left v + n ≡ total_left w
Takes w n disabled = Unit
Takes w n fails = Unit

polls-Takes : (w : World) (i now : ℕ) (phase : Phase) → Takes w 0 (polled w i (poll w.os i now))
unfolding polled poll
polls-Takes w i now phase = elim (Option-cases (get_elem? w.os.process_infos i)) [
  | inl e ↦ rw e tt
  | inr (info, e) ↦ elim (Bool-cases (move_to_ready info now)) [
    | inr t ↦ rw (e, t) (omega arith)
    | inl t ↦ elim (Option-cases (ready_info i now info)) [
      | inl f ↦ rw (e, t, f) tt
      | inr (info', f) ↦
          let same : time_left info' ≡ time_left info =
            subst (OnSome (λ x. time_left x ≡ time_left info)) f
              (ready_info-time_left i now info) in
          rw (e, t, f) (omega (arith, same, sum_of-set time_left w.os.process_infos i info info' e))
    ]
  ]
]

starts_io-Takes : (w : World) (i now : ℕ) → Takes w 0 (started_io w i (os_start_io w.os i now))
unfolding started_io os_start_io
starts_io-Takes w i now = elim (Option-cases (get_elem? w.os.process_infos i)) [
  | inl e ↦ rw e tt
  | inr (info, e) ↦ elim (Option-cases (io_info now info)) [
    | inl f ↦ rw (e, f) tt
    | inr (info', f) ↦
        let same : time_left info' ≡ time_left info =
          subst (OnSome (λ x. time_left x ≡ time_left info)) f (io_info-time_left now info) in
        rw (e, f) (omega (arith, same, sum_of-set time_left w.os.process_infos i info info' e))
  ]
]

enters-Takes :
    (w : World) (i time_slice : ℕ) → Takes w 0 (entered w i (enter_user_mode w.os i time_slice))
unfolding entered
enters-Takes w i time_slice = elim (Option-cases (enter_user_mode w.os i time_slice)) [
  | inl e ↦ rw e tt
  | inr (r, e) ↦ rw e (omega arith)
]

leaves-Takes :
    (w : World) (i t1 t2 : ℕ) (r : Running)
    → Inv w
    → get_elem? w.phases i ≡ some (running r)
    → Takes w r.time (left w i (leave_user_mode w.os r t1 t2))
unfolding left leave_user_mode running_of
leaves-Takes w i t1 t2 r inv e =
    let (info, f, fit) = info_at w i (running r) inv e in
    let same : i ≡ r.pid = ap (λ s. s.pid) (sym fit.3.snapshot) in
    subst
      (λ k.
        sum_of time_left (modify w.os.process_infos k (ran_info r t1 t2)) + r.time ≡ total_left w)
      same
      (omega (
        arith,
        ran_info-time_left i t1 t2 info r fit,
        sum_of-modify time_left w.os.process_infos i info (ran_info r t1 t2) f,
      ))

step-Takes : (w : World) (e : Event) → Inv w → Takes w (spent w e) (step w e)
unfolding step step_at
step-Takes w (polls i now) inv = elim (Option-cases (get_elem? w.phases i)) [
  | inl f ↦ rw f tt
  | inr (phase, f) ↦ rw f (polls-Takes w i now phase)
]
step-Takes w (enters i time_slice) inv = elim (Option-cases (get_elem? w.phases i)) [
  | inl f ↦ rw f tt
  | inr (ready, f) ↦ rw f (enters-Takes w i time_slice)
  | inr (waiting, f) ↦ rw f tt
  | inr (blocked, f) ↦ rw f tt
  | inr (finished, f) ↦ rw f tt
  | inr (running r, f) ↦ rw f tt
]
step-Takes w (leaves i t1 t2) inv = elim (Option-cases (get_elem? w.phases i)) [
  | inl f ↦ rw f tt
  | inr (running r, f) ↦ rw f (leaves-Takes w i t1 t2 r inv f)
  | inr (waiting, f) ↦ rw f tt
  | inr (blocked, f) ↦ rw f tt
  | inr (finished, f) ↦ rw f tt
  | inr (ready, f) ↦ rw f tt
]
step-Takes w (starts_io i now) inv = elim (Option-cases (get_elem? w.phases i)) [
  | inl f ↦ rw f tt
  | inr (blocked, f) ↦ rw f (starts_io-Takes w i now)
  | inr (waiting, f) ↦ rw f tt
  | inr (ready, f) ↦ rw f tt
  | inr (finished, f) ↦ rw f tt
  | inr (running r, f) ↦ rw f tt
]

Reachable-Takes : (w v : World) (n : ℕ) → Inv w → Reachable w n v → total_left v + n ≡ total_left w
Reachable-Takes w v n inv here = omega arith
Reachable-Takes w v _ inv (onward n u _ e r f) = omega (
  arith,
  subst (Takes u (spent u e)) f (step-Takes u e (Reachable-Inv w u n inv r)),
  Reachable-Takes w u n inv r,
)

-- the time of all bursts in the file
abbrev pub total_time : List Row → ℕ
total_time rows = sum_of (λ row. row.row_burst_count * row.row_burst_time) rows

total_left-start : (rows : List Row) (now : ℕ) → total_left (start rows now) ≡ total_time rows
unfolding start os_parse_file
total_left-start rows now = sums rows
  where
    sums : (rows : List Row) → sum_of time_left (map (info_of now) rows) ≡ total_time rows
    sums [] = refl
    sums (row ∷ rows) = omega (arith, sums rows, time_left-info_of now row)

module _ (rows : List Row) (now : ℕ) (valid : All IsRow rows) (small : length rows < 2 ^ 64) where
  -- What has run and what is left make up the bursts of the file.
  Reachable-total :
      (n : ℕ) (w : World) → Reachable (start rows now) n w → n + total_left w ≡ total_time rows
  Reachable-total n w r = omega (
    arith,
    Reachable-Takes (start rows now) w n (start-Inv rows now valid small) r,
    total_left-start rows now,
  )

  -- From rows with a burst at least and with numbers below 2^64, whatever events have happened, when
  -- the test that ends `os_loop` holds, the times of all runs add up to those of all bursts in the
  -- file.
  pub all_done-total :
      (n : ℕ) (w : World)
      → Reachable (start rows now) n w
      → all_done w.os ≡ true
      → n ≡ total_time rows
  all_done-total n w r e =
      let inv = Reachable-Inv (start rows now) w n (start-Inv rows now valid small) r in
      omega (
        arith,
        Reachable-total n w r,
        all_finished-left 0 w.os.process_infos w.phases inv.fits (sym (all_done-Inv w inv) ∙ e),
      )
