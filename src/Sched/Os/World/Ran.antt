-- ===== src/Sched/Os/World/Ran.antt =====
-- What a run leaves of a burst and of a process.
use ift.Base.{
  ℕ, ◌+◌, ◌≤◌, ◌<◌, ◌≡◌, refl, sym, ap, subst, ◌∙◌, true, false, not, ◌&&◌, some, inl, inr, arith,
  ltb, leb, ◌==◌, get_elem?, Bool-cases,
}
use ift.Sched.Process.{run_done, run_blocked, run_preempted}
use ift.Sched.Os.{
  Burst, ProcessInfo, Running, uint64, running_of, first_run_at, ran_burst, ran_info, status_of,
}
use ift.Sched.Os.World.{ready, running, after_status}
use ift.Sched.Os.World.Lists.{some_inj, if_same}
use ift.Sched.Os.World.Fits.{IsTimed, Sound, IsIdle, HasBurst, Fits, modified-Sound}

and_lt : (m n : ℕ) → (ltb 0 m && ltb m n) ≡ true → m ≤ n
and_lt m n e = ground arith

first_run_at-remaining :
    (r : Running) (t1 : ℕ) (b : Burst) → (first_run_at r t1 b).remaining ≡ b.remaining
unfolding first_run_at
first_run_at-remaining r t1 b =
    if_same (r.burst.cpu_time == r.burst.remaining) (λ x. x.remaining) _ b refl

first_run_at-cpu_time :
    (r : Running) (t1 : ℕ) (b : Burst) → (first_run_at r t1 b).cpu_time ≡ b.cpu_time
unfolding first_run_at
first_run_at-cpu_time r t1 b =
    if_same (r.burst.cpu_time == r.burst.remaining) (λ x. x.cpu_time) _ b refl

-- What is left of a burst that ran, and what it ran.
pub ran_burst-remaining :
    (r : Running) (t1 t2 : ℕ) (b : Burst)
    → IsTimed b
    → r.time ≤ b.remaining
    → (r.preempted ≡ false → r.time ≡ b.remaining)
    → (ran_burst r t1 t2 b).remaining + r.time ≡ b.remaining
unfolding ran_burst
ran_burst-remaining r t1 t2 b timed le all = elim (Bool-cases r.preempted) [
  | inl p ↦ rw (p, first_run_at-remaining r t1 b) (omega (arith, timed, le))
  | inr p ↦ rw p (omega (arith, all p))
]

ran_burst-cpu_time :
    (r : Running) (t1 t2 : ℕ) (b : Burst) → (ran_burst r t1 t2 b).cpu_time ≡ b.cpu_time
unfolding ran_burst
ran_burst-cpu_time r t1 t2 b = elim (Bool-cases r.preempted) [
  | inl p ↦ rw p (first_run_at-cpu_time r t1 b)
  | inr p ↦ rw p (first_run_at-cpu_time r t1 b)
]

ran_burst-IsTimed :
    (r : Running) (t1 t2 : ℕ) (b : Burst)
    → IsTimed b
    → r.time ≤ b.remaining
    → (r.preempted ≡ false → r.time ≡ b.remaining)
    → IsTimed (ran_burst r t1 t2 b)
ran_burst-IsTimed r t1 t2 b timed le all =
    let e : (ran_burst r t1 t2 b).cpu_time ≡ b.cpu_time = ran_burst-cpu_time r t1 t2 b in
    (omega (arith, e, timed, ran_burst-remaining r t1 t2 b timed le all), omega (arith, e, timed))

-- The time of a run is what is left of the burst, or a time slice that is shorter.
pub running_of-time :
    (i time_slice : ℕ) (info : ProcessInfo) (b : Burst)
    → let r = running_of i time_slice info b in
      (r.time ≤ b.remaining) × (r.preempted ≡ false → r.time ≡ b.remaining)
unfolding running_of
running_of-time i time_slice info b =
    elim (Bool-cases (ltb 0 time_slice && ltb time_slice b.remaining)) [
      | inl p ↦ rw p (and_lt time_slice b.remaining p, λ e. absurd (ground (arith, e)))
      | inr p ↦ rw p (omega arith, λ e. refl)
    ]

ran_info-Sound :
    (r : Running) (t1 t2 : ℕ) (info : ProcessInfo) (burst : Burst)
    → get_elem? info.bursts r.current ≡ some burst
    → r.time ≤ burst.remaining
    → (r.preempted ≡ false → r.time ≡ burst.remaining)
    → Sound info
    → Sound (ran_info r t1 t2 info)
unfolding ran_info
ran_info-Sound r t1 t2 info burst e le all sound =
    modified-Sound info _ r.current (ran_burst r t1 t2) refl refl
      (λ b f t.
        let same : burst ≡ b = some_inj (sym e ∙ f) in
        ran_burst-IsTimed r t1 t2 b t (subst (λ x. r.time ≤ x.remaining) same le)
          (λ p. all p ∙ ap (λ x. x.remaining) same))
      sound

pub ran_info-next :
    (r : Running) (t1 t2 : ℕ) (info : ProcessInfo)
    → r.preempted ≡ false
    → Sound info
    → HasBurst info
    → (ran_info r t1 t2 info).burst_cpu_index ≡ info.burst_cpu_index + 1
unfolding ran_info
ran_info-next r t1 t2 info p sound has = rw p (omega (arith, has.more, sound.small))

-- Where a run leaves a process.
phase-Fits :
    (i t1 t2 : ℕ) (info : ProcessInfo) (r : Running)
    → r.done ≡ not r.preempted && leb info.burst_count (uint64 (info.burst_cpu_index + 1))
    → Sound (ran_info r t1 t2 info)
    → Fits i info ready
    → Fits i (ran_info r t1 t2 info) (after_status (status_of r))
unfolding status_of ran_info
phase-Fits i t1 t2 info r d sound' (sound, has, idle) =
    let idle' : IsIdle (ran_info r t1 t2 info) = record {
      not_waiting = idle.not_waiting;
      not_new = idle.not_new;
    } in
    let wrapped : uint64 (info.burst_cpu_index + 1) ≡ info.burst_cpu_index + 1 =
      omega (arith, has.more, sound.small) in
    elim (Bool-cases r.preempted) [
      | inl p ↦
          let st : status_of r ≡ run_preempted = rw p refl in
          let same : (ran_info r t1 t2 info).burst_cpu_index ≡ info.burst_cpu_index = rw p refl in
          subst (λ s. Fits i (ran_info r t1 t2 info) (after_status s)) (sym st)
            (
              sound',
              record { in_step = same ∙ has.in_step; more = omega (arith, same, has.more) },
              idle',
            )
      | inr p ↦
          let next = ran_info-next r t1 t2 info p sound has in
          elim (Bool-cases (leb info.burst_count (uint64 (info.burst_cpu_index + 1)))) [
            | inl l ↦
                let st : status_of r ≡ run_done = rw (p, d, p, l) refl in
                let count : info.burst_count ≤ info.burst_cpu_index + 1 =
                  ground (arith, l, wrapped) in
                subst (λ s. Fits i (ran_info r t1 t2 info) (after_status s)) (sym st)
                  (sound', idle', omega (arith, next, count, has.more))
            | inr l ↦
                let st : status_of r ≡ run_blocked = rw (p, d, p, l) refl in
                let count : info.burst_cpu_index + 1 < info.burst_count =
                  ground (arith, l, wrapped) in
                subst (λ s. Fits i (ran_info r t1 t2 info) (after_status s)) (sym st)
                  (sound', idle', omega (arith, next, has.in_step), omega (arith, next, count))
          ]
    ]

pub ran_info-Fits :
    (i t1 t2 : ℕ) (info : ProcessInfo) (r : Running)
    → Fits i info (running r)
    → Fits i (ran_info r t1 t2 info) (after_status (status_of r))
unfolding running_of
ran_info-Fits i t1 t2 info r (sound, has, idle, run) =
    subst (λ r. Fits i (ran_info r t1 t2 info) (after_status (status_of r))) (sym run.snapshot)
      (fits_of run.time_slice run.burst run.burst_at)
  where
    fits_of :
        (time_slice : ℕ) (burst : Burst)
        → get_elem? info.bursts info.burst_cpu_index ≡ some burst
        → let r = running_of i time_slice info burst in
          Fits i (ran_info r t1 t2 info) (after_status (status_of r))
    fits_of time_slice burst e =
        let (le, all) = running_of-time i time_slice info burst in
        phase-Fits i t1 t2 info (running_of i time_slice info burst) refl
          (ran_info-Sound (running_of i time_slice info burst) t1 t2 info burst e le all sound)
          (sound, has, idle)
