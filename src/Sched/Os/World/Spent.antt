-- ===== src/Sched/Os/World/Spent.antt =====
-- How much of its burst a process has used when a run is over.
use ift.Base.{
  some_of_lt, ℕ, ◌-◌, ◌+◌, ◌<◌, ◌≡◌, refl, ap, subst, ◌∙◌, true, ◌&&◌, some, inl, inr, arith, ltb,
  get_elem?, Bool-cases, Yields,
}
use ift.Sched.Os.{
  Os, CpuCtx, Burst, ProcessInfo, Running, os_cores, running_of, enter_info, enter_user_mode,
  leave_user_mode, ran_burst, ran_info, status_of, os_run_process,
}
use ift.Sched.Os.World.{Phase, ready, blocked, finished, after_status}
use ift.Sched.Os.World.Lists.{All-some, get_elem?-modify}
use ift.Sched.Os.World.Fits.{IsTimed, Fits}
use ift.Sched.Os.World.Ran.{ran_burst-remaining, running_of-time, ran_info-Fits}
use ift.Sched.Os.World.Run.{At, Spares}

-- The record of a process fits a phase, `left` is left of its burst `k`, and that is the burst which
-- it runs next when it is ready.
pub record Uses (p k left : ℕ) (phase : Phase) (os : Os) : Type 0 where
  pub info : ProcessInfo
  pub found : get_elem? os.process_infos p ≡ some info
  pub fits : Fits p info phase
  pub burst : Burst
  pub burst_at : get_elem? info.bursts k ≡ some burst
  pub remaining : burst.remaining ≡ left
  pub current : phase ≡ ready → info.burst_cpu_index ≡ k

pub Uses-At : (p k left : ℕ) (phase : Phase) (os : Os) → Uses p k left phase os → At p phase os
Uses-At p k left phase os u = (u.info, u.found, u.fits)

pub At-Uses : (p : ℕ) (os : Os) → At p ready os → (k : ℕ) × (left : ℕ) × Uses p k left ready os
At-Uses p os (info, e, (sound, has, idle)) =
    let (b, f) =
      some_of_lt info.bursts info.burst_cpu_index (omega (arith, has.more, sound.size)) in
    (
      info.burst_cpu_index,
      b.remaining,
      record {
        info = info;
        found = e;
        fits = (sound, has, idle);
        burst = b;
        burst_at = f;
        remaining = refl;
        current = λ _. refl;
      },
    )

pub Spares-Uses :
    (p k left : ℕ) (phase : Phase) (f : Os → Os) (os : Os)
    → Spares p f
    → Uses p k left phase os
    → Uses p k left phase (f os)
Spares-Uses p k left phase f os spares u = record {
  info = u.info;
  found = spares os ∙ u.found;
  fits = u.fits;
  burst = u.burst;
  burst_at = u.burst_at;
  remaining = u.remaining;
  current = u.current;
}

-- A run uses its time slice, or what is left where that is less.
running_of-slice :
    (i time_slice : ℕ) (info : ProcessInfo) (b : Burst)
    → 0 < time_slice
    → b.remaining - (running_of i time_slice info b).time ≡ b.remaining - time_slice
unfolding running_of
running_of-slice i time_slice info b pos =
    elim (Bool-cases (ltb 0 time_slice && ltb time_slice b.remaining)) [
      | inl p ↦ rw p refl
      | inr p ↦ rw p (ground (arith, p, pos))
    ]

-- A process that is ready behind a run was preempted, in the same burst.
ran_info-current :
    (r : Running) (t1 t2 : ℕ) (info : ProcessInfo)
    → after_status (status_of r) ≡ ready
    → (ran_info r t1 t2 info).burst_cpu_index ≡ info.burst_cpu_index
unfolding ran_info status_of
ran_info-current r t1 t2 info e = elim (Bool-cases r.preempted) [
  | inl p ↦ rw p refl
  | inr p ↦ elim (Bool-cases r.done) [
    | inl d ↦
        let over : after_status (status_of r) ≡ finished = rw (p, d) refl in absurd (cc (e, over))
    | inr d ↦
        let over : after_status (status_of r) ≡ blocked = rw (p, d) refl in absurd (cc (e, over))
  ]
]

leave-Uses :
    (p t1 t2 time_slice : ℕ) (info : ProcessInfo) (b : Burst) (os : Os)
    → get_elem? os.process_infos p ≡ some info
    → get_elem? info.bursts info.burst_cpu_index ≡ some b
    → 0 < time_slice
    → Fits p info ready
    → let r = running_of p time_slice info b in
      Uses p info.burst_cpu_index
        (b.remaining - time_slice)
        (after_status (status_of r))
        (leave_user_mode os r t1 t2).0
unfolding leave_user_mode running_of
leave-Uses p t1 t2 time_slice info b os e f pos (sound, has, idle) =
    let r = running_of p time_slice info b in
    let (le, all) = running_of-time p time_slice info b in
    let timed = All-some IsTimed info.bursts info.burst_cpu_index b f sound.timed in
    let used : (ran_burst r t1 t2 b).remaining + r.time ≡ b.remaining =
      ran_burst-remaining r t1 t2 b timed le all in
    record {
      info = ran_info r t1 t2 info;
      found = get_elem?-modify os.process_infos p (ran_info r t1 t2) info e;
      fits = ran_info-Fits p t1 t2 info r (
        sound,
        has,
        idle,
        record { time_slice = time_slice; burst = b; burst_at = f; snapshot = refl },
      );
      burst = ran_burst r t1 t2 b;
      burst_at = get_elem?-modify info.bursts info.burst_cpu_index (ran_burst r t1 t2) b f;
      remaining = omega (arith, used, le, running_of-slice p time_slice info b pos);
      current = ran_info-current r t1 t2 info;
    }

pub os_run_process-Uses :
    (os : Os) (ctx : CpuCtx) (p core time_slice k left : ℕ) (during : Os → Os) (t1 t2 : ℕ)
    → core < os_cores
    → Spares p during
    → 0 < time_slice
    → Uses p k left ready os
    → Yields
        (λ result. Uses p k (left - time_slice) (after_status result.2) result.0)
        (os_run_process os ctx (some p) core time_slice during t1 t2)
unfolding os_run_process enter_user_mode enter_info leave_user_mode
os_run_process-Uses os ctx p core time_slice k left during t1 t2 in_range spares pos u =
    let c : ltb core os_cores ≡ true = ground (arith, in_range) in
    let inside : ltb u.info.burst_cpu_index u.info.burst_count ≡ true =
      ground (arith, u.fits.1.more) in
    let at : u.info.burst_cpu_index ≡ k = u.current refl in
    let f : get_elem? u.info.bursts u.info.burst_cpu_index ≡ some u.burst =
      ap (get_elem? u.info.bursts) at ∙ u.burst_at in
    let r = running_of p time_slice u.info u.burst in
    let used =
      leave-Uses p t1 t2 time_slice u.info u.burst (during os) (spares os ∙ u.found) f pos u.fits in
    rw (c, u.found, inside, f)
      (subst
        (λ j.
          Uses p j (left - time_slice) (after_status (status_of r))
            (leave_user_mode (during os) r t1 t2).0)
        at
        (subst
          (λ x.
            Uses p u.info.burst_cpu_index (x - time_slice) (after_status (status_of r))
              (leave_user_mode (during os) r t1 t2).0)
          u.remaining used))
