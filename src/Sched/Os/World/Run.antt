-- ===== src/Sched/Os/World/Run.antt =====
-- A whole run of a process, while other threads go on with the others.
use ift.Base.{
  List, [], ◌∷◌, zero, suc, refl, ℕ, ◌<◌, ◌≡◌, sym, ap, ◌∙◌, true, some, arith, ltb, get_elem?,
  modify, set, Yields, Yields-some,
}
use ift.Sched.Os.{
  Os, CpuCtx, ProcessInfo, Running, os_cores, enter_info, enter_user_mode, leave_user_mode,
  ran_info, status_of, running_of, os_run_process, os_start_io, io_info,
}
use ift.Sched.Os.World.{Phase, ready, running, blocked, waiting, after_status}
use ift.Sched.Os.World.Fits.{Fits, enter_info-Fits, io_info-Fits}
use ift.Sched.Os.World.Ran.{ran_info-Fits}
use ift.Sched.Os.World.Lists.{get_elem?-modify}

-- The record of a process fits a phase.
abbrev pub At : ℕ → Phase → Os → Type 0
At p phase os =
    (info : ProcessInfo) × (get_elem? os.process_infos p ≡ some info) × Fits p info phase

-- It leaves a process alone.
abbrev pub Spares : ℕ → (Os → Os) → Type 0
Spares p f = (os : Os) → get_elem? (f os).process_infos p ≡ get_elem? os.process_infos p

pub Spares-At :
    (p : ℕ) (phase : Phase) (f : Os → Os) (os : Os) → Spares p f → At p phase os → At p phase (f os)
Spares-At p phase f os spares (info, e, fit) = (info, spares os ∙ e, fit)

leave-At :
    (p t1 t2 : ℕ) (r : Running) (os : Os)
    → At p (running r) os
    → At p (after_status (status_of r)) (leave_user_mode os r t1 t2).0
unfolding leave_user_mode running_of
leave-At p t1 t2 r os (info, e, fit) =
    let same : p ≡ r.pid = ap (λ s. s.pid) (sym fit.3.snapshot) in
    (
      ran_info r t1 t2 info,
      ap (λ k. get_elem? (modify os.process_infos k (ran_info r t1 t2)) p) (sym same)
          ∙ get_elem?-modify os.process_infos p (ran_info r t1 t2) info e,
      ran_info-Fits p t1 t2 info r fit,
    )

pub os_run_process-At :
    (os : Os) (ctx : CpuCtx) (p core time_slice : ℕ) (during : Os → Os) (t1 t2 : ℕ)
    → core < os_cores
    → Spares p during
    → At p ready os
    → Yields
        (λ result. At p (after_status result.2) result.0)
        (os_run_process os ctx (some p) core time_slice during t1 t2)
unfolding os_run_process enter_user_mode leave_user_mode
os_run_process-At os ctx p core time_slice during t1 t2 in_range spares (info, e, fit) =
    let c : ltb core os_cores ≡ true = ground (arith, in_range) in
    let (r, f, fit') =
      Yields-some (λ r. Fits p info (running r)) (enter_info p time_slice info)
        (enter_info-Fits p time_slice info fit) in
    rw (c, e, f) (leave-At p t1 t2 r (during os) (info, spares os ∙ e, fit'))

get_elem?-set_self :
    (xs : List ProcessInfo) (p : ℕ) (x y : ProcessInfo)
    → get_elem? xs p ≡ some x
    → get_elem? (set xs p y) p ≡ some y
get_elem?-set_self [] p x y e = absurd (ground (arith, e))
get_elem?-set_self (z ∷ xs) zero x y e = refl
get_elem?-set_self (z ∷ xs) (suc p) x y e = get_elem?-set_self xs p x y e

pub os_start_io-At :
    (os : Os) (p now : ℕ) → At p blocked os → Yields (At p waiting) (os_start_io os p now)
unfolding os_start_io
os_start_io-At os p now (info, e, fit) =
    let (info', f, fit') =
      Yields-some (λ info'. Fits p info' waiting) (io_info now info)
        (io_info-Fits p now info fit) in
    rw (e, f) (info', get_elem?-set_self os.process_infos p info info' e, fit')
