-- ===== src/Sched/Micro/Quantum.antt =====
-- The pieces of a quantum: how many there are, how much of a burst they run, and that no assertion of
-- the operating system fails.
use ift.Base.{
  ◌⊎◌, ℕ, zero, suc, ◌+◌, ◌-◌, ◌*◌, ◌^◌, ◌≤◌, ◌<◌, min, ◌≡◌, refl, sym, subst, true, false, inl,
  inr, arith, ◌==◌, ltb, if◌then◌else◌, Yields, Yields-some, Bool-cases, below-suc, ltb→lt, lt→ltb,
  ◌%◌, some,
}
use ift.Sched.Process.{
  Process, Status, run_done, run_blocked, run_preempted, not_run, max_priority_level,
}
use ift.Sched.Os.{Os, CpuCtx, uint64, os_cores, os_run_process}
use ift.Sched.Os.World.{ready, after_status}
use ift.Sched.Os.World.Run.{Spares}
use ift.Sched.Os.World.Spent.{Uses, Spares-Uses, os_run_process-Uses}
use ift.Sched.Micro.{
  Turn, Micro, stops, asserts, out_of_fuel, micro_quantum, ran_process, is_preempted, has_left,
  after_micro, micro_loop, full_run, run_quantum,
}

-- The other threads leave the process alone.
abbrev pub Quiet : ℕ → (ℕ → Turn) → Type 0
Quiet p turns = (k : ℕ) → Spares p (turns k).before × Spares p (turns k).during

-- A run in pieces of `slice` stops for a reason: the quantum is used, a process of the highest level
-- waits, or the process left.
abbrev pub Reason : ℕ → ℕ → (ℕ → Turn) → Status → ℕ → Type 0
Reason quantum slice turns status n =
    (quantum ≤ n * slice)
    ⊎ ((j : ℕ) × (n ≡ suc j) × (is_preempted (turns j) ≡ true))
    ⊎ (has_left status ≡ true)

-- The run ends for a reason, with pieces that exceed the quantum by less than one, of which only the
-- last one ends with a process of the highest level waiting. Each piece took `slice` from what was
-- left of burst `k`, and the status tells where the process is.
abbrev pub Ends : ℕ → ℕ → ℕ → (ℕ → Turn) → ℕ → ℕ → Micro → Type 0
Ends p quantum slice turns k left (stops os ctx v held n) =
    (n * slice < quantum + slice)
    × ((j : ℕ) → suc j < n → is_preempted (turns j) ≡ false)
    × Reason quantum slice turns v.status n
    × Uses p k (left - n * slice) (after_status v.status) os
Ends p quantum slice turns k left asserts = ⊥
Ends p quantum slice turns k left out_of_fuel = ⊥

-- A process of the highest level runs in one piece, another one in pieces of 120 at most.
abbrev pub piece : ℕ → Process → ℕ
piece quantum v = if v.priority_level == max_priority_level then quantum else min 120 quantum

micro_quantum-small : (quantum : ℕ) → quantum < 2 ^ 31 → micro_quantum quantum ≡ min 120 quantum
unfolding micro_quantum
micro_quantum-small quantum small =
    let low : quantum % 2 ^ 32 ≡ quantum = omega arith in
    rw low (rw (lt→ltb quantum (2 ^ 31) small) refl)

module _ (p core quantum k left : ℕ) (turns : ℕ → Turn) (in_range : core < os_cores)
    (quiet : Quiet p turns) (positive : 0 < quantum) (small : quantum < 2 ^ 31) where
  abbrev loop : ℕ → ℕ → ℕ → Os → CpuCtx → Process → Micro
  loop = micro_loop p core quantum turns

  abbrev Calm : ℕ → Type 0
  Calm n = (j : ℕ) → j < n → is_preempted (turns j) ≡ false

  run-Uses :
      (j slice rest : ℕ) (os : Os) (ctx : CpuCtx)
      → 0 < slice
      → Uses p k rest ready os
      → Yields
          (λ result. Uses p k (rest - slice) (after_status result.2) result.0)
          (os_run_process
            ((turns j).before os)
            ctx
            (some p)
            core
            slice
            (turns j).during
            (turns j).t1
            (turns j).t2)
  run-Uses j slice rest os ctx pos uses =
      os_run_process-Uses ((turns j).before os) ctx p core slice k rest (turns j).during
        (turns j).t1 (turns j).t2 in_range (quiet j).1 pos
        (Spares-Uses p k rest ready (turns j).before os (quiet j).0 uses)

  Calm-before : (n : ℕ) → Calm n → (j : ℕ) → suc j < suc n → is_preempted (turns j) ≡ false
  Calm-before n calm j lt = calm j (omega arith)

  stays_ready : (s : Status) → has_left s ≡ false → after_status s ≡ ready
  stays_ready run_preempted e = refl
  stays_ready not_run e = refl
  stays_ready run_blocked e = absurd (ground (arith, e))
  stays_ready run_done e = absurd (ground (arith, e))

  not_first :
      (i : ℕ) (v : Process)
      → ltb i quantum ≡ false
      → (i < quantum) ⊎ (after_status v.status ≡ ready)
      → after_status v.status ≡ ready
  not_first i v t (inl lt) = absurd (ground (arith, t, lt))
  not_first i v t (inr e) = e

  micro_loop-Ends :
      (fuel n i : ℕ) (os : Os) (ctx : CpuCtx) (v : Process)
      → i ≡ n * min 120 quantum
      → n ≤ i
      → n ≤ quantum
      → n + fuel ≡ suc quantum
      → i < quantum + min 120 quantum
      → Calm n
      → (i < quantum) ⊎ (after_status v.status ≡ ready)
      → Uses p k (left - n * min 120 quantum) ready os
      → Ends p quantum (min 120 quantum) turns k left (loop fuel n i os ctx v)
  unfolding micro_loop after_micro ran_process
  micro_loop-Ends zero n i os ctx v e le le' fuelled bound calm st uses = absurd (omega arith)
  micro_loop-Ends (suc fuel) n i os ctx v e le le' fuelled bound calm st uses =
      let m = min 120 quantum in
      elim (Bool-cases (ltb i quantum)) [
        | inr t ↦ rw t (
          omega (arith, e, bound),
          (λ j lt. calm j (omega arith)),
          inl (ground (arith, t, e)),
          subst (λ f. Uses p k (left - n * m) f os) (sym (not_first i v t st)) uses,
        )
        | inl t ↦
            let lt : i < quantum = ltb→lt i quantum t in
            let slice : micro_quantum quantum ≡ m = micro_quantum-small quantum small in
            let ((os', ctx', status), g, after) =
              Yields-some (λ result. Uses p k (left - n * m - m) (after_status result.2) result.0) _
                (run-Uses n m (left - n * m) os ctx (omega (arith, positive)) uses) in
            let used : left - n * m - m ≡ left - suc n * m = omega arith in
            let after' = subst (λ x. Uses p k x (after_status status) os') used after in
            let shorter : suc n * m < quantum + m = omega (arith, e, lt) in
            let wrapped : uint64 (i + m) ≡ i + m = omega (arith, lt, small) in
            elim (Bool-cases (is_preempted (turns n))) [
              | inl b ↦
                  rw (t, slice, g, b) (shorter, Calm-before n calm, inr (inl (n, refl, b)), after')
              | inr b ↦ elim (Bool-cases (has_left status)) [
                | inl l ↦ rw (t, slice, g, b, l) (shorter, Calm-before n calm, inr (inr l), after')
                | inr l ↦
                    let st' = stays_ready status l in
                    rw (t, slice, g, b, l, wrapped)
                      (micro_loop-Ends fuel (suc n) (i + m) os' ctx' _ (omega (arith, e))
                        (omega (arith, le, positive)) (omega (arith, le, lt))
                        (omega (arith, fuelled)) (omega (arith, lt))
                        (below-suc (λ j. is_preempted (turns j) ≡ false) n calm b) (inr st')
                        (subst (λ f. Uses p k (left - suc n * m) f os') st' after'))
              ]
            ]
      ]

  -- The run of a ready process that the other threads leave alone, of a quantum above 0 and below
  -- 2^31, which `left` is left of its burst `k`: it ends without a failed assertion, after pieces of
  -- the whole quantum at the highest level and of 120 at most elsewhere, each of which takes its
  -- length, or all that is left, from the burst. It goes on until the quantum is used, a process of
  -- the highest level is seen waiting, or the process blocked or is done; its pieces exceed the
  -- quantum by less than one, and the status tells where the process is.
  pub run_quantum-Ends :
      (os : Os) (ctx : CpuCtx) (v : Process)
      → Uses p k left ready os
      → Ends p quantum (piece quantum v) turns k left (run_quantum p core quantum turns os ctx v)
  unfolding run_quantum full_run ran_process
  run_quantum-Ends os ctx v uses = elim (Bool-cases (v.priority_level == max_priority_level)) [
    | inl top ↦
        let ((os', ctx', status), g, after) =
          Yields-some (λ result. Uses p k (left - quantum) (after_status result.2) result.0) _
            (run-Uses 0 quantum left os ctx positive uses) in
        rw (top, g)
          (
            omega (arith, positive),
            (λ j lt. absurd (omega arith)),
            inl (omega arith),
            subst (λ x. Uses p k x (after_status status) os') (omega arith) after,
          )
    | inr low ↦
        let unused : left ≡ left - 0 * min 120 quantum = omega arith in
        let uses' = subst (λ x. Uses p k x ready os) unused uses in
        rw low (
          micro_loop-Ends (suc quantum) 0 0 os ctx v (omega arith) (omega arith) (omega arith)
            (omega arith) (omega arith) (λ j lt. absurd (omega arith)) (inl positive) uses')
  ]
