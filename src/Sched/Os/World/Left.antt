-- ===== src/Sched/Os/World/Left.antt =====
-- What is left of the bursts of a process.
use ift.Base.{
  ℕ, zero, suc, ◌+◌, ◌≡◌, refl, sym, ap, subst, ◌∙◌, true, false, not, ◌&&◌, some, List, [], ◌∷◌,
  inl, inr, arith, ltb, ◌==◌, length, get_elem?, modify, Bool-cases, Option-cases, ◌*◌, drop,
  replicate,
}
use ift.Sched.Os.{
  Burst, ProcessInfo, Running, Row, uint64, running_of, ran_burst, ran_info, io_info, info_of,
  ready_info,
}
use ift.Sched.Os.World.{Phase, waiting, ready, blocked, finished, running}
use ift.Sched.Os.World.Lists.{
  some_inj, All-some, get_elem?-modify, drop_all, sum_of, AllAt, OnSome, OnSome-if,
}
use ift.Sched.Os.World.Fits.{IsTimed, Sound, HasBurst, Fits}
use ift.Sched.Os.World.Ran.{ran_burst-remaining, running_of-time, ran_info-next}
use ift.Sched.Os.World.Count.{all_finished}

abbrev remaining_of : Burst → ℕ
remaining_of b = b.remaining

-- what is left of the bursts of a process, from the current one on
pub time_left : ProcessInfo → ℕ
time_left info = sum_of remaining_of (drop info.burst_cpu_index info.bursts)

sum_of-drop :
    (bs : List Burst) (k : ℕ) (b : Burst)
    → get_elem? bs k ≡ some b
    → sum_of remaining_of (drop k bs) ≡ b.remaining + sum_of remaining_of (drop (suc k) bs)
sum_of-drop [] k b e = absurd (ground (arith, e))
sum_of-drop (c ∷ bs) zero b e =
    let same : c.remaining ≡ b.remaining = ap remaining_of (some_inj e) in omega (arith, same)
sum_of-drop (c ∷ bs) (suc k) b e = sum_of-drop bs k b e

drop-modify :
    (bs : List Burst) (k : ℕ) (f : Burst → Burst) → drop (suc k) (modify bs k f) ≡ drop (suc k) bs
drop-modify [] k f = refl
drop-modify (b ∷ bs) zero f = refl
drop-modify (b ∷ bs) (suc k) f = drop-modify bs k f

sum_of-drop-modify :
    (bs : List Burst) (k : ℕ) (f : Burst → Burst) (b : Burst)
    → get_elem? bs k ≡ some b
    → sum_of remaining_of (drop k (modify bs k f))
      ≡ (f b).remaining + sum_of remaining_of (drop (suc k) bs)
sum_of-drop-modify bs k f b e =
    sum_of-drop (modify bs k f) k (f b) (get_elem?-modify bs k f b e)
    ∙ ap (λ l. (f b).remaining + sum_of remaining_of l) (drop-modify bs k f)

ran-time_left :
    (t1 t2 : ℕ) (info : ProcessInfo) (r : Running) (burst : Burst)
    → r.current ≡ info.burst_cpu_index
    → get_elem? info.bursts info.burst_cpu_index ≡ some burst
    → (ran_burst r t1 t2 burst).remaining + r.time ≡ burst.remaining
    → (r.preempted ≡ false → r.time ≡ burst.remaining)
    → Sound info
    → HasBurst info
    → time_left (ran_info r t1 t2 info) + r.time ≡ time_left info
unfolding time_left ran_info
ran-time_left t1 t2 info r burst at_current at_burst ran all sound has =
    let f = ran_burst r t1 t2 in
    let k = info.burst_cpu_index in
    let bs = info.bursts in
    let moved : (ran_info r t1 t2 info).bursts ≡ modify bs k f =
      ap (λ n. modify bs n f) at_current in
    elim (Bool-cases r.preempted) [
      | inl p ↦
          let same : (ran_info r t1 t2 info).burst_cpu_index ≡ k = rw p refl in
          let after : time_left (ran_info r t1 t2 info)
              ≡ sum_of remaining_of (drop k (modify bs k f)) =
            ap (λ n. sum_of remaining_of (drop n (ran_info r t1 t2 info).bursts)) same
            ∙ ap (λ l. sum_of remaining_of (drop k l)) moved in
          omega (
            arith,
            after,
            sum_of-drop-modify bs k f burst at_burst,
            sum_of-drop bs k burst at_burst,
            ran,
          )
      | inr p ↦
          let plus : k + 1 ≡ suc k = omega arith in
          let same : (ran_info r t1 t2 info).burst_cpu_index ≡ suc k =
            ran_info-next r t1 t2 info p sound has ∙ plus in
          let after : time_left (ran_info r t1 t2 info) ≡ sum_of remaining_of (drop (suc k) bs) =
            ap (λ n. sum_of remaining_of (drop n (ran_info r t1 t2 info).bursts)) same
            ∙ ap (λ l. sum_of remaining_of (drop (suc k) l)) moved
            ∙ ap (sum_of remaining_of) (drop-modify bs k f) in
          omega (arith, after, sum_of-drop bs k burst at_burst, all p)
    ]

-- A run takes its time off what is left.
pub ran_info-time_left :
    (i t1 t2 : ℕ) (info : ProcessInfo) (r : Running)
    → Fits i info (running r)
    → time_left (ran_info r t1 t2 info) + r.time ≡ time_left info
unfolding running_of
ran_info-time_left i t1 t2 info r (sound, has, idle, run) =
    let timed =
      All-some IsTimed info.bursts info.burst_cpu_index run.burst run.burst_at sound.timed in
    let s = running_of i run.time_slice info run.burst in
    let (le, all) = running_of-time i run.time_slice info run.burst in
    subst (λ r. time_left (ran_info r t1 t2 info) + r.time ≡ time_left info) (sym run.snapshot)
      (ran-time_left t1 t2 info s run.burst refl run.burst_at
        (ran_burst-remaining s t1 t2 run.burst timed le all) all sound has)

sum_of-modify_same :
    (bs : List Burst) (i k : ℕ) (f : Burst → Burst)
    → ((b : Burst) → (f b).remaining ≡ b.remaining)
    → sum_of remaining_of (drop k (modify bs i f)) ≡ sum_of remaining_of (drop k bs)
sum_of-modify_same [] i k f h = refl
sum_of-modify_same (b ∷ bs) zero zero f h = ap (λ n. n + sum_of remaining_of bs) (h b)
sum_of-modify_same (b ∷ bs) zero (suc k) f h = refl
sum_of-modify_same (b ∷ bs) (suc i) zero f h =
    ap (λ n. b.remaining + n) (sum_of-modify_same bs i zero f h)
sum_of-modify_same (b ∷ bs) (suc i) (suc k) f h = sum_of-modify_same bs i k f h

pub ready_info-time_left :
    (i now : ℕ) (info : ProcessInfo)
    → OnSome (λ info'. time_left info' ≡ time_left info) (ready_info i now info)
unfolding ready_info time_left
ready_info-time_left i now info =
    OnSome-if _ (info.is_new && not (info.burst_cpu_index == 0)) _ _ tt (
      OnSome-if _ (ltb info.burst_cpu_index (length info.bursts)) _ _
        (sum_of-modify_same info.bursts info.burst_cpu_index info.burst_cpu_index
          (λ b. record b { arrival = now }) (λ b. refl))
        tt)

pub io_info-time_left :
    (now : ℕ) (info : ProcessInfo)
    → OnSome (λ info'. time_left info' ≡ time_left info) (io_info now info)
unfolding io_info time_left
io_info-time_left now info =
    OnSome-if _ (uint64 (info.burst_io_index + 1) == info.burst_cpu_index) _ _
      (elim (Option-cases (get_elem? info.bursts info.burst_io_index)) [
        | inl e ↦ rw e tt
        | inr (b, e) ↦ rw e refl
      ])
      tt

sum_of-replicate : (n : ℕ) (b : Burst) → sum_of remaining_of (replicate n b) ≡ n * b.remaining
sum_of-replicate zero b = omega arith
sum_of-replicate (suc n) b = omega (arith, sum_of-replicate n b)

pub time_left-info_of :
    (now : ℕ) (row : Row) → time_left (info_of now row) ≡ row.row_burst_count * row.row_burst_time
unfolding time_left info_of
time_left-info_of now row = sum_of-replicate row.row_burst_count _

time_left-finished : (i : ℕ) (info : ProcessInfo) → Fits i info finished → time_left info ≡ 0
unfolding time_left
time_left-finished i info (sound, idle, over) =
    ap (λ k. sum_of remaining_of (drop k info.bursts)) (over ∙ sym sound.size)
    ∙ ap (sum_of remaining_of) (drop_all info.bursts)

pub all_finished-left :
    (n : ℕ) (infos : List ProcessInfo) (phases : List Phase)
    → AllAt Fits n infos phases
    → all_finished phases ≡ true
    → sum_of time_left infos ≡ 0
all_finished-left n [] [] h e = refl
all_finished-left n [] (p ∷ ps) h e = absurd h
all_finished-left n (x ∷ xs) [] h e = absurd h
all_finished-left n (x ∷ xs) (finished ∷ ps) h e =
    omega (arith, time_left-finished n x h.0, all_finished-left (suc n) xs ps h.1 e)
all_finished-left n (x ∷ xs) (waiting ∷ ps) h e = absurd (ground (arith, e))
all_finished-left n (x ∷ xs) (ready ∷ ps) h e = absurd (ground (arith, e))
all_finished-left n (x ∷ xs) (blocked ∷ ps) h e = absurd (ground (arith, e))
all_finished-left n (x ∷ xs) (running r ∷ ps) h e = absurd (ground (arith, e))
