-- ===== src/Sched/Os/World/Live.antt =====
-- From every world that can be reached, the processes can go on to their end.
use ift.Base.{
  ℕ, zero, suc, ◌+◌, ◌*◌, ◌-◌, ◌^◌, ◌<◌, ◌≡◌, refl, ap, ◌∙◌, subst, true, false, not, ◌&&◌, some,
  List, [], ◌∷◌, inl, inr, arith, ltb, leb, ◌==◌, if◌then◌else◌, length, get_elem?, set, modify,
  All, Yields-some, Bool-cases, Option-cases, some_of_lt,
}
use ift.Sched.Os.{
  ProcessInfo, Running, Row, uint64, poll, enter_info, enter_user_mode, leave_user_mode, ran_info,
  status_of, running_of, io_info, os_start_io, move_to_ready, ready_info, all_done,
}
use ift.Sched.Os.World.{
  Phase, waiting, ready, blocked, finished, running, World, Event, polls, enters, leaves, starts_io,
  steps, after_status, polled, entered, started_io, left, step_at, step, start, Reachable, here,
  onward, spent,
}
use ift.Sched.Os.World.Lists.{some_inj, set_same, OnSome, OnSome-if}
use ift.Sched.Os.World.Fits.{Fits, ready_info-Fits, io_info-Fits}
use ift.Sched.Os.World.Ran.{ran_info-next}
use ift.Sched.Os.World.Count.{all_finished, is_finished}
use ift.Sched.Os.World.Reach.{Inv, Safe, info_at, step-Safe}
use ift.Sched.Os.World.Ends.{IsRow, start-Inv, Reachable-Inv, all_done-Inv}

-- How far a process is from its end.
rank : ProcessInfo → Phase → ℕ
rank info waiting = 5 * (info.burst_count - info.burst_cpu_index) + 3
rank info ready = 5 * (info.burst_count - info.burst_cpu_index) + 1
rank info blocked = 5 * (info.burst_count - info.burst_cpu_index) + 4
rank info finished = 0
rank info (running r) =
    5 * (info.burst_count - info.burst_cpu_index) + (if r.preempted then 2 else 0)

abbrev ranks : List ProcessInfo → List Phase → ℕ
ranks [] ps = 0
ranks (x ∷ xs) [] = 0
ranks (x ∷ xs) (p ∷ ps) = rank x p + ranks xs ps

abbrev rank_of : World → ℕ
rank_of w = ranks w.os.process_infos w.phases

ranks-set :
    (xs : List ProcessInfo) (ps : List Phase) (i : ℕ) (x x' : ProcessInfo) (p p' : Phase)
    → get_elem? xs i ≡ some x
    → get_elem? ps i ≡ some p
    → ranks (set xs i x') (set ps i p') + rank x p ≡ ranks xs ps + rank x' p'
ranks-set [] ps i x x' p p' e f = absurd (ground (arith, e))
ranks-set (y ∷ xs) [] i x x' p p' e f = absurd (ground (arith, f))
ranks-set (y ∷ xs) (q ∷ ps) zero x x' p p' e f =
    let same : rank y q ≡ rank x p = ap (λ z. rank z q) (some_inj e) ∙ ap (rank x) (some_inj f) in
    omega (arith, same)
ranks-set (y ∷ xs) (q ∷ ps) (suc i) x x' p p' e f = omega (arith, ranks-set xs ps i x x' p p' e f)

modify-set :
    (xs : List ProcessInfo) (i : ℕ) (x : ProcessInfo) (f : ProcessInfo → ProcessInfo)
    → get_elem? xs i ≡ some x
    → modify xs i f ≡ set xs i (f x)
modify-set [] i x f e = refl
modify-set (y ∷ xs) zero x f e = ap (λ z. f z ∷ xs) (some_inj e)
modify-set (y ∷ xs) (suc i) x f e = ap (λ l. y ∷ l) (modify-set xs i x f e)

-- Some event brings the processes closer to their end.
abbrev Progress : World → Type 0
Progress w = (e : Event) × (v : World) × (step w e ≡ steps v) × (rank_of v < rank_of w)

-- the bursts of a process that are left
abbrev bursts_left : ProcessInfo → ℕ
bursts_left info = info.burst_count - info.burst_cpu_index

ready_info-bursts_left :
    (i now : ℕ) (info : ProcessInfo)
    → OnSome (λ info'. bursts_left info' ≡ bursts_left info) (ready_info i now info)
unfolding ready_info
ready_info-bursts_left i now info =
    OnSome-if _ (info.is_new && not (info.burst_cpu_index == 0)) _ _ tt
      (OnSome-if _ (ltb info.burst_cpu_index (length info.bursts)) _ _ refl tt)

io_info-bursts_left :
    (now : ℕ) (info : ProcessInfo)
    → OnSome (λ info'. bursts_left info' ≡ bursts_left info) (io_info now info)
unfolding io_info
io_info-bursts_left now info =
    OnSome-if _ (uint64 (info.burst_io_index + 1) == info.burst_cpu_index) _ _
      (elim (Option-cases (get_elem? info.bursts info.burst_io_index)) [
        | inl e ↦ rw e tt
        | inr (b, e) ↦ rw e refl
      ])
      tt

-- the world in which a process has a new record and a new place
abbrev moved : World → ℕ → ProcessInfo → Phase → World
moved w i info phase = record {
  os = record {
    process_infos = set w.os.process_infos i info;
    process_count = w.os.process_count;
    process_done_count = w.os.process_done_count;
  };
  phases = set w.phases i phase;
}

abbrev left_world : World → ℕ → Running → World
left_world w i r = record {
  os = (leave_user_mode w.os r 0 0).0;
  phases = set w.phases i (after_status (status_of r));
}

rank-ran :
    (i : ℕ) (info : ProcessInfo) (r : Running)
    → Fits i info (running r)
    → rank (ran_info r 0 0 info) (after_status (status_of r)) < rank info (running r)
unfolding rank status_of ran_info
rank-ran i info r (sound, has, idle, run) = elim (Bool-cases r.preempted) [
  | inl p ↦ rw p (omega (arith, has.more))
  | inr p ↦
      let next = ran_info-next r 0 0 info p sound has in
      elim (Bool-cases r.done) [
        | inl d ↦ rw (p, d) (omega (arith, has.more))
        | inr d ↦ rw (p, d) (omega (arith, has.more, sound.small))
      ]
]

module _ (w : World) (i : ℕ) (inv : Inv w) where
  waiting-Progress : get_elem? w.phases i ≡ some waiting → Progress w
  unfolding step step_at polled poll move_to_ready rank
  waiting-Progress e =
      let (info, f, fit) = info_at w i waiting inv e in
      let now = info.is_ready_at in
      let t : move_to_ready info now ≡ true =
        let l : leb info.is_ready_at info.is_ready_at ≡ true = ground arith in rw (fit.3, l) refl in
      let (info', g, fit') =
        Yields-some (λ info'. Fits i info' ready) (ready_info i now info)
          (ready_info-Fits i now info fit) in
      let same : bursts_left info' ≡ bursts_left info =
        subst (OnSome (λ x. bursts_left x ≡ bursts_left info)) g
          (ready_info-bursts_left i now info) in
      (
        polls i now,
        moved w i info' ready,
        rw (e, f, t, g) refl,
        omega (arith, same, ranks-set w.os.process_infos w.phases i info info' waiting ready f e),
      )

  blocked-Progress : get_elem? w.phases i ≡ some blocked → Progress w
  unfolding step step_at started_io os_start_io rank
  blocked-Progress e =
      let (info, f, fit) = info_at w i blocked inv e in
      let (info', g, fit') =
        Yields-some (λ info'. Fits i info' waiting) (io_info 0 info) (io_info-Fits i 0 info fit) in
      let same : bursts_left info' ≡ bursts_left info =
        subst (OnSome (λ x. bursts_left x ≡ bursts_left info)) g (io_info-bursts_left 0 info) in
      (
        starts_io i 0,
        moved w i info' waiting,
        rw (e, f, g) refl,
        omega (arith, same, ranks-set w.os.process_infos w.phases i info info' blocked waiting f e),
      )

  -- A run without a time slice is not preempted.
  ready-Progress : get_elem? w.phases i ≡ some ready → Progress w
  unfolding step step_at entered enter_user_mode enter_info running_of rank
  ready-Progress e =
      let (info, f, (sound, has, idle)) = info_at w i ready inv e in
      let inside : ltb info.burst_cpu_index info.burst_count ≡ true = ground (arith, has.more) in
      let (burst, g) =
        some_of_lt info.bursts info.burst_cpu_index (omega (arith, has.more, sound.size)) in
      let r = running_of i 0 info burst in
      let kept =
        ap (λ l. ranks l (set w.phases i (running r))) (set_same w.os.process_infos i info f) in
      (
        enters i 0,
        record w { phases = set w.phases i (running r) },
        rw (e, f, inside, g) refl,
        omega
            (arith, kept, ranks-set w.os.process_infos w.phases i info info ready (running r) f e),
      )

  running-Progress : (r : Running) → get_elem? w.phases i ≡ some (running r) → Progress w
  unfolding step step_at left leave_user_mode running_of
  running-Progress r e =
      let (info, f, fit) = info_at w i (running r) inv e in
      let same : r.pid ≡ i = ap (λ s. s.pid) fit.3.snapshot in
      let info' = ran_info r 0 0 info in
      let set_info : modify w.os.process_infos r.pid (ran_info r 0 0)
          ≡ set w.os.process_infos i info' =
        ap (λ k. modify w.os.process_infos k (ran_info r 0 0)) same
        ∙ modify-set w.os.process_infos i info (ran_info r 0 0) f in
      let v = left_world w i r in
      let now : rank_of v
          ≡ ranks (set w.os.process_infos i info') (set w.phases i (after_status (status_of r))) =
        ap (λ l. ranks l (set w.phases i (after_status (status_of r)))) set_info in
      (
        leaves i 0 0,
        v,
        rw e refl,
        omega (
          arith,
          now,
          rank-ran i info r fit,
          ranks-set w.os.process_infos w.phases i info info' (running r)
              (after_status (status_of r)) f e,
        ),
      )

unfinished :
    (ps : List Phase)
    → all_finished ps ≡ false
    → (i : ℕ) × (p : Phase) × (get_elem? ps i ≡ some p) × (is_finished p ≡ false)
unfinished [] e = absurd (ground (arith, e))
unfinished (finished ∷ ps) e = let (i, p, f, g) = unfinished ps e in (suc i, p, f, g)
unfinished (waiting ∷ ps) e = (0, waiting, refl, refl)
unfinished (ready ∷ ps) e = (0, ready, refl, refl)
unfinished (blocked ∷ ps) e = (0, blocked, refl, refl)
unfinished (running r ∷ ps) e = (0, running r, refl, refl)

Progress-at :
    (w : World) (i : ℕ) (p : Phase)
    → Inv w
    → get_elem? w.phases i ≡ some p
    → is_finished p ≡ false
    → Progress w
Progress-at w i waiting inv e f = waiting-Progress w i inv e
Progress-at w i ready inv e f = ready-Progress w i inv e
Progress-at w i blocked inv e f = blocked-Progress w i inv e
Progress-at w i (running r) inv e f = running-Progress w i inv r e
Progress-at w i finished inv e f = absurd (ground (arith, f))

-- An event in front of a history.
Reachable-cons :
    (w u v : World) (e : Event) (n : ℕ)
    → step w e ≡ steps u
    → Reachable u n v
    → (m : ℕ) × Reachable w m v
Reachable-cons w u v e n f here = (0 + spent w e, onward 0 w u e here f)
Reachable-cons w u _ e _ f (onward n x v e' r g) =
    let (m, s) = Reachable-cons w u x e n f r in (m + spent x e', onward m x v e' s g)

Inv-Reachable :
    (bound : ℕ) (w : World)
    → Inv w
    → rank_of w < bound
    → (m : ℕ) × (v : World) × Reachable w m v × (all_done v.os ≡ true)
Inv-Reachable zero w inv h = absurd (omega arith)
Inv-Reachable (suc bound) w inv h = elim (Bool-cases (all_finished w.phases)) [
  | inl t ↦ (0, w, here, all_done-Inv w inv ∙ t)
  | inr t ↦
      let (i, p, f, g) = unfinished w.phases t in
      let (e, u, s, less) = Progress-at w i p inv f g in
      let inv' : Inv u = subst Safe s (step-Safe w e inv) in
      let (m, v, r, d) = Inv-Reachable bound u inv' (omega (arith, less, h)) in
      let (n, r') = Reachable-cons w u v e m s r in (n, v, r', d)
]

-- From rows with a burst at least and with numbers below 2^64, every world that can be reached leads
-- on, by some events, to one in which the test that ends `os_loop` holds.
pub all_done-Reachable :
    (rows : List Row) (now : ℕ)
    → All IsRow rows
    → length rows < 2 ^ 64
    → (n : ℕ) (w : World) → Reachable (start rows now) n w
    → (m : ℕ) × (v : World) × Reachable w m v × (all_done v.os ≡ true)
all_done-Reachable rows now valid small n w r =
    Inv-Reachable (suc (rank_of w)) w
      (Reachable-Inv (start rows now) w n (start-Inv rows now valid small) r) (omega arith)
