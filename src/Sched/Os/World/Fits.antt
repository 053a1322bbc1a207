-- ===== src/Sched/Os/World/Fits.antt =====
-- The record of a process fits where the process is.
use ift.Base.{
  ℕ, ◌+◌, ◌^◌, ◌≤◌, ◌<◌, ◌≡◌, refl, sym, ap, subst, ◌∙◌, true, false, not, ◌&&◌, some, inl, inr,
  arith, ltb, ◌==◌, length, get_elem?, modify, All, Yields, Bool-cases, length-modify,
  length-replicate, All-replicate, some_of_lt,
}
use ift.Sched.Os.{
  Burst, ProcessInfo, Running, Row, uint64, running_of, enter_info, io_info, info_of, move_to_ready,
  ready_info,
}
use ift.Sched.Os.World.{Phase, waiting, ready, blocked, finished, running}
use ift.Sched.Os.World.Lists.{All-modify}

abbrev pub IsTimed : Burst → Type 0
IsTimed b = (b.remaining ≤ b.cpu_time) × (b.cpu_time < 2 ^ 64)

pub record Sound (info : ProcessInfo) : Type 0 where
  pub size : length info.bursts ≡ info.burst_count
  pub small : info.burst_count < 2 ^ 64
  pub timed : All IsTimed info.bursts

-- It has left the hands of the operating system.
pub record IsIdle (info : ProcessInfo) : Type 0 where
  pub not_waiting : info.is_waiting ≡ false
  pub not_new : info.is_new ≡ false

-- As many bursts of the processor are over as of input or output, and there is one more.
pub record HasBurst (info : ProcessInfo) : Type 0 where
  pub in_step : info.burst_cpu_index ≡ info.burst_io_index
  pub more : info.burst_cpu_index < info.burst_count

-- The snapshot of a running process is of its burst.
pub record IsRunning (i : ℕ) (info : ProcessInfo) (r : Running) : Type 0 where
  pub time_slice : ℕ
  pub burst : Burst
  pub burst_at : get_elem? info.bursts info.burst_cpu_index ≡ some burst
  pub snapshot : r ≡ running_of i time_slice info burst

abbrev pub Fits : ℕ → ProcessInfo → Phase → Type 0
Fits i info waiting =
    Sound info
    × HasBurst info
    × (info.is_new ≡ true → info.burst_cpu_index ≡ 0)
    × (info.is_waiting ≡ true)
Fits i info ready = Sound info × HasBurst info × IsIdle info
Fits i info (running r) = Sound info × HasBurst info × IsIdle info × IsRunning i info r
Fits i info blocked =
    Sound info
    × IsIdle info
    × (info.burst_io_index + 1 ≡ info.burst_cpu_index)
    × (info.burst_cpu_index < info.burst_count)
Fits i info finished = Sound info × IsIdle info × (info.burst_cpu_index ≡ info.burst_count)

idle_stays : (info : ProcessInfo) (now : ℕ) → IsIdle info → move_to_ready info now ≡ false
unfolding move_to_ready
idle_stays info now h = rw (h.not_waiting, h.not_new) refl

-- A process that is not waiting does not become ready.
pub moved-waiting :
    (i : ℕ) (info : ProcessInfo) (phase : Phase) (now : ℕ)
    → Fits i info phase
    → move_to_ready info now ≡ true
    → phase ≡ waiting
moved-waiting i info waiting now h e = refl
moved-waiting i info ready now h e = absurd (ground (arith, idle_stays info now h.2))
moved-waiting i info blocked now h e = absurd (ground (arith, idle_stays info now h.1))
moved-waiting i info finished now h e = absurd (ground (arith, idle_stays info now h.1))
moved-waiting i info (running r) now h e = absurd (ground (arith, idle_stays info now h.2))

pub modified-Sound :
    (info info' : ProcessInfo) (k : ℕ) (f : Burst → Burst)
    → info'.bursts ≡ modify info.bursts k f
    → info'.burst_count ≡ info.burst_count
    → ((b : Burst) → get_elem? info.bursts k ≡ some b → IsTimed b → IsTimed (f b))
    → Sound info
    → Sound info'
modified-Sound info info' k f e c keeps h = record {
  size = ap length e ∙ length-modify info.bursts k f ∙ h.size ∙ sym c;
  small = subst (λ n. n < 2 ^ 64) (sym c) h.small;
  timed = subst (All IsTimed) (sym e) (All-modify IsTimed info.bursts k f keeps h.timed);
}

pub ready_info-Fits :
    (i now : ℕ) (info : ProcessInfo)
    → Fits i info waiting
    → Yields (λ info'. Fits i info' ready) (ready_info i now info)
unfolding ready_info
ready_info-Fits i now info (sound, has, new, _) =
    let first : (info.is_new && not (info.burst_cpu_index == 0)) ≡ false =
      elim (Bool-cases info.is_new) [
        | inl t ↦
            let z : (info.burst_cpu_index == 0) ≡ true = ground (arith, new t) in rw (t, z) refl
        | inr t ↦ rw t refl
      ] in
    let inside : ltb info.burst_cpu_index (length info.bursts) ≡ true =
      ground (arith, has.more, sound.size) in
    rw (first, inside)
      (
        modified-Sound info _ info.burst_cpu_index (λ b. record b { arrival = now }) refl refl
            (λ b _ t. t) sound,
        record { in_step = has.in_step; more = has.more },
        record { not_waiting = refl; not_new = refl },
      )

pub enter_info-Fits :
    (i time_slice : ℕ) (info : ProcessInfo)
    → Fits i info ready
    → Yields (λ r. Fits i info (running r)) (enter_info i time_slice info)
unfolding enter_info
enter_info-Fits i time_slice info (sound, has, idle) =
    let inside : ltb info.burst_cpu_index info.burst_count ≡ true = ground (arith, has.more) in
    let (burst, e) =
      some_of_lt info.bursts info.burst_cpu_index (omega (arith, has.more, sound.size)) in
    rw (inside, e)
      (
        sound,
        has,
        idle,
        record { time_slice = time_slice; burst = burst; burst_at = e; snapshot = refl },
      )

pub io_info-Fits :
    (i now : ℕ) (info : ProcessInfo)
    → Fits i info blocked
    → Yields (λ info'. Fits i info' waiting) (io_info now info)
unfolding io_info
io_info-Fits i now info (sound, idle, next, more) =
    let wrapped : uint64 (info.burst_io_index + 1) ≡ info.burst_io_index + 1 =
      omega (arith, next, more, sound.small) in
    let t : (uint64 (info.burst_io_index + 1) == info.burst_cpu_index) ≡ true =
      ground (arith, wrapped, next) in
    let (burst, e) =
      some_of_lt info.bursts info.burst_io_index (omega (arith, next, more, sound.size)) in
    rw (t, e)
      (
        record { size = sound.size; small = sound.small; timed = sound.timed },
        record { in_step = sym (wrapped ∙ next); more = more },
        (λ new. absurd (ground (arith, new, idle.not_new))),
        refl,
      )

pub info_of-Fits :
    (i now : ℕ) (row : Row)
    → (0 < row.row_burst_count) × (row.row_burst_count < 2 ^ 64) × (row.row_burst_time < 2 ^ 64)
    → Fits i (info_of now row) waiting
unfolding info_of
info_of-Fits i now row (pos, small, short) = (
  record {
    size = length-replicate row.row_burst_count _;
    small = small;
    timed = All-replicate IsTimed row.row_burst_count _ (omega arith, short);
  },
  record { in_step = refl; more = pos },
  (λ _. refl),
  refl,
)
