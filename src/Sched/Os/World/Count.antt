-- ===== src/Sched/Os/World/Count.antt =====
-- The number of processes that are finished.
use ift.Base.{
  ℕ, zero, suc, ◌+◌, ◌^◌, ◌≤◌, ◌<◌, ◌≡◌, refl, ap, Bool, true, false, ◌&&◌, some, List, [], ◌∷◌,
  inl, inr, arith, ltb, leb, if◌then◌else◌, length, get_elem?, Bool-cases, set, map,
}
use ift.Sched.Os.{Burst, ProcessInfo, Row, uint64, running_of, status_of}
use ift.Sched.Os.World.{Phase, waiting, ready, blocked, finished, running, after_status}

abbrev pub finished_of : Phase → ℕ
finished_of finished = 1
finished_of waiting = 0
finished_of ready = 0
finished_of blocked = 0
finished_of (running r) = 0

abbrev pub finished_count : List Phase → ℕ
finished_count [] = 0
finished_count (p ∷ ps) = finished_of p + finished_count ps

pub finished_count-set :
    (ps : List Phase) (i : ℕ) (p q : Phase)
    → get_elem? ps i ≡ some p
    → finished_count (set ps i q) + finished_of p ≡ finished_count ps + finished_of q
finished_count-set [] i p q e = absurd (ground (arith, e))
finished_count-set (r ∷ ps) zero p q e =
    let same : r ≡ p = ground (arith, e) in omega (arith, ap finished_of same)
finished_count-set (r ∷ ps) (suc i) p q e = omega (arith, finished_count-set ps i p q e)

pub finished_count-le : (ps : List Phase) → finished_count ps ≤ length ps
finished_count-le [] = omega arith
finished_count-le (p ∷ ps) = omega (arith, finished_count-le ps, finished_of-le p)
  where
    finished_of-le : (p : Phase) → finished_of p ≤ 1
    finished_of-le finished = omega arith
    finished_of-le waiting = omega arith
    finished_of-le ready = omega arith
    finished_of-le blocked = omega arith
    finished_of-le (running r) = omega arith

abbrev pub is_finished : Phase → Bool
is_finished finished = true
is_finished waiting = false
is_finished ready = false
is_finished blocked = false
is_finished (running r) = false

abbrev pub all_finished : List Phase → Bool
all_finished [] = true
all_finished (p ∷ ps) = is_finished p && all_finished ps

pub leb-finished : (ps : List Phase) → leb (length ps) (finished_count ps) ≡ all_finished ps
leb-finished [] = refl
leb-finished (finished ∷ ps) = ground (arith, leb-finished ps)
leb-finished (waiting ∷ ps) = ground (arith, finished_count-le ps)
leb-finished (ready ∷ ps) = ground (arith, finished_count-le ps)
leb-finished (blocked ∷ ps) = ground (arith, finished_count-le ps)
leb-finished (running r ∷ ps) = ground (arith, finished_count-le ps)

abbrev pub one_if : Bool → ℕ
one_if true = 1
one_if false = 0

-- A run that is done leaves the process finished, and no other one does.
pub done-finished :
    (i time_slice : ℕ) (info : ProcessInfo) (b : Burst)
    → let r = running_of i time_slice info b in
      finished_of (after_status (status_of r)) ≡ one_if r.done
unfolding running_of status_of
done-finished i time_slice info b =
    elim (Bool-cases (ltb 0 time_slice && ltb time_slice b.remaining)) [
      | inl p ↦ rw p refl
      | inr p ↦ rw p (elim (Bool-cases (leb info.burst_count (uint64 (info.burst_cpu_index + 1)))) [
        | inl l ↦ rw l refl
        | inr l ↦ rw l refl
      ])
    ]

pub finished_count-start : (rows : List Row) → finished_count (map (λ row. waiting) rows) ≡ 0
finished_count-start [] = refl
finished_count-start (row ∷ rows) = omega (arith, finished_count-start rows)

pub counted_up :
    (b : Bool) (n m : ℕ)
    → n + 1 < 2 ^ 64
    → m ≡ one_if b
    → (if b then uint64 (n + 1) else n) + 0 ≡ n + m
counted_up true n m h e = omega (arith, e)
counted_up false n m h e = omega (arith, e)
