-- ===== src/Sched/Os/World/Ends.antt =====
-- What holds after any history.
use ift.Base.{ℕ, suc, ◌^◌, ◌<◌, ◌≡◌, sym, subst, List, [], ◌∷◌, length, All, map, length-map}
use ift.Sched.Os.{Row, info_of, os_parse_file, all_done}
use ift.Sched.Os.World.{waiting, World, Event, step, start, Reachable, here, onward}
use ift.Sched.Os.World.Lists.{AllAt}
use ift.Sched.Os.World.Fits.{Fits, info_of-Fits}
use ift.Sched.Os.World.Count.{all_finished, leb-finished, finished_count-start}
use ift.Sched.Os.World.Reach.{Inv, Safe, step-Safe}

-- A row with a burst at least, and numbers that fit.
abbrev pub IsRow : Row → Type 0
IsRow row =
    (0 < row.row_burst_count) × (row.row_burst_count < 2 ^ 64) × (row.row_burst_time < 2 ^ 64)

start-Fits :
    (now n : ℕ) (rows : List Row)
    → All IsRow rows
    → AllAt Fits n (map (info_of now) rows) (map (λ row. waiting) rows)
start-Fits now n [] h = tt
start-Fits now n (row ∷ rows) h = (info_of-Fits n now row h.0, start-Fits now (suc n) rows h.1)

pub start-Inv :
    (rows : List Row) (now : ℕ) → All IsRow rows → length rows < 2 ^ 64 → Inv (start rows now)
unfolding start os_parse_file
start-Inv rows now h small = record {
  fits = start-Fits now 0 rows h;
  counted = sym (length-map rows (λ row. waiting));
  small = small;
  done = sym (finished_count-start rows);
}

pub Reachable-Inv : (w v : World) (n : ℕ) → Inv w → Reachable w n v → Inv v
Reachable-Inv w v n inv here = inv
Reachable-Inv w _ _ inv (onward n u v e r f) =
    subst Safe f (step-Safe u e (Reachable-Inv w u n inv r))

-- The test that ends `os_loop` says that every process is finished.
pub all_done-Inv : (w : World) → Inv w → all_done w.os ≡ all_finished w.phases
unfolding all_done
all_done-Inv w inv = rw (inv.counted, inv.done) (leb-finished w.phases)

module _ (rows : List Row) (now : ℕ) (valid : All IsRow rows) (small : length rows < 2 ^ 64) where
  -- From rows with a burst at least and with numbers below 2^64, whatever events have happened, no
  -- assertion fails in the next one, and the invariant holds behind it.
  pub start-Safe :
      (n : ℕ) (w : World) (e : Event) → Reachable (start rows now) n w → Safe (step w e)
  start-Safe n w e r =
      step-Safe w e (Reachable-Inv (start rows now) w n (start-Inv rows now valid small) r)
