-- ===== src/Sched/Report/Sums.antt =====
-- The sums over the bursts of a process, as numbers that do not wrap.
use ift.Base.{
  ℕ, ◌+◌, ◌-◌, ◌^◌, ◌≤◌, ◌<◌, ◌≡◌, refl, ap, ◌∙◌, List, [], ◌∷◌, ◌++◌, arith, ltb, if◌then◌else◌,
  All,
}
use Prim.Native.Nat.{max}
use ift.Sched.Os.{Burst}
use ift.Sched.Report.{Times, times_of, no_times, add_times, sum_bursts}

-- A burst arrives, runs for the first time, and is completed, in this order, after it has run.
pub record IsOrdered (b : Burst) : Type 0 where
  pub arrives : b.arrival ≤ b.first_run
  pub runs : b.first_run ≤ b.completion
  pub completes : b.arrival + b.cpu_time ≤ b.completion
  pub small : b.completion < 2 ^ 64

abbrev pub turnaround : Burst → ℕ
turnaround b = b.completion - b.arrival

abbrev pub wait : Burst → ℕ
wait b = b.completion - b.arrival - b.cpu_time

abbrev pub response : Burst → ℕ
response b = b.first_run - b.arrival

abbrev pub sum : (Burst → ℕ) → List Burst → ℕ
sum f [] = 0
sum f (b ∷ bs) = f b + sum f bs

abbrev pub maximum : (Burst → ℕ) → List Burst → ℕ
maximum f [] = 0
maximum f (b ∷ bs) = max (f b) (maximum f bs)

abbrev pub sums_of : List Burst → Times
sums_of bs = record {
  burst_time = sum (λ b. b.cpu_time) bs;
  turnaround_time = sum turnaround bs;
  wait_time = sum wait bs;
  response_time = sum response bs;
}

abbrev pub plus : Times → Times → Times
plus s t = record {
  burst_time = s.burst_time + t.burst_time;
  turnaround_time = s.turnaround_time + t.turnaround_time;
  wait_time = s.wait_time + t.wait_time;
  response_time = s.response_time + t.response_time;
}

-- No sum is longer than that of the turnarounds.
pub record IsWithin (s : Times) : Type 0 where
  bursts : s.burst_time ≤ s.turnaround_time
  waits : s.wait_time ≤ s.turnaround_time
  responses : s.response_time ≤ s.turnaround_time

pub Times-eq :
    (s t : Times)
    → s.burst_time ≡ t.burst_time
    → s.turnaround_time ≡ t.turnaround_time
    → s.wait_time ≡ t.wait_time
    → s.response_time ≡ t.response_time
    → s ≡ t
Times-eq s t a b c d =
    λ i. record { burst_time = a i; turnaround_time = b i; wait_time = c i; response_time = d i }

abbrev single : Burst → Times
single b = record {
  burst_time = b.cpu_time;
  turnaround_time = turnaround b;
  wait_time = wait b;
  response_time = response b;
}

single-IsWithin : (b : Burst) → IsOrdered b → IsWithin (single b)
single-IsWithin b h = record {
  bursts = omega (arith, h.completes);
  waits = omega arith;
  responses = omega (arith, h.runs, h.arrives);
}

max_zero : (l : ℕ) → l ≡ max l 0
max_zero l = omega arith

max_next : (l r m : ℕ) → max (if ltb l r then r else l) m ≡ max l (max r m)
max_next l r m = ground arith

times_of-exact : (b : Burst) → IsOrdered b → times_of b ≡ single b
unfolding times_of
times_of-exact b h =
    Times-eq _ _ refl (omega (arith, h.completes, h.small)) (omega (arith, h.completes, h.small))
      (omega (arith, h.arrives, h.runs, h.small))

pub add_times-exact :
    (s t : Times)
    → IsWithin s
    → IsWithin t
    → s.turnaround_time + t.turnaround_time < 2 ^ 64
    → add_times s t ≡ plus s t
unfolding add_times
add_times-exact s t h k small =
    Times-eq _ _ (omega (arith, h.bursts, k.bursts, small)) (omega (arith, small))
      (omega (arith, h.waits, k.waits, small)) (omega (arith, h.responses, k.responses, small))

pub sums_of-IsWithin : (bs : List Burst) → All IsOrdered bs → IsWithin (sums_of bs)
sums_of-IsWithin [] h = record {
  bursts = omega arith;
  waits = omega arith;
  responses = omega arith;
}
sums_of-IsWithin (b ∷ bs) h =
    let k = sums_of-IsWithin bs h.1 in
    record {
      bursts = omega (arith, k.bursts, h.0.completes);
      waits = omega (arith, k.waits);
      responses = omega (arith, k.responses, h.0.runs, h.0.arrives);
    }

pub plus-IsWithin : (s t : Times) → IsWithin s → IsWithin t → IsWithin (plus s t)
plus-IsWithin s t h k = record {
  bursts = omega (arith, h.bursts, k.bursts);
  waits = omega (arith, h.waits, k.waits);
  responses = omega (arith, h.responses, k.responses);
}

pub sum_bursts-exact :
    (bs : List Burst) (s : Times) (l : ℕ)
    → All IsOrdered bs
    → IsWithin s
    → s.turnaround_time + sum turnaround bs < 2 ^ 64
    → sum_bursts bs s l ≡ (plus s (sums_of bs), max l (maximum response bs))
unfolding sum_bursts
sum_bursts-exact [] s l h within small = λ i. (
  Times-eq s (plus s (sums_of [])) (omega arith) (omega arith) (omega arith) (omega arith) i,
  max_zero l i,
)
sum_bursts-exact (b ∷ bs) s l h within small =
    ap (λ t. sum_bursts bs (add_times s t) (if ltb l t.response_time then t.response_time else l))
      (times_of-exact b h.0)
    ∙ ap (λ x. sum_bursts bs x (if ltb l (response b) then response b else l))
        (add_times-exact s (single b) within (single-IsWithin b h.0) (omega (arith, small)))
    ∙ sum_bursts-exact bs (plus s (single b)) _ h.1
        (plus-IsWithin s (single b) within (single-IsWithin b h.0)) (omega (arith, small))
    ∙ λ i. (
      Times-eq (plus (plus s (single b)) (sums_of bs)) (plus s (sums_of (b ∷ bs))) (omega arith)
          (omega arith) (omega arith) (omega arith) i,
      max_next l (response b) (maximum response bs) i,
    )

pub no_times-IsWithin : IsWithin no_times
no_times-IsWithin = record { bursts = omega arith; waits = omega arith; responses = omega arith }

pub plus-no_times : (s : Times) → plus no_times s ≡ s
plus-no_times s = Times-eq _ _ (omega arith) (omega arith) (omega arith) (omega arith)

pub sum-append : (f : Burst → ℕ) (xs ys : List Burst) → sum f (xs ++ ys) ≡ sum f xs + sum f ys
sum-append f [] ys = omega arith
sum-append f (x ∷ xs) ys = omega (arith, sum-append f xs ys)

pub maximum-append :
    (f : Burst → ℕ) (xs ys : List Burst) → maximum f (xs ++ ys) ≡ max (maximum f xs) (maximum f ys)
maximum-append f [] ys = omega arith
maximum-append f (x ∷ xs) ys = omega (arith, maximum-append f xs ys)
