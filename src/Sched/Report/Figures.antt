-- ===== src/Sched/Report/Figures.antt =====
-- The figures of the report, against sums and a maximum over all bursts.
use ift.Base.{
  ℕ, zero, suc, ◌+◌, ◌/◌, ◌^◌, ◌<◌, ◌≡◌, refl, ap, ◌∙◌, false, some, List, [], ◌∷◌, ◌++◌, arith,
  ◌==◌, length, take, All, map, ◌>>=◌, length-append,
}
use Prim.Native.Nat.{max}
use ift.Sched.Os.{uint64, Burst, ProcessInfo, CpuCtx, Os, os_cores}
use ift.Sched.Report.{
  Times, no_times, add_times, sum_bursts, averages, Totals, add_process, process_averages,
  sum_processes, no_totals, report_of, os_print_report, sum_switches,
}
use ift.Sched.Report.Sums.{
  IsOrdered, turnaround, wait, response, sum, maximum, sums_of, plus, IsWithin, Times-eq,
  add_times-exact, sums_of-IsWithin, plus-IsWithin, sum_bursts-exact, no_times-IsWithin,
  plus-no_times, sum-append, maximum-append,
}

abbrev IsCounted : ProcessInfo → Type 0
IsCounted info =
    (0 < info.burst_count) × (info.burst_count ≡ length info.bursts) × All IsOrdered info.bursts

abbrev pub divide : Times → ℕ → Times
divide s n = record {
  burst_time = s.burst_time / n;
  turnaround_time = s.turnaround_time / n;
  wait_time = s.wait_time / n;
  response_time = s.response_time / n;
}

abbrev pub average_of : ProcessInfo → Times
average_of info = divide (sums_of info.bursts) (length info.bursts)

averages-divide : (s : Times) (n : ℕ) → 0 < n → averages s n ≡ some (divide s n)
unfolding averages
averages-divide s n h = let t : (n == 0) ≡ false = ground (arith, h) in rw t refl

take-length {ℓ} : {A : Type ℓ} (xs : List A) (n : ℕ) → n ≡ length xs → take n xs ≡ xs
take-length [] zero e = refl
take-length [] (suc n) e = refl
take-length (x ∷ xs) zero e = absurd (omega arith)
take-length (x ∷ xs) (suc n) e = ap (λ l. x ∷ l) (take-length xs n (omega arith))

-- the sums of one process
own_sums :
    (info : ProcessInfo) (l : ℕ)
    → IsCounted info
    → sum turnaround info.bursts < 2 ^ 64
    → sum_bursts (take info.burst_count info.bursts) no_times l
      ≡ (sums_of info.bursts, max l (maximum response info.bursts))
own_sums info l (pos, counted, ordered) small =
    ap (λ bs. sum_bursts bs no_times l) (take-length info.bursts info.burst_count counted)
    ∙ sum_bursts-exact info.bursts no_times l ordered no_times-IsWithin (omega (arith, small))
    ∙ ap (λ s. (s, max l (maximum response info.bursts))) (plus-no_times (sums_of info.bursts))

process_averages-average_of :
    (info : ProcessInfo)
    → IsCounted info
    → sum turnaround info.bursts < 2 ^ 64
    → process_averages info ≡ some (average_of info)
unfolding process_averages
process_averages-average_of info (pos, counted, ordered) small =
    ap (λ r. averages r.0 info.burst_count) (own_sums info 0 (pos, counted, ordered) small)
    ∙ averages-divide (sums_of info.bursts) info.burst_count pos
    ∙ ap (λ n. some (divide (sums_of info.bursts) n)) counted

abbrev totals_with : Totals → List Burst → Totals
totals_with t bs = record {
  times = plus t.times (sums_of bs);
  max_response_time = max t.max_response_time (maximum response bs);
  total_bursts = t.total_bursts + length bs;
}

add_process-exact :
    (info : ProcessInfo) (t : Totals)
    → IsCounted info
    → IsWithin t.times
    → t.times.turnaround_time + sum turnaround info.bursts < 2 ^ 64
    → t.total_bursts + length info.bursts < 2 ^ 64
    → add_process info t ≡ totals_with t info.bursts
unfolding add_process
add_process-exact info t (pos, counted, ordered) within small few =
    ap
      (λ r. record {
        times = add_times t.times r.0;
        max_response_time = r.1;
        total_bursts = uint64 (t.total_bursts + info.burst_count);
      })
      (own_sums info t.max_response_time (pos, counted, ordered) (omega (arith, small)))
    ∙ λ i. record {
      times =
          add_times-exact t.times (sums_of info.bursts) within
            (sums_of-IsWithin info.bursts ordered) small i;
      max_response_time = max t.max_response_time (maximum response info.bursts);
      total_bursts = count_next i;
    }
  where
    count_next : uint64 (t.total_bursts + info.burst_count) ≡ t.total_bursts + length info.bursts
    count_next = omega (arith, counted, few)

Totals-eq :
    (t u : Totals)
    → t.times ≡ u.times
    → t.max_response_time ≡ u.max_response_time
    → t.total_bursts ≡ u.total_bursts
    → t ≡ u
Totals-eq t u a b c = λ i. record { times = a i; max_response_time = b i; total_bursts = c i }

totals_with-append :
    (t : Totals) (xs ys : List Burst) → totals_with (totals_with t xs) ys ≡ totals_with t (xs ++ ys)
totals_with-append t xs ys =
    Totals-eq _ _
      (Times-eq _ _ (omega (arith, sum-append (λ b. b.cpu_time) xs ys))
        (omega (arith, sum-append turnaround xs ys)) (omega (arith, sum-append wait xs ys))
        (omega (arith, sum-append response xs ys)))
      (omega (arith, maximum-append response xs ys)) (omega (arith, length-append xs ys))

abbrev bursts_of : List ProcessInfo → List Burst
bursts_of [] = []
bursts_of (info ∷ infos) = info.bursts ++ bursts_of infos

sum_processes-exact :
    (infos : List ProcessInfo) (t : Totals)
    → All IsCounted infos
    → IsWithin t.times
    → t.times.turnaround_time + sum turnaround (bursts_of infos) < 2 ^ 64
    → t.total_bursts + length (bursts_of infos) < 2 ^ 64
    → sum_processes infos t ≡ some (map average_of infos, totals_with t (bursts_of infos))
unfolding sum_processes
sum_processes-exact [] t h within small few =
    ap (λ u. some ([], u))
      (Totals-eq t (totals_with t [])
        (Times-eq _ _ (omega arith) (omega arith) (omega arith) (omega arith)) (omega arith)
        (omega arith))
sum_processes-exact (info ∷ infos) t h within small few =
    let parts = sum-append turnaround info.bursts (bursts_of infos) in
    let counts = length-append info.bursts (bursts_of infos) in
    rw
      (
        process_averages-average_of info h.0 (omega (arith, small, parts)),
        add_process-exact info t h.0 within (omega (arith, small, parts))
            (omega (arith, few, counts)),
        sum_processes-exact infos (totals_with t info.bursts) h.1
            (plus-IsWithin t.times (sums_of info.bursts) within
              (sums_of-IsWithin info.bursts h.0.2))
            (omega (arith, small, parts)) (omega (arith, few, counts)),
      )
      (ap (λ u. some (average_of info ∷ map average_of infos, u))
        (totals_with-append t info.bursts (bursts_of infos)))

abbrev totals_over : List Burst → Totals
totals_over bs = record {
  times = sums_of bs;
  max_response_time = maximum response bs;
  total_bursts = length bs;
}

switches_two :
    (ctxs : ℕ → CpuCtx)
    → sum_switches os_cores ctxs
      ≡ uint64 ((ctxs 0).total_ctx_switches + (ctxs 1).total_ctx_switches)
unfolding sum_switches
switches_two ctxs = omega arith

length-bursts_of :
    (infos : List ProcessInfo)
    → All IsCounted infos
    → 0 < length infos
    → 0 < length (bursts_of infos)
length-bursts_of [] h pos = absurd (omega arith)
length-bursts_of (info ∷ infos) h pos =
    omega (arith, h.0.0, h.0.1, length-append info.bursts (bursts_of infos))

report_of-exact :
    (ctxs : ℕ → CpuCtx) (infos : List ProcessInfo)
    → 0 < length (bursts_of infos)
    → report_of ctxs (map average_of infos, totals_over (bursts_of infos))
      ≡ some (record {
        processes = map average_of infos;
        average = divide (sums_of (bursts_of infos)) (length (bursts_of infos));
        max_response_time = maximum response (bursts_of infos);
        total_ctx_switches = uint64 ((ctxs 0).total_ctx_switches + (ctxs 1).total_ctx_switches);
      })
unfolding report_of
report_of-exact ctxs infos pos =
    let bs = bursts_of infos in
    let e = averages-divide (sums_of bs) (length bs) pos in rw (e, switches_two ctxs) refl

-- With a process, a burst in each, and times in order whose sum fits, the report has the averages and
-- the maximum over all bursts.
pub os_print_report-exact :
    (os : Os) (ctxs : ℕ → CpuCtx)
    → os.process_count ≡ length os.process_infos
    → 0 < os.process_count
    → All IsCounted os.process_infos
    → sum turnaround (bursts_of os.process_infos) < 2 ^ 64
    → length (bursts_of os.process_infos) < 2 ^ 64
    → os_print_report os ctxs
      ≡ some (record {
        processes = map average_of os.process_infos;
        average =
            divide (sums_of (bursts_of os.process_infos)) (length (bursts_of os.process_infos));
        max_response_time = maximum response (bursts_of os.process_infos);
        total_ctx_switches = uint64 ((ctxs 0).total_ctx_switches + (ctxs 1).total_ctx_switches);
      })
unfolding os_print_report
os_print_report-exact os ctxs counted pos h small few =
    let infos = os.process_infos in
    let bs = bursts_of infos in
    ap (λ l. sum_processes l no_totals >>= report_of ctxs)
      (take-length infos os.process_count counted)
    ∙ ap (λ o. o >>= report_of ctxs)
        (sum_processes-exact infos no_totals h no_times-IsWithin (omega (arith, small))
          (omega (arith, few)))
    ∙ ap (λ t. report_of ctxs (map average_of infos, t))
        (Totals-eq (totals_with no_totals bs) (totals_over bs) (plus-no_times (sums_of bs))
          (omega arith) (omega arith))
    ∙ report_of-exact ctxs infos (length-bursts_of infos h (omega (arith, counted, pos)))
