-- ===== src/Bench/Queue/Program.antt =====
-- `main` of examples/queue_bench.cpp. The queue, the clocks and the arithmetic on `double` are
-- parameters.
use mathlib.Core.Option
use tmc_examples.Base.{
  ℕ, ◌<◌, ◌≤◌, ◌≡◌, refl, arith, false, List, [], ◌∷◌, ◌++◌, map, Perm, append-nil, flatten, Option,
  some, ltb, ◌==◌, if◌then◌else◌,
}
use tmc_examples.Commas.{format_with_commas}
use tmc_examples.Bench.{Share, shares, producer, Result, consumer, totals, expected_sum, fails}
use tmc_examples.Bench.Shares.{flatten-pushed}
use tmc_examples.Bench.Check.{fails-shares}
use tmc_examples.Bench.Queue.{pull_consumer, pull_consumer_lem}

-- The lines that the program prints.
pub data Line : Type 0 where
  header : (elements : List ℕ) → Line
  fail_count fail_sum : (expected got : ℕ) → Line
  rate : (producers consumers time : ℕ) (per_second : List ℕ) → Line
  producer_max : (time : ℕ) → Line

-- The two checks, each with its line.
check_lines : (m elems : ℕ) → List Result → List Line
check_lines m elems results =
    let t = totals m (record { count = 0; sum = 0 }) results in
    let expected = expected_sum m elems in
    (if t.count == elems then [] else fail_count elems t.count ∷ [])
    ++ (if t.sum == expected then [] else fail_sum expected t.sum ∷ [])

-- `maxProducerDuration` over the producers' durations.
max_duration : ℕ → List ℕ → ℕ
max_duration longest [] = longest
max_duration longest (d ∷ ds) = max_duration (if ltb longest d then d else longest) ds

-- What the program does not decide: what the consumer pulls of what each producer posts, how long
-- each producer and the whole take, and the rate, which is computed on `double`.
pub record Outside : Type 0 where
  pub queue : List (List ℕ) → List ℕ
  pub duration : Share → ℕ
  pub time : ℕ
  pub elements_per_second : (elems time : ℕ) → ℕ

-- The lines after the producers and the consumer are through, and the exit code.
report : (m elems producers : ℕ) → Outside → Result → List Line × ℕ
unfolding check_lines max_duration
report m elems producers o r = (
  check_lines m elems (r ∷ [])
      ++ rate producers 1 o.time (format_with_commas (o.elements_per_second elems o.time))
        ∷ producer_max (max_duration 0 (map o.duration (shares m elems producers)))
        ∷ [],
  0,
)

-- `main`; it gives nothing where the consumer goes on to wait.
pub main : (m elems producers : ℕ) → Outside → Option (List Line × ℕ)
unfolding report
main m elems producers o =
    Option.map
      (λ r.
        let (lines, code) = report m elems producers o r in
        (header (format_with_commas elems) ∷ lines, code))
      (pull_consumer m elems (o.queue (map (producer m) (shares m elems producers))))

-- No duration is above the bound.
abbrev pub AtMost : ℕ → List ℕ → Type 0
AtMost b [] = Unit
AtMost b (d ∷ ds) = (d ≤ b) × AtMost b ds

max_duration_start : (longest : ℕ) (ds : List ℕ) → longest ≤ max_duration longest ds
unfolding max_duration
max_duration_start longest [] = omega arith
max_duration_start longest (d ∷ ds) =
    let h = max_duration_start (if ltb longest d then d else longest) ds in ground arith

max_duration_bound : (longest : ℕ) (ds : List ℕ) → AtMost (max_duration longest ds) ds
unfolding max_duration
max_duration_bound longest [] = tt
max_duration_bound longest (d ∷ ds) =
    let h = max_duration_start (if ltb longest d then d else longest) ds in
    (ground arith, max_duration_bound (if ltb longest d then d else longest) ds)

max_duration_least :
    (longest : ℕ) (ds : List ℕ) (b : ℕ) → longest ≤ b → AtMost b ds → max_duration longest ds ≤ b
unfolding max_duration
max_duration_least longest [] b h a = h
max_duration_least longest (d ∷ ds) b h (l, a) =
    max_duration_least (if ltb longest d then d else longest) ds b (ground arith) a

check_lines-none :
    (m elems : ℕ) (results : List Result)
    → fails m elems results ≡ false
    → check_lines m elems results ≡ []
unfolding check_lines fails
check_lines-none m elems results h = ground arith

-- With a queue that gives the consumer each element once, whatever the order, and a number of
-- elements that fits the word, the program ends with 0 and prints three lines, none of them `FAIL`:
-- the number of elements, the rate, and the least time that no producer exceeds.
pub main_lem :
    (m elems producers : ℕ) (o : Outside)
    → 0 < producers
    → elems < m
    → ((pushes : List (List ℕ)) → Perm (o.queue pushes) (flatten pushes))
    → (longest : ℕ) × (main m elems producers o
        ≡ some (
          header (format_with_commas elems)
              ∷ rate producers 1 o.time (format_with_commas (o.elements_per_second elems o.time))
              ∷ producer_max longest
              ∷ [],
          0,
        ))
      × AtMost longest (map o.duration (shares m elems producers))
      × ((b : ℕ) → AtMost b (map o.duration (shares m elems producers)) → longest ≤ b)
unfolding main report
main_lem m elems producers o h fits delivers =
    let times = map o.duration (shares m elems producers) in
    let pushes = map (producer m) (shares m elems producers) in
    let all = rw (flatten-pushed m (shares m elems producers)) at (delivers pushes) in
    let one = check_lines-none m elems (consumer m (o.queue pushes) ∷ []) (
      fails-shares m elems producers (o.queue pushes ∷ []) h fits
        (rw (append-nil (o.queue pushes)) all)) in
    (
      max_duration 0 times,
      rw (pull_consumer_lem m elems producers (o.queue pushes) h fits all, one) refl,
      max_duration_bound 0 times,
      λ b a. max_duration_least 0 times b (omega arith) a,
    )
