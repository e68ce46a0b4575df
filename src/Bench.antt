-- ===== src/Bench.antt =====
-- The throughput benchmarks: how examples/queue_bench.cpp, chan_bench.cpp and
-- exec_st_roundtrip_bench.cpp share out the elements, what the producers push and the consumers
-- count, and the check at the end. `m` is the modulus of `size_t`.
pub mod Shares
pub mod Check
pub mod Channel
pub mod Queue
pub mod RoundTrip
mod Tests
use tmc_examples.Base.{
  ℕ, zero, suc, ◌+◌, ◌/◌, ◌%◌, Bool, true, false, not, ◌||◌, List, [], ◌∷◌, map, ltb, ◌==◌,
  if◌then◌else◌, tabulate_from, tabulate, sum_words, length,
}

pub record Share : Type 0 where
  pub count : ℕ
  pub base : ℕ

-- The loop over the producers from number `i` on, with `left` of them to go and `base` elements
-- given out.
shares_from : (m per_task rem i left base : ℕ) → List Share
shares_from m per_task rem i zero base = []
shares_from m per_task rem i (suc left) base =
    let count = if ltb i rem then (per_task + 1) % m else per_task in
    record { count = count; base = base }
    ∷ shares_from m per_task rem (i + 1) left ((base + count) % m)

-- `per_task = NELEMS / prodCount` and `rem = NELEMS % prodCount`.
pub shares : (m elems producers : ℕ) → List Share
unfolding shares_from
shares m elems producers = shares_from m (elems / producers) (elems % producers) 0 producers 0

-- `producer(queue, count, base)` pushes base, base + 1, …, base + count - 1.
pub producer : ℕ → Share → List ℕ
producer m s = tabulate s.count (λ i. (s.base + i) % m)

-- `struct result`
pub record Result : Type 0 where
  pub count : ℕ
  pub sum : ℕ

-- `++count; sum += *data;`
count_one : ℕ → Result → ℕ → Result
count_one m r x = record { count = (r.count + 1) % m; sum = (r.sum + x) % m }

-- `consumer` over the elements that it pulls, in the order in which it pulls them.
consume : ℕ → Result → List ℕ → Result
unfolding count_one
consume m r [] = r
consume m r (x ∷ xs) = consume m (count_one m r x) xs

pub consumer : ℕ → List ℕ → Result
unfolding consume
consumer m pulled = consume m (record { count = 0; sum = 0 }) pulled

-- `count += consResults[i].count; sum += consResults[i].sum;`
add_result : ℕ → Result → Result → Result
add_result m t r = record { count = (t.count + r.count) % m; sum = (t.sum + r.sum) % m }

-- The totals over the results of all consumers.
totals : ℕ → Result → List Result → Result
unfolding add_result
totals m t [] = t
totals m t (r ∷ rs) = totals m (add_result m t r) rs

-- The loop that computes `expectedSum`.
expected_sum : ℕ → ℕ → ℕ
expected_sum m elems = sum_words m 0 (tabulate elems (λ i. i))

-- Does the check at the end print a `FAIL` line?
pub fails : ℕ → ℕ → List Result → Bool
unfolding totals expected_sum
fails m elems results =
    let t = totals m (record { count = 0; sum = 0 }) results in
    not (t.count == elems) || not (t.sum == expected_sum m elems)
