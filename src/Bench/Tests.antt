-- ===== src/Bench/Tests.antt =====
-- The benchmarks at ten elements, and the theorems of `Bench` there.
use mathlib.Core.List.Perm
use tmc_examples.Base.{
  ℕ, zero, suc, ◌-◌, ◌*◌, ◌/◌, ◌≤◌, map, ◌++◌, ◌^◌, ◌≡◌, refl, arith, List, [], ◌∷◌, flatten,
  replicate, append-nil, some,
}
use tmc_examples.Bench.{Share, shares}
use tmc_examples.Bench.RoundTrip
use tmc_examples.Bench.Channel.{Channel, Delivers, sweep, rates, sweep-rates}
use tmc_examples.Commas.{format_with_commas}
use tmc_examples.Bench.Queue.Program.{Outside, header, rate, producer_max, main, AtMost, main_lem}

abbrev share : ℕ → ℕ → Share
share c b = record { count = c; base = b }

ten_by_three : shares (2 ^ 64) 10 3 ≡ share 4 0 ∷ share 3 4 ∷ share 3 7 ∷ []
unfolding shares
ten_by_three = refl

-- One consumer pulls all, the others starve.
greedy : Channel
greedy consumers pushes = flatten pushes ∷ replicate (consumers - 1) []

flatten-replicate : (n : ℕ) → flatten {A = ℕ} (replicate n []) ≡ []
flatten-replicate zero = refl
flatten-replicate (suc n) = flatten-replicate n

greedy-Delivers : Delivers greedy
unfolding greedy
greedy-Delivers consumers pushes =
    rw (flatten-replicate (consumers - 1), append-nil (flatten pushes)) Perm.rfl

sweep-rates_example : sweep (2 ^ 64) 10 greedy 10 10 ≡ rates 10 10
sweep-rates_example = sweep-rates (2 ^ 64) 10 greedy greedy-Delivers (omega arith) 10 10

-- Three producers of ten elements, which take 4, 3 and 3 microseconds.
abbrev outside : Outside
outside = record {
  queue = flatten;
  duration = λ s. s.count;
  time = 12;
  elements_per_second = λ elems time. elems * 1000000 / time;
}

main_lem_example :
    (longest : ℕ) × (main (2 ^ 64) 10 3 outside
      ≡ some (
        header (format_with_commas 10)
            ∷ rate 3 1 12 (format_with_commas (10 * 1000000 / 12))
            ∷ producer_max longest
            ∷ [],
        0,
      ))
    × AtMost longest (map outside.duration (shares (2 ^ 64) 10 3))
    × ((b : ℕ) → AtMost b (map outside.duration (shares (2 ^ 64) 10 3)) → longest ≤ b)
main_lem_example = main_lem (2 ^ 64) 10 3 outside (omega arith) (omega arith) (λ pushes. Perm.rfl)

-- A round takes three milliseconds for each producer.
abbrev clock : RoundTrip.Program.Outside
clock = record {
  time = λ c producers. 3 * producers;
  elements_per_second = λ elems time. elems * 1000 / time;
}

main-Table_example :
    (table : List RoundTrip.Program.Event) × (RoundTrip.Program.main (2 ^ 64) 10 clock 4
      ≡ RoundTrip.Program.header 4 (format_with_commas 10)
        ∷ RoundTrip.Program.titles
        ∷ (table
            ++ RoundTrip.Program.totals_title
              ∷ map
                  (λ c.
                    RoundTrip.Program.total_time (RoundTrip.Program.time_of (2 ^ 64) 10 clock 4 c))
                  RoundTrip.Program.columns))
    × RoundTrip.Program.Table (2 ^ 64) 10 clock 1 4 table
main-Table_example = RoundTrip.Program.main-Table (2 ^ 64) 10 clock 4 (omega arith)
