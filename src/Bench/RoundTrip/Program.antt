-- ===== src/Bench/RoundTrip/Program.antt =====
-- `main` of examples/exec_st_roundtrip_bench.cpp. The clock and the arithmetic on `double` are
-- parameters.
use tmc_examples.Base.{
  length, subst, sym, ◌^◌, ◌/◌, ℕ, zero, suc, ◌+◌, ◌%◌, ◌<◌, ◌≡◌, refl, ap, ◌∙◌, arith, Bool, true,
  false, List, [], ◌∷◌, ◌++◌, map, sum, sum_words, sum_words-zero, tabulate_from,
}
use tmc_examples.Commas.{format_with_commas}
use tmc_examples.Bench.RoundTrip.{
  Call, spawn, lock, consume, unlock, producer_from, mutex_producer_from, producer_of,
  producers_from, run_bench, task_count, task_count-run_bench,
}

-- The executors under test, and the mutex.
pub data Column : Type 0 where
  exc excst exbr exasio mut : Column

-- The template parameter `Mutex` of the column's `run_bench`.
abbrev is_mutex : Column → Bool
is_mutex exc = false
is_mutex excst = false
is_mutex exbr = false
is_mutex exasio = false
is_mutex mut = true

abbrev pub columns : List Column
columns = exc ∷ excst ∷ exbr ∷ exasio ∷ mut ∷ []

-- What the program prints, and the producers that it awaits together.
pub data Event : Type 0 where
  header : (producers : ℕ) (elements : List ℕ) → Event
  titles : Event
  row : (producers : ℕ) → Event
  await : List (List Call) → Event
  cell : (per_second : List ℕ) → Event
  totals_title : Event
  total_time : (milliseconds : ℕ) → Event

-- How long a round takes, in milliseconds, and its rate, which is computed on `double`.
pub record Outside : Type 0 where
  pub time : Column → (producers : ℕ) → ℕ
  pub elements_per_second : (elems time : ℕ) → ℕ

-- What a producer awaits for the task `i`, an `int`: the task on the executor, or the mutex, the task
-- in place, and the end of the lock's scope.
abbrev one_task : Column → ℕ → List Call
one_task exc i = spawn i ∷ []
one_task excst i = spawn i ∷ []
one_task exbr i = spawn i ∷ []
one_task exasio i = spawn i ∷ []
one_task mut i = lock ∷ consume i ∷ unlock ∷ []

abbrev in_turn : Column → (from count : ℕ) → List Call
in_turn c from zero = []
in_turn c from (suc count) = one_task c (from % 2 ^ 32) ++ in_turn c (from + 1) count

-- Each producer runs its tasks in turn.
abbrev pub AllInTurn : Column → List (List Call) → Type 0
AllInTurn c [] = Unit
AllInTurn c (p ∷ ps) = ((count : ℕ) × (p ≡ in_turn c 0 count)) × AllInTurn c ps

spawns_in_turn :
    (i left : ℕ)
    → (producer_from i left ≡ in_turn exc i left)
      × (producer_from i left ≡ in_turn excst i left)
      × (producer_from i left ≡ in_turn exbr i left)
      × (producer_from i left ≡ in_turn exasio i left)
unfolding producer_from
spawns_in_turn i zero = (refl, refl, refl, refl)
spawns_in_turn i (suc left) =
    let (a, b, c, d) = spawns_in_turn (i + 1) left in
    let f = λ (t : List Call). spawn (i % 2 ^ 32) ∷ t in (ap f a, ap f b, ap f c, ap f d)

locks_in_turn : (i left : ℕ) → mutex_producer_from i left ≡ in_turn mut i left
unfolding mutex_producer_from
locks_in_turn i zero = refl
locks_in_turn i (suc left) =
    ap (λ t. lock ∷ consume (i % 2 ^ 32) ∷ unlock ∷ t) (locks_in_turn (i + 1) left)

producer_of-in_turn : (c : Column) (count : ℕ) → producer_of (is_mutex c) count ≡ in_turn c 0 count
unfolding producer_of
producer_of-in_turn exc count = (spawns_in_turn 0 count).0
producer_of-in_turn excst count = (spawns_in_turn 0 count).1
producer_of-in_turn exbr count = (spawns_in_turn 0 count).2
producer_of-in_turn exasio count = (spawns_in_turn 0 count).3
producer_of-in_turn mut count = locks_in_turn 0 count

producers_from-AllInTurn :
    (c : Column) (per_task rem i left : ℕ)
    → AllInTurn c (producers_from (is_mutex c) per_task rem i left)
unfolding producers_from
producers_from-AllInTurn c per_task rem i zero = tt
producers_from-AllInTurn c per_task rem i (suc left) =
    ((_, producer_of-in_turn c _), producers_from-AllInTurn c per_task rem (i + 1) left)

module _ (m elems : ℕ) (o : Outside) where
  -- What `run_bench` does: the time is what it returns.
  bench : Column → (producers : ℕ) → List Event
  bench c producers =
      await (run_bench (is_mutex c) elems producers)
      ∷ cell (format_with_commas (o.elements_per_second elems (o.time c producers)))
      ∷ []

  -- `totals[i] += co_await run_bench(…)` for one column after the other.
  row_from : (producers : ℕ) → List Column → List ℕ → List Event × List ℕ
  unfolding bench
  row_from producers [] ts = ([], ts)
  row_from producers (c ∷ cs) [] = ([], [])
  row_from producers (c ∷ cs) (t ∷ ts) =
      let rest = row_from producers cs ts in
      (bench c producers ++ rest.0, (t + o.time c producers) % m ∷ rest.1)

  -- `for (size_t prodCount = 1; …)`, with `left` rows to go.
  sweep_from : (producers left : ℕ) → List ℕ → List Event × List ℕ
  unfolding row_from
  sweep_from producers zero ts = ([], ts)
  sweep_from producers (suc left) ts =
      let now = row_from producers columns ts in
      let rest = sweep_from (producers + 1) left now.1 in (row producers ∷ now.0 ++ rest.0, rest.1)

  pub main : (max_producers : ℕ) → List Event
  unfolding sweep_from
  main max_producers =
      let swept = sweep_from 1 max_producers (0 ∷ 0 ∷ 0 ∷ 0 ∷ 0 ∷ []) in
      header max_producers (format_with_commas elems) ∷ titles ∷ swept.0
      ++ totals_title ∷ map total_time swept.1

  -- The wrapped sum of a column's times.
  abbrev pub time_of : (max_producers : ℕ) → Column → ℕ
  time_of max_producers c = sum (tabulate_from 1 max_producers (o.time c)) % m

  -- `k` producers await as many tasks as there are elements, each producer the tasks 0, 1, … one
  -- after the other.
  abbrev pub Fair : Column → (producers : ℕ) → List (List Call) → Type 0
  Fair c producers ps = (length ps ≡ producers) × (task_count ps ≡ elems) × AllInTurn c ps

  length-producers_from :
      (mutex : Bool) (per_task rem i left : ℕ)
      → length (producers_from mutex per_task rem i left) ≡ left
  unfolding producers_from
  length-producers_from mutex per_task rem i zero = refl
  length-producers_from mutex per_task rem i (suc left) =
      ap suc (length-producers_from mutex per_task rem (i + 1) left)

  run_bench-Fair :
      (c : Column) (producers : ℕ)
      → 0 < producers
      → Fair c producers (run_bench (is_mutex c) elems producers)
  unfolding run_bench
  run_bench-Fair c producers h = (
    length-producers_from (is_mutex c) (elems / producers) (elems % producers) 0 producers,
    task_count-run_bench (is_mutex c) elems producers h,
    producers_from-AllInTurn c (elems / producers) (elems % producers) 0 producers,
  )

  -- The events of a row: for each column the round and its rate.
  abbrev pub Cells : (producers : ℕ) → List Column → List Event → Type 0
  Cells producers [] es = es ≡ []
  Cells producers (c ∷ cs) es =
      (ps : List (List Call)) × (rest : List Event) × (es
        ≡ await ps
          ∷ cell (format_with_commas (o.elements_per_second elems (o.time c producers)))
          ∷ rest)
      × Fair c producers ps
      × Cells producers cs rest

  -- The events of `left` rows.
  abbrev pub Table : (producers left : ℕ) → List Event → Type 0
  Table producers zero es = es ≡ []
  Table producers (suc left) es =
      (cells : List Event) × (rest : List Event) × (es ≡ row producers ∷ (cells ++ rest))
      × Cells producers columns cells
      × Table (producers + 1) left rest

  row_from-Cells :
      (producers : ℕ) (cs : List Column) (f : Column → ℕ)
      → 0 < producers
      → Cells producers cs (row_from producers cs (map f cs)).0
  unfolding row_from bench
  row_from-Cells producers [] f h = refl
  row_from-Cells producers (c ∷ cs) f h =
      (_, _, refl, run_bench-Fair c producers h, row_from-Cells producers cs f h)

  row_adds :
      (producers : ℕ) (cs : List Column) (f : Column → ℕ)
      → (row_from producers cs (map f cs)).1 ≡ map (λ c. (f c + o.time c producers) % m) cs
  unfolding row_from
  row_adds producers [] f = refl
  row_adds producers (c ∷ cs) f =
      ap (λ ts. ((f c + o.time c producers) % m) ∷ ts) (row_adds producers cs f)

  sweep_adds :
      (producers left : ℕ) (f : Column → ℕ)
      → (sweep_from producers left (map f columns)).1
        ≡ map (λ c. sum_words m (f c) (tabulate_from producers left (o.time c))) columns
  unfolding sweep_from sum_words
  sweep_adds producers zero f = refl
  sweep_adds producers (suc left) f =
      ap (λ ts. (sweep_from (producers + 1) left ts).1) (row_adds producers columns f)
      ∙ sweep_adds (producers + 1) left (λ c. (f c + o.time c producers) % m)

  sweep_from-Table :
      (producers left : ℕ) (f : Column → ℕ)
      → 0 < producers
      → Table producers left (sweep_from producers left (map f columns)).0
  unfolding sweep_from
  sweep_from-Table producers zero f h = refl
  sweep_from-Table producers (suc left) f h = (
    _,
    _,
    refl,
    row_from-Cells producers columns f h,
    subst (λ ts. Table (producers + 1) left (sweep_from (producers + 1) left ts).0)
        (sym (row_adds producers columns f))
        (sweep_from-Table (producers + 1) left (λ c. (f c + o.time c producers) % m) (omega arith)),
  )

  -- Under a sweep up to any number of producers there is a row for each number, from 1 on. In each of
  -- the five columns of a row so many producers together await as many tasks as there are elements,
  -- each producer the tasks 0, 1, … one after the other: on an executor, or with the mutex locked for
  -- each task and unlocked after it. The rate of the round follows. The program ends with the sums of
  -- the columns' times, wrapped at the word size.
  pub main-Table :
      (max_producers : ℕ)
      → 0 < m
      → (table : List Event) × (main max_producers
          ≡ header max_producers (format_with_commas elems)
            ∷ titles
            ∷ (table ++ totals_title ∷ map (λ c. total_time (time_of max_producers c)) columns))
        × Table 1 max_producers table
  unfolding main
  main-Table max_producers h =
      let swept = sweep_from 1 max_producers (0 ∷ 0 ∷ 0 ∷ 0 ∷ 0 ∷ []) in
      let wrapped = λ (c : Column). sum_words-zero m (tabulate_from 1 max_producers (o.time c)) h in
      let sums : swept.1 ≡ map (time_of max_producers) columns =
        rw (wrapped exc, wrapped excst, wrapped exbr, wrapped exasio, wrapped mut) at
          (sweep_adds 1 max_producers (λ c. 0)) in
      (
        swept.0,
        ap
            (λ ts.
              header max_producers (format_with_commas elems)
              ∷ titles
              ∷ (swept.0 ++ totals_title ∷ map total_time ts))
            sums,
        sweep_from-Table 1 max_producers (λ c. 0) (omega arith),
      )
