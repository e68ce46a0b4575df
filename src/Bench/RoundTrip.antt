-- ===== src/Bench/RoundTrip.antt =====
-- examples/exec_st_roundtrip_bench.cpp: what the producers of a round call, and the rounds.
pub mod Program
use tmc_examples.Base.{
  ℕ, zero, suc, ◌+◌, ◌/◌, ◌%◌, ◌^◌, ◌<◌, ◌≡◌, refl, ap, ◌∙◌, arith, Bool, true, false, List, [],
  ◌∷◌, ltb, if◌then◌else◌, length,
}
use native.Mathlib.Nat.{div-add-mod, mod-lt}
use tmc_examples.Bench.Shares.{due, due_lem}

-- What a producer awaits: a task on the executor under test, or the mutex and the task in place.
pub data Call : Type 0 where
  spawn : ℕ → Call
  lock : Call
  consume : ℕ → Call
  unlock : Call

-- `static_cast<int>(i)`, as a word of the size of `int`.
abbrev to_int : ℕ → ℕ
to_int i = i % 2 ^ 32

-- `producer(ex, count)`, its calls in order.
producer_from : (i left : ℕ) → List Call
producer_from i zero = []
producer_from i (suc left) = spawn (to_int i) ∷ producer_from (i + 1) left

-- `mutex_producer(mut, count)`: the lock is released at the end of the loop's body.
mutex_producer_from : (i left : ℕ) → List Call
mutex_producer_from i zero = []
mutex_producer_from i (suc left) =
    lock ∷ consume (to_int i) ∷ unlock ∷ mutex_producer_from (i + 1) left

-- The producer of a round, by the template parameter `Mutex`.
producer_of : (mutex : Bool) → ℕ → List Call
unfolding producer_from mutex_producer_from
producer_of false count = producer_from 0 count
producer_of true count = mutex_producer_from 0 count

-- The loop that constructs the producers of `run_bench`.
producers_from : (mutex : Bool) (per_task rem i left : ℕ) → List (List Call)
unfolding producer_of
producers_from mutex per_task rem i zero = []
producers_from mutex per_task rem i (suc left) =
    producer_of mutex (if ltb i rem then per_task + 1 else per_task)
    ∷ producers_from mutex per_task rem (i + 1) left

-- `run_bench<Exec, Mutex>(ex, prodCount)`, the producers that it awaits together.
pub run_bench : (mutex : Bool) (elems producers : ℕ) → List (List Call)
unfolding producers_from
run_bench mutex elems producers =
    producers_from mutex (elems / producers) (elems % producers) 0 producers

-- The tasks of a producer, by their arguments.
abbrev pub tasks : List Call → List ℕ
tasks [] = []
tasks (spawn i ∷ calls) = i ∷ tasks calls
tasks (consume i ∷ calls) = i ∷ tasks calls
tasks (lock ∷ calls) = tasks calls
tasks (unlock ∷ calls) = tasks calls

abbrev pub task_count : List (List Call) → ℕ
task_count [] = 0
task_count (calls ∷ rest) = length (tasks calls) + task_count rest

tasks-producer_from : (i left : ℕ) → length (tasks (producer_from i left)) ≡ left
unfolding producer_from
tasks-producer_from i zero = refl
tasks-producer_from i (suc left) = ap suc (tasks-producer_from (i + 1) left)

tasks-mutex_producer_from : (i left : ℕ) → length (tasks (mutex_producer_from i left)) ≡ left
unfolding mutex_producer_from
tasks-mutex_producer_from i zero = refl
tasks-mutex_producer_from i (suc left) = ap suc (tasks-mutex_producer_from (i + 1) left)

tasks-producer_of : (mutex : Bool) (count : ℕ) → length (tasks (producer_of mutex count)) ≡ count
unfolding producer_of
tasks-producer_of false count = tasks-producer_from 0 count
tasks-producer_of true count = tasks-mutex_producer_from 0 count

task_count-producers_from :
    (mutex : Bool) (per_task rem i left : ℕ)
    → task_count (producers_from mutex per_task rem i left) ≡ due per_task rem i left
unfolding producers_from due
task_count-producers_from mutex per_task rem i zero = refl
task_count-producers_from mutex per_task rem i (suc left) =
    let count = if ltb i rem then per_task + 1 else per_task in
    omega (
      arith,
      tasks-producer_of mutex count,
      task_count-producers_from mutex per_task rem (i + 1) left,
    )

-- Whatever the number of producers, at least one, a round of the benchmark awaits as many tasks
-- as there are elements, with an executor and with the mutex alike.
pub task_count-run_bench :
    (mutex : Bool) (elems producers : ℕ)
    → 0 < producers
    → task_count (run_bench mutex elems producers) ≡ elems
unfolding run_bench
task_count-run_bench mutex elems producers h =
    task_count-producers_from mutex (elems / producers) (elems % producers) 0 producers
    ∙ due_lem (elems / producers) (elems % producers) 0 producers
        (omega (arith, mod-lt elems {m = producers} h))
    ∙ omega (arith, div-add-mod elems producers)
