-- ===== src/SpawnIterator.antt =====
-- examples/spawn_iterator.cpp: tasks made by iterators of known and of unknown size, and the assertions
-- on how many of them run and on the sum of their results. `n` is the template parameter N. An `int`
-- stands as a number, for N up to 29: from there on the sums do not fit.
pub mod Iterators
pub mod Asserts
mod Tests
use tmc_examples.Base.{
  ℕ, zero, suc, ◌+◌, ◌-◌, ◌^◌, ◌≡◌, refl, Bool, true, false, not, ◌&&◌, List, [], ◌∷◌, ◌++◌, map,
  ◌==◌, if◌then◌else◌, length, take, replicate, sum, tabulate,
}
use tmc_examples.Runtime.{Tasks}

-- `tmc::spawn_many` on an iterator pair, as a parameter: which tasks it takes, with a maximum count (a
-- template parameter or an argument), and without one, and the capacity of a vector of results, which
-- is right-sized. A task that has no side effect but to count
-- itself is the value that it returns.
pub record Spawner : Type 1 where
  pub taken : {A : Type 0} → ℕ → List A → List A
  pub taken_all : {A : Type 0} → List A → List A
  pub capacity : {A : Type 0} → List A → ℕ
  -- Which of the detached tasks have run when the sleep of 100 milliseconds is over.
  pub ran_by_then : List ℕ → List ℕ
  pub taken_lem : {A : Type 0} (n : ℕ) (tasks : List A) → taken n tasks ≡ take n tasks
  pub taken_all_lem : {A : Type 0} (tasks : List A) → taken_all tasks ≡ tasks
  pub capacity_lem : {A : Type 0} (results : List A) → capacity results ≡ length results

abbrev pub eager : Spawner
eager = record {
  taken = λ n tasks. take n tasks;
  taken_all = λ tasks. tasks;
  capacity = λ results. length results;
  ran_by_then = λ tasks. tasks;
  taken_lem = λ n tasks. refl;
  taken_all_lem = λ tasks. refl;
  capacity_lem = λ results. refl;
}

-- `1 << i`
work : ℕ → ℕ
work i = 2 ^ i

unpredictable_filter : ℕ → Bool
unpredictable_filter i = not (i == 3)

-- `std::ranges::views::filter(unpredictable_filter)`
filtered : List ℕ → List ℕ
unfolding unpredictable_filter
filtered [] = []
filtered (i ∷ is) = if unpredictable_filter i then i ∷ filtered is else filtered is

-- The begin of `iota(0, N) | transform(work)`, by position.
pub iter_of_static_size : ℕ → ℕ → ℕ
unfolding work
iter_of_static_size n i = work i

pub iter_of_dynamic_known_size : ℕ → List ℕ
unfolding work filtered
iter_of_dynamic_known_size n = map work (filtered (tabulate n (λ i. i)))

pub iter_of_dynamic_unknown_size : ℕ → List ℕ
unfolding work filtered
iter_of_dynamic_unknown_size n = map work (filtered (tabulate n (λ i. i)))

-- `std::array<int, N>`: the results, and zeros behind them.
std_array : ℕ → List ℕ → List ℕ
std_array n results = results ++ replicate (n - length results) 0

-- Each function gives the conjunction of its assertions.
-- `task_count` counts the tasks as they are taken from the iterator.
pub static_sized_iterator : Tasks → ℕ → Bool
unfolding iter_of_static_size
static_sized_iterator tasks n = sum (tasks.spawn_many n (iter_of_static_size n)) == 2 ^ n - 1

pub static_bounded_iterator : Spawner → ℕ → Bool
unfolding std_array
static_bounded_iterator spawner n =
    let fewer = spawner.taken n (iter_of_dynamic_unknown_size n) in
    let more = spawner.taken n (iter_of_dynamic_unknown_size (n + 20)) in
    (length fewer == n - 1)
    && (sum (take (length fewer) (std_array n fewer)) == 2 ^ n - 1 - 8)
    && (length more == n)
    && (sum (take (length more) (std_array n more)) == 2 ^ n - 1 - 8 + 2 ^ n)

pub dynamic_known_sized_iterator : Spawner → ℕ → Bool
dynamic_known_sized_iterator spawner n =
    let iter = iter_of_dynamic_known_size n in
    let results = spawner.taken_all iter in
    (sum results == 2 ^ n - 1 - 8)
    && (length results == length iter)
    && (length results == spawner.capacity results)

pub dynamic_unknown_sized_iterator : Spawner → ℕ → Bool
dynamic_unknown_sized_iterator spawner n =
    let results = spawner.taken_all (iter_of_dynamic_unknown_size n) in
    (sum results == 2 ^ n - 1 - 8) && (length results == spawner.capacity results)

pub dynamic_bounded_iterator : Spawner → ℕ → Bool
dynamic_bounded_iterator spawner n =
    let fewer = spawner.taken n (iter_of_dynamic_unknown_size n) in
    let more = spawner.taken n (iter_of_dynamic_unknown_size (n + 20)) in
    (length fewer == n - 1)
    && (sum (take (length fewer) fewer) == 2 ^ n - 1 - 8)
    && (length fewer == spawner.capacity fewer)
    && (length more == n)
    && (sum (take (length more) more) == 2 ^ n - 1 - 8 + 2 ^ n)
    && (length more == spawner.capacity more)

-- The counter after those tasks, each of which adds 1 to it, have run.
count_up : ℕ → List ℕ → ℕ
count_up counter [] = counter
count_up counter (t ∷ ts) = count_up (counter + 1) ts

pub detach : Spawner → ℕ → List ℕ → ℕ
unfolding count_up
detach spawner max_count tasks = count_up 0 (spawner.ran_by_then (spawner.taken max_count tasks))

-- The eight functions that detach. The maximum count is an argument or a template parameter; the
-- iterator has ten tasks, or the nine of a filter, which cannot be counted ahead.
pub detach_max_count_less : Spawner → Bool
detach_max_count_less spawner = detach spawner 5 (tabulate 10 (λ i. i)) == 5

pub detach_max_count_greater : Spawner → Bool
detach_max_count_greater spawner = detach spawner 15 (tabulate 10 (λ i. i)) == 10

pub detach_max_count_template_less : Spawner → Bool
detach_max_count_template_less spawner = detach spawner 5 (tabulate 10 (λ i. i)) == 5

pub detach_max_count_template_greater : Spawner → Bool
detach_max_count_template_greater spawner = detach spawner 15 (tabulate 10 (λ i. i)) == 10

pub detach_max_count_less_uncountable_iter : Spawner → Bool
unfolding filtered
detach_max_count_less_uncountable_iter spawner =
    detach spawner 5 (filtered (tabulate 10 (λ i. i))) == 5

pub detach_max_count_greater_uncountable_iter : Spawner → Bool
unfolding filtered
detach_max_count_greater_uncountable_iter spawner =
    detach spawner 15 (filtered (tabulate 10 (λ i. i))) == 9

pub detach_max_count_template_less_uncountable_iter : Spawner → Bool
unfolding filtered
detach_max_count_template_less_uncountable_iter spawner =
    detach spawner 5 (filtered (tabulate 10 (λ i. i))) == 5

pub detach_max_count_template_greater_uncountable_iter : Spawner → Bool
unfolding filtered
detach_max_count_template_greater_uncountable_iter spawner =
    detach spawner 15 (filtered (tabulate 10 (λ i. i))) == 9

-- `main`: the thirteen functions, where `n` is `IterMax`.
pub main : Tasks → Spawner → ℕ → Bool
main tasks spawner n =
    static_sized_iterator tasks n
    && static_bounded_iterator spawner n
    && dynamic_known_sized_iterator spawner n
    && dynamic_unknown_sized_iterator spawner n
    && dynamic_bounded_iterator spawner n
    && detach_max_count_less spawner
    && detach_max_count_greater spawner
    && detach_max_count_template_less spawner
    && detach_max_count_template_greater spawner
    && detach_max_count_less_uncountable_iter spawner
    && detach_max_count_greater_uncountable_iter spawner
    && detach_max_count_template_less_uncountable_iter spawner
    && detach_max_count_template_greater_uncountable_iter spawner
