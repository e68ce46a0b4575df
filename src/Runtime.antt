-- ===== src/Runtime.antt =====
-- The part of the TooManyCooks runtime that the examples call to run tasks, as a parameter: the
-- runtime is a separate repository, and no definition of it stands here. A task that has no side
-- effect is the value that it returns.
use tmc_examples.Base.{ℕ, ◌≡◌, List, tabulate, refl}

-- `tmc::spawn(t).fork()` gives a handle that is awaited once, and `tmc::spawn_many<N>(begin)`
-- starts the first N tasks of an iterator and gives their results by position.
pub record Tasks : Type 1 where
  pub Handle : Type 0 → Type 0
  pub fork : {A : Type 0} → A → Handle A
  pub join : {A : Type 0} → Handle A → A
  pub spawn_many : {A : Type 0} → ℕ → (ℕ → A) → List A
  pub join-fork : {A : Type 0} (a : A) → join (fork a) ≡ a
  pub spawn_many_lem : {A : Type 0} (n : ℕ) (task : ℕ → A) → spawn_many n task ≡ tabulate n task

-- A runtime that runs each task to its end where it is spawned.
abbrev pub run_inline : Tasks
run_inline = record {
  Handle = λ A. A;
  fork = λ a. a;
  join = λ a. a;
  spawn_many = λ n task. tabulate n task;
  join-fork = λ a. refl;
  spawn_many_lem = λ n task. refl;
}
