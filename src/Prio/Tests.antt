-- ===== src/Prio/Tests.antt =====
-- The program on a task that is its executor and its priority, with three random numbers.
use tmc_examples.Base.{ℕ, ◌≡◌, refl, [], ◌∷◌}
use tmc_examples.Prio.{Executor, cpu_executor, Library, main}
use tmc_examples.Prio.Checks.{main_silent}

-- A scope is the executor and the priority to go back to.
abbrev pairs : Library
pairs = record {
  Task = Executor × ℕ;
  Scope = Executor × ℕ;
  current_executor = λ t. t.0;
  current_priority = λ t. t.1;
  priority_count = 16;
  change_priority = λ n t. (t.0, n);
  enter = λ e t. (t, (e, t.1));
  exit = λ scope t. scope;
  change_priority-executor = λ n t. refl;
  change_priority-priority = λ n t h. refl;
  enter-executor = λ e t. refl;
  enter-priority = λ e t. refl;
  exit-executor = λ e t u. refl;
  exit-priority = λ e t u. refl;
}

main_silent_example : main pairs (cpu_executor, 3) (41 ∷ 16 ∷ 7 ∷ []) ≡ []
main_silent_example = main_silent pairs (cpu_executor, 3) (41 ∷ 16 ∷ 7 ∷ []) refl refl
