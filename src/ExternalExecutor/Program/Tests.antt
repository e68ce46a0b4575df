-- ===== src/ExternalExecutor/Program/Tests.antt =====
-- The program after its first three steps, with the external thread blocked.
use tmc_examples.Base.{ℕ, ◌<◌, ◌≡◌, ◌⊎◌, refl, false, List, [], ◌∷◌}
use tmc_examples.ExternalExecutor.{
  make_executor, asleep, notify, post, post_item, worker, worker_at, on_section, section,
  section_at,
}
use tmc_examples.ExternalExecutor.Program as Program
use tmc_examples.ExternalExecutor.Program.{
  Item, cpu_executor, external, cpu_thread_name, child_task, coro, waiting_cpu, heading_cpu,
  coro_started, awaiting, State, perform, print, cpu_steps, external_steps, on_worker, when_ready,
  main_steps, steps_of, start, Reach, here, next,
}
use tmc_examples.ExternalExecutor.Program.Hops.{resumes_there, Over, every_run}

abbrev leaves : Item → ℕ → ℕ
leaves x priority = priority

-- The child is posted, and its thread notified.
abbrev suspended : State leaves resumes_there
suspended = record {
  cpu_queue = [];
  external_executor = record {
    pool = record {
      queue = (0, child_task cpu_executor) ∷ [];
      stop_requested = false;
      waiting = false;
    };
    pc = asleep;
    prio = 0;
    observed = [];
  };
  ready = false;
  performed = false;
  main = waiting_cpu;
  printed = heading_cpu ∷ coro_started cpu_thread_name ∷ awaiting ∷ [];
}

three_steps : Reach leaves resumes_there 3 suspended
unfolding when_ready start make_executor on_worker worker worker_at on_section section section_at
    steps_of cpu_steps external_steps main_steps perform print Program.post post_item post notify
three_steps = next [] _ (next [] _ (next [] _ here refl) refl) refl

every_run_example :
    (3 < 28)
    × (Over leaves resumes_there suspended
        ⊎ ((t : State leaves resumes_there) × (ts : List (State leaves resumes_there)) × (steps_of
                leaves resumes_there suspended
              ≡ t ∷ ts)))
every_run_example = every_run leaves resumes_there (λ t. refl) three_steps
