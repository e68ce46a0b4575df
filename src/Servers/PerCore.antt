-- ===== src/Servers/PerCore.antt =====
-- examples/hwloc/asio_thread_per_core.cpp: an I/O thread for each core.
use tmc_examples.Base.{ℕ, List, [], ◌∷◌, tabulate, if◌then◌else◌}
use tmc_examples.Servers.{Outcome, prints, serves, same_text, query, port}

-- An accept loop on an executor that is bound to a core.
pub record Worker : Type 0 where
  pub core : ℕ
  pub at_port : ℕ

unfoldable pub worker_on : ℕ → Worker
worker_on core_idx = record { core = core_idx; at_port = port }

-- `main`, without the program's name, on a machine with `core_count` cores.
unfoldable pub main : (List ℕ → ℕ) → (core_count : ℕ) → List (List ℕ) → Outcome Worker
unfolding worker_on
main atoi core_count [] = serves (tabulate core_count worker_on)
main atoi core_count (arg ∷ args) =
    if same_text arg query then prints core_count else serves (worker_on (atoi arg) ∷ [])
