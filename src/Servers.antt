-- ===== src/Servers.antt =====
-- The `main` functions of examples/hwloc/asio_server_per_cache.cpp and asio_thread_per_core.cpp, and
-- the shell scripts beside them that start one process for each cache or core.
pub mod PerCache
pub mod PerCore
mod Prefork
pub mod Equivalence
mod Tests
use tmc_examples.Base.{
  ℕ, zero, suc, ◌+◌, Bool, true, false, ◌&&◌, Option, none, some, List, [], ◌∷◌, ◌++◌, ◌==◌,
}
use mathlib.Core.Option
use tmc_examples.Base.Digits.{to_string}
use tmc_examples.Http.{codes}

-- What a process does: it prints a number, starts workers and waits for them, or does what the
-- language leaves undefined (an index that is out of range).
pub data Outcome (Worker : Type 0) : Type 0 where
  prints : ℕ → Outcome Worker
  serves : List Worker → Outcome Worker
  undefined : Outcome Worker

-- `0 == strcmp(a, b)`
pub same_text : List ℕ → List ℕ → Bool
same_text [] [] = true
same_text [] (d ∷ b) = false
same_text (c ∷ a) [] = false
same_text (c ∷ a) (d ∷ b) = (c == d) && same_text a b

pub query : List ℕ
query = codes "--query"

-- The port of all acceptors.
abbrev pub port : ℕ
port = 55550

module _ {Worker : Type 0} where
  -- The workers of one process, and those of the processes after it.
  add_process : Outcome Worker → Option (List Worker) → Option (List Worker)
  add_process (serves ws) rest = Option.map (λ more. ws ++ more) rest
  add_process (prints n) rest = none
  add_process undefined rest = none

  -- The loop of a script: one process for each index from `i` on, and the workers of all of them.
  pub start_processes : (List (List ℕ) → Outcome Worker) → (i left : ℕ) → Option (List Worker)
  unfolding add_process
  start_processes main i zero = some []
  start_processes main i (suc left) =
      add_process (main (to_string i ∷ [])) (start_processes main (i + 1) left)

  on_query : (List (List ℕ) → Outcome Worker) → Outcome Worker → Option (List Worker)
  on_query main (prints n) = start_processes main 0 n
  on_query main (serves ws) = none
  on_query main undefined = none

  -- A script: the number that `--query` prints, and then the loop.
  pub prefork : (List (List ℕ) → Outcome Worker) → Option (List Worker)
  unfolding on_query
  prefork main = on_query main (main (query ∷ []))
