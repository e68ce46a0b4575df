-- ===== src/Servers/PerCache.antt =====
-- examples/hwloc/asio_server_per_cache.cpp: an I/O thread and a pool of CPU threads for each cache.
use tmc_examples.Base.{
  ℕ, zero, suc, ◌+◌, ◌-◌, ◌%◌, Option, none, some, List, [], ◌∷◌, map, length, if◌then◌else◌,
}
use mathlib.Core.Option
use tmc_examples.Servers.{Outcome, prints, serves, undefined, same_text, query, port}

-- The core indexes of each group of the topology.
abbrev pub Topology : Type 0
Topology = List (List ℕ)

abbrev pub at : {A : Type 0} → List A → ℕ → Option A
at [] i = none
at (x ∷ xs) zero = some x
at (x ∷ xs) (suc i) = at xs i

-- A pair of executors after `init`: the groups that they are bound to, and the CPU threads.
pub record Executors : Type 0 where
  pub asio_group : ℕ
  pub cpu_group : ℕ
  pub cpu_threads : ℕ

-- An accept loop on the CPU executor, for the sockets of the I/O executor.
pub record Worker : Type 0 where
  pub executors : Executors
  pub at_port : ℕ

-- `m` is the modulus of `size_t`.
unfoldable pub configure_executors : (m : ℕ) → Topology → ℕ → Option Executors
configure_executors m topo cache_idx =
    Option.map
      (λ cores. record {
        asio_group = cache_idx;
        cpu_group = cache_idx;
        cpu_threads = (length cores + m - 1) % m;
      })
      (at topo cache_idx)

-- The executors of the caches from `i` on.
unfoldable pub configure_all : (m : ℕ) → Topology → (i left : ℕ) → Option (List Executors)
configure_all m topo i zero = some []
configure_all m topo i (suc left) =
    Option.bind (configure_executors m topo i)
      (λ e. Option.map (λ es. e ∷ es) (configure_all m topo (i + 1) left))

unfoldable pub worker_of : Executors → Worker
worker_of e = record { executors = e; at_port = port }

unfoldable pub served : Option (List Executors) → Outcome Worker
unfolding worker_of
served none = undefined
served (some es) = serves (map worker_of es)

-- `main`, without the program's name. `atoi` is the library's, cast to `size_t`.
unfoldable pub main : (m : ℕ) → (List ℕ → ℕ) → Topology → List (List ℕ) → Outcome Worker
unfolding served
main m atoi topo [] = served (configure_all m topo 0 (length topo))
main m atoi topo (arg ∷ args) =
    if same_text arg query then prints (length topo) else served (configure_all m topo (atoi arg) 1)
