-- ===== src/Servers/Equivalence.antt =====
-- About the scripts and the processes that start all workers themselves, and about the threads that a
-- cache gets.
use tmc_examples.Base.{
  ℕ, zero, suc, ◌+◌, ◌-◌, ◌*◌, ◌%◌, ◌≤◌, ◌<◌, ◌≡◌, refl, sym, ap, ◌∙◌, true, Option, none, some,
  List, [], ◌∷◌, map, arith, tabulate_from, length,
}
use mathlib.Core.Option
use native.Mathlib.Nat.{mod-eq_of_lt, mul-add-mod_self_left}
use tmc_examples.Base.Digits.{to_string}
use tmc_examples.Servers.{serves, same_text, query, prefork}
use tmc_examples.Servers.PerCache
use tmc_examples.Servers.PerCache.{
  Topology, at, Executors, configure_executors, configure_all, worker_of, served,
}
use tmc_examples.Servers.PerCore
use tmc_examples.Servers.Prefork.{same_text-to_string, prefork-tabulate}

query_is_query : same_text query query ≡ true
unfolding same_text query
query_is_query = refl

core_process :
    (atoi : List ℕ → ℕ) (core_count j : ℕ)
    → atoi (to_string j) ≡ j
    → PerCore.main atoi core_count (to_string j ∷ []) ≡ serves (PerCore.worker_on j ∷ [])
unfolding PerCore.main
core_process atoi core_count j reads =
    rw (same_text-to_string j) (ap (λ i. serves (PerCore.worker_on i ∷ [])) reads)

-- If `atoi` reads the decimals of the cores' indexes, the script of the server with a thread for each
-- core starts the workers that its one process without arguments starts.
pub prefork-PerCore :
    (atoi : List ℕ → ℕ) (core_count : ℕ)
    → ((i : ℕ) → i < core_count → atoi (to_string i) ≡ i)
    → Option.map serves (prefork (PerCore.main atoi core_count))
      ≡ some (PerCore.main atoi core_count [])
unfolding PerCore.main
prefork-PerCore atoi core_count reads = ap (Option.map serves) (
    prefork-tabulate (PerCore.main atoi core_count) PerCore.worker_on core_count
      (rw query_is_query refl) (λ j h. core_process atoi core_count j (reads j h)))

abbrev pub cores_of : Option (List ℕ) → List ℕ
cores_of none = []
cores_of (some cores) = cores

at-some : (topo : Topology) (j : ℕ) → j < length topo → at topo j ≡ some (cores_of (at topo j))
at-some [] j h = absurd (omega (arith, h))
at-some (cores ∷ topo) zero h = refl
at-some (cores ∷ topo) (suc j) h = at-some topo j (omega (arith, h))

-- The executors of a cache, by its number of cores.
executors_of : ℕ → Topology → ℕ → Executors
executors_of m topo j = record {
  asio_group = j;
  cpu_group = j;
  cpu_threads = (length (cores_of (at topo j)) + m - 1) % m;
}

configure_at :
    (m : ℕ) (topo : Topology) (j : ℕ)
    → j < length topo
    → configure_executors m topo j ≡ some (executors_of m topo j)
unfolding configure_executors executors_of
configure_at m topo j h =
    ap
      (Option.map λ (cores : List ℕ). record {
        asio_group = j;
        cpu_group = j;
        cpu_threads = (length cores + m - 1) % m;
      })
      (at-some topo j h)

configure_range :
    (m : ℕ) (topo : Topology) (i left : ℕ)
    → i + left ≤ length topo
    → configure_all m topo i left ≡ some (tabulate_from i left (executors_of m topo))
unfolding configure_all Option.bind
configure_range m topo i zero h = refl
configure_range m topo i (suc left) h =
    rw
      (
        configure_at m topo i (omega (arith, h)),
        configure_range m topo (i + 1) left (omega (arith, h)),
      )
      refl

map-tabulate_from :
    {A : Type 0} {B : Type 0} (f : A → B) (g : ℕ → A) (i n : ℕ)
    → map f (tabulate_from i n g) ≡ tabulate_from i n (λ j. f (g j))
map-tabulate_from f g i zero = refl
map-tabulate_from f g i (suc n) = ap (λ xs. f (g i) ∷ xs) (map-tabulate_from f g (i + 1) n)

cache_process :
    (m : ℕ) (atoi : List ℕ → ℕ) (topo : Topology) (j : ℕ)
    → atoi (to_string j) ≡ j
    → j < length topo
    → PerCache.main m atoi topo (to_string j ∷ []) ≡ serves (worker_of (executors_of m topo j) ∷ [])
unfolding PerCache.main served
cache_process m atoi topo j reads h =
    rw (same_text-to_string j, reads, configure_range m topo j 1 (omega (arith, h))) refl

-- If `atoi` reads the decimals of the caches' indexes, the script of the server with a pool for each
-- cache starts the workers that its one process without arguments starts.
pub prefork-PerCache :
    (m : ℕ) (atoi : List ℕ → ℕ) (topo : Topology)
    → ((i : ℕ) → i < length topo → atoi (to_string i) ≡ i)
    → Option.map serves (prefork (PerCache.main m atoi topo)) ≡ some (PerCache.main m atoi topo [])
unfolding PerCache.main served
prefork-PerCache m atoi topo reads =
    ap (Option.map serves) (
      prefork-tabulate (PerCache.main m atoi topo) (λ j. worker_of (executors_of m topo j))
        (length topo) (rw query_is_query refl) (λ j h. cache_process m atoi topo j (reads j h) h))
    ∙ ap (λ ws. some (serves ws))
        (sym (map-tabulate_from worker_of (executors_of m topo) 0 (length topo)))
    ∙ ap (λ es. some (served es)) (sym (configure_range m topo 0 (length topo) (omega arith)))

regroup : (k m : ℕ) → 0 < k → k + m - 1 ≡ m * 1 + (k - 1)
regroup k m h = omega (arith, h)

-- For a cache with at least one core, of a number that fits the word, the I/O executor and the CPU
-- executor are bound to that cache, and the CPU threads and the I/O thread are as many as its cores.
pub configure_executors-threads :
    (m : ℕ) (topo : Topology) (j : ℕ) (cores : List ℕ)
    → at topo j ≡ some cores
    → 0 < length cores
    → length cores < m
    → (e : Executors) × (configure_executors m topo j ≡ some e)
      × (e.asio_group ≡ j)
      × (e.cpu_group ≡ j)
      × (e.cpu_threads + 1 ≡ length cores)
unfolding configure_executors
configure_executors-threads m topo j cores found some_core fits = (
  record { asio_group = j; cpu_group = j; cpu_threads = (length cores + m - 1) % m },
  rw found refl,
  refl,
  refl,
  omega (arith, wrapped),
)
  where
    wrapped : (length cores + m - 1) % m ≡ length cores - 1
    wrapped =
        ap (λ (t : ℕ). t % m) (regroup (length cores) m some_core)
        ∙ mul-add-mod_self_left m 1 (length cores - 1)
        ∙ mod-eq_of_lt (omega (arith, fits))
