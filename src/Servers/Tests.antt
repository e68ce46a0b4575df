-- ===== src/Servers/Tests.antt =====
-- Two caches of four and of two cores, and a theorem of `Servers` there.
use mathlib.Core.Option
use tmc_examples.Base.{ℕ, ◌≡◌, some, List, [], ◌∷◌}
use tmc_examples.Base.Digits.{value, value-to_string}
use tmc_examples.Servers.{serves, prefork}
use tmc_examples.Servers.PerCache
use tmc_examples.Servers.PerCache.{Topology, Executors, configure_executors}
use tmc_examples.Servers.Equivalence.{prefork-PerCache}

-- A reader of decimals, in place of the library's.
abbrev atoi : List ℕ → ℕ
atoi s = value 0 s

abbrev topo : Topology
topo = (0 ∷ 1 ∷ 2 ∷ 3 ∷ []) ∷ (4 ∷ 5 ∷ []) ∷ []

prefork-PerCache_example :
    Option.map serves (prefork (PerCache.main 4294967296 atoi topo))
    ≡ some (PerCache.main 4294967296 atoi topo [])
prefork-PerCache_example = prefork-PerCache 4294967296 atoi topo (λ i h. value-to_string i)
