-- ===== src/HybridExecutor/Tests.antt =====
-- A run of the hybrid executor on a few tasks.
use tmc_examples.Base.{◌≡◌, refl, List, [], ◌∷◌}
use tmc_examples.HybridExecutor.{
  CpuKind, performance, efficiency1, kind_index, increment, capture_location, run_tasks,
  ran_on_counts,
}

abbrev on_both : List CpuKind
on_both = performance ∷ efficiency1 ∷ performance ∷ []

medium_counts :
    (ran_on_counts (performance ∷ []) on_both (efficiency1 ∷ []) 1 0 ≡ 2)
    × (ran_on_counts (performance ∷ []) on_both (efficiency1 ∷ []) 1 1 ≡ 1)
unfolding ran_on_counts run_tasks capture_location increment kind_index
medium_counts = (refl, refl)
