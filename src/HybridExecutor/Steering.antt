-- ===== src/HybridExecutor/Steering.antt =====
-- About where the tasks of each priority ran.
use tmc_examples.Base.{
  ℕ, ◌+◌, ◌≡◌, refl, Bool, true, false, List, [], ◌∷◌, length, arith, ◌==◌, if◌then◌else◌,
}
use tmc_examples.HybridExecutor.{
  CpuKind, performance, efficiency1, efficiency2, Config, configure, Counts, kind_index, increment,
  capture_location, run_tasks, ran_on_counts, admits, admitted, may_run,
}

-- Each task of a run was placed where the configuration allows.
abbrev pub Placed : Config → ℕ → List CpuKind → Type 0
Placed config prio [] = Unit
Placed config prio (kind ∷ kinds) = (may_run config prio kind ≡ true) × Placed config prio kinds

abbrev of_index : ℕ → List CpuKind → ℕ
of_index k [] = 0
of_index k (kind ∷ kinds) = (if k == kind_index kind then 1 else 0) + of_index k kinds

-- A run adds to the counters of its priority, and leaves the others alone.
run_tasks_lem :
    (output : Counts) (prio : ℕ) (kinds : List CpuKind) (p k : ℕ)
    → run_tasks output prio kinds p k ≡ output p k + (if p == prio then of_index k kinds else 0)
unfolding run_tasks capture_location increment
run_tasks_lem output prio [] p k = ground arith
run_tasks_lem output prio (kind ∷ kinds) p k =
    ground (arith, run_tasks_lem (capture_location output prio kind) prio kinds p k)

both_kinds : (kinds : List CpuKind) → of_index 0 kinds + of_index 1 kinds ≡ length kinds
unfolding kind_index
both_kinds [] = refl
both_kinds (performance ∷ kinds) = omega (arith, both_kinds kinds)
both_kinds (efficiency1 ∷ kinds) = omega (arith, both_kinds kinds)
both_kinds (efficiency2 ∷ kinds) = omega (arith, both_kinds kinds)

no_place : {A : Type 0} → false ≡ true → A
no_place h = cc

high_only :
    (hybrid : Bool) (kinds : List CpuKind)
    → Placed (configure hybrid) 0 kinds
    → of_index 1 kinds ≡ 0
unfolding kind_index may_run admitted configure admits
high_only hybrid [] h = refl
high_only true (performance ∷ kinds) h = omega (arith, high_only true kinds h.1)
high_only true (efficiency1 ∷ kinds) h = no_place h.0
high_only true (efficiency2 ∷ kinds) h = no_place h.0
high_only false (performance ∷ kinds) h = omega (arith, high_only false kinds h.1)
high_only false (efficiency1 ∷ kinds) h = no_place h.0
high_only false (efficiency2 ∷ kinds) h = no_place h.0

low_only : (kinds : List CpuKind) → Placed (configure true) 2 kinds → of_index 0 kinds ≡ 0
unfolding kind_index may_run admitted configure admits
low_only [] h = refl
low_only (performance ∷ kinds) h = no_place h.0
low_only (efficiency1 ∷ kinds) h = omega (arith, low_only kinds h.1)
low_only (efficiency2 ∷ kinds) h = no_place h.0

homogeneous_only :
    (prio : ℕ) (kinds : List CpuKind) → Placed (configure false) prio kinds → of_index 1 kinds ≡ 0
unfolding kind_index may_run admitted configure admits
homogeneous_only prio [] h = refl
homogeneous_only prio (performance ∷ kinds) h = omega (arith, homogeneous_only prio kinds h.1)
homogeneous_only prio (efficiency1 ∷ kinds) h = no_place h.0
homogeneous_only prio (efficiency2 ∷ kinds) h = no_place h.0

-- The three runs one after the other.
counts_of :
    (high medium low : List CpuKind) (p k : ℕ)
    → ran_on_counts high medium low p k
      ≡ (if p == 0 then of_index k high else 0)
        + (if p == 1 then of_index k medium else 0)
        + (if p == 2 then of_index k low else 0)
unfolding ran_on_counts
counts_of high medium low p k = omega (
  arith,
  run_tasks_lem (λ p' k'. 0) 0 high p k,
  run_tasks_lem (run_tasks (λ p' k'. 0) 0 high) 1 medium p k,
  run_tasks_lem (run_tasks (run_tasks (λ p' k'. 0) 0 high) 1 medium) 2 low p k,
)

-- On a hybrid machine, when each task ran where the configuration lets the executor run it, the
-- counters say that all high priority tasks ran on performance cores, all low priority tasks on
-- efficiency cores, and the medium priority tasks on the two kinds together.
pub hybrid_counts :
    (high medium low : List CpuKind)
    → Placed (configure true) 0 high
    → Placed (configure true) 1 medium
    → Placed (configure true) 2 low
    → let counts = ran_on_counts high medium low in
      (counts 0 0 ≡ length high)
      × (counts 0 1 ≡ 0)
      × (counts 1 0 + counts 1 1 ≡ length medium)
      × (counts 2 0 ≡ 0)
      × (counts 2 1 ≡ length low)
hybrid_counts high medium low h m l =
    let high0 = high_only true high h in
    let low0 = low_only low l in
    (
      omega (arith, counts_of high medium low 0 0, both_kinds high),
      omega (arith, counts_of high medium low 0 1),
      omega
          (arith, counts_of high medium low 1 0, counts_of high medium low 1 1, both_kinds medium),
      omega (arith, counts_of high medium low 2 0),
      omega (arith, counts_of high medium low 2 1, both_kinds low),
    )

-- On a homogeneous machine, when each task ran where the executor may run it, the counters say that
-- the tasks of every priority ran on performance cores.
pub homogeneous_counts :
    (high medium low : List CpuKind)
    → Placed (configure false) 0 high
    → Placed (configure false) 1 medium
    → Placed (configure false) 2 low
    → let counts = ran_on_counts high medium low in
      (counts 0 0 ≡ length high)
      × (counts 0 1 ≡ 0)
      × (counts 1 0 ≡ length medium)
      × (counts 1 1 ≡ 0)
      × (counts 2 0 ≡ length low)
      × (counts 2 1 ≡ 0)
homogeneous_counts high medium low h m l =
    let high0 = homogeneous_only 0 high h in
    let medium0 = homogeneous_only 1 medium m in
    let low0 = homogeneous_only 2 low l in
    (
      omega (arith, counts_of high medium low 0 0, both_kinds high),
      omega (arith, counts_of high medium low 0 1),
      omega (arith, counts_of high medium low 1 0, both_kinds medium),
      omega (arith, counts_of high medium low 1 1),
      omega (arith, counts_of high medium low 2 0, both_kinds low),
      omega (arith, counts_of high medium low 2 1),
    )
