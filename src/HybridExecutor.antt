-- ===== src/HybridExecutor.antt =====
-- examples/hwloc/hybrid_executor.cpp: tasks of three priorities on the performance and efficiency cores
-- of a hybrid machine, and the counts of where they ran.
pub mod Steering
mod Tests
use tmc_examples.Base.{
  ℕ, ◌+◌, Bool, true, false, ◌&&◌, ◌||◌, List, [], ◌∷◌, ltb, leb, ◌==◌, if◌then◌else◌,
}

pub data CpuKind : Type 0 where
  performance efficiency1 efficiency2 : CpuKind

-- `add_partition(filter, low, high)`: cores of a kind, for the priorities from `low` on, below `high`.
pub record Partition : Type 0 where
  pub cpu_kind : CpuKind
  pub low : ℕ
  pub high : ℕ

pub record Config : Type 0 where
  pub partitions : List Partition
  pub priority_count : ℕ

-- The configuration of the CPU executor, by `topo.is_hybrid()`.
pub configure : Bool → Config
configure true = record {
  partitions =
      record { cpu_kind = performance; low = 0; high = 2 }
      ∷ record { cpu_kind = efficiency1; low = 1; high = 3 }
      ∷ [];
  priority_count = 3;
}
configure false = record { partitions = []; priority_count = 3 }

-- `ranOnCounts`, an atomic counter for each priority and each index of a kind.
abbrev pub Counts : Type 0
Counts = ℕ → ℕ → ℕ

-- `kindIdx`
pub kind_index : CpuKind → ℕ
kind_index performance = 0
kind_index efficiency1 = 1
kind_index efficiency2 = 1

-- `output[prio][kindIdx]++`
pub increment : Counts → ℕ → ℕ → Counts
increment output prio kind_idx p k =
    if (p == prio) && (k == kind_idx) then output p k + 1 else output p k

-- A task of priority `prio` on a thread whose `cpuKind` is `kind`.
pub capture_location : Counts → ℕ → CpuKind → Counts
capture_location output prio kind = increment output prio (kind_index kind)

-- `run_tasks`, with the kinds of the threads that the executor ran the tasks on.
pub run_tasks : Counts → ℕ → List CpuKind → Counts
run_tasks output prio [] = output
run_tasks output prio (kind ∷ kinds) = run_tasks (capture_location output prio kind) prio kinds

-- The three runs of `main`, from counters of 0.
pub ran_on_counts : (high medium low : List CpuKind) → Counts
ran_on_counts high medium low = run_tasks (run_tasks (run_tasks (λ p k. 0) 0 high) 1 medium) 2 low

abbrev same_kind : CpuKind → CpuKind → Bool
same_kind performance performance = true
same_kind efficiency1 efficiency1 = true
same_kind efficiency2 efficiency2 = true
same_kind a b = false

-- What the executor documents: a task runs on a thread of a partition that takes its priority. Without
-- partitions it runs on any thread; a homogeneous machine has performance cores only.
admits : List Partition → ℕ → CpuKind → Bool
admits [] prio kind = false
admits (p ∷ ps) prio kind =
    (leb p.low prio && ltb prio p.high && same_kind p.cpu_kind kind) || admits ps prio kind

admitted : List Partition → ℕ → CpuKind → Bool
unfolding admits
admitted [] prio kind = same_kind performance kind
admitted (p ∷ ps) prio kind = admits (p ∷ ps) prio kind

pub may_run : Config → ℕ → CpuKind → Bool
unfolding admitted
may_run config prio kind = admitted config.partitions prio kind
