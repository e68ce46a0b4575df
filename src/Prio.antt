-- ===== src/Prio.antt =====
-- examples/asio/prio.cpp: tasks that enter and leave executors and braids, and check on which they run
-- and with which priority.
pub mod Checks
mod Tests
use tmc_examples.Base.{
  ℕ, zero, suc, ◌+◌, ◌%◌, ◌<◌, ◌≡◌, Bool, true, false, List, [], ◌∷◌, ◌++◌, ◌==◌, if◌then◌else◌,
}

-- The four executors of the program.
pub data Executor : Type 0 where
  cpu_executor asio_executor cpu_braid asio_braid : Executor

same_executor : Executor → Executor → Bool
same_executor cpu_executor cpu_executor = true
same_executor asio_executor asio_executor = true
same_executor cpu_braid cpu_braid = true
same_executor asio_braid asio_braid = true
same_executor a b = false

-- What the library documents of a running task. `enter` keeps the priority and gives a scope that
-- captures the executor and the priority of the task; its `exit` restores both, whatever the task
-- did in between. A priority is set as it is given if the executor,
-- with `priority_count` of them, has it.
pub record Library : Type 1 where
  pub Task : Type 0
  pub Scope : Type 0
  pub current_executor : Task → Executor
  pub current_priority : Task → ℕ
  pub priority_count : ℕ
  pub change_priority : ℕ → Task → Task
  pub enter : Executor → Task → Scope × Task
  pub exit : Scope → Task → Task
  pub change_priority-executor :
      (n : ℕ) (t : Task) → current_executor (change_priority n t) ≡ current_executor t
  pub change_priority-priority :
      (n : ℕ) (t : Task) → n < priority_count → current_priority (change_priority n t) ≡ n
  pub enter-executor : (e : Executor) (t : Task) → current_executor (enter e t).1 ≡ e
  pub enter-priority :
      (e : Executor) (t : Task) → current_priority (enter e t).1 ≡ current_priority t
  pub exit-executor :
      (e : Executor) (t u : Task) → current_executor (exit (enter e t).0 u) ≡ current_executor t
  pub exit-priority :
      (e : Executor) (t u : Task) → current_priority (exit (enter e t).0 u) ≡ current_priority t

-- A line that the program prints.
pub data Line : Type 0 where
  executor_fail : Line
  priority_fail : (expected actual : ℕ) → Line

module _ (lib : Library) where
  -- `check_exec_prio(ExpectedExecutor, ExpectedPriority)`
  pub check_exec_prio : Executor → ℕ → lib.Task → List Line
  unfolding same_executor
  check_exec_prio expected_executor expected_priority t =
      (if same_executor (lib.current_executor t) expected_executor then [] else executor_fail ∷ [])
      ++ (if lib.current_priority t == expected_priority
          then []
          else priority_fail expected_priority (lib.current_priority t) ∷ [])

  -- `jump_around`, as it runs on a task: its checks in order.
  pub jump_around : ℕ → lib.Task → List Line
  unfolding check_exec_prio
  jump_around expected_priority t0 =
      let t1 = lib.change_priority expected_priority t0 in
      let (cpu_braid_scope, t2) = lib.enter cpu_braid t1 in
      let t3 = lib.exit cpu_braid_scope t2 in
      let (asio_scope, t4) = lib.enter asio_executor t3 in
      let (asio_braid_scope, t5) = lib.enter asio_braid t4 in
      let t6 = lib.exit asio_braid_scope t5 in
      let t7 = lib.exit asio_scope t6 in
      check_exec_prio cpu_executor expected_priority t1
      ++ (check_exec_prio cpu_braid expected_priority t2
          ++ (check_exec_prio cpu_executor expected_priority t3
              ++ (check_exec_prio asio_executor expected_priority t4
                  ++ (check_exec_prio asio_braid expected_priority t5
                      ++ (check_exec_prio asio_executor expected_priority t6
                          ++ check_exec_prio cpu_executor expected_priority t7)))))

  -- The tasks of `main` with the values that `rand()` gives for them, each started from `t`.
  pub tasks : lib.Task → List ℕ → List Line
  unfolding jump_around
  tasks t [] = []
  tasks t (r ∷ rs) = jump_around (r % 16) t ++ tasks t rs

  -- `main`, from the task that it posts.
  pub main : lib.Task → List ℕ → List Line
  unfolding tasks
  main t rands =
      check_exec_prio (lib.current_executor t) (lib.current_priority t) t ++ tasks t rands
