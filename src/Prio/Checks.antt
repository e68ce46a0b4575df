-- ===== src/Prio/Checks.antt =====
-- About the checks of `Prio`.
use native.Mathlib.Nat.{mod-lt}
use tmc_examples.Base.{ℕ, ◌%◌, ◌<◌, ◌≡◌, refl, ◌∙◌, arith, true, List, [], ◌∷◌, ==_iff}
use tmc_examples.Prio.{
  Executor, cpu_executor, asio_executor, cpu_braid, asio_braid, same_executor, Library,
  check_exec_prio, jump_around, tasks, main,
}

same_executor_self : (e : Executor) → same_executor e e ≡ true
unfolding same_executor
same_executor_self cpu_executor = refl
same_executor_self asio_executor = refl
same_executor_self cpu_braid = refl
same_executor_self asio_braid = refl

module _ (lib : Library) where
  check_passes :
      (e : Executor) (n : ℕ) (t : lib.Task)
      → lib.current_executor t ≡ e
      → lib.current_priority t ≡ n
      → check_exec_prio lib e n t ≡ []
  unfolding check_exec_prio
  check_passes e n t p q = rw (p, q, same_executor_self e, (==_iff n n).1 refl) refl

  jump_around-silent :
      (n : ℕ) (t : lib.Task)
      → n < lib.priority_count
      → lib.current_executor t ≡ cpu_executor
      → jump_around lib n t ≡ []
  unfolding jump_around
  jump_around-silent n t h on_cpu =
      rw
        (
          check_passes cpu_executor n t1 e1 p1,
          check_passes cpu_braid n t2 (lib.enter-executor cpu_braid t1) p2,
          check_passes cpu_executor n t3 e3 p3,
          check_passes asio_executor n t4 (lib.enter-executor asio_executor t3) p4,
          check_passes asio_braid n t5 (lib.enter-executor asio_braid t4) p5,
          check_passes asio_executor n t6 e6 p6,
          check_passes cpu_executor n t7 e7 p7,
        )
        refl
    where
      t1 : lib.Task
      t1 = lib.change_priority n t

      t2 : lib.Task
      t2 = (lib.enter cpu_braid t1).1

      t3 : lib.Task
      t3 = lib.exit (lib.enter cpu_braid t1).0 t2

      t4 : lib.Task
      t4 = (lib.enter asio_executor t3).1

      t5 : lib.Task
      t5 = (lib.enter asio_braid t4).1

      t6 : lib.Task
      t6 = lib.exit (lib.enter asio_braid t4).0 t5

      t7 : lib.Task
      t7 = lib.exit (lib.enter asio_executor t3).0 t6

      e1 : lib.current_executor t1 ≡ cpu_executor
      e1 = lib.change_priority-executor n t ∙ on_cpu

      p1 : lib.current_priority t1 ≡ n
      p1 = lib.change_priority-priority n t h

      p2 : lib.current_priority t2 ≡ n
      p2 = lib.enter-priority cpu_braid t1 ∙ p1

      e3 : lib.current_executor t3 ≡ cpu_executor
      e3 = lib.exit-executor cpu_braid t1 t2 ∙ e1

      p3 : lib.current_priority t3 ≡ n
      p3 = lib.exit-priority cpu_braid t1 t2 ∙ p1

      p4 : lib.current_priority t4 ≡ n
      p4 = lib.enter-priority asio_executor t3 ∙ p3

      p5 : lib.current_priority t5 ≡ n
      p5 = lib.enter-priority asio_braid t4 ∙ p4

      e6 : lib.current_executor t6 ≡ asio_executor
      e6 = lib.exit-executor asio_braid t4 t5 ∙ lib.enter-executor asio_executor t3

      p6 : lib.current_priority t6 ≡ n
      p6 = lib.exit-priority asio_braid t4 t5 ∙ p4

      e7 : lib.current_executor t7 ≡ cpu_executor
      e7 = lib.exit-executor asio_executor t3 t6 ∙ e3

      p7 : lib.current_priority t7 ≡ n
      p7 = lib.exit-priority asio_executor t3 t6 ∙ p3

  tasks-silent :
      (t : lib.Task) (rands : List ℕ)
      → lib.priority_count ≡ 16
      → lib.current_executor t ≡ cpu_executor
      → tasks lib t rands ≡ []
  unfolding tasks
  tasks-silent t [] c e = refl
  tasks-silent t (r ∷ rs) c e =
      rw
        (
          jump_around-silent (r % 16) t (omega (arith, mod-lt r {m = 16} (omega arith))) e,
          tasks-silent t rs c e,
        )
        refl

  -- Whatever random numbers the program gets, and however many tasks it spawns from a task on the
  -- CPU executor of 16 priorities, no `FAIL` line is printed: each task finds itself on the executor
  -- or braid that it entered, back on the one it came from after each exit, and with its priority.
  pub main_silent :
      (t : lib.Task) (rands : List ℕ)
      → lib.priority_count ≡ 16
      → lib.current_executor t ≡ cpu_executor
      → main lib t rands ≡ []
  unfolding main
  main_silent t rands c e =
      rw
        (
          check_passes (lib.current_executor t) (lib.current_priority t) t refl refl,
          tasks-silent t rands c e,
        )
        refl
