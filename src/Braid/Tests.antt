-- ===== src/Braid/Tests.antt =====
-- Two tasks of the form `braid_lock_middle` on bytes, and the theorems of `Braid` there.
use tmc_examples.Base.{
  ℕ, ◌<◌, ◌⊎◌, ◌≡◌, refl, Bool, true, false, Option, none, some, List, [], ◌∷◌, total, arith,
}
use tmc_examples.Braid.{
  Action, do_work, enter_braid, increment, exit_braid, Task, flag_braid, on_enter, on_increment,
  task_at, step, System, Step, run, start, Reach, here, next, fails, lock_middle, braid_lock_middle,
}
use tmc_examples.Braid.Invariant.{All}
use tmc_examples.Braid.Exclusive.{Away, exclusive}
use tmc_examples.Braid.Progress.{Ended, effort, goes_on-Form}

abbrev task : Bool → Option ℕ → List Action → Task
task h l r = record { held = h; loaded = l; todo = r }

abbrev state : Bool → ℕ → Task → Task → System flag_braid 256
state b v t u = record { shared = record { br = b; value = v }; tasks = t ∷ u ∷ [] }

abbrev R : System flag_braid 256 → Type 0
R = Reach flag_braid 256 braid_lock_middle 2

abbrev after_entry : List Action
after_entry = increment ∷ exit_braid ∷ do_work ∷ []

abbrev loaded_state : System flag_braid 256
loaded_state =
    state true 0 (task true (some 0) after_entry) (task false none (enter_braid ∷ after_entry))

-- The first task has loaded the value; the second waits for the braid.
loaded : R loaded_state
unfolding start step task_at on_enter on_increment braid_lock_middle
loaded =
    next
      (next
        (next (next here (run [] (task false none (braid_lock_middle) ∷ []) _ refl refl))
          (run (task false none (enter_braid ∷ after_entry) ∷ []) [] _ refl refl))
        (run [] (task false none (enter_braid ∷ after_entry) ∷ []) _ refl refl))
      (run [] (task false none (enter_braid ∷ after_entry) ∷ []) _ refl refl)

exclusive_example :
    (true ≡ true)
    × All (Away flag_braid 256) (task false none (enter_braid ∷ after_entry) ∷ [])
    × ((v : ℕ) → some 0 ≡ some v → v ≡ 0)
exclusive_example =
    exclusive flag_braid 256 lock_middle loaded []
      (task false none (enter_braid ∷ after_entry) ∷ []) (task true (some 0) after_entry)
      (exit_braid ∷ do_work ∷ []) refl refl

first_out :
    R (state false 1 (task false none (do_work ∷ [])) (task false none (enter_braid ∷ after_entry)))
unfolding step task_at on_increment
first_out =
    next (next loaded (run [] (task false none (enter_braid ∷ after_entry) ∷ []) _ refl refl))
      (run [] (task false none (enter_braid ∷ after_entry) ∷ []) _ refl refl)

abbrev ended_state : System flag_braid 256
ended_state = state false 2 (task false none []) (task false none [])

ended : R ended_state
unfolding step task_at on_increment on_enter
ended =
    next
      (next
        (next
          (next
            (next
              (next first_out
                (run [] (task false none (enter_braid ∷ after_entry) ∷ []) _ refl refl))
              (run (task false none [] ∷ []) [] _ refl refl))
            (run (task false none [] ∷ []) [] _ refl refl))
          (run (task false none [] ∷ []) [] _ refl refl))
        (run (task false none [] ∷ []) [] _ refl refl))
      (run (task false none [] ∷ []) [] _ refl refl)

goes_on-Form_example :
    ((All Ended ended_state.tasks × (fails flag_braid 256 2 ended_state ≡ false))
      ⊎ ((u : System flag_braid 256) × Step flag_braid 256 ended_state u))
    × ((u : System flag_braid 256)
        → Step flag_braid 256 ended_state u
        → total effort u.tasks < total effort ended_state.tasks)
goes_on-Form_example = goes_on-Form flag_braid 256 lock_middle ended (omega arith)
