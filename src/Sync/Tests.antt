-- ===== src/Sync/Tests.antt =====
-- The program after it has posted its first two works and the second of them has run.
use tmc_examples.Base.{◌+◌, ◌≡◌, ◌⊎◌, refl, List, [], ◌∷◌, tabulate}
use tmc_examples.Sync.{
  coro_void, coro_value, func_void, func_value, void_func, line_of, Action, post, wait, wait_value,
  sleep, works, State, Returned, act, main, Step, call, run_detached, start, Reach, here, next,
}
use tmc_examples.Sync.Progress.{steps_left, PrintedByMain, goes_on-PrintedByMain}

-- What `main` still does.
abbrev rest : List Action
rest =
    post (tabulate 10 coro_void)
    ∷ post (tabulate 10 (λ i. func_void))
    ∷ sleep
    ∷ wait (coro_void 0 ∷ [])
    ∷ wait (func_void ∷ [])
    ∷ wait_value (coro_value 0)
    ∷ wait_value func_value
    ∷ wait (tabulate 10 coro_void)
    ∷ wait (tabulate 10 (λ i. func_void))
    ∷ []

abbrev posted : State
posted = record {
  todo = rest;
  blocked = works [];
  detached = coro_void 0 ∷ [];
  printed = void_func ∷ [];
}

not_over : ¬ ◌≡◌ {A = List Action} rest []
not_over e = cc

to_posted : Reach main posted
unfolding main start act line_of
to_posted =
    next
      (next (next here (call (post (coro_void 0 ∷ [])) (post (func_void ∷ []) ∷ rest) refl refl))
        (call (post (func_void ∷ [])) rest refl refl))
      (run_detached (coro_void 0 ∷ []) func_void [] (λ x. not_over x.0) refl)

goes_on-PrintedByMain_example :
    ((Returned posted × PrintedByMain posted) ⊎ ((t : State) × Step posted t))
    × ((t : State) → Step posted t → steps_left posted ≡ 1 + steps_left t)
goes_on-PrintedByMain_example = goes_on-PrintedByMain to_posted
