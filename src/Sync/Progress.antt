-- ===== src/Sync/Progress.antt =====
-- About the thread and the executor of `Sync`: how far they are from their end.
use tmc_examples.Base.{
  ℕ, ◌≤◌, ◌∙◌, ◌+◌, ◌≡◌, ◌⊎◌, inl, inr, refl, ap, arith, List, [], ◌∷◌, ◌++◌, length, length-append,
  total,
}
use tmc_examples.Sync.{
  Line, void_coro, value_coro, void_func, value_func, got_value, Returned, sleep, line_of, value_of,
  Action, post, wait, wait_value, Blocked, works, value, future, State, act, main, Step, call,
  run_detached, run_waited, run_valued, get, Reach,
}
use tmc_examples.Sync.Output.{action_weight, post_weight, waited_printed}

-- How many steps an action takes: its own, one for each work, and that of the value.
abbrev action_steps : Action → ℕ
action_steps (post ws) = 1 + length ws
action_steps (wait ws) = 1 + length ws
action_steps (wait_value w) = 3
action_steps sleep = 1

abbrev blocked_steps : Blocked → ℕ
blocked_steps (works ws) = length ws
blocked_steps (value w) = 2
blocked_steps (future v) = 1

-- How many steps are left.
abbrev pub steps_left : State → ℕ
steps_left s = total action_steps s.todo + blocked_steps s.blocked + length s.detached

act_steps :
    (a : Action) (s : State)
    → s.blocked ≡ works []
    → steps_left (act a s) + 1 ≡ steps_left s + action_steps a
unfolding act
act_steps (post ws) s e = omega (arith, length-append s.detached ws)
act_steps (wait ws) s e = omega (arith, ap blocked_steps e)
act_steps (wait_value w) s e = omega (arith, ap blocked_steps e)
act_steps sleep s e = omega arith

removed_length :
    {A : Type 0} (before : List A) (a : A) (after : List A)
    → length (before ++ a ∷ after) ≡ 1 + length (before ++ after)
removed_length before a after =
    omega (arith, length-append before (a ∷ after), length-append before after)

step_takes : {s t : State} → Step s t → steps_left s ≡ 1 + steps_left t
step_takes {s} (call a rest e f) =
    omega (arith, act_steps a (record s { todo = rest }) e, ap (total action_steps) f)
step_takes (run_detached before w after n e) =
    omega (arith, ap length e, removed_length before w after)
step_takes (run_waited before w after e) =
    omega (arith, ap blocked_steps e, removed_length before w after)
step_takes (run_valued w e) = omega (arith, ap blocked_steps e)
step_takes (get v e) = omega (arith, ap blocked_steps e)

todo_goes :
    (s : State) (program : List Action)
    → s.todo ≡ program
    → s.blocked ≡ works []
    → Returned s ⊎ ((t : State) × Step s t)
todo_goes s [] e f = inl (e, f)
todo_goes s (a ∷ rest) e f = inr (_, call a rest f e)

blocked_goes : (s : State) (b : Blocked) → s.blocked ≡ b → Returned s ⊎ ((t : State) × Step s t)
blocked_goes s (works []) e = todo_goes s s.todo refl e
blocked_goes s (works (w ∷ ws)) e = inr (_, run_waited [] w ws e)
blocked_goes s (value w) e = inr (_, run_valued w e)
blocked_goes s (future v) e = inr (_, get v e)

abbrev ten_slots : List Line
ten_slots =
    void_coro 0
    ∷ void_coro 1
    ∷ void_coro 2
    ∷ void_coro 3
    ∷ void_coro 4
    ∷ void_coro 5
    ∷ void_coro 6
    ∷ void_coro 7
    ∷ void_coro 8
    ∷ void_coro 9
    ∷ []

abbrev ten_functions : List Line
ten_functions =
    void_func ∷ void_func ∷ void_func ∷ void_func ∷ void_func ∷ void_func ∷ void_func ∷ void_func
    ∷ void_func ∷ void_func ∷ []

-- The lines of what `main` does not wait for, and of what it waits for, read off the program.
abbrev pub posted_lines : List Line
posted_lines = void_coro 0 ∷ void_func ∷ (ten_slots ++ ten_functions)

abbrev pub waited_lines : List Line
waited_lines =
    void_coro 0
    ∷ void_func
    ∷ value_coro 0
    ∷ got_value 100
    ∷ value_func
    ∷ got_value 200
    ∷ (ten_slots ++ ten_functions)

main_weight :
    (g : Line → ℕ) → total (action_weight g) main ≡ total g posted_lines + total g waited_lines
unfolding main line_of value_of
main_weight g = omega arith

main_posted : (g : Line → ℕ) → total (post_weight g) main ≡ total g posted_lines
unfolding main line_of
main_posted g = omega arith

-- When `main` returns, all lines of what it waits for have been printed, each as often, and of what it
-- posts without waiting all those whose work is not in the queue still: under any weight of lines.
abbrev pub PrintedByMain : State → Type 0
PrintedByMain s =
    (g : Line → ℕ)
    → (total g s.printed + total (λ w. g (line_of w)) s.detached
        ≡ total g posted_lines + total g waited_lines)
      × (total (λ w. g (line_of w)) s.detached ≤ total g posted_lines)

-- In every run of the program the caller has returned, or the caller or the executor can make a step,
-- and each step lowers the number of steps left by one: no wait blocks for ever. When `main` returns,
-- the lines that it waits for have all been printed, each as often as the program says; those of the
-- works that it posts without waiting are printed too, but for works that are still in the queue.
pub goes_on-PrintedByMain :
    {s : State}
    → Reach main s
    → ((Returned s × PrintedByMain s) ⊎ ((t : State) × Step s t))
      × ((t : State) → Step s t → steps_left s ≡ 1 + steps_left t)
goes_on-PrintedByMain {s} r = (
  elim (blocked_goes s s.blocked refl) [
    | inl x ↦ inl (
      x,
      λ g.
          let (all, few) = waited_printed g r x.0 x.1 in
          (all ∙ main_weight g, omega (arith, few, main_posted g)),
    )
    | inr x ↦ inr x
  ],
  λ t x. step_takes x,
)
