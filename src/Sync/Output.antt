-- ===== src/Sync/Output.antt =====
-- About the lines that the program of `Sync` prints.
use tmc_examples.Base.{
  ℕ, ◌+◌, ◌≤◌, ◌≡◌, ap, ◌∙◌, arith, List, [], ◌∷◌, total, total-at, total-append,
}
use tmc_examples.Sync.{
  Work, Line, got_value, line_of, value_of, Action, post, wait, wait_value, sleep, Blocked, works,
  value, future, State, act, Step, call, run_detached, run_waited, run_valued, get, start, Reach,
  here, next,
}

module _ (g : Line → ℕ) where
  abbrev line_weight : Work → ℕ
  line_weight w = g (line_of w)

  -- The lines of an action, weighed.
  abbrev pub action_weight : Action → ℕ
  action_weight (post ws) = total line_weight ws
  action_weight (wait ws) = total line_weight ws
  action_weight (wait_value w) = line_weight w + g (got_value (value_of w))
  action_weight sleep = 0

  -- The lines of what is posted and not waited for.
  abbrev pub post_weight : Action → ℕ
  post_weight (post ws) = total line_weight ws
  post_weight (wait ws) = 0
  post_weight (wait_value w) = 0
  post_weight sleep = 0

  abbrev blocked_weight : Blocked → ℕ
  blocked_weight (works ws) = total line_weight ws
  blocked_weight (value w) = line_weight w + g (got_value (value_of w))
  blocked_weight (future v) = g (got_value v)

  abbrev all_weight : State → ℕ
  all_weight s =
      total g s.printed
      + blocked_weight s.blocked
      + total line_weight s.detached
      + total action_weight s.todo

  act_keeps :
      (a : Action) (s : State)
      → s.blocked ≡ works []
      → all_weight (act a s) ≡ all_weight s + action_weight a
  unfolding act
  act_keeps (post ws) s e = omega (arith, total-append line_weight s.detached ws)
  act_keeps (wait ws) s e = omega (arith, ap blocked_weight e)
  act_keeps (wait_value w) s e = omega (arith, ap blocked_weight e)
  act_keeps sleep s e = omega arith

  step_keeps : {s t : State} → Step s t → all_weight t ≡ all_weight s
  step_keeps {s} (call a rest e f) =
      omega (arith, act_keeps a (record s { todo = rest }) e, ap (total action_weight) f)
  step_keeps {s} (run_detached before w after n e) = omega (
    arith,
    ap (total line_weight) e,
    total-at line_weight before w after,
    total-append line_weight before after,
    total-append g s.printed (line_of w ∷ []),
  )
  step_keeps {s} (run_waited before w after e) = omega (
    arith,
    ap blocked_weight e,
    total-at line_weight before w after,
    total-append line_weight before after,
    total-append g s.printed (line_of w ∷ []),
  )
  step_keeps {s} (run_valued w e) =
      omega (arith, ap blocked_weight e, total-append g s.printed (line_of w ∷ []))
  step_keeps {s} (get v e) =
      omega (arith, ap blocked_weight e, total-append g s.printed (got_value v ∷ []))

  -- In every reachable state the lines printed, those that the caller is blocked on, those of the
  -- detached works that have not run and those of the actions to come weigh as much as the lines of
  -- the program.
  reach_keeps :
      {program : List Action} {s : State}
      → Reach program s
      → all_weight s ≡ total action_weight program
  unfolding start
  reach_keeps here = omega arith
  reach_keeps (next r x) = step_keeps x ∙ reach_keeps r

  post_act :
      (a : Action) (s : State)
      → total line_weight (act a s).detached + total post_weight (act a s).todo
        ≡ total line_weight s.detached + total post_weight s.todo + post_weight a
  unfolding act
  post_act (post ws) s = omega (arith, total-append line_weight s.detached ws)
  post_act (wait ws) s = omega arith
  post_act (wait_value w) s = omega arith
  post_act sleep s = omega arith

  detached_step :
      {s t : State}
      → Step s t
      → total line_weight t.detached + total post_weight t.todo
        ≤ total line_weight s.detached + total post_weight s.todo
  detached_step {s} (call a rest e f) =
      omega (arith, post_act a (record s { todo = rest }), ap (total post_weight) f)
  detached_step {s} (run_detached before w after n e) = omega (
    arith,
    ap (total line_weight) e,
    total-at line_weight before w after,
    total-append line_weight before after,
  )
  detached_step (run_waited before w after e) = omega arith
  detached_step (run_valued w e) = omega arith
  detached_step (get v e) = omega arith

  detached_reach :
      {program : List Action} {s : State}
      → Reach program s
      → total line_weight s.detached + total post_weight s.todo ≤ total post_weight program
  unfolding start
  detached_reach here = omega arith
  detached_reach (next r x) = omega (arith, detached_step x, detached_reach r)

  -- When the calling thread is through, each line of the program has been printed, also those of the
  -- values, but for the lines of detached works that have not run yet, which are among those that
  -- the program posted and did not wait for: under any weight of the lines.
  pub waited_printed :
      {program : List Action} {s : State}
      → Reach program s
      → s.todo ≡ []
      → s.blocked ≡ works []
      → (total g s.printed + total line_weight s.detached ≡ total action_weight program)
        × (total line_weight s.detached ≤ total post_weight program)
  waited_printed {program} {s} r e f = (
    omega (arith, reach_keeps r, ap (total action_weight) e, ap blocked_weight f),
    omega (arith, detached_reach r),
  )
