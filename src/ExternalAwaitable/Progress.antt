-- ===== src/ExternalAwaitable/Progress.antt =====
-- About `external_awaitable`: its threads come to an end.
use tmc_examples.Base.{ℕ, ◌+◌, ◌<◌, ◌≡◌, arith, none, some}
use tmc_examples.ExternalAwaitable.{
  Suspend, set_outer, locking, start_thread, store_thread, unlocking, left, Worker, unborn,
  sleeping, writing, resuming, ending, returned, Outer, suspended, queued, resumed, acquiring,
  test_joinable, join_thread, releasing, destroyed, State, suspend_at, worker_at, is_returned,
  outer_at, Actor, suspender, thread, task, step, Reach,
}
use tmc_examples.ExternalAwaitable.Race.{Invariant, reach-Invariant}

-- How many statements each is at most away from its end.
abbrev suspend_left : Suspend → ℕ
suspend_left set_outer = 5
suspend_left locking = 4
suspend_left start_thread = 3
suspend_left store_thread = 2
suspend_left unlocking = 1
suspend_left left = 0

abbrev worker_left : Worker → ℕ
worker_left unborn = 5
worker_left sleeping = 4
worker_left writing = 3
worker_left resuming = 2
worker_left ending = 1
worker_left returned = 0

abbrev outer_left : Outer → ℕ
outer_left suspended = 7
outer_left queued = 6
outer_left resumed = 5
outer_left acquiring = 4
outer_left test_joinable = 3
outer_left join_thread = 2
outer_left releasing = 1
outer_left destroyed = 0

abbrev pub statements_left : State → ℕ
statements_left s = suspend_left s.suspend + worker_left s.worker + outer_left s.outer

step_less :
    (a : Actor) (s : State) {t : State}
    → Invariant s
    → step a s ≡ some t
    → statements_left t < statements_left s
unfolding step suspend_at worker_at outer_at is_returned
step_less suspender s i e = ground arith
step_less thread s i e = ground arith
step_less task s i e = ground arith

stuck_lem :
    (s : State)
    → Invariant s
    → step suspender s ≡ none
    → step thread s ≡ none
    → step task s ≡ none
    → s.outer ≡ destroyed
unfolding step suspend_at worker_at outer_at is_returned
stuck_lem s i e f g = ground arith

-- Each statement that one of them runs brings the three nearer to their ends, and they stand still
-- only when the awaitable is destroyed: every run ends, none in a deadlock.
pub comes_to_end :
    {s : State}
    → Reach s
    → ((a : Actor) (t : State) → step a s ≡ some t → statements_left t < statements_left s)
      × (((a : Actor) → step a s ≡ none) → s.outer ≡ destroyed)
comes_to_end {s} h =
    let i = reach-Invariant h in
    (
      λ a t e. step_less a s i e,
      λ stuck. stuck_lem s i (stuck suspender) (stuck thread) (stuck task),
    )
