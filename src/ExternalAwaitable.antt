-- ===== src/ExternalAwaitable.antt =====
-- `external_awaitable` of examples/external/external_awaitable.cpp: the thread that resumes the task
-- that awaits it, and the race of `await_suspend` with the destructor.
pub mod Race
pub mod Progress
pub mod Caller
pub mod Spawn
mod Tests
use tmc_examples.Base.{ℕ, ◌≡◌, Bool, true, false, ◌&&◌, not, Option, none, some, if◌then◌else◌}

-- `await_suspend`: `outer = Outer`, the lock, the new thread, its move into `thread`, the unlock.
pub data Suspend : Type 0 where
  set_outer locking start_thread store_thread unlocking left : Suspend

-- The thread: its sleep, `result = 42`, `outer.resume()` and its end.
pub data Worker : Type 0 where
  unborn sleeping writing resuming ending returned : Worker

-- The task that awaits: suspended, queued on its executor, at `await_resume`, then in the destructor
-- of the awaitable at the lock, `joinable()`, `join()` and the unlock.
pub data Outer : Type 0 where
  suspended queued resumed acquiring test_joinable join_thread releasing destroyed : Outer

-- `result`, `outer`, `lock` and `thread`, whose `joinable()` stays true until it is joined. `read` is
-- what the task got of `await_resume`.
pub record State : Type 0 where
  pub suspend : Suspend
  pub worker : Worker
  pub outer : Outer
  pub result : Option ℕ
  pub outer_set : Bool
  pub lock : Bool
  pub joinable : Bool
  pub read : Option ℕ

-- The statement that the thread of `await_suspend` is at; `none` where it waits or is through.
suspend_at : Suspend → State → Option State
suspend_at set_outer s = some (record s { suspend = locking; outer_set = true })
suspend_at locking s =
    if s.lock then none else some (record s { suspend = start_thread; lock = true })
suspend_at start_thread s = some (record s { suspend = store_thread; worker = sleeping })
suspend_at store_thread s = some (record s { suspend = unlocking; joinable = true })
suspend_at unlocking s = some (record s { suspend = left; lock = false })
suspend_at left s = none

-- The statement that the new thread is at. `outer.resume()` runs the wrapper that puts the task back
-- on its executor; it needs the handle.
worker_at : Worker → State → Option State
worker_at unborn s = none
worker_at sleeping s = some (record s { worker = writing })
worker_at writing s = some (record s { worker = resuming; result = some 42 })
worker_at resuming s =
    if s.outer_set then some (record s { worker = ending; outer = queued }) else none
worker_at ending s = some (record s { worker = returned })
worker_at returned s = none

pub is_returned : Worker → Bool
is_returned returned = true
is_returned w = false

-- The statement that the task is at, on its executor.
outer_at : Outer → State → Option State
unfolding is_returned
outer_at suspended s = none
outer_at queued s = some (record s { outer = resumed })
outer_at resumed s = some (record s { outer = acquiring; read = s.result })
outer_at acquiring s =
    if s.lock then none else some (record s { outer = test_joinable; lock = true })
outer_at test_joinable s = some (record s { outer = if s.joinable then join_thread else releasing })
outer_at join_thread s =
    if is_returned s.worker then some (record s { outer = releasing; joinable = false }) else none
outer_at releasing s = some (record s { outer = destroyed; lock = false })
outer_at destroyed s = none

pub data Actor : Type 0 where
  suspender thread task : Actor

pub step : Actor → State → Option State
unfolding suspend_at worker_at outer_at
step suspender s = suspend_at s.suspend s
step thread s = worker_at s.worker s
step task s = outer_at s.outer s

pub start : State
start = record {
  suspend = set_outer;
  worker = unborn;
  outer = suspended;
  result = none;
  outer_set = false;
  lock = false;
  joinable = false;
  read = none;
}

pub data Reach : State → Type 0 where
  here : Reach start
  next : {s t : State} (a : Actor) → Reach s → step a s ≡ some t → Reach t
