-- ===== src/ExternalExecutor.antt =====
-- The thread pool of examples/external/external_executor.hpp and its adapter
-- `tmc_external_executor` of examples/external/external_executor.cpp, whose one worker runs the pool's
-- loop while others post and request the stop.
pub mod Order
pub mod Sleep
pub mod Drain
pub mod Program
mod Tests
use tmc_examples.Base.{
  ℕ, zero, suc, ◌+◌, ◌≡◌, Bool, true, false, Option, none, some, List, [], ◌∷◌, ◌++◌, map, tabulate,
}

-- `external_executor`. Its mutex makes each operation, and each section of `run` between two unlocks,
-- one step. `waiting` says whether the thread of `run` is blocked on `work_available`, not notified yet.
pub record Pool (Work : Type 0) : Type 0 where
  pub queue : List Work
  pub stop_requested : Bool
  pub waiting : Bool

-- A section of `run` under the lock, from the wait or the inner loop's test on: it takes the oldest
-- item, returns, or blocks on `work_available`.
pub data Section (Work : Type 0) : Type 0 where
  take : Work → Pool Work → Section Work
  leave sleep : Section Work

module _ {Work : Type 0} where
  -- `work_available.notify_one()` and `notify_all()`, of the one thread there is.
  notify : Pool Work → Pool Work
  notify p = record p { waiting = false }

  pub post : Work → Pool Work → Pool Work
  unfolding notify
  post w p = notify (record p { queue = p.queue ++ w ∷ [] })

  pub request_stop : Pool Work → Pool Work
  unfolding notify
  request_stop p = notify (record p { stop_requested = true })

  section_at : List Work → Bool → Pool Work → Section Work
  section_at (w ∷ ws) stop p = take w (record p { queue = ws })
  section_at [] true p = leave
  section_at [] false p = sleep

  pub section : Pool Work → Section Work
  unfolding section_at
  section p = section_at p.queue p.stop_requested p

-- Where the worker thread stands: before a section of `run`, in `work_available.wait`, at `work()`, or
-- past `run`.
pub data Pc (Item : Type 0) : Type 0 where
  locked asleep : Pc Item
  running : ℕ × Item → Pc Item
  exited : Pc Item

-- The adapter. A work item of the pool is the functor that holds a priority and an item. `leaves`
-- says which priority an item leaves in the thread-local that it found installed.
module _ {Item : Type 0} (leaves : Item → ℕ → ℕ) where
  -- `observed` collects, for the statements only, each item that ran, with the priority it saw.
  pub record Executor : Type 0 where
    pub pool : Pool (ℕ × Item)
    pub pc : Pc Item
    pub prio : ℕ
    pub observed : List (ℕ × Item)

  pub make_executor : Executor
  make_executor = record {
    pool = record { queue = []; stop_requested = false; waiting = false };
    pc = locked;
    prio = 0;
    observed = [];
  }

  -- The functor: `this_task().prio = Priority; item();`
  pub run_work : ℕ × Item → Executor → Executor
  run_work w e =
      let installed = record e { prio = w.0 } in
      record installed {
        pc = locked;
        prio = leaves w.1 installed.prio;
        observed = installed.observed ++ (installed.prio, w.1) ∷ [];
      }

  on_section : Executor → Section (ℕ × Item) → Option Executor
  on_section e (take w p) = some (record e { pool = p; pc = running w })
  on_section e leave = some (record e { pc = exited })
  on_section e sleep = some (record e { pool = record e.pool { waiting = true }; pc = asleep })

  -- A thread that was notified takes the lock again and tests the predicate.
  on_wait : Bool → Executor → Option Executor
  on_wait true e = none
  on_wait false e = some (record e { pc = locked })

  -- One step of the worker thread; `none` when it waits or is gone.
  worker_at : Pc Item → Executor → Option Executor
  unfolding on_section on_wait run_work
  worker_at locked e = on_section e (section e.pool)
  worker_at asleep e = on_wait e.pool.waiting e
  worker_at (running w) e = some (run_work w e)
  worker_at exited e = none

  pub worker : Executor → Option Executor
  unfolding worker_at
  worker e = worker_at e.pc e

  pub post_item : Item → ℕ → Executor → Executor
  unfolding post
  post_item x priority e = record e { pool = post (priority, x) e.pool }

  -- The loop from the iterator's position `i` on, with `left` rounds to go.
  pub post_bulk_from : (ℕ → Item) → (i left priority : ℕ) → Executor → Executor
  post_bulk_from it i zero priority e = e
  post_bulk_from it i (suc left) priority e =
      post_bulk_from it (i + 1) left priority (post_item (it i) priority e)

  pub post_bulk : (ℕ → Item) → (count priority : ℕ) → Executor → Executor
  unfolding post_bulk_from
  post_bulk it count priority e = post_bulk_from it 0 count priority e

  -- The first half of the destructor; the second waits until the worker is gone.
  pub stop : Executor → Executor
  unfolding request_stop
  stop e = record e { pool = request_stop e.pool }

  -- The executor among its clients; `posted` is what was ever posted.
  pub record System : Type 0 where
    pub executor : Executor
    pub open executor use *
    pub posted : List (ℕ × Item)

  -- `spurious` is a return of the wait that nobody has called for.
  pub data Step (s : System) : System → Type 0 where
    spurious :
        s.executor.pc ≡ asleep
        → Step s (record s {
          executor = record s.executor {
            pool = record s.executor.pool { waiting = false };
            pc = locked;
          };
        })
    work : {t : Executor} → worker s.executor ≡ some t → Step s (record s { executor = t })
    post_one :
        (x : Item) (priority : ℕ)
        → Step s (record s {
          executor = post_item x priority s.executor;
          posted = s.posted ++ (priority, x) ∷ [];
        })
    post_many :
        (it : ℕ → Item) (count priority : ℕ)
        → Step s (record s {
          executor = post_bulk it count priority s.executor;
          posted = s.posted ++ tabulate count (λ i. (priority, it i));
        })
    destroy : Step s (record s { executor = stop s.executor })

  pub start : System
  start = record { executor = make_executor; posted = [] }

  pub data Reach : System → Type 0 where
    here : Reach start
    next : {s t : System} → Reach s → Step s t → Reach t
