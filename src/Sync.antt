-- ===== src/Sync.antt =====
-- examples/sync.cpp: a thread outside of the executor that posts work and blocks on some of it. The
-- executor runs any work of its queue at any time.
pub mod Output
pub mod Progress
mod Tests
use tmc_examples.Base.{
  ℕ, zero, suc, ◌+◌, ◌≡◌, Option, none, some, List, [], ◌∷◌, ◌++◌, map, tabulate, replicate,
}

-- The coroutines and functions that are posted.
pub data Work : Type 0 where
  coro_void : (slot : ℕ) → Work
  coro_value : (slot : ℕ) → Work
  func_void func_value : Work

-- The lines that the program prints.
pub data Line : Type 0 where
  void_coro : ℕ → Line
  value_coro : ℕ → Line
  void_func value_func : Line
  got_value : ℕ → Line

-- What a work prints.
pub line_of : Work → Line
line_of (coro_void slot) = void_coro slot
line_of (coro_value slot) = value_coro slot
line_of func_void = void_func
line_of func_value = value_func

-- What it returns; nothing is read of a work that returns `void`.
pub value_of : Work → ℕ
value_of (coro_void slot) = 0
value_of (coro_value slot) = slot + 100
value_of func_void = 0
value_of func_value = 200

-- `post` and `post_bulk`; `post_waitable` and `post_bulk_waitable` with `fut.get()`; and
-- `post_waitable` with `fut.get()` and the line of the value; and the sleep of `main`, in which the
-- executor may run what was posted, or not.
pub data Action : Type 0 where
  post : List Work → Action
  wait : List Work → Action
  wait_value : Work → Action
  sleep : Action

wait_one_coro_void : Action
wait_one_coro_void = wait (coro_void 0 ∷ [])

wait_one_func_void : Action
wait_one_func_void = wait (func_void ∷ [])

wait_one_coro_value : Action
wait_one_coro_value = wait_value (coro_value 0)

wait_one_func_value : Action
wait_one_func_value = wait_value func_value

wait_many_coro_void : Action
wait_many_coro_void = wait (tabulate 10 coro_void)

wait_many_func_void : Action
wait_many_func_void = wait (tabulate 10 (λ i. func_void))

nowait_one_coro_void : Action
nowait_one_coro_void = post (coro_void 0 ∷ [])

nowait_one_func_void : Action
nowait_one_func_void = post (func_void ∷ [])

nowait_many_coro_void : Action
nowait_many_coro_void = post (tabulate 10 coro_void)

nowait_many_func_void : Action
nowait_many_func_void = post (tabulate 10 (λ i. func_void))

-- `main`
pub main : List Action
unfolding wait_one_coro_void wait_one_func_void wait_one_coro_value wait_one_func_value
    wait_many_coro_void wait_many_func_void nowait_one_coro_void nowait_one_func_void
    nowait_many_coro_void nowait_many_func_void
main =
    nowait_one_coro_void ∷ nowait_one_func_void ∷ nowait_many_coro_void ∷ nowait_many_func_void
    ∷ sleep ∷ wait_one_coro_void ∷ wait_one_func_void ∷ wait_one_coro_value ∷ wait_one_func_value
    ∷ wait_many_coro_void ∷ wait_many_func_void ∷ []

-- What the calling thread blocks on: the works that have not run yet, or the one whose value it
-- wants, or the value that the future holds.
pub data Blocked : Type 0 where
  works : List Work → Blocked
  value : Work → Blocked
  future : ℕ → Blocked

pub record State : Type 0 where
  pub todo : List Action
  pub blocked : Blocked
  pub detached : List Work
  pub printed : List Line

-- The next action of a caller that is blocked on nothing.
pub act : Action → State → State
act (post ws) s = record s { detached = s.detached ++ ws }
act (wait ws) s = record s { blocked = works ws }
act (wait_value w) s = record s { blocked = value w }
act sleep s = s

-- `main` has returned, and the process is over.
abbrev pub Returned : State → Type 0
Returned s = (s.todo ≡ []) × (s.blocked ≡ works [])

pub data Step (s : State) : State → Type 0 where
  call :
      (a : Action) (rest : List Action)
      → s.blocked ≡ works []
      → s.todo ≡ a ∷ rest
      → Step s (act a (record s { todo = rest }))
  run_detached :
      (before : List Work) (w : Work) (after : List Work)
      → ¬ (Returned s)
      → s.detached ≡ before ++ w ∷ after
      → Step s (record s { detached = before ++ after; printed = s.printed ++ line_of w ∷ [] })
  run_waited :
      (before : List Work) (w : Work) (after : List Work)
      → s.blocked ≡ works (before ++ w ∷ after)
      → Step s
          (record s { blocked = works (before ++ after); printed = s.printed ++ line_of w ∷ [] })
  run_valued :
      (w : Work)
      → s.blocked ≡ value w
      → Step s (record s { blocked = future (value_of w); printed = s.printed ++ line_of w ∷ [] })
  get :
      (v : ℕ)
      → s.blocked ≡ future v
      → Step s (record s { blocked = works []; printed = s.printed ++ got_value v ∷ [] })

pub start : List Action → State
start program = record { todo = program; blocked = works []; detached = []; printed = [] }

pub data Reach (program : List Action) : State → Type 0 where
  here : Reach program (start program)
  next : {s t : State} → Reach program s → Step s t → Reach program t
