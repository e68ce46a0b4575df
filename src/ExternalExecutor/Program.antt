-- ===== src/ExternalExecutor/Program.antt =====
-- `main` of examples/external/external_executor.cpp: a coroutine on each of the two executors, which
-- runs a child on the other one and goes on where it was. The waits end by notification alone.
pub mod Hops
mod Tests
use tmc_examples.Base.{
  ℕ, zero, suc, ◌+◌, ◌-◌, ◌≤◌, ◌≡◌, refl, sym, ap, ◌∙◌, subst, Bool, true, false, Option, none,
  some, List, [], ◌∷◌, ◌++◌, map, arith,
}
use tmc_examples.ExternalExecutor.{
  Pc, locked, asleep, running, exited, Executor, make_executor, run_work, worker, post_item, stop,
}

-- The executors, as the type-erased pointers by which the library compares them.
pub data Where : Type 0 where
  cpu_executor external : Where

-- `get_thread_name()`, of a thread of the CPU executor without its number.
pub data Name : Type 0 where
  cpu_thread_name external_thread_name : Name

-- The thread-locals that are set when a thread of an executor starts.
pub record Thread : Type 0 where
  pub executor : Where
  pub thread_name : Name

abbrev pub cpu_thread : Thread
cpu_thread = record { executor = cpu_executor; thread_name = cpu_thread_name }

-- The first two lines of the thread that the constructor starts.
abbrev pub external_thread : Thread
external_thread = record { executor = external; thread_name = external_thread_name }

pub data Line : Type 0 where
  heading_cpu heading_external awaiting : Line
  coro_started child_task_on coro_resumed : Name → Line

-- What is posted: the coroutine, which runs its child on `other`; the child, with the executor that
-- its awaiter goes on at; and the rest of the coroutine.
pub data Item : Type 0 where
  coro : (other : Where) → Item
  child_task : (continuation : Where) → Item
  rest_of_coro : Item

-- Where `main` stands: before `post_waitable`; in `wait()`; in the destructor of `external`; past it.
pub data Main : Type 0 where
  to_post_cpu waiting_cpu to_post_external waiting_external to_stop joining returned : Main

-- `continuation` is the executor where the library resumes a coroutine that a thread has suspended.
module _ (leaves : Item → ℕ → ℕ) (continuation : Thread → Where) where
  -- `ready` is the state of the promise that `wait()` waits for; `performed` says that the item at
  -- which the external thread stands is through, and the thread about to take the lock again.
  pub record State : Type 0 where
    pub cpu_queue : List Item
    pub external_executor : Executor leaves
    pub ready : Bool
    pub performed : Bool
    pub main : Main
    pub printed : List Line

  -- `executor_traits<…>::post`, of either executor, with the default priority.
  post : Where → Item → State → State
  post cpu_executor x s = record s { cpu_queue = s.cpu_queue ++ x ∷ [] }
  post external x s = record s { external_executor = post_item leaves x 0 s.external_executor }

  print : Line → State → State
  print l s = record s { printed = s.printed ++ l ∷ [] }

  -- An item on a thread, to its end or its next suspension. What lets another thread go on, a post
  -- or the completion that `wait()` waits for, comes last in it.
  perform : Thread → Item → State → State
  unfolding post print
  perform t (coro other) s =
      post other (child_task (continuation t))
        (print awaiting (print (coro_started t.thread_name) s))
  perform t (child_task caller) s = post caller rest_of_coro (print (child_task_on t.thread_name) s)
  perform t rest_of_coro s = record (print (coro_resumed t.thread_name) s) { ready = true }

  -- The threads of the CPU executor take any item of its queue; `front` is passed over.
  cpu_steps : (front back : List Item) → State → List State
  unfolding perform
  cpu_steps front [] s = []
  cpu_steps front (x ∷ back) s =
      perform cpu_thread x (record s { cpu_queue = front ++ back })
      ∷ cpu_steps (front ++ x ∷ []) back s

  on_worker : State → Option (Executor leaves) → List State
  on_worker s none = []
  on_worker s (some e) = record s { external_executor = e } ∷ []

  -- The thread of the external executor; an item runs within the functor of the pool, and then, while
  -- others go on, the thread comes back to the lock.
  external_work : Bool → ℕ × Item → State → State
  unfolding perform
  external_work false w s = perform external_thread w.1 (record s { performed = true })
  external_work true w s = record s {
    external_executor = run_work leaves w s.external_executor;
    performed = false;
  }

  external_steps : Pc Item → State → List State
  unfolding external_work on_worker
  external_steps (running w) s = external_work s.performed w s ∷ []
  external_steps asleep s = on_worker s (worker leaves s.external_executor)
  external_steps locked s = on_worker s (worker leaves s.external_executor)
  external_steps exited s = on_worker s (worker leaves s.external_executor)

  when_ready : Bool → State → List State
  when_ready true s = s ∷ []
  when_ready false s = []

  when_exited : Pc Item → State → List State
  when_exited exited s = s ∷ []
  when_exited pc s = []

  main_steps : Main → State → List State
  unfolding post print when_ready when_exited
  main_steps to_post_cpu s =
      post cpu_executor (coro external)
        (print heading_cpu (record s { main = waiting_cpu; ready = false }))
      ∷ []
  main_steps waiting_cpu s = when_ready s.ready (record s { main = to_post_external })
  main_steps to_post_external s =
      post external (coro cpu_executor)
        (print heading_external (record s { main = waiting_external; ready = false }))
      ∷ []
  main_steps waiting_external s = when_ready s.ready (record s { main = to_stop })
  main_steps to_stop s =
      record s { main = joining; external_executor = stop leaves s.external_executor } ∷ []
  main_steps joining s = when_exited s.external_executor.pc (record s { main = returned })
  main_steps returned s = []

  -- The states that one step of some thread leads to.
  pub steps_of : State → List State
  unfolding cpu_steps external_steps main_steps
  steps_of s =
      cpu_steps [] s.cpu_queue s ++ (external_steps s.external_executor.pc s ++ main_steps s.main s)

  pub start : State
  start = record {
    cpu_queue = [];
    external_executor = make_executor leaves;
    ready = false;
    performed = false;
    main = to_post_cpu;
    printed = [];
  }

  pub data Reach : ℕ → State → Type 0 where
    here : Reach 0 start
    next :
        {k : ℕ} {s t : State} (before after : List State)
        → Reach k s
        → steps_of s ≡ before ++ t ∷ after
        → Reach (suc k) t
