-- ===== src/ExternalCoro/Void.antt =====
-- `external_coro<void>` of examples/external/external_coro.hpp, the specialization without a result.
use tmc_examples.Base.{ℕ, ◌≡◌, refl, Option, none, some, ◌==◌, if◌then◌else◌}
use mathlib.Core.Option
use tmc_examples.ExternalCoro.{Stage, initial, running, final, destroyed}

-- The frame with its promise.
pub record VoidFrame : Type 0 where
  pub stage : Stage
  pub continuation : Option ℕ

get_return_object_void : VoidFrame
get_return_object_void = record { stage = initial; continuation = none }

-- `await_suspend` of the awaitable: the coroutine runs next.
await_suspend_void : ℕ → VoidFrame → VoidFrame
await_suspend_void outer f = record { stage = running; continuation = some outer }

-- `final_suspend` is `std::suspend_never`: the frame goes at the end of the body, and control returns
-- to whoever resumed the coroutine, not to a continuation.
final_suspend_void : VoidFrame → VoidFrame × Option ℕ
final_suspend_void f = (record f { stage = destroyed }, none)

destroy_void : Stage → VoidFrame → Option VoidFrame
destroy_void final f = some (record f { stage = destroyed })
destroy_void stage f = none

-- `handle.destroy()`, which is undefined (`none`) but for a suspended frame.
await_resume_void : VoidFrame → Option VoidFrame
unfolding destroy_void
await_resume_void f = destroy_void f.stage f

abbrev resumes_void : ℕ → VoidFrame × Option ℕ → Option VoidFrame
resumes_void outer (f, none) = none
resumes_void outer (f, some next) = if next == outer then some f else none

-- `co_await` of a new coroutine, whose body returns, by the coroutine `outer`; `none` where control
-- does not come back to it.
pub co_await_void : ℕ → Option VoidFrame
unfolding get_return_object_void await_suspend_void final_suspend_void await_resume_void
co_await_void outer =
    Option.bind
      (resumes_void outer (final_suspend_void (await_suspend_void outer get_return_object_void)))
      await_resume_void

-- Control does not come back to the awaiting coroutine, whichever it is.
stays_away : (outer : ℕ) → co_await_void outer ≡ none
unfolding co_await_void get_return_object_void await_suspend_void final_suspend_void Option.bind
stays_away outer = refl
