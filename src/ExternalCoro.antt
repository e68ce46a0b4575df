-- ===== src/ExternalCoro.antt =====
-- examples/external/external_coro.hpp and external_coro.cpp: a coroutine type of a foreign library
-- that returns a result, and two coroutines that await one another.
pub mod PingPong
mod Void
mod Tests
use tmc_examples.Base.{
  ℕ, zero, suc, ◌+◌, ◌≡◌, Bool, true, false, not, Option, none, some, List, [], ◌∷◌, ◌==◌,
  if◌then◌else◌,
}
use mathlib.Core.Option

-- Where a coroutine's frame is.
pub data Stage : Type 0 where
  initial running final destroyed : Stage

-- The frame with its promise, whose `continuation` names the coroutine that waits by a number, and the result in the awaitable, which `result_ptr` refers to once it
-- is set.
pub record Frame (Result : Type 0) : Type 0 where
  pub stage : Stage
  pub continuation : Option ℕ
  pub result_ptr : Bool
  pub result : Option Result

module _ {Result : Type 0} where
  -- `get_return_object`, after which `initial_suspend` always suspends.
  pub get_return_object : Frame Result
  get_return_object = record {
    stage = initial;
    continuation = none;
    result_ptr = false;
    result = none;
  }

  -- It returns the coroutine's own handle, so that the coroutine runs next.
  await_suspend : ℕ → Frame Result → Frame Result
  await_suspend outer f = record {
    stage = running;
    continuation = some outer;
    result_ptr = true;
    result = f.result;
  }

  -- `*result_ptr = Value`; undefined (`none`) while the pointer is null.
  return_value : Result → Frame Result → Option (Frame Result)
  return_value v f = if f.result_ptr then some (record f { result = some v }) else none

  -- The frame stays suspended, and control goes to the continuation.
  final_suspend : Frame Result → Frame Result × Option ℕ
  final_suspend f = (record f { stage = final }, f.continuation)

  destroy_at : Stage → Frame Result → Option (Frame Result)
  destroy_at final f = some (record f { stage = destroyed })
  destroy_at stage f = none

  -- `handle.destroy()`, which is undefined (`none`) but for a suspended frame, and the result.
  await_resume : Frame Result → Option (Result × Frame Result)
  unfolding destroy_at
  await_resume f = Option.bind (destroy_at f.stage f) (λ g. Option.map (λ r. (r, g)) f.result)

  abbrev resumes : ℕ → Frame Result × Option ℕ → Option (Frame Result)
  resumes outer (f, none) = none
  resumes outer (f, some next) = if next == outer then some f else none

  -- `co_await` of a new coroutine with the result of its body, by the coroutine `outer`: what the
  -- awaiting coroutine gets, and the frame. `none` where control does not come back to it.
  pub co_await : ℕ → Option Result → Option (Result × Frame Result)
  unfolding await_suspend return_value final_suspend await_resume
  co_await outer body =
      let f = await_suspend outer get_return_object in
      Option.bind body (λ v.
        Option.bind (return_value v f)
          (λ g. Option.bind (resumes outer (final_suspend g)) await_resume))

-- The two coroutines, each named by its count where it waits; `none` is also for fuel, one unit for each call, that has run out. A TMC task is
-- the value that it returns.
mutual
  pub internal : ℕ → ℕ → ℕ → Option ℕ
  internal zero count max = none
  internal (suc fuel) count max =
      let child = external fuel (count + 1) max in
      if count + 1 == max
      then some (count + 1)
      else Option.map (λ (r : ℕ × Frame ℕ). r.0) (co_await count child)

  pub external : ℕ → ℕ → ℕ → Option ℕ
  external zero count max = none
  external (suc fuel) count max =
      let child = internal fuel (count + 1) max in
      if count + 1 == max then some (count + 1) else child

-- Does it print that the result is wrong?
pub run_internal_first : ℕ → ℕ → Option Bool
run_internal_first fuel max = Option.map (λ r. not (r == max)) (internal fuel 0 max)

-- The value that the promise is set to.
pub external_result_by_promise : ℕ → ℕ → ℕ → Option ℕ
external_result_by_promise fuel count max =
    let child = internal fuel (count + 1) max in
    if count + 1 == max then some (count + 1) else child

pub run_external_first_by_promise : ℕ → ℕ → Option Bool
unfolding external_result_by_promise
run_external_first_by_promise fuel max =
    Option.map (λ r. not (r == max)) (external_result_by_promise fuel 0 max)
