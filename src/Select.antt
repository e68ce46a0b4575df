-- ===== src/Select.antt =====
-- examples/asio/select.cpp: an operation against a timeout, for each of several durations.
pub mod Outcomes
use tmc_examples.Base.{ℕ, ◌<◌, ◌≡◌, Option, none, some, List, [], ◌∷◌, ◌++◌}

-- An error code, by the cases of `log_error_code`.
pub data Code : Type 0 where
  success operation_aborted : Code
  other : ℕ → Code

-- `std::variant<std::tuple<error_code>, std::tuple<error_code>>`, which may hold no value.
pub data Selected : Type 0 where
  slot_0 slot_1 : Code → Selected
  valueless : Selected

-- `tmc::select` and Asio's timers, as parameters: which timer is seen to expire first, with which
-- code, is theirs to say.
pub record Library : Type 1 where
  pub Awaitable : Type 0
  pub Cancellable : Type 0
  pub async_wait : (duration : ℕ) → Awaitable
  -- With a function that cancels the operation, and with an object that has `cancel`.
  pub cancellable_by : Awaitable → Cancellable
  pub cancellable_object : Awaitable → Cancellable
  pub select : Cancellable → Cancellable → Selected

-- The lines, without the times.
pub data Line : Type 0 where
  operation_completed operation_canceled operation_timed_out blank : Line
  unexpected_error : ℕ → Line

pub log_error_code : Code → Line
log_error_code success = operation_completed
log_error_code operation_aborted = operation_canceled
log_error_code (other value) = unexpected_error value

module _ (lib : Library) where
  -- What an iteration prints, or `none` for `exit(1)`.
  on_result : Selected → Option (List Line)
  unfolding log_error_code
  on_result (slot_0 ec) = some (log_error_code ec ∷ blank ∷ [])
  on_result (slot_1 ec) = some (operation_timed_out ∷ blank ∷ [])
  on_result valueless = none

  race : (main_op_duration timeout_duration : ℕ) → Option (List Line)
  unfolding on_result
  race main_op_duration timeout_duration = on_result (
      lib.select (lib.cancellable_by (lib.async_wait main_op_duration))
        (lib.cancellable_object (lib.async_wait timeout_duration)))

  -- The lines of the program, and the code that it exits with.
  print_all : Option (List Line) → List Line × ℕ → List Line × ℕ
  print_all none rest = ([], 1)
  print_all (some lines) rest = (lines ++ rest.0, rest.1)

  -- The loop over the durations.
  pub select_each : (timeout_duration : ℕ) → List ℕ → List Line × ℕ
  unfolding race print_all
  select_each timeout_duration [] = ([], 0)
  select_each timeout_duration (d ∷ durations) =
      print_all (race d timeout_duration) (select_each timeout_duration durations)

  -- An array of three durations with two initializers; the third is 0.
  pub main : List Line × ℕ
  unfolding select_each
  main = select_each 100 (50 ∷ 150 ∷ 0 ∷ [])
