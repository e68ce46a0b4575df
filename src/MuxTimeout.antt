-- ===== src/MuxTimeout.antt =====
-- examples/asio/mux_timeout.cpp: one round of `main`, which receives the main operation and the
-- timeout as they become ready.
pub mod Output
mod Tests
use tmc_examples.Base.{ℕ, ◌≡◌, Bool, true, false, Option, none, some, List, [], ◌∷◌, ◌++◌}

-- The error code of the main operation.
pub data Code : Type 0 where
  success operation_aborted : Code
  other : ℕ → Code

-- An operation of the mux: running, ready with its result, or received.
pub data Operation (Result : Type 0) : Type 0 where
  running : Operation Result
  ready : Result → Operation Result
  received : Operation Result

-- The lines of a round.
pub data Line : Type 0 where
  completed canceled timeout_occurred cancellation_signaled : Line
  unexpected_error : ℕ → Line

-- `log_error_code`
pub log_error_code : Code → Line
log_error_code success = completed
log_error_code operation_aborted = canceled
log_error_code (other value) = unexpected_error value

-- `timeout` is ready with a time that the round only prints.
pub record Round : Type 0 where
  pub main_operation : Operation Code
  pub timeout : Operation Bool
  pub printed : List Line
  pub ended : Bool

-- `mainOperationHandle.cancel()`: what still runs is aborted; it is no use on what is ready.
pub cancel : Operation Code → Operation Code
cancel running = ready operation_aborted
cancel (ready c) = ready c
cancel received = received

-- The two timers, and the cases of the switch, on the index that `co_await eachResult` gives: that of
-- an operation which is ready, or the end when all have been received. `code` is what the main
-- operation completes with when it is not canceled: a timer's is 0, a network operation may fail.
pub data Step (code : Code) (s : Round) : Round → Type 0 where
  main_expires : s.main_operation ≡ running → Step code s (record s { main_operation = ready code })
  timeout_expires : s.timeout ≡ running → Step code s (record s { timeout = ready true })
  case_0 :
      (c : Code)
      → s.main_operation ≡ ready c
      → s.ended ≡ false
      → Step code s
          (record s { main_operation = received; printed = s.printed ++ log_error_code c ∷ [] })
  case_1 :
      (at : Bool)
      → s.timeout ≡ ready at
      → s.ended ≡ false
      → Step code s (record s {
        main_operation = cancel s.main_operation;
        timeout = received;
        printed = s.printed ++ timeout_occurred ∷ cancellation_signaled ∷ [];
      })
  end :
      s.main_operation ≡ received
      → s.timeout ≡ received
      → s.ended ≡ false
      → Step code s (record s { ended = true })

pub start : Round
start = record { main_operation = running; timeout = running; printed = []; ended = false }

pub data Reach (code : Code) : Round → Type 0 where
  here : Reach code start
  next : {s t : Round} → Reach code s → Step code s t → Reach code t
