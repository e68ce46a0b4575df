-- ===== src/MuxTimeout/Output.antt =====
-- About the lines of a round of `MuxTimeout`, and its end.
use tmc_examples.Base.{ℕ, ◌+◌, if◌then◌else◌, ◌≡◌, ◌⊎◌, Bool, List, [], ◌∷◌}
use tmc_examples.MuxTimeout.{
  Code, success, operation_aborted, other, unexpected_error, Operation, running, ready, received,
  Line, completed, canceled, timeout_occurred, cancellation_signaled, Round,
}

-- `code` is what the main operation completes with when it is not canceled.
module _ (code : Code) where
  -- The line that each code stands for.
  abbrev pub expected : Code → Line
  expected success = completed
  expected operation_aborted = canceled
  expected (other value) = unexpected_error value

  -- What a round may have printed, by where its two operations are.
  abbrev pub Printed : Operation Code → Operation Bool → List Line → Type 0
  Printed received received xs =
      (xs ≡ expected code ∷ timeout_occurred ∷ cancellation_signaled ∷ [])
      ⊎ ((xs ≡ timeout_occurred ∷ cancellation_signaled ∷ canceled ∷ [])
          ⊎ (xs ≡ timeout_occurred ∷ cancellation_signaled ∷ expected code ∷ []))
  Printed running received xs = ⊥
  Printed (ready c) received xs =
      (xs ≡ timeout_occurred ∷ cancellation_signaled ∷ []) × ((c ≡ code) ⊎ (c ≡ operation_aborted))
  Printed received running xs = xs ≡ expected code ∷ []
  Printed received (ready t) xs = xs ≡ expected code ∷ []
  Printed running running xs = xs ≡ []
  Printed running (ready t) xs = xs ≡ []
  Printed (ready c) running xs = (xs ≡ []) × (c ≡ code)
  Printed (ready c) (ready t) xs = (xs ≡ []) × (c ≡ code)

  abbrev operation_steps : {R : Type 0} → Operation R → ℕ
  operation_steps running = 2
  operation_steps (ready r) = 1
  operation_steps received = 0

  -- A bound of the steps that are left.
  abbrev pub steps_left : Round → ℕ
  steps_left s =
      operation_steps s.main_operation + operation_steps s.timeout + (if s.ended then 0 else 1)
