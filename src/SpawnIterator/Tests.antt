-- ===== src/SpawnIterator/Tests.antt =====
-- The theorems of `SpawnIterator` at the program's N and at the iterators that it uses.
use tmc_examples.Base.{◌≡◌, refl, true, arith}
use tmc_examples.Runtime.{run_inline}
use tmc_examples.SpawnIterator.{eager, main}
use tmc_examples.SpawnIterator.Asserts.{FitInt, no_assert_fails}

no_assert_fails_example : (main run_inline eager 5 ≡ true) × FitInt eager run_inline 5
no_assert_fails_example =
    no_assert_fails eager run_inline 5 (omega arith) (omega arith) (λ ts. refl)
