-- ===== src/Fib/Tests.antt =====
-- The benchmark at a small input.
use tmc_examples.Base.{◌%◌, ◌^◌, ◌≡◌, refl, arith}
use tmc_examples.Runtime.{run_inline}
use tmc_examples.Fib.{fib, fibonacci, fib-eq-fibonacci}

fib_ten : fib run_inline (2 ^ 64) 10 ≡ 55
unfolding fib
fib_ten = refl

fib-eq-fibonacci_example : fib run_inline (2 ^ 64) 12 ≡ fibonacci 0 1 12 % 2 ^ 64
fib-eq-fibonacci_example = fib-eq-fibonacci run_inline (2 ^ 64) (omega arith) 12
