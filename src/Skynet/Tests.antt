-- ===== src/Skynet/Tests.antt =====
-- Runs of the tree at small depths, and the theorems of `Skynet` at concrete runs.
use tmc_examples.Base.{◌%◌, ◌^◌, ◌≡◌, some, arith}
use tmc_examples.Runtime.{run_inline}
use tmc_examples.Skynet.Sums.{range_sum}
use tmc_examples.Skynet.{skynet_one}
use tmc_examples.Skynet.Result.{skynet_one_result}

skynet_one_result_example :
    skynet_one run_inline (2 ^ 64) 2 3 5 0 ≡ some (range_sum 5 (10 ^ 2) % 2 ^ 64)
skynet_one_result_example =
    skynet_one_result run_inline (2 ^ 64) 2 (omega arith) 3 2 5 0 (omega arith) (omega arith)
      (omega arith)
