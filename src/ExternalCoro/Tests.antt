-- ===== src/ExternalCoro/Tests.antt =====
-- The programs of `ExternalCoro` at a depth of four, and the theorem about their end there.
use tmc_examples.Base.{◌≡◌, some, false, arith}
use tmc_examples.ExternalCoro.{run_internal_first, run_external_first_by_promise}
use tmc_examples.ExternalCoro.PingPong.{run_silent}

run_silent_example :
    (run_internal_first 4 4 ≡ some false) × (run_external_first_by_promise 4 4 ≡ some false)
run_silent_example = run_silent 4 (omega arith)
