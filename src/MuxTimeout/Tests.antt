-- ===== src/MuxTimeout/Tests.antt =====
-- A round in which the timeout comes first.
use tmc_examples.Base.{true, [], ◌∷◌}
use tmc_examples.MuxTimeout.{received, canceled, timeout_occurred, cancellation_signaled, Round}

abbrev over : Round
over = record {
  main_operation = received;
  timeout = received;
  printed = timeout_occurred ∷ cancellation_signaled ∷ canceled ∷ [];
  ended = true;
}
