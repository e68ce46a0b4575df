-- ===== src/Commas.antt =====
-- `formatWithCommas` of examples/queue_bench.cpp, chan_bench.cpp and exec_st_roundtrip_bench.cpp, and
-- the end of `formatElementsPerSec` of pipeline.cpp and pipeline_fifo.cpp. A string is the list of
-- its character codes.
pub mod Grouping
mod Tests
use tmc_examples.Base.{ℕ, zero, suc, ◌+◌, ◌-◌, List, [], ◌∷◌, length}
use tmc_examples.Base.Digits.{to_string}

abbrev pub comma : ℕ
comma = b','

-- `s.insert(i, ",")`; past the end of the string nothing is inserted (the source throws there).
insert_at : ℕ → ℕ → List ℕ → List ℕ
insert_at zero c s = c ∷ s
insert_at (suc i) c [] = []
insert_at (suc i) c (x ∷ s) = x ∷ insert_at i c s

-- `while (i > 0) { s.insert(i, ","); i -= 3; }`. At 1, 2 and 3 the next `i` is not positive.
insert_commas : ℕ → List ℕ → List ℕ
insert_commas zero s = s
insert_commas (suc zero) s = insert_at 1 comma s
insert_commas (suc (suc zero)) s = insert_at 2 comma s
insert_commas (suc (suc (suc i))) s = insert_commas i (insert_at (suc (suc (suc i))) comma s)

-- `int i = s.length() - 3` is tested against 0 only, so a negative `i` may stand as 0.
pub format_with_commas : ℕ → List ℕ
format_with_commas n = let s = to_string n in insert_commas (length s - 3) s
