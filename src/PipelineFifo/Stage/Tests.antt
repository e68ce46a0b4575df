-- ===== src/PipelineFifo/Stage/Tests.antt =====
-- A stage with room for one task, fed with two numbers, and the theorems of `Stage` in its states.
use tmc_examples.Base.{ℕ, ◌+◌, refl, Bool, true, false, List, [], ◌∷◌}
use tmc_examples.Runtime.{run_inline}
use tmc_examples.PipelineFifo.Queue.{list_queue}
use tmc_examples.PipelineFifo.Stage.{
  System, work, send, close_input, take, start, Reach, here, next, worker, make_stage, Pc, pulling,
  pushing, finished,
}

abbrev plus_ten : ℕ → ℕ
plus_ten a = a + 10

abbrev S : Type 0
S = System list_queue run_inline {Stored = ℕ} (λ a. a) plus_ten

-- Two inputs sent, the first handed over as a task, the input closed.
abbrev state : Pc ℕ → List ℕ → Bool → List ℕ → Bool → List ℕ → S
state pc ins c outs d received = record {
  stage = record {
    in_queue = record { items = ins; closed = c; capacity = 2 };
    out_queue = record { items = outs; closed = d; capacity = 1 };
    pc = pc;
  };
  sent = 5 ∷ 6 ∷ [];
  received = received;
}

abbrev R : S → Type 0
R = Reach list_queue run_inline {Stored = ℕ} (λ a. a) plus_ten 2 1

one_sent : R (record (state pulling (5 ∷ []) false [] false []) { sent = 5 ∷ [] })
unfolding start make_stage
one_sent = next here (send 5 refl refl)

both_sent : R (state pulling (5 ∷ 6 ∷ []) false [] false [])
both_sent = next one_sent (send 6 refl refl)

busy : R (state pulling (6 ∷ []) true (15 ∷ []) false [])
unfolding worker
busy = next (next (next both_sent close_input) (work refl)) (work refl)

-- The worker holds the second input, and the output queue is full.
abbrev blocked_state : S
blocked_state = state (pushing 6) (6 ∷ []) true (15 ∷ []) false []

blocked : R blocked_state
unfolding worker
blocked = next busy (work refl)

served : R (state (pushing 6) (6 ∷ []) true [] false (15 ∷ []))
served = next blocked (take refl)

ended : R (state finished [] true [] true (15 ∷ 16 ∷ []))
unfolding worker
ended = next (next (next served (work refl)) (work refl)) (take refl)
