-- ===== src/PipelineFifo/EndStage/Tests.antt =====
-- A terminal stage for two tasks at once, fed with two numbers, and the theorems of `EndStage` there.
use tmc_examples.Base.{
  ℕ, ◌≤◌, length, ◌+◌, ◌≡◌, ◌≢◌, refl, Bool, true, false, List, [], ◌∷◌, map, arith,
}
use tmc_examples.Runtime.{run_inline}
use tmc_examples.PipelineFifo.Queue.{list_queue}
use tmc_examples.PipelineFifo.EndStage.{
  Pc, pulling, testing, finished, suspended, fault, returned, System, work, send, close_input,
  start, make_worker, Reach, here, next, step, worker,
}
use tmc_examples.PipelineFifo.EndStage.Result.{waits_upstream_only, consumes_all, active-eq-length}

abbrev plus_ten : ℕ → ℕ
plus_ten a = a + 10

abbrev S : Type 0
S = System list_queue run_inline {Stored = ℕ} (λ a. a) plus_ten 2

abbrev R : S → Type 0
R = Reach list_queue run_inline {Stored = ℕ} (λ a. a) plus_ten 2 4

abbrev state : Pc ℕ → List ℕ → Bool → List ℕ → ℕ → List ℕ → S
state pc ins c tasks active awaited = record {
  stage = record {
    in_queue = record { items = ins; closed = c; capacity = 4 };
    internal_queue = record { items = tasks; closed = false; capacity = 2 };
    active = active;
    pc = pc;
    awaited = awaited;
  };
  sent = 5 ∷ 6 ∷ [];
}

fed : R (state pulling (5 ∷ 6 ∷ []) true [] 0 [])
unfolding start make_worker
fed = next (next (next here (send 5 refl refl)) (send 6 refl refl)) close_input

one_task : R (state pulling (6 ∷ []) true (15 ∷ []) 1 [])
unfolding step worker
one_task = next (next (next fed (work refl)) (work refl)) (work refl)

abbrev busy : S
busy = state testing (6 ∷ []) true (15 ∷ 16 ∷ []) 2 []

at_limit : R (state testing (6 ∷ []) true (15 ∷ 16 ∷ []) 2 [])
unfolding step worker
at_limit = next (next one_task (work refl)) (work refl)

ended : R (state finished [] true [] 0 (15 ∷ 16 ∷ []))
unfolding step worker
ended = next (next (next (next at_limit (work refl)) (work refl)) (work refl)) (work refl)

waits_upstream_only_example :
    (step list_queue run_inline (λ a. a) plus_ten 2 busy.stage ≡ suspended → busy.pc ≡ pulling)
    × (step list_queue run_inline (λ a. a) plus_ten 2 busy.stage ≢ fault)
    × (step list_queue run_inline (λ a. a) plus_ten 2 busy.stage ≡ returned → busy.pc ≡ finished)
waits_upstream_only_example =
    waits_upstream_only list_queue run_inline (λ a. a) plus_ten 2 (omega arith) at_limit

consumes_all_example : ((15 ∷ 16 ∷ []) ≡ map plus_ten (5 ∷ 6 ∷ [])) × (◌≡◌ {A = Bool} true true)
consumes_all_example =
    consumes_all list_queue run_inline (λ a. a) plus_ten 2 (omega arith) ended refl

active-eq-length_example :
    (busy.active ≡ length (list_queue.view busy.internal_queue).items) × (busy.active ≤ 2)
active-eq-length_example =
    active-eq-length list_queue run_inline (λ a. a) plus_ten 2 (omega arith) at_limit
