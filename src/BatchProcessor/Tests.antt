-- ===== src/BatchProcessor/Tests.antt =====
-- A processor that gets two elements, the timer, a third element and the end, and the theorems of
-- `BatchProcessor` there.
use tmc_examples.Base.{ℕ, ◌≡◌, refl, Bool, true, false, List, [], ◌∷◌, ◌++◌, flatten}
use tmc_examples.BatchProcessor.{
  ready_mux, System, start_timer, on_pulled, on_timer, make_processor, pulled, pulled_end, fired,
  finish, start, Reach, here, next,
}
use tmc_examples.BatchProcessor.Invariant.{NoneEmpty}
use tmc_examples.BatchProcessor.Batches.{batches_in_order, returned_lem}

-- By the active slots, the batch, the cancellation, the batches processed, the return, what was
-- received, and the end.
abbrev state :
    (pull timer : Bool) → List ℕ → Bool → List (List ℕ) → Bool → List ℕ → Bool → System ready_mux ℕ
state pull timer batch cancelled processed returned received ended = record {
  processor = record {
    mux = record { pull = pull; timer = timer };
    batch = batch;
    cancelled = cancelled;
    processed = processed;
    returned = returned;
  };
  received = received;
  ended = ended;
}

abbrev third : System ready_mux ℕ
third = state true true (7 ∷ []) false ((5 ∷ 6 ∷ []) ∷ []) false (5 ∷ 6 ∷ 7 ∷ []) false

third_Reach : Reach ready_mux ℕ third
unfolding start make_processor on_pulled on_timer start_timer
third_Reach =
    next (next (next (next here (pulled 5 refl)) (pulled 6 refl)) (fired refl)) (pulled 7 refl)

abbrev over : System ready_mux ℕ
over = state false false [] true ((5 ∷ 6 ∷ []) ∷ (7 ∷ []) ∷ []) true (5 ∷ 6 ∷ 7 ∷ []) true

over_Reach : Reach ready_mux ℕ over
unfolding on_pulled on_timer
over_Reach = next (next (next third_Reach (pulled_end refl)) (fired refl)) (finish refl)

batches_in_order_example :
    (flatten third.processed ++ third.batch ≡ third.received) × NoneEmpty third.processed
batches_in_order_example = batches_in_order ready_mux ℕ third_Reach

returned_lem_example : (flatten over.processed ≡ over.received) × (over.ended ≡ true)
returned_lem_example = returned_lem ready_mux ℕ over_Reach refl
