-- ===== src/BatchProcessor/Batches.antt =====
-- The batches that `BatchProcessor` processes.
use tmc_examples.Base.{
  ◌≡◌, refl, sym, ap, ◌∙◌, Bool, true, false, not, List, [], ◌∷◌, ◌++◌, flatten, append-nil,
}
use tmc_examples.BatchProcessor.{Mux, System, Reach}
use tmc_examples.BatchProcessor.Invariant.{nonempty, NoneEmpty, Reach-Inv}

nothing_left : {A : Type 0} (xs : List A) → nonempty xs ≡ false → xs ≡ []
nothing_left [] h = refl
nothing_left (x ∷ xs) h = cc

ended_of : (b : Bool) → not b ≡ false → b ≡ true
ended_of true h = refl
ended_of false h = cc

module _ (lib : Mux) (Data : Type 0) {s : System lib Data} where
  -- What was processed, then the batch at hand, is what was received, in order, and no batch that
  -- was processed is empty.
  pub batches_in_order :
      Reach lib Data s → (flatten s.processed ++ s.batch ≡ s.received) × NoneEmpty s.processed
  batches_in_order r = let v = Reach-Inv lib Data r in (v.order, v.batches)

  -- The timer's slot is active if and only if the batch holds an element, and the pull's until the
  -- queue's end was received.
  pub active-batch :
      Reach lib Data s
      → ((lib.active s.mux).timer ≡ nonempty s.batch) × ((lib.active s.mux).pull ≡ not s.ended)
  active-batch r = let v = Reach-Inv lib Data r in (v.timed, v.pulls)

  -- When the processor has returned, all that was received has been processed, in order, and the
  -- queue had ended.
  pub returned_lem :
      Reach lib Data s → s.returned ≡ true → (flatten s.processed ≡ s.received) × (s.ended ≡ true)
  returned_lem r e =
      let v = Reach-Inv lib Data r in
      let off = v.over e in
      let drained = nothing_left s.batch (sym v.timed ∙ ap (λ x. x.timer) off) in
      (
        sym (append-nil (flatten s.processed))
            ∙ ap (λ xs. flatten s.processed ++ xs) (sym drained)
            ∙ v.order,
        ended_of s.ended (sym v.pulls ∙ ap (λ x. x.pull) off),
      )
