-- ===== src/Pipeline/Driver/Tests.antt =====
-- A stage of one worker that adds ten, before an end stage of one worker, and one element.
use tmc_examples.Base.{
  total, ℕ, ◌+◌, ◌-◌, ◌<◌, ◌≡◌, ◌⊎◌, refl, true, false, some, List, [], ◌∷◌, arith,
}
use tmc_examples.PipelineFifo.Chain.Program.{whole_halves, int_value}
use tmc_examples.Pipeline.Channels.{stack_channel, counter}
use tmc_examples.Pipeline.{
  pulling, releasing, gating, computing, finished, worker_at, on_pull, on_acquire, release_one,
}
use tmc_examples.Pipeline.EndStage as End
use tmc_examples.Pipeline.Driver.{
  Config, build, acquiring, returned, State, Step, consume, work, close_output, there, acquire,
  post, drain, drained, join, move, start, Reach, here, next,
}
use tmc_examples.Pipeline.Driver.Flow.{through}
use tmc_examples.Pipeline.Driver.Run.{before}
use tmc_examples.Pipeline.Driver.Start.{all_steps}
use tmc_examples.Pipeline.Driver.Result.{consumed, returned_or_goes, consumed-returned}
use tmc_examples.Pipeline.Driver.Program.{end_totals, end_totals-returned, stages}

abbrev plus_ten : ℕ → ℕ
plus_ten a = a + 10

abbrev one_stage : List (Config stack_channel counter ℕ)
one_stage = (plus_ten, 1) ∷ []

abbrev itself : ℕ → ℕ
itself i = i

abbrev S : Type 0
S = State stack_channel counter itself 1 one_stage

abbrev R : ℕ → S → Type 0
R = Reach stack_channel counter itself 1 one_stage 1

abbrev over : S
over = record {
  main = returned;
  input = record { queue = record { elements = []; shut = true }; sem = some 2 };
  stages = (
    record {
      out_chan = record { elements = []; shut = true };
      out_sem = 2;
      workers = finished ∷ [];
    },
    record { consumers = End.finished ∷ []; consumed = 10 ∷ [] },
  );
}

abbrev half : S
half = record {
  main = acquiring 1;
  input = record { queue = record { elements = []; shut = false }; sem = some 2 };
  stages = (
    record {
      out_chan = record { elements = 10 ∷ []; shut = false };
      out_sem = 1;
      workers = pulling ∷ [];
    },
    record { consumers = End.pulling ∷ []; consumed = [] },
  );
}

half_way : R 6 half
unfolding start build worker_at on_pull on_acquire release_one
half_way =
    next
      (next
        (next
          (next (next (next here (acquire (omega arith) refl)) post)
            (move (work [] [] pulling refl refl)))
          (move (work [] [] (releasing 0) refl refl)))
        (move (work [] [] (gating 0) refl refl)))
      (move (work [] [] (computing 0) refl refl))

whole : R 15 over
unfolding worker_at on_pull End.worker_at End.on_pull
whole =
    next
      (next
        (next
          (next
            (next
              (next
                (next
                  (next (next half_way (move (there (consume [] [] End.pulling refl refl refl))))
                    (move (there (consume [] [] (End.releasing 10) refl refl refl))))
                  (move (there (consume [] [] (End.calling 10) refl refl refl))))
                (drain (omega arith)))
              (move (work [] [] pulling refl refl)))
            (move (close_output refl refl)))
          (move (there (consume [] [] End.pulling refl refl refl))))
        (drained refl))
      (join (refl, (refl, refl), refl))

returned_or_goes_example :
    ((half.main ≡ returned) × (6 ≡ all_steps stack_channel counter itself 1 one_stage 1))
    ⊎ ((6 < all_steps stack_channel counter itself 1 one_stage 1)
        × ((t : S) × Step stack_channel counter itself 1 one_stage half t))
returned_or_goes_example =
    returned_or_goes stack_channel counter itself 1 one_stage 1 (omega arith, omega arith) half_way

consumed-returned_example :
    total itself (consumed stack_channel counter one_stage over.stages)
    ≡ total (λ a. itself (through stack_channel counter ℕ one_stage a)) (before itself 1)
consumed-returned_example =
    consumed-returned stack_channel counter itself 1 one_stage 1 (omega arith, omega arith) whole
      refl itself

-- The program with five elements: the sum is 3.
end_totals-returned_example :
    ((k : ℕ) (s : State stack_channel counter int_value 5 (stages whole_halves))
      → Reach stack_channel counter int_value 5 (stages whole_halves) 1 k s
      → s.main ≡ returned
      → ((end_totals whole_halves 100
            (consumed stack_channel counter (stages whole_halves) s.stages)).sum
          ≡ 5 - 2)
        × ((end_totals whole_halves 100
              (consumed stack_channel counter (stages whole_halves) s.stages)).count
            ≡ 5))
    × ((s : State stack_channel counter int_value 5 (stages whole_halves)) × Reach stack_channel
          counter int_value 5
          (stages whole_halves)
          1
          (all_steps stack_channel counter int_value 5 (stages whole_halves) 1)
          s
        × (s.main ≡ returned))
end_totals-returned_example =
    end_totals-returned whole_halves stack_channel counter 100 5 (omega arith) (omega arith)
