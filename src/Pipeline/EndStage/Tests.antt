-- ===== src/Pipeline/EndStage/Tests.antt =====
-- An end stage of one worker that gets one number.
use tmc_examples.Base.{ℕ, refl, true, [], ◌∷◌, arith}
use tmc_examples.Pipeline.Channels.{stack_channel, counter}
use tmc_examples.Pipeline.EndStage.{
  pulling, releasing, calling, finished, on_pull, worker_at, System, end_pipeline, work,
  acquire_input, send, close_input, Reach, next, here,
}

abbrev over : System stack_channel counter ℕ
over = record {
  shared = record {
    in_chan = record { elements = []; shut = true };
    in_sem = 2;
    consumed = 5 ∷ [];
  };
  workers = finished ∷ [];
  permits = 0;
  sent = 5 ∷ [];
}

run : Reach stack_channel counter ℕ 1 over
unfolding end_pipeline worker_at on_pull
run =
    next
      (next
        (next
          (next
            (next (next (next here (acquire_input refl)) (send 5 refl (omega arith))) close_input)
            (work [] [] pulling refl refl))
          (work [] [] (releasing 5) refl refl))
        (work [] [] (calling 5) refl refl))
      (work [] [] pulling refl refl)
