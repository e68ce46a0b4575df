-- ===== src/Pipeline/Tests.antt =====
-- A stage of two workers that add ten, fed with two numbers, and the theorems of `Pipeline` there.
use tmc_examples.Base.{
  total, ℕ, ◌+◌, ◌*◌, ◌≤◌, ◌≡◌, refl, Bool, true, false, some, List, [], ◌∷◌, arith, length,
}
use tmc_examples.Pipeline.Channels.{stack_channel, counter}
use tmc_examples.Pipeline.{
  Pc, pulling, releasing, gating, computing, finished, make_stage, release_capacity, release_one,
  worker_at, on_pull, on_acquire, System, work, close_output, acquire_input, send, close_input,
  take, start, Reach, here, next,
}
use tmc_examples.Pipeline.Moves.{held}
use tmc_examples.Pipeline.Conservation.{conserves, backpressure}

abbrev plus_ten : ℕ → ℕ
plus_ten a = a + 10

abbrev R : System stack_channel counter plus_ten → Type 0
R = Reach stack_channel counter plus_ten (some 0) 2 1

-- The free permits of both semaphores, the two channels, the workers and the rest.
abbrev state :
    (ins : List ℕ) (c : Bool) (in_free : ℕ) (outs : List ℕ) (d : Bool) (out_free : ℕ)
    (workers : List (Pc ℕ)) (permits unreleased : ℕ) (sent received : List ℕ)
    → System stack_channel counter plus_ten
state ins c in_free outs d out_free workers permits unreleased sent received = record {
  shared = record {
    in_chan = record { elements = ins; shut = c };
    in_sem = some in_free;
    out_chan = record { elements = outs; shut = d };
    out_sem = out_free;
  };
  workers = workers;
  permits = permits;
  unreleased = unreleased;
  sent = sent;
  received = received;
}

abbrev busy_state : System stack_channel counter plus_ten
busy_state = state (6 ∷ []) true 3 [] false 1 (pulling ∷ computing 5 ∷ []) 0 0 (5 ∷ 6 ∷ []) []

busy : R busy_state
unfolding start make_stage release_capacity release_one worker_at on_pull on_acquire
busy =
    next
      (next
        (next
          (next
            (next
              (next (next (next here (acquire_input refl refl)) (acquire_input refl refl))
                (send 6 refl (omega arith)))
              (send 5 refl (omega arith)))
            close_input)
          (work (pulling ∷ []) [] pulling refl refl))
        (work (pulling ∷ []) [] (releasing 5) refl refl))
      (work (pulling ∷ []) [] (gating 5) refl refl)

posted : R (state [] true 4 (16 ∷ 15 ∷ []) false 0 (pulling ∷ pulling ∷ []) 0 0 (5 ∷ 6 ∷ []) [])
unfolding release_one worker_at on_pull on_acquire
posted =
    next
      (next
        (next
          (next (next busy (work (pulling ∷ []) [] (computing 5) refl refl))
            (work (pulling ∷ []) [] pulling refl refl))
          (work (pulling ∷ []) [] (releasing 6) refl refl))
        (work (pulling ∷ []) [] (gating 6) refl refl))
      (work (pulling ∷ []) [] (computing 6) refl refl)

abbrev ended_state : System stack_channel counter plus_ten
ended_state = state [] true 4 [] true 0 (finished ∷ finished ∷ []) 0 2 (5 ∷ 6 ∷ []) (15 ∷ 16 ∷ [])

ended : R ended_state
unfolding worker_at on_pull
ended =
    next
      (next
        (next
          (next (next posted (work [] (pulling ∷ []) pulling refl refl))
            (work (finished ∷ []) [] pulling refl refl))
          (close_output refl))
        (take refl))
      (take refl)

conserves_example :
    total (λ b. b) busy_state.received
      + total (λ b. b) busy_state.shared.out_chan.elements
      + total (held stack_channel counter plus_ten (λ b. b)) busy_state.workers
      + total (λ a. plus_ten a) busy_state.shared.in_chan.elements
    ≡ total (λ a. plus_ten a) busy_state.sent
conserves_example = conserves stack_channel counter plus_ten busy (λ b. b)

backpressure_example : length {A = ℕ} (16 ∷ 15 ∷ []) ≤ 2 * 1
backpressure_example = backpressure stack_channel counter plus_ten posted
