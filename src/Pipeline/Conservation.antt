-- ===== src/Pipeline/Conservation.antt =====
-- About what the stage of `Pipeline` delivers, and how full its channels get.
use tmc_examples.Base.{
  total, ℕ, ◌+◌, ◌*◌, ◌≤◌, ◌<◌, ◌≡◌, inl, inr, refl, ap, ◌∙◌, true, Option, none, some, List, [],
  ◌∷◌, length, arith,
}
use tmc_examples.Pipeline.Channels.{Channel, empty, Semaphore}
use tmc_examples.Pipeline.{
  Pc, pulling, releasing, gating, computing, finished, still_running, System, Reach,
}
use tmc_examples.Pipeline.Moves.{Level, held, Drained}
use tmc_examples.Pipeline.Invariant.{capacity, Inv, Reach-Inv}

module _ (chan : Channel) (sems : Semaphore) {Input Output : Type 0} (func : Input → Output) where
  input_le :
      (o : Option sems.State) (used most : ℕ) → Level sems o used most → 0 < most → used ≤ most
  input_le none used most v pos = absurd (omega (arith, v, pos))
  input_le (some m) used most v pos = omega (arith, v)

  pub none_held :
      (g : Output → ℕ) (ws : List (Pc Input))
      → total still_running ws ≡ 0
      → total (held chan sems func g) ws ≡ 0
  none_held g [] z = refl
  none_held g (pulling ∷ ws) z = absurd (omega (arith, z))
  none_held g (releasing a ∷ ws) z = absurd (omega (arith, z))
  none_held g (gating a ∷ ws) z = absurd (omega (arith, z))
  none_held g (computing a ∷ ws) z = absurd (omega (arith, z))
  none_held g (finished ∷ ws) z = omega (arith, none_held g ws (omega (arith, z)))

  module _ {in_sem : Option sems.State} {n x : ℕ} {s : System chan sems func} where
    -- In every interleaving, the results received, those in the output channel, those of the inputs
    -- that the workers hold, and those of the inputs in the input channel are together the results
    -- of what was sent: they weigh as much under any weight, so that each occurs as often.
    pub conserves :
        Reach chan sems func in_sem n x s
        → (g : Output → ℕ)
        → total g s.received
            + total g (chan.items s.out_chan)
            + total (held chan sems func g) s.workers
            + total (λ a. g (func a)) (chan.items s.in_chan)
          ≡ total (λ a. g (func a)) s.sent
    conserves r g = (Reach-Inv chan sems func r).amount g

    -- The output channel holds at most twice as many elements as the next stage has workers.
    pub backpressure : Reach chan sems func in_sem n x s → length (chan.items s.out_chan) ≤ 2 * x
    backpressure r = omega (arith, (Reach-Inv chan sems func r).places)

    -- Under a semaphore that a stage with workers got at 0, its input channel holds at most twice
    -- as many elements as it has workers.
    pub input_backpressure :
        {m : sems.State}
        → Reach chan sems func in_sem n x s
        → in_sem ≡ some m
        → sems.count m ≡ 0
        → 0 < n
        → length (chan.items s.in_chan) ≤ 2 * n
    input_backpressure {m} r e z pos = omega (
      arith,
      input_le s.in_sem _ (capacity chan sems func in_sem n) (Reach-Inv chan sems func r).input
          (omega (arith, most, pos)),
      most,
    )
      where
        most : capacity chan sems func in_sem n ≡ 2 * n
        most = ap (λ o. capacity chan sems func o n) e ∙ omega (arith, z)

    -- When the consumer of a stage with workers finds the output channel closed and drained, it has
    -- received the results of all that was sent, each as often, and the input was closed.
    pub completes :
        Reach chan sems func in_sem n x s
        → 0 < n
        → chan.pull s.out_chan ≡ empty
        → ((g : Output → ℕ) → total g s.received ≡ total (λ a. g (func a)) s.sent)
          × (chan.closed s.in_chan ≡ true)
    completes r pos e = (
      λ g. omega (
        arith,
        v.amount g,
        none_held g s.workers stopped,
        ap (total g) drained_out,
        ap (total (λ a. g (func a))) drained.0,
      ),
      drained.1,
    )
      where
        v : Inv chan sems func n x (capacity chan sems func in_sem n) s
        v = Reach-Inv chan sems func r

        drained_out : chan.items s.out_chan ≡ []
        drained_out = (chan.pull_empty s.out_chan e).0

        stopped : total still_running s.workers ≡ 0
        stopped = v.ended (chan.pull_empty s.out_chan e).1

        drained : Drained chan sems func s.shared
        drained = elim v.running [ inl r ↦ absurd (omega (arith, r, stopped, pos)) | inr d ↦ d ]
