-- ===== src/Pipeline/EndStage/Consumption.antt =====
-- What the workers of `Pipeline.EndStage` have consumed, and how full their channel gets.
use tmc_examples.Base.{
  total, total-at, total-replicate_none, total-replicate_one, ℕ, ◌+◌, ◌*◌, ◌≤◌, ◌<◌, ◌≡◌, ◌⊎◌, inl,
  inr, refl, ap, ◌∙◌, true, false, some, List, [], ◌∷◌, ◌++◌, length, length-Perm, arith,
}
use tmc_examples.Pipeline.Channels.{Channel, Semaphore}
use tmc_examples.Pipeline.Moves.{total-Perm}
use tmc_examples.Pipeline.EndStage.Moves.{held, to_release, Drained, Kept, worker_at-Kept}
use tmc_examples.Pipeline.EndStage.{
  Pc, pulling, releasing, calling, finished, still_running, Shared, Place, worker_at, System,
  end_pipeline, Step, work, acquire_input, send, close_input, Reach, here, next,
}

module _ (chan : Channel) (sems : Semaphore) (Input : Type 0) where
  abbrev Sh : Type 0
  Sh = Shared chan sems Input

  abbrev Pl : Type 0
  Pl = Place chan sems Input

  record Inv (n : ℕ) (s : System chan sems Input) : Type 0 where
    amount :
        (g : Input → ℕ)
        → total g s.consumed
            + total (held chan sems Input g) s.workers
            + total g (chan.items s.in_chan)
          ≡ total g s.sent
    places :
        sems.count s.in_sem
          + length (chan.items s.in_chan)
          + total (to_release chan sems Input) s.workers
          + s.permits
        ≡ 2 * n
    running : (total still_running s.workers ≡ n) ⊎ Drained chan sems Input s.shared

  work-Inv :
      {n : ℕ} (s : System chan sems Input) (before after : List (Pc Input)) (pc pc' : Pc Input)
      (t : Sh)
      → s.workers ≡ before ++ pc ∷ after
      → worker_at chan sems Input pc s.shared ≡ some (t, pc')
      → Inv n s
      → Inv n (record s { shared = t; workers = before ++ pc' ∷ after })
  work-Inv {n} s before after pc pc' t e h v = record {
    amount = λ g. omega (
      arith,
      v.amount g,
      k.amount g,
      split (held chan sems Input g),
      total-at (held chan sems Input g) before pc' after,
    );
    places = omega (
      arith,
      v.places,
      k.places,
      split (to_release chan sems Input),
      total-at (to_release chan sems Input) before pc' after,
    );
    running = elim v.running [
      | inl r ↦ elim k.ends [
        | inl q ↦
            inl (omega (arith, r, q, split still_running, total-at still_running before pc' after))
        | inr d ↦ inr d
      ]
      | inr d ↦ inr (k.stays d)
    ];
  }
    where
      split : (w : Pc Input → ℕ) → total w s.workers ≡ total w before + w pc + total w after
      split w = ap (total w) e ∙ total-at w before pc after

      k : Kept chan sems Input pc s.shared (t, pc')
      k = worker_at-Kept chan sems Input pc s.shared (t, pc') h

  open_input : (s : Sh) → chan.closed s.in_chan ≡ false → ¬ Drained chan sems Input s
  open_input s o d = cc

  Step-Inv : {n : ℕ} {s t : System chan sems Input} → Step chan sems Input s t → Inv n s → Inv n t
  Step-Inv {s = s} (work before after pc {pc'} {t} e h) v = work-Inv s before after pc pc' t e h v
  Step-Inv {s = s} (acquire_input e) v = record {
    amount = v.amount;
    places = omega (arith, v.places, sems.count-acquire s.in_sem e);
    running = v.running;
  }
  Step-Inv {s = s} (send a o h) v = record {
    amount = λ g. omega (arith, v.amount g, total-Perm g (chan.items-post s.in_chan a o));
    places = omega (arith, v.places, length-Perm (chan.items-post s.in_chan a o), h);
    running = elim v.running [ inl r ↦ inl r | inr d ↦ absurd (open_input s.shared o d) ];
  }
  Step-Inv {s = s} close_input v = record {
    amount = λ g. rw (chan.items-close s.in_chan) (v.amount g);
    places = rw (chan.items-close s.in_chan) v.places;
    running = elim v.running [
      | inl r ↦ inl r
      | inr d ↦ inr (chan.items-close s.in_chan ∙ d.0, chan.closed-close s.in_chan)
    ];
  }

  Reach-Inv : {n : ℕ} {s : System chan sems Input} → Reach chan sems Input n s → Inv n s
  unfolding end_pipeline
  Reach-Inv {n} here = record {
    amount = λ g.
        rw (chan.items-make {A = Input})
          (omega (arith, total-replicate_none (held chan sems Input g) n pulling refl));
    places = rw (chan.items-make {A = Input}) (
        omega (
          arith,
          sems.count-release (sems.make 0) (2 * n),
          sems.count-make 0,
          total-replicate_none (to_release chan sems Input) n pulling refl,
        ));
    running = inl (omega (arith, total-replicate_one {A = Pc Input} still_running n pulling refl));
  }
  Reach-Inv (next r st) = Step-Inv st (Reach-Inv r)

  pub none_held :
      (g : Input → ℕ) (ws : List (Pc Input))
      → total still_running ws ≡ 0
      → total (held chan sems Input g) ws ≡ 0
  none_held g [] z = refl
  none_held g (pulling ∷ ws) z = absurd (omega (arith, z))
  none_held g (releasing a ∷ ws) z = absurd (omega (arith, z))
  none_held g (calling a ∷ ws) z = absurd (omega (arith, z))
  none_held g (finished ∷ ws) z = omega (arith, none_held g ws (omega (arith, z)))

  -- When all workers of an end stage, of at least one, have left their loops, the consuming function
  -- has been called on all that was sent, on each as often, and the input was closed; and at any
  -- time the channel holds at most twice as many elements as there are workers.
  pub consumes_sent :
      {n : ℕ} {s : System chan sems Input}
      → Reach chan sems Input n s
      → 0 < n
      → (total still_running s.workers ≡ 0
          → ((g : Input → ℕ) → total g s.consumed ≡ total g s.sent)
            × (chan.closed s.in_chan ≡ true))
        × (length (chan.items s.in_chan) ≤ 2 * n)
  consumes_sent {n} {s} r pos =
      let v = Reach-Inv r in
      (
        λ z.
            let d = emptied z v.running in
            (λ g. omega (arith, v.amount g, none_held g s.workers z, ap (total g) d.0), d.1),
        omega (arith, v.places),
      )
    where
      emptied :
          total still_running s.workers ≡ 0
          → (total still_running s.workers ≡ n) ⊎ Drained chan sems Input s.shared
          → Drained chan sems Input s.shared
      emptied z (inl q) = absurd (omega (arith, z, q, pos))
      emptied z (inr d) = d
