-- ===== src/Pipeline/EndStage/Moves.antt =====
-- What one step of a worker of `Pipeline.EndStage` keeps: amounts of elements, and permits.
use mathlib.Core.Option.{some-injective}
use tmc_examples.Base.{
  total, ℕ, ◌+◌, ◌≡◌, ◌⊎◌, inl, inr, refl, ap, subst, true, some, [], length, length-Perm, arith,
}
use tmc_examples.Pipeline.Channels.{Channel, Taken, item, empty, waiting, Semaphore}
use tmc_examples.Pipeline.Moves.{total-Perm}
use tmc_examples.Pipeline.EndStage.{
  Pc, pulling, releasing, calling, finished, still_running, Shared, Place, on_pull, worker_at,
}

module _ (chan : Channel) (sems : Semaphore) (Input : Type 0) where
  abbrev Sh : Type 0
  Sh = Shared chan sems Input

  abbrev Pl : Type 0
  Pl = Place chan sems Input

  abbrev pub held : (Input → ℕ) → Pc Input → ℕ
  held g pulling = 0
  held g (releasing a) = g a
  held g (calling a) = g a
  held g finished = 0

  abbrev pub to_release : Pc Input → ℕ
  to_release pulling = 0
  to_release (releasing a) = 1
  to_release (calling a) = 0
  to_release finished = 0

  abbrev pub Drained : Shared chan sems Input → Type 0
  Drained s = (chan.items s.in_chan ≡ []) × (chan.closed s.in_chan ≡ true)

  -- What a step of a worker keeps.
  pub record Kept (pc : Pc Input) (s : Shared chan sems Input) (p : Place chan sems Input)
      : Type 0 where
    pub amount :
        (g : Input → ℕ)
        → total g p.0.consumed + held g p.1 + total g (chan.items p.0.in_chan)
          ≡ total g s.consumed + held g pc + total g (chan.items s.in_chan)
    pub places :
        sems.count p.0.in_sem + length (chan.items p.0.in_chan) + to_release p.1
        ≡ sems.count s.in_sem + length (chan.items s.in_chan) + to_release pc
    pub ends : (still_running p.1 ≡ still_running pc) ⊎ Drained p.0
    pub stays : Drained s → Drained p.0
    pub shut : chan.closed p.0.in_chan ≡ chan.closed s.in_chan

  pulled-Kept :
      (s : Sh) (r : Taken (chan.Queue Input) Input) (p : Pl)
      → chan.pull s.in_chan ≡ r
      → on_pull chan sems Input s r ≡ some p
      → Kept pulling s p
  unfolding on_pull
  pulled-Kept s (item a q) p e h = subst (Kept pulling s) (some-injective _ _ h) (record {
    amount = λ g. omega (arith, total-Perm g (chan.items-pull s.in_chan e));
    places = omega (arith, length-Perm (chan.items-pull s.in_chan e));
    ends = inl refl;
    stays = λ d. absurd (omega (arith, length-Perm (chan.items-pull s.in_chan e), ap length d.0));
    shut = chan.closed-pull s.in_chan e;
  })
  pulled-Kept s empty p e h = subst (Kept pulling s) (some-injective _ _ h) (record {
    amount = λ g. refl;
    places = refl;
    ends = inr (chan.pull_empty s.in_chan e);
    stays = λ d. d;
    shut = refl;
  })
  pulled-Kept s waiting p e h = cc

  pub worker_at-Kept :
      (pc : Pc Input) (s : Shared chan sems Input) (p : Place chan sems Input)
      → worker_at chan sems Input pc s ≡ some p
      → Kept pc s p
  unfolding worker_at
  worker_at-Kept pulling s p h = pulled-Kept s (chan.pull s.in_chan) p refl h
  worker_at-Kept (releasing a) s p h = subst (Kept (releasing a) s) (some-injective _ _ h) (record {
    amount = λ g. refl;
    places = omega (arith, sems.count-release s.in_sem 1);
    ends = inl refl;
    stays = λ d. d;
    shut = refl;
  })
  worker_at-Kept (calling a) s p h = subst (Kept (calling a) s) (some-injective _ _ h) (record {
    amount = λ g. omega arith;
    places = refl;
    ends = inl refl;
    stays = λ d. d;
    shut = refl;
  })
  worker_at-Kept finished s p h = cc
