-- ===== src/Pipeline/Driver/Start.antt =====
-- The start of `main` of `Pipeline.Driver`, and the states that it gets to.
use tmc_examples.Base.{
  total, total-replicate_none, total-replicate_one, ℕ, ◌+◌, ◌-◌, ◌*◌, ◌≡◌, inl, refl, sym, ap, ◌∙◌,
  Bool, true, false, some, List, [], ◌∷◌, replicate, length, arith,
}
use tmc_examples.Pipeline.Channels.{Channel, Semaphore}
use tmc_examples.Pipeline.{Pc, pulling, still_running}
use tmc_examples.Pipeline.Moves as Worker
use tmc_examples.Pipeline.Moves.{to_post}
use tmc_examples.Pipeline.EndStage as End
use tmc_examples.Pipeline.EndStage.Moves as Consumer
use tmc_examples.Pipeline.Driver.{Config, build, State, start, Reach, here, next}
use tmc_examples.Pipeline.Driver.Invariant.{Inv}
use tmc_examples.Pipeline.Driver.Flow.{effort, end_effort, to_close, through, cost, inside, toil}
use tmc_examples.Pipeline.Driver.Run.{rounds, Manned}
use tmc_examples.Pipeline.Driver.Steps.{RunInv, left, Step-left, Step-RunInv}

module _ (chan : Channel) (sems : Semaphore) {A : Type 0} where
  open_at_first : ¬ (chan.closed (chan.make {A = A}) ≡ true)
  open_at_first o = apart (sym chan.closed-make ∙ o)
    where
      apart : ¬ (◌≡◌ {A = Bool} false true)
      apart e = cc

  build-Inv :
      (end_count : ℕ) (cs : List (Config chan sems A)) (taken : ℕ) (m : sems.State)
      → sems.count m ≡ 0
      → taken ≡ 0
      → Inv chan sems A end_count cs taken
          (record { queue = chan.make; sem = some (build chan sems A cs end_count m).0 })
          (build chan sems A cs end_count m).1
  unfolding build
  build-Inv end_count [] taken m z none_taken = record {
    input = omega (
      arith,
      sems.count-release m (2 * end_count),
      z,
      none_taken,
      ap length (chan.items-make {A = A}),
      total-replicate_none (Consumer.to_release chan sems A) end_count End.pulling refl,
    );
    running = inl (total-replicate_one {A = End.Pc A} End.still_running end_count End.pulling refl);
  }
  build-Inv end_count ((f, n) ∷ more) taken m z none_taken = (
    record {
      input = omega (
        arith,
        sems.count-release m (2 * n),
        z,
        none_taken,
        ap length (chan.items-make {A = A}),
        total-replicate_none {A = Pc A} Worker.to_release n pulling refl,
      );
      running = inl (total-replicate_one {A = Pc A} still_running n pulling refl);
      ended = λ o. absurd (open_at_first o);
    },
    build-Inv end_count more (total {A = Pc A} to_post (replicate n pulling)) (sems.make 0)
        (sems.count-make 0) (total-replicate_none {A = Pc A} to_post n pulling refl),
  )

  -- New stages are empty.
  inside-build :
      (g : A → ℕ) (end_count : ℕ) (cs : List (Config chan sems A)) (m : sems.State)
      → inside chan sems A g cs (build chan sems A cs end_count m).1 ≡ 0
  unfolding build
  inside-build g end_count [] m =
      omega (arith, total-replicate_none (Consumer.held chan sems A g) end_count End.pulling refl)
  inside-build g end_count ((f, n) ∷ more) m = omega (
    arith,
    total-replicate_none (Worker.held chan sems f (λ a. g (through chan sems A more a))) n pulling
        refl,
    ap (total (λ a. g (through chan sems A more a))) (chan.items-make {A = A}),
    inside-build g end_count more (sems.make 0),
  )

  -- Each worker leaves its loop, and each output channel is closed.
  abbrev pub endings : ℕ → List (Config chan sems A) → ℕ
  endings end_count [] = end_count
  endings end_count ((f, n) ∷ more) = n + 1 + endings end_count more

  toil-build :
      (end_count : ℕ) (cs : List (Config chan sems A)) (m : sems.State)
      → toil chan sems A cs (build chan sems A cs end_count m).1 ≡ endings end_count cs
  unfolding build
  toil-build end_count [] m =
      total-replicate_one {A = End.Pc A} end_effort end_count End.pulling refl
  toil-build end_count ((f, n) ∷ more) m = omega (
    arith,
    total-replicate_one {A = Pc A} (effort (cost chan sems A more)) n pulling refl,
    ap (total (λ (a : A). cost chan sems A more)) (chan.items-make {A = A}),
    ap to_close (chan.closed-make {A = A}),
    toil-build end_count more (sems.make 0),
  )

module _ (chan : Channel) (sems : Semaphore) {A : Type 0} (value : ℕ → A) (elems : ℕ)
    (cs : List (Config chan sems A)) (end_count : ℕ) where
  start-RunInv :
      RunInv chan sems value elems cs end_count (start chan sems value elems cs end_count)
  unfolding start
  start-RunInv = record {
    stages_inv = build-Inv chan sems end_count cs 0 (sems.make 0) (sems.count-make 0) refl;
    amount = λ g. omega (
      arith,
      ap (total (λ a. g (through chan sems A cs a))) (chan.items-make {A = A}),
      inside-build chan sems g end_count cs (sems.make 0),
    );
    shut = chan.closed-make;
    within = omega arith;
    joined = λ z. cc;
  }

  -- The steps of a whole run.
  abbrev pub all_steps : ℕ
  all_steps = rounds (cost chan sems A cs) elems + 3 + endings chan sems end_count cs

  left-start :
      left chan sems value elems cs end_count (start chan sems value elems cs end_count) ≡ all_steps
  unfolding start
  left-start = omega (
    arith,
    ap (rounds (cost chan sems A cs)) whole,
    ap (total (λ (a : A). cost chan sems A cs)) (chan.items-make {A = A}),
    toil-build chan sems end_count cs (sems.make 0),
  )
    where
      whole : elems - 0 ≡ elems
      whole = omega arith

  pub Reach-RunInv :
      {k : ℕ} {s : State chan sems value elems cs}
      → Manned chan sems end_count cs
      → Reach chan sems value elems cs end_count k s
      → RunInv chan sems value elems cs end_count s
        × (k + left chan sems value elems cs end_count s ≡ all_steps)
  Reach-RunInv pos here = (start-RunInv, omega (arith, left-start))
  Reach-RunInv pos (next r st) =
      let (v, e) = Reach-RunInv pos r in
      (
        Step-RunInv chan sems value elems cs end_count pos st v,
        omega (arith, e, Step-left chan sems value elems cs end_count st v),
      )
