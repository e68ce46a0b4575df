-- ===== src/Pipeline/Driver/Steps.antt =====
-- The invariant of the states of `Pipeline.Driver`, and the steps that a run has left: what each step
-- of `main` and of the stages keeps.
use tmc_examples.Base.{
  total, ℕ, suc, ◌+◌, ◌-◌, ◌≤◌, ◌<◌, ◌≡◌, sym, ap, ◌∙◌, Bool, true, false, List, length,
  length-Perm, arith,
}
use tmc_examples.Pipeline.Channels.{Channel, Semaphore}
use tmc_examples.Pipeline.Moves.{total-Perm}
use tmc_examples.Pipeline.Driver.{
  Config, Joined, returned, State, Step, acquire, post, drain, drained, join, move,
}
use tmc_examples.Pipeline.Driver.Invariant.{Inv, along_eq}
use tmc_examples.Pipeline.Driver.Moves.{closed-Move, Move-Inv, relink}
use tmc_examples.Pipeline.Driver.Flow.{through, cost, flow, steps_left, flow-Move, steps_left-Move}
use tmc_examples.Pipeline.Driver.Run.{
  before, rounds, permits, input_closed, posted, ahead, main_left, toil-Joined, Manned,
  Drained-Joined,
}

module _ (chan : Channel) (sems : Semaphore) {A : Type 0} (value : ℕ → A) (elems : ℕ)
    (cs : List (Config chan sems A)) (end_count : ℕ) where
  pub record RunInv (s : State chan sems value elems cs) : Type 0 where
    pub stages_inv : Inv chan sems A end_count cs (permits s.main) s.input s.stages
    pub amount :
        (g : A → ℕ)
        → flow chan sems A g cs s.input s.stages
          ≡ total (λ a. g (through chan sems A cs a)) (before value (posted elems s.main))
    pub shut : chan.closed s.input.queue ≡ input_closed s.main
    pub within : ahead elems s.main ≤ elems
    pub joined : s.main ≡ returned → Joined chan sems A cs s.stages

  -- The steps that a run has left.
  abbrev pub left : State chan sems value elems cs → ℕ
  left s = main_left elems (cost chan sems A cs) s.main + steps_left chan sems A cs s.input s.stages

  one_round : (c i : ℕ) → i < elems → rounds c (elems - i) ≡ c + 2 + rounds c (elems - suc i)
  one_round c i h = let e : elems - i ≡ suc (elems - suc i) = omega arith in ap (rounds c) e

  pub Step-left :
      {s t : State chan sems value elems cs}
      → Step chan sems value elems cs s t
      → RunInv s
      → left t + 1 ≡ left s
  Step-left (acquire {i} h e) v = omega (arith, one_round (cost chan sems A cs) i h)
  Step-left (post {i} {q}) v = omega (
    arith,
    total-Perm (λ (a : A). cost chan sems A cs) (chan.items-post q.queue (value i) v.shut),
  )
  Step-left (drain {i} {q} h) v =
      let e : elems - i ≡ 0 = omega arith in
      omega (
        arith,
        ap (rounds (cost chan sems A cs)) e,
        ap (total (λ (a : A). cost chan sems A cs)) (chan.items-close q.queue),
      )
  Step-left (drained e) v = omega arith
  Step-left (join j) v = omega arith
  Step-left (move m) v = omega (arith, steps_left-Move chan sems A end_count _ m v.stages_inv)

  apart : ¬ (◌≡◌ {A = Bool} false true)
  apart e = cc

  all_posted : (i : ℕ) → elems ≤ i → i ≤ elems → i ≡ elems
  all_posted i h k = omega (arith, h, k)

  -- Nothing moves after `main`.
  still :
      {s t : State chan sems value elems cs}
      → Manned chan sems end_count cs
      → RunInv s
      → s.main ≡ returned
      → ¬ Step chan sems value elems cs s t
  still {s} {t} pos v e st =
      let j = v.joined e in
      let d = Drained-Joined chan sems end_count cs _ s.input s.stages pos v.stages_inv j in
      omega (
        arith,
        Step-left st v,
        toil-Joined chan sems cs s.stages j,
        ap (total (λ (a : A). cost chan sems A cs)) d.0,
        ap (main_left elems (cost chan sems A cs)) e,
      )

  pub Step-RunInv :
      {s t : State chan sems value elems cs}
      → Manned chan sems end_count cs
      → Step chan sems value elems cs s t
      → RunInv s
      → RunInv t
  Step-RunInv pos (acquire {i} {queue} {m} {m'} {st} h e) v = record {
    stages_inv =
        relink chan sems A end_count cs _ _ _ _ st
          (λ used c l. omega (arith, l, sems.count-acquire m e)) (λ d. d) v.stages_inv;
    amount = v.amount;
    shut = v.shut;
    within = omega (arith, h);
    joined = λ z. cc;
  }
  Step-RunInv pos (post {i} {q} {st}) v = record {
    stages_inv =
        relink chan sems A end_count cs _ _ q _ st
          (λ used c l.
            along_eq chan sems A end_count q.sem c
              (omega (arith, length-Perm (chan.items-post q.queue (value i) v.shut))) l)
          (λ d. absurd (apart (sym v.shut ∙ d.1))) v.stages_inv;
    amount = λ g. omega (
      arith,
      v.amount g,
      total-Perm (λ a. g (through chan sems A cs a)) (chan.items-post q.queue (value i) v.shut),
    );
    shut = chan.closed-post q.queue (value i) ∙ v.shut;
    within = v.within;
    joined = λ z. cc;
  }
  Step-RunInv pos (drain {i} {q} {st} h) v = record {
    stages_inv =
        relink chan sems A end_count cs _ _ q _ st
          (λ used c l.
            along_eq chan sems A end_count q.sem c
              (omega (arith, ap length (chan.items-close q.queue))) l)
          (λ d. (chan.items-close _ ∙ d.0, chan.closed-close _)) v.stages_inv;
    amount = λ g. omega (
      arith,
      v.amount g,
      ap (total (λ a. g (through chan sems A cs a))) (chan.items-close q.queue),
      ap (λ k. total (λ a. g (through chan sems A cs a)) (before value k))
          (all_posted i h v.within),
    );
    shut = chan.closed-close q.queue;
    within = omega arith;
    joined = λ z. cc;
  }
  Step-RunInv pos (drained e) v = record {
    stages_inv = v.stages_inv;
    amount = v.amount;
    shut = v.shut;
    within = v.within;
    joined = λ z. cc;
  }
  Step-RunInv pos (join j) v = record {
    stages_inv = v.stages_inv;
    amount = v.amount;
    shut = v.shut;
    within = v.within;
    joined = λ z. j;
  }
  Step-RunInv pos (move m) v = record {
    stages_inv = Move-Inv chan sems A end_count _ m v.stages_inv;
    amount = λ g. flow-Move chan sems A end_count g _ m v.stages_inv ∙ v.amount g;
    shut = closed-Move chan sems A end_count _ m v.stages_inv ∙ v.shut;
    within = v.within;
    joined = λ z. absurd (still pos v z (move m));
  }
