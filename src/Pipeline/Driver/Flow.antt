-- ===== src/Pipeline/Driver/Flow.antt =====
-- The elements on their way through the stages of `Pipeline.Driver`, and the steps that they take: what
-- each step of the stages keeps, and uses up.
use tmc_examples.Base.{
  total, total-at, ℕ, ◌+◌, ◌≡◌, refl, ap, subst, Bool, true, false, Option, none, some, List, [],
  ◌∷◌, arith,
}
use mathlib.Core.Option.{some-injective}
use tmc_examples.Pipeline.Channels.{Channel, Taken, item, empty, waiting, Semaphore}
use tmc_examples.Pipeline.{
  Pc, pulling, releasing, gating, computing, finished, Shared, worker_at, on_pull, on_acquire,
}
use tmc_examples.Pipeline.Moves as Worker
use tmc_examples.Pipeline.Moves.{total-Perm}
use tmc_examples.Pipeline.EndStage as End
use tmc_examples.Pipeline.EndStage.Moves as Consumer
use tmc_examples.Pipeline.Driver.{Link, Config, Stages, Move, consume, work, close_output, there}
use tmc_examples.Pipeline.Driver.Invariant.{Inv}
use tmc_examples.Pipeline.Driver.Moves.{open_at_work, work-Kept, closed-Move}

-- The steps that a worker has left, if an element of its output takes `c` more.
abbrev pub effort : {A : Type 0} → ℕ → Pc A → ℕ
effort c pulling = 1
effort c (releasing a) = c + 4
effort c (gating a) = c + 3
effort c (computing a) = c + 2
effort c finished = 0

abbrev pub end_effort : {A : Type 0} → End.Pc A → ℕ
end_effort End.pulling = 1
end_effort (End.releasing a) = 3
end_effort (End.calling a) = 2
end_effort End.finished = 0

-- A channel is closed once.
abbrev pub to_close : Bool → ℕ
to_close true = 0
to_close false = 1

module _ (chan : Channel) (sems : Semaphore) (A : Type 0) where
  -- The functions of the stages one after the other.
  abbrev pub through : List (Config chan sems A) → A → A
  through [] a = a
  through ((f, n) ∷ more) a = through more (f a)

  -- The steps that the stages make for an element: four in each, three in the last.
  abbrev pub cost : List (Config chan sems A) → ℕ
  cost [] = 3
  cost (c ∷ more) = cost more + 4

  -- The results of the elements that are in the stages, or consumed, weighed.
  abbrev pub inside : (g : A → ℕ) → (cs : List (Config chan sems A)) → Stages chan sems A cs → ℕ
  inside g [] e = total g e.consumed + total (Consumer.held chan sems A g) e.consumers
  inside g ((f, n) ∷ more) (node, rest) =
      total (Worker.held chan sems f (λ a. g (through more a))) node.workers
      + total (λ a. g (through more a)) (chan.items node.out_chan)
      + inside g more rest

  abbrev pub flow :
      (g : A → ℕ) → (cs : List (Config chan sems A)) → Link chan sems A → Stages chan sems A cs → ℕ
  flow g cs q st = total (λ a. g (through cs a)) (chan.items q.queue) + inside g cs st

  -- The steps that the stages have left.
  abbrev pub toil : (cs : List (Config chan sems A)) → Stages chan sems A cs → ℕ
  toil [] e = total end_effort e.consumers
  toil (c ∷ more) (node, rest) =
      total (effort (cost more)) node.workers
      + total (λ (a : A). cost more) (chan.items node.out_chan)
      + to_close (chan.closed node.out_chan)
      + toil more rest

  abbrev pub steps_left :
      (cs : List (Config chan sems A)) → Link chan sems A → Stages chan sems A cs → ℕ
  steps_left cs q st = total (λ (a : A). cost cs) (chan.items q.queue) + toil cs st

  -- A step of a worker takes one off its effort and that of the elements around it.
  abbrev Spent : (f : A → A) → ℕ → Pc A → Shared chan sems f → Shared chan sems f × Pc A → Type 0
  Spent f c pc s p =
      total (λ (a : A). c) (chan.items p.0.out_chan)
        + effort c p.1
        + total (λ (a : A). c + 4) (chan.items p.0.in_chan)
        + 1
      ≡ total (λ (a : A). c) (chan.items s.out_chan)
        + effort c pc
        + total (λ (a : A). c + 4) (chan.items s.in_chan)

  pulled-Spent :
      (f : A → A) (c : ℕ) (s : Shared chan sems f) (r : Taken (chan.Queue A) A)
      (p : Shared chan sems f × Pc A)
      → chan.pull s.in_chan ≡ r
      → on_pull chan sems f s r ≡ some p
      → Spent f c pulling s p
  unfolding on_pull
  pulled-Spent f c s (item a q) p e h =
      subst (Spent f c pulling s) (some-injective _ _ h)
        (omega (arith, total-Perm (λ (b : A). c + 4) (chan.items-pull s.in_chan e)))
  pulled-Spent f c s empty p e h = subst (Spent f c pulling s) (some-injective _ _ h) (omega arith)
  pulled-Spent f c s waiting p e h = cc

  acquired-Spent :
      (f : A → A) (c : ℕ) (s : Shared chan sems f) (a : A) (r : Option sems.State)
      (p : Shared chan sems f × Pc A)
      → on_acquire chan sems f s a r ≡ some p
      → Spent f c (gating a) s p
  unfolding on_acquire
  acquired-Spent f c s a none p h = cc
  acquired-Spent f c s a (some m) p h =
      subst (Spent f c (gating a) s) (some-injective _ _ h) (omega arith)

  worker_at-Spent :
      (f : A → A) (c : ℕ) (pc : Pc A) (s : Shared chan sems f) (p : Shared chan sems f × Pc A)
      → chan.closed s.out_chan ≡ false
      → worker_at chan sems f pc s ≡ some p
      → Spent f c pc s p
  unfolding worker_at
  worker_at-Spent f c pulling s p o h = pulled-Spent f c s (chan.pull s.in_chan) p refl h
  worker_at-Spent f c (releasing a) s p o h =
      subst (Spent f c (releasing a) s) (some-injective _ _ h) (omega arith)
  worker_at-Spent f c (gating a) s p o h = acquired-Spent f c s a (sems.acquire s.out_sem) p h
  worker_at-Spent f c (computing a) s p o h =
      subst (Spent f c (computing a) s) (some-injective _ _ h)
        (omega (arith, total-Perm (λ (b : A). c) (chan.items-post s.out_chan (f a) o)))
  worker_at-Spent f c finished s p o h = cc

  abbrev EndSpent : End.Pc A → End.Shared chan sems A → End.Shared chan sems A × End.Pc A → Type 0
  EndSpent pc s p =
      end_effort p.1 + total (λ (a : A). 3) (chan.items p.0.in_chan) + 1
      ≡ end_effort pc + total (λ (a : A). 3) (chan.items s.in_chan)

  pulled-EndSpent :
      (s : End.Shared chan sems A) (r : Taken (chan.Queue A) A)
      (p : End.Shared chan sems A × End.Pc A)
      → chan.pull s.in_chan ≡ r
      → End.on_pull chan sems A s r ≡ some p
      → EndSpent End.pulling s p
  unfolding End.on_pull
  pulled-EndSpent s (item a q) p e h =
      subst (EndSpent End.pulling s) (some-injective _ _ h)
        (omega (arith, total-Perm (λ (b : A). 3) (chan.items-pull s.in_chan e)))
  pulled-EndSpent s empty p e h =
      subst (EndSpent End.pulling s) (some-injective _ _ h) (omega arith)
  pulled-EndSpent s waiting p e h = cc

  worker_at-EndSpent :
      (pc : End.Pc A) (s : End.Shared chan sems A) (p : End.Shared chan sems A × End.Pc A)
      → End.worker_at chan sems A pc s ≡ some p
      → EndSpent pc s p
  unfolding End.worker_at
  worker_at-EndSpent End.pulling s p h = pulled-EndSpent s (chan.pull s.in_chan) p refl h
  worker_at-EndSpent (End.releasing a) s p h =
      subst (EndSpent (End.releasing a) s) (some-injective _ _ h) (omega arith)
  worker_at-EndSpent (End.calling a) s p h =
      subst (EndSpent (End.calling a) s) (some-injective _ _ h) (omega arith)
  worker_at-EndSpent End.finished s p h = cc

  module _ (end_count : ℕ) where
    -- The elements inside change places only.
    pub flow-Move :
        {cs : List (Config chan sems A)} {q q' : Link chan sems A} {st st' : Stages chan sems A cs}
        (g : A → ℕ) (taken : ℕ)
        → Move chan sems A cs q st q' st'
        → Inv chan sems A end_count cs taken q st
        → flow g cs q' st' ≡ flow g cs q st
    flow-Move g taken (consume {pc' = pc'} before after pc i e h) v = omega (
      arith,
      (Consumer.worker_at-Kept chan sems A pc _ _ h).amount g,
      ap (total (Consumer.held chan sems A g)) e,
      total-at (Consumer.held chan sems A g) before pc after,
      total-at (Consumer.held chan sems A g) before pc' after,
    )
    flow-Move g taken (work {f} {n} {more} {pc' = pc'} before after pc e h) v =
        let k = work-Kept chan sems A end_count before after pc e h v.0 in
        let held = Worker.held chan sems f (λ a. g (through more a)) in
        omega (
          arith,
          k.amount (λ a. g (through more a)),
          ap (total held) e,
          total-at held before pc after,
          total-at held before pc' after,
        )
    flow-Move g taken (close_output {more = more} z o) v =
        omega (arith, ap (total (λ a. g (through more a))) (chan.items-close _))
    flow-Move g taken (there s) v = omega (arith, flow-Move g _ s v.1)

    -- Each step of the stages is one of those that they have left.
    pub steps_left-Move :
        {cs : List (Config chan sems A)} {q q' : Link chan sems A} {st st' : Stages chan sems A cs}
        (taken : ℕ)
        → Move chan sems A cs q st q' st'
        → Inv chan sems A end_count cs taken q st
        → steps_left cs q' st' + 1 ≡ steps_left cs q st
    steps_left-Move taken (consume {pc' = pc'} before after pc i e h) v = omega (
      arith,
      worker_at-EndSpent pc _ _ h,
      ap (total end_effort) e,
      total-at end_effort before pc after,
      total-at end_effort before pc' after,
    )
    steps_left-Move taken (work {f} {n} {more} {pc' = pc'} before after pc e h) v =
        let k = work-Kept chan sems A end_count before after pc e h v.0 in
        let c = cost more in
        omega (
          arith,
          worker_at-Spent f c pc _ _ (open_at_work chan sems A end_count before after pc e h v.0) h,
          ap to_close k.shut,
          ap (total (effort c)) e,
          total-at (effort c) before pc after,
          total-at (effort c) before pc' after,
        )
    steps_left-Move taken (close_output {more = more} z o) v = omega (
      arith,
      ap (total (λ (a : A). cost more)) (chan.items-close _),
      ap to_close o,
      ap to_close (chan.closed-close _),
    )
    steps_left-Move taken (there s) v =
        omega
          (arith, steps_left-Move _ s v.1, ap to_close (closed-Move chan sems A end_count _ s v.1))
