-- ===== src/Pipeline/Driver/Progress.antt =====
-- No state of `Pipeline.Driver` is a deadlock: the stages of a run can go on, wait for input, or are
-- over.
use tmc_examples.Base.{
  one_of, total, ℕ, ◌+◌, ◌<◌, ◌≡◌, inl, inr, refl, ap, subst, Option, none, some, List, [], ◌∷◌,
  length, arith,
}
use mathlib.Core.Option.{some-injective}
use tmc_examples.Pipeline.Channels.{Channel, Semaphore}
use tmc_examples.Pipeline.Moves as Worker
use tmc_examples.Pipeline.Moves.{Level, to_post}
use tmc_examples.Pipeline.EndStage as End
use tmc_examples.Pipeline.EndStage.Moves as Consumer
use tmc_examples.Pipeline.Driver.{Link, Node, Config, Stages, out_link, Move, close_output, there}
use tmc_examples.Pipeline.Driver.Invariant.{Inv}
use tmc_examples.Pipeline.Driver.Moves.{Move-Inv}
use tmc_examples.Pipeline.Driver.Run.{Manned, Drained-Joined}
use tmc_examples.Pipeline.Driver.Enabled.{
  to_pull, to_acquire, running_parts, first_to_release, Outlook, goes, waits, ends, release_step,
  post_step, acquire_step, pull_step, end_release_step, end_step,
}

module _ (chan : Channel) (sems : Semaphore) (A : Type 0) where
  -- Where permits are granted there is a semaphore.
  pub semaphore_of :
      (o : Option sems.State) (used most : ℕ)
      → Level sems o used most
      → 0 < most
      → (m : sems.State) × (o ≡ some m)
  semaphore_of none used most l pos = absurd (omega (arith, l, pos))
  semaphore_of (some m) used most l pos = (m, refl)

  granted_of :
      (o : Option sems.State) {m : sems.State} (used most : ℕ)
      → o ≡ some m
      → Level sems o used most
      → sems.count m + used ≡ most
  granted_of none used most e l = cc
  granted_of (some k) used most e l = omega (arith, ap sems.count (some-injective _ _ e), l)

  module _ (end_count : ℕ) where
    -- Behind an empty input with no permit in use, the semaphore has places.
    pub places_left :
        (cs : List (Config chan sems A)) (taken : ℕ) (q : Link chan sems A)
        (st : Stages chan sems A cs) {m : sems.State}
        → q.sem ≡ some m
        → Manned chan sems end_count cs
        → Inv chan sems A end_count cs taken q st
        → chan.items q.queue ≡ []
        → first_to_release chan sems A cs st ≡ 0
        → taken ≡ 0
        → 0 < sems.count m
    places_left [] taken q st g pos v e z u =
        omega (arith, granted_of q.sem _ _ g v.input, ap length e, z, u, pos)
    places_left ((f, n) ∷ more) taken q st g pos v e z u =
        omega (arith, granted_of q.sem _ _ g v.0.input, ap length e, z, u, pos.0)

    pub sem_of :
        (cs : List (Config chan sems A)) (taken : ℕ) (q : Link chan sems A)
        (st : Stages chan sems A cs)
        → Manned chan sems end_count cs
        → Inv chan sems A end_count cs taken q st
        → (m : sems.State) × (q.sem ≡ some m)
    sem_of [] taken q st pos v = semaphore_of q.sem _ _ v.input (omega (arith, pos))
    sem_of ((f, n) ∷ more) taken q st pos v =
        semaphore_of q.sem _ _ v.0.input (omega (arith, pos.0))

    -- A step of the stages behind an output is one of the stages with it.
    step_there :
        {f : A → A} {n : ℕ} {more : List (Config chan sems A)} {q : Link chan sems A}
        {node : Node chan sems A} {rest rest' : Stages chan sems A more} (q' : Link chan sems A)
        (m : sems.State)
        → q'.sem ≡ some m
        → Move chan sems A more (out_link chan sems A node) rest q' rest'
        → Outlook chan sems A ((f, n) ∷ more) q (node, rest)
    step_there {more = more} {node = node} {rest} {rest'} q' m g s = goes _ _ (
        there {queue = q'.queue} {m = m} (
          subst
            (λ o.
              Move chan sems A more (out_link chan sems A node) rest
                (record { queue = q'.queue; sem = o }) rest')
            g s))

    pub outlook :
        (cs : List (Config chan sems A)) (taken : ℕ) (q : Link chan sems A)
        (st : Stages chan sems A cs)
        → Manned chan sems end_count cs
        → Inv chan sems A end_count cs taken q st
        → Outlook chan sems A cs q st
    outlook [] taken q e pos v =
        let (m, g) = sem_of [] taken q e pos v in
        elim (one_of (Consumer.to_release chan sems A) e.consumers) [
          | inr p ↦ end_release_step chan sems A p.front p.back p.one g p.counts p.split
          | inl z ↦ elim (one_of End.still_running e.consumers) [
            | inr p ↦
                end_step chan sems A p.front p.back p.one (chan.pull q.queue) refl g z p.counts
                  p.split
            | inl none_run ↦ elim v.running [
              | inl r ↦ absurd (omega (arith, r, none_run, pos))
              | inr d ↦ ends d none_run
            ]
          ]
        ]
    outlook ((f, n) ∷ more) taken q (node, rest) pos v =
        at_node
          (outlook more (total to_post node.workers) (out_link chan sems A node) rest pos.1 v.1)
      where
        Out : Type 0
        Out = Outlook chan sems A ((f, n) ∷ more) q (node, rest)

        at_node : Outlook chan sems A more (out_link chan sems A node) rest → Out
        at_node (goes q' rest' s) =
            let (m, g) = sem_of more _ q' rest' pos.1 (Move-Inv chan sems A end_count _ s v.1) in
            step_there q' m g s
        at_node (ends d j) =
            let stopped = v.0.ended d.1 in
            ends
              (Drained-Joined chan sems end_count ((f, n) ∷ more) taken q (node, rest) pos v
                (stopped, (d.1, d.0), j))
              (stopped, (d.1, d.0), j)
        at_node (waits e o z) = elim (one_of Worker.to_release node.workers) [
          | inr p ↦ release_step chan sems A p.front p.back p.one p.counts p.split
          | inl no_release ↦ elim (one_of to_post node.workers) [
            | inr p ↦ post_step chan sems A p.front p.back p.one p.counts p.split
            | inl no_post ↦ elim (one_of to_acquire node.workers) [
              | inr p ↦
                  acquire_step chan sems A p.front p.back p.one (sems.acquire node.out_sem) refl
                    (λ no_place. omega (
                      arith,
                      sems.acquire_none node.out_sem no_place,
                      places_left more _ (out_link chan sems A node) rest refl pos.1 v.1 e z
                          no_post,
                    ))
                    p.counts p.split
              | inl no_acquire ↦ elim (one_of to_pull node.workers) [
                | inr p ↦
                    pull_step chan sems A p.front p.back p.one (chan.pull q.queue) refl no_release
                      p.counts p.split
                | inl no_pull ↦ goes _ _ (
                    close_output
                      (omega (
                        arith,
                        running_parts node.workers,
                        no_release,
                        no_post,
                        no_acquire,
                        no_pull,
                      ))
                      o)
              ]
            ]
          ]
        ]
