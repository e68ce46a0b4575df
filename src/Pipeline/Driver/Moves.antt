-- ===== src/Pipeline/Driver/Moves.antt =====
-- Each step of the stages of `Pipeline.Driver` keeps their invariant.
use tmc_examples.Base.{
  total, total-at, ℕ, ◌+◌, ◌≡◌, inl, inr, refl, sym, ap, ◌∙◌, Bool, true, false, some, List, [],
  ◌∷◌, ◌++◌, length, arith, Bool-cases,
}
use tmc_examples.Pipeline.Channels.{Channel, Semaphore}
use tmc_examples.Pipeline.{Pc, Shared, still_running, worker_at}
use tmc_examples.Pipeline.Moves as Worker
use tmc_examples.Pipeline.Moves.{Level, to_post}
use tmc_examples.Pipeline.EndStage.Moves as Consumer
use tmc_examples.Pipeline.Driver.{
  Link, Node, Config, Stages, shared, Move, consume, work, close_output, there,
}
use tmc_examples.Pipeline.Driver.Invariant.{Drained, NodeInv, Inv, work-NodeInv, consume-EndInv}

module _ (chan : Channel) (sems : Semaphore) (A : Type 0) where
  module _ (end_count : ℕ) where
    apart : ¬ (◌≡◌ {A = Bool} false true)
    apart e = cc

    open_while :
        {n taken : ℕ} {q : Link chan sems A} {node : Node chan sems A} (before after : List (Pc A))
        (pc : Pc A)
        → node.workers ≡ before ++ pc ∷ after
        → NodeInv chan sems A n taken q node
        → still_running pc ≡ 1
        → chan.closed node.out_chan ≡ false
    open_while {node = node} before after pc e v one =
        elim (Bool-cases (chan.closed node.out_chan)) [
          | inl z ↦ absurd (
              omega (
                arith,
                v.ended z,
                one,
                ap (total still_running) e,
                total-at still_running before pc after,
              ))
          | inr z ↦ z
        ]

    -- The output of a worker that makes a step is open.
    pub open_at_work :
        {n taken : ℕ} {f : A → A} {q : Link chan sems A} {node : Node chan sems A}
        {t : Shared chan sems f} {pc' : Pc A} (before after : List (Pc A)) (pc : Pc A)
        → node.workers ≡ before ++ pc ∷ after
        → worker_at chan sems f pc (shared chan sems A f q node) ≡ some (t, pc')
        → NodeInv chan sems A n taken q node
        → chan.closed node.out_chan ≡ false
    open_at_work {f = f} before after pc e h v =
        open_while before after pc e v (Worker.running_of_step chan sems f pc _ h)

    -- What the step of a worker in its place keeps, given the invariant of its stage.
    pub work-Kept :
        {n taken : ℕ} {f : A → A} {q : Link chan sems A} {node : Node chan sems A}
        {t : Shared chan sems f} {pc' : Pc A} (before after : List (Pc A)) (pc : Pc A)
        → node.workers ≡ before ++ pc ∷ after
        → worker_at chan sems f pc (shared chan sems A f q node) ≡ some (t, pc')
        → NodeInv chan sems A n taken q node
        → Worker.Kept chan sems f pc (shared chan sems A f q node) (t, pc')
    work-Kept {f = f} {q} {node} before after pc e h v =
        Worker.worker_at-Kept chan sems f pc (shared chan sems A f q node) _
          (open_while before after pc e v) h

    -- The stages behind a link that its producers have changed.
    pub relink :
        (cs : List (Config chan sems A)) (taken taken' : ℕ) (q q' : Link chan sems A)
        (st : Stages chan sems A cs)
        → ((used capacity : ℕ)
            → Level sems q.sem (length (chan.items q.queue) + used + taken) capacity
            → Level sems q'.sem (length (chan.items q'.queue) + used + taken') capacity)
        → (Drained chan sems A q → Drained chan sems A q')
        → Inv chan sems A end_count cs taken q st
        → Inv chan sems A end_count cs taken' q' st
    relink [] taken taken' q q' st level stays v = record {
      input = level _ _ v.input;
      running = elim v.running [ inl r ↦ inl r | inr d ↦ inr (stays d) ];
    }
    relink ((f, n) ∷ more) taken taken' q q' st level stays v = (
      record {
        input = level _ _ v.0.input;
        running = elim v.0.running [ inl r ↦ inl r | inr d ↦ inr (stays d) ];
        ended = v.0.ended;
      },
      v.1,
    )

    -- No step of the stages closes the channel that they take from.
    pub closed-Move :
        {cs : List (Config chan sems A)} {q q' : Link chan sems A} {st st' : Stages chan sems A cs}
        (taken : ℕ)
        → Move chan sems A cs q st q' st'
        → Inv chan sems A end_count cs taken q st
        → chan.closed q'.queue ≡ chan.closed q.queue
    closed-Move taken (consume before after pc g e h) v =
        (Consumer.worker_at-Kept chan sems A pc _ _ h).shut
    closed-Move taken (work before after pc e h) v = (work-Kept before after pc e h v.0).in_shut
    closed-Move taken (close_output z o) v = refl
    closed-Move taken (there s) v = refl

    pub Move-Inv :
        {cs : List (Config chan sems A)} {q q' : Link chan sems A} {st st' : Stages chan sems A cs}
        (taken : ℕ)
        → Move chan sems A cs q st q' st'
        → Inv chan sems A end_count cs taken q st
        → Inv chan sems A end_count cs taken q' st'
    Move-Inv taken (consume before after pc g e h) v =
        consume-EndInv chan sems A end_count _ _ _ before after pc _ _ g e
          (Consumer.worker_at-Kept chan sems A pc _ _ h) v
    Move-Inv taken (work before after pc e h) v =
        let k = work-Kept before after pc e h v.0 in
        (
          work-NodeInv chan sems A end_count _ _ before after pc _ _ e k v.0,
          relink _ _ _ _ _ _
              (λ used c l. omega (
                arith,
                l,
                k.places,
                ap (total to_post) e,
                total-at to_post before pc after,
                total-at to_post before _ after,
              ))
              (λ d. absurd (apart (sym (open_at_work before after pc e h v.0) ∙ d.1))) v.1,
        )
    Move-Inv taken (close_output z o) v = (
      record { input = v.0.input; running = v.0.running; ended = λ w. z },
      relink _ _ _ _ _ _ (λ used c l. omega (arith, l, ap length (chan.items-close _)))
          (λ d. (chan.items-close _ ∙ d.0, chan.closed-close _)) v.1,
    )
    Move-Inv taken (there {node = node} s) v = (
      record {
        input = v.0.input;
        running = v.0.running;
        ended = λ z. v.0.ended (sym (closed-Move _ s v.1) ∙ z);
      },
      Move-Inv (total to_post node.workers) s v.1,
    )
