-- ===== src/Pipeline/Driver/Enabled.antt =====
-- The steps that the workers of `Pipeline.Driver` can make, by the places where they stand.
use tmc_examples.Base.{
  total, ℕ, ◌+◌, ◌<◌, ◌≡◌, ◌≢◌, refl, ap, false, Option, none, some, List, [], ◌∷◌, ◌++◌, arith,
}
use tmc_examples.Pipeline.Channels.{Channel, Taken, item, empty, waiting, Semaphore}
use tmc_examples.Pipeline.{
  Pc, pulling, releasing, gating, computing, finished, still_running, worker_at, on_pull,
  on_acquire,
}
use tmc_examples.Pipeline.Moves as Worker
use tmc_examples.Pipeline.Moves.{Level, to_post}
use tmc_examples.Pipeline.EndStage as End
use tmc_examples.Pipeline.EndStage.Moves as Consumer
use tmc_examples.Pipeline.Driver.{
  Link, Node, EndNode, Config, Stages, shared, end_shared, Move, consume, work, Joined,
}
use tmc_examples.Pipeline.Driver.Invariant.{Drained}

abbrev pub to_pull : {A : Type 0} → Pc A → ℕ
to_pull pulling = 1
to_pull pc = 0

abbrev pub to_acquire : {A : Type 0} → Pc A → ℕ
to_acquire (gating a) = 1
to_acquire pc = 0

-- A worker in its loop is at one of four places.
pub running_parts :
    {A : Type 0} (ws : List (Pc A))
    → total still_running ws
      ≡ total to_pull ws + total Worker.to_release ws + total to_acquire ws + total to_post ws
running_parts [] = refl
running_parts (pulling ∷ ws) = omega (arith, running_parts ws)
running_parts (releasing a ∷ ws) = omega (arith, running_parts ws)
running_parts (gating a ∷ ws) = omega (arith, running_parts ws)
running_parts (computing a ∷ ws) = omega (arith, running_parts ws)
running_parts (finished ∷ ws) = omega (arith, running_parts ws)

module _ (chan : Channel) (sems : Semaphore) (A : Type 0) where
  -- Workers of the first stage that have pulled and not released.
  abbrev pub first_to_release : (cs : List (Config chan sems A)) → Stages chan sems A cs → ℕ
  first_to_release [] e = total (Consumer.to_release chan sems A) e.consumers
  first_to_release (c ∷ more) (node, rest) = total Worker.to_release node.workers

  -- What stages come to next: a step, a wait at an empty input, or the end.
  pub data Outlook
      : (cs : List (Config chan sems A)) → Link chan sems A → Stages chan sems A cs → Type 0 where
    goes :
        {cs : List (Config chan sems A)} {q : Link chan sems A} {st : Stages chan sems A cs}
        (q' : Link chan sems A) (st' : Stages chan sems A cs)
        → Move chan sems A cs q st q' st'
        → Outlook cs q st
    waits :
        {cs : List (Config chan sems A)} {q : Link chan sems A} {st : Stages chan sems A cs}
        → chan.items q.queue ≡ []
        → chan.closed q.queue ≡ false
        → first_to_release cs st ≡ 0
        → Outlook cs q st
    ends :
        {cs : List (Config chan sems A)} {q : Link chan sems A} {st : Stages chan sems A cs}
        → Drained chan sems A q
        → Joined chan sems A cs st
        → Outlook cs q st

  module _ {f : A → A} {n : ℕ} {more : List (Config chan sems A)} {q : Link chan sems A}
      {node : Node chan sems A} {rest : Stages chan sems A more} where
    pub release_step :
        (front back : List (Pc A)) (pc : Pc A)
        → 0 < Worker.to_release pc
        → node.workers ≡ front ++ pc ∷ back
        → Outlook ((f, n) ∷ more) q (node, rest)
    unfolding worker_at
    release_step front back pulling c e = absurd (omega (arith, c))
    release_step front back (releasing a) c e = goes _ _ (work front back (releasing a) e refl)
    release_step front back (gating a) c e = absurd (omega (arith, c))
    release_step front back (computing a) c e = absurd (omega (arith, c))
    release_step front back finished c e = absurd (omega (arith, c))

    pub post_step :
        (front back : List (Pc A)) (pc : Pc A)
        → 0 < to_post pc
        → node.workers ≡ front ++ pc ∷ back
        → Outlook ((f, n) ∷ more) q (node, rest)
    unfolding worker_at
    post_step front back pulling c e = absurd (omega (arith, c))
    post_step front back (releasing a) c e = absurd (omega (arith, c))
    post_step front back (gating a) c e = absurd (omega (arith, c))
    post_step front back (computing a) c e = goes _ _ (work front back (computing a) e refl)
    post_step front back finished c e = absurd (omega (arith, c))

    pub acquire_step :
        (front back : List (Pc A)) (pc : Pc A) (r : Option sems.State)
        → sems.acquire node.out_sem ≡ r
        → r ≢ none
        → 0 < to_acquire pc
        → node.workers ≡ front ++ pc ∷ back
        → Outlook ((f, n) ∷ more) q (node, rest)
    unfolding worker_at on_acquire
    acquire_step front back pc none g some_left c e = absurd (some_left refl)
    acquire_step front back pulling (some m) g some_left c e = absurd (omega (arith, c))
    acquire_step front back (releasing a) (some m) g some_left c e = absurd (omega (arith, c))
    acquire_step front back (gating a) (some m) g some_left c e = goes _ _ (
        work front back (gating a) e
          (ap (on_acquire chan sems f (shared chan sems A f q node) a) g))
    acquire_step front back (computing a) (some m) g some_left c e = absurd (omega (arith, c))
    acquire_step front back finished (some m) g some_left c e = absurd (omega (arith, c))

    pub pull_step :
        (front back : List (Pc A)) (pc : Pc A) (r : Taken (chan.Queue A) A)
        → chan.pull q.queue ≡ r
        → total Worker.to_release node.workers ≡ 0
        → 0 < to_pull pc
        → node.workers ≡ front ++ pc ∷ back
        → Outlook ((f, n) ∷ more) q (node, rest)
    unfolding worker_at on_pull
    pull_step front back pulling (item a queue) g z c e =
        goes _ _
          (work front back pulling e (ap (on_pull chan sems f (shared chan sems A f q node)) g))
    pull_step front back pulling empty g z c e =
        goes _ _
          (work front back pulling e (ap (on_pull chan sems f (shared chan sems A f q node)) g))
    pull_step front back pulling waiting g z c e =
        waits (chan.pull_waiting q.queue g).0 (chan.pull_waiting q.queue g).1 z
    pull_step front back (releasing a) r g z c e = absurd (omega (arith, c))
    pull_step front back (gating a) r g z c e = absurd (omega (arith, c))
    pull_step front back (computing a) r g z c e = absurd (omega (arith, c))
    pull_step front back finished r g z c e = absurd (omega (arith, c))

  -- The same for the end stage.
  module _ {q : Link chan sems A} {m : sems.State} {e : EndNode chan sems A} where
    pub end_release_step :
        (front back : List (End.Pc A)) (pc : End.Pc A)
        → q.sem ≡ some m
        → 0 < Consumer.to_release chan sems A pc
        → e.consumers ≡ front ++ pc ∷ back
        → Outlook [] q e
    unfolding End.worker_at
    end_release_step front back End.pulling i c h = absurd (omega (arith, c))
    end_release_step front back (End.releasing a) i c h =
        goes _ _ (consume front back (End.releasing a) i h refl)
    end_release_step front back (End.calling a) i c h = absurd (omega (arith, c))
    end_release_step front back End.finished i c h = absurd (omega (arith, c))

    pub end_step :
        (front back : List (End.Pc A)) (pc : End.Pc A) (r : Taken (chan.Queue A) A)
        → chan.pull q.queue ≡ r
        → q.sem ≡ some m
        → total (Consumer.to_release chan sems A) e.consumers ≡ 0
        → 0 < End.still_running pc
        → e.consumers ≡ front ++ pc ∷ back
        → Outlook [] q e
    unfolding End.worker_at End.on_pull
    end_step front back End.pulling (item a queue) g i z c h = goes _ _ (
        consume front back End.pulling i h
          (ap (End.on_pull chan sems A (end_shared chan sems A q.queue m e)) g))
    end_step front back End.pulling empty g i z c h = goes _ _ (
        consume front back End.pulling i h
          (ap (End.on_pull chan sems A (end_shared chan sems A q.queue m e)) g))
    end_step front back End.pulling waiting g i z c h =
        waits (chan.pull_waiting q.queue g).0 (chan.pull_waiting q.queue g).1 z
    end_step front back (End.releasing a) r g i z c h =
        goes _ _ (consume front back (End.releasing a) i h refl)
    end_step front back (End.calling a) r g i z c h =
        goes _ _ (consume front back (End.calling a) i h refl)
    end_step front back End.finished r g i z c h = absurd (omega (arith, c))
