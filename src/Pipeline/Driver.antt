-- ===== src/Pipeline/Driver.antt =====
-- `main` of examples/pipeline.cpp: `start_pipeline`, `pipeline_transform` and `end_pipeline` of
-- examples/pipeline.hpp one after the other, where the output channel and semaphore of a stage are
-- the input of the next, with the producer in front. All values, of whatever types, are of one type.
pub mod Invariant
pub mod Moves
pub mod Flow
pub mod Run
pub mod Steps
pub mod Start
pub mod Enabled
pub mod Progress
pub mod Result
pub mod Program
mod Tests
use tmc_examples.Base.{
  ℕ, suc, ◌+◌, ◌*◌, ◌≤◌, ◌<◌, ◌≡◌, Bool, true, false, Option, none, some, List, [], ◌∷◌, ◌++◌,
  replicate, total,
}
use tmc_examples.Pipeline.Channels.{Channel, Semaphore}
use tmc_examples.Pipeline.{Pc, pulling, still_running, Shared, worker_at}
use tmc_examples.Pipeline.EndStage as End

module _ (chan : Channel) (sems : Semaphore) (A : Type 0) where
  -- A channel with the semaphore for the places in it.
  pub record Link : Type 0 where
    pub queue : chan.Queue A
    pub sem : Option sems.State

  -- What a stage has besides its input: `outChan_`, `outSem_` and its workers.
  pub record Node : Type 0 where
    pub out_chan : chan.Queue A
    pub out_sem : sems.State
    pub workers : List (Pc A)

  pub record EndNode : Type 0 where
    pub consumers : List (End.Pc A)
    pub consumed : List A

  -- The function of a stage and its `workerCount`.
  abbrev pub Config : Type 0
  Config = (A → A) × ℕ

  -- The stages of these functions with the end stage behind them.
  abbrev pub Stages : List Config → Type 0
  Stages [] = EndNode
  Stages (c ∷ more) = Node × Stages more

  abbrev pub out_link : Node → Link
  out_link node = record { queue = node.out_chan; sem = some node.out_sem }

  abbrev pub shared : (f : A → A) → Link → Node → Shared chan sems f
  shared f q node = record {
    in_chan = q.queue;
    in_sem = q.sem;
    out_chan = node.out_chan;
    out_sem = node.out_sem;
  }

  abbrev pub end_shared : chan.Queue A → sems.State → EndNode → End.Shared chan sems A
  end_shared queue m e = record { in_chan = queue; in_sem = m; consumed = e.consumed }

  -- One task of the stages behind the link `q` makes a step: a worker, or the task that closes the
  -- output channel of a stage once the group of its workers is done.
  pub data Move : (cs : List Config) → Link → Stages cs → Link → Stages cs → Type 0 where
    consume :
        {q : Link} {e : EndNode} {m : sems.State} {t : End.Shared chan sems A} {pc' : End.Pc A}
        (before after : List (End.Pc A)) (pc : End.Pc A)
        → q.sem ≡ some m
        → e.consumers ≡ before ++ pc ∷ after
        → End.worker_at chan sems A pc (end_shared q.queue m e) ≡ some (t, pc')
        → Move [] q e
            (record { queue = t.in_chan; sem = some t.in_sem })
            (record { consumers = before ++ pc' ∷ after; consumed = t.consumed })
    work :
        {f : A → A} {n : ℕ} {more : List Config} {q : Link} {node : Node} {rest : Stages more}
        {t : Shared chan sems f} {pc' : Pc A} (before after : List (Pc A)) (pc : Pc A)
        → node.workers ≡ before ++ pc ∷ after
        → worker_at chan sems f pc (shared f q node) ≡ some (t, pc')
        → Move
            ((f, n) ∷ more)
            q
            (node, rest)
            (record { queue = t.in_chan; sem = t.in_sem })
            (
              record {
                out_chan = t.out_chan;
                out_sem = t.out_sem;
                workers = before ++ pc' ∷ after;
              },
              rest,
            )
    close_output :
        {f : A → A} {n : ℕ} {more : List Config} {q : Link} {node : Node} {rest : Stages more}
        → total still_running node.workers ≡ 0
        → chan.closed node.out_chan ≡ false
        → Move
            ((f, n) ∷ more)
            q
            (node, rest)
            q
            (record node { out_chan = chan.close node.out_chan }, rest)
    there :
        {f : A → A} {n : ℕ} {more : List Config} {q : Link} {node : Node} {rest rest' : Stages more}
        {queue : chan.Queue A} {m : sems.State}
        → Move more (out_link node) rest (record { queue = queue; sem = some m }) rest'
        → Move
            ((f, n) ∷ more)
            q
            (node, rest)
            q
            (record node { out_chan = queue; out_sem = m }, rest')

  -- `co_await std::move(fg)` waits for the tasks of the stages: for the workers of each, and until its
  -- output channel is closed and drained.
  abbrev pub Joined : (cs : List Config) → Stages cs → Type 0
  Joined [] e = total End.still_running e.consumers ≡ 0
  Joined (c ∷ more) (node, rest) =
      (total still_running node.workers ≡ 0)
      × ((chan.closed node.out_chan ≡ true) × (chan.items node.out_chan ≡ []))
      × Joined more rest

  -- The constructors, from the first stage to the last; each adds its places to the semaphore of the
  -- stage before, which is `m`.
  pub build : (cs : List Config) → (end_count : ℕ) → sems.State → sems.State × Stages cs
  build [] end_count m = (
    sems.release m (2 * end_count),
    record { consumers = replicate end_count End.pulling; consumed = [] },
  )
  build ((f, n) ∷ more) end_count m =
      let made = build more end_count (sems.make 0) in
      (
        sems.release m (2 * n),
        (record { out_chan = chan.make; out_sem = made.0; workers = replicate n pulling }, made.1),
      )

-- Where `main` stands: before `co_await inputSem` for the element `i`; before `in.post(i)`; in
-- `in.drain()`; in `co_await std::move(fg)`; past it.
pub data Main : Type 0 where
  acquiring posting : ℕ → Main
  draining joining returned : Main

-- `elems` is `NELEMS`, and `value i` is the element that `main` posts for `i`.
module _ (chan : Channel) (sems : Semaphore) {A : Type 0} (value : ℕ → A) (elems : ℕ)
    (cs : List (Config chan sems A)) where
  pub record State : Type 0 where
    pub main : Main
    pub input : Link chan sems A
    pub stages : Stages chan sems A cs

  pub data Step : State → State → Type 0 where
    acquire :
        {i : ℕ} {queue : chan.Queue A} {m m' : sems.State} {st : Stages chan sems A cs}
        → i < elems
        → sems.acquire m ≡ some m'
        → Step
            (record {
              main = acquiring i;
              input = record { queue = queue; sem = some m };
              stages = st;
            })
            (record {
              main = posting i;
              input = record { queue = queue; sem = some m' };
              stages = st;
            })
    post :
        {i : ℕ} {q : Link chan sems A} {st : Stages chan sems A cs}
        → Step
            (record { main = posting i; input = q; stages = st })
            (record {
              main = acquiring (suc i);
              input = record q { queue = chan.post q.queue (value i) };
              stages = st;
            })
    drain :
        {i : ℕ} {q : Link chan sems A} {st : Stages chan sems A cs}
        → elems ≤ i
        → Step
            (record { main = acquiring i; input = q; stages = st })
            (record {
              main = draining;
              input = record q { queue = chan.close q.queue };
              stages = st;
            })
    drained :
        {q : Link chan sems A} {st : Stages chan sems A cs}
        → chan.items q.queue ≡ []
        → Step
            (record { main = draining; input = q; stages = st })
            (record { main = joining; input = q; stages = st })
    join :
        {q : Link chan sems A} {st : Stages chan sems A cs}
        → Joined chan sems A cs st
        → Step
            (record { main = joining; input = q; stages = st })
            (record { main = returned; input = q; stages = st })
    move :
        {pc : Main} {q q' : Link chan sems A} {st st' : Stages chan sems A cs}
        → Move chan sems A cs q st q' st'
        → Step
            (record { main = pc; input = q; stages = st })
            (record { main = pc; input = q'; stages = st' })

  -- `make_channel`, `semaphore(0)` and the constructors of the stages.
  pub start : (end_count : ℕ) → State
  start end_count =
      let made = build chan sems A cs end_count (sems.make 0) in
      record {
        main = acquiring 0;
        input = record { queue = chan.make; sem = some made.0 };
        stages = made.1;
      }

  -- The states that `main` gets to, with the number of steps.
  pub data Reach (end_count : ℕ) : ℕ → State → Type 0 where
    here : Reach end_count 0 (start end_count)
    next : {k : ℕ} {s t : State} → Reach end_count k s → Step s t → Reach end_count (suc k) t
