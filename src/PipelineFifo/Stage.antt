-- ===== src/PipelineFifo/Stage.antt =====
-- `pipeline_stage` of examples/pipeline_fifo.hpp: the worker of one stage, the driver that feeds its
-- input queue, and the consumer of its output queue, in any interleaving.
pub mod Invariant
pub mod Effect
pub mod Order
pub mod Progress
pub mod Effort
mod Tests
use tmc_examples.Base.{ℕ, ◌≡◌, Bool, Option, none, some, List, [], ◌∷◌, ◌++◌}
use tmc_examples.Runtime.{Tasks}
use tmc_examples.PipelineFifo.Queue.{BoundedQueue, Pulled, item, empty, waiting}

-- Where a worker stands: at `inQueue->pull()`, at `outQueue->push()` with the input that it holds, or
-- past the loop.
pub data Pc (Input : Type 0) : Type 0 where
  pulling : Pc Input
  pushing : Input → Pc Input
  finished : Pc Input

-- `read` is `co_await std::move(input.value())` where the queue holds task handles, and the plain
-- value where it holds values (`CInput` and `FInput` of the source). `func` is `ProcessFunc`, a
-- function or a coroutine without side effects: either is forked as a task with its result.
module _ (lib : BoundedQueue) (tasks : Tasks) {Stored Input Output : Type 0} (read : Stored → Input)
    (func : Input → Output) where
  pub record Stage : Type 0 where
    pub in_queue : lib.Queue Stored
    pub out_queue : lib.Queue (tasks.Handle Output)
    pub pc : Pc Input

  -- The head of the loop, by what `pull` gives: an input, the empty scope (then the output queue is
  -- closed and the worker returns), or nothing yet.
  on_pull : Stage → Pulled Stored → Option Stage
  on_pull s (item a) = some (record s { pc = pushing (read a) })
  on_pull s empty = some (record s { out_queue = lib.close s.out_queue; pc = finished })
  on_pull s waiting = none

  -- The push of the forked task: it stays suspended, or it is done and the end of the loop's body
  -- destroys the input scope.
  on_push : Stage → Option (lib.Queue (tasks.Handle Output)) → Option Stage
  on_push s none = none
  on_push s (some q) =
      some (record s { in_queue = lib.finish_read s.in_queue; out_queue = q; pc = pulling })

  -- One step of `worker`; `none` when it is suspended or has returned.
  worker_at : Pc Input → Stage → Option Stage
  unfolding on_pull on_push
  worker_at pulling s = on_pull s (lib.pull s.in_queue)
  worker_at (pushing d) s = on_push s (lib.push s.out_queue (tasks.fork (func d)))
  worker_at finished s = none

  unfoldable pub worker : Stage → Option Stage
  unfolding worker_at
  worker s = worker_at s.pc s

  -- The constructor: an output queue of `parallelism` places, and a worker at the head of its loop.
  unfoldable pub make_stage : lib.Queue Stored → ℕ → Stage
  make_stage in_queue parallelism = record {
    in_queue = in_queue;
    out_queue = lib.make parallelism;
    pc = pulling;
  }

  -- The stage, with what was ever pushed to its input queue and what its consumer has received.
  pub record System : Type 0 where
    pub stage : Stage
    pub open stage use *
    pub sent : List Stored
    pub received : List Output

  pub data Step (s : System) : System → Type 0 where
    work : {t : Stage} → worker s.stage ≡ some t → Step s (record s { stage = t })
    send :
        (a : Stored) {q : lib.Queue Stored}
        → (lib.view s.in_queue).closed ≡ Bool.false
        → lib.push s.in_queue a ≡ some q
        → Step s (record s { stage = record s.stage { in_queue = q }; sent = s.sent ++ a ∷ [] })
    close_input : Step s (record s { stage = record s.stage { in_queue = lib.close s.in_queue } })
    take :
        {h : tasks.Handle Output}
        → lib.pull s.out_queue ≡ item h
        → Step s (record s {
          stage = record s.stage { out_queue = lib.finish_read s.out_queue };
          received = s.received ++ tasks.join h ∷ [];
        })

  -- A new stage on a fresh input queue: that of `start_pipeline`, of `parallelism` places too, or
  -- the output queue of the stage before (`pipeline_transform`).
  pub start : (in_size parallelism : ℕ) → System
  start in_size parallelism = record {
    stage = make_stage (lib.make in_size) parallelism;
    sent = [];
    received = [];
  }

  pub data Reach (in_size parallelism : ℕ) : System → Type 0 where
    here : Reach in_size parallelism (start in_size parallelism)
    next : {s t : System} → Reach in_size parallelism s → Step s t → Reach in_size parallelism t
