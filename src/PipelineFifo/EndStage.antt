-- ===== src/PipelineFifo/EndStage.antt =====
-- `pipeline_end_stage` of examples/pipeline_fifo.hpp: the terminal consumer, which runs up to
-- `parallelism` consume tasks at once and awaits them in order through a queue of its own.
pub mod Invariant
mod Moves
mod Steps
pub mod Result
mod Tests
use tmc_examples.Base.{
  ℕ, ◌+◌, ◌-◌, ◌≡◌, Bool, true, false, Option, none, some, List, [], ◌∷◌, ◌++◌, leb, ltb, ◌==◌,
  if◌then◌else◌,
}
use tmc_examples.Runtime.{Tasks}
use tmc_examples.PipelineFifo.Queue.{BoundedQueue, Pulled, item, empty, waiting}

-- Where the worker stands: at `inQueue->pull()`, at `internalQueue->push()` with its input, behind
-- `++active`, in the loop that drains what is left, or past it.
pub data Pc (Input : Type 0) : Type 0 where
  pulling : Pc Input
  pushing : Input → Pc Input
  testing : Pc Input
  draining : Pc Input
  finished : Pc Input

-- What a step does: it goes on, it stays suspended on one of the queues, it uses the value of an
-- empty scope, which is undefined in the source, or there is no step, as the worker has returned.
pub data Outcome (S : Type 0) : Type 0 where
  moved : S → Outcome S
  suspended fault returned : Outcome S

-- `consume` is `ProcessFunc`; the value that a consume task returns (none, in the source) stands for
-- its effect. `read` is as in `Stage`.
module _ (lib : BoundedQueue) (tasks : Tasks) {Stored Input Effect : Type 0} (read : Stored → Input)
    (consume : Input → Effect) (parallelism : ℕ) where
  -- `awaited` collects, for the statements only, the effects of the tasks that have been awaited.
  pub record EndStage : Type 0 where
    pub in_queue : lib.Queue Stored
    pub internal_queue : lib.Queue (tasks.Handle Effect)
    pub active : ℕ
    pub pc : Pc Input
    pub awaited : List Effect

  -- `while (auto input = co_await inQueue->pull())`
  pub on_pull : EndStage → Pulled Stored → Outcome EndStage
  on_pull s (item a) = moved (record s { pc = pushing (read a) })
  on_pull s empty = moved (record s { pc = draining })
  on_pull s waiting = suspended

  -- The push of the forked task, then `++active`.
  pub on_push : EndStage → Option (lib.Queue (tasks.Handle Effect)) → Outcome EndStage
  on_push s none = suspended
  on_push s (some q) = moved (record s { internal_queue = q; active = s.active + 1; pc = testing })

  -- `co_await std::move(handle.value()); --active;` and the end of the scope `handle`.
  pub await_handle : EndStage → tasks.Handle Effect → EndStage
  await_handle s h = record s {
    internal_queue = lib.finish_read s.internal_queue;
    active = s.active - 1;
    awaited = s.awaited ++ tasks.join h ∷ [];
  }

  -- The end of the loop's body destroys the scope of the input.
  pub end_body : EndStage → EndStage
  end_body s = record s { in_queue = lib.finish_read s.in_queue; pc = pulling }

  pub on_handle : EndStage → Pulled (tasks.Handle Effect) → Outcome EndStage
  unfolding await_handle
  on_handle s (item h) = moved (await_handle s h)
  on_handle s empty = fault
  on_handle s waiting = suspended

  abbrev and_then : Outcome EndStage → (EndStage → EndStage) → Outcome EndStage
  and_then (moved s) f = moved (f s)
  and_then suspended f = suspended
  and_then fault f = fault
  and_then returned f = returned

  pub worker_at : Pc Input → EndStage → Outcome EndStage
  unfolding on_pull on_push on_handle end_body
  worker_at pulling s = on_pull s (lib.pull s.in_queue)
  worker_at (pushing d) s = on_push s (lib.push s.internal_queue (tasks.fork (consume d)))
  worker_at testing s =
      if leb parallelism s.active
      then and_then (on_handle s (lib.pull s.internal_queue)) end_body
      else moved (end_body s)
  worker_at draining s =
      if ltb 0 s.active
      then on_handle s (lib.pull s.internal_queue)
      else moved (record s { pc = finished })
  worker_at finished s = returned

  pub worker : EndStage → Outcome EndStage
  unfolding worker_at
  worker s = worker_at s.pc s

  -- `worker` from its first line: an internal queue of `parallelism` places, and `active = 0`.
  pub make_worker : lib.Queue Stored → EndStage
  make_worker in_queue = record {
    in_queue = in_queue;
    internal_queue = lib.make parallelism;
    active = 0;
    pc = pulling;
    awaited = [];
  }

  -- `inline_worker`, which the constructor takes where `parallelism == 1`: it runs each consume to
  -- its end before the next pull. It has no internal queue.
  on_pull_inline : EndStage → Pulled Stored → Outcome EndStage
  on_pull_inline s (item a) = moved (record s {
    in_queue = lib.finish_read s.in_queue;
    pc = pulling;
    awaited = s.awaited ++ consume (read a) ∷ [];
  })
  on_pull_inline s empty = moved (record s { pc = finished })
  on_pull_inline s waiting = suspended

  inline_at : Pc Input → EndStage → Outcome EndStage
  unfolding on_pull_inline
  inline_at pulling s = on_pull_inline s (lib.pull s.in_queue)
  inline_at pc s = returned

  pub inline_worker : EndStage → Outcome EndStage
  unfolding inline_at
  inline_worker s = inline_at s.pc s

  -- The constructor's choice.
  pub step : EndStage → Outcome EndStage
  unfolding worker inline_worker
  step s = if parallelism == 1 then inline_worker s else worker s

  -- The stage with its upstream producer; `sent` is what was ever pushed to the input queue.
  pub record System : Type 0 where
    pub stage : EndStage
    pub open stage use *
    pub sent : List Stored

  pub data Step (s : System) : System → Type 0 where
    work : {t : EndStage} → step s.stage ≡ moved t → Step s (record s { stage = t })
    send :
        (a : Stored) {q : lib.Queue Stored}
        → (lib.view s.in_queue).closed ≡ false
        → lib.push s.in_queue a ≡ some q
        → Step s (record s { stage = record s.stage { in_queue = q }; sent = s.sent ++ a ∷ [] })
    close_input : Step s (record s { stage = record s.stage { in_queue = lib.close s.in_queue } })

  pub start : ℕ → System
  start in_size = record { stage = make_worker (lib.make in_size); sent = [] }

  pub data Reach (in_size : ℕ) : System → Type 0 where
    here : Reach in_size (start in_size)
    next : {s t : System} → Reach in_size s → Step s t → Reach in_size t
