-- ===== src/Pipeline/EndStage.antt =====
-- `pipeline_end_stage` of examples/pipeline.hpp: several workers that consume what they pull from the
-- output channel of the stage before.
pub mod Moves
pub mod Consumption
mod Tests
use mathlib.Core.List.Perm as Perms
use mathlib.Core.Option.{some-injective}
use tmc_examples.Base.{
  total, total-at, ℕ, zero, suc, ◌+◌, ◌-◌, ◌*◌, ◌≤◌, ◌<◌, ◌≡◌, ◌⊎◌, inl, inr, refl, sym, ap, ◌∙◌,
  subst, Bool, true, false, Option, none, some, List, [], ◌∷◌, ◌++◌, map, replicate, sum, Perm,
  sum-Perm, length, length-Perm, arith,
}
use tmc_examples.Pipeline.Channels.{Channel, Taken, item, empty, waiting, Semaphore}
use tmc_examples.Pipeline.Moves.{total-Perm}

-- Where a worker stands: at the pull; before `inSem->release()`; before the call of `func`; past the
-- loop.
pub data Pc (Input : Type 0) : Type 0 where
  pulling : Pc Input
  releasing : Input → Pc Input
  calling : Input → Pc Input
  finished : Pc Input

abbrev pub still_running : {Input : Type 0} → Pc Input → ℕ
still_running pulling = 1
still_running (releasing a) = 1
still_running (calling a) = 1
still_running finished = 0

module _ (chan : Channel) (sems : Semaphore) (Input : Type 0) where
  -- What the workers share, with the elements that `func` was called on.
  pub record Shared : Type 0 where
    pub in_chan : chan.Queue Input
    pub in_sem : sems.State
    pub consumed : List Input

  abbrev pub Place : Type 0
  Place = Shared × Pc Input

  unfoldable pub on_pull : Shared → Taken (chan.Queue Input) Input → Option Place
  on_pull s (item a q) = some (record s { in_chan = q }, releasing a)
  on_pull s empty = some (s, finished)
  on_pull s waiting = none

  -- One step of `worker`; `none` when it is suspended or has returned.
  unfoldable pub worker_at : Pc Input → Shared → Option Place
  unfolding on_pull
  worker_at pulling s = on_pull s (chan.pull s.in_chan)
  worker_at (releasing a) s = some (record s { in_sem = sems.release s.in_sem 1 }, calling a)
  worker_at (calling a) s = some (record s { consumed = a ∷ s.consumed }, pulling)
  worker_at finished s = none

  -- The stage among its producers. `permits` counts what they acquired and have not posted.
  pub record System : Type 0 where
    pub shared : Shared
    pub open shared use *
    pub workers : List (Pc Input)
    pub permits : ℕ
    pub sent : List Input

  -- The constructor, with the output channel and semaphore of a new stage before it.
  pub end_pipeline : (worker_count : ℕ) → System
  end_pipeline worker_count = record {
    shared = record {
      in_chan = chan.make;
      in_sem = sems.release (sems.make 0) (2 * worker_count);
      consumed = [];
    };
    workers = replicate worker_count pulling;
    permits = 0;
    sent = [];
  }

  pub data Step (s : System) : System → Type 0 where
    work :
        (before after : List (Pc Input)) (pc : Pc Input) {pc' : Pc Input} {t : Shared}
        → s.workers ≡ before ++ pc ∷ after
        → worker_at pc s.shared ≡ some (t, pc')
        → Step s (record s { shared = t; workers = before ++ pc' ∷ after })
    acquire_input :
        {m : sems.State}
        → sems.acquire s.in_sem ≡ some m
        → Step s (record s { shared = record s.shared { in_sem = m }; permits = s.permits + 1 })
    send :
        (a : Input)
        → chan.closed s.in_chan ≡ false
        → 0 < s.permits
        → Step s (record s {
          shared = record s.shared { in_chan = chan.post s.in_chan a };
          permits = s.permits - 1;
          sent = a ∷ s.sent;
        })
    close_input : Step s (record s { shared = record s.shared { in_chan = chan.close s.in_chan } })

  pub data Reach (worker_count : ℕ) : System → Type 0 where
    here : Reach worker_count (end_pipeline worker_count)
    next : {s t : System} → Reach worker_count s → Step s t → Reach worker_count t
