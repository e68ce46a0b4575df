-- ===== src/Pipeline.antt =====
-- `pipeline_stage` of examples/pipeline.hpp: several workers between two channels, with a semaphore
-- for the places in each. Its terminal stage is EndStage.
pub mod Channels
mod Moves
mod Invariant
pub mod Conservation
pub mod EndStage
pub mod Driver
mod Tests
use tmc_examples.Base.{
  ℕ, ◌+◌, ◌-◌, ◌*◌, ◌<◌, ◌≡◌, Bool, true, false, Option, none, some, List, [], ◌∷◌, ◌++◌, map,
  replicate, sum,
}
use tmc_examples.Pipeline.Channels.{Channel, Taken, item, empty, waiting, Semaphore}

-- Where a worker stands: at the pull; before `inSem->release()`; at `co_await *outSem`; before
-- `outChan.post(func(…))`; past the loop.
pub data Pc (Input : Type 0) : Type 0 where
  pulling : Pc Input
  releasing : Input → Pc Input
  gating : Input → Pc Input
  computing : Input → Pc Input
  finished : Pc Input

-- Whether a worker is in its loop, as a number.
abbrev pub still_running : {Input : Type 0} → Pc Input → ℕ
still_running pulling = 1
still_running (releasing a) = 1
still_running (gating a) = 1
still_running (computing a) = 1
still_running finished = 0

-- `func` is `ProcessFunc`, a function or a coroutine, by its result.
module _ (chan : Channel) (sems : Semaphore) {Input Output : Type 0} (func : Input → Output) where
  -- What the workers share. The constructor passes the address of its own `outSem_`, which is not
  -- null; `inSem` may be (`none`).
  pub record Shared : Type 0 where
    pub in_chan : chan.Queue Input
    pub in_sem : Option sems.State
    pub out_chan : chan.Queue Output
    pub out_sem : sems.State

  abbrev pub Place : Type 0
  Place = Shared × Pc Input

  on_pull : Shared → Taken (chan.Queue Input) Input → Option Place
  on_pull s (item a q) = some (record s { in_chan = q }, releasing a)
  on_pull s empty = some (s, finished)
  on_pull s waiting = none

  on_acquire : Shared → Input → Option sems.State → Option Place
  on_acquire s a none = none
  on_acquire s a (some m) = some (record s { out_sem = m }, computing a)

  -- `if (inSem != nullptr) inSem->release();`
  pub release_one : Option sems.State → Option sems.State
  release_one none = none
  release_one (some m) = some (sems.release m 1)

  -- One step of `worker`; `none` when it is suspended or has returned.
  pub worker_at : Pc Input → Shared → Option Place
  unfolding on_pull on_acquire release_one
  worker_at pulling s = on_pull s (chan.pull s.in_chan)
  worker_at (releasing a) s = some (record s { in_sem = release_one s.in_sem }, gating a)
  worker_at (gating a) s = on_acquire s a (sems.acquire s.out_sem)
  worker_at (computing a) s = some (record s { out_chan = chan.post s.out_chan (func a) }, pulling)
  worker_at finished s = none

  -- `inSem->release(2 * workerCount)`
  release_capacity : ℕ → Option sems.State → Option sems.State
  release_capacity worker_count none = none
  release_capacity worker_count (some m) = some (sems.release m (2 * worker_count))

  -- The constructor: an open output channel, an output semaphore of 0, and the workers.
  pub make_stage : chan.Queue Input → Option sems.State → ℕ → Shared × List (Pc Input)
  unfolding release_capacity
  make_stage in_chan in_sem worker_count = (
    record {
      in_chan = in_chan;
      in_sem = release_capacity worker_count in_sem;
      out_chan = chan.make;
      out_sem = sems.make 0;
    },
    replicate worker_count pulling,
  )

  -- The stage among its neighbours. `permits` counts what the producers acquired from the input
  -- semaphore and have not posted, `unreleased` what the consumers pulled and have not released.
  pub record System : Type 0 where
    pub shared : Shared
    pub open shared use *
    pub workers : List (Pc Input)
    pub permits : ℕ
    pub unreleased : ℕ
    pub sent : List Input
    pub received : List Output

  pub data Step (s : System) : System → Type 0 where
    work :
        (before after : List (Pc Input)) (pc : Pc Input) {pc' : Pc Input} {t : Shared}
        → s.workers ≡ before ++ pc ∷ after
        → worker_at pc s.shared ≡ some (t, pc')
        → Step s (record s { shared = t; workers = before ++ pc' ∷ after })
    -- `co_await Chan.drain()` once the group of the workers is done closes the channel.
    close_output :
        sum (map still_running s.workers) ≡ 0
        → Step s (record s { shared = record s.shared { out_chan = chan.close s.out_chan } })
    acquire_input :
        {m m' : sems.State}
        → s.in_sem ≡ some m
        → sems.acquire m ≡ some m'
        → Step s
            (record s { shared = record s.shared { in_sem = some m' }; permits = s.permits + 1 })
    send :
        (a : Input)
        → chan.closed s.in_chan ≡ false
        → 0 < s.permits
        → Step s (record s {
          shared = record s.shared { in_chan = chan.post s.in_chan a };
          permits = s.permits - 1;
          sent = a ∷ s.sent;
        })
    send_freely :
        (a : Input)
        → chan.closed s.in_chan ≡ false
        → s.in_sem ≡ none
        → Step s (record s {
          shared = record s.shared { in_chan = chan.post s.in_chan a };
          sent = a ∷ s.sent;
        })
    close_input : Step s (record s { shared = record s.shared { in_chan = chan.close s.in_chan } })
    take :
        {b : Output} {q : chan.Queue Output}
        → chan.pull s.out_chan ≡ item b q
        → Step s (record s {
          shared = record s.shared { out_chan = q };
          unreleased = s.unreleased + 1;
          received = b ∷ s.received;
        })
    release_output :
        0 < s.unreleased
        → Step s (record s {
          shared = record s.shared { out_sem = sems.release s.out_sem 1 };
          unreleased = s.unreleased - 1;
        })

  -- A new stage whose successor has `next_count` workers: the successor's constructor has released
  -- twice as many permits of the output semaphore.
  pub start : Option sems.State → (worker_count next_count : ℕ) → System
  unfolding make_stage
  start in_sem worker_count next_count =
      let made = make_stage chan.make in_sem worker_count in
      record {
        shared = record made.0 { out_sem = sems.release made.0.out_sem (2 * next_count) };
        workers = made.1;
        permits = 0;
        unreleased = 0;
        sent = [];
        received = [];
      }

  pub data Reach (in_sem : Option sems.State) (worker_count next_count : ℕ) : System → Type 0 where
    here : Reach in_sem worker_count next_count (start in_sem worker_count next_count)
    next :
        {s t : System}
        → Reach in_sem worker_count next_count s
        → Step s t
        → Reach in_sem worker_count next_count t
