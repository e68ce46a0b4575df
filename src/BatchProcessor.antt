-- ===== src/BatchProcessor.antt =====
-- examples/asio/batch_processor.cpp: `timedBatchProcessor`, which collects what it pulls from a queue
-- and processes a batch when the timer that its first element started has fired.
mod Invariant
pub mod Batches
mod Tests
use tmc_examples.Base.{
  ◌≡◌, refl, sym, Bool, true, false, Option, none, some, List, [], ◌∷◌, ◌++◌, if◌then◌else◌,
}
use mathlib.Core.Option.{some-injective}

-- Which slots of the mux have an operation in flight, or done and not delivered.
pub record Active : Type 0 where
  pub pull : Bool
  pub timer : Bool

-- `tmc::mux_tuple` with a slot for the pull and one for the timer, as a parameter: `fork` starts a
-- slot's operation, and awaiting the mux delivers one that is done, whose slot is then inactive.
pub record Mux : Type 1 where
  pub State : Type 0
  pub make : State
  pub fork_pull : State → State
  pub fork_timer : State → State
  pub deliver_pull : State → Option State
  pub deliver_timer : State → Option State
  pub active : State → Active
  pub active-make : active make ≡ record { pull = false; timer = false }
  pub active-fork_pull :
      (s : State) → active (fork_pull s) ≡ record { pull = true; timer = (active s).timer }
  pub active-fork_timer :
      (s : State) → active (fork_timer s) ≡ record { pull = (active s).pull; timer = true }
  pub deliver_pull_some :
      (s : State) {t : State}
      → deliver_pull s ≡ some t
      → ((active s).pull ≡ true) × (active t ≡ record { pull = false; timer = (active s).timer })
  pub deliver_timer_some :
      (s : State) {t : State}
      → deliver_timer s ≡ some t
      → ((active s).timer ≡ true) × (active t ≡ record { pull = (active s).pull; timer = false })

abbrev pub take_pull : Active → Option Active
take_pull s = if s.pull then some (record s { pull = false }) else none

abbrev pub take_timer : Active → Option Active
take_timer s = if s.timer then some (record s { timer = false }) else none

pub take_pull_lem :
    (p q : Bool) {t : Active}
    → take_pull (record { pull = p; timer = q }) ≡ some t
    → (p ≡ true) × (t ≡ record { pull = false; timer = q })
take_pull_lem true q h = (refl, sym (some-injective _ _ h))
take_pull_lem false q h = cc

pub take_timer_lem :
    (p q : Bool) {t : Active}
    → take_timer (record { pull = p; timer = q }) ≡ some t
    → (q ≡ true) × (t ≡ record { pull = p; timer = false })
take_timer_lem p true h = (refl, sym (some-injective _ _ h))
take_timer_lem p false h = cc

-- A mux whose operations are done at once.
abbrev pub ready_mux : Mux
ready_mux = record {
  State = Active;
  make = record { pull = false; timer = false };
  fork_pull = λ s. record s { pull = true };
  fork_timer = λ s. record s { timer = true };
  deliver_pull = take_pull;
  deliver_timer = take_timer;
  active = λ s. s;
  active-make = refl;
  active-fork_pull = λ s. refl;
  active-fork_timer = λ s. refl;
  deliver_pull_some = λ s h. take_pull_lem s.pull s.timer h;
  deliver_timer_some = λ s h. take_timer_lem s.pull s.timer h;
}

-- `if (!mux.is_active<1>())` the timer is (re)started.
start_timer : (lib : Mux) → lib.State → lib.State
start_timer lib m = if (lib.active m).timer then m else lib.fork_timer m

module _ (lib : Mux) (Data : Type 0) where
  -- The frame of the coroutine; `processed` collects what `process` was called on.
  pub record Processor : Type 0 where
    pub mux : lib.State
    pub batch : List Data
    pub cancelled : Bool
    pub processed : List (List Data)
    pub returned : Bool

  -- `case 0`, with what the pull gave: an element, or the end of a closed queue.
  pub on_pulled : Option Data → Processor → Processor
  unfolding start_timer
  on_pulled (some a) s = record s {
    batch = s.batch ++ a ∷ [];
    mux = start_timer lib (lib.fork_pull s.mux);
  }
  on_pulled none s = record s { cancelled = true }

  -- `case 1`
  pub on_timer : Processor → Processor
  on_timer s = record s { processed = s.processed ++ s.batch ∷ []; batch = [] }

  pub make_processor : Processor
  make_processor = record {
    mux = lib.fork_pull lib.make;
    batch = [];
    cancelled = false;
    processed = [];
    returned = false;
  }

  -- `received` is what the pulls gave; `ended` says whether they gave the end.
  pub record System : Type 0 where
    pub processor : Processor
    pub open processor use *
    pub received : List Data
    pub ended : Bool

  pub data Step (s : System) : System → Type 0 where
    pulled :
        (a : Data) {m : lib.State}
        → lib.deliver_pull s.mux ≡ some m
        → Step s (record s {
          processor = on_pulled (some a) (record s.processor { mux = m });
          received = s.received ++ a ∷ [];
        })
    pulled_end :
        {m : lib.State}
        → lib.deliver_pull s.mux ≡ some m
        → Step s
            (record s { processor = on_pulled none (record s.processor { mux = m }); ended = true })
    fired :
        {m : lib.State}
        → lib.deliver_timer s.mux ≡ some m
        → Step s (record s { processor = on_timer (record s.processor { mux = m }) })
    -- `idx == mux.end()`
    finish :
        lib.active s.mux ≡ record { pull = false; timer = false }
        → Step s (record s { processor = record s.processor { returned = true } })

  pub start : System
  start = record { processor = make_processor; received = []; ended = false }

  pub data Reach : System → Type 0 where
    here : Reach start
    next : {s t : System} → Reach s → Step s t → Reach t
