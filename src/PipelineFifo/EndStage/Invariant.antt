-- ===== src/PipelineFifo/EndStage/Invariant.antt =====
-- What holds of the terminal stage between any two steps.
use tmc_examples.Base.{ℕ, ◌≤◌, ◌<◌, ◌≡◌, ◌≢◌, true, false, List, [], ◌∷◌, ◌++◌, map, length}
use tmc_examples.Runtime.{Tasks}
use tmc_examples.PipelineFifo.Queue.{BoundedQueue, View, rest}
use tmc_examples.PipelineFifo.EndStage.{
  Pc, pulling, pushing, testing, draining, finished, Outcome, moved, suspended, returned, EndStage,
  System,
}

module _ (lib : BoundedQueue) (tasks : Tasks) {Stored Input Effect : Type 0} (read : Stored → Input)
    (consume : Input → Effect) (parallelism : ℕ) where
  abbrev pub process : Stored → Effect
  process a = consume (read a)

  -- The inputs whose task has not been forked yet.
  abbrev pub to_fork : Pc Input → List Stored → List Stored
  to_fork testing ins = rest ins
  to_fork _ ins = ins

  -- How many tasks are in flight, by the worker's place.
  abbrev pub Room : Pc Input → ℕ → Type 0
  Room pulling active = active < parallelism
  Room (pushing d) active = (active < parallelism) × (parallelism ≢ 1)
  Room testing active = (active ≤ parallelism) × (parallelism ≢ 1)
  Room draining active = (active ≤ parallelism) × (parallelism ≢ 1)
  Room finished active = active ≡ 0

  -- What the place says of the input queue.
  abbrev pub Holds : Pc Input → View Stored → Type 0
  Holds pulling v = Unit {0}
  Holds (pushing d) v = (a : Stored) × (v.items ≡ a ∷ rest v.items) × (read a ≡ d)
  Holds testing v = (a : Stored) × (v.items ≡ a ∷ rest v.items)
  Holds draining v = (v.items ≡ []) × (v.closed ≡ true)
  Holds finished v = (v.items ≡ []) × (v.closed ≡ true)

  pub record InvAt (pc : Pc Input) (s : System lib tasks read consume parallelism) : Type 0 where
    pub order :
        s.awaited
          ++ (map tasks.join (lib.view s.internal_queue).items
              ++ map process (to_fork pc (lib.view s.in_queue).items))
        ≡ map process s.sent
    pub count : s.active ≡ length (lib.view s.internal_queue).items
    pub cap : (lib.view s.internal_queue).capacity ≡ parallelism
    pub opened : (lib.view s.internal_queue).closed ≡ false
    pub room : Room pc s.active
    pub holds : Holds pc (lib.view s.in_queue)

  abbrev pub Inv : System lib tasks read consume parallelism → Type 0
  Inv s = InvAt s.pc s

  -- The worker waits for its upstream only, and never uses an empty scope.
  abbrev pub Good :
      Pc Input → List Stored → Outcome (EndStage lib tasks read consume parallelism) → Type 0
  Good pc sent (moved t) = Inv (record { stage = t; sent = sent })
  Good pulling sent suspended = Unit {0}
  Good finished sent returned = Unit {0}
  Good _ sent _ = ⊥
