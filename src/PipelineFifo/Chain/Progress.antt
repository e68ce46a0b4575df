-- ===== src/PipelineFifo/Chain/Progress.antt =====
-- A chain with a closed input comes to its end: some worker or the consumer can make a step until all
-- that was sent is received.
use tmc_examples.Base.{
  ◌<◌, ◌≡◌, refl, sym, ap, ◌∙◌, arith, inl, inr, Bool, true, false, List, [], ◌∷◌, length,
}
use tmc_examples.Runtime.{Tasks}
use tmc_examples.PipelineFifo.Queue.{
  BoundedQueue, View, Pulled, item, empty, waiting, pull_empty, pull_waiting,
}
use tmc_examples.PipelineFifo.Stage.Effect.{Effect, kept, closing, passing, worker-Effect}
use tmc_examples.PipelineFifo.Stage.Effort.{Held, hungry, full, over, works_or_Held}
use tmc_examples.PipelineFifo.Chain.{
  Results, Node, join, as_stage, Move, here, there, Take, last, beyond, last_queue,
}
use tmc_examples.PipelineFifo.Chain.Flow.{Reading, same, popped, Statuses}
use tmc_examples.PipelineFifo.Chain.Moves.{move_lem, take_lem}
use tmc_examples.PipelineFifo.Chain.Result.{drained}

module _ (lib : BoundedQueue) (tasks : Tasks) (A : Type 0) where
  -- Each output queue has room for a result.
  abbrev pub Roomy : List (Node lib tasks A) → Type 0
  Roomy [] = Unit
  Roomy (node ∷ nodes) = (0 < (lib.view node.out_queue).capacity) × Roomy nodes

  pub capacity_of_Effect :
      {S : Type 0} {read : S → A} {f : A → A} {vi vi' : View S} {vo vo' : View (tasks.Handle A)}
      → Effect lib tasks read f vi vi' vo vo'
      → vo'.capacity ≡ vo.capacity
  capacity_of_Effect (kept e g) = ap (λ v. v.capacity) g
  capacity_of_Effect (closing e g) = ap (λ v. v.capacity) g
  capacity_of_Effect (passing a held e o g) = ap (λ v. v.capacity) g

  pub capacity_of_Reading : {v v' : View (tasks.Handle A)} → Reading v v' → v'.capacity ≡ v.capacity
  capacity_of_Reading (same e) = ap (λ v. v.capacity) e
  capacity_of_Reading (popped e) = ap (λ v. v.capacity) e

  pub Roomy-Move :
      {q q' : Results lib tasks A} {nodes nodes' : List (Node lib tasks A)}
      → Move lib tasks A q nodes q' nodes'
      → Statuses lib tasks A (lib.view q) nodes
      → Roomy nodes
      → Roomy nodes'
  Roomy-Move {q} (here {node = node} h) (st, more) (room, rooms) =
      let effect =
        (worker-Effect lib tasks (join lib tasks A) node.func (as_stage lib tasks A q node) st
          h).0 in
      (omega (arith, room, capacity_of_Effect effect), rooms)
  Roomy-Move (there m) (st, more) (room, rooms) = (
    omega (arith, room, capacity_of_Reading (move_lem lib tasks A m more).0.reading),
    Roomy-Move m more rooms,
  )

  pub Roomy-Take :
      {h : tasks.Handle A} {q q' : Results lib tasks A} {nodes nodes' : List (Node lib tasks A)}
      → Take lib tasks A h q nodes q' nodes'
      → Statuses lib tasks A (lib.view q) nodes
      → Roomy nodes
      → Roomy nodes'
  Roomy-Take (last e) st rooms = rooms
  Roomy-Take (beyond m) (st, more) (room, rooms) = (
    omega (arith, room, capacity_of_Reading (take_lem lib tasks A m more).0.reading),
    Roomy-Take m more rooms,
  )

  -- What the nodes behind a queue come to: a step of a worker, or of the consumer, a wait for an
  -- element, or the end.
  pub data Outlook : Results lib tasks A → List (Node lib tasks A) → Type 0 where
    goes :
        {q : Results lib tasks A} {nodes : List (Node lib tasks A)} (q' : Results lib tasks A)
        (nodes' : List (Node lib tasks A))
        → Move lib tasks A q nodes q' nodes'
        → Outlook q nodes
    takes :
        {q : Results lib tasks A} {nodes : List (Node lib tasks A)} (h : tasks.Handle A)
        (q' : Results lib tasks A) (nodes' : List (Node lib tasks A))
        → Take lib tasks A h q nodes q' nodes'
        → Outlook q nodes
    waits :
        {q : Results lib tasks A} {nodes : List (Node lib tasks A)}
        → (lib.view q).items ≡ []
        → (lib.view q).closed ≡ false
        → Outlook q nodes
    ends :
        {q : Results lib tasks A} {nodes : List (Node lib tasks A)}
        → lib.pull (last_queue lib tasks A q nodes) ≡ empty
        → Outlook q nodes

  at_consumer :
      (q : Results lib tasks A) (r : Pulled (tasks.Handle A)) → lib.pull q ≡ r → Outlook q []
  at_consumer q (item h) e = takes h _ _ (last e)
  at_consumer q empty e = ends e
  at_consumer q waiting e = let (none_left, opened) = pull_waiting lib q e in waits none_left opened

  apart : ¬ (◌≡◌ {A = Bool} false true)
  apart e = cc

  -- Where the last queue is closed and drained, the first is not open.
  pub not_ended :
      (q : Results lib tasks A) (nodes : List (Node lib tasks A))
      → Statuses lib tasks A (lib.view q) nodes
      → lib.pull (last_queue lib tasks A q nodes) ≡ empty
      → ¬ ((lib.view q).closed ≡ false)
  not_ended q nodes st e o =
      let (none_left, shut) = pull_empty lib (last_queue lib tasks A q nodes) e in
      apart (sym o ∙ (drained lib tasks A q nodes st none_left shut).1)

  -- Of a stage that can make no step, by what comes behind its output.
  at_node :
      {q : Results lib tasks A} {node : Node lib tasks A} {nodes : List (Node lib tasks A)}
      → Statuses lib tasks A (lib.view node.out_queue) nodes
      → 0 < (lib.view node.out_queue).capacity
      → Held lib tasks (join lib tasks A) node.func (as_stage lib tasks A q node)
      → Outlook node.out_queue nodes
      → Outlook q (node ∷ nodes)
  at_node st room (hungry e o) k = waits e o
  at_node st room k (goes q' nodes' m) = goes _ _ (there m)
  at_node st room k (takes h q' nodes' m) = takes h _ _ (beyond m)
  at_node st room (full o c) (waits e w) = absurd (omega (arith, room, c, ap length e))
  at_node st room (full o c) (ends e) = absurd (not_ended _ _ st e o)
  at_node st room (over c e w) (waits f o) = absurd (apart (sym o ∙ c))
  at_node st room (over c e w) (ends f) = ends f

  pub outlook :
      (q : Results lib tasks A) (nodes : List (Node lib tasks A))
      → Statuses lib tasks A (lib.view q) nodes
      → Roomy nodes
      → Outlook q nodes
  outlook q [] st rooms = at_consumer q (lib.pull q) refl
  outlook q (node ∷ nodes) (st, more) (room, rooms) =
      let behind = outlook node.out_queue nodes more rooms in
      elim (works_or_Held lib tasks (join lib tasks A) node.func (as_stage lib tasks A q node) st) [
        | inl (t, h) ↦ goes _ _ (here h)
        | inr k ↦ at_node more room k behind
      ]
