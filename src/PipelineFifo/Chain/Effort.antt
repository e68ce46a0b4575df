-- ===== src/PipelineFifo/Chain/Effort.antt =====
-- The steps that the workers of a chain and its consumer have left: each step takes one off.
use tmc_examples.Base.{total, ℕ, ◌+◌, ◌<◌, ◌≡◌, refl, ap, arith, List, [], ◌∷◌}
use tmc_examples.Runtime.{Tasks}
use tmc_examples.PipelineFifo.Queue.{BoundedQueue, View, pull_item}
use tmc_examples.PipelineFifo.Stage.Effort.{to_pull, worker-Less}
use tmc_examples.PipelineFifo.Chain.{
  Results, Node, join, as_stage, Move, here, there, Take, last, beyond,
}
use tmc_examples.PipelineFifo.Chain.Flow.{Statuses}

module _ (lib : BoundedQueue) (tasks : Tasks) (A : Type 0) where
  -- The steps for a result behind which these nodes stand: two in each, and the consumer's.
  abbrev pub cost : List (Node lib tasks A) → ℕ
  cost [] = 1
  cost (node ∷ nodes) = cost nodes + 2

  abbrev pub behind : List (Node lib tasks A) → ℕ
  behind [] = 0
  behind (node ∷ nodes) =
      to_pull node.pc
      + total (λ (h : tasks.Handle A). cost nodes) (lib.view node.out_queue).items
      + behind nodes

  abbrev pub nodes_left : Results lib tasks A → List (Node lib tasks A) → ℕ
  nodes_left q nodes = total (λ (h : tasks.Handle A). cost nodes) (lib.view q).items + behind nodes

  pub cost-Move :
      {q q' : Results lib tasks A} {nodes nodes' : List (Node lib tasks A)}
      → Move lib tasks A q nodes q' nodes'
      → cost nodes' ≡ cost nodes
  cost-Move (here h) = refl
  cost-Move (there m) = ap (λ c. c + 2) (cost-Move m)

  pub cost-Take :
      {h : tasks.Handle A} {q q' : Results lib tasks A} {nodes nodes' : List (Node lib tasks A)}
      → Take lib tasks A h q nodes q' nodes'
      → cost nodes' ≡ cost nodes
  cost-Take (last e) = refl
  cost-Take (beyond m) = ap (λ c. c + 2) (cost-Take m)

  -- A step of a worker or the consumer.
  pub nodes_left-Move :
      {q q' : Results lib tasks A} {nodes nodes' : List (Node lib tasks A)}
      → Move lib tasks A q nodes q' nodes'
      → Statuses lib tasks A (lib.view q) nodes
      → nodes_left q' nodes' < nodes_left q nodes
  nodes_left-Move {q} (here {node = node} {nodes = nodes} {t = t} h) (st, more) = omega (
    arith,
    worker-Less lib tasks (join lib tasks A) node.func (cost nodes) (as_stage lib tasks A q node) st
        h,
  )
  nodes_left-Move {q} (there {q' = q'} {node = node} {nodes = nodes} {nodes' = nodes'} m)
        (st, more) =
      omega (
        arith,
        nodes_left-Move m more,
        ap (λ c. total (λ (h : tasks.Handle A). c + 2) (lib.view q).items) (cost-Move m),
      )

  pub nodes_left-Take :
      {h : tasks.Handle A} {q q' : Results lib tasks A} {nodes nodes' : List (Node lib tasks A)}
      → Take lib tasks A h q nodes q' nodes'
      → nodes_left q' nodes' < nodes_left q nodes
  nodes_left-Take (last {q = q} e) = omega (
    arith,
    ap (total (λ (h : tasks.Handle A). 1)) (pull_item lib q e),
    ap (λ (v : View (tasks.Handle A)). total (λ h. 1) v.items) (lib.view-finish_read q),
  )
  nodes_left-Take {q = q} (beyond m) = omega (
    arith,
    nodes_left-Take m,
    ap (λ c. total (λ (h : tasks.Handle A). c + 2) (lib.view q).items) (cost-Take m),
  )
