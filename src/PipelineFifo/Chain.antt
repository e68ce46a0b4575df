-- ===== src/PipelineFifo/Chain.antt =====
-- Stages of examples/pipeline_fifo.hpp one after the other, as `start_pipeline` and
-- `pipeline_transform` wire them: the output queue of a stage is the input queue of the next. All
-- values, of whatever types, are of one type `A`.
pub mod Flow
pub mod Moves
pub mod Invariant
pub mod Steps
pub mod Result
pub mod Effort
pub mod Progress
pub mod Delivery
pub mod Program
mod Tests
use tmc_examples.Base.{ℕ, ◌≡◌, Bool, false, Option, some, List, [], ◌∷◌, ◌++◌}
use tmc_examples.Runtime.{Tasks}
use tmc_examples.PipelineFifo.Queue.{BoundedQueue, Pulled, item, empty}
use tmc_examples.PipelineFifo.Stage.{Pc, pulling, Stage, worker, make_stage}

module _ (lib : BoundedQueue) (tasks : Tasks) (A : Type 0) where
  abbrev pub Results : Type 0
  Results = lib.Queue (tasks.Handle A)

  -- A stage after the first, without the input queue, which is the output queue of the one before.
  pub record Node : Type 0 where
    pub func : A → A
    pub out_queue : Results
    pub pc : Pc A

  abbrev pub join : tasks.Handle A → A
  join h = tasks.join h

  -- `pipeline_transform(fg, from, transformFunc, parallelism)`
  unfoldable pub pipeline_transform : (A → A) → (parallelism : ℕ) → Node
  pipeline_transform func parallelism = record {
    func = func;
    out_queue = lib.make parallelism;
    pc = pulling;
  }

  -- The node with its input queue.
  abbrev pub as_stage : Results → (node : Node) → Stage lib tasks join node.func
  as_stage q node = record { in_queue = q; out_queue = node.out_queue; pc = node.pc }

  -- One worker among the nodes behind the queue `q` makes a step.
  pub data Move : Results → List Node → Results → List Node → Type 0 where
    here :
        {q : Results} {node : Node} {nodes : List Node} {t : Stage lib tasks join node.func}
        → worker lib tasks join node.func (as_stage q node) ≡ some t
        → Move q
            (node ∷ nodes)
            t.in_queue
            (record node { out_queue = t.out_queue; pc = t.pc } ∷ nodes)
    there :
        {q q' : Results} {node : Node} {nodes nodes' : List Node}
        → Move node.out_queue nodes q' nodes'
        → Move q (node ∷ nodes) q (record node { out_queue = q' } ∷ nodes')

  -- The consumer pulls a result from the last queue, and finishes its read.
  pub data Take (h : tasks.Handle A) : Results → List Node → Results → List Node → Type 0 where
    last : {q : Results} → lib.pull q ≡ item h → Take h q [] (lib.finish_read q) []
    beyond :
        {q q' : Results} {node : Node} {nodes nodes' : List Node}
        → Take h node.out_queue nodes q' nodes'
        → Take h q (node ∷ nodes) q (record node { out_queue = q' } ∷ nodes')

  -- The queue that the consumer pulls from.
  abbrev pub last_queue : Results → List Node → Results
  last_queue q [] = q
  last_queue q (node ∷ nodes) = last_queue node.out_queue nodes

module _ (lib : BoundedQueue) (tasks : Tasks) {S A : Type 0} (read : S → A) (func : A → A) where
  -- The first stage and the nodes after it, with what was sent and received.
  pub record Chain : Type 0 where
    pub first : Stage lib tasks read func
    pub nodes : List (Node lib tasks A)
    pub sent : List S
    pub received : List A

  pub data Step (s : Chain) : Chain → Type 0 where
    work :
        {t : Stage lib tasks read func}
        → worker lib tasks read func s.first ≡ some t
        → Step s (record s { first = t })
    move :
        {q : Results lib tasks A} {nodes : List (Node lib tasks A)}
        → Move lib tasks A s.first.out_queue s.nodes q nodes
        → Step s (record s { first = record s.first { out_queue = q }; nodes = nodes })
    send :
        (a : S) {q : lib.Queue S}
        → (lib.view s.first.in_queue).closed ≡ false
        → lib.push s.first.in_queue a ≡ some q
        → Step s (record s { first = record s.first { in_queue = q }; sent = s.sent ++ a ∷ [] })
    close_input :
        Step s (record s { first = record s.first { in_queue = lib.close s.first.in_queue } })
    take :
        {h : tasks.Handle A} {q : Results lib tasks A} {nodes : List (Node lib tasks A)}
        → Take lib tasks A h s.first.out_queue s.nodes q nodes
        → Step s (record s {
          first = record s.first { out_queue = q };
          nodes = nodes;
          received = s.received ++ tasks.join h ∷ [];
        })

  -- `start_pipeline`, and a `pipeline_transform` for each of the functions with its parallelism.
  make_nodes : List ((A → A) × ℕ) → List (Node lib tasks A)
  make_nodes [] = []
  make_nodes ((f, parallelism) ∷ more) =
      pipeline_transform lib tasks A f parallelism ∷ make_nodes more

  pub start : (parallelism : ℕ) → List ((A → A) × ℕ) → Chain
  unfolding make_nodes
  start parallelism more = record {
    first = make_stage lib tasks read func (lib.make parallelism) parallelism;
    nodes = make_nodes more;
    sent = [];
    received = [];
  }

  pub data Reach (parallelism : ℕ) (more : List ((A → A) × ℕ)) : Chain → Type 0 where
    here : Reach parallelism more (start parallelism more)
    next : {s t : Chain} → Reach parallelism more s → Step s t → Reach parallelism more t
