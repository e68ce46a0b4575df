-- ===== src/PipelineFifo/Chain/Result.antt =====
-- A chain of stages, in any interleaving of its workers with the driver and the consumer, against its
-- specification: the functions of the stages, one after the other, on each element in order.
use tmc_examples.Base.{ℕ, ◌≡◌, refl, sym, ap, ◌∙◌, true, List, [], ◌∷◌, ◌++◌, map, append-nil}
use tmc_examples.Runtime.{Tasks}
use tmc_examples.PipelineFifo.Queue.{BoundedQueue, empty, pull_empty}
use tmc_examples.PipelineFifo.Stage.Order.{finished_of_closed}
use tmc_examples.PipelineFifo.Chain.{Results, Node, join, last_queue, Chain, Reach}
use tmc_examples.PipelineFifo.Chain.Flow.{flow, Statuses}
use tmc_examples.PipelineFifo.Chain.Invariant.{through, all_flow}
use tmc_examples.PipelineFifo.Chain.Steps.{Reach-Inv}

module _ (lib : BoundedQueue) (tasks : Tasks) (A : Type 0) where
  -- Where the last queue is closed and drained, so are all before it.
  pub drained :
      (q : Results lib tasks A) (nodes : List (Node lib tasks A))
      → Statuses lib tasks A (lib.view q) nodes
      → (lib.view (last_queue lib tasks A q nodes)).items ≡ []
      → (lib.view (last_queue lib tasks A q nodes)).closed ≡ true
      → (flow lib tasks A (lib.view q) nodes ≡ []) × ((lib.view q).closed ≡ true)
  drained q [] st e c = (ap (map (λ h. tasks.join h)) e, c)
  drained q (node ∷ nodes) (st, more) e c =
      let (none_left, closed) = drained node.out_queue nodes more e c in
      let (taken, shut) =
        finished_of_closed lib tasks (join lib tasks A) node.func node.pc _ _ st closed in
      (rw (none_left, taken) refl, shut)

module _ (lib : BoundedQueue) (tasks : Tasks) {S A : Type 0} (read : S → A) (func : A → A) {p : ℕ}
    {more : List ((A → A) × ℕ)} {s : Chain lib tasks read func} where
  -- A chain of any number of stages implements the functions of its stages, one after the other, on
  -- each element: in every interleaving, what the consumer has received is the first part of the
  -- results of what was sent, in the order of sending, and all of them, with the input closed, when
  -- the consumer finds the last queue closed and drained.
  pub refines_through :
      Reach lib tasks read func p more s
      → ((to_come : List A) × (s.received ++ to_come
            ≡ map (λ a. through more (func (read a))) s.sent))
        × (lib.pull (last_queue lib tasks A s.first.out_queue s.nodes) ≡ empty
            → (s.received ≡ map (λ a. through more (func (read a))) s.sent)
              × ((lib.view s.first.in_queue).closed ≡ true))
  refines_through r =
      let v = Reach-Inv lib tasks read func r in
      (
        (all_flow lib tasks read func s, v.order),
        λ e.
            let (last_drained, last_closed) =
              pull_empty lib (last_queue lib tasks A s.first.out_queue s.nodes) e in
            let (none_left, closed) =
              drained lib tasks A s.first.out_queue s.nodes v.statuses last_drained last_closed in
            let (taken, shut) =
              finished_of_closed lib tasks read func s.first.pc _ _ v.status closed in
            let nothing : all_flow lib tasks read func s ≡ [] = rw (none_left, taken) refl in
            (
              sym (append-nil s.received) ∙ ap (λ xs. s.received ++ xs) (sym nothing) ∙ v.order,
              shut,
            ),
      )
