-- ===== src/PipelineFifo/Stage/Order.antt =====
-- About the order of delivery of a stage, its end, and the number of its tasks.
use tmc_examples.Base.{ℕ, ◌≡◌, sym, ap, ◌∙◌, true, List, [], ◌++◌, map, append-nil}
use tmc_examples.Runtime.{Tasks}
use tmc_examples.PipelineFifo.Queue.{BoundedQueue, View, empty, pull_empty}
use tmc_examples.PipelineFifo.Stage.{Pc, pulling, pushing, finished, System, Reach}
use tmc_examples.PipelineFifo.Stage.Invariant.{Reach-Inv, Status}

module _ (lib : BoundedQueue) (tasks : Tasks) {Stored Input Output : Type 0} (read : Stored → Input)
    (func : Input → Output) where
  -- The output queue is closed by a worker that has drained its closed input.
  pub finished_of_closed :
      (pc : Pc Input) (vi : View Stored) (vo : View (tasks.Handle Output))
      → Status lib tasks read func pc vi vo
      → vo.closed ≡ true
      → (vi.items ≡ []) × (vi.closed ≡ true)
  finished_of_closed pulling vi vo st e = cc
  finished_of_closed (pushing d) vi vo st e = cc
  finished_of_closed finished vi vo st e = (st.1, st.2)

module _ (lib : BoundedQueue) (tasks : Tasks) {Stored Input Output : Type 0} (read : Stored → Input)
    (func : Input → Output) {n p : ℕ} {s : System lib tasks read func} where
  -- In every interleaving, what the consumer has received, then the results that wait in the output
  -- queue, then the inputs that the worker has not handed over, processed, are all that was ever
  -- sent, processed, in the order in which it was sent.
  pub fifo :
      Reach lib tasks read func n p s
      → s.received
          ++ (map tasks.join (lib.view s.out_queue).items
              ++ map (λ a. func (read a)) (lib.view s.in_queue).items)
        ≡ map (λ a. func (read a)) s.sent
  fifo r = (Reach-Inv lib tasks read func r).order

  -- When the consumer finds the output queue closed and drained, it has received the result of
  -- every element that was sent, in order, and the input was closed.
  pub complete :
      Reach lib tasks read func n p s
      → lib.pull s.out_queue ≡ empty
      → (s.received ≡ map (λ a. func (read a)) s.sent) × ((lib.view s.in_queue).closed ≡ true)
  complete r e =
      let v = Reach-Inv lib tasks read func r in
      let (drained, closed) = pull_empty lib s.out_queue e in
      let (taken, shut) = finished_of_closed lib tasks read func s.pc _ _ v.status closed in
      (
        sym (append-nil s.received)
            ∙ ap (λ (u : List (tasks.Handle Output)). s.received ++ (map tasks.join u ++ []))
                (sym drained)
            ∙ ap
                (λ (xs : List Stored).
                  s.received
                  ++ (map tasks.join (lib.view s.out_queue).items ++ map (λ a. func (read a)) xs))
                (sym taken)
            ∙ v.order,
        shut,
      )
