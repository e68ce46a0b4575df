-- ===== src/PipelineFifo/Chain/Steps.antt =====
-- Each step of a chain keeps its invariant.
use tmc_examples.Base.{
  subst, ℕ, ◌≡◌, refl, sym, ap, ◌∙◌, false, some, List, [], ◌∷◌, ◌++◌, map, map-append,
  append_assoc, append-nil,
}
use tmc_examples.Runtime.{Tasks}
use tmc_examples.PipelineFifo.Queue.{BoundedQueue, View, rest, push_some}
use tmc_examples.PipelineFifo.Stage.{Pc, Stage, worker}
use tmc_examples.PipelineFifo.Stage.Invariant.{Status, send-Status, close-Status, take-Status}
use tmc_examples.PipelineFifo.Stage.Effect.{Effect, kept, closing, passing, worker-Effect}
use tmc_examples.PipelineFifo.Chain.{
  Results, Node, Chain, Step, work, move, send, close_input, take, Reach, here, next,
}
use tmc_examples.PipelineFifo.Chain.Flow.{
  Reading, same, popped, after, flow, flow_push, flow_close, Statuses, Statuses-push,
  Statuses-close, Kept,
}
use tmc_examples.PipelineFifo.Chain.Moves.{move_lem, take_lem}
use tmc_examples.PipelineFifo.Chain.Invariant.{through, Inv, start-Inv}

module _ (lib : BoundedQueue) (tasks : Tasks) {S A : Type 0} (read : S → A) (func : A → A) where
  -- The first worker, by what it does to its queues.
  first_flow :
      (nodes : List (Node lib tasks A)) (vi vi' : View S) (vo vo' : View (tasks.Handle A))
      → Effect lib tasks read func vi vi' vo vo'
      → flow lib tasks A vo' nodes ++ map (λ a. after lib tasks A nodes (func (read a))) vi'.items
        ≡ flow lib tasks A vo nodes ++ map (λ a. after lib tasks A nodes (func (read a))) vi.items
  first_flow nodes vi vi' vo vo' (kept e f) = rw (e, f) refl
  first_flow nodes vi vi' vo vo' (closing e f) = rw (e, f, flow_close lib tasks A vo nodes) refl
  first_flow nodes vi vi' vo vo' (passing a held e o f) =
      let g = λ (b : S). after lib tasks A nodes (func (read b)) in
      rw
        (
          e,
          f,
          flow_push lib tasks A vo nodes (tasks.fork (func (read a))),
          tasks.join-fork (func (read a)),
        )
        (append_assoc (flow lib tasks A vo nodes) (g a ∷ []) (map g (rest vi.items))
          ∙ ap (λ xs. flow lib tasks A vo nodes ++ map g xs) (sym held))

  first_Statuses :
      (nodes : List (Node lib tasks A)) (vi vi' : View S) (vo vo' : View (tasks.Handle A))
      → Effect lib tasks read func vi vi' vo vo'
      → Statuses lib tasks A vo nodes
      → Statuses lib tasks A vo' nodes
  first_Statuses nodes vi vi' vo vo' (kept e f) st =
      subst (λ v. Statuses lib tasks A v nodes) (sym f) st
  first_Statuses nodes vi vi' vo vo' (closing e f) st =
      subst (λ v. Statuses lib tasks A v nodes) (sym f) (Statuses-close lib tasks A vo nodes st)
  first_Statuses nodes vi vi' vo vo' (passing a held e o f) st =
      subst (λ v. Statuses lib tasks A v nodes) (sym f) (Statuses-push lib tasks A vo nodes _ o st)

  read_Status :
      (pc : Pc A) (vi : View S) (vo vo' : View (tasks.Handle A))
      → Reading vo vo'
      → Status lib tasks read func pc vi vo
      → Status lib tasks read func pc vi vo'
  read_Status pc vi vo vo' (same e) st = subst (Status lib tasks read func pc vi) (sym e) st
  read_Status pc vi vo vo' (popped e) st =
      subst (Status lib tasks read func pc vi) (sym e) (take-Status lib tasks read func pc vi vo st)

  first_Inv :
      (more : List ((A → A) × ℕ)) (s : Chain lib tasks read func) {t : Stage lib tasks read func}
      → worker lib tasks read func s.first ≡ some t
      → Inv lib tasks read func more s
      → Inv lib tasks read func more (record s { first = t })
  first_Inv more s h v =
      let (effect, status) = worker-Effect lib tasks read func s.first v.status h in
      record {
        functions = v.functions;
        order = ap (λ xs. s.received ++ xs) (first_flow s.nodes _ _ _ _ effect) ∙ v.order;
        status = status;
        statuses = first_Statuses s.nodes _ _ _ _ effect v.statuses;
      }

  -- The nodes or the consumer, by what is taken from the flow.
  nodes_Inv :
      (more : List ((A → A) × ℕ)) (s : Chain lib tasks read func) (taken : List A)
      (q : Results lib tasks A) (nodes : List (Node lib tasks A))
      → Kept lib tasks A s.first.out_queue s.nodes q nodes
      → flow lib tasks A (lib.view s.first.out_queue) s.nodes
        ≡ taken ++ flow lib tasks A (lib.view q) nodes
      → Inv lib tasks read func more s
      → Inv lib tasks read func more (record s {
        first = record s.first { out_queue = q };
        nodes = nodes;
        received = s.received ++ taken;
      })
  nodes_Inv more s taken q nodes k e v =
      let g = λ (f : A → A). map (λ a. f (func (read a))) (lib.view s.first.in_queue).items in
      record {
        functions = k.functions ∙ v.functions;
        order =
            append_assoc s.received taken _
            ∙ ap (λ xs. s.received ++ xs)
                (sym (append_assoc taken (flow lib tasks A (lib.view q) nodes) _)
                  ∙ ap (λ xs. xs ++ g (after lib tasks A nodes)) (sym e)
                  ∙ ap (λ (f : A → A). flow lib tasks A (lib.view s.first.out_queue) s.nodes ++ g f)
                      k.functions)
            ∙ v.order;
        status = read_Status s.first.pc (lib.view s.first.in_queue) _ _ k.reading v.status;
        statuses = k.statuses;
      }

  send_Inv :
      (more : List ((A → A) × ℕ)) (s : Chain lib tasks read func) (a : S) {q : lib.Queue S}
      → (lib.view s.first.in_queue).closed ≡ false
      → lib.push s.first.in_queue a ≡ some q
      → Inv lib tasks read func more s
      → Inv lib tasks read func more
          (record s { first = record s.first { in_queue = q }; sent = s.sent ++ a ∷ [] })
  send_Inv more s a o h v =
      let view_q = (push_some lib s.first.in_queue a o h).1 in
      let g = λ (b : S). after lib tasks A s.nodes (func (read b)) in
      let f = λ (b : S). through more (func (read b)) in
      let same_a : g a ≡ f a = ap (λ (k : A → A). k (func (read a))) v.functions in
      record {
        functions = v.functions;
        order =
            rw (view_q, map-append f s.sent (a ∷ []), ← v.order, ← same_a)
              (simp (map-append, append_assoc));
        status = rw view_q (
            send-Status lib tasks read func s.first.pc (lib.view s.first.in_queue)
              (lib.view s.first.out_queue) a o v.status);
        statuses = v.statuses;
      }

  Step-Inv :
      (more : List ((A → A) × ℕ)) {s t : Chain lib tasks read func}
      → Step lib tasks read func s t
      → Inv lib tasks read func more s
      → Inv lib tasks read func more t
  Step-Inv more {s} (work h) v = first_Inv more s h v
  Step-Inv more {s} (move {q} {nodes} m) v =
      let (k, e) = move_lem lib tasks A m v.statuses in
      subst
        (λ (xs : List A).
          Inv lib tasks read func more
            (record s { first = record s.first { out_queue = q }; nodes = nodes; received = xs }))
        (append-nil s.received) (nodes_Inv more s [] q nodes k (sym e) v)
  Step-Inv more {s} (send a o h) v = send_Inv more s a o h v
  Step-Inv more {s} close_input v = record {
    functions = v.functions;
    order = rw (lib.view-close s.first.in_queue) v.order;
    status = rw (lib.view-close s.first.in_queue) (
        close-Status lib tasks read func s.first.pc (lib.view s.first.in_queue)
          (lib.view s.first.out_queue) v.status);
    statuses = v.statuses;
  }
  Step-Inv more {s} (take {h} {q} {nodes} m) v =
      let (k, e) = take_lem lib tasks A m v.statuses in
      nodes_Inv more s (tasks.join h ∷ []) q nodes k e v

  pub Reach-Inv :
      {p : ℕ} {more : List ((A → A) × ℕ)} {s : Chain lib tasks read func}
      → Reach lib tasks read func p more s
      → Inv lib tasks read func more s
  Reach-Inv {p} {more} here = start-Inv lib tasks read func p more
  Reach-Inv {more = more} (next r st) = Step-Inv more st (Reach-Inv r)
