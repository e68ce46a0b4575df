-- ===== src/PipelineFifo/Chain/Moves.antt =====
-- A step of the nodes of a chain, or of its consumer, and what is on its way.
use tmc_examples.Base.{subst, ◌≡◌, refl, sym, ap, ◌∙◌, List, ◌∷◌, ◌++◌, map}
use tmc_examples.Runtime.{Tasks}
use tmc_examples.PipelineFifo.Queue.{BoundedQueue, View, pull_item}
use tmc_examples.PipelineFifo.Stage.Invariant.{Status, take-Status}
use tmc_examples.PipelineFifo.Stage.Effect.{worker-Effect}
use tmc_examples.PipelineFifo.Chain.{
  Results, Node, join, as_stage, Move, here, there, Take, last, beyond,
}
use tmc_examples.PipelineFifo.Chain.Flow.{
  Reading, same, popped, after, flow, Statuses, Kept, head_flow, head_Statuses, head_Reading,
}

module _ (lib : BoundedQueue) (tasks : Tasks) (A : Type 0) where
  read_Status :
      (node : Node lib tasks A) (v vo vo' : View (tasks.Handle A))
      → Reading vo vo'
      → Status lib tasks (join lib tasks A) node.func node.pc v vo
      → Status lib tasks (join lib tasks A) node.func node.pc v vo'
  read_Status node v vo vo' (same e) st =
      subst (Status lib tasks (join lib tasks A) node.func node.pc v) (sym e) st
  read_Status node v vo vo' (popped e) st =
      subst (Status lib tasks (join lib tasks A) node.func node.pc v) (sym e)
        (take-Status lib tasks (join lib tasks A) node.func node.pc v vo st)

  -- A step of the nodes leaves what is on its way as it is, in order.
  pub move_lem :
      {q q' : Results lib tasks A} {nodes nodes' : List (Node lib tasks A)}
      → Move lib tasks A q nodes q' nodes'
      → Statuses lib tasks A (lib.view q) nodes
      → Kept lib tasks A q nodes q' nodes'
        × (flow lib tasks A (lib.view q') nodes' ≡ flow lib tasks A (lib.view q) nodes)
  move_lem {q} (here {node = node} {nodes = nodes} {t = t} h) (st, more) =
      let (effect, status) =
        worker-Effect lib tasks (join lib tasks A) node.func (as_stage lib tasks A q node) st h in
      (
        record {
          functions = refl;
          statuses = (status, head_Statuses lib tasks A node nodes _ _ _ effect more);
          reading = head_Reading lib tasks A node _ _ _ effect;
        },
        head_flow lib tasks A node nodes _ _ _ effect,
      )
  move_lem {q} (there {q' = q'} {node = node} {nodes = nodes} {nodes' = nodes'} m) (st, more) =
      let (k, e) = move_lem m more in
      (
        record {
          functions = ap (λ (g : A → A). λ (x : A). g (node.func x)) k.functions;
          statuses = (read_Status node (lib.view q) _ _ k.reading st, k.statuses);
          reading = same refl;
        },
        ap
              (λ fs.
                fs
                ++ map (λ h. after lib tasks A nodes' (node.func (tasks.join h)))
                    (lib.view q).items)
              e
            ∙ ap
                (λ (g : A → A).
                  flow lib tasks A (lib.view node.out_queue) nodes
                  ++ map (λ h. g (node.func (tasks.join h))) (lib.view q).items)
                k.functions,
      )

  -- The consumer takes the oldest of what is on its way.
  pub take_lem :
      {h : tasks.Handle A} {q q' : Results lib tasks A} {nodes nodes' : List (Node lib tasks A)}
      → Take lib tasks A h q nodes q' nodes'
      → Statuses lib tasks A (lib.view q) nodes
      → Kept lib tasks A q nodes q' nodes'
        × (flow lib tasks A (lib.view q) nodes
            ≡ tasks.join h ∷ flow lib tasks A (lib.view q') nodes')
  take_lem {h} (last {q = q} e) st = (
    record { functions = refl; statuses = tt; reading = popped (lib.view-finish_read q) },
    ap (map (λ k. tasks.join k)) (pull_item lib q e)
        ∙ ap (λ (v : View (tasks.Handle A)). tasks.join h ∷ map (λ k. tasks.join k) v.items)
            (sym (lib.view-finish_read q)),
  )
  take_lem {h} {q} (beyond {q' = q'} {node = node} {nodes = nodes} {nodes' = nodes'} m) (st, more) =
      let (k, e) = take_lem m more in
      (
        record {
          functions = ap (λ (g : A → A). λ (x : A). g (node.func x)) k.functions;
          statuses = (read_Status node (lib.view q) _ _ k.reading st, k.statuses);
          reading = same refl;
        },
        ap
              (λ fs.
                fs
                ++ map (λ h. after lib tasks A nodes (node.func (tasks.join h))) (lib.view q).items)
              e
            ∙ ap
                (λ (g : A → A).
                  tasks.join h
                  ∷ (flow lib tasks A (lib.view q') nodes'
                      ++ map (λ h. g (node.func (tasks.join h))) (lib.view q).items))
                (sym k.functions),
      )
