-- ===== src/PipelineFifo/Chain/Flow.antt =====
-- What is on its way through the nodes of a chain, as the results that it becomes, and what a step
-- of a node's worker and of the consumer does to it.
use tmc_examples.Base.{
  subst, ◌≡◌, refl, sym, ap, ◌∙◌, true, false, List, [], ◌∷◌, ◌++◌, map, map-append, append_assoc,
}
use tmc_examples.Runtime.{Tasks}
use tmc_examples.PipelineFifo.Queue.{BoundedQueue, View, rest}
use tmc_examples.PipelineFifo.Stage.Invariant.{Status, send-Status, close-Status}
use tmc_examples.PipelineFifo.Stage.Effect.{Effect, kept, closing, passing}
use tmc_examples.PipelineFifo.Chain.{Results, Node, join}

-- The consumer's side of a queue has not moved, or has finished a read.
pub data Reading {A : Type 0} (v v' : View A) : Type 0 where
  same : v' ≡ v → Reading v v'
  popped : v' ≡ record v { items = rest v.items } → Reading v v'

module _ (lib : BoundedQueue) (tasks : Tasks) (A : Type 0) where
  -- The functions of the nodes, one after the other.
  abbrev pub after : List (Node lib tasks A) → A → A
  after [] x = x
  after (node ∷ nodes) x = after nodes (node.func x)

  -- The results of what is in a queue and in the queues behind it, oldest first.
  abbrev pub flow : View (tasks.Handle A) → List (Node lib tasks A) → List A
  flow v [] = map (λ h. tasks.join h) v.items
  flow v (node ∷ nodes) =
      flow (lib.view node.out_queue) nodes
      ++ map (λ h. after nodes (node.func (tasks.join h))) v.items

  abbrev pub Statuses : View (tasks.Handle A) → List (Node lib tasks A) → Type 0
  Statuses v [] = Unit
  Statuses v (node ∷ nodes) =
      Status lib tasks (join lib tasks A) node.func node.pc v (lib.view node.out_queue)
      × Statuses (lib.view node.out_queue) nodes

  -- A new result at the end of a queue.
  pub flow_push :
      (v : View (tasks.Handle A)) (nodes : List (Node lib tasks A)) (h : tasks.Handle A)
      → flow (record v { items = v.items ++ h ∷ []; closed = false }) nodes
        ≡ flow v nodes ++ after nodes (tasks.join h) ∷ []
  flow_push v [] h = map-append (λ k. tasks.join k) v.items (h ∷ [])
  flow_push v (node ∷ nodes) h = simp (map-append, append_assoc)

  pub Statuses-push :
      (v : View (tasks.Handle A)) (nodes : List (Node lib tasks A)) (h : tasks.Handle A)
      → v.closed ≡ false
      → Statuses v nodes
      → Statuses (record v { items = v.items ++ h ∷ []; closed = false }) nodes
  Statuses-push v [] h o st = tt
  Statuses-push v (node ∷ nodes) h o (st, more) = (
    send-Status lib tasks (join lib tasks A) node.func node.pc v (lib.view node.out_queue) h o st,
    more,
  )

  pub Statuses-close :
      (v : View (tasks.Handle A)) (nodes : List (Node lib tasks A))
      → Statuses v nodes
      → Statuses (record v { closed = true }) nodes
  Statuses-close v [] st = tt
  Statuses-close v (node ∷ nodes) (st, more) = (
    close-Status lib tasks (join lib tasks A) node.func node.pc v (lib.view node.out_queue) st,
    more,
  )

  pub flow_close :
      (v : View (tasks.Handle A)) (nodes : List (Node lib tasks A))
      → flow (record v { closed = true }) nodes ≡ flow v nodes
  flow_close v [] = refl
  flow_close v (node ∷ nodes) = refl

  -- What a step of the nodes behind a queue keeps.
  pub record Kept (q : Results lib tasks A) (nodes : List (Node lib tasks A))
      (q' : Results lib tasks A) (nodes' : List (Node lib tasks A)) : Type 0 where
    pub functions : after nodes' ≡ after nodes
    pub statuses : Statuses (lib.view q') nodes'
    pub reading : Reading (lib.view q) (lib.view q')

  -- The head's worker, by what it does to its queues.
  pub head_flow :
      (node : Node lib tasks A) (nodes : List (Node lib tasks A))
      (vi vi' vo' : View (tasks.Handle A))
      → Effect lib tasks (join lib tasks A) node.func vi vi' (lib.view node.out_queue) vo'
      → flow vo' nodes ++ map (λ h. after nodes (node.func (tasks.join h))) vi'.items
        ≡ flow vi (node ∷ nodes)
  head_flow node nodes vi vi' vo' (kept e f) = rw (e, f) refl
  head_flow node nodes vi vi' vo' (closing e f) =
      rw (e, f, flow_close (lib.view node.out_queue) nodes) refl
  head_flow node nodes vi vi' vo' (passing a held e o f) =
      let g = λ (h : tasks.Handle A). after nodes (node.func (tasks.join h)) in
      let vo = lib.view node.out_queue in
      rw
        (
          e,
          f,
          flow_push vo nodes (tasks.fork (node.func (tasks.join a))),
          tasks.join-fork (node.func (tasks.join a)),
        )
        (append_assoc (flow vo nodes) (g a ∷ []) (map g (rest vi.items))
          ∙ ap (λ xs. flow vo nodes ++ map g xs) (sym held))

  pub head_Statuses :
      (node : Node lib tasks A) (nodes : List (Node lib tasks A))
      (vi vi' vo' : View (tasks.Handle A))
      → Effect lib tasks (join lib tasks A) node.func vi vi' (lib.view node.out_queue) vo'
      → Statuses (lib.view node.out_queue) nodes
      → Statuses vo' nodes
  head_Statuses node nodes vi vi' vo' (kept e f) st = subst (λ v. Statuses v nodes) (sym f) st
  head_Statuses node nodes vi vi' vo' (closing e f) st =
      subst (λ v. Statuses v nodes) (sym f) (Statuses-close (lib.view node.out_queue) nodes st)
  head_Statuses node nodes vi vi' vo' (passing a held e o f) st =
      subst (λ v. Statuses v nodes) (sym f) (Statuses-push (lib.view node.out_queue) nodes _ o st)

  pub head_Reading :
      (node : Node lib tasks A) (vi vi' vo' : View (tasks.Handle A))
      → Effect lib tasks (join lib tasks A) node.func vi vi' (lib.view node.out_queue) vo'
      → Reading vi vi'
  head_Reading node vi vi' vo' (kept e f) = same e
  head_Reading node vi vi' vo' (closing e f) = same e
  head_Reading node vi vi' vo' (passing a held e o f) = popped e
