-- ===== src/PipelineFifo/Chain/Invariant.antt =====
-- The invariant of a chain of stages, in any interleaving of its workers with the driver and the
-- consumer: what was received and what is on its way, against the functions of the stages.
use tmc_examples.Base.{ℕ, ◌≡◌, refl, ap, List, [], ◌∷◌, ◌++◌, map}
use tmc_examples.Runtime.{Tasks}
use tmc_examples.PipelineFifo.Queue.{BoundedQueue, View}
use tmc_examples.PipelineFifo.Stage.{make_stage}
use tmc_examples.PipelineFifo.Stage.Invariant.{Status}
use tmc_examples.PipelineFifo.Chain.{Chain, pipeline_transform, make_nodes, start}
use tmc_examples.PipelineFifo.Chain.Flow.{after, flow, Statuses}

-- The specification: the functions that the stages after the first were made with.
unfoldable pub through : {A : Type 0} → List ((A → A) × ℕ) → A → A
through [] x = x
through ((f, parallelism) ∷ more) x = through more (f x)

module _ (lib : BoundedQueue) (tasks : Tasks) {S A : Type 0} (read : S → A) (func : A → A) where
  -- What is on its way through the whole chain.
  abbrev pub all_flow : Chain lib tasks read func → List A
  all_flow s =
      flow lib tasks A (lib.view s.first.out_queue) s.nodes
      ++ map (λ a. after lib tasks A s.nodes (func (read a))) (lib.view s.first.in_queue).items

  pub record Inv (more : List ((A → A) × ℕ)) (s : Chain lib tasks read func) : Type 0 where
    pub functions : after lib tasks A s.nodes ≡ through more
    pub order : s.received ++ all_flow s ≡ map (λ a. through more (func (read a))) s.sent
    pub status :
        Status lib tasks read func s.first.pc
          (lib.view s.first.in_queue)
          (lib.view s.first.out_queue)
    pub statuses : Statuses lib tasks A (lib.view s.first.out_queue) s.nodes

  after-make_nodes :
      (more : List ((A → A) × ℕ))
      → after lib tasks A (make_nodes lib tasks read func more) ≡ through more
  unfolding make_nodes pipeline_transform through
  after-make_nodes [] = refl
  after-make_nodes ((f, p) ∷ more) = ap (λ (g : A → A). λ (x : A). g (f x)) (after-make_nodes more)

  make_nodes-Statuses :
      (v : View (tasks.Handle A)) (more : List ((A → A) × ℕ))
      → Statuses lib tasks A v (make_nodes lib tasks read func more)
  unfolding make_nodes pipeline_transform
  make_nodes-Statuses v [] = tt
  make_nodes-Statuses v ((f, p) ∷ more) = (
    ap (λ w. w.closed) (lib.view-make {A = tasks.Handle A} p),
    make_nodes-Statuses (lib.view (lib.make {A = tasks.Handle A} p)) more,
  )

  flow-make_nodes :
      (v : View (tasks.Handle A)) (more : List ((A → A) × ℕ))
      → v.items ≡ []
      → flow lib tasks A v (make_nodes lib tasks read func more) ≡ []
  unfolding make_nodes pipeline_transform
  flow-make_nodes v [] e = ap (map (λ h. tasks.join h)) e
  flow-make_nodes v ((f, p) ∷ more) e =
      rw
        (
          flow-make_nodes (lib.view (lib.make {A = tasks.Handle A} p)) more
              (ap (λ w. w.items) (lib.view-make {A = tasks.Handle A} p)),
          e,
        )
        refl

  pub start-Inv : (p : ℕ) (more : List ((A → A) × ℕ)) → Inv more (start lib tasks read func p more)
  unfolding start make_stage
  start-Inv p more = record {
    functions = after-make_nodes more;
    order =
        rw
          (
            flow-make_nodes (lib.view (lib.make {A = tasks.Handle A} p)) more
                (ap (λ w. w.items) (lib.view-make {A = tasks.Handle A} p)),
            lib.view-make {A = S} p,
          )
          refl;
    status = ap (λ w. w.closed) (lib.view-make {A = tasks.Handle A} p);
    statuses = make_nodes-Statuses (lib.view (lib.make {A = tasks.Handle A} p)) more;
  }
