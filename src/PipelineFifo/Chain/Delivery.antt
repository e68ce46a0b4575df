-- ===== src/PipelineFifo/Chain/Delivery.antt =====
-- A chain whose input is closed can run on, with nothing more sent, until its consumer has received
-- the results of all that was sent.
use tmc_examples.Base.{
  total, ℕ, zero, suc, ◌+◌, ◌<◌, ◌≡◌, refl, sym, ap, ◌∙◌, arith, ◌⊎◌, inl, inr, Bool, true, false,
  some, List, [], ◌∷◌, map, length,
}
use tmc_examples.Runtime.{Tasks}
use tmc_examples.PipelineFifo.Queue.{BoundedQueue, View, empty}
use tmc_examples.PipelineFifo.Stage.{Stage, worker, make_stage}
use tmc_examples.PipelineFifo.Stage.Effect.{worker-Effect, Effect, kept, closing, passing}
use tmc_examples.PipelineFifo.Stage.Effort.{
  stage_left, worker-Less, Held, hungry, full, over, works_or_Held,
}
use tmc_examples.PipelineFifo.Chain.{
  Chain, Step, work, move, send, close_input, take, start, make_nodes, pipeline_transform, Reach,
  here, next, last_queue,
}
use tmc_examples.PipelineFifo.Chain.Moves.{move_lem, take_lem}
use tmc_examples.PipelineFifo.Chain.Invariant.{through, Inv}
use tmc_examples.PipelineFifo.Chain.Steps.{Reach-Inv}
use tmc_examples.PipelineFifo.Chain.Result.{refines_through}
use tmc_examples.PipelineFifo.Chain.Effort.{
  cost, behind, cost-Move, cost-Take, nodes_left-Move, nodes_left-Take,
}
use tmc_examples.PipelineFifo.Chain.Progress.{
  Roomy, Roomy-Move, Roomy-Take, capacity_of_Effect, capacity_of_Reading, Outlook, goes, takes,
  waits, ends, outlook,
}

-- Each stage of a chain has a place for a result.
abbrev pub Parallel : {A : Type 0} → List ((A → A) × ℕ) → Type 0
Parallel [] = Unit
Parallel ((f, parallelism) ∷ more) = (0 < parallelism) × Parallel more

module _ (lib : BoundedQueue) (tasks : Tasks) {S A : Type 0} (read : S → A) (func : A → A) where
  abbrev Ch : Type 0
  Ch = Chain lib tasks read func

  -- The steps that the workers and the consumer have left.
  abbrev pub chain_left : Chain lib tasks read func → ℕ
  chain_left s =
      stage_left lib tasks read func (cost lib tasks A s.nodes) s.first + behind lib tasks A s.nodes

  abbrev pub RoomyChain : Chain lib tasks read func → Type 0
  RoomyChain s = (0 < (lib.view s.first.out_queue).capacity) × Roomy lib tasks A s.nodes

  make_nodes-Roomy :
      (more : List ((A → A) × ℕ))
      → Parallel more
      → Roomy lib tasks A (make_nodes lib tasks read func more)
  unfolding make_nodes pipeline_transform
  make_nodes-Roomy [] h = tt
  make_nodes-Roomy ((f, p) ∷ more) (h, hs) = (
    omega (arith, h, ap (λ v. v.capacity) (lib.view-make {A = tasks.Handle A} p)),
    make_nodes-Roomy more hs,
  )

  Step-RoomyChain :
      {more : List ((A → A) × ℕ)} {s t : Chain lib tasks read func}
      → Inv lib tasks read func more s
      → Step lib tasks read func s t
      → RoomyChain s
      → RoomyChain t
  Step-RoomyChain {s = s} v (work h) (room, rooms) =
      let effect = (worker-Effect lib tasks read func s.first v.status h).0 in
      (omega (arith, room, capacity_of_Effect lib tasks A {read = read} {f = func} effect), rooms)
  Step-RoomyChain v (move m) (room, rooms) = (
    omega (
      arith,
      room,
      capacity_of_Reading lib tasks A (move_lem lib tasks A m v.statuses).0.reading,
    ),
    Roomy-Move lib tasks A m v.statuses rooms,
  )
  Step-RoomyChain v (send a o h) rooms = rooms
  Step-RoomyChain v close_input rooms = rooms
  Step-RoomyChain v (take m) (room, rooms) = (
    omega (
      arith,
      room,
      capacity_of_Reading lib tasks A (take_lem lib tasks A m v.statuses).0.reading,
    ),
    Roomy-Take lib tasks A m v.statuses rooms,
  )

  Reach-RoomyChain :
      {p : ℕ} {more : List ((A → A) × ℕ)} {s : Chain lib tasks read func}
      → 0 < p
      → Parallel more
      → Reach lib tasks read func p more s
      → RoomyChain s
  unfolding start make_stage
  Reach-RoomyChain {p} {more} h hs here = (
    omega (arith, h, ap (λ v. v.capacity) (lib.view-make {A = tasks.Handle A} p)),
    make_nodes-Roomy more hs,
  )
  Reach-RoomyChain h hs (next r st) =
      Step-RoomyChain (Reach-Inv lib tasks read func r) st (Reach-RoomyChain h hs r)

  -- A step that sends nothing and leaves less to do.
  record Advance (s t : Chain lib tasks read func) : Type 0 where
    step : Step lib tasks read func s t
    same_sent : t.sent ≡ s.sent
    shut : (lib.view t.first.in_queue).closed ≡ (lib.view s.first.in_queue).closed
    less : chain_left t < chain_left s

  shut_of_Effect :
      {vi vi' : View S} {vo vo' : View (tasks.Handle A)}
      → Effect lib tasks read func vi vi' vo vo'
      → vi'.closed ≡ vi.closed
  shut_of_Effect (kept e g) = ap (λ v. v.closed) e
  shut_of_Effect (closing e g) = ap (λ v. v.closed) e
  shut_of_Effect (passing a held e o g) = ap (λ v. v.closed) e

  work_Advance :
      {more : List ((A → A) × ℕ)} (s : Ch) {t : Stage lib tasks read func}
      → Inv lib tasks read func more s
      → worker lib tasks read func s.first ≡ some t
      → Advance s (record s { first = t })
  work_Advance s v h = record {
    step = work h;
    same_sent = refl;
    shut = shut_of_Effect (worker-Effect lib tasks read func s.first v.status h).0;
    less =
        omega
          (arith, worker-Less lib tasks read func (cost lib tasks A s.nodes) s.first v.status h);
  }

  abbrev Advances : Ch → Type 0
  Advances s = (t : Ch) × Advance s t

  -- The nodes and the consumer.
  nodes_Advance :
      {more : List ((A → A) × ℕ)} (s : Ch)
      → Inv lib tasks read func more s
      → Held lib tasks read func s.first
      → RoomyChain s
      → (lib.view s.first.in_queue).closed ≡ true
      → Outlook lib tasks A s.first.out_queue s.nodes
      → (lib.pull (last_queue lib tasks A s.first.out_queue s.nodes) ≡ empty) ⊎ Advances s
  nodes_Advance s v k room c (goes q' nodes' m) = inr (
    _,
    record {
      step = move m;
      same_sent = refl;
      shut = refl;
      less = omega (
        arith,
        nodes_left-Move lib tasks A m v.statuses,
        ap (λ c. total (λ (a : S). c + 2) (lib.view s.first.in_queue).items)
            (cost-Move lib tasks A m),
      );
    },
  )
  nodes_Advance s v k room c (takes h q' nodes' m) = inr (
    _,
    record {
      step = take m;
      same_sent = refl;
      shut = refl;
      less = omega (
        arith,
        nodes_left-Take lib tasks A m,
        ap (λ c. total (λ (a : S). c + 2) (lib.view s.first.in_queue).items)
            (cost-Take lib tasks A m),
      );
    },
  )
  nodes_Advance s v k room c (ends e) = inl e
  nodes_Advance s v (hungry e o) room c (waits f w) = absurd (apart (sym o ∙ c))
    where
      apart : ¬ (◌≡◌ {A = Bool} false true)
      apart z = cc
  nodes_Advance s v (full o d) room c (waits f w) = absurd (omega (arith, room.0, d, ap length f))
  nodes_Advance s v (over d e g) room c (waits f w) = absurd (apart (sym w ∙ d))
    where
      apart : ¬ (◌≡◌ {A = Bool} false true)
      apart z = cc

  ended_or_Advances :
      {more : List ((A → A) × ℕ)} (s : Ch)
      → Inv lib tasks read func more s
      → RoomyChain s
      → (lib.view s.first.in_queue).closed ≡ true
      → (lib.pull (last_queue lib tasks A s.first.out_queue s.nodes) ≡ empty) ⊎ Advances s
  ended_or_Advances s v room c = elim (works_or_Held lib tasks read func s.first v.status) [
    | inl (t, h) ↦ inr (_, work_Advance s v h)
    | inr k ↦
        nodes_Advance s v k room c (outlook lib tasks A s.first.out_queue s.nodes v.statuses room.1)
  ]

  -- A run to the end.
  record Finished (p : ℕ) (more : List ((A → A) × ℕ)) (s : Ch) : Type 0 where
    last_state : Ch
    reach : Reach lib tasks read func p more last_state
    same_sent : last_state.sent ≡ s.sent
    ended : lib.pull (last_queue lib tasks A last_state.first.out_queue last_state.nodes) ≡ empty

  finish :
      {p : ℕ} {more : List ((A → A) × ℕ)} (fuel : ℕ) (s : Ch)
      → chain_left s < fuel
      → 0 < p
      → Parallel more
      → Reach lib tasks read func p more s
      → (lib.view s.first.in_queue).closed ≡ true
      → Finished p more s
  finish zero s h pos all r c = absurd (omega (arith, h))
  finish (suc fuel) s h pos all r c =
      elim (ended_or_Advances s (Reach-Inv lib tasks read func r) (Reach-RoomyChain pos all r) c) [
        | inl e ↦ record { last_state = s; reach = r; same_sent = refl; ended = e }
        | inr (t, a) ↦
            let d = finish fuel t (omega (arith, a.less, h)) pos all (next r a.step) (a.shut ∙ c) in
            record {
              last_state = d.last_state;
              reach = d.reach;
              same_sent = d.same_sent ∙ a.same_sent;
              ended = d.ended;
            }
      ]

  -- From every state of a chain with a closed input, of stages with room for a result each, the
  -- workers and the consumer can run on, with nothing more sent, until the consumer finds the last
  -- queue closed and drained; and then it has received the results of the functions, one after the
  -- other, on all that was sent, in order.
  pub delivers_through :
      {p : ℕ} {more : List ((A → A) × ℕ)} {s : Chain lib tasks read func}
      → Reach lib tasks read func p more s
      → 0 < p
      → Parallel more
      → (lib.view s.first.in_queue).closed ≡ true
      → (t : Chain lib tasks read func) × Reach lib tasks read func p more t
        × (t.sent ≡ s.sent)
        × (lib.pull (last_queue lib tasks A t.first.out_queue t.nodes) ≡ empty)
        × (t.received ≡ map (λ a. through more (func (read a))) s.sent)
  delivers_through {more = more} {s} r pos all c =
      let d = finish (chain_left s + 1) s (omega arith) pos all r c in
      (
        d.last_state,
        d.reach,
        d.same_sent,
        d.ended,
        ((refines_through lib tasks read func d.reach).1 d.ended).0
            ∙ ap (map (λ a. through more (func (read a)))) d.same_sent,
      )
