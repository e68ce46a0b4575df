-- ===== src/PipelineFifo/Stage/Progress.antt =====
-- About progress: the steps that a stage with a closed input can make, and where they lead.
use mathlib.Core.Bool.{false≢true}
use mathlib.Core.Path.{ap₂}
use tmc_examples.Base.{
  ℕ, zero, suc, ◌+◌, ◌*◌, ◌≤◌, ◌<◌, ◌≡◌, refl, sym, ap, ◌∙◌, ◌⊎◌, inl, inr, true, false, Option,
  none, some, List, [], ◌∷◌, map, arith, length, length-append,
}
use tmc_examples.Runtime.{Tasks}
use tmc_examples.PipelineFifo.Queue.{
  BoundedQueue, Pulled, item, empty, waiting, rest, pull_waiting, push_some, push_none, pull_cons,
  pull_view,
}
use tmc_examples.PipelineFifo.Stage.{
  Pc, pulling, pushing, finished, on_pull, on_push, worker_at, worker, System, Step, work, take,
  Reach, next,
}
use tmc_examples.PipelineFifo.Stage.Invariant.{Reach-Inv, Status}
use tmc_examples.PipelineFifo.Stage.Order.{complete}

module _ (lib : BoundedQueue) (tasks : Tasks) {Stored Input Output : Type 0} (read : Stored → Input)
    (func : Input → Output) where
  abbrev weight : Pc Input → ℕ
  weight pulling = 1
  weight (pushing d) = 0
  weight finished = 0

  -- What the worker and the consumer still have to do.
  abbrev pub work_left : System lib tasks read func → ℕ
  work_left s =
      3 * length (lib.view s.in_queue).items + length (lib.view s.out_queue).items + weight s.pc

  -- A step of the worker or of the consumer: it sends nothing, and leaves less to do.
  pub record Advance (s t : System lib tasks read func) : Type 0 where
    pub step : Step lib tasks read func s t
    pub same : t.sent ≡ s.sent
    pub shut : (lib.view t.in_queue).closed ≡ (lib.view s.in_queue).closed
    pub less : work_left t < work_left s

  abbrev CanAdvance : System lib tasks read func → Type 0
  CanAdvance s = (t : System lib tasks read func) × Advance s t

  module _ (s : System lib tasks read func) where
    -- The consumer takes a result when there is one.
    take_Advance :
        {h : tasks.Handle Output} {hs : List (tasks.Handle Output)}
        → (lib.view s.out_queue).items ≡ h ∷ hs
        → CanAdvance s
    take_Advance e = (
      _,
      record {
        step = take (pull_cons lib s.out_queue e);
        same = refl;
        shut = refl;
        less = rw (lib.view-finish_read s.out_queue, e) (omega arith);
      },
    )

    worker_pulling :
        s.pc ≡ pulling
        → worker lib tasks read func s.stage
          ≡ on_pull lib tasks read func s.stage (lib.pull s.in_queue)
    unfolding worker worker_at
    worker_pulling e = ap (λ pc. worker_at lib tasks read func pc s.stage) e

    worker_pushing :
        {d : Input}
        → s.pc ≡ pushing d
        → worker lib tasks read func s.stage
          ≡ on_push lib tasks read func s.stage (lib.push s.out_queue (tasks.fork (func d)))
    unfolding worker worker_at
    worker_pushing e = ap (λ pc. worker_at lib tasks read func pc s.stage) e

    pull_Advance :
        (r : Pulled Stored)
        → lib.pull s.in_queue ≡ r
        → s.pc ≡ pulling
        → (lib.view s.in_queue).closed ≡ true
        → CanAdvance s
    unfolding on_pull
    pull_Advance (item a) e at_pull c = (
      _,
      record {
        step = work (worker_pulling at_pull ∙ ap (on_pull lib tasks read func s.stage) e);
        same = refl;
        shut = refl;
        less = omega (arith, ap weight at_pull);
      },
    )
    pull_Advance empty e at_pull c = (
      _,
      record {
        step = work (worker_pulling at_pull ∙ ap (on_pull lib tasks read func s.stage) e);
        same = refl;
        shut = refl;
        less = rw (lib.view-close s.out_queue) (omega (arith, ap weight at_pull));
      },
    )
    pull_Advance waiting e at_pull c =
        let (none_left, opened) = pull_waiting lib s.in_queue e in
        absurd (false≢true (sym opened ∙ c))

    push_Advance :
        {d : Input} (r : Option (lib.Queue (tasks.Handle Output)))
        → lib.push s.out_queue (tasks.fork (func d)) ≡ r
        → s.pc ≡ pushing d
        → (lib.view s.out_queue).closed ≡ false
        → 0 < (lib.view s.out_queue).capacity
        → {a : Stored} → (lib.view s.in_queue).items ≡ a ∷ rest (lib.view s.in_queue).items
        → CanAdvance s
    unfolding on_push
    push_Advance {d} none e at_push opened pos held = full (lib.view s.out_queue).items refl
      where
        stuck : (lib.view s.out_queue).capacity ≤ length (lib.view s.out_queue).items
        stuck = push_none lib s.out_queue (tasks.fork (func d)) opened e

        full :
            (outs : List (tasks.Handle Output)) → (lib.view s.out_queue).items ≡ outs → CanAdvance s
        full [] f = absurd (omega (arith, stuck, pos, ap length f))
        full (h ∷ hs) f = take_Advance f
    push_Advance {d} (some q) e at_push opened pos held = (
      _,
      record {
        step = work (worker_pushing at_push ∙ ap (on_push lib tasks read func s.stage) e);
        same = refl;
        shut = rw (lib.view-finish_read s.in_queue);
        less =
            rw
              (
                lib.view-finish_read s.in_queue,
                (push_some lib s.out_queue (tasks.fork (func d)) opened e).1,
              )
              (omega (
                arith,
                ap weight at_push,
                ap length held,
                length-append (lib.view s.out_queue).items (tasks.fork (func d) ∷ []),
              ));
      },
    )

    finished_Advance :
        (outs : List (tasks.Handle Output))
        → (lib.view s.out_queue).items ≡ outs
        → (lib.view s.out_queue).closed ≡ true
        → (lib.pull s.out_queue ≡ empty) ⊎ CanAdvance s
    finished_Advance [] e c = inl (lib.pull_lem s.out_queue ∙ ap₂ pull_view e c)
    finished_Advance (h ∷ hs) e c = inr (take_Advance e)

    advance_at :
        (pc : Pc Input)
        → s.pc ≡ pc
        → Status lib tasks read func pc (lib.view s.in_queue) (lib.view s.out_queue)
        → (lib.view s.in_queue).closed ≡ true
        → 0 < (lib.view s.out_queue).capacity
        → (lib.pull s.out_queue ≡ empty) ⊎ CanAdvance s
    advance_at pulling e st c pos = inr (pull_Advance (lib.pull s.in_queue) refl e c)
    advance_at (pushing d) e (opened, (a, held, ra)) c pos =
        inr (push_Advance _ refl e opened pos held)
    advance_at finished e st c pos = finished_Advance (lib.view s.out_queue).items refl st.0

  -- With room for a task and a closed input, a stage whose consumer does not yet see the end can
  -- make a step that leaves less to do: worker and consumer cannot block one another.
  pub no_deadlock :
      {n p : ℕ} {s : System lib tasks read func}
      → Reach lib tasks read func n p s
      → 0 < p
      → (lib.view s.in_queue).closed ≡ true
      → (lib.pull s.out_queue ≡ empty) ⊎ CanAdvance s
  no_deadlock {s = s} r pos c =
      let v = Reach-Inv lib tasks read func r in
      advance_at s s.pc refl v.status c (omega (arith, v.cap))

  -- A run to the end.
  record Drained (n p : ℕ) (s : System lib tasks read func) : Type 0 where
    last : System lib tasks read func
    reach : Reach lib tasks read func n p last
    same : last.sent ≡ s.sent
    ended : lib.pull last.out_queue ≡ empty

  drain :
      {n p : ℕ} (fuel : ℕ) (s : System lib tasks read func)
      → work_left s < fuel
      → Reach lib tasks read func n p s
      → 0 < p
      → (lib.view s.in_queue).closed ≡ true
      → Drained n p s
  drain zero s h r pos c = absurd (omega arith)
  drain (suc fuel) s h r pos c = elim (no_deadlock r pos c) [
    | inl e ↦ record { last = s; reach = r; same = refl; ended = e }
    | inr (t, a) ↦
        let d = drain fuel t (omega (arith, a.less)) (next r a.step) pos (a.shut ∙ c) in
        record { last = d.last; reach = d.reach; same = d.same ∙ a.same; ended = d.ended }
  ]

  -- From every state with a closed input, worker and consumer can run on, with nothing more sent,
  -- until the consumer has received the results of all that was sent, in order.
  pub delivers_all :
      {n p : ℕ} {s : System lib tasks read func}
      → Reach lib tasks read func n p s
      → 0 < p
      → (lib.view s.in_queue).closed ≡ true
      → (t : System lib tasks read func) × Reach lib tasks read func n p t
        × (lib.pull t.out_queue ≡ empty)
        × (t.received ≡ map (λ a. func (read a)) s.sent)
  delivers_all {s = s} r pos c =
      let d = drain (work_left s + 1) s (omega arith) r pos c in
      (
        d.last,
        d.reach,
        d.ended,
        (complete lib tasks read func d.reach d.ended).0 ∙ ap (map (λ a. func (read a))) d.same,
      )
