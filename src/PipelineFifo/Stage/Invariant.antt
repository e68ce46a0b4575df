-- ===== src/PipelineFifo/Stage/Invariant.antt =====
-- The invariant of a stage of `PipelineFifo.Stage`, on the order of the elements and on when its output
-- queue is closed.
use tmc_examples.Base.{
  subst, ℕ, ◌≤◌, ◌<◌, ◌≡◌, refl, sym, ap, ◌∙◌, true, false, Option, none, some, List, [], ◌∷◌, ◌++◌,
  map, arith, length, length-append,
}
use mathlib.Core.Option.{some-injective}
use tmc_examples.Runtime.{Tasks}
use tmc_examples.PipelineFifo.Queue.{
  BoundedQueue, View, Pulled, item, empty, waiting, rest, pull_item, pull_empty, push_some,
}
use tmc_examples.PipelineFifo.Elements.{order_push, order_take, order_send, rest_append}
use tmc_examples.PipelineFifo.Stage.{
  Pc, pulling, pushing, finished, Stage, on_pull, on_push, worker_at, worker, make_stage, System,
  Step, work, send, close_input, take, start, Reach, here, next,
}

module _ (lib : BoundedQueue) (tasks : Tasks) {Stored Input Output : Type 0} (read : Stored → Input)
    (func : Input → Output) where
  -- What the worker's place says of its two queues.
  abbrev pub Status : Pc Input → View Stored → View (tasks.Handle Output) → Type 0
  Status pulling vi vo = vo.closed ≡ false
  Status (pushing d) vi vo =
      (vo.closed ≡ false) × ((a : Stored) × (vi.items ≡ a ∷ rest vi.items) × (read a ≡ d))
  Status finished vi vo = (vo.closed ≡ true) × (vi.items ≡ []) × (vi.closed ≡ true)

  abbrev pub process : Stored → Output
  process a = func (read a)

  pub record Inv (p : ℕ) (s : System lib tasks read func) : Type 0 where
    pub order :
        s.received
          ++ (map tasks.join (lib.view s.out_queue).items
              ++ map process (lib.view s.in_queue).items)
        ≡ map process s.sent
    pub bounded : length (lib.view s.out_queue).items ≤ p
    pub cap : (lib.view s.out_queue).capacity ≡ p
    pub status : Status s.pc (lib.view s.in_queue) (lib.view s.out_queue)

  start-Inv : (n p : ℕ) → Inv p (start lib tasks read func n p)
  unfolding start make_stage
  start-Inv n p = record {
    order = rw (lib.view-make {A = Stored} n, lib.view-make {A = tasks.Handle Output} p);
    bounded = rw (lib.view-make {A = tasks.Handle Output} p) (omega arith);
    cap = rw (lib.view-make {A = tasks.Handle Output} p);
    status = rw (lib.view-make {A = tasks.Handle Output} p);
  }

  on_pull-Inv :
      (p : ℕ) (s : System lib tasks read func) (r : Pulled Stored)
      → lib.pull s.in_queue ≡ r
      → (lib.view s.out_queue).closed ≡ false
      → {t : Stage lib tasks read func} → Inv p s
      → on_pull lib tasks read func s.stage r ≡ some t
      → Inv p (record s { stage = t })
  unfolding on_pull
  on_pull-Inv p s (item a) e opened v h =
      subst (λ t. Inv p (record s { stage = t })) (some-injective _ _ h)
        (record {
          order = v.order;
          bounded = v.bounded;
          cap = v.cap;
          status = (opened, (a, pull_item lib s.in_queue e, refl));
        })
  on_pull-Inv p s empty e opened v h =
      subst (λ t. Inv p (record s { stage = t })) (some-injective _ _ h)
        (record {
          order = rw (lib.view-close s.out_queue) v.order;
          bounded = rw (lib.view-close s.out_queue) v.bounded;
          cap = rw (lib.view-close s.out_queue) v.cap;
          status =
              rw (lib.view-close s.out_queue) (
                let (none_left, closed) = pull_empty lib s.in_queue e in (refl, none_left, closed));
        })
  on_pull-Inv p s waiting e opened v h = cc

  on_push-Inv :
      (p : ℕ) (s : System lib tasks read func) (d : Input)
      (r : Option (lib.Queue (tasks.Handle Output)))
      → lib.push s.out_queue (tasks.fork (func d)) ≡ r
      → (lib.view s.out_queue).closed ≡ false
      → (a : Stored) → (lib.view s.in_queue).items ≡ a ∷ rest (lib.view s.in_queue).items
      → read a ≡ d
      → {t : Stage lib tasks read func} → Inv p s
      → on_push lib tasks read func s.stage r ≡ some t
      → Inv p (record s { stage = t })
  unfolding on_push
  on_push-Inv p s d none e opened a held ra v h = cc
  on_push-Inv p s d (some q) e opened a held ra v h =
      subst (λ t. Inv p (record s { stage = t })) (some-injective _ _ h)
        (record {
          order = rw (pushed.1, lib.view-finish_read s.in_queue) moved;
          bounded = rw pushed.1 (
              omega (
                arith,
                pushed.0,
                v.cap,
                length-append (lib.view s.out_queue).items (tasks.fork (func d) ∷ []),
              ));
          cap = rw pushed.1 v.cap;
          status = rw pushed.1;
        })
    where
      pushed :
          (length (lib.view s.out_queue).items < (lib.view s.out_queue).capacity)
          × (lib.view q ≡ record {
            items = (lib.view s.out_queue).items ++ tasks.fork (func d) ∷ [];
            closed = false;
            capacity = (lib.view s.out_queue).capacity;
          })
      pushed = push_some lib s.out_queue (tasks.fork (func d)) opened e

      outs : List (tasks.Handle Output)
      outs = (lib.view s.out_queue).items

      moved :
          s.received
            ++ (map tasks.join (outs ++ tasks.fork (func d) ∷ [])
                ++ map process (rest (lib.view s.in_queue).items))
          ≡ map process s.sent
      moved =
          order_push tasks.join process s.received outs (tasks.fork (func d)) a
            (rest (lib.view s.in_queue).items) (tasks.join-fork (func d) ∙ ap func (sym ra))
          ∙ ap (λ xs. s.received ++ (map tasks.join outs ++ map process xs)) (sym held)
          ∙ v.order

  worker_at-Inv :
      (p : ℕ) (s : System lib tasks read func) (pc : Pc Input)
      → Status pc (lib.view s.in_queue) (lib.view s.out_queue)
      → {t : Stage lib tasks read func} → Inv p s
      → worker_at lib tasks read func pc s.stage ≡ some t
      → Inv p (record s { stage = t })
  unfolding worker_at
  worker_at-Inv p s pulling st v h = on_pull-Inv p s (lib.pull s.in_queue) refl st v h
  worker_at-Inv p s (pushing d) (opened, (a, held, ra)) v h =
      on_push-Inv p s d _ refl opened a held ra v h
  worker_at-Inv p s finished st v h = cc

  pub send-Status :
      (pc : Pc Input) (vi : View Stored) (vo : View (tasks.Handle Output)) (a : Stored)
      → vi.closed ≡ false
      → Status pc vi vo
      → Status pc (record vi { items = vi.items ++ a ∷ []; closed = false }) vo
  send-Status pulling vi vo a o st = st
  send-Status (pushing d) vi vo a o (c, (b, held, rb)) =
      (c, (b, rest_append vi.items (a ∷ []) held, rb))
  send-Status finished vi vo a o st = cc

  pub close-Status :
      (pc : Pc Input) (vi : View Stored) (vo : View (tasks.Handle Output))
      → Status pc vi vo
      → Status pc (record vi { closed = true }) vo
  close-Status pulling vi vo st = st
  close-Status (pushing d) vi vo st = st
  close-Status finished vi vo st = (st.0, st.1, refl)

  pub take-Status :
      (pc : Pc Input) (vi : View Stored) (vo : View (tasks.Handle Output))
      → Status pc vi vo
      → Status pc vi (record vo { items = rest vo.items })
  take-Status pulling vi vo st = st
  take-Status (pushing d) vi vo st = st
  take-Status finished vi vo st = st

  -- Every step of the stage, its driver and its consumer keeps the invariant.
  pub Step-Inv :
      (p : ℕ) {s t : System lib tasks read func} → Step lib tasks read func s t → Inv p s → Inv p t
  unfolding worker
  Step-Inv p {s} (work h) v = worker_at-Inv p s s.pc v.status v h
  Step-Inv p {s} (send a {q} o h) v =
      let view_q = (push_some lib s.in_queue a o h).1 in
      record {
        order = rw view_q (
            order_send tasks.join process s.received (lib.view s.out_queue).items
              (lib.view s.in_queue).items a s.sent v.order);
        bounded = v.bounded;
        cap = v.cap;
        status =
            rw view_q (send-Status s.pc (lib.view s.in_queue) (lib.view s.out_queue) a o v.status);
      }
  Step-Inv p {s} close_input v = record {
    order = rw (lib.view-close s.in_queue) v.order;
    bounded = v.bounded;
    cap = v.cap;
    status =
        rw (lib.view-close s.in_queue)
          (close-Status s.pc (lib.view s.in_queue) (lib.view s.out_queue) v.status);
  }
  Step-Inv p {s} (take {h} e) v =
      let out = lib.view s.out_queue in
      let popped = pull_item lib s.out_queue e in
      record {
        order = rw (lib.view-finish_read s.out_queue) (
            order_take tasks.join process s.received h (rest out.items) (lib.view s.in_queue).items
            ∙ ap
                (λ xs. s.received ++ (map tasks.join xs ++ map process (lib.view s.in_queue).items))
                (sym popped)
            ∙ v.order);
        bounded =
            rw (lib.view-finish_read s.out_queue) (omega (arith, ap length popped, v.bounded));
        cap = rw (lib.view-finish_read s.out_queue) v.cap;
        status =
            rw (lib.view-finish_read s.out_queue)
              (take-Status s.pc (lib.view s.in_queue) out v.status);
      }

  pub Reach-Inv :
      {n p : ℕ} {s : System lib tasks read func} → Reach lib tasks read func n p s → Inv p s
  Reach-Inv {n} {p} here = start-Inv n p
  Reach-Inv {p = p} (next r st) = Step-Inv p st (Reach-Inv r)
