-- ===== src/PipelineFifo/EndStage/Moves.antt =====
-- The moves of the worker of the terminal stage, for the invariant.
use tmc_examples.Base.{
  ℕ, ◌-◌, ◌<◌, ◌≡◌, ◌≢◌, refl, sym, ap, ◌∙◌, subst, false, some, List, [], ◌∷◌, ◌++◌, map, arith,
  length, length-append,
}
use tmc_examples.Runtime.{Tasks}
use tmc_examples.PipelineFifo.Queue.{
  BoundedQueue, Pulled, item, empty, waiting, rest, pull_item, pull_empty, push_some,
}
use tmc_examples.PipelineFifo.Elements.{order_push, order_take}
use tmc_examples.PipelineFifo.EndStage.{
  pulling, pushing, testing, draining, EndStage, on_pull, on_push, await_handle, end_body, System,
}
use tmc_examples.PipelineFifo.EndStage.Invariant.{InvAt, Inv, Good}

module _ (lib : BoundedQueue) (tasks : Tasks) {Stored Input Effect : Type 0} (read : Stored → Input)
    (consume : Input → Effect) (parallelism : ℕ) where
  module _ (s : System lib tasks read consume parallelism) where
    abbrev pub ins : List Stored
    ins = (lib.view s.in_queue).items

    abbrev pub in_flight : List (tasks.Handle Effect)
    in_flight = (lib.view s.internal_queue).items

    pub on_pull-Good :
        (r : Pulled Stored)
        → lib.pull s.in_queue ≡ r
        → parallelism ≢ 1
        → InvAt lib tasks read consume parallelism pulling s
        → Good lib tasks read consume parallelism pulling s.sent
            (on_pull lib tasks read consume parallelism s.stage r)
    unfolding on_pull
    on_pull-Good (item a) e many v = record {
      order = v.order;
      count = v.count;
      cap = v.cap;
      opened = v.opened;
      room = (v.room, many);
      holds = (a, pull_item lib s.in_queue e, refl);
    }
    on_pull-Good empty e many v = record {
      order = v.order;
      count = v.count;
      cap = v.cap;
      opened = v.opened;
      room = (omega (arith, v.room), many);
      holds = pull_empty lib s.in_queue e;
    }
    on_pull-Good waiting e many v = tt

    pub on_push-Good :
        (d : Input) (q : lib.Queue (tasks.Handle Effect))
        → lib.push s.internal_queue (tasks.fork (consume d)) ≡ some q
        → InvAt lib tasks read consume parallelism (pushing d) s
        → Good lib tasks read consume parallelism
            (pushing d)
            s.sent
            (on_push lib tasks read consume parallelism s.stage (some q))
    unfolding on_push
    on_push-Good d q e v = record {
      order = rw view_q forked;
      count =
          rw view_q (omega (arith, v.count, length-append in_flight (tasks.fork (consume d) ∷ [])));
      cap = rw view_q v.cap;
      opened = rw view_q;
      room = (omega (arith, v.room.0), v.room.1);
      holds = (v.holds.0, v.holds.1);
    }
      where
        view_q : lib.view q ≡ record {
          items = in_flight ++ tasks.fork (consume d) ∷ [];
          closed = false;
          capacity = (lib.view s.internal_queue).capacity;
        }
        view_q = (push_some lib s.internal_queue (tasks.fork (consume d)) v.opened e).1

        forked :
            s.awaited
              ++ (map tasks.join (in_flight ++ tasks.fork (consume d) ∷ [])
                  ++ map (λ (a : Stored). consume (read a)) (rest ins))
            ≡ map (λ (a : Stored). consume (read a)) s.sent
        forked =
            order_push tasks.join (λ a. consume (read a)) s.awaited in_flight
              (tasks.fork (consume d)) v.holds.0 (rest ins)
              (tasks.join-fork (consume d) ∙ ap consume (sym v.holds.2))
            ∙ ap
                (λ (xs : List Stored).
                  s.awaited
                  ++ (map tasks.join in_flight ++ map (λ (a : Stored). consume (read a)) xs))
                (sym v.holds.1)
            ∙ v.order

    -- The oldest task is awaited, wherever that is done.
    module _ {h : tasks.Handle Effect} (e : lib.pull s.internal_queue ≡ item h) where
      abbrev pub after : EndStage lib tasks read consume parallelism
      after = await_handle lib tasks read consume parallelism s.stage h

      awaited_order :
          (xs : List Stored)
          → s.awaited ++ (map tasks.join in_flight ++ map (λ (a : Stored). consume (read a)) xs)
            ≡ map (λ (a : Stored). consume (read a)) s.sent
          → (s.awaited ++ tasks.join h ∷ [])
              ++ (map tasks.join (rest in_flight) ++ map (λ (a : Stored). consume (read a)) xs)
            ≡ map (λ (a : Stored). consume (read a)) s.sent
      awaited_order xs o =
          order_take tasks.join (λ a. consume (read a)) s.awaited h (rest in_flight) xs
          ∙ ap
              (λ (hs : List (tasks.Handle Effect)).
                s.awaited ++ (map tasks.join hs ++ map (λ (a : Stored). consume (read a)) xs))
              (sym (pull_item lib s.internal_queue e))
          ∙ o

      popped_count : s.active ≡ length in_flight → s.active - 1 ≡ length (rest in_flight)
      popped_count c = omega (arith, c, ap length (pull_item lib s.internal_queue e))

      -- At the parallelism limit, the oldest task is awaited before the next input is pulled.
      pub limit-Good :
          parallelism ≡ s.active
          → InvAt lib tasks read consume parallelism testing s
          → Inv lib tasks read consume parallelism
              (record s { stage = end_body lib tasks read consume parallelism after })
      unfolding await_handle end_body
      limit-Good full v = record {
        order =
            rw (lib.view-finish_read s.internal_queue, lib.view-finish_read s.in_queue)
              (awaited_order (rest ins) v.order);
        count = rw (lib.view-finish_read s.internal_queue) (popped_count v.count);
        cap = rw (lib.view-finish_read s.internal_queue) v.cap;
        opened = rw (lib.view-finish_read s.internal_queue) v.opened;
        room = omega (arith, full, v.count, ap length (pull_item lib s.internal_queue e));
        holds = tt;
      }

      pub drained-Good :
          InvAt lib tasks read consume parallelism draining s
          → s.pc ≡ draining
          → Inv lib tasks read consume parallelism (record s { stage = after })
      unfolding await_handle
      drained-Good v at_drain =
          subst (λ pc. InvAt lib tasks read consume parallelism pc (record s { stage = after }))
            (sym at_drain)
            (record {
              order = rw (lib.view-finish_read s.internal_queue) (awaited_order ins v.order);
              count = rw (lib.view-finish_read s.internal_queue) (popped_count v.count);
              cap = rw (lib.view-finish_read s.internal_queue) v.cap;
              opened = rw (lib.view-finish_read s.internal_queue) v.opened;
              room = (omega (arith, v.room.0), v.room.1);
              holds = v.holds;
            })

    -- Below the limit the loop goes on at once.
    pub below-Good :
        s.active < parallelism
        → InvAt lib tasks read consume parallelism testing s
        → Inv lib tasks read consume parallelism
            (record s { stage = end_body lib tasks read consume parallelism s.stage })
    unfolding end_body
    below-Good few v = record {
      order = rw (lib.view-finish_read s.in_queue) v.order;
      count = v.count;
      cap = v.cap;
      opened = v.opened;
      room = few;
      holds = tt;
    }
