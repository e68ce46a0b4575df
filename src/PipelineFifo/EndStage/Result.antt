-- ===== src/PipelineFifo/EndStage/Result.antt =====
-- About the order in which the terminal stage consumes, the number of its tasks, and its waits.
use tmc_examples.Base.{
  ℕ, ◌≤◌, ◌<◌, ◌≡◌, ◌≢◌, refl, sym, ap, ◌∙◌, subst, true, false, List, [], ◌∷◌, ◌++◌, map,
  append-nil, arith, length,
}
use tmc_examples.Runtime.{Tasks}
use tmc_examples.PipelineFifo.Elements.{order_send, rest_append, rest_of_append}
use tmc_examples.PipelineFifo.Queue.{BoundedQueue, View, push_some}
use tmc_examples.PipelineFifo.EndStage.{
  Pc, pulling, pushing, testing, draining, finished, Outcome, suspended, fault, returned, EndStage,
  make_worker, step, System, Step, work, send, close_input, start, Reach, here, next,
}
use tmc_examples.PipelineFifo.EndStage.Invariant.{InvAt, Inv, Good, Holds, to_fork}
use tmc_examples.PipelineFifo.EndStage.Steps.{step-Good}

module _ (lib : BoundedQueue) (tasks : Tasks) {Stored Input Effect : Type 0} (read : Stored → Input)
    (consume : Input → Effect) (parallelism : ℕ) where
  abbrev Sys : Type 0
  Sys = System lib tasks read consume parallelism

  send-Holds :
      (pc : Pc Input) (v : View Stored) (a : Stored)
      → v.closed ≡ false
      → Holds lib tasks read consume parallelism pc v
      → Holds lib tasks read consume parallelism pc
          (record v { items = v.items ++ a ∷ []; closed = false })
  send-Holds pulling v a o h = tt
  send-Holds (pushing d) v a o h = (h.0, rest_append v.items (a ∷ []) h.1, h.2)
  send-Holds testing v a o h = (h.0, rest_append v.items (a ∷ []) h.1)
  send-Holds draining v a o h = cc
  send-Holds finished v a o h = cc

  close-Holds :
      (pc : Pc Input) (v : View Stored)
      → Holds lib tasks read consume parallelism pc v
      → Holds lib tasks read consume parallelism pc (record v { closed = true })
  close-Holds pulling v h = tt
  close-Holds (pushing d) v h = h
  close-Holds testing v h = h
  close-Holds draining v h = (h.0, refl)
  close-Holds finished v h = (h.0, refl)

  -- A new element goes behind those that have not been forked.
  to_fork-append :
      (pc : Pc Input) (v : View Stored) (a : Stored)
      → Holds lib tasks read consume parallelism pc v
      → to_fork lib tasks read consume parallelism pc (v.items ++ a ∷ [])
        ≡ to_fork lib tasks read consume parallelism pc v.items ++ a ∷ []
  to_fork-append pulling v a h = refl
  to_fork-append (pushing d) v a h = refl
  to_fork-append testing v a h = rest_of_append v.items (a ∷ []) h.1
  to_fork-append draining v a h = refl
  to_fork-append finished v a h = refl

  Step-Inv :
      {s t : Sys}
      → 0 < parallelism
      → Step lib tasks read consume parallelism s t
      → Inv lib tasks read consume parallelism s
      → Inv lib tasks read consume parallelism t
  Step-Inv {s} pos (work h) v =
      subst (Good lib tasks read consume parallelism s.pc s.sent) h
        (step-Good lib tasks read consume parallelism s pos v)
  Step-Inv {s} pos (send a {q} o h) v =
      let view_q = (push_some lib s.in_queue a o h).1 in
      record {
        order =
            rw (view_q, to_fork-append s.pc (lib.view s.in_queue) a v.holds)
              (order_send tasks.join (λ b. consume (read b)) s.awaited
                (lib.view s.internal_queue).items
                (to_fork lib tasks read consume parallelism s.pc (lib.view s.in_queue).items) a
                s.sent v.order);
        count = v.count;
        cap = v.cap;
        opened = v.opened;
        room = v.room;
        holds = rw view_q (send-Holds s.pc (lib.view s.in_queue) a o v.holds);
      }
  Step-Inv {s} pos close_input v = record {
    order = rw (lib.view-close s.in_queue) v.order;
    count = v.count;
    cap = v.cap;
    opened = v.opened;
    room = v.room;
    holds = rw (lib.view-close s.in_queue) (close-Holds s.pc (lib.view s.in_queue) v.holds);
  }

  start-Inv :
      (n : ℕ)
      → 0 < parallelism
      → Inv lib tasks read consume parallelism (start lib tasks read consume parallelism n)
  unfolding start make_worker
  start-Inv n pos = record {
    order = rw (lib.view-make {A = tasks.Handle Effect} parallelism, lib.view-make {A = Stored} n);
    count = rw (lib.view-make {A = tasks.Handle Effect} parallelism);
    cap = rw (lib.view-make {A = tasks.Handle Effect} parallelism);
    opened = rw (lib.view-make {A = tasks.Handle Effect} parallelism);
    room = pos;
    holds = tt;
  }

  Reach-Inv :
      {n : ℕ} {s : Sys}
      → 0 < parallelism
      → Reach lib tasks read consume parallelism n s
      → Inv lib tasks read consume parallelism s
  Reach-Inv {n} pos here = start-Inv n pos
  Reach-Inv pos (next r st) = Step-Inv pos st (Reach-Inv pos r)

  -- Which places a step that is suspended or faulty can be at.
  suspended-Good :
      (pc : Pc Input) (sent : List Stored)
      → Good lib tasks read consume parallelism pc sent suspended
      → pc ≡ pulling
  suspended-Good pulling sent g = refl
  suspended-Good (pushing d) sent g = absurd g
  suspended-Good testing sent g = absurd g
  suspended-Good draining sent g = absurd g
  suspended-Good finished sent g = absurd g

  fault-Good :
      (pc : Pc Input) (sent : List Stored) → ¬ Good lib tasks read consume parallelism pc sent fault
  fault-Good pulling sent g = g
  fault-Good (pushing d) sent g = g
  fault-Good testing sent g = g
  fault-Good draining sent g = g
  fault-Good finished sent g = g

  returned-Good :
      (pc : Pc Input) (sent : List Stored)
      → Good lib tasks read consume parallelism pc sent returned
      → pc ≡ finished
  returned-Good pulling sent g = absurd g
  returned-Good (pushing d) sent g = absurd g
  returned-Good testing sent g = absurd g
  returned-Good draining sent g = absurd g
  returned-Good finished sent g = refl

  -- With `parallelism` at least 1, of the operations on queues only the pull from upstream suspends
  -- the terminal worker: its push to the internal queue finds room, and its pull from there an
  -- element. That it awaits a task is no suspension here. It never uses the value of an empty scope,
  -- and it has returned only at the end of its loops.
  pub waits_upstream_only :
      {n : ℕ} {s : System lib tasks read consume parallelism}
      → 0 < parallelism
      → Reach lib tasks read consume parallelism n s
      → (step lib tasks read consume parallelism s.stage ≡ suspended → s.pc ≡ pulling)
        × (step lib tasks read consume parallelism s.stage ≢ fault)
        × (step lib tasks read consume parallelism s.stage ≡ returned → s.pc ≡ finished)
  waits_upstream_only {s = s} pos r = (
    λ e. suspended-Good s.pc s.sent (subst at_place e good),
    λ e. fault-Good s.pc s.sent (subst at_place e good),
    λ e. returned-Good s.pc s.sent (subst at_place e good),
  )
    where
      at_place : Outcome (EndStage lib tasks read consume parallelism) → Type 0
      at_place = Good lib tasks read consume parallelism s.pc s.sent

      good : at_place (step lib tasks read consume parallelism s.stage)
      good = step-Good lib tasks read consume parallelism s pos (Reach-Inv pos r)

  finished_Inv :
      (pc : Pc Input) (s : System lib tasks read consume parallelism)
      → pc ≡ finished
      → InvAt lib tasks read consume parallelism pc s
      → (s.awaited ≡ map (λ a. consume (read a)) s.sent) × ((lib.view s.in_queue).closed ≡ true)
  finished_Inv pulling s e v = cc
  finished_Inv (pushing d) s e v = cc
  finished_Inv testing s e v = cc
  finished_Inv draining s e v = cc
  finished_Inv finished s e v = (all (lib.view s.internal_queue).items refl, v.holds.1)
    where
      all :
          (hs : List (tasks.Handle Effect))
          → (lib.view s.internal_queue).items ≡ hs
          → s.awaited ≡ map (λ a. consume (read a)) s.sent
      all (h ∷ hs) f = absurd (omega (arith, v.count, v.room, ap length f))
      all [] f =
          sym (append-nil s.awaited)
          ∙ ap (λ (hs : List (tasks.Handle Effect)). s.awaited ++ (map tasks.join hs ++ [])) (sym f)
          ∙ ap
              (λ (xs : List Stored).
                s.awaited
                ++ (map tasks.join (lib.view s.internal_queue).items
                    ++ map (λ b. consume (read b)) xs))
              (sym v.holds.0)
          ∙ v.order

  -- When the terminal worker is past its loops, each element that was ever sent has been consumed
  -- and awaited, once and in order, and upstream had closed the queue.
  pub consumes_all :
      {n : ℕ} {s : System lib tasks read consume parallelism}
      → 0 < parallelism
      → Reach lib tasks read consume parallelism n s
      → s.pc ≡ finished
      → (s.awaited ≡ map (λ a. consume (read a)) s.sent) × ((lib.view s.in_queue).closed ≡ true)
  consumes_all {s = s} pos r e = finished_Inv s.pc s e (Reach-Inv pos r)

  active_le :
      (pc : Pc Input) (s : System lib tasks read consume parallelism)
      → InvAt lib tasks read consume parallelism pc s
      → s.active ≤ parallelism
  active_le pulling s v = omega (arith, v.room)
  active_le (pushing d) s v = omega (arith, v.room.0)
  active_le testing s v = v.room.0
  active_le draining s v = v.room.0
  active_le finished s v = omega (arith, v.room)

  -- With `parallelism` at least 1, the counter `active` of the terminal worker is at all times the
  -- number of `consume` tasks in its internal queue, and at most `parallelism`.
  pub active-eq-length :
      {n : ℕ} {s : System lib tasks read consume parallelism}
      → 0 < parallelism
      → Reach lib tasks read consume parallelism n s
      → (s.active ≡ length (lib.view s.internal_queue).items) × (s.active ≤ parallelism)
  active-eq-length {s = s} pos r = ((Reach-Inv pos r).count, active_le s.pc s (Reach-Inv pos r))
