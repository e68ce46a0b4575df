-- ===== src/PipelineFifo/EndStage/Steps.antt =====
-- The steps of the worker of the terminal stage, by the place where it stands.
use tmc_examples.Base.{
  ℕ, ◌≤◌, ◌<◌, ◌≡◌, ◌≢◌, refl, sym, ap, ◌∙◌, inl, inr, true, false, List, [], ◌∷◌, ◌++◌, map,
  append_assoc, arith, length, Bool-cases, leb, ◌==◌, ==_iff, lt→ltb,
}
use tmc_examples.Runtime.{Tasks}
use tmc_examples.PipelineFifo.Queue.{
  BoundedQueue, Pulled, item, empty, waiting, rest, pull_item, pull_empty, push_room, pull_cons,
}
use tmc_examples.PipelineFifo.EndStage.{
  Pc, pulling, pushing, testing, draining, finished, worker_at, worker, on_pull_inline, inline_at,
  inline_worker, step, System,
}
use tmc_examples.PipelineFifo.EndStage.Invariant.{InvAt, Inv, Good}
use tmc_examples.PipelineFifo.EndStage.Moves.{
  on_pull-Good, on_push-Good, limit-Good, drained-Good, below-Good,
}

leb→le : (a b : ℕ) → leb a b ≡ true → a ≤ b
leb→le a b h = ground arith

leb-false : (a b : ℕ) → leb a b ≡ false → b < a
leb-false a b h = ground arith

module _ (lib : BoundedQueue) (tasks : Tasks) {Stored Input Effect : Type 0} (read : Stored → Input)
    (consume : Input → Effect) (parallelism : ℕ) where
  module _ (s : System lib tasks read consume parallelism) where
    testing-Good :
        (hs : List (tasks.Handle Effect))
        → (lib.view s.internal_queue).items ≡ hs
        → 0 < parallelism
        → InvAt lib tasks read consume parallelism testing s
        → Good lib tasks read consume parallelism testing s.sent
            (worker_at lib tasks read consume parallelism testing s.stage)
    unfolding worker_at
    testing-Good hs e pos v = elim (Bool-cases (leb parallelism s.active)) [
      | inr few ↦
          rw few
            (below-Good lib tasks read consume parallelism s (leb-false parallelism s.active few) v)
      | inl full ↦ at_limit hs e full
    ]
      where
        at_limit :
            (hs : List (tasks.Handle Effect))
            → (lib.view s.internal_queue).items ≡ hs
            → leb parallelism s.active ≡ true
            → Good lib tasks read consume parallelism testing s.sent
                (worker_at lib tasks read consume parallelism testing s.stage)
        at_limit [] f full =
            absurd (omega (arith, pos, v.count, ap length f, leb→le parallelism s.active full))
        at_limit (h ∷ hs) f full =
            rw (full, pull_cons lib s.internal_queue f)
              (limit-Good lib tasks read consume parallelism s (pull_cons lib s.internal_queue f)
                (omega (arith, v.room.0, leb→le parallelism s.active full)) v)

    draining-Good :
        (hs : List (tasks.Handle Effect))
        → (lib.view s.internal_queue).items ≡ hs
        → s.pc ≡ draining
        → InvAt lib tasks read consume parallelism draining s
        → Good lib tasks read consume parallelism draining s.sent
            (worker_at lib tasks read consume parallelism draining s.stage)
    unfolding worker_at
    draining-Good [] e at_drain v =
        let none_left : s.active ≡ 0 = omega (arith, v.count, ap length e) in
        rw none_left (record {
          order = v.order;
          count = omega (arith, ap length e);
          cap = v.cap;
          opened = v.opened;
          room = refl;
          holds = v.holds;
        })
    draining-Good (h ∷ hs) e at_drain v =
        rw
          (
            lt→ltb 0 s.active (omega (arith, v.count, ap length e)),
            pull_cons lib s.internal_queue e,
          )
          (drained-Good lib tasks read consume parallelism s (pull_cons lib s.internal_queue e) v
            at_drain)

    worker_at-Good :
        (pc : Pc Input)
        → s.pc ≡ pc
        → 0 < parallelism
        → parallelism ≢ 1
        → InvAt lib tasks read consume parallelism pc s
        → Good lib tasks read consume parallelism pc s.sent
            (worker_at lib tasks read consume parallelism pc s.stage)
    unfolding worker_at
    worker_at-Good pulling e pos many v =
        on_pull-Good lib tasks read consume parallelism s (lib.pull s.in_queue) refl many v
    worker_at-Good (pushing d) e pos many v =
        let (q, pushed) =
          push_room lib s.internal_queue (tasks.fork (consume d)) v.opened
            (omega (arith, v.room.0, v.cap, v.count)) in
        rw pushed (on_push-Good lib tasks read consume parallelism s d q pushed v)
    worker_at-Good testing e pos many v = testing-Good (lib.view s.internal_queue).items refl pos v
    worker_at-Good draining e pos many v = draining-Good (lib.view s.internal_queue).items refl e v
    worker_at-Good finished e pos many v = tt

    on_pull_inline-Good :
        (r : Pulled Stored)
        → lib.pull s.in_queue ≡ r
        → parallelism ≡ 1
        → InvAt lib tasks read consume parallelism pulling s
        → Good lib tasks read consume parallelism pulling s.sent
            (on_pull_inline lib tasks read consume parallelism s.stage r)
    unfolding on_pull_inline
    on_pull_inline-Good (item a) e one v = idle (lib.view s.internal_queue).items refl
      where
        consumed :
            (s.awaited ++ consume (read a) ∷ [])
              ++ map (λ (a : Stored). consume (read a)) (rest (lib.view s.in_queue).items)
            ≡ s.awaited ++ map (λ (a : Stored). consume (read a)) (lib.view s.in_queue).items
        consumed =
            append_assoc s.awaited (consume (read a) ∷ [])
              (map (λ (a : Stored). consume (read a)) (rest (lib.view s.in_queue).items))
            ∙ ap (λ xs. s.awaited ++ map (λ (a : Stored). consume (read a)) xs)
                (sym (pull_item lib s.in_queue e))

        idle :
            (hs : List (tasks.Handle Effect))
            → (lib.view s.internal_queue).items ≡ hs
            → Good lib tasks read consume parallelism pulling s.sent
                (on_pull_inline lib tasks read consume parallelism s.stage (item a))
        idle (h ∷ hs) f = absurd (omega (arith, one, v.room, v.count, ap length f))
        idle [] f = record {
          order =
              rw (lib.view-finish_read s.in_queue, f)
                (consumed
                  ∙ ap
                      (λ hs.
                        s.awaited
                        ++ (map tasks.join hs
                            ++ map (λ (a : Stored). consume (read a)) (lib.view s.in_queue).items))
                      (sym f)
                  ∙ v.order);
          count = v.count;
          cap = v.cap;
          opened = v.opened;
          room = v.room;
          holds = tt;
        }
    on_pull_inline-Good empty e one v = record {
      order = v.order;
      count = v.count;
      cap = v.cap;
      opened = v.opened;
      room = omega (arith, one, v.room);
      holds = pull_empty lib s.in_queue e;
    }
    on_pull_inline-Good waiting e one v = tt

    inline_at-Good :
        (pc : Pc Input)
        → s.pc ≡ pc
        → parallelism ≡ 1
        → InvAt lib tasks read consume parallelism pc s
        → Good lib tasks read consume parallelism pc s.sent
            (inline_at lib tasks read consume parallelism pc s.stage)
    unfolding inline_at
    inline_at-Good pulling e one v = on_pull_inline-Good (lib.pull s.in_queue) refl one v
    inline_at-Good (pushing d) e one v = absurd (v.room.1 one)
    inline_at-Good testing e one v = absurd (v.room.1 one)
    inline_at-Good draining e one v = absurd (v.room.1 one)
    inline_at-Good finished e one v = tt

    -- Whichever worker the constructor chose, its step is good.
    pub step-Good :
        0 < parallelism
        → Inv lib tasks read consume parallelism s
        → Good lib tasks read consume parallelism s.pc s.sent
            (step lib tasks read consume parallelism s.stage)
    unfolding step worker inline_worker
    step-Good pos v = elim (Bool-cases (parallelism == 1)) [
      | inl one ↦ rw one (inline_at-Good s.pc refl ((==_iff parallelism 1).0 one) v)
      | inr many ↦ rw many (worker_at-Good s.pc refl pos (λ e. ne e many) v)
    ]
      where
        ne : parallelism ≡ 1 → (parallelism == 1) ≡ false → ⊥
        ne e f = cc (sym ((==_iff parallelism 1).1 e) ∙ f)
