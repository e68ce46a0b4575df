-- ===== src/PipelineFifo/Stage/Effect.antt =====
-- What a step of a worker does to the two queues of its stage.
use mathlib.Core.Option.{some-injective}
use tmc_examples.Base.{
  subst, ◌≡◌, refl, sym, ap, ◌∙◌, true, false, Option, none, some, [], ◌∷◌, ◌++◌,
}
use tmc_examples.Runtime.{Tasks}
use tmc_examples.PipelineFifo.Queue.{
  BoundedQueue, View, Pulled, item, empty, waiting, rest, pull_item, pull_empty, push_some,
}
use tmc_examples.PipelineFifo.Stage.{
  Pc, pulling, pushing, finished, Stage, on_pull, on_push, worker_at, worker,
}
use tmc_examples.PipelineFifo.Stage.Invariant.{Status}

module _ (lib : BoundedQueue) (tasks : Tasks) {Stored Input Output : Type 0} (read : Stored → Input)
    (func : Input → Output) where
  -- The queues stay as they are, or the output is closed, or the oldest input has become the newest
  -- result.
  pub data Effect (vi vi' : View Stored) (vo vo' : View (tasks.Handle Output)) : Type 0 where
    kept : vi' ≡ vi → vo' ≡ vo → Effect vi vi' vo vo'
    closing : vi' ≡ vi → vo' ≡ record vo { closed = true } → Effect vi vi' vo vo'
    passing :
        (a : Stored)
        → vi.items ≡ a ∷ rest vi.items
        → vi' ≡ record vi { items = rest vi.items }
        → vo.closed ≡ false
        → vo' ≡ record vo { items = vo.items ++ tasks.fork (func (read a)) ∷ []; closed = false }
        → Effect vi vi' vo vo'

  abbrev Outcome : Stage lib tasks read func → Stage lib tasks read func → Type 0
  Outcome s t =
      Effect (lib.view s.in_queue) (lib.view t.in_queue) (lib.view s.out_queue)
        (lib.view t.out_queue)
      × Status lib tasks read func t.pc (lib.view t.in_queue) (lib.view t.out_queue)

  on_pull-Effect :
      (s : Stage lib tasks read func) (r : Pulled Stored)
      → lib.pull s.in_queue ≡ r
      → (lib.view s.out_queue).closed ≡ false
      → {t : Stage lib tasks read func} → on_pull lib tasks read func s r ≡ some t
      → Outcome s t
  unfolding on_pull
  on_pull-Effect s (item a) e opened h =
      subst (Outcome s) (some-injective _ _ h)
        (kept refl refl, (opened, (a, pull_item lib s.in_queue e, refl)))
  on_pull-Effect s empty e opened h =
      let (none_left, closed) = pull_empty lib s.in_queue e in
      subst (Outcome s) (some-injective _ _ h) (
        closing refl (lib.view-close s.out_queue),
        (ap (λ v. v.closed) (lib.view-close s.out_queue), none_left, closed),
      )
  on_pull-Effect s waiting e opened h = cc

  on_push-Effect :
      (s : Stage lib tasks read func) (d : Input) (r : Option (lib.Queue (tasks.Handle Output)))
      → lib.push s.out_queue (tasks.fork (func d)) ≡ r
      → (lib.view s.out_queue).closed ≡ false
      → (a : Stored) → (lib.view s.in_queue).items ≡ a ∷ rest (lib.view s.in_queue).items
      → read a ≡ d
      → {t : Stage lib tasks read func} → on_push lib tasks read func s r ≡ some t
      → Outcome s t
  unfolding on_push
  on_push-Effect s d none e opened a held ra h = cc
  on_push-Effect s d (some q) e opened a held ra h =
      let (room, pushed) = push_some lib s.out_queue (tasks.fork (func d)) opened e in
      subst (Outcome s) (some-injective _ _ h) (
        passing a held (lib.view-finish_read s.in_queue) opened (
            pushed
            ∙ ap
                (λ x. record (lib.view s.out_queue) {
                  items = (lib.view s.out_queue).items ++ tasks.fork (func x) ∷ [];
                  closed = false;
                })
                (sym ra)),
        ap (λ v. v.closed) pushed,
      )

  worker_at-Effect :
      (s : Stage lib tasks read func) (pc : Pc Input)
      → Status lib tasks read func pc (lib.view s.in_queue) (lib.view s.out_queue)
      → {t : Stage lib tasks read func} → worker_at lib tasks read func pc s ≡ some t
      → Outcome s t
  unfolding worker_at
  worker_at-Effect s pulling st h = on_pull-Effect s (lib.pull s.in_queue) refl st h
  worker_at-Effect s (pushing d) (opened, (a, held, ra)) h =
      on_push-Effect s d _ refl opened a held ra h
  worker_at-Effect s finished st h = cc

  pub worker-Effect :
      (s : Stage lib tasks read func)
      → Status lib tasks read func s.pc (lib.view s.in_queue) (lib.view s.out_queue)
      → {t : Stage lib tasks read func} → worker lib tasks read func s ≡ some t
      → Outcome s t
  unfolding worker
  worker-Effect s st h = worker_at-Effect s s.pc st h
