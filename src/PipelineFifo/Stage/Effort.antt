-- ===== src/PipelineFifo/Stage/Effort.antt =====
-- The steps that the worker of a stage has left, and where it can make none.
use tmc_examples.Base.{
  total, total-at, ◌≤◌, ◌⊎◌, inl, inr, length, ℕ, ◌+◌, ◌<◌, ◌≡◌, refl, ap, subst, arith, true,
  false, Option, none, some, [], ◌∷◌,
}
use mathlib.Core.Option.{some-injective}
use tmc_examples.Runtime.{Tasks}
use tmc_examples.PipelineFifo.Queue.{
  BoundedQueue, View, Pulled, item, empty, waiting, rest, pull_waiting, push_none, push_some,
}
use tmc_examples.PipelineFifo.Stage.{
  Pc, pulling, pushing, finished, Stage, on_pull, on_push, worker_at, worker,
}
use tmc_examples.PipelineFifo.Stage.Invariant.{Status}

abbrev pub to_pull : {A : Type 0} → Pc A → ℕ
to_pull pulling = 1
to_pull pc = 0

module _ (lib : BoundedQueue) (tasks : Tasks) {Stored Input Output : Type 0} (read : Stored → Input)
    (func : Input → Output) where
  -- Of a stage, if a result takes `c` steps behind it.
  abbrev pub stage_left : ℕ → Stage lib tasks read func → ℕ
  stage_left c s =
      total (λ (a : Stored). c + 2) (lib.view s.in_queue).items
      + to_pull s.pc
      + total (λ (h : tasks.Handle Output). c) (lib.view s.out_queue).items

  abbrev Less : ℕ → Stage lib tasks read func → Stage lib tasks read func → Type 0
  Less c s t = stage_left c t < stage_left c s

  on_pull-Less :
      (c : ℕ) (s : Stage lib tasks read func) (r : Pulled Stored)
      → s.pc ≡ pulling
      → {t : Stage lib tasks read func} → on_pull lib tasks read func s r ≡ some t
      → Less c s t
  unfolding on_pull
  on_pull-Less c s (item a) e h =
      subst (Less c s) (some-injective _ _ h) (omega (arith, ap to_pull e))
  on_pull-Less c s empty e h = subst (Less c s) (some-injective _ _ h) (
      omega (
        arith,
        ap to_pull e,
        ap (λ (v : View (tasks.Handle Output)). total (λ h. c) v.items)
            (lib.view-close s.out_queue),
      ))
  on_pull-Less c s waiting e h = cc

  on_push-Less :
      (c : ℕ) (s : Stage lib tasks read func) (d : Input)
      (r : Option (lib.Queue (tasks.Handle Output)))
      → lib.push s.out_queue (tasks.fork (func d)) ≡ r
      → (lib.view s.out_queue).closed ≡ false
      → (a : Stored) → (lib.view s.in_queue).items ≡ a ∷ rest (lib.view s.in_queue).items
      → {t : Stage lib tasks read func} → on_push lib tasks read func s r ≡ some t
      → Less c s t
  unfolding on_push
  on_push-Less c s d none e opened a held h = cc
  on_push-Less c s d (some q) e opened a held h = subst (Less c s) (some-injective _ _ h) (
      omega (
        arith,
        ap (total (λ (a : Stored). c + 2)) held,
        ap (λ (v : View Stored). total (λ a. c + 2) v.items) (lib.view-finish_read s.in_queue),
        ap (λ (v : View (tasks.Handle Output)). total (λ h. c) v.items)
            (push_some lib s.out_queue (tasks.fork (func d)) opened e).1,
        total-at (λ h. c) (lib.view s.out_queue).items (tasks.fork (func d)) [],
      ))

  worker_at-Less :
      (c : ℕ) (s : Stage lib tasks read func) (pc : Pc Input)
      → s.pc ≡ pc
      → Status lib tasks read func pc (lib.view s.in_queue) (lib.view s.out_queue)
      → {t : Stage lib tasks read func} → worker_at lib tasks read func pc s ≡ some t
      → Less c s t
  unfolding worker_at
  worker_at-Less c s pulling e st h = on_pull-Less c s (lib.pull s.in_queue) e h
  worker_at-Less c s (pushing d) e (opened, (a, held, ra)) h =
      on_push-Less c s d _ refl opened a held h
  worker_at-Less c s finished e st h = cc

  pub worker-Less :
      (c : ℕ) (s : Stage lib tasks read func)
      → Status lib tasks read func s.pc (lib.view s.in_queue) (lib.view s.out_queue)
      → {t : Stage lib tasks read func} → worker lib tasks read func s ≡ some t
      → stage_left c t < stage_left c s
  unfolding worker
  worker-Less c s st h = worker_at-Less c s s.pc refl st h

  -- Where a worker can make no step, it waits for an input, or for a place, or it has returned.
  pub data Held (s : Stage lib tasks read func) : Type 0 where
    hungry : (lib.view s.in_queue).items ≡ [] → (lib.view s.in_queue).closed ≡ false → Held s
    full :
        (lib.view s.out_queue).closed ≡ false
        → (lib.view s.out_queue).capacity ≤ length (lib.view s.out_queue).items
        → Held s
    over :
        (lib.view s.out_queue).closed ≡ true
        → (lib.view s.in_queue).items ≡ []
        → (lib.view s.in_queue).closed ≡ true
        → Held s

  abbrev Works : Stage lib tasks read func → Pc Input → Type 0
  Works s pc = (t : Stage lib tasks read func) × (worker_at lib tasks read func pc s ≡ some t)

  pull_or_Held :
      (s : Stage lib tasks read func) (r : Pulled Stored)
      → lib.pull s.in_queue ≡ r
      → ((t : Stage lib tasks read func) × (on_pull lib tasks read func s r ≡ some t)) ⊎ Held s
  unfolding on_pull
  pull_or_Held s (item a) e = inl (_, refl)
  pull_or_Held s empty e = inl (_, refl)
  pull_or_Held s waiting e =
      let (none_left, opened) = pull_waiting lib s.in_queue e in inr (hungry none_left opened)

  push_or_Held :
      (s : Stage lib tasks read func) (d : Input) (r : Option (lib.Queue (tasks.Handle Output)))
      → lib.push s.out_queue (tasks.fork (func d)) ≡ r
      → (lib.view s.out_queue).closed ≡ false
      → ((t : Stage lib tasks read func) × (on_push lib tasks read func s r ≡ some t)) ⊎ Held s
  unfolding on_push
  push_or_Held s d (some q) e opened = inl (_, refl)
  push_or_Held s d none e opened =
      inr (full opened (push_none lib s.out_queue (tasks.fork (func d)) opened e))

  place_or_Held :
      (s : Stage lib tasks read func) (pc : Pc Input)
      → Status lib tasks read func pc (lib.view s.in_queue) (lib.view s.out_queue)
      → Works s pc ⊎ Held s
  unfolding worker_at
  place_or_Held s pulling st = pull_or_Held s (lib.pull s.in_queue) refl
  place_or_Held s (pushing d) st = push_or_Held s d _ refl st.0
  place_or_Held s finished st = inr (over st.0 st.1 st.2)

  pub works_or_Held :
      (s : Stage lib tasks read func)
      → Status lib tasks read func s.pc (lib.view s.in_queue) (lib.view s.out_queue)
      → ((t : Stage lib tasks read func) × (worker lib tasks read func s ≡ some t)) ⊎ Held s
  unfolding worker
  works_or_Held s st = place_or_Held s s.pc st
