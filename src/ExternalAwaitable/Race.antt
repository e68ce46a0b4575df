-- ===== src/ExternalAwaitable/Race.antt =====
-- About `external_awaitable`: what holds in every interleaving of its three threads.
use mathlib.Core.Option.{some-injective}
use tmc_examples.Base.{
  ℕ, ◌≡◌, refl, sym, ◌∙◌, arith, Bool, true, false, ◌&&◌, ◌||◌, not, Option, none, some,
}
use tmc_examples.ExternalAwaitable.{
  Suspend, set_outer, locking, start_thread, store_thread, unlocking, left, Worker, unborn,
  sleeping, writing, resuming, ending, returned, Outer, suspended, queued, resumed, acquiring,
  test_joinable, join_thread, releasing, destroyed, State, suspend_at, worker_at, is_returned,
  outer_at, Actor, suspender, thread, task, step, start, Reach, here, next,
}

abbrev pub owns : Suspend → Bool
owns start_thread = true
owns store_thread = true
owns unlocking = true
owns s = false

abbrev pub owned : Outer → Bool
owned test_joinable = true
owned join_thread = true
owned releasing = true
owned o = false

abbrev pub is_set : Suspend → Bool
is_set set_outer = false
is_set s = true

abbrev pub has_started : Suspend → Bool
has_started set_outer = false
has_started locking = false
has_started start_thread = false
has_started s = true

abbrev pub has_stored : Suspend → Bool
has_stored unlocking = true
has_stored left = true
has_stored s = false

abbrev pub has_left : Suspend → Bool
has_left left = true
has_left s = false

abbrev pub is_born : Worker → Bool
is_born unborn = false
is_born w = true

abbrev pub has_resumed : Worker → Bool
has_resumed ending = true
has_resumed returned = true
has_resumed w = false

abbrev pub result_at : Worker → Option ℕ
result_at unborn = none
result_at sleeping = none
result_at writing = none
result_at w = some 42

abbrev pub is_resumed : Outer → Bool
is_resumed suspended = false
is_resumed o = true

abbrev pub read_at : Outer → Option ℕ
read_at suspended = none
read_at queued = none
read_at resumed = none
read_at o = some 42

abbrev pub has_joined : Outer → Bool
has_joined releasing = true
has_joined destroyed = true
has_joined o = false

abbrev pub has_entered : Outer → Bool
has_entered destroyed = true
has_entered o = owned o

-- What the three positions say of the rest of the state, and of one another.
pub record Invariant (s : State) : Type 0 where
  pub locked : s.lock ≡ (owns s.suspend || owned s.outer)
  pub joins : s.joinable ≡ (has_stored s.suspend && not (has_joined s.outer))
  pub has_result : s.result ≡ result_at s.worker
  pub has_outer : s.outer_set ≡ is_set s.suspend
  pub has_read : s.read ≡ read_at s.outer
  pub born : is_born s.worker ≡ has_started s.suspend
  pub resumes : is_resumed s.outer ≡ has_resumed s.worker
  pub entered : (has_entered s.outer && not (has_left s.suspend)) ≡ false
  pub joined : (has_joined s.outer && not (is_returned s.worker)) ≡ false

suspend_keeps :
    (p : Suspend) (s : State) {t : State}
    → s.suspend ≡ p
    → suspend_at p s ≡ some t
    → Invariant s
    → Invariant t
unfolding is_returned suspend_at
suspend_keeps set_outer s e h i = ground arith
suspend_keeps locking s e h i = ground arith
suspend_keeps start_thread s e h i = ground arith
suspend_keeps store_thread s e h i = ground arith
suspend_keeps unlocking s e h i = ground arith
suspend_keeps left s e h i = ground arith

worker_keeps :
    (p : Worker) (s : State) {t : State}
    → s.worker ≡ p
    → worker_at p s ≡ some t
    → Invariant s
    → Invariant t
unfolding is_returned worker_at
worker_keeps unborn s e h i = ground arith
worker_keeps sleeping s e h i = ground arith
worker_keeps writing s e h i = ground arith
worker_keeps resuming s e h i = ground arith
worker_keeps ending s e h i = ground arith
worker_keeps returned s e h i = ground arith

outer_keeps :
    (p : Outer) (s : State) {t : State}
    → s.outer ≡ p
    → outer_at p s ≡ some t
    → Invariant s
    → Invariant t
unfolding is_returned outer_at
outer_keeps suspended s e h i = ground arith
outer_keeps queued s e h i = ground arith
outer_keeps resumed s e h i = ground arith
outer_keeps acquiring s e h i = ground arith
outer_keeps test_joinable s e h i = ground arith
outer_keeps join_thread s e h i = ground arith
outer_keeps releasing s e h i = ground arith
outer_keeps destroyed s e h i = ground arith

step_keeps : (a : Actor) (s : State) {t : State} → step a s ≡ some t → Invariant s → Invariant t
unfolding step
step_keeps suspender s e i = suspend_keeps s.suspend s refl e i
step_keeps thread s e i = worker_keeps s.worker s refl e i
step_keeps task s e i = outer_keeps s.outer s refl e i

pub reach-Invariant : {s : State} → Reach s → Invariant s
unfolding start is_returned
reach-Invariant here = ground arith
reach-Invariant (next {s} a r e) = step_keeps a s e (reach-Invariant r)

-- What the task gets of the awaitable is 42, in every interleaving of the task that suspends, the
-- new thread and the resumed task.
pub read_lem : {s : State} {r : ℕ} → Reach s → s.read ≡ some r → r ≡ 42
read_lem {s} {r} h e = got s.outer (sym (reach-Invariant h).has_read ∙ e)
  where
    got : (o : Outer) → read_at o ≡ some r → r ≡ 42
    got suspended f = cc
    got queued f = cc
    got resumed f = cc
    got acquiring f = sym (some-injective _ _ f)
    got test_joinable f = sym (some-injective _ _ f)
    got join_thread f = sym (some-injective _ _ f)
    got releasing f = sym (some-injective _ _ f)
    got destroyed f = sym (some-injective _ _ f)

-- When the awaitable is destroyed, the thread has returned and is joined, await_suspend has left, and
-- the lock is free: neither touches the awaitable any more.
pub destroyed_lem :
    {s : State}
    → Reach s
    → s.outer ≡ destroyed
    → (s.worker ≡ returned) × (s.suspend ≡ left) × (s.joinable ≡ false) × (s.lock ≡ false)
unfolding is_returned
destroyed_lem {s} h e = let i = reach-Invariant h in ground arith
