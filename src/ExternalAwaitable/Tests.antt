-- ===== src/ExternalAwaitable/Tests.antt =====
-- A run of `external_awaitable` in which the resumed task is at the destructor's lock before
-- `await_suspend` has stored its thread, and a run of the spawning test.
use mathlib.Core.Option.{some-injective}
use tmc_examples.Base.{
  ◌<◌, ◌≡◌, ◌≢◌, inl, inr, refl, subst, sym, ap, ◌∙◌, Option-cases, true, false, Option, none, some,
  List, [], ◌∷◌,
}
use tmc_examples.ExternalAwaitable.{
  left, returned, destroyed, State, suspend_at, worker_at, is_returned, outer_at, Actor, suspender,
  thread, task, step, start, Reach, here, next,
}
use tmc_examples.ExternalAwaitable.Race.{destroyed_lem}
use tmc_examples.ExternalAwaitable.Progress.{statements_left, comes_to_end}
use tmc_examples.ExternalAwaitable.Caller.{Place}
use tmc_examples.ExternalAwaitable.Spawn

abbrev follow_on : Option State → List Actor → Option State
follow_on none actors = none
follow_on (some s) [] = some s
follow_on (some s) (a ∷ actors) = follow_on (step a s) actors

-- A schedule that every statement of which can run.
followed :
    (actors : List Actor) (s : State) {t : State}
    → Reach s
    → follow_on (some s) actors ≡ some t
    → Reach t
followed [] s r e = subst Reach (some-injective _ _ e) r
followed (a ∷ actors) s r e = elim (Option-cases (step a s)) [
  | inl n ↦ absurd (none_ends actors (sym (ap (λ o. follow_on o actors) n) ∙ e))
  | inr (u, n) ↦ followed actors u (next a r n) (sym (ap (λ o. follow_on o actors) n) ∙ e)
]
  where
    none_ends : (actors : List Actor) {t : State} → follow_on none actors ≡ some t → ⊥
    none_ends [] f = cc
    none_ends (a ∷ actors) f = cc

abbrev racing : List Actor
racing =
    suspender ∷ suspender ∷ suspender ∷ thread ∷ thread ∷ thread ∷ task ∷ task ∷ suspender
    ∷ suspender ∷ task ∷ task ∷ thread ∷ task ∷ task ∷ []

abbrev final : State
final = record {
  suspend = left;
  worker = returned;
  outer = destroyed;
  result = some 42;
  outer_set = true;
  lock = false;
  joinable = false;
  read = some 42;
}

reached : Reach final
unfolding step suspend_at worker_at outer_at is_returned start
reached = followed racing start here refl

destroyed_lem_example :
    (final.worker ≡ returned)
    × (final.suspend ≡ left)
    × (final.joinable ≡ false)
    × (final.lock ≡ false)
destroyed_lem_example = destroyed_lem reached refl

comes_to_end_example :
    ((a : Actor) (t : State) → step a final ≡ some t → statements_left t < statements_left final)
    × (((a : Actor) → step a final ≡ none) → final.outer ≡ destroyed)
comes_to_end_example = comes_to_end reached

abbrev main_thread : Place
main_thread = record { thread_name = 3; priority = 1 }

-- The caller sleeps before the child stores to `ready`.
abbrev woken_up : Spawn.Test
woken_up = record {
  has_default = true;
  caller = Spawn.back;
  spawner = Spawn.ended;
  child = Spawn.finished;
  ready = true;
}

back_again : Spawn.Reach true woken_up
unfolding Spawn.step Spawn.start Spawn.caller_at Spawn.spawner_at Spawn.child_at Spawn.woken
    Spawn.is_ended
back_again =
    Spawn.next Spawn.the_caller
      (Spawn.next Spawn.the_caller
        (Spawn.next Spawn.the_child
          (Spawn.next Spawn.the_child
            (Spawn.next Spawn.the_caller (Spawn.next Spawn.the_thread Spawn.here refl) refl) refl)
          refl)
        refl)
      refl

test_returns_example :
    (Spawn.Test.spawner woken_up ≢ Spawn.crashed)
    × (((p : Spawn.Part) → Spawn.step p woken_up ≡ none)
        → (Spawn.Test.caller woken_up ≡ Spawn.back)
          × (Spawn.Test.spawner woken_up ≡ Spawn.ended)
          × (Spawn.Test.child woken_up ≡ Spawn.finished))
test_returns_example = Spawn.test_returns back_again

-- The caller can be back, and `ready` gone, while the child is still to call `notify_all`.
abbrev gone : Spawn.Test
gone = record {
  has_default = true;
  caller = Spawn.back;
  spawner = Spawn.ended;
  child = Spawn.notifying;
  ready = true;
}

back_early : Spawn.Reach true gone
unfolding Spawn.step Spawn.start Spawn.caller_at Spawn.spawner_at Spawn.child_at Spawn.is_ended
back_early =
    Spawn.next Spawn.the_caller
      (Spawn.next Spawn.the_caller
        (Spawn.next Spawn.the_child (Spawn.next Spawn.the_thread Spawn.here refl) refl) refl)
      refl
