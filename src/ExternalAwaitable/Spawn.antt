-- ===== src/ExternalAwaitable/Spawn.antt =====
-- `test_spawn_on_external_thread`: a thread that spawns a task on the default executor, which wakes
-- the caller through `ready`.
use tmc_examples.Base.{◌≡◌, ◌≢◌, arith, Bool, true, false, Option, none, some, if◌then◌else◌}

-- The caller: at `ready.wait(false)`, asleep in it, at `thread.join()`, or back in `main`.
pub data Caller : Type 0 where
  waiting asleep joining back : Caller

-- The thread: at `tmc::spawn(…).detach()`, at its end, or crashed for want of an executor.
pub data Spawner : Type 0 where
  spawning ended crashed : Spawner

-- The child task: not yet spawned, on the executor, at `Ready.notify_all()`, at its end.
pub data Child : Type 0 where
  absent queued notifying finished : Child

-- `has_default` says whether `tmc::set_default_executor` was called before.
pub record Test : Type 0 where
  pub has_default : Bool
  pub caller : Caller
  pub spawner : Spawner
  pub child : Child
  pub ready : Bool

unfoldable pub is_ended : Spawner → Bool
is_ended spawning = false
is_ended ended = true
is_ended crashed = false

unfoldable pub caller_at : Caller → Test → Option Test
unfolding is_ended
caller_at waiting s = some (record s { caller = if s.ready then joining else asleep })
caller_at asleep s = none
caller_at joining s = if is_ended s.spawner then some (record s { caller = back }) else none
caller_at back s = none

unfoldable pub spawner_at : Spawner → Test → Option Test
spawner_at spawning s = some (
    if s.has_default
    then record s { spawner = ended; child = queued }
    else record s { spawner = crashed })
spawner_at ended s = none
spawner_at crashed s = none

-- `notify_all` on a caller that sleeps.
unfoldable pub woken : Caller → Caller
woken waiting = waiting
woken asleep = waiting
woken joining = joining
woken back = back

unfoldable pub child_at : Child → Test → Option Test
unfolding woken
child_at absent s = none
child_at queued s = some (record s { child = notifying; ready = true })
child_at notifying s = some (record s { child = finished; caller = woken s.caller })
child_at finished s = none

pub data Part : Type 0 where
  the_caller the_thread the_child : Part

unfoldable pub step : Part → Test → Option Test
unfolding caller_at spawner_at child_at
step the_caller s = caller_at s.caller s
step the_thread s = spawner_at s.spawner s
step the_child s = child_at s.child s

unfoldable pub start : (has_default : Bool) → Test
start has_default = record {
  has_default = has_default;
  caller = waiting;
  spawner = spawning;
  child = absent;
  ready = false;
}

pub data Reach (has_default : Bool) : Test → Type 0 where
  here : Reach has_default (start has_default)
  next : {s t : Test} (p : Part) → Reach has_default s → step p s ≡ some t → Reach has_default t

abbrev is_ready : Child → Bool
is_ready absent = false
is_ready queued = false
is_ready notifying = true
is_ready finished = true

abbrev is_spawned : Child → Bool
is_spawned absent = false
is_spawned c = true

-- A caller that sleeps is woken yet; one that joins found `ready` set.
abbrev awaits : Caller → Child → Bool
awaits waiting c = true
awaits asleep finished = false
awaits asleep c = true
awaits joining c = is_ready c
awaits back c = is_ready c

record Invariant (s : Test) : Type 0 where
  set : s.has_default ≡ true
  is_set : s.ready ≡ is_ready s.child
  spawned : is_spawned s.child ≡ is_ended s.spawner
  alive : s.spawner ≢ crashed
  reached : awaits s.caller s.child ≡ true

step_keeps : (p : Part) (s : Test) {t : Test} → step p s ≡ some t → Invariant s → Invariant t
unfolding step caller_at spawner_at child_at is_ended woken
step_keeps the_caller s e i = ground arith
step_keeps the_thread s e i = ground arith
step_keeps the_child s e i = ground arith

reach-Invariant : {s : Test} → Reach true s → Invariant s
unfolding start is_ended
reach-Invariant here = ground arith
reach-Invariant (next {s} p r e) = step_keeps p s e (reach-Invariant r)

stuck_lem :
    (s : Test)
    → Invariant s
    → step the_caller s ≡ none
    → step the_thread s ≡ none
    → step the_child s ≡ none
    → (s.caller ≡ back) × (s.spawner ≡ ended) × (s.child ≡ finished)
unfolding step caller_at spawner_at child_at is_ended
stuck_lem s i e f g = ground arith

-- With a default executor set, the thread does not crash, and in no interleaving is the wakeup
-- lost: nothing stands still before the caller is back, the thread ended and the child finished.
pub test_returns :
    {s : Test}
    → Reach true s
    → (s.spawner ≢ crashed)
      × (((p : Part) → step p s ≡ none)
          → (s.caller ≡ back) × (s.spawner ≡ ended) × (s.child ≡ finished))
test_returns {s} h =
    let i = reach-Invariant h in
    (i.alive, λ stuck. stuck_lem s i (stuck the_caller) (stuck the_thread) (stuck the_child))
