-- ===== src/ExternalExecutor/Tests.antt =====
-- An executor whose items, which are numbers, leave themselves as the thread's priority, and the
-- theorems of `ExternalExecutor` at a run that posts three of them.
use tmc_examples.Base.{ℕ, ◌+◌, ◌≡◌, refl, Bool, true, false, List, [], ◌∷◌, ◌++◌}
use tmc_examples.ExternalExecutor.{
  Pc, locked, asleep, running, exited, make_executor, section, run_work, worker, worker_at, post,
  post_item, notify, post_bulk, post_bulk_from, stop, request_stop, System, work, post_one,
  post_many, destroy, start, Reach, here, next,
}
use tmc_examples.ExternalExecutor.Order.{in_order-posted}
use tmc_examples.ExternalExecutor.Drain.{exits_drained, run_alone, run_alone-stop}

abbrev leaves : ℕ → ℕ → ℕ
leaves x p = x

abbrev items : List (ℕ × ℕ)
items = (2, 7) ∷ (1, 4) ∷ (1, 5) ∷ []

abbrev state : Pc ℕ → List (ℕ × ℕ) → Bool → ℕ → List (ℕ × ℕ) → System leaves
state pc q b p o = record {
  executor = record {
    pool = record { queue = q; stop_requested = b; waiting = false };
    pc = pc;
    prio = p;
    observed = o;
  };
  posted = items;
}

-- One item is posted, then two in bulk; the worker takes the first.
busy : Reach leaves (state (running (2, 7)) ((1, 4) ∷ (1, 5) ∷ []) false 0 [])
unfolding start make_executor notify post_item post post_bulk post_bulk_from worker worker_at
    section
busy = next (next (next here (post_one 7 2)) (post_many (λ i. i + 4) 2 1)) (work refl)

stopped : Reach leaves (state (running (2, 7)) ((1, 4) ∷ (1, 5) ∷ []) true 0 [])
unfolding stop request_stop notify
stopped = next busy destroy

-- The items have run, and the worker is about to leave.
drained : Reach leaves (state locked [] true 5 items)
unfolding worker worker_at section run_work
drained =
    next (next (next (next (next stopped (work refl)) (work refl)) (work refl)) (work refl))
      (work refl)

in_order-posted_example : ((2, 7) ∷ []) ++ ((1, 4) ∷ (1, 5) ∷ []) ≡ items
in_order-posted_example = in_order-posted leaves stopped

exits_drained_example : (items ≡ items) × (true ≡ true)
unfolding worker worker_at section
exits_drained_example =
    exits_drained leaves {t = record (state locked [] true 5 items).executor { pc = exited }}
      drained refl refl

-- The worker blocks before anything is posted, and the stop wakes it.
abbrev blocked : System leaves
blocked = record {
  executor = record {
    pool = record { queue = []; stop_requested = false; waiting = true };
    pc = asleep;
    prio = 0;
    observed = [];
  };
  posted = [];
}

to_blocked : Reach leaves blocked
unfolding start make_executor worker worker_at section
to_blocked = next here (work refl)

notified : Reach leaves (record { executor = stop leaves blocked.executor; posted = [] })
unfolding stop request_stop notify
notified = next to_blocked destroy

run_alone-stop_example :
    ((run_alone leaves 2 (stop leaves blocked.executor)).pc ≡ exited)
    × ((run_alone leaves 2 (stop leaves blocked.executor)).observed ≡ [])
unfolding stop request_stop notify
run_alone-stop_example = run_alone-stop leaves notified refl (λ e. cc)
