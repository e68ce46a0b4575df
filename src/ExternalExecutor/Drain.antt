-- ===== src/ExternalExecutor/Drain.antt =====
-- About the end of the worker of `ExternalExecutor`, and its sleep.
use tmc_examples.Base.{
  ℕ, zero, suc, ◌+◌, ◌*◌, ◌<◌, ◌≡◌, ◌≢◌, refl, sym, ap, ◌∙◌, subst, Bool, true, false, none, some,
  List, [], ◌∷◌, ◌++◌, append_assoc, append-nil, arith, length,
}
use mathlib.Core.Option.{some-injective}
use tmc_examples.ExternalExecutor.{
  section, section_at, Pc, locked, asleep, running, exited, on_wait, Executor, run_work, on_section,
  worker_at, worker, System, Reach,
}
use tmc_examples.ExternalExecutor.Sleep.{IdleAt, reach_Idle}
use tmc_examples.ExternalExecutor.Order.{at_work, in_order, in_order-worker, in_order-posted}

module _ {Item : Type 0} (leaves : Item → ℕ → ℕ) where
  section_exits :
      (e : Executor leaves) (q : List (ℕ × Item)) (b : Bool) {t : Executor leaves}
      → e.pool.queue ≡ q
      → e.pool.stop_requested ≡ b
      → on_section leaves e (section_at q b e.pool) ≡ some t
      → t.pc ≡ exited
      → (t.pool.queue ≡ []) × (t.pool.stop_requested ≡ true)
  unfolding on_section section_at
  section_exits e (w ∷ q) b f g h x =
      absurd (running_ends (ap (λ t. t.pc) (some-injective _ _ h) ∙ x))
    where
      running_ends : running w ≢ exited
      running_ends y = cc
  section_exits e [] true f g h x =
      subst (λ t. (t.pool.queue ≡ []) × (t.pool.stop_requested ≡ true)) (some-injective _ _ h)
        (f, g)
  section_exits e [] false f g h x =
      absurd (asleep_ends (ap (λ t. t.pc) (some-injective _ _ h) ∙ x))
    where
      asleep_ends : ◌≢◌ {A = Pc Item} asleep exited
      asleep_ends y = cc

  wait_exits :
      (w : Bool) (e : Executor leaves) {t : Executor leaves}
      → on_wait leaves w e ≡ some t
      → ¬ (t.pc ≡ exited)
  unfolding on_wait
  wait_exits true e h x = cc
  wait_exits false e h x = locked_ends (ap (λ t. t.pc) (some-injective _ _ h) ∙ x)
    where
      locked_ends : ◌≢◌ {A = Pc Item} locked exited
      locked_ends y = cc

  worker_at_exits :
      (pc : Pc Item) (e : Executor leaves) {t : Executor leaves}
      → worker_at leaves pc e ≡ some t
      → t.pc ≡ exited
      → (t.pool.queue ≡ []) × (t.pool.stop_requested ≡ true)
  unfolding worker_at section run_work
  worker_at_exits locked e h x = section_exits e e.pool.queue e.pool.stop_requested refl refl h x
  worker_at_exits asleep e h x = absurd (wait_exits e.pool.waiting e h x)
  worker_at_exits (running w) e h x =
      absurd (locked_ends (ap (λ t. t.pc) (some-injective _ _ h) ∙ x))
    where
      locked_ends : ◌≢◌ {A = Pc Item} locked exited
      locked_ends y = cc
  worker_at_exits exited e h x = cc

  -- An executor that has left `run` on an empty queue has nothing but what it ran.
  observed_all :
      (e : Executor leaves) → e.pc ≡ exited → e.pool.queue ≡ [] → e.observed ≡ in_order leaves e
  observed_all e x q = sym (rw (x, q) (append-nil e.observed))

  -- The worker leaves `run` only after the stop was requested, and when it does, all that was ever
  -- posted has run, in the order of posting and each item with its own priority.
  pub exits_drained :
      {s : System leaves} {t : Executor leaves}
      → Reach leaves s
      → worker leaves s.executor ≡ some t
      → t.pc ≡ exited
      → (t.observed ≡ s.posted) × (t.pool.stop_requested ≡ true)
  unfolding worker
  exits_drained {s} {t} r h x =
      let (q, b) = worker_at_exits s.pc s.executor h x in
      (observed_all t x q ∙ in_order-worker leaves s.executor h ∙ in_order-posted leaves r, b)

  -- The worker on its own, for at most so many steps.
  pub run_alone : ℕ → Executor leaves → Executor leaves
  run_alone zero e = e
  run_alone (suc n) e = elim (worker leaves e) [ none ↦ e | some t ↦ run_alone n t ]

  run_alone-exited :
      (n : ℕ) (e : Executor leaves)
      → run_alone n (record e { pc = exited }) ≡ record e { pc = exited }
  unfolding run_alone worker worker_at
  run_alone-exited zero e = refl
  run_alone-exited (suc n) e = refl

  drains :
      (n : ℕ) (q : List (ℕ × Item)) (w : Bool) (p : ℕ) (o : List (ℕ × Item))
      → 2 * length q < n
      → let t = run_alone n (record {
        pool = record { queue = q; stop_requested = true; waiting = w };
        pc = locked;
        prio = p;
        observed = o;
      }) in
        (t.pc ≡ exited) × (t.observed ≡ o ++ q)
  unfolding run_alone worker worker_at section section_at on_section run_work
  drains zero q w p o h = absurd (omega arith)
  drains (suc n) [] w p o h =
      let stays = run_alone-exited n (record {
        pool = record { queue = []; stop_requested = true; waiting = w };
        pc = exited;
        prio = p;
        observed = o;
      }) in
      (ap (λ t. t.pc) stays, ap (λ t. t.observed) stays ∙ sym (append-nil o))
  drains (suc zero) (x ∷ q) w p o h = absurd (omega arith)
  drains (suc (suc n)) (x ∷ q) w p o h =
      let (y, r) = drains n q w (leaves x.1 x.0) (o ++ x ∷ []) (omega arith) in
      (y, r ∙ append_assoc o (x ∷ []) q)

  finishes :
      (n : ℕ) (pc : Pc Item) (q : List (ℕ × Item)) (w : Bool) (p : ℕ) (o : List (ℕ × Item))
      → 2 * length q + 1 < n
      → pc ≢ exited
      → IdleAt leaves pc w q true
      → let t = run_alone n (record {
        pool = record { queue = q; stop_requested = true; waiting = w };
        pc = pc;
        prio = p;
        observed = o;
      }) in
        (t.pc ≡ exited) × (t.observed ≡ o ++ (at_work leaves pc ++ q))
  unfolding run_alone worker worker_at on_wait run_work
  finishes zero pc q w p o h x v = absurd (omega arith)
  finishes (suc n) locked q w p o h x v = drains (suc n) q w p o (omega arith)
  finishes (suc n) asleep q true p o h x v = absurd (stop_came v.1)
    where
      stop_came : true ≢ false
      stop_came y = cc
  finishes (suc n) asleep q false p o h x v = drains n q false p o (omega arith)
  finishes (suc n) (running y) q w p o h x v =
      let (z, r) = drains n q w (leaves y.1 y.0) (o ++ y ∷ []) (omega arith) in
      (z, r ∙ append_assoc o (y ∷ []) q)
  finishes (suc n) exited q w p o h x v = absurd (x refl)

  -- Once the stop is requested, with nothing more posted, the worker leaves `run` within two steps for
  -- each item of the queue and two more, also where it was blocked on `work_available` before, and
  -- then has run all that was ever posted, in order.
  pub run_alone-stop :
      {s : System leaves}
      → Reach leaves s
      → s.pool.stop_requested ≡ true
      → s.pc ≢ exited
      → ((run_alone (2 * length s.pool.queue + 2) s.executor).pc ≡ exited)
        × ((run_alone (2 * length s.pool.queue + 2) s.executor).observed ≡ s.posted)
  run_alone-stop {s} r b x =
      let (y, o) =
        subst
          (λ (c : Bool).
            let t =
              run_alone (2 * length s.pool.queue + 2)
                (record s.executor { pool = record s.pool { stop_requested = c } }) in
            (t.pc ≡ exited) × (t.observed ≡ s.observed ++ (at_work leaves s.pc ++ s.pool.queue)))
          (sym b)
          (finishes (2 * length s.pool.queue + 2) s.pc s.pool.queue s.pool.waiting s.prio s.observed
            (omega arith) x
            (subst (IdleAt leaves s.pc s.pool.waiting s.pool.queue) b (reach_Idle leaves r))) in
      (y, o ∙ in_order-posted leaves r)
