-- ===== src/ExternalExecutor/Sleep.antt =====
-- When the worker of `ExternalExecutor` is blocked on `work_available`.
use tmc_examples.Base.{ℕ, zero, suc, ◌+◌, ◌≡◌, refl, subst, Bool, true, false, some, List, [], ◌∷◌}
use mathlib.Core.Option.{some-injective}
use tmc_examples.ExternalExecutor.{
  notify, post, request_stop, section, section_at, Pc, locked, asleep, running, exited, Executor,
  make_executor, run_work, on_section, on_wait, worker_at, worker, post_item, post_bulk_from,
  post_bulk, stop, System, Step, spurious, work, post_one, post_many, destroy, start, Reach, here,
  next,
}

module _ {Item : Type 0} (leaves : Item → ℕ → ℕ) where
  -- A worker that is blocked, and not notified, has nothing to do.
  abbrev pub IdleAt : Pc Item → Bool → List (ℕ × Item) → Bool → Type 0
  IdleAt asleep true q b = (q ≡ []) × (b ≡ false)
  IdleAt asleep false q b = Unit
  IdleAt locked w q b = Unit
  IdleAt (running x) w q b = Unit
  IdleAt exited w q b = Unit

  abbrev pub Idle : Executor leaves → Type 0
  Idle e = IdleAt e.pc e.pool.waiting e.pool.queue e.pool.stop_requested

  not_waiting : (pc : Pc Item) (q : List (ℕ × Item)) (b : Bool) → IdleAt pc false q b
  not_waiting asleep q b = tt
  not_waiting locked q b = tt
  not_waiting (running x) q b = tt
  not_waiting exited q b = tt

  section_Idle :
      (e : Executor leaves) (q : List (ℕ × Item)) (b : Bool) {t : Executor leaves}
      → e.pool.queue ≡ q
      → e.pool.stop_requested ≡ b
      → on_section leaves e (section_at q b e.pool) ≡ some t
      → Idle t
  unfolding on_section section_at
  section_Idle e (w ∷ q) b f g h = subst Idle (some-injective _ _ h) tt
  section_Idle e [] true f g h = subst Idle (some-injective _ _ h) tt
  section_Idle e [] false f g h = subst Idle (some-injective _ _ h) (f, g)

  wait_Idle :
      (w : Bool) (e : Executor leaves) {t : Executor leaves} → on_wait leaves w e ≡ some t → Idle t
  unfolding on_wait
  wait_Idle true e h = cc
  wait_Idle false e h = subst Idle (some-injective _ _ h) tt

  worker_Idle :
      (pc : Pc Item) (e : Executor leaves) {t : Executor leaves}
      → worker_at leaves pc e ≡ some t
      → Idle t
  unfolding worker_at section run_work
  worker_Idle locked e h = section_Idle e e.pool.queue e.pool.stop_requested refl refl h
  worker_Idle asleep e h = wait_Idle e.pool.waiting e h
  worker_Idle (running w) e h = subst Idle (some-injective _ _ h) tt
  worker_Idle exited e h = cc

  posted_Idle :
      (it : ℕ → Item) (i n p : ℕ) (e : Executor leaves)
      → Idle e
      → Idle (post_bulk_from leaves it i n p e)
  unfolding post_bulk_from post_item post notify
  posted_Idle it i zero p e v = v
  posted_Idle it i (suc n) p e v =
      posted_Idle it (i + 1) n p (post_item leaves (it i) p e) (not_waiting e.pc _ _)

  Step_Idle : {s t : System leaves} → Step leaves s t → Idle s.executor → Idle t.executor
  unfolding worker post_item post post_bulk stop request_stop notify
  Step_Idle {s} (spurious a) v = tt
  Step_Idle {s} (work h) v = worker_Idle s.pc s.executor h
  Step_Idle {s} (post_one x p) v = not_waiting s.pc _ _
  Step_Idle {s} (post_many it n p) v = posted_Idle it 0 n p s.executor v
  Step_Idle {s} destroy v = not_waiting s.pc _ _

  pub reach_Idle : {s : System leaves} → Reach leaves s → Idle s.executor
  unfolding start make_executor
  reach_Idle here = tt
  reach_Idle (next r st) = Step_Idle st (reach_Idle r)
