-- ===== src/ExternalExecutor/Order.antt =====
-- The order in which the worker of `ExternalExecutor` runs what is posted.
use tmc_examples.Base.{
  ℕ, zero, suc, ◌+◌, ◌≡◌, refl, sym, ap, ◌∙◌, Bool, true, false, some, List, [], ◌∷◌, ◌++◌,
  tabulate, tabulate_from, append_assoc, append-nil, subst,
}
use mathlib.Core.Option.{some-injective}
use tmc_examples.ExternalExecutor.{
  post, request_stop, section, section_at, Pc, locked, asleep, running, notify, on_wait, spurious,
  exited, Executor, make_executor, run_work, on_section, worker_at, worker, post_item,
  post_bulk_from, post_bulk, stop, System, Step, work, post_one, post_many, destroy, start, Reach,
  here, next,
}

module _ {Item : Type 0} (leaves : Item → ℕ → ℕ) where
  -- The item at which the worker stands.
  abbrev pub at_work : Pc Item → List (ℕ × Item)
  at_work locked = []
  at_work asleep = []
  at_work (running w) = w ∷ []
  at_work exited = []

  -- What has run, then what runs, then what waits.
  abbrev pub in_order : Executor leaves → List (ℕ × Item)
  in_order e = e.observed ++ (at_work e.pc ++ e.pool.queue)

  section_order :
      (e : Executor leaves) (q : List (ℕ × Item)) (b : Bool) {t : Executor leaves}
      → e.pool.queue ≡ q
      → on_section leaves e (section_at q b e.pool) ≡ some t
      → in_order t ≡ e.observed ++ q
  unfolding on_section section_at
  section_order e (w ∷ q) b f h =
      subst (λ t. in_order t ≡ e.observed ++ w ∷ q) (some-injective _ _ h) refl
  section_order e [] true f h =
      subst (λ t. in_order t ≡ e.observed ++ []) (some-injective _ _ h)
        (ap (λ q. e.observed ++ q) f)
  section_order e [] false f h =
      subst (λ t. in_order t ≡ e.observed ++ []) (some-injective _ _ h)
        (ap (λ q. e.observed ++ q) f)

  wait_order :
      (b : Bool) (e : Executor leaves) {t : Executor leaves}
      → on_wait leaves b e ≡ some t
      → in_order t ≡ e.observed ++ e.pool.queue
  unfolding on_wait
  wait_order true e h = cc
  wait_order false e h =
      subst (λ t. in_order t ≡ e.observed ++ e.pool.queue) (some-injective _ _ h) refl

  worker_at_order :
      (pc : Pc Item) (e : Executor leaves) {t : Executor leaves}
      → worker_at leaves pc e ≡ some t
      → in_order t ≡ e.observed ++ (at_work pc ++ e.pool.queue)
  unfolding worker_at section run_work
  worker_at_order locked e h = section_order e e.pool.queue e.pool.stop_requested refl h
  worker_at_order asleep e h = wait_order e.pool.waiting e h
  worker_at_order (running w) e h =
      subst (λ t. in_order t ≡ e.observed ++ w ∷ e.pool.queue) (some-injective _ _ h)
        (append_assoc e.observed (w ∷ []) e.pool.queue)
  worker_at_order exited e h = cc

  -- The worker moves an item along, and neither loses nor doubles one.
  pub in_order-worker :
      (e : Executor leaves) {t : Executor leaves}
      → worker leaves e ≡ some t
      → in_order t ≡ in_order e
  unfolding worker
  in_order-worker e h = worker_at_order e.pc e h

  in_order-post_item :
      (x : Item) (p : ℕ) (e : Executor leaves)
      → in_order (post_item leaves x p e) ≡ in_order e ++ (p, x) ∷ []
  unfolding post_item post notify
  in_order-post_item x p e = simp append_assoc

  in_order-post_bulk_from :
      (it : ℕ → Item) (i n p : ℕ) (e : Executor leaves)
      → in_order (post_bulk_from leaves it i n p e)
        ≡ in_order e ++ tabulate_from i n (λ j. (p, it j))
  unfolding post_bulk_from
  in_order-post_bulk_from it i zero p e = sym (append-nil (in_order e))
  in_order-post_bulk_from it i (suc n) p e =
      in_order-post_bulk_from it (i + 1) n p (post_item leaves (it i) p e)
      ∙ ap (λ xs. xs ++ tabulate_from (i + 1) n (λ j. (p, it j))) (in_order-post_item (it i) p e)
      ∙ append_assoc (in_order e) ((p, it i) ∷ []) (tabulate_from (i + 1) n (λ j. (p, it j)))

  in_order-stop : (e : Executor leaves) → in_order (stop leaves e) ≡ in_order e
  unfolding stop request_stop notify
  in_order-stop e = refl

  Step-order :
      {s t : System leaves}
      → Step leaves s t
      → in_order s.executor ≡ s.posted
      → in_order t.executor ≡ t.posted
  unfolding post_bulk stop request_stop
  Step-order {s} (spurious a) v = ap (λ pc. s.observed ++ (at_work pc ++ s.pool.queue)) (sym a) ∙ v
  Step-order {s} (work h) v = in_order-worker s.executor h ∙ v
  Step-order {s} (post_one x p) v =
      in_order-post_item x p s.executor ∙ ap (λ xs. xs ++ (p, x) ∷ []) v
  Step-order {s} (post_many it n p) v =
      in_order-post_bulk_from it 0 n p s.executor ∙ ap (λ xs. xs ++ tabulate n (λ i. (p, it i))) v
  Step-order {s} destroy v = in_order-stop s.executor ∙ v

  -- Whatever the clients post, one at a time or in bulk, the items that have run, each with the
  -- priority that it saw, then the item at work, then the queue, are the items posted with their
  -- priorities, in the order of posting.
  pub in_order-posted :
      {s : System leaves} → Reach leaves s → s.observed ++ (at_work s.pc ++ s.pool.queue) ≡ s.posted
  unfolding start make_executor
  in_order-posted here = refl
  in_order-posted (next r st) = Step-order st (in_order-posted r)
