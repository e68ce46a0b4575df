-- ===== src/Pipeline/Moves.antt =====
-- What one step of a worker of `Pipeline` keeps: amounts of elements, and permits.
use mathlib.Core.List.Perm as Perms
use mathlib.Core.Option.{some-injective}
use tmc_examples.Base.{
  total, ℕ, suc, ◌+◌, ◌≤◌, ◌≡◌, ◌⊎◌, inl, inr, refl, ap, subst, true, false, Option, none, some,
  List, [], Perm, sum-Perm, length, length-Perm, arith,
}
use tmc_examples.Pipeline.Channels.{Channel, Taken, item, empty, waiting, Semaphore}
use tmc_examples.Pipeline.{
  Pc, pulling, releasing, gating, computing, finished, Shared, on_pull, on_acquire, release_one,
  worker_at, still_running,
}

pub total-Perm : {A : Type 0} (g : A → ℕ) {xs ys : List A} → Perm xs ys → total g xs ≡ total g ys
total-Perm g p = sum-Perm (Perms.map g p)

-- The permits that are left and those in use are all that there are; without a semaphore there are
-- none.
abbrev pub Level : (sems : Semaphore) → Option sems.State → ℕ → ℕ → Type 0
Level sems none used capacity = capacity ≡ 0
Level sems (some m) used capacity = sems.count m + used ≡ capacity

-- A worker that has pulled an input and not released the permit; one that has a permit of the output.
abbrev pub to_release : {Input : Type 0} → Pc Input → ℕ
to_release (releasing a) = 1
to_release pc = 0

abbrev pub to_post : {Input : Type 0} → Pc Input → ℕ
to_post (computing a) = 1
to_post pc = 0

module _ (chan : Channel) (sems : Semaphore) {Input Output : Type 0} (func : Input → Output) where
  -- The weight of the result that a worker is to post.
  abbrev pub held : (Output → ℕ) → Pc Input → ℕ
  held g pulling = 0
  held g (releasing a) = g (func a)
  held g (gating a) = g (func a)
  held g (computing a) = g (func a)
  held g finished = 0

  abbrev Sh : Type 0
  Sh = Shared chan sems func

  abbrev pub Drained : Shared chan sems func → Type 0
  Drained s = (chan.items s.in_chan ≡ []) × (chan.closed s.in_chan ≡ true)

  pub record Kept (pc : Pc Input) (s : Shared chan sems func) (p : Shared chan sems func × Pc Input)
      : Type 0 where
    pub amount :
        (g : Output → ℕ)
        → total g (chan.items p.0.out_chan)
            + held g p.1
            + total (λ a. g (func a)) (chan.items p.0.in_chan)
          ≡ total g (chan.items s.out_chan)
            + held g pc
            + total (λ a. g (func a)) (chan.items s.in_chan)
    pub places :
        sems.count p.0.out_sem + length (chan.items p.0.out_chan) + to_post p.1
        ≡ sems.count s.out_sem + length (chan.items s.out_chan) + to_post pc
    pub input :
        (rest capacity : ℕ)
        → Level sems s.in_sem (length (chan.items s.in_chan) + to_release pc + rest) capacity
        → Level sems p.0.in_sem (length (chan.items p.0.in_chan) + to_release p.1 + rest) capacity
    pub ends : (still_running p.1 ≡ still_running pc) ⊎ Drained p.0
    pub falls : still_running p.1 ≤ still_running pc
    pub stays : Drained s → Drained p.0
    pub shut : chan.closed p.0.out_chan ≡ chan.closed s.out_chan
    pub in_shut : chan.closed p.0.in_chan ≡ chan.closed s.in_chan

  pulled-Kept :
      (s : Sh) (r : Taken (chan.Queue Input) Input) (p : Sh × Pc Input)
      → chan.pull s.in_chan ≡ r
      → on_pull chan sems func s r ≡ some p
      → Kept pulling s p
  unfolding on_pull
  pulled-Kept s (item a q) p e h = subst (Kept pulling s) (some-injective _ _ h) (record {
    amount = λ g. omega (arith, total-Perm (λ b. g (func b)) (chan.items-pull s.in_chan e));
    places = refl;
    input = λ rest capacity v. level s.in_sem _ _ _ _ (length-Perm (chan.items-pull s.in_chan e)) v;
    ends = inl refl;
    falls = omega arith;
    stays = λ d. absurd (omega (arith, length-Perm (chan.items-pull s.in_chan e), ap length d.0));
    shut = refl;
    in_shut = chan.closed-pull s.in_chan e;
  })
    where
      level :
          (m : Option sems.State) (i j k c : ℕ)
          → i ≡ suc j
          → Level sems m (i + 0 + k) c
          → Level sems m (j + 1 + k) c
      level none i j k c f v = v
      level (some m) i j k c f v = omega (arith, f, v)
  pulled-Kept s empty p e h = subst (Kept pulling s) (some-injective _ _ h) (record {
    amount = λ g. refl;
    places = refl;
    input = λ rest capacity v. v;
    ends = inr (chan.pull_empty s.in_chan e);
    falls = omega arith;
    stays = λ d. d;
    shut = refl;
    in_shut = refl;
  })
  pulled-Kept s waiting p e h = cc

  released-Kept :
      (s : Sh) (a : Input)
      → Kept (releasing a) s (record s { in_sem = release_one chan sems func s.in_sem }, gating a)
  unfolding release_one
  released-Kept s a = record {
    amount = λ g. refl;
    places = refl;
    input = λ rest capacity v. level s.in_sem _ _ _ v;
    ends = inl refl;
    falls = omega arith;
    stays = λ d. d;
    shut = refl;
    in_shut = refl;
  }
    where
      level :
          (m : Option sems.State) (i k c : ℕ)
          → Level sems m (i + 1 + k) c
          → Level sems (release_one chan sems func m) (i + 0 + k) c
      level none i k c v = v
      level (some m) i k c v = omega (arith, sems.count-release m 1, v)

  acquired-Kept :
      (s : Sh) (a : Input) (r : Option sems.State) (p : Sh × Pc Input)
      → sems.acquire s.out_sem ≡ r
      → on_acquire chan sems func s a r ≡ some p
      → Kept (gating a) s p
  unfolding on_acquire
  acquired-Kept s a none p e h = cc
  acquired-Kept s a (some m) p e h = subst (Kept (gating a) s) (some-injective _ _ h) (record {
    amount = λ g. refl;
    places = omega (arith, sems.count-acquire s.out_sem e);
    input = λ rest capacity v. v;
    ends = inl refl;
    falls = omega arith;
    stays = λ d. d;
    shut = refl;
    in_shut = refl;
  })

  posted-Kept :
      (s : Sh) (a : Input)
      → chan.closed s.out_chan ≡ false
      → Kept (computing a) s (record s { out_chan = chan.post s.out_chan (func a) }, pulling)
  posted-Kept s a o = record {
    amount = λ g. omega (arith, total-Perm g (chan.items-post s.out_chan (func a) o));
    places = omega (arith, length-Perm (chan.items-post s.out_chan (func a) o));
    input = λ rest capacity v. v;
    ends = inl refl;
    falls = omega arith;
    stays = λ d. d;
    shut = chan.closed-post s.out_chan (func a);
    in_shut = refl;
  }

  -- A worker that runs may find the output open.
  pub worker_at-Kept :
      (pc : Pc Input) (s : Shared chan sems func) (p : Shared chan sems func × Pc Input)
      → (still_running pc ≡ 1 → chan.closed s.out_chan ≡ false)
      → worker_at chan sems func pc s ≡ some p
      → Kept pc s p
  unfolding worker_at
  worker_at-Kept pulling s p o h = pulled-Kept s (chan.pull s.in_chan) p refl h
  worker_at-Kept (releasing a) s p o h =
      subst (Kept (releasing a) s) (some-injective _ _ h) (released-Kept s a)
  worker_at-Kept (gating a) s p o h = acquired-Kept s a (sems.acquire s.out_sem) p refl h
  worker_at-Kept (computing a) s p o h =
      subst (Kept (computing a) s) (some-injective _ _ h) (posted-Kept s a (o refl))
  worker_at-Kept finished s p o h = cc

  -- A worker that has returned makes no step.
  pub running_of_step :
      (pc : Pc Input) (s : Shared chan sems func) {p : Shared chan sems func × Pc Input}
      → worker_at chan sems func pc s ≡ some p
      → still_running pc ≡ 1
  unfolding worker_at
  running_of_step pulling s h = refl
  running_of_step (releasing a) s h = refl
  running_of_step (gating a) s h = refl
  running_of_step (computing a) s h = refl
  running_of_step finished s h = cc
