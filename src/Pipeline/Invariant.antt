-- ===== src/Pipeline/Invariant.antt =====
-- The invariant of the stage of `Pipeline`, kept by each step of its workers and neighbours.
use tmc_examples.Base.{
  total, total-at, total-replicate_none, total-replicate_one, ℕ, ◌+◌, ◌*◌, ◌≡◌, ◌≢◌, ◌⊎◌, inl, inr,
  refl, sym, ap, ◌∙◌, subst, true, false, Option, none, some, List, ◌∷◌, ◌++◌, replicate, length,
  length-Perm, arith, Bool-cases,
}
use mathlib.Core.Option.{some-injective}
use tmc_examples.Pipeline.Channels.{Channel, Semaphore}
use tmc_examples.Pipeline.{
  Pc, pulling, Shared, make_stage, release_capacity, worker_at, still_running, System, Step, work,
  close_output, acquire_input, send, send_freely, close_input, take, release_output, start, Reach,
  here, next,
}
use tmc_examples.Pipeline.Moves.{
  total-Perm, Level, to_release, to_post, held, Drained, Kept, worker_at-Kept,
}

module _ (chan : Channel) (sems : Semaphore) {Input Output : Type 0} (func : Input → Output) where
  abbrev Sys : Type 0
  Sys = System chan sems func

  -- What the semaphore of the input grants in all.
  abbrev pub capacity : Option sems.State → ℕ → ℕ
  capacity none worker_count = 0
  capacity (some m) worker_count = sems.count m + 2 * worker_count

  pub record Inv (n next_count most : ℕ) (s : System chan sems func) : Type 0 where
    pub amount :
        (g : Output → ℕ)
        → total g s.received
            + total g (chan.items s.out_chan)
            + total (held chan sems func g) s.workers
            + total (λ a. g (func a)) (chan.items s.in_chan)
          ≡ total (λ a. g (func a)) s.sent
    pub places :
        sems.count s.out_sem
          + length (chan.items s.out_chan)
          + total to_post s.workers
          + s.unreleased
        ≡ 2 * next_count
    pub input :
        Level sems s.in_sem
          (length (chan.items s.in_chan) + total to_release s.workers + s.permits)
          most
    pub running : (total still_running s.workers ≡ n) ⊎ Drained chan sems func s.shared
    pub ended : chan.closed s.out_chan ≡ true → total still_running s.workers ≡ 0

  along_eq : (m : Option sems.State) {u v : ℕ} (c : ℕ) → u ≡ v → Level sems m u c → Level sems m v c
  along_eq m c e h = subst (λ w. Level sems m w c) e h

  work-Inv :
      {n x c : ℕ} (s : Sys) (before after : List (Pc Input)) (pc pc' : Pc Input)
      (t : Shared chan sems func)
      → s.workers ≡ before ++ pc ∷ after
      → worker_at chan sems func pc s.shared ≡ some (t, pc')
      → Inv n x c s
      → Inv n x c (record s { shared = t; workers = before ++ pc' ∷ after })
  work-Inv {n} {x} {c} s before after pc pc' t e h v = record {
    amount = λ g. omega (
      arith,
      v.amount g,
      k.amount g,
      split (held chan sems func g),
      total-at (held chan sems func g) before pc' after,
    );
    places = omega (arith, v.places, k.places, split to_post, total-at to_post before pc' after);
    input = along_eq t.in_sem c (omega (arith, total-at to_release before pc' after)) (
        k.input (total to_release before + total to_release after + s.permits) c
          (along_eq s.in_sem c (omega (arith, split to_release)) v.input));
    running = elim v.running [
      | inl r ↦ elim k.ends [
        | inl q ↦
            inl (omega (arith, r, q, split still_running, total-at still_running before pc' after))
        | inr d ↦ inr d
      ]
      | inr d ↦ inr (k.stays d)
    ];
    ended = λ z. omega (
      arith,
      v.ended (sym k.shut ∙ z),
      k.falls,
      split still_running,
      total-at still_running before pc' after,
    );
  }
    where
      split : (w : Pc Input → ℕ) → total w s.workers ≡ total w before + w pc + total w after
      split w = ap (total w) e ∙ total-at w before pc after

      open_while : still_running pc ≡ 1 → chan.closed s.out_chan ≡ false
      open_while one = elim (Bool-cases (chan.closed s.out_chan)) [
        | inl z ↦ absurd (omega (arith, v.ended z, one, split still_running))
        | inr z ↦ z
      ]

      k : Kept chan sems func pc s.shared (t, pc')
      k = worker_at-Kept chan sems func pc s.shared (t, pc') open_while h

  acquired_input :
      (o : Option sems.State) {m m' : sems.State} (u c : ℕ)
      → o ≡ some m
      → sems.acquire m ≡ some m'
      → Level sems o u c
      → Level sems (some m') (u + 1) c
  acquired_input none u c e f v = cc
  acquired_input (some k) u c e f v =
      omega (arith, ap sems.count (some-injective _ _ e), sems.count-acquire _ f, v)

  ungated_input :
      (o : Option sems.State) (u u' c : ℕ) → o ≡ none → Level sems o u c → Level sems o u' c
  ungated_input none u u' c e v = v
  ungated_input (some m) u u' c e v = cc

  open_input :
      (s : Shared chan sems func) → chan.closed s.in_chan ≡ false → ¬ Drained chan sems func s
  open_input s o d = cc

  Step-Inv : {n x c : ℕ} {s t : Sys} → Step chan sems func s t → Inv n x c s → Inv n x c t
  Step-Inv {s = s} (work before after pc {pc'} {t} e h) v = work-Inv s before after pc pc' t e h v
  Step-Inv {s = s} (close_output z) v = record {
    amount = λ g. rw (chan.items-close s.out_chan) (v.amount g);
    places = rw (chan.items-close s.out_chan) v.places;
    input = v.input;
    running = v.running;
    ended = λ y. z;
  }
  Step-Inv {c = c} {s} (acquire_input e f) v = record {
    amount = v.amount;
    places = v.places;
    input = omega (arith, acquired_input s.in_sem _ c e f v.input);
    running = v.running;
    ended = v.ended;
  }
  Step-Inv {c = c} {s} (send a o h) v = record {
    amount = λ g.
        omega (arith, v.amount g, total-Perm (λ b. g (func b)) (chan.items-post s.in_chan a o));
    places = v.places;
    input =
        along_eq s.in_sem c (omega (arith, length-Perm (chan.items-post s.in_chan a o), h)) v.input;
    running = elim v.running [ inl r ↦ inl r | inr d ↦ absurd (open_input s.shared o d) ];
    ended = v.ended;
  }
  Step-Inv {c = c} {s} (send_freely a o e) v = record {
    amount = λ g.
        omega (arith, v.amount g, total-Perm (λ b. g (func b)) (chan.items-post s.in_chan a o));
    places = v.places;
    input = ungated_input s.in_sem _ _ c e v.input;
    running = elim v.running [ inl r ↦ inl r | inr d ↦ absurd (open_input s.shared o d) ];
    ended = v.ended;
  }
  Step-Inv {c = c} {s} close_input v = record {
    amount = λ g. rw (chan.items-close s.in_chan) (v.amount g);
    places = v.places;
    input = along_eq s.in_sem c (rw (chan.items-close s.in_chan) refl) v.input;
    running = elim v.running [
      | inl r ↦ inl r
      | inr d ↦ inr (chan.items-close s.in_chan ∙ d.0, chan.closed-close s.in_chan)
    ];
    ended = v.ended;
  }
  Step-Inv {s = s} (take e) v = record {
    amount = λ g. omega (arith, v.amount g, total-Perm g (chan.items-pull s.out_chan e));
    places = omega (arith, v.places, length-Perm (chan.items-pull s.out_chan e));
    input = v.input;
    running = v.running;
    ended = λ z. v.ended (sym (chan.closed-pull s.out_chan e) ∙ z);
  }
  Step-Inv {s = s} (release_output h) v = record {
    amount = v.amount;
    places = omega (arith, v.places, sems.count-release s.out_sem 1, h);
    input = v.input;
    running = v.running;
    ended = v.ended;
  }

  shut_at_start : chan.closed (chan.make {A = Output}) ≡ true → ⊥
  shut_at_start z = true_false (sym z ∙ chan.closed-make {A = Output})
    where
      true_false : true ≢ false
      true_false e = cc

  start-Inv :
      (in_sem : Option sems.State) (n x : ℕ)
      → Inv n x (capacity in_sem n) (start chan sems func in_sem n x)
  unfolding start make_stage
  start-Inv in_sem n x = record {
    amount = λ g.
        rw (chan.items-make {A = Output}, chan.items-make {A = Input})
          (omega (arith, total-replicate_none (held chan sems func g) n pulling refl));
    places = rw (chan.items-make {A = Output}) (
        omega (
          arith,
          sems.count-release (sems.make 0) (2 * x),
          sems.count-make 0,
          total-replicate_none to_post n pulling refl,
        ));
    input = rw (chan.items-make {A = Input}) (start_level in_sem);
    running = inl (omega (arith, total-replicate_one {A = Pc Input} still_running n pulling refl));
    ended = λ z. absurd (shut_at_start z);
  }
    where
      start_level :
          (o : Option sems.State)
          → Level sems
              (release_capacity chan sems func n o)
              (0 + total {A = Pc Input} to_release (replicate n pulling) + 0)
              (capacity o n)
      start_level none = refl
      start_level (some m) =
          omega
            (arith, sems.count-release m (2 * n), total-replicate_none to_release n pulling refl)

  pub Reach-Inv :
      {in_sem : Option sems.State} {n x : ℕ} {s : Sys}
      → Reach chan sems func in_sem n x s
      → Inv n x (capacity in_sem n) s
  Reach-Inv {in_sem} {n} {x} here = start-Inv in_sem n x
  Reach-Inv (next r st) = Step-Inv st (Reach-Inv r)
