-- ===== src/Braid/Invariant.antt =====
-- The invariant of the tasks of `Braid`: who is on the braid, what a task has loaded, and the number of
-- stores and of increments to come.
use mathlib.Core.Option.{some-injective}
use tmc_examples.Base.{
  ℕ, suc, ◌+◌, ◌%◌, ◌≤◌, ◌≡◌, ◌⊎◌, inl, inr, refl, ap, subst, Bool, true, false, Option, none, some,
  List, [], ◌∷◌, ◌++◌, total, arith,
}
use tmc_examples.Braid.{
  Braid, Action, do_work, enter_braid, increment, exit_braid, Task, Shared, on_enter, on_increment,
  on_end, task_at,
}

abbrev pub flag : Bool → ℕ
flag true = 1
flag false = 0

pub flag_le : (b : Bool) → flag b ≤ 1
flag_le true = omega arith
flag_le false = omega arith

abbrev pub on_braid : Task → ℕ
on_braid t = flag t.held

abbrev pub increments : List Action → ℕ
increments [] = 0
increments (do_work ∷ r) = increments r
increments (enter_braid ∷ r) = increments r
increments (increment ∷ r) = suc (increments r)
increments (exit_braid ∷ r) = increments r

abbrev pub to_come : Task → ℕ
to_come t = increments t.todo

-- Increments stand only between an entry and an exit.
abbrev pub Guarded : Bool → List Action → Type 0
Guarded h [] = Unit
Guarded h (do_work ∷ r) = Guarded h r
Guarded true (enter_braid ∷ r) = Guarded true r
Guarded false (enter_braid ∷ r) = Guarded true r
Guarded true (increment ∷ r) = Guarded true r
Guarded false (increment ∷ r) = ⊥
Guarded true (exit_braid ∷ r) = Guarded false r
Guarded false (exit_braid ∷ r) = ⊥

abbrev pub Fresh : ℕ → Bool → Option ℕ → Type 0
Fresh value h none = Unit
Fresh value h (some v) = (h ≡ true) × (v ≡ value)

abbrev pub Ok : ℕ → Task → Type 0
Ok value t = Guarded t.held t.todo × Fresh value t.held t.loaded

abbrev pub All {ℓ} : {A : Type ℓ} → (A → Type 0) → List A → Type 0
All p [] = Unit
All p (x ∷ xs) = p x × All p xs

pub All-split :
    (p : Task → Type 0) (before : List Task) (t : Task) (after : List Task)
    → All p (before ++ t ∷ after)
    → All p before × p t × All p after
All-split p [] t after h = (tt, h.0, h.1)
All-split p (x ∷ before) t after h =
    let (b, q, a) = All-split p before t after h.1 in ((h.0, b), q, a)

pub All-join :
    (p : Task → Type 0) (before : List Task) (t : Task) (after : List Task)
    → All p before
    → p t
    → All p after
    → All p (before ++ t ∷ after)
All-join p [] t after b q a = (q, a)
All-join p (x ∷ before) t after b q a = (b.0, All-join p before t after b.1 q a)

-- Where no task is on the braid, none has loaded anything.
Fresh-off : (v w : ℕ) (h : Bool) (l : Option ℕ) → flag h ≡ 0 → Fresh v h l → Fresh w h l
Fresh-off v w h none z f = tt
Fresh-off v w true (some x) z f = absurd (omega (arith, z))
Fresh-off v w false (some x) z f = cc

pub All-off : (v w : ℕ) (ts : List Task) → total on_braid ts ≡ 0 → All (Ok v) ts → All (Ok w) ts
All-off v w [] z a = tt
All-off v w (t ∷ ts) z a = (
  (a.0.0, Fresh-off v w t.held t.loaded (omega (arith, z)) a.0.1),
  All-off v w ts (omega (arith, z)) a.1,
)

module _ (braid : Braid) (m : ℕ) where
  abbrev Sh : Type 0
  Sh = Shared braid m

  -- The step of one task, with `rest` others on the braid: it leaves the value alone, or stores the
  -- value plus 1, and then no other task is on the braid.
  pub record Kept (todo : List Action) (s : Shared braid m) (rest : ℕ) (p : Shared braid m × Task)
      : Type 0 where
    pub level : flag p.1.held + rest ≡ flag (braid.busy p.0.br)
    pub ok : Ok p.0.value p.1
    pub stored :
        ((p.0.value ≡ s.value) × (to_come p.1 ≡ increments todo))
        ⊎ ((rest ≡ 0) × (p.0.value ≡ (s.value + 1) % m) × (suc (to_come p.1) ≡ increments todo))

  none_left : (b : Bool) (rest : ℕ) → 1 + rest ≡ flag b → rest ≡ 0
  none_left b rest h = omega (arith, h, flag_le b)

  enter-Kept :
      (s : Sh) (rest : ℕ) (r : List Action) (o : Option braid.State) (p : Sh × Task)
      → Guarded true r
      → flag false + rest ≡ flag (braid.busy s.br)
      → braid.enter s.br ≡ o
      → on_enter braid m s r o ≡ some p
      → Kept (enter_braid ∷ r) s rest p
  unfolding on_enter
  enter-Kept s rest r none p g v e h = cc
  enter-Kept s rest r (some b) p g v e h =
      let (idle, busy) = braid.enter_some s.br e in
      subst (Kept (enter_braid ∷ r) s rest) (some-injective _ _ h) (record {
        level = omega (arith, ap flag idle, ap flag busy, v);
        ok = (g, tt);
        stored = inl (refl, refl);
      })

  increment-Kept :
      (s : Sh) (rest : ℕ) (r : List Action) (l : Option ℕ)
      → Guarded true r
      → Fresh s.value true l
      → flag true + rest ≡ flag (braid.busy s.br)
      → Kept (increment ∷ r) s rest (on_increment braid m true l r s)
  unfolding on_increment
  increment-Kept s rest r none g f v = record {
    level = v;
    ok = (g, (refl, refl));
    stored = inl (refl, refl);
  }
  increment-Kept s rest r (some x) g f v = record {
    level = v;
    ok = (g, tt);
    stored = inr (none_left (braid.busy s.br) rest v, ap (λ y. (y + 1) % m) f.1, refl);
  }

  leave-Kept :
      (s : Sh) (rest : ℕ) (todo r : List Action)
      → Guarded false r
      → increments r ≡ increments todo
      → flag true + rest ≡ flag (braid.busy s.br)
      → Kept todo s rest
          (record s { br = braid.leave s.br }, record { held = false; loaded = none; todo = r })
  leave-Kept s rest todo r g e v = record {
    level = omega (arith, none_left (braid.busy s.br) rest v, ap flag (braid.busy-leave s.br));
    ok = (g, tt);
    stored = inl (refl, e);
  }

  pub task_at-Kept :
      (h : Bool) (l : Option ℕ) (todo : List Action) (s : Shared braid m) (rest : ℕ)
      (p : Shared braid m × Task)
      → Guarded h todo
      → Fresh s.value h l
      → flag h + rest ≡ flag (braid.busy s.br)
      → task_at braid m h l todo s ≡ some p
      → Kept todo s rest p
  unfolding task_at on_end
  task_at-Kept true l [] s rest p g f v e =
      subst (Kept [] s rest) (some-injective _ _ e) (leave-Kept s rest [] [] tt refl v)
  task_at-Kept false l [] s rest p g f v e = cc
  task_at-Kept h l (do_work ∷ r) s rest p g f v e =
      subst (Kept (do_work ∷ r) s rest) (some-injective _ _ e)
        (record { level = v; ok = (g, tt); stored = inl (refl, refl) })
  task_at-Kept true l (enter_braid ∷ r) s rest p g f v e =
      subst (Kept (enter_braid ∷ r) s rest) (some-injective _ _ e)
        (record { level = v; ok = (g, tt); stored = inl (refl, refl) })
  task_at-Kept false l (enter_braid ∷ r) s rest p g f v e =
      enter-Kept s rest r (braid.enter s.br) p g v refl e
  task_at-Kept true l (increment ∷ r) s rest p g f v e =
      subst (Kept (increment ∷ r) s rest) (some-injective _ _ e) (increment-Kept s rest r l g f v)
  task_at-Kept false l (increment ∷ r) s rest p g f v e = absurd g
  task_at-Kept true l (exit_braid ∷ r) s rest p g f v e =
      subst (Kept (exit_braid ∷ r) s rest) (some-injective _ _ e)
        (leave-Kept s rest (exit_braid ∷ r) r g refl v)
  task_at-Kept false l (exit_braid ∷ r) s rest p g f v e = absurd g
