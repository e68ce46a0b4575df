-- ===== src/Braid/Progress.antt =====
-- The groups of `Braid` come to their end: some task can make a step until all are at their end, and
-- the steps are limited.
use tmc_examples.Base.{
  one_of, ℕ, ◌+◌, ◌*◌, ◌<◌, ◌≡◌, ◌⊎◌, inl, inr, refl, sym, ap, ◌∙◌, subst, Bool, true, false,
  Option, none, some, List, [], ◌∷◌, ◌++◌, total, total-at, length, arith,
}
use mathlib.Core.Option.{some-injective}
use tmc_examples.Braid.{
  Braid, Action, do_work, enter_braid, increment, exit_braid, Task, Shared, on_enter, on_increment,
  on_end, task_at, step, System, Step, run, Reach, Form, fails, async_main, tasks_on_braid,
  funcs_on_braid, lock_run_on, lock_middle_run_on, lock_middle_resume_on_run_on,
  lock_middle_child_run_on,
}
use tmc_examples.Braid.Invariant.{flag, on_braid, Guarded, Ok, All, All-split}
use tmc_examples.Braid.Count.{Inv, Reach-Inv, form_lem, fails-Form}

-- A bound of the steps that a task has left.
abbrev work_left : List Action → ℕ
work_left [] = 0
work_left (do_work ∷ r) = 2 + work_left r
work_left (enter_braid ∷ r) = 4 + work_left r
work_left (increment ∷ r) = 2 + work_left r
work_left (exit_braid ∷ r) = 2 + work_left r

abbrev to_load : Option ℕ → ℕ
to_load none = 1
to_load (some v) = 0

abbrev effort_of : Bool → Option ℕ → List Action → ℕ
effort_of h l todo = 2 * flag h + to_load l + work_left todo

abbrev pub effort : Task → ℕ
effort t = effort_of t.held t.loaded t.todo

-- A task at its end has nothing to do and is not on the braid.
abbrev pub Ended : Task → Type 0
Ended t = (t.todo ≡ []) × (t.held ≡ false)

nothing_left :
    (ts : List Task) → total on_braid ts ≡ 0 → total (λ t. length t.todo) ts ≡ 0 → All Ended ts
nothing_left [] z e = tt
nothing_left (t ∷ ts) z e = (
  (empty t.todo (omega (arith, e)), off t.held (omega (arith, z))),
  nothing_left ts (omega (arith, z)) (omega (arith, e)),
)
  where
    empty : (xs : List Action) → length xs ≡ 0 → xs ≡ []
    empty [] z = refl
    empty (x ∷ xs) z = absurd (omega (arith, z))

    off : (b : Bool) → flag b ≡ 0 → b ≡ false
    off true z = absurd (omega (arith, z))
    off false z = refl

module _ (braid : Braid) (m : ℕ) where
  abbrev Lower : ℕ → Shared braid m × Task → Type 0
  Lower n p = effort p.1 < n

  entered-effort :
      (s : Shared braid m) (r : List Action) (l : Option ℕ) (o : Option braid.State)
      (p : Shared braid m × Task)
      → on_enter braid m s r o ≡ some p
      → Lower (effort_of false l (enter_braid ∷ r)) p
  unfolding on_enter
  entered-effort s r l none p e = cc
  entered-effort s r l (some b) p e =
      subst (Lower (effort_of false l (enter_braid ∷ r))) (some-injective _ _ e) (omega arith)

  task_at-effort :
      (h : Bool) (l : Option ℕ) (todo : List Action) (s : Shared braid m)
      (p : Shared braid m × Task)
      → task_at braid m h l todo s ≡ some p
      → Lower (effort_of h l todo) p
  unfolding task_at on_end on_increment
  task_at-effort true l [] s p e =
      subst (Lower (effort_of true l [])) (some-injective _ _ e) (omega arith)
  task_at-effort false l [] s p e = cc
  task_at-effort h l (do_work ∷ r) s p e =
      subst (Lower (effort_of h l (do_work ∷ r))) (some-injective _ _ e) (omega arith)
  task_at-effort true l (enter_braid ∷ r) s p e =
      subst (Lower (effort_of true l (enter_braid ∷ r))) (some-injective _ _ e) (omega arith)
  task_at-effort false l (enter_braid ∷ r) s p e = entered-effort s r l (braid.enter s.br) p e
  task_at-effort h none (increment ∷ r) s p e =
      subst (Lower (effort_of h none (increment ∷ r))) (some-injective _ _ e) (omega arith)
  task_at-effort h (some v) (increment ∷ r) s p e =
      subst (Lower (effort_of h (some v) (increment ∷ r))) (some-injective _ _ e) (omega arith)
  task_at-effort h l (exit_braid ∷ r) s p e =
      subst (Lower (effort_of h l (exit_braid ∷ r))) (some-injective _ _ e) (omega arith)

  -- A task on the braid is not held up.
  on_braid_goes :
      (l : Option ℕ) (todo : List Action) (s : Shared braid m)
      → (p : Shared braid m × Task) × (task_at braid m true l todo s ≡ some p)
  unfolding task_at on_end
  on_braid_goes l [] s = (_, refl)
  on_braid_goes l (do_work ∷ r) s = (_, refl)
  on_braid_goes l (enter_braid ∷ r) s = (_, refl)
  on_braid_goes l (increment ∷ r) s = (_, refl)
  on_braid_goes l (exit_braid ∷ r) s = (_, refl)

  enters_free :
      (s : Shared braid m) (r : List Action) (o : Option braid.State)
      → braid.enter s.br ≡ o
      → braid.busy s.br ≡ false
      → (p : Shared braid m × Task) × (on_enter braid m s r o ≡ some p)
  unfolding on_enter
  enters_free s r none e idle = absurd (not_both (sym idle ∙ braid.enter_none s.br e))
    where
      not_both : ¬ (◌≡◌ {A = Bool} false true)
      not_both z = cc
  enters_free s r (some b) e idle = (_, refl)

  -- Nor is one that is not, while the braid is free.
  off_braid_goes :
      (l : Option ℕ) (todo : List Action) (s : Shared braid m)
      → Guarded false todo
      → braid.busy s.br ≡ false
      → 0 < length todo
      → (p : Shared braid m × Task) × (task_at braid m false l todo s ≡ some p)
  unfolding task_at
  off_braid_goes l [] s g idle some_left = absurd (omega (arith, some_left))
  off_braid_goes l (do_work ∷ r) s g idle some_left = (_, refl)
  off_braid_goes l (enter_braid ∷ r) s g idle some_left =
      enters_free s r (braid.enter s.br) refl idle
  off_braid_goes l (increment ∷ r) s g idle some_left = absurd g
  off_braid_goes l (exit_braid ∷ r) s g idle some_left = absurd g

  Lowers : {s t : System braid m} → Step braid m s t → total effort t.tasks < total effort s.tasks
  unfolding step
  Lowers (run before after t {t'} {u} e h) = omega (
    arith,
    task_at-effort t.held t.loaded t.todo _ (u, t') h,
    ap (total effort) e,
    total-at effort before t after,
    total-at effort before t' after,
  )

  -- From an element that counts for `on_braid`, or one that has actions left, a step.
  goes_at :
      (s : System braid m) (front back : List Task) (t : Task)
      → s.tasks ≡ front ++ t ∷ back
      → (p : Shared braid m × Task) × (task_at braid m t.held t.loaded t.todo s.shared ≡ some p)
      → (u : System braid m) × Step braid m s u
  unfolding step
  goes_at s front back t e (p, h) = (_, run front back t {t' = p.1} {u = p.0} e h)

  held_goes :
      (s : System braid m) (t : Task)
      → 0 < on_braid t
      → (p : Shared braid m × Task) × (task_at braid m t.held t.loaded t.todo s.shared ≡ some p)
  held_goes s t c = at_flag t.held c
    where
      at_flag :
          (h : Bool)
          → 0 < flag h
          → (p : Shared braid m × Task) × (task_at braid m h t.loaded t.todo s.shared ≡ some p)
      at_flag true c = on_braid_goes t.loaded t.todo s.shared
      at_flag false c = absurd (omega (arith, c))

  idle_goes :
      (s : System braid m) (t : Task)
      → Guarded t.held t.todo
      → on_braid t ≡ 0
      → braid.busy s.br ≡ false
      → 0 < length t.todo
      → (p : Shared braid m × Task) × (task_at braid m t.held t.loaded t.todo s.shared ≡ some p)
  idle_goes s t g z idle some_left = at_flag t.held g z
    where
      at_flag :
          (h : Bool)
          → Guarded h t.todo
          → flag h ≡ 0
          → (p : Shared braid m × Task) × (task_at braid m h t.loaded t.todo s.shared ≡ some p)
      at_flag true g z = absurd (omega (arith, z))
      at_flag false g z = off_braid_goes t.loaded t.todo s.shared g idle some_left

  idle_of : (b : Bool) → 0 ≡ flag b → b ≡ false
  idle_of true z = absurd (omega (arith, z))
  idle_of false z = refl

  goes_on :
      {n : ℕ} (s : System braid m)
      → Inv braid m n s
      → All Ended s.tasks ⊎ ((u : System braid m) × Step braid m s u)
  goes_on s v = elim (one_of on_braid s.tasks) [
    | inr p ↦ inr (goes_at s p.front p.back p.one p.split (held_goes s p.one p.counts))
    | inl z ↦ elim (one_of (λ t. length t.todo) s.tasks) [
      | inl e ↦ inl (nothing_left s.tasks z e)
      | inr p ↦
          let idle = idle_of (braid.busy s.br) (omega (arith, z, v.level)) in
          let oks =
            All-split (Ok s.value) p.front p.one p.back
              (subst (All (Ok s.value)) p.split v.tasks_ok) in
          let off : on_braid p.one ≡ 0 =
            omega (arith, z, ap (total on_braid) p.split, total-at on_braid p.front p.one p.back) in
          inr (goes_at s p.front p.back p.one p.split (idle_goes s p.one oks.1.0 off idle p.counts))
    ]
  ]

  none_to_do : (ts : List Task) → All Ended ts → All (λ t. t.todo ≡ []) ts
  none_to_do [] a = tt
  none_to_do (t ∷ ts) a = (a.0.0, none_to_do ts a.1)

  module _ {body : List Action} {n : ℕ} {s : System braid m} where
    -- In each of the forms, and in every interleaving of the loads and stores, a group comes to its
    -- end without a `FAIL` line: all tasks are at their end and off the braid, and the value is
    -- their number, or some task can make a step; and each step lowers a bound of the steps that
    -- are left. The number of tasks is to fit the word.
    pub goes_on-Form :
        Form body
        → Reach braid m body n s
        → n < m
        → ((All Ended s.tasks × (fails braid m n s ≡ false))
            ⊎ ((u : System braid m) × Step braid m s u))
          × ((u : System braid m) → Step braid m s u → total effort u.tasks < total effort s.tasks)
    goes_on-Form f r fits = (
      elim (goes_on s (Reach-Inv braid m (form_lem braid m f).0 (form_lem braid m f).1 r)) [
        | inl a ↦ inl (a, fails-Form braid m f r fits (none_to_do s.tasks a))
        | inr g ↦ inr g
      ],
      λ u st. Lowers st,
    )

-- Each group of the program is of one of the forms.
async_main-Form : All Form async_main
unfolding async_main
async_main-Form = (
  tasks_on_braid,
  (
    funcs_on_braid,
    (
      lock_run_on,
      (lock_middle_run_on, (lock_middle_resume_on_run_on, (lock_middle_child_run_on, tt))),
    ),
  ),
)
