-- ===== src/Braid/Count.antt =====
-- The count that the tasks of `Braid` end with.
use native.Mathlib.Nat.{mod-add-mod, mod-eq_of_lt, zero-mod}
use tmc_examples.Base.{
  ℕ, zero, suc, ◌+◌, ◌%◌, ◌<◌, ◌≡◌, ◌⊎◌, inl, inr, refl, sym, ap, ◌∙◌, subst, false, none, some,
  List, [], ◌∷◌, ◌++◌, replicate, total, total-at, arith, ==_iff,
}
use tmc_examples.Braid.{
  Braid, Action, Task, Shared, step, System, run, start, Reach, here, next, fails, Form, lock,
  lock_middle, lock_middle_resume_on, lock_middle_child, tasks_on_braid, funcs_on_braid, braid_lock,
  braid_lock_middle, braid_lock_middle_resume_on, braid_lock_middle_child, child_tasks_run_on_braid,
  child_funcs_run_on_braid, braid_lock_run_on, braid_lock_middle_run_on,
  braid_lock_middle_resume_on_run_on, braid_lock_middle_child_run_on, lock_run_on,
  lock_middle_run_on, lock_middle_resume_on_run_on, lock_middle_child_run_on,
}
use tmc_examples.Braid.Invariant.{
  flag, on_braid, increments, to_come, Guarded, Ok, All, All-split, All-join, All-off, Kept,
  task_at-Kept,
}

module _ (braid : Braid) (m : ℕ) where
  pub record Inv (goal : ℕ) (s : System braid m) : Type 0 where
    pub level : total on_braid s.tasks ≡ flag (braid.busy s.br)
    pub tasks_ok : All (Ok s.value) s.tasks
    pub stores : ℕ
    pub counted : s.value ≡ stores % m
    pub goal_eq : stores + total to_come s.tasks ≡ goal

  step-Inv :
      {goal : ℕ} (s : System braid m) (before after : List Task) (t t' : Task) (u : Shared braid m)
      → s.tasks ≡ before ++ t ∷ after
      → step braid m t s.shared ≡ some (u, t')
      → Inv goal s
      → Inv goal (record { shared = u; tasks = before ++ t' ∷ after })
  unfolding step
  step-Inv {goal} s before after t t' u e h v = go k.stored
    where
      split : (w : Task → ℕ) → total w s.tasks ≡ total w before + w t + total w after
      split w = ap (total w) e ∙ total-at w before t after

      oks : All (Ok s.value) before × Ok s.value t × All (Ok s.value) after
      oks = All-split (Ok s.value) before t after (subst (All (Ok s.value)) e v.tasks_ok)

      k : Kept braid m t.todo s.shared (total on_braid before + total on_braid after) (u, t')
      k =
          task_at-Kept braid m t.held t.loaded t.todo s.shared
            (total on_braid before + total on_braid after) (u, t') oks.1.0 oks.1.1
            (omega (arith, v.level, split on_braid)) h

      new_level : total on_braid (before ++ t' ∷ after) ≡ flag (braid.busy u.br)
      new_level = omega (arith, total-at on_braid before t' after, k.level)

      go :
          ((u.value ≡ s.value) × (to_come t' ≡ increments t.todo))
            ⊎ ((total on_braid before + total on_braid after ≡ 0)
                × (u.value ≡ (s.value + 1) % m)
                × (suc (to_come t') ≡ increments t.todo))
          → Inv goal (record { shared = u; tasks = before ++ t' ∷ after })
      go (inl c) = record {
        level = new_level;
        tasks_ok =
            All-join (Ok u.value) before t' after (subst (λ w. All (Ok w) before) (sym c.0) oks.0)
              k.ok (subst (λ w. All (Ok w) after) (sym c.0) oks.2);
        stores = v.stores;
        counted = c.0 ∙ v.counted;
        goal_eq = omega (arith, v.goal_eq, split to_come, total-at to_come before t' after, c.1);
      }
      go (inr c) = record {
        level = new_level;
        tasks_ok =
            All-join (Ok u.value) before t' after
              (All-off s.value u.value before (omega (arith, c.0)) oks.0) k.ok
              (All-off s.value u.value after (omega (arith, c.0)) oks.2);
        stores = v.stores + 1;
        counted = c.1 ∙ ap (λ w. (w + 1) % m) v.counted ∙ mod-add-mod v.stores m 1;
        goal_eq = omega (arith, v.goal_eq, split to_come, total-at to_come before t' after, c.2);
      }

  abbrev fresh_task : List Action → Task
  fresh_task body = record { held = false; loaded = none; todo = body }

  none_entered : (body : List Action) (n : ℕ) → total on_braid (replicate n (fresh_task body)) ≡ 0
  none_entered body zero = refl
  none_entered body (suc n) = omega (arith, none_entered body n)

  untouched :
      (body : List Action) (n value : ℕ)
      → Guarded false body
      → All (Ok value) (replicate n (fresh_task body))
  untouched body zero value g = tt
  untouched body (suc n) value g = ((g, tt), untouched body n value g)

  one_each :
      (body : List Action) (n : ℕ)
      → increments body ≡ 1
      → total to_come (replicate n (fresh_task body)) ≡ n
  one_each body zero h = refl
  one_each body (suc n) h = omega (arith, h, one_each body n h)

  start-Inv :
      (body : List Action) (n : ℕ)
      → Guarded false body
      → increments body ≡ 1
      → Inv n (start braid m body n)
  unfolding start
  start-Inv body n g h = record {
    level = omega (arith, none_entered body n, ap flag braid.busy-make);
    tasks_ok = untouched body n 0 g;
    stores = 0;
    counted = sym (zero-mod m);
    goal_eq = omega (arith, one_each body n h);
  }

  pub Reach-Inv :
      {body : List Action} {n : ℕ} {s : System braid m}
      → Guarded false body
      → increments body ≡ 1
      → Reach braid m body n s
      → Inv n s
  Reach-Inv {body} {n} g h here = start-Inv body n g h
  Reach-Inv {n = n} g h (next {s} r (run before after t {t'} {u} e f)) =
      step-Inv s before after t t' u e f (Reach-Inv g h r)

  -- In each form every increment stands on the braid, and there is one.
  pub form_lem : {body : List Action} → Form body → Guarded false body × (increments body ≡ 1)
  unfolding braid_lock braid_lock_middle braid_lock_middle_resume_on braid_lock_middle_child
      braid_lock_run_on braid_lock_middle_run_on braid_lock_middle_resume_on_run_on
      braid_lock_middle_child_run_on child_tasks_run_on_braid child_funcs_run_on_braid
  form_lem lock = (tt, refl)
  form_lem lock_middle = (tt, refl)
  form_lem lock_middle_resume_on = (tt, refl)
  form_lem lock_middle_child = (tt, refl)
  form_lem lock_run_on = (tt, refl)
  form_lem lock_middle_run_on = (tt, refl)
  form_lem lock_middle_resume_on_run_on = (tt, refl)
  form_lem lock_middle_child_run_on = (tt, refl)
  form_lem tasks_on_braid = (tt, refl)
  form_lem funcs_on_braid = (tt, refl)

  none_to_come : (ts : List Task) → All (λ t. t.todo ≡ []) ts → total to_come ts ≡ 0
  none_to_come [] a = refl
  none_to_come (t ∷ ts) a = omega (arith, ap increments a.0, none_to_come ts a.1)

  module _ {body : List Action} {n : ℕ} {s : System braid m} where
    -- In each of the forms, and in every interleaving of the loads and stores, no increment is
    -- lost: when all tasks are at their end, the value is their number, and no `FAIL` line is
    -- printed. The number of tasks is to fit the word.
    pub fails-Form :
        Form body
        → Reach braid m body n s
        → n < m
        → All (λ t. t.todo ≡ []) s.tasks
        → fails braid m n s ≡ false
    unfolding fails
    fails-Form f r fits ended = rw ((==_iff s.value n).1 counts) refl
      where
        v : Inv n s
        v = Reach-Inv (form_lem f).0 (form_lem f).1 r

        all_stored : v.stores ≡ n
        all_stored = omega (arith, v.goal_eq, none_to_come s.tasks ended)

        counts : s.value ≡ n
        counts = v.counted ∙ ap (λ k. k % m) all_stored ∙ mod-eq_of_lt fits
