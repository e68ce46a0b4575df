-- ===== src/ExternalExecutor/Program/Hops.antt =====
-- The runs of `ExternalExecutor.Program`, in every order of the steps of its threads.
use mathlib.Core.Path.{fun_ext}
use tmc_examples.Base.{
  ℕ, zero, suc, ◌+◌, ◌<◌, ◌≡◌, ◌⊎◌, inl, inr, refl, sym, ap, ◌∙◌, subst, Bool, true, false, Option,
  none, some, List, [], ◌∷◌, ◌++◌, arith,
}
use tmc_examples.ExternalExecutor.{
  notify, section, section_at, Pc, exited, make_executor, run_work, on_section, on_wait, worker_at,
  worker, post_item, post, stop, request_stop,
}
use tmc_examples.ExternalExecutor.Program as Program
use tmc_examples.ExternalExecutor.Program.{
  Where, cpu_executor, external, Name, cpu_thread_name, external_thread_name, Thread, Line,
  heading_cpu, heading_external, awaiting, coro_started, child_task_on, coro_resumed, Item, Main,
  returned, State, perform, print, cpu_steps, on_worker, external_work, external_steps, when_ready,
  when_exited, main_steps, steps_of, start, Reach, here, next,
}

-- What the program prints.
abbrev pub all_lines : List Line
all_lines =
    heading_cpu
    ∷ coro_started cpu_thread_name
    ∷ awaiting
    ∷ child_task_on external_thread_name
    ∷ coro_resumed cpu_thread_name
    ∷ heading_external
    ∷ coro_started external_thread_name
    ∷ awaiting
    ∷ child_task_on cpu_thread_name
    ∷ coro_resumed external_thread_name
    ∷ []

-- Tests that give a proof where they succeed.
abbrev both : {A B : Type 0} → Option A → Option B → Option (A × B)
both (some a) (some b) = some (a, b)
both (some a) none = none
both none b = none

abbrev through : {A B : Type 0} → (A → B) → Option A → Option B
through f (some a) = some (f a)
through f none = none

abbrev same_name : (a b : Name) → Option (a ≡ b)
same_name cpu_thread_name cpu_thread_name = some refl
same_name external_thread_name external_thread_name = some refl
same_name a b = none

abbrev same_line : (a b : Line) → Option (a ≡ b)
same_line heading_cpu heading_cpu = some refl
same_line heading_external heading_external = some refl
same_line awaiting awaiting = some refl
same_line (coro_started a) (coro_started b) = through (ap coro_started) (same_name a b)
same_line (child_task_on a) (child_task_on b) = through (ap child_task_on) (same_name a b)
same_line (coro_resumed a) (coro_resumed b) = through (ap coro_resumed) (same_name a b)
same_line a b = none

abbrev same_lines : (xs ys : List Line) → Option (xs ≡ ys)
same_lines [] [] = some refl
same_lines (x ∷ xs) (y ∷ ys) =
    through (λ h. ap (λ z. z ∷ xs) h.0 ∙ ap (λ zs. y ∷ zs) h.1)
      (both (same_line x y) (same_lines xs ys))
same_lines xs ys = none

abbrev at_return : (m : Main) → Option (m ≡ returned)
at_return returned = some refl
at_return m = none

abbrev at_exit : (pc : Pc Item) → Option (pc ≡ exited)
at_exit exited = some refl
at_exit pc = none

abbrev Each : {A : Type 0} → (A → Type 0) → List A → Type 0
Each p [] = Unit
Each p (x ∷ xs) = p x × Each p xs

abbrev each :
    {A : Type 0} {p : A → Type 0} → ((a : A) → Option (p a)) → (xs : List A) → Option (Each p xs)
each f [] = some tt
each f (x ∷ xs) = both (f x) (each f xs)

module _ (leaves : Item → ℕ → ℕ) (continuation : Thread → Where) where
  -- The program is over.
  abbrev pub Over : State leaves continuation → Type 0
  Over s =
      (steps_of leaves continuation s ≡ [])
      × (s.main ≡ returned)
      × (s.external_executor.pc ≡ exited)
      × (s.printed ≡ all_lines)

  -- Every order of the steps comes to such an end, within `n` steps.
  abbrev Ends : ℕ → State leaves continuation → Type 0
  Ends zero s = ⊥
  Ends (suc n) s =
      Over s
      ⊎ ((t : State leaves continuation) × (ts : List (State leaves continuation)) × (steps_of
              leaves continuation s
            ≡ t ∷ ts)
          × Each (Ends n) (t ∷ ts))

  abbrev is_over :
      (s : State leaves continuation) → steps_of leaves continuation s ≡ [] → Option (Over s)
  is_over s e =
      through (λ h. (e, h.0, h.1.0, h.1.1))
        (both (at_return s.main)
          (both (at_exit s.external_executor.pc) (same_lines s.printed all_lines)))

  abbrev on_steps :
      (n : ℕ)
      → ((t : State leaves continuation) → Option (Ends n t))
      → (s : State leaves continuation) (ts : List (State leaves continuation))
      → steps_of leaves continuation s ≡ ts
      → Option (Ends (suc n) s)
  on_steps n f s [] e = through (λ h. inl h) (is_over s e)
  on_steps n f s (t ∷ ts) e = through (λ h. inr (t, ts, e, h)) (each f (t ∷ ts))

  abbrev ends : (n : ℕ) (s : State leaves continuation) → Option (Ends n s)
  ends zero s = none
  ends (suc n) s = on_steps n (ends n) s (steps_of leaves continuation s) refl

abbrev succeeds : {A : Type 0} → Option A → Bool
succeeds (some a) = true
succeeds none = false

result_of : {A : Type 0} (o : Option A) → succeeds o ≡ true → A
result_of (some a) h = a
result_of none h = cc

abbrev pub resumes_there : Thread → Where
resumes_there t = t.executor

all_end :
    (leaves : Item → ℕ → ℕ)
    → succeeds (ends leaves resumes_there 28 (start leaves resumes_there)) ≡ true
unfolding steps_of start perform print cpu_steps on_worker external_work external_steps when_ready
    when_exited main_steps section section_at make_executor run_work on_section on_wait worker_at
    worker post_item post notify stop request_stop Program.post
all_end leaves = refl

member :
    {A : Type 0} (p : A → Type 0) (before : List A) (t : A) (after ts : List A)
    → ts ≡ before ++ t ∷ after
    → Each p ts
    → p t
member {A = A} p before t after ts e h = go before (subst (Each p) e h)
  where
    go : (xs : List A) → Each p (xs ++ t ∷ after) → p t
    go [] h = h.0
    go (x ∷ xs) h = go xs h.1

none_of : {A : Type 0} (t : A) (before after : List A) → ¬ ([] ≡ before ++ t ∷ after)
none_of t [] after e = cc
none_of t (b ∷ before) after e = cc

module _ (leaves : Item → ℕ → ℕ) (continuation : Thread → Where) where
  start_ends :
      ((t : Thread) → continuation t ≡ t.executor)
      → Ends leaves continuation 28 (start leaves continuation)
  start_ends h =
      subst (λ c. Ends leaves c 28 (start leaves c)) (sym (fun_ext h))
        (result_of _ (all_end leaves))

  -- After `k` steps there are so many left at most.
  left_of_run :
      {k : ℕ} {s : State leaves continuation}
      → Ends leaves continuation 28 (start leaves continuation)
      → Reach leaves continuation k s
      → (m : ℕ) × (k + m ≡ 28) × Ends leaves continuation m s
  left_of_run o here = (28, refl, o)
  left_of_run o (next {k} {s} {t} before after r e) = on (left_of_run o r)
    where
      on :
          (m : ℕ) × (k + m ≡ 28) × Ends leaves continuation m s
          → (m : ℕ) × (suc k + m ≡ 28) × Ends leaves continuation m t
      on (zero, f, z) = absurd z
      on (suc m, f, inl z) = absurd (none_of t before after (sym z.0 ∙ e))
      on (suc m, f, inr (u, us, g, rest)) = (
        m,
        omega (arith, f),
        member (Ends leaves continuation m) before t after (u ∷ us) (sym g ∙ e) rest,
      )

  -- Where the library resumes a coroutine on the executor of the thread that suspended it, as that
  -- thread has set it, every run of the program is over after fewer than 28 steps, in whatever order
  -- `main`, the threads of the CPU executor and the external thread go on. No state but the last has
  -- no step, and then `main` has returned, the external thread is gone, and the lines say that each
  -- coroutine started and resumed on its own executor, and its child ran on the other.
  pub every_run :
      {k : ℕ} {s : State leaves continuation}
      → ((t : Thread) → continuation t ≡ t.executor)
      → Reach leaves continuation k s
      → (k < 28)
        × (Over leaves continuation s
            ⊎ ((t : State leaves continuation) × (ts : List (State leaves continuation)) × (steps_of
                    leaves continuation s
                  ≡ t ∷ ts)))
  every_run {k} {s} h r = at_end (left_of_run (start_ends h) r)
    where
      at_end :
          (m : ℕ) × (k + m ≡ 28) × Ends leaves continuation m s
          → (k < 28)
            × (Over leaves continuation s
                ⊎ ((t : State leaves continuation) × (ts : List (State leaves continuation))
                    × (steps_of leaves continuation s ≡ t ∷ ts)))
      at_end (zero, f, z) = absurd z
      at_end (suc m, f, inl z) = (omega (arith, f), inl z)
      at_end (suc m, f, inr (t, ts, e, rest)) = (omega (arith, f), inr (t, ts, e))
