-- ===== src/Braid.antt =====
-- examples/braid.cpp: tasks that use a braid as a lock around `v++`, in six forms, of which four
-- are also modelled without the `run_on(br)` of their group. The increment is a
-- load and a store, with other tasks between them. `m` is the modulus of `size_t`.
mod Invariant
pub mod Count
pub mod Exclusive
pub mod Progress
mod Tests
use mathlib.Core.Option.{some-injective}
use tmc_examples.Base.{
  refl, sym, ℕ, zero, suc, ◌+◌, ◌%◌, ◌≡◌, Bool, true, false, not, Option, none, some, List, [], ◌∷◌,
  ◌++◌, replicate, ◌==◌,
}

-- `tmc::ex_braid`, as a parameter: at most one task is on it at a time, and another that enters stays
-- suspended (`none`).
pub record Braid : Type 1 where
  pub State : Type 0
  pub make : State
  pub enter : State → Option State
  pub leave : State → State
  pub busy : State → Bool
  pub busy-make : busy make ≡ false
  pub busy-leave : (b : State) → busy (leave b) ≡ false
  pub enter_some :
      (b : State) {b' : State} → enter b ≡ some b' → (busy b ≡ false) × (busy b' ≡ true)
  pub enter_none : (b : State) → enter b ≡ none → busy b ≡ true

abbrev pub enter_flag : Bool → Option Bool
enter_flag true = none
enter_flag false = some true

pub grant_free : (b : Bool) {b' : Bool} → enter_flag b ≡ some b' → (b ≡ false) × (b' ≡ true)
grant_free true h = cc
grant_free false h = (refl, sym (some-injective _ _ h))

pub grant_busy : (b : Bool) → enter_flag b ≡ none → b ≡ true
grant_busy true h = refl
grant_busy false h = cc

abbrev pub flag_braid : Braid
flag_braid = record {
  State = Bool;
  make = false;
  enter = enter_flag;
  leave = λ b. false;
  busy = λ b. b;
  busy-make = refl;
  busy-leave = λ b. refl;
  enter_some = λ b h. grant_free b h;
  enter_none = λ b h. grant_busy b h;
}

-- What a task does next: work that touches nothing shared, go to the braid (`enter`, `resume_on`, or a
-- function that is run on it; no matter where it is on the braid), increment, or go to another executor.
pub data Action : Type 0 where
  do_work enter_braid increment exit_braid : Action

-- The body of a task of each form. The last two run on the braid from their start to their end. The
-- first four stand here as if their group ran anywhere, so that the lock is all that protects the
-- increment; as the groups are awaited, with `run_on(br)`, they follow.
pub braid_lock : List Action
braid_lock = do_work ∷ enter_braid ∷ increment ∷ []

pub braid_lock_middle : List Action
braid_lock_middle = do_work ∷ enter_braid ∷ increment ∷ exit_braid ∷ do_work ∷ []

pub braid_lock_middle_resume_on : List Action
braid_lock_middle_resume_on = do_work ∷ enter_braid ∷ increment ∷ exit_braid ∷ do_work ∷ []

pub braid_lock_middle_child : List Action
braid_lock_middle_child = do_work ∷ enter_braid ∷ increment ∷ exit_braid ∷ do_work ∷ []

pub child_tasks_run_on_braid : List Action
child_tasks_run_on_braid = enter_braid ∷ increment ∷ []

pub child_funcs_run_on_braid : List Action
child_funcs_run_on_braid = enter_braid ∷ increment ∷ []

-- The first four where the task starts on the braid: entering changes nothing, leaving the scope goes
-- back to the braid, and while the function of the last one is on the braid its task is not.
pub braid_lock_run_on : List Action
braid_lock_run_on = enter_braid ∷ do_work ∷ enter_braid ∷ increment ∷ []

pub braid_lock_middle_run_on : List Action
braid_lock_middle_run_on =
    enter_braid ∷ do_work ∷ enter_braid ∷ increment ∷ enter_braid ∷ do_work ∷ []

pub braid_lock_middle_resume_on_run_on : List Action
braid_lock_middle_resume_on_run_on =
    enter_braid ∷ do_work ∷ enter_braid ∷ increment ∷ exit_braid ∷ do_work ∷ []

pub braid_lock_middle_child_run_on : List Action
braid_lock_middle_child_run_on =
    enter_braid ∷ do_work ∷ exit_braid ∷ enter_braid ∷ increment ∷ exit_braid ∷ enter_braid
    ∷ do_work ∷ []

-- The forms.
pub data Form : List Action → Type 0 where
  lock : Form braid_lock
  lock_middle : Form braid_lock_middle
  lock_middle_resume_on : Form braid_lock_middle_resume_on
  lock_middle_child : Form braid_lock_middle_child
  lock_run_on : Form braid_lock_run_on
  lock_middle_run_on : Form braid_lock_middle_run_on
  lock_middle_resume_on_run_on : Form braid_lock_middle_resume_on_run_on
  lock_middle_child_run_on : Form braid_lock_middle_child_run_on
  tasks_on_braid : Form child_tasks_run_on_braid
  funcs_on_braid : Form child_funcs_run_on_braid

-- A task: whether it is on the braid, the value that it has loaded, and what is left to do.
pub record Task : Type 0 where
  pub held : Bool
  pub loaded : Option ℕ
  pub todo : List Action

module _ (braid : Braid) (m : ℕ) where
  pub record Shared : Type 0 where
    pub br : braid.State
    pub value : ℕ

  abbrev pub Place : Type 0
  Place = Shared × Task

  on_enter : Shared → List Action → Option braid.State → Option Place
  on_enter s r none = none
  on_enter s r (some b) =
      some (record s { br = b }, record { held = true; loaded = none; todo = r })

  -- The two halves of `v++`.
  on_increment : Bool → Option ℕ → List Action → Shared → Place
  on_increment h none r s = (s, record { held = h; loaded = some s.value; todo = increment ∷ r })
  on_increment h (some v) r s =
      (record s { value = (v + 1) % m }, record { held = h; loaded = none; todo = r })

  -- The end of a task leaves the braid, if the task is still on it.
  on_end : Bool → Shared → Option Place
  on_end true s =
      some (record s { br = braid.leave s.br }, record { held = false; loaded = none; todo = [] })
  on_end false s = none

  -- One step of a task; `none` when it is suspended or done.
  pub task_at : Bool → Option ℕ → List Action → Shared → Option Place
  unfolding on_enter on_increment on_end
  task_at h l [] s = on_end h s
  task_at h l (do_work ∷ r) s = some (s, record { held = h; loaded = none; todo = r })
  task_at true l (enter_braid ∷ r) s = some (s, record { held = true; loaded = none; todo = r })
  task_at false l (enter_braid ∷ r) s = on_enter s r (braid.enter s.br)
  task_at h l (increment ∷ r) s = some (on_increment h l r s)
  task_at h l (exit_braid ∷ r) s =
      some (record s { br = braid.leave s.br }, record { held = false; loaded = none; todo = r })

  pub step : Task → Shared → Option Place
  unfolding task_at
  step t s = task_at t.held t.loaded t.todo s

  pub record System : Type 0 where
    pub shared : Shared
    pub open shared use *
    pub tasks : List Task

  pub data Step (s : System) : System → Type 0 where
    run :
        (before after : List Task) (t : Task) {t' : Task} {u : Shared}
        → s.tasks ≡ before ++ t ∷ after
        → step t s.shared ≡ some (u, t')
        → Step s (record { shared = u; tasks = before ++ t' ∷ after })

  -- A group of `count` tasks of the same form, a fresh braid, and `value = 0`.
  pub start : List Action → ℕ → System
  start body count = record {
    shared = record { br = braid.make; value = 0 };
    tasks = replicate count (record { held = false; loaded = none; todo = body });
  }

  pub data Reach (body : List Action) (count : ℕ) : System → Type 0 where
    here : Reach body count (start body count)
    next : {s t : System} → Reach body count s → Step s t → Reach body count t

  -- The check behind each group: is a `FAIL` line printed?
  pub fails : ℕ → System → Bool
  fails count s = not (s.value == count)

-- `async_main`: the groups, each awaited before the next begins, by the body of their tasks.
pub async_main : List (List Action)
unfolding child_tasks_run_on_braid child_funcs_run_on_braid braid_lock_run_on
    braid_lock_middle_run_on braid_lock_middle_resume_on_run_on braid_lock_middle_child_run_on
async_main =
    child_tasks_run_on_braid ∷ child_funcs_run_on_braid ∷ braid_lock_run_on
    ∷ braid_lock_middle_run_on ∷ braid_lock_middle_resume_on_run_on ∷ braid_lock_middle_child_run_on
    ∷ []
