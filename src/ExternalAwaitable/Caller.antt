-- ===== src/ExternalAwaitable/Caller.antt =====
-- The program's use of the awaitable: `await_external_coro` and `test_await_external`.
use tmc_examples.Base.{ℕ, ◌≡◌, refl, not, some, List, [], ◌∷◌, ◌++◌, ◌==◌, if◌then◌else◌, ==_iff}
use tmc_examples.ExternalAwaitable.{State, Reach}
use tmc_examples.ExternalAwaitable.Race.{read_lem}

-- A thread's name, by its number, and a priority.
pub record Place : Type 0 where
  pub thread_name : ℕ
  pub priority : ℕ

pub data Message : Type 0 where
  started_on resumed_on : Place → Message
  awaiting wrong_result wrong_future_result blank : Message

-- `await_external_coro`, which starts and resumes at the two places: what it prints and returns.
await_external_coro : (at_start at_resume : Place) (awaited : ℕ) → List Message × ℕ
await_external_coro at_start at_resume awaited = (
  started_on at_start
      ∷ awaiting
      ∷ resumed_on at_resume
      ∷ (if not (awaited == 42) then wrong_result ∷ [] else []),
  awaited,
)

-- `test_await_external`, with the result that the future gives.
pub test_await_external : (at_start at_resume : Place) (awaited : ℕ) → List Message
unfolding await_external_coro
test_await_external at_start at_resume awaited =
    let (printed, result) = await_external_coro at_start at_resume awaited in
    printed ++ (if not (result == 42) then wrong_future_result ∷ [] else []) ++ blank ∷ []

-- With whatever the task reads of the awaitable in some interleaving, the program prints where it
-- started and where it resumed, and none of the two messages of a wrong result.
pub test_await_external-Reach :
    {s : State} {awaited : ℕ} (at_start at_resume : Place)
    → Reach s
    → s.read ≡ some awaited
    → test_await_external at_start at_resume awaited
      ≡ started_on at_start ∷ awaiting ∷ resumed_on at_resume ∷ blank ∷ []
unfolding test_await_external await_external_coro
test_await_external-Reach {s} {awaited} at_start at_resume h e =
    rw ((==_iff awaited 42).1 (read_lem h e)) refl
