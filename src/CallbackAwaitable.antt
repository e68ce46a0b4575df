-- ===== src/CallbackAwaitable.antt =====
-- examples/external/callback_awaitable.hpp: awaitables made of an asynchronous function that calls
-- back with its results. The awaitables that a task awaits at once, one directly or several by a
-- function such as `spawn_tuple`, share the task as their continuation.
pub mod Resume
pub mod Uses
mod Tests
use tmc_examples.Base.{
  ℕ, zero, suc, ◌+◌, ◌≡◌, Bool, true, false, Option, none, some, List, [], ◌∷◌, ◌++◌, ◌==◌,
  if◌then◌else◌, tabulate,
}

-- The library's `awaitable_customizer`, of the awaitables that share a continuation: with `n + 1`
-- of them to come, `resume_continuation` gives the continuation to the last, and otherwise a no-op.
-- An awaitable without a `done_count` is a group of one.
pub record Customizer : Type 1 where
  pub Shared : Type 0
  pub shared_by : ℕ → Shared
  pub remaining : Shared → ℕ
  pub resume_continuation : Shared → Bool × Shared
  pub remaining-shared_by : (n : ℕ) → remaining (shared_by n) ≡ n
  pub remaining-resume_continuation :
      (s : Shared) (n : ℕ) → remaining s ≡ suc n → remaining (resume_continuation s).1 ≡ n
  pub is_last : (s : Shared) (n : ℕ) → remaining s ≡ suc n → (resume_continuation s).0 ≡ (n == 0)

-- `result_storage_t`: a tuple that can be made without arguments is stored as it is, any other in an
-- `std::optional`.
pub data Storage (R : Type 0) : Type 0 where
  plain : R → Storage R
  optional : Option R → Storage R

module _ (lib : Customizer) (R : Type 0) where
  -- The results at the addresses in `result_ptr`, by the number of the awaitable, and the task, with
  -- the storages that it found at each resumption.
  pub record Awaiting : Type 0 where
    pub results : ℕ → Storage R
    pub shared : lib.Shared
    pub resumed : List (ℕ → Storage R)

module _ (lib : Customizer) {R : Type 0} where
  -- `await_suspend`, or `set_continuation`, `set_result_ptr` and `set_done_count` for each of
  -- `count` awaitables, before `async_initiate`.
  pub await_suspend : (count : ℕ) (initial : ℕ → Storage R) → Awaiting lib R
  await_suspend count initial = record {
    results = initial;
    shared = lib.shared_by count;
    resumed = [];
  }

  -- `*result_ptr = std::tuple(results...)`, or `emplace` on the optional.
  store_result : R → Storage R → Storage R
  store_result r (plain old) = plain r
  store_result r (optional old) = optional (some r)

  resume_if : Bool → Awaiting lib R → Awaiting lib R
  resume_if true aw = record aw { resumed = aw.resumed ++ aw.results ∷ [] }
  resume_if false aw = aw

  -- `callback(user_data, results...)`, where `user_data` is the awaitable's.
  pub callback : (user_data : ℕ) → R → Awaiting lib R → Awaiting lib R
  unfolding store_result resume_if
  callback user_data r aw =
      let stored =
        λ (i : ℕ). if i == user_data then store_result r (aw.results i) else aw.results i in
      let (last, shared) = lib.resume_continuation aw.shared in
      resume_if last (record aw { results = stored; shared = shared })

  -- The callbacks of the initiated functions, in the order in which they come, some perhaps already
  -- within `async_initiate`.
  pub callbacks : List (ℕ × R) → Awaiting lib R → Awaiting lib R
  callbacks [] aw = aw
  callbacks ((i, r) ∷ events) aw = callbacks events (callback i r aw)

-- `await_resume`: the stored tuple; `none` where the optional would be read without a value.
pub await_resume : {R : Type 0} → Storage R → Option R
await_resume (plain r) = some r
await_resume (optional o) = o
