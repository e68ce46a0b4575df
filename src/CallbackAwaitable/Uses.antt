-- ===== src/CallbackAwaitable/Uses.antt =====
-- examples/external/callback_awaitable.cpp: the simulated asynchronous functions, which call back at
-- once, and the assertions on what the awaitables give.
use tmc_examples.Base.{
  ℕ, ◌+◌, ◌≤◌, ◌^◌, ◌≡◌, refl, ap, ◌∙◌, arith, Bool, true, false, ◌&&◌, Option, none, some, List,
  [], ◌∷◌, ◌==◌, if◌then◌else◌,
}
use tmc_examples.CallbackAwaitable.{
  Customizer, Storage, plain, optional, await_suspend, callbacks, await_resume,
}
use tmc_examples.CallbackAwaitable.Resume.{resumes_once}

-- `float`, as far as the program needs it: the integers up to 2 ^ 24 are exact, and so are the sums
-- that stay among them. `to_int` is the cast back.
pub record Floats : Type 1 where
  pub Float : Type 0
  pub of_int : ℕ → Float
  pub add : Float → Float → Float
  pub to_int : Float → ℕ
  pub equal : Float → Float → Bool
  pub equal-self : (x : Float) → equal x x ≡ true
  pub to_int-of_int : (n : ℕ) → n ≤ 2 ^ 24 → to_int (of_int n) ≡ n
  pub add-of_int : (a b : ℕ) → a + b ≤ 2 ^ 24 → add (of_int a) (of_int b) ≡ of_int (a + b)

module _ (f : Floats) where
  -- What the four functions give to their callback.
  pub data Results : Type 0 where
    nothing : Results
    two_floats : f.Float → f.Float → Results
    one_int : ℕ → Results
    move_only : ℕ → Results

  simulated_async_fn_void : Results
  simulated_async_fn_void = nothing

  simulated_async_fn : ℕ → Results
  simulated_async_fn input =
      let x = f.of_int input in two_floats (f.add x (f.of_int 1)) (f.add x (f.of_int 2))

  simulated_async_fn2 : (input1 input2 : f.Float) → Results
  simulated_async_fn2 input1 input2 = one_int (f.to_int (f.add input1 input2))

  simulated_async_fn_move_only : ℕ → Results
  simulated_async_fn_move_only input = move_only (input + 1)

  -- A tuple that has a default constructor is stored plainly; `move_only_type` has none.
  initial_for : Results → Storage Results
  initial_for (move_only n) = optional none
  initial_for r = plain nothing

  assert_nothing : Option Results → Bool
  assert_nothing (some nothing) = true
  assert_nothing o = false

  -- `assert(result1 == x); assert(result2 == y);`
  assert_floats : (x y : ℕ) → Option Results → Bool
  assert_floats x y (some (two_floats p q)) = f.equal p (f.of_int x) && f.equal q (f.of_int y)
  assert_floats x y o = false

  -- `assert(result == n);`
  assert_int : ℕ → Option Results → Bool
  assert_int n (some (one_int k)) = k == n
  assert_int n o = false

  -- `assert(result.value == n);`
  assert_move_only : ℕ → Option Results → Bool
  assert_move_only n (some (move_only k)) = k == n
  assert_move_only n o = false

  -- All of them, on what the five statements await.
  asserts : (r0 r1 r2 r3 : Option Results) → Option Results × Option Results → Bool
  unfolding assert_nothing assert_floats assert_int assert_move_only
  asserts r0 r1 r2 r3 (results1, results2) =
      assert_nothing r0
      && assert_floats 2 3 r1
      && assert_int 10 r2
      && assert_move_only 2 r3
      && assert_floats 2 3 results1
      && assert_move_only 2 results2

  floats_hold : assert_floats 2 3 (some (simulated_async_fn 1)) ≡ true
  unfolding assert_floats simulated_async_fn
  floats_hold =
      rw
        (
          f.add-of_int 1 1 (omega arith),
          f.add-of_int 1 2 (omega arith),
          f.equal-self (f.of_int 2),
          f.equal-self (f.of_int 3),
        )
        refl

  int_holds : assert_int 10 (some (simulated_async_fn2 (f.of_int 4) (f.of_int 6))) ≡ true
  unfolding assert_int simulated_async_fn2
  int_holds = rw (f.add-of_int 4 6 (omega arith), f.to_int-of_int 10 (omega arith)) refl

  void_holds : assert_nothing (some simulated_async_fn_void) ≡ true
  unfolding assert_nothing simulated_async_fn_void
  void_holds = refl

  move_only_holds : assert_move_only 2 (some (simulated_async_fn_move_only 1)) ≡ true
  unfolding assert_move_only simulated_async_fn_move_only
  move_only_holds = refl

  asserts_hold :
      asserts
        (some simulated_async_fn_void)
        (some (simulated_async_fn 1))
        (some (simulated_async_fn2 (f.of_int 4) (f.of_int 6)))
        (some (simulated_async_fn_move_only 1))
        (some (simulated_async_fn 1), some (simulated_async_fn_move_only 1))
      ≡ true
  unfolding asserts
  asserts_hold = rw (floats_hold, int_holds, void_holds, move_only_holds) refl

  -- What a task that was resumed with these storages gets of the awaitable `i`.
  resumed_with : (i : ℕ) → List (ℕ → Storage Results) → Option Results
  resumed_with i [] = none
  resumed_with i (found ∷ more) = await_resume (found i)

  module _ (lib : Customizer) where
    -- `co_await await_callback(fn, …)`, with what `fn` calls back.
    co_await : Results → Option Results
    unfolding initial_for resumed_with
    co_await r =
        resumed_with 0
          (callbacks lib ((0, r) ∷ []) (await_suspend lib 1 (λ i. initial_for r))).resumed

    -- `co_await tmc::spawn_tuple(await_callback(…), await_callback(…))`
    spawn_tuple : Results → Results → Option Results × Option Results
    unfolding initial_for resumed_with
    spawn_tuple r q =
        let aw =
          callbacks lib ((0, r) ∷ (1, q) ∷ [])
            (await_suspend lib 2 (λ i. if i == 0 then initial_for r else initial_for q)) in
        (resumed_with 0 aw.resumed, resumed_with 1 aw.resumed)

    -- The assertions of `main`.
    pub main_asserts : Bool
    main_asserts =
        asserts (co_await simulated_async_fn_void) (co_await (simulated_async_fn 1))
          (co_await (simulated_async_fn2 (f.of_int 4) (f.of_int 6)))
          (co_await (simulated_async_fn_move_only 1))
          (spawn_tuple (simulated_async_fn 1) (simulated_async_fn_move_only 1))

    co_await_lem : (r : Results) → co_await r ≡ some r
    unfolding co_await resumed_with
    co_await_lem r =
        let (found, once, got) = resumes_once lib [] [] 0 r 1 (λ i. initial_for r) refl tt in
        ap (resumed_with 0) once ∙ got

    spawn_tuple_lem : (r q : Results) → spawn_tuple r q ≡ (some r, some q)
    unfolding spawn_tuple resumed_with
    spawn_tuple_lem r q =
        let start = λ (i : ℕ). if i == 0 then initial_for r else initial_for q in
        let (found, once, got) =
          resumes_once lib [] ((1, q) ∷ []) 0 r 2 start refl (omega arith, tt) in
        let (found', once', got') = resumes_once lib ((0, r) ∷ []) [] 1 q 2 start refl tt in
        λ i. (((ap (resumed_with 0) once ∙ got) i), ((ap (resumed_with 1) once' ∙ got') i))

    -- The assertions of the program hold, awaiting directly and with spawn_tuple, on any customizer
    -- that resumes the task with the last callback and any floats that are exact on these integers.
    pub main_asserts_hold : main_asserts ≡ true
    unfolding main_asserts
    main_asserts_hold =
        rw
          (
            spawn_tuple_lem (simulated_async_fn 1) (simulated_async_fn_move_only 1),
            co_await_lem simulated_async_fn_void,
            co_await_lem (simulated_async_fn 1),
            co_await_lem (simulated_async_fn2 (f.of_int 4) (f.of_int 6)),
            co_await_lem (simulated_async_fn_move_only 1),
          )
          asserts_hold
