-- ===== src/CallbackAwaitable/Tests.antt =====
-- The callbacks on a customizer that counts down, with whole numbers for the floats.
use tmc_examples.Base.{ℕ, suc, ◌+◌, ◌-◌, ◌≡◌, refl, arith, none, some, [], ◌∷◌, ◌==◌, ==_iff}
use tmc_examples.CallbackAwaitable.{
  Customizer, Storage, optional, await_suspend, callbacks, await_resume,
}
use tmc_examples.CallbackAwaitable.Resume.{resumes_once}
use tmc_examples.CallbackAwaitable.Uses.{Floats}

last_of : (s n : ℕ) → s ≡ suc n → (s == 1) ≡ (n == 0)
last_of s n e = ground arith

abbrev count_down : Customizer
count_down = record {
  Shared = ℕ;
  shared_by = λ n. n;
  remaining = λ n. n;
  resume_continuation = λ n. (n == 1, n - 1);
  remaining-shared_by = λ n. refl;
  remaining-resume_continuation = λ s n e. omega arith;
  is_last = last_of;
}

abbrev whole_numbers : Floats
whole_numbers = record {
  Float = ℕ;
  of_int = λ n. n;
  add = λ a b. a + b;
  to_int = λ n. n;
  equal = λ a b. a == b;
  equal-self = λ x. (==_iff x x).1 refl;
  to_int-of_int = λ n h. refl;
  add-of_int = λ a b h. refl;
}

-- The second awaitable calls back before the first.
resumes_once_example :
    (found : ℕ → Storage ℕ) × ((callbacks count_down
        ((1, 7) ∷ (0, 5) ∷ [])
        (await_suspend count_down 2 (λ i. optional none))).resumed
      ≡ found ∷ [])
    × (await_resume (found 1) ≡ some 7)
resumes_once_example =
    resumes_once count_down [] ((0, 5) ∷ []) 1 7 2 (λ i. optional none) refl (omega arith, tt)
