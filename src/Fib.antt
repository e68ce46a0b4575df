-- ===== src/Fib.antt =====
-- examples/fib.cpp: Fibonacci numbers by forked recursion, on a `size_t` of modulus `m`.
mod Tests
use mathlib.Core.Path.{ap₂}
use native.Mathlib.Nat.{add-mod, mod-eq_of_lt}
use tmc_examples.Base.{ℕ, zero, suc, ◌+◌, ◌%◌, ◌<◌, ◌≡◌, refl, sym, ap, ◌∙◌, arith}
use tmc_examples.Runtime.{Tasks}

-- The test `n < 2` is the first two clauses. One child is forked, the other runs inline, and then
-- the first is awaited.
fib : Tasks → ℕ → ℕ → ℕ
fib tasks m zero = 0
fib tasks m (suc zero) = 1
fib tasks m (suc (suc n)) =
    let xt = tasks.fork (fib tasks m (suc n)) in
    let y = fib tasks m n in let x = tasks.join xt in (x + y) % m

-- The numbers by iteration: `n` steps from the neighbours `a` and `b`.
fibonacci : ℕ → ℕ → ℕ → ℕ
fibonacci a b zero = a
fibonacci a b (suc n) = fibonacci b (a + b) n

fibonacci-add : (a b n : ℕ) → fibonacci a b (suc (suc n)) ≡ fibonacci a b (suc n) + fibonacci a b n
unfolding fibonacci
fibonacci-add a b zero = omega arith
fibonacci-add a b (suc n) = fibonacci-add b (a + b) n

-- Under any runtime the forked recursion returns the n-th Fibonacci number, wrapped to the word.
fib-eq-fibonacci : (tasks : Tasks) (m : ℕ) → 1 < m → (n : ℕ) → fib tasks m n ≡ fibonacci 0 1 n % m
unfolding fib fibonacci
fib-eq-fibonacci tasks m h zero = sym (mod-eq_of_lt (omega arith))
fib-eq-fibonacci tasks m h (suc zero) = sym (mod-eq_of_lt h)
fib-eq-fibonacci tasks m h (suc (suc n)) =
    rw
      (
        tasks.join-fork (fib tasks m (suc n)),
        fib-eq-fibonacci tasks m h (suc n),
        fib-eq-fibonacci tasks m h n,
      )
      (sym (ap (λ t. t % m) (fibonacci-add 0 1 n) ∙ add-mod _ _ m))
