-- ===== src/Base/Words.antt =====
-- `size_t` and the other unsigned words: numbers modulo `m`, with the congruences of `+` and `*`.
use Prim.Native.Nat.{ℕ, ◌+◌, ◌*◌, ◌/◌, ◌%◌, ◌<◌}
use mathlib.Core.Path.{◌≡◌, sym, ap, ◌∙◌}
use mathlib.Core.List.{List, [], ◌∷◌}
use native.Mathlib.Omega.{arith}
use native.Mathlib.Nat.{
  mod-eq_of_lt, zero-add, add-mod, mod-add-mod, div-add-mod, add-mul-mod_self_left,
}
use tmc_examples.Base.Lists.{sum}

-- `for (x : xs) acc += x;` on an unsigned word.
unfoldable pub sum_words : ℕ → ℕ → List ℕ → ℕ
sum_words m acc [] = acc
sum_words m acc (x ∷ xs) = sum_words m ((acc + x) % m) xs

pub sum_words_lem : (m acc : ℕ) (xs : List ℕ) → sum_words m acc xs % m ≡ (acc + sum xs) % m
unfolding sum_words
sum_words_lem m acc [] = ap (λ t. t % m) (omega arith)
sum_words_lem m acc (x ∷ xs) =
    sum_words_lem m ((acc + x) % m) xs
    ∙ mod-add-mod (acc + x) m (sum xs)
    ∙ ap (λ t. t % m) (omega arith)

pub sum_words-lt : (m acc : ℕ) (xs : List ℕ) → 0 < m → acc < m → sum_words m acc xs < m
unfolding sum_words
sum_words-lt m acc [] p h = h
sum_words-lt m acc (x ∷ xs) p h = sum_words-lt m ((acc + x) % m) xs p (omega arith)

pub sum_words-zero : (m : ℕ) (xs : List ℕ) → 0 < m → sum_words m 0 xs ≡ sum xs % m
sum_words-zero m xs h =
    sym (mod-eq_of_lt (sum_words-lt m 0 xs h h))
    ∙ sum_words_lem m 0 xs
    ∙ ap (λ t. t % m) (zero-add (sum xs))

pub mul-mod_congr : (k a m : ℕ) → (k * (a % m)) % m ≡ (k * a) % m
mul-mod_congr k a m =
    sym (ap (λ t. t % m) split ∙ add-mul-mod_self_left (k * (a % m)) m (k * (a / m)))
  where
    split : k * a ≡ k * (a % m) + m * (k * (a / m))
    split = omega (arith, ap (λ (t : ℕ). k * t) (div-add-mod a m))

pub add-mod_congr : (a b c d m : ℕ) → a % m ≡ c % m → b % m ≡ d % m → (a + b) % m ≡ (c + d) % m
add-mod_congr a b c d m p q = rw (add-mod a b m, p, q) (sym (add-mod c d m))
