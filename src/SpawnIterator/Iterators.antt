-- ===== src/SpawnIterator/Iterators.antt =====
-- What the iterators of `SpawnIterator` yield: how many tasks, and the sums of their results.
use tmc_examples.Base.{
  ℕ, zero, suc, ◌+◌, ◌-◌, ◌*◌, ◌^◌, ◌≤◌, ◌<◌, ◌≡◌, refl, ap, ◌∙◌, true, List, ◌∷◌, map, length,
  take, sum, tabulate, tabulate_from, length-tabulate_from, arith,
}
use native.Mathlib.Nat.{pow-succ'}
use tmc_examples.SpawnIterator.{
  work, unpredictable_filter, filtered, iter_of_static_size, iter_of_dynamic_unknown_size,
}

map-tabulate_from : (f : ℕ → ℕ) (i n : ℕ) → map f (tabulate_from i n (λ j. j)) ≡ tabulate_from i n f
map-tabulate_from f i zero = refl
map-tabulate_from f i (suc n) = ap (λ xs. f i ∷ xs) (map-tabulate_from f (i + 1) n)

take-tabulate_from :
    (f : ℕ → ℕ) (i j n : ℕ) → j ≤ n → take j (tabulate_from i n f) ≡ tabulate_from i j f
take-tabulate_from f i zero n h = refl
take-tabulate_from f i (suc j) zero h = absurd (omega arith)
take-tabulate_from f i (suc j) (suc n) h =
    ap (λ xs. f i ∷ xs) (take-tabulate_from f (i + 1) j n (omega arith))

pub powers : ℕ → ℕ → List ℕ
powers i n = tabulate_from i n work

pow_one : (i : ℕ) → 2 ^ (i + 1) ≡ 2 * 2 ^ i
pow_one i = ap (λ (k : ℕ). 2 ^ k) (by_suc i) ∙ pow-succ' 2 i
  where
    by_suc : (i : ℕ) → i + 1 ≡ suc i
    by_suc i = omega arith

add_one : (i n : ℕ) → i + 1 + n ≡ i + suc n
add_one i n = omega arith

add_none : (i : ℕ) → i ≡ i + 0
add_none i = omega arith

-- The powers of two from 2^i on, added up.
pub sum-powers : (i n : ℕ) → sum (powers i n) + 2 ^ i ≡ 2 ^ (i + n)
unfolding powers work
sum-powers i zero = omega (arith, ap (λ (k : ℕ). 2 ^ k) (add_none i))
sum-powers i (suc n) =
    omega (arith, sum-powers (i + 1) n, pow_one i, ap (λ (k : ℕ). 2 ^ k) (add_one i n))

not_three : (i : ℕ) → 3 < i → unpredictable_filter i ≡ true
unfolding unpredictable_filter
not_three i h = ground arith

filtered-above :
    (i n : ℕ) → 3 < i → filtered (tabulate_from i n (λ j. j)) ≡ tabulate_from i n (λ j. j)
unfolding filtered unpredictable_filter
filtered-above i zero h = refl
filtered-above i (suc n) h =
    rw (not_three i h) (ap (λ xs. i ∷ xs) (filtered-above (i + 1) n (omega arith)))

-- From 4 on nothing is left out.
pub unknown_size_lem :
    (k : ℕ) → iter_of_dynamic_unknown_size (suc (suc (suc (suc k)))) ≡ 1 ∷ 2 ∷ 4 ∷ powers 4 k
unfolding iter_of_dynamic_unknown_size filtered unpredictable_filter work powers
unknown_size_lem k =
    ap (λ xs. 1 ∷ 2 ∷ 4 ∷ xs)
      (ap (map work) (filtered-above 4 k (omega arith)) ∙ map-tabulate_from work 4 k)

pub length-powers : (i n : ℕ) → length (powers i n) ≡ n
unfolding powers
length-powers i n = length-tabulate_from i n work

pub take-powers : (i j n : ℕ) → j ≤ n → take j (powers i n) ≡ powers i j
unfolding powers
take-powers i j n h = take-tabulate_from work i j n h

take_all-tabulate_from :
    (f : ℕ → ℕ) (i j n : ℕ) → n ≤ j → take j (tabulate_from i n f) ≡ tabulate_from i n f
take_all-tabulate_from f i zero zero h = refl
take_all-tabulate_from f i (suc j) zero h = refl
take_all-tabulate_from f i zero (suc n) h = absurd (omega arith)
take_all-tabulate_from f i (suc j) (suc n) h =
    ap (λ xs. f i ∷ xs) (take_all-tabulate_from f (i + 1) j n (omega arith))

pub take_all-powers : (i j n : ℕ) → n ≤ j → take j (powers i n) ≡ powers i n
unfolding powers
take_all-powers i j n h = take_all-tabulate_from work i j n h

pub sum_static : (n : ℕ) → sum (tabulate n (iter_of_static_size n)) ≡ 2 ^ n - 1
unfolding iter_of_static_size powers
sum_static n = omega (arith, from_powers n, sum-powers 0 n, ap (λ (k : ℕ). 2 ^ k) (add_none_left n))
  where
    add_none_left : (n : ℕ) → n ≡ 0 + n
    add_none_left n = omega arith

    from_powers : (n : ℕ) → sum (tabulate n work) ≡ sum (powers 0 n)
    from_powers n = refl
