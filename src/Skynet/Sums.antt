-- ===== src/Skynet/Sums.antt =====
-- Sums of consecutive numbers, as the specification of the tree, and their residues.
use tmc_examples.Base.{
  ℕ, zero, suc, ◌+◌, ◌*◌, ◌%◌, ◌≡◌, refl, sym, ap, ◌∙◌, arith, tabulate_from, sum, mul-mod_congr,
  add-mod_congr,
}

-- b + (b + 1) + … + (b + n - 1)
pub range_sum : ℕ → ℕ → ℕ
range_sum b zero = 0
range_sum b (suc n) = b + range_sum (b + 1) n

pub range_sum-one : (b : ℕ) → range_sum b 1 ≡ b
unfolding range_sum
range_sum-one b = omega arith

pub range_sum_linear : (b n : ℕ) → range_sum b n ≡ n * b + range_sum 0 n
unfolding range_sum
range_sum_linear b zero = omega arith
range_sum_linear b (suc n) = omega (arith, range_sum_linear (b + 1) n, range_sum_linear 1 n)

pub range_sum_closed : (n : ℕ) → 2 * range_sum 0 n + n ≡ n * n
unfolding range_sum
range_sum_closed zero = omega arith
range_sum_closed (suc n) = omega (arith, range_sum_closed n, range_sum_linear 1 n)

range_sum-add : (b n k : ℕ) → range_sum b (n + k) ≡ range_sum b n + range_sum (b + n) k
range_sum-add b n k = grind (arith, range_sum_linear, range_sum_closed)

-- The blocks of `n` numbers from block `i` on join up.
pub range_sum_blocks :
    (b n i k : ℕ)
    → sum (tabulate_from i k (λ idx. range_sum (b + n * idx) n)) ≡ range_sum (b + n * i) (k * n)
unfolding range_sum
range_sum_blocks b n i zero = let e : 0 * n ≡ 0 = omega arith in rw e refl
range_sum_blocks b n i (suc k) =
    let size : suc k * n ≡ n + k * n = omega arith in
    let next : b + n * (i + 1) ≡ b + n * i + n = omega arith in
    rw (size, range_sum-add (b + n * i) n (k * n), range_sum_blocks b n (i + 1) k, next)

-- Only the residue of the first number counts.
pub range_sum-mod : (b c n m : ℕ) → b % m ≡ c % m → range_sum b n % m ≡ range_sum c n % m
range_sum-mod b c n m h =
    rw (range_sum_linear b n, range_sum_linear c n)
      (add-mod_congr (n * b) (range_sum 0 n) (n * c) (range_sum 0 n) m products refl)
  where
    products : n * b % m ≡ n * c % m
    products = sym (mul-mod_congr n b m) ∙ ap (λ t. n * t % m) h ∙ mul-mod_congr n c m
