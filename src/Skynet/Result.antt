-- ===== src/Skynet/Result.antt =====
-- What the tree of tasks returns: the sum of the numbers of its leaves, modulo the word.
use mathlib.Core.Path.{fun_ext}
use mathlib.Core.Option
use native.Mathlib.Nat.{
  mod-mod, mod-eq_of_lt, pow-suc, add-mod_right, mod-lt, mul_comm, add-mod-mod, pow-succ',
}
use tmc_examples.Base.{
  ℕ, zero, suc, ◌+◌, ◌-◌, ◌*◌, ◌%◌, ◌^◌, ◌<◌, ◌≡◌, refl, sym, ap, ◌∙◌, arith, Option, none, some,
  List, ◌==◌, false, tabulate_from, tabulate, sum, sum_words, sum_words-zero, mul-mod_congr,
  add-mod_congr, ==_iff,
}
use tmc_examples.Runtime.{Tasks}
use tmc_examples.Skynet.Sums.{
  range_sum, range_sum_blocks, range_sum-mod, range_sum_closed, range_sum-one,
}
use tmc_examples.Skynet.{
  all_some, depth_offset, rounds_left, gather, skynet_one, skynet, expected_result,
}

all_some-tabulate :
    {A : Type 0} (i n : ℕ) (g : ℕ → A)
    → all_some (tabulate_from i n (λ x. some (g x))) ≡ some (tabulate_from i n g)
unfolding all_some Option.bind
all_some-tabulate i zero g = refl
all_some-tabulate i (suc n) g = rw (all_some-tabulate (i + 1) n g)

-- Residues may be taken before a sum.
sum-mod_tabulate :
    (m i n : ℕ) (g : ℕ → ℕ)
    → sum (tabulate_from i n (λ x. g x % m)) % m ≡ sum (tabulate_from i n g) % m
sum-mod_tabulate m i zero g = refl
sum-mod_tabulate m i (suc n) g =
    add-mod_congr (g i % m) _ (g i) _ m (mod-mod (g i) m) (sum-mod_tabulate m (i + 1) n g)

depth_offset_lem : (m rounds acc : ℕ) → depth_offset m rounds acc % m ≡ 10 ^ rounds * acc % m
unfolding depth_offset
depth_offset_lem m zero acc = ap (λ t. t % m) (omega arith)
depth_offset_lem m (suc rounds) acc =
    depth_offset_lem m rounds (acc * 10 % m)
    ∙ mul-mod_congr (10 ^ rounds) (acc * 10) m
    ∙ ap (λ t. t % m) (rw (pow-suc 10 rounds) (omega arith))

rounds_left_lem :
    (m depth_max depth rest : ℕ)
    → depth_max < m
    → depth + suc rest ≡ depth_max
    → rounds_left m depth_max depth ≡ rest
rounds_left_lem m depth_max depth rest h e =
    ap (λ t. t % m) shape ∙ add-mod_right rest m ∙ mod-eq_of_lt (omega arith)
  where
    shape : depth_max + m - depth - 1 ≡ rest + m
    shape = omega arith

-- The results of `k` children with `n` leaves each make up that of `k * n` leaves.
gather_blocks :
    (tasks : Tasks) (m k b n : ℕ) (child : ℕ → Option ℕ)
    → 0 < m
    → ((idx : ℕ) → child idx ≡ some (range_sum (b + n * idx) n % m))
    → gather tasks m k child ≡ some (range_sum b (k * n) % m)
unfolding gather
gather_blocks tasks m k b n child pos h =
    rw
      (
        fun_ext h,
        tasks.spawn_many_lem k (λ idx. some (range_sum (b + n * idx) n % m)),
        all_some-tabulate 0 k (λ idx. range_sum (b + n * idx) n % m),
      )
      (ap some total)
  where
    block : ℕ → ℕ
    block idx = range_sum (b + n * idx) n

    parts : List ℕ
    parts = tabulate k (λ idx. block idx % m)

    start : b + n * 0 ≡ b
    start = omega arith

    total : sum_words m 0 parts ≡ range_sum b (k * n) % m
    total =
        sum_words-zero m parts pos
        ∙ sum-mod_tabulate m 0 k block
        ∙ ap (λ t. t % m) (range_sum_blocks b n 0 k ∙ ap (λ t. range_sum t (k * n)) start)

-- The first number of child `idx`, computed on words, has the residue that it should have.
child_base :
    (m rounds rest b idx : ℕ)
    → rounds ≡ rest
    → (b + depth_offset m rounds 1 * idx % m) % m % m ≡ (b + 10 ^ rest * idx) % m
child_base m rounds rest b idx e =
    mod-mod _ m ∙ add-mod-mod b (off * idx) m ∙ add-mod_congr b (off * idx) b _ m refl step
  where
    off : ℕ
    off = depth_offset m rounds 1

    offset : off % m ≡ 10 ^ rest % m
    offset = depth_offset_lem m rounds 1 ∙ ap (λ t. t % m) (omega arith ∙ ap (λ (t : ℕ). 10 ^ t) e)

    step : off * idx % m ≡ 10 ^ rest * idx % m
    step =
        ap (λ t. t % m) (mul_comm off idx)
        ∙ sym (mul-mod_congr idx off m)
        ∙ ap (λ t. idx * t % m) offset
        ∙ mul-mod_congr idx (10 ^ rest) m
        ∙ ap (λ t. t % m) (mul_comm idx (10 ^ rest))

not-== : (a b : ℕ) → a < b → (a == b) ≡ false
not-== a b h = ground arith

module _ (tasks : Tasks) (m depth_max : ℕ) (fits : depth_max < m) where
  -- A task at `depth` returns the sum of the 10^(depth_max - depth) numbers from `base_num` on.
  pub skynet_one_result :
      (fuel rest base_num depth : ℕ)
      → rest < fuel
      → depth + rest ≡ depth_max
      → base_num < m
      → skynet_one tasks m depth_max fuel base_num depth ≡ some (range_sum base_num (10 ^ rest) % m)
  unfolding skynet_one
  skynet_one_result zero rest b d f e h = absurd (omega arith)
  skynet_one_result (suc fuel) zero b d f e h =
      rw ((==_iff d depth_max).1 (omega arith), skynet_one)
        (ap some (sym (ap (λ t. t % m) (range_sum-one b) ∙ mod-eq_of_lt h)))
  skynet_one_result (suc fuel) (suc rest) b d f e h =
      rw (not-== d depth_max (omega arith), skynet_one, pow-succ' 10 rest)
        (gather_blocks tasks m 10 b (10 ^ rest) _ (omega arith) λ idx.
          skynet_one_result fuel rest _ ((d + 1) % m) (omega arith)
            (ap (λ (t : ℕ). t + rest) (mod-eq_of_lt (omega arith)) ∙ omega arith)
            (mod-lt _ (omega arith))
          ∙ ap some (
              range_sum-mod _ _ (10 ^ rest) m
                (child_base m _ rest b idx (rounds_left_lem m depth_max d rest fits e))))

leaves : range_sum 0 1000000 ≡ 499999500000
leaves = omega (arith, range_sum_closed 1000000)

-- The count of the benchmark on a 64-bit word.
pub skynet_total : (tasks : Tasks) → skynet_one tasks (2 ^ 64) 6 7 0 0 ≡ some (expected_result 8)
unfolding expected_result
skynet_total tasks = rw (
  skynet_one_result tasks (2 ^ 64) 6 (omega arith) 7 6 0 0 (omega arith) (omega arith)
      (omega arith),
  leaves,
)

-- Whatever runtime runs the tasks, the six levels of the benchmark add up to `EXPECTED_RESULT`, so
-- that `skynet` prints nothing: on a 64-bit `size_t`, and on a 32-bit one, where the sum wraps.
pub skynet_silent :
    (tasks : Tasks)
    → (skynet tasks 8 (2 ^ 64) 6 7 ≡ some none) × (skynet tasks 4 (2 ^ 32) 6 7 ≡ some none)
unfolding skynet expected_result
skynet_silent tasks = (silent_64, silent_32)
  where
    silent_64 : skynet tasks 8 (2 ^ 64) 6 7 ≡ some none
    silent_64 = rw (
      skynet_one_result tasks (2 ^ 64) 6 (omega arith) 7 6 0 0 (omega arith) (omega arith)
          (omega arith),
      leaves,
    )

    silent_32 : skynet tasks 4 (2 ^ 32) 6 7 ≡ some none
    silent_32 = rw (
      skynet_one_result tasks (2 ^ 32) 6 (omega arith) 7 6 0 0 (omega arith) (omega arith)
          (omega arith),
      leaves,
    )
