-- ===== src/Skynet.antt =====
-- examples/skynet.cpp and examples/asio/http_skynet.cpp: the tree of tasks that adds up the numbers
-- of its leaves. `m` is the modulus of `size_t`, 2^64 or 2^32.
pub mod Sums
pub mod Result
mod Tests
use tmc_examples.Base.{
  ℕ, zero, suc, ◌+◌, ◌-◌, ◌*◌, ◌%◌, Bool, true, false, Option, none, some, List, [], ◌∷◌, ◌==◌,
  sum_words, if◌then◌else◌,
}
use tmc_examples.Runtime.{Tasks}
use mathlib.Core.Option

-- The results of the children, if each of them has one.
all_some {ℓ} : {A : Type ℓ} → List (Option A) → Option (List A)
all_some [] = some []
all_some (o ∷ os) = Option.bind o (λ a. Option.map (λ as'. a ∷ as') (all_some os))

-- The loop `depthOffset *= 10`, with the rounds that are left.
depth_offset : ℕ → ℕ → ℕ → ℕ
depth_offset m zero acc = acc
depth_offset m (suc rounds) acc = depth_offset m rounds (acc * 10 % m)

-- `DepthMax - Depth - 1` on `size_t`.
abbrev rounds_left : ℕ → ℕ → ℕ → ℕ
rounds_left m depth_max depth = (depth_max + m - depth - 1) % m

-- The children are spawned, awaited, and their results added up.
gather : Tasks → ℕ → ℕ → (ℕ → Option ℕ) → Option ℕ
gather tasks m width child = Option.map (sum_words m 0) (all_some (tasks.spawn_many width child))

module _ (tasks : Tasks) (m depth_max : ℕ) where
  -- `none` says that the fuel, one unit for each level of the tree, ran out.
  pub skynet_one : ℕ → ℕ → ℕ → Option ℕ
  skynet_one zero base_num depth = none
  skynet_one (suc fuel) base_num depth = elim (depth == depth_max) [
    | true ↦ some base_num
    | false ↦
        let offset = depth_offset m (rounds_left m depth_max depth) 1 in
        gather tasks m 10
          (λ idx. skynet_one fuel ((base_num + offset * idx % m) % m) ((depth + 1) % m))
  ]

-- `EXPECTED_RESULT`, by `sizeof(size_t)`.
pub expected_result : ℕ → ℕ
expected_result size = if size == 8 then 499999500000 else 1783293664

-- What `skynet<DepthMax>` prints: the count, if it is not the expected one.
pub skynet : Tasks → ℕ → ℕ → ℕ → ℕ → Option (Option ℕ)
skynet tasks size m depth_max fuel =
    Option.map (λ count. if count == expected_result size then none else some count)
      (skynet_one tasks m depth_max fuel 0 0)
