-- ===== src/Pipeline/Driver/Program.antt =====
-- examples/pipeline.cpp: its four functions, its stages, and the sum and the count of its last stage.
use tmc_examples.Base.{
  total, ℕ, zero, suc, ◌+◌, ◌-◌, ◌*◌, ◌/◌, ◌%◌, ◌^◌, ◌≤◌, ◌<◌, ◌≡◌, refl, ap, ◌∙◌, arith, true,
  false, List, [], ◌∷◌, ltb,
}
use native.Mathlib.Nat.{mod-eq_of_lt}
use tmc_examples.PipelineFifo.Chain.Program.{
  Floats, Value, int_value, float_value, double_value, bool_value,
}
use tmc_examples.Pipeline.Channels.{Channel, Semaphore}
use tmc_examples.Pipeline.Driver.{State, returned, Reach}
use tmc_examples.Pipeline.Driver.Flow.{through}
use tmc_examples.Pipeline.Driver.Run.{before, Manned}
use tmc_examples.Pipeline.Driver.Start.{all_steps}
use tmc_examples.Pipeline.Driver.Result.{consumed, consumed-returned, ends_lem}

module _ (f : Floats) where
  -- `static_cast<float>(i) + 0.5f`
  plus_half : Value f → Value f
  plus_half (int_value i) = float_value (f.add (f.of_int i) (f.halves 1))
  plus_half v = v

  -- `static_cast<double>(2.0f * i)`
  times_two : Value f → Value f
  times_two (float_value x) = double_value (f.double_of (f.multiply (f.halves 4) x))
  times_two v = v

  -- `static_cast<int>(i) - 1`, here of a positive number.
  minus_one : Value f → Value f
  minus_one (double_value x) = int_value (f.to_int x - 1)
  minus_one v = v

  -- `i > 2`
  as_bool : Value f → Value f
  as_bool (int_value i) = bool_value (ltb 2 i)
  as_bool v = v

  -- The functions of `start_pipeline` and of the three `pipeline_transform`, with their counts.
  pub stages : List ((Value f → Value f) × ℕ)
  unfolding plus_half times_two minus_one as_bool
  stages = (plus_half, 10) ∷ (times_two, 10) ∷ (minus_one, 10) ∷ (as_bool, 10) ∷ []

  pub record Totals : Type 0 where
    pub sum : ℕ
    pub count : ℕ

  -- `sum += static_cast<size_t>(i); ++count;`, where `m` is the modulus of `size_t`.
  consume : ℕ → Value f → Totals → Totals
  consume m (bool_value true) t = record { sum = (t.sum + 1) % m; count = (t.count + 1) % m }
  consume m v t = record { sum = t.sum; count = (t.count + 1) % m }

  -- `sum` and `count` after the end stage has consumed these, the newest first.
  pub end_totals : ℕ → List (Value f) → Totals
  unfolding consume
  end_totals m [] = record { sum = 0; count = 0 }
  end_totals m (v ∷ vs) = consume m v (end_totals m vs)

  abbrev is_true : Value f → ℕ
  is_true (bool_value true) = 1
  is_true v = 0

  abbrev one_each : Value f → ℕ
  one_each v = 1

  consume_lem :
      (m : ℕ) (v : Value f) (t : Totals)
      → t.count + 1 < m
      → t.sum ≤ t.count
      → ((consume m v t).sum ≡ is_true v + t.sum) × ((consume m v t).count ≡ 1 + t.count)
  unfolding consume
  consume_lem m (int_value i) t h k =
      (omega arith, mod-eq_of_lt {n = t.count + 1} {m = m} h ∙ omega arith)
  consume_lem m (float_value i) t h k =
      (omega arith, mod-eq_of_lt {n = t.count + 1} {m = m} h ∙ omega arith)
  consume_lem m (double_value i) t h k =
      (omega arith, mod-eq_of_lt {n = t.count + 1} {m = m} h ∙ omega arith)
  consume_lem m (bool_value false) t h k =
      (omega arith, mod-eq_of_lt {n = t.count + 1} {m = m} h ∙ omega arith)
  consume_lem m (bool_value true) t h k = (
    mod-eq_of_lt {n = t.sum + 1} {m = m} (omega (arith, h, k)) ∙ omega arith,
    mod-eq_of_lt {n = t.count + 1} {m = m} h ∙ omega arith,
  )

  true_le_one : (v : Value f) → is_true v ≤ 1
  true_le_one (int_value i) = omega arith
  true_le_one (float_value i) = omega arith
  true_le_one (double_value i) = omega arith
  true_le_one (bool_value false) = omega arith
  true_le_one (bool_value true) = omega arith

  totals_lem :
      (m : ℕ) (vs : List (Value f))
      → total one_each vs < m
      → ((end_totals m vs).sum ≡ total is_true vs)
        × ((end_totals m vs).count ≡ total one_each vs)
        × ((end_totals m vs).sum ≤ (end_totals m vs).count)
  unfolding end_totals
  totals_lem m [] h = (refl, refl, omega arith)
  totals_lem m (v ∷ vs) h =
      let (sums, counts, le) = totals_lem m vs (omega (arith, h)) in
      let (sum, count) = consume_lem m v (end_totals m vs) (omega (arith, h, counts)) le in
      (
        omega (arith, sum, sums),
        omega (arith, count, counts),
        omega (arith, sum, count, le, true_le_one v),
      )

  -- What the stages make of an element.
  through_lem :
      (chan : Channel) (sems : Semaphore) (i : ℕ)
      → i < 2 ^ 21
      → through chan sems (Value f) stages (int_value i) ≡ bool_value (ltb 2 (2 * i))
  unfolding stages plus_half times_two minus_one as_bool
  through_lem chan sems i h =
      let half : (2 * (2 * i + 1)) / 2 - 1 ≡ 2 * i = omega arith in
      rw
        (
          f.of_int_lem i (omega arith),
          f.add-halves (2 * i) 1 (omega arith),
          f.multiply-halves (2 * i + 1) (omega arith),
          f.to_int-halves (2 * (2 * i + 1)) (omega arith),
          half,
        )
        refl

  one_true : (i : ℕ) → is_true (bool_value (ltb 2 (2 * i))) + (i - 2) ≡ suc i - 2
  one_true i = ground arith

  trues_lem :
      (chan : Channel) (sems : Semaphore) (n : ℕ)
      → n ≤ 2 ^ 21
      → total (λ a. is_true (through chan sems (Value f) stages a)) (before int_value n) ≡ n - 2
  trues_lem chan sems zero h = refl
  trues_lem chan sems (suc i) h = omega (
    arith,
    ap is_true (through_lem chan sems i (omega (arith, h))),
    trues_lem chan sems i (omega (arith, h)),
    one_true i,
  )

  ones_lem :
      (chan : Channel) (sems : Semaphore) (n : ℕ)
      → total (λ a. one_each (through chan sems (Value f) stages a)) (before int_value n) ≡ n
  ones_lem chan sems zero = refl
  ones_lem chan sems (suc i) = omega (arith, ones_lem chan sems i)

  module _ (chan : Channel) (sems : Semaphore) where
    -- Once `main` has returned from the group of the stages, in any order of their steps, the count
    -- is the number of elements and the sum is less by two, for up to 2 ^ 21 elements, of a number
    -- that fits the word, with exact floats; and some order gets it there.
    pub end_totals-returned :
        (m elems : ℕ)
        → elems ≤ 2 ^ 21
        → elems < m
        → ((k : ℕ) (s : State chan sems int_value elems stages)
            → Reach chan sems int_value elems stages 1 k s
            → s.main ≡ returned
            → ((end_totals m (consumed chan sems stages s.stages)).sum ≡ elems - 2)
              × ((end_totals m (consumed chan sems stages s.stages)).count ≡ elems))
          × ((s : State chan sems int_value elems stages) × Reach chan sems int_value elems stages 1
                (all_steps chan sems int_value elems stages 1)
                s
              × (s.main ≡ returned))
    unfolding stages
    end_totals-returned m elems small fits = (
      λ k s r e.
          let through_all = consumed-returned chan sems int_value elems stages 1 manned r e in
          let given = consumed chan sems stages s.stages in
          let counts : total one_each given ≡ elems =
            through_all one_each ∙ ones_lem chan sems elems in
          let (sum, count, le) = totals_lem m given (omega (arith, counts, fits)) in
          (sum ∙ through_all is_true ∙ trues_lem chan sems elems small, count ∙ counts),
      ends_lem chan sems int_value elems stages 1 manned,
    )
      where
        manned : Manned chan sems 1 stages
        manned = (omega arith, (omega arith, (omega arith, (omega arith, omega arith))))
