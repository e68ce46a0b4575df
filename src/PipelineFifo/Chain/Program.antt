-- ===== src/PipelineFifo/Chain/Program.antt =====
-- examples/pipeline_fifo.cpp: its four functions, its chain, and the sum and the count of its last
-- stage.
pub mod Ending
use tmc_examples.Base.{
  ℕ, zero, suc, ◌+◌, ◌-◌, ◌*◌, ◌/◌, ◌%◌, ◌^◌, ◌≤◌, ◌<◌, ◌≡◌, refl, sym, ap, ◌∙◌, subst, arith, Bool,
  true, false, List, [], ◌∷◌, map, ltb, if◌then◌else◌, tabulate, tabulate_from,
}
use native.Mathlib.Nat.{mod-eq_of_lt}
use tmc_examples.Runtime.{Tasks}
use tmc_examples.PipelineFifo.Queue.{BoundedQueue, empty}
use tmc_examples.PipelineFifo.Chain.{Chain, Reach, last_queue}
use tmc_examples.PipelineFifo.Chain.Invariant.{through}
use tmc_examples.PipelineFifo.Chain.Result.{refines_through}

-- `float` and `double`, as far as the program needs them: `halves n` is n / 2, which is exact up to
-- 2 ^ 24 halves, and the operations are exact where their results are. The cast to `int` rounds down.
pub record Floats : Type 1 where
  pub Float : Type 0
  pub Double : Type 0
  pub halves : ℕ → Float
  pub of_int : ℕ → Float
  pub add : Float → Float → Float
  pub multiply : Float → Float → Float
  pub double_of : Float → Double
  pub to_int : Double → ℕ
  pub of_int_lem : (i : ℕ) → 2 * i ≤ 2 ^ 24 → of_int i ≡ halves (2 * i)
  pub add-halves : (a b : ℕ) → a + b ≤ 2 ^ 24 → add (halves a) (halves b) ≡ halves (a + b)
  pub multiply-halves : (a : ℕ) → 2 * a ≤ 2 ^ 24 → multiply (halves 4) (halves a) ≡ halves (2 * a)
  pub to_int-halves : (a : ℕ) → a ≤ 2 ^ 24 → to_int (double_of (halves a)) ≡ a / 2

-- Halves as whole numbers, without rounding.
abbrev pub whole_halves : Floats
whole_halves = record {
  Float = ℕ;
  Double = ℕ;
  halves = λ n. n;
  of_int = λ i. 2 * i;
  add = λ a b. a + b;
  multiply = λ a b. a * b / 2;
  double_of = λ a. a;
  to_int = λ a. a / 2;
  of_int_lem = λ i h. refl;
  add-halves = λ a b h. refl;
  multiply-halves = λ a h. omega arith;
  to_int-halves = λ a h. refl;
}

module _ (f : Floats) where
  -- The values that pass through the stages.
  pub data Value : Type 0 where
    int_value : ℕ → Value
    float_value : f.Float → Value
    double_value : f.Double → Value
    bool_value : Bool → Value

  -- `static_cast<float>(i) + 0.5f`
  unfoldable pub plus_half : Value → Value
  plus_half (int_value i) = float_value (f.add (f.of_int i) (f.halves 1))
  plus_half v = v

  -- `static_cast<double>(2.0f * i)`
  unfoldable pub times_two : Value → Value
  times_two (float_value x) = double_value (f.double_of (f.multiply (f.halves 4) x))
  times_two v = v

  -- `static_cast<int>(i) - 1`, here of a positive number.
  unfoldable pub minus_one : Value → Value
  minus_one (double_value x) = int_value (f.to_int x - 1)
  minus_one v = v

  -- `i > 2`
  unfoldable pub as_bool : Value → Value
  as_bool (int_value i) = bool_value (ltb 2 i)
  as_bool v = v

  -- The three `pipeline_transform` of `main`.
  unfoldable pub transforms : List ((Value → Value) × ℕ)
  unfolding times_two minus_one as_bool
  transforms = (times_two, 10) ∷ (minus_one, 10) ∷ (as_bool, 10) ∷ []

  pub record Totals : Type 0 where
    pub sum : ℕ
    pub count : ℕ

  -- `sum += static_cast<size_t>(i); count += 1;`
  consume : ℕ → Value → Totals → Totals
  consume m (bool_value true) t = record { sum = (t.sum + 1) % m; count = (t.count + 1) % m }
  consume m v t = record { sum = t.sum; count = (t.count + 1) % m }

  -- The last stage over what it pulls, from 0 and 0; `m` is the modulus of `size_t`.
  consume_all : ℕ → List Value → Totals → Totals
  unfolding consume
  consume_all m [] t = t
  consume_all m (v ∷ vs) t = consume_all m vs (consume m v t)

  pub end_totals : ℕ → List Value → Totals
  unfolding consume_all
  end_totals m received = consume_all m received (record { sum = 0; count = 0 })

  -- What the chain makes of an element.
  processed : ℕ → Value
  processed i = bool_value (ltb 2 (2 * i))

  through_lem : (i : ℕ) → i < 2 ^ 21 → through transforms (plus_half (int_value i)) ≡ processed i
  unfolding through transforms plus_half times_two minus_one as_bool processed
  through_lem i h =
      let half : (2 * (2 * i + 1)) / 2 - 1 ≡ 2 * i = omega arith in
      rw
        (
          f.of_int_lem i (omega arith),
          f.add-halves (2 * i) 1 (omega arith),
          f.multiply-halves (2 * i + 1) (omega arith),
          f.to_int-halves (2 * (2 * i + 1)) (omega arith),
          half,
        )
        refl

  consume_bool :
      (m : ℕ) (b : Bool) (t : Totals)
      → t.count + 1 < m
      → t.sum + 1 < m
      → consume m (bool_value b) t
        ≡ record { sum = t.sum + (if b then 1 else 0); count = t.count + 1 }
  unfolding consume
  consume_bool m true t h k =
      rw (mod-eq_of_lt {n = t.count + 1} {m = m} h, mod-eq_of_lt {n = t.sum + 1} {m = m} k) refl
  consume_bool m false t h k =
      let zero_more : t.sum + 0 ≡ t.sum = omega arith in
      rw (mod-eq_of_lt {n = t.count + 1} {m = m} h, zero_more) refl

  one_more : (i s : ℕ) → s ≡ i - 2 → s + (if ltb 2 (2 * i) then 1 else 0) ≡ i + 1 - 2
  one_more i s e = ground arith

  -- The totals over the elements from `i` on, of which those from 2 on add to the sum.
  totals_lem :
      (m i left : ℕ) (t : Totals)
      → t.count + left < m
      → t.sum + left < m
      → t.sum ≡ i - 2
      → ((consume_all m (tabulate_from i left processed) t).sum ≡ i + left - 2)
        × ((consume_all m (tabulate_from i left processed) t).count ≡ t.count + left)
  unfolding consume_all processed
  totals_lem m i zero t h k e = (omega (arith, e), omega arith)
  totals_lem m i (suc left) t h k e =
      let b = ltb 2 (2 * i) in
      let (sums, counts) =
        totals_lem m (i + 1) left
          (record { sum = t.sum + (if b then 1 else 0); count = t.count + 1 }) (omega arith)
          (bounded b) (one_more i t.sum e) in
      let others = tabulate_from (i + 1) left processed in
      subst
        (λ (u : Totals).
          ((consume_all m others u).sum ≡ i + suc left - 2)
          × ((consume_all m others u).count ≡ t.count + suc left))
        (sym (consume_bool m b t (omega arith) (omega arith)))
        (sums ∙ omega arith, counts ∙ omega arith)
    where
      bounded : (b : Bool) → t.sum + (if b then 1 else 0) + left < m
      bounded true = omega arith
      bounded false = omega arith

  map-processed :
      (i left : ℕ)
      → i + left ≤ 2 ^ 21
      → map (λ k. through transforms (plus_half (int_value k))) (tabulate_from i left (λ k. k))
        ≡ tabulate_from i left processed
  map-processed i zero h = refl
  map-processed i (suc left) h =
      rw (through_lem i (omega arith), map-processed (i + 1) left (omega arith)) refl

  module _ (lib : BoundedQueue) (tasks : Tasks) {s : Chain lib tasks int_value plus_half} where
    -- When the driver has pushed the numbers below `elems` and the last stage finds its queue closed
    -- and drained, its count is `elems` and its sum is `elems - 2`, as the program's comments say of
    -- a million: for up to 2 ^ 21 elements, of a number that fits the word, in every interleaving of
    -- the stages, with exact floats.
    pub end_totals-Reach :
        {m elems : ℕ}
        → Reach lib tasks int_value plus_half 10 transforms s
        → s.sent ≡ tabulate elems (λ i. i)
        → lib.pull (last_queue lib tasks Value s.first.out_queue s.nodes) ≡ empty
        → elems ≤ 2 ^ 21
        → elems < m
        → ((end_totals m s.received).sum ≡ elems - 2) × ((end_totals m s.received).count ≡ elems)
    unfolding end_totals
    end_totals-Reach {m} {elems} r e ended small fits =
        let (all, closed) = (refines_through lib tasks int_value plus_half r).1 ended in
        let received : s.received ≡ tabulate elems processed =
          all
          ∙ ap (map (λ k. through transforms (plus_half (int_value k)))) e
          ∙ map-processed 0 elems (omega arith) in
        let (sums, counts) =
          totals_lem m 0 elems (record { sum = 0; count = 0 }) (omega arith) (omega arith) refl in
        rw received (sums ∙ omega arith, counts ∙ omega arith)
