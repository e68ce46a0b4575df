-- ===== src/PipelineFifo/Chain/Program/Ending.antt =====
-- The program of `PipelineFifo.Chain.Program` comes to its end, with its totals.
use tmc_examples.Base.{ℕ, ◌-◌, ◌^◌, ◌≤◌, ◌<◌, ◌≡◌, ◌∙◌, arith, true, tabulate}
use tmc_examples.Runtime.{Tasks}
use tmc_examples.PipelineFifo.Queue.{BoundedQueue, empty}
use tmc_examples.PipelineFifo.Chain.{Chain, Reach, last_queue}
use tmc_examples.PipelineFifo.Chain.Delivery.{Parallel, delivers_through}
use tmc_examples.PipelineFifo.Chain.Program.{
  Floats, Value, int_value, plus_half, transforms, end_totals, end_totals-Reach,
}

parallel : (f : Floats) → Parallel (transforms f)
unfolding transforms
parallel f = (omega arith, (omega arith, (omega arith, tt)))

module _ (f : Floats) (lib : BoundedQueue) (tasks : Tasks)
    {s : Chain lib tasks {A = Value f} int_value (plus_half f)} where
  -- Once the driver has pushed the numbers below `elems` and closed the input, the workers and the
  -- last stage can run on until that finds its queue closed and drained, and then its count is
  -- `elems` and its sum is `elems - 2`, as the program's comments say of a million: for up to 2 ^ 21
  -- elements, of a number that fits the word, with exact floats.
  pub end_totals-delivers :
      {m elems : ℕ}
      → Reach lib tasks int_value (plus_half f) 10 (transforms f) s
      → s.sent ≡ tabulate elems (λ i. i)
      → (lib.view s.first.in_queue).closed ≡ true
      → elems ≤ 2 ^ 21
      → elems < m
      → (t : Chain lib tasks int_value (plus_half f)) × Reach lib tasks int_value
          (plus_half f)
          10
          (transforms f)
          t
        × (lib.pull (last_queue lib tasks (Value f) t.first.out_queue t.nodes) ≡ empty)
        × ((end_totals f m t.received).sum ≡ elems - 2)
        × ((end_totals f m t.received).count ≡ elems)
  end_totals-delivers {m} {elems} r e c small fits =
      let (t, run, same, ended, all) =
        delivers_through lib tasks int_value (plus_half f) r (omega arith) (parallel f) c in
      let (sums, counts) = end_totals-Reach f lib tasks run (same ∙ e) ended small fits in
      (t, run, ended, sums, counts)
