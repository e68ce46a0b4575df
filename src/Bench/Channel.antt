-- ===== src/Bench/Channel.antt =====
-- examples/chan_bench.cpp: the sweep over numbers of consumers and producers. What each consumer
-- pulls of what the producers push is the channel's choice, a parameter.
use tmc_examples.Base.{
  ℕ, zero, suc, ◌+◌, ◌<◌, ◌≡◌, refl, arith, List, [], ◌∷◌, ◌++◌, map, Perm, if◌then◌else◌, flatten,
}
use tmc_examples.Bench.{shares, producer, consumer, fails}
use tmc_examples.Bench.Shares.{flatten-pushed}
use tmc_examples.Bench.Check.{fails-shares}

-- What the program prints: the `FAIL:` lines of a round, of which there are two, or the line with the
-- rate.
pub data Line : Type 0 where
  fail : Line
  rate : (producers consumers : ℕ) → Line

-- `tmc::chan_tok` with its producers and consumers: for the number of consumers and what each
-- producer pushes, what each consumer pulls until the channel is closed and drained.
abbrev pub Channel : Type 0
Channel = (consumers : ℕ) → List (List ℕ) → List (List ℕ)

module _ (m elems : ℕ) (channel : Channel) where
  -- One round: a channel, its producers and consumers, and the check.
  round : (consumers producers : ℕ) → List Line
  round consumers producers =
      let pulls = channel consumers (map (producer m) (shares m elems producers)) in
      (if fails m elems (map (consumer m) pulls) then fail ∷ [] else [])
      ++ rate producers consumers ∷ []

  -- `for (size_t prodCount = 1; …)`, with `left` rounds to go.
  sweep_producers : (consumers from left : ℕ) → List Line
  unfolding round
  sweep_producers consumers from zero = []
  sweep_producers consumers from (suc left) =
      round consumers from ++ sweep_producers consumers (from + 1) left

  -- `for (size_t consCount = 1; …)`, each with `producers` rounds.
  sweep_from : (producers from left : ℕ) → List Line
  unfolding sweep_producers
  sweep_from producers from zero = []
  sweep_from producers from (suc left) =
      sweep_producers from 1 producers ++ sweep_from producers (from + 1) left

  pub sweep : (producers consumers : ℕ) → List Line
  unfolding sweep_from
  sweep producers consumers = sweep_from producers 1 consumers

-- The lines of the rates alone.
abbrev rates_of : (consumers from left : ℕ) → List Line
rates_of consumers from zero = []
rates_of consumers from (suc left) = rate from consumers ∷ rates_of consumers (from + 1) left

abbrev rates_from : (producers from left : ℕ) → List Line
rates_from producers from zero = []
rates_from producers from (suc left) =
    rates_of from 1 producers ++ rates_from producers (from + 1) left

abbrev pub rates : (producers consumers : ℕ) → List Line
rates producers consumers = rates_from producers 1 consumers

-- What the channel documents: each element that was pushed is pulled once, by one consumer.
abbrev pub Delivers : Channel → Type 0
Delivers channel =
    (consumers : ℕ) (pushes : List (List ℕ))
    → Perm (flatten (channel consumers pushes)) (flatten pushes)

module _ (m elems : ℕ) (channel : Channel) (delivers : Delivers channel) (fits : elems < m) where
  round_lem :
      (consumers producers : ℕ)
      → 0 < producers
      → round m elems channel consumers producers ≡ rate producers consumers ∷ []
  unfolding round
  round_lem consumers producers h =
      let all =
        rw (flatten-pushed m (shares m elems producers)) at
          (delivers consumers (map (producer m) (shares m elems producers))) in
      rw (fails-shares m elems producers _ h fits all) refl

  sweep_producers_lem :
      (consumers from left : ℕ)
      → 0 < from
      → sweep_producers m elems channel consumers from left ≡ rates_of consumers from left
  unfolding sweep_producers
  sweep_producers_lem consumers from zero h = refl
  sweep_producers_lem consumers from (suc left) h =
      rw (round_lem consumers from h, sweep_producers_lem consumers (from + 1) left (omega arith))
        refl

  sweep_from_lem :
      (producers from left : ℕ)
      → sweep_from m elems channel producers from left ≡ rates_from producers from left
  unfolding sweep_from
  sweep_from_lem producers from zero = refl
  sweep_from_lem producers from (suc left) =
      rw
        (
          sweep_producers_lem from 1 producers (omega arith),
          sweep_from_lem producers (from + 1) left,
        )
        refl

  -- With a channel that delivers each pushed element to one consumer, and a number of elements
  -- that fits the word, the sweep prints the line of the rate for each number of consumers and
  -- each number of producers, in the order of the loops, and no `FAIL` line.
  pub sweep-rates :
      (producers consumers : ℕ)
      → sweep m elems channel producers consumers ≡ rates producers consumers
  unfolding sweep
  sweep-rates producers consumers = sweep_from_lem producers 1 consumers
