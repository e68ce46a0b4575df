-- ===== src/Bench/Queue.antt =====
-- examples/queue_bench.cpp: the two consumers, which pull until they have the expected number.
pub mod Program
use tmc_examples.Base.{
  ℕ, ◌+◌, ◌<◌, ◌≡◌, refl, sym, ◌∙◌, inl, inr, arith, false, List, [], ◌∷◌, Perm, Option, none, some,
  ltb, Bool-cases, if◌then◌else◌, length, append-nil, lt→ltb, length-Perm, length-tabulate_from,
}
use native.Mathlib.Nat.{mod-eq_of_lt}
use tmc_examples.Bench.{shares, Result, count_one, consume, consumer, fails}
use tmc_examples.Bench.Shares.{pushed, iota, pushed-shares}
use tmc_examples.Bench.Check.{fails-shares}

-- `while (count < expected_count)` over what `pull()` gives, `none` while it still waits.
pull_loop : (m expected : ℕ) → Result → List ℕ → Option Result
unfolding count_one
pull_loop m expected r [] = if ltb r.count expected then none else some r
pull_loop m expected r (x ∷ xs) =
    let rest = pull_loop m expected (count_one m r x) xs in
    if ltb r.count expected then rest else some r

pub pull_consumer : (m expected : ℕ) → List ℕ → Option Result
unfolding pull_loop
pull_consumer m expected pulled = pull_loop m expected (record { count = 0; sum = 0 }) pulled

-- The same over what `try_pull()` gives: where it has no element the task reschedules itself.
try_pull_loop : (m expected : ℕ) → Result → List (Option ℕ) → Option Result
unfolding count_one
try_pull_loop m expected r [] = if ltb r.count expected then none else some r
try_pull_loop m expected r (some x ∷ xs) =
    let rest = try_pull_loop m expected (count_one m r x) xs in
    if ltb r.count expected then rest else some r
try_pull_loop m expected r (none ∷ xs) =
    let rest = try_pull_loop m expected r xs in if ltb r.count expected then rest else some r

pub consumer_try_pull : (m expected : ℕ) → List (Option ℕ) → Option Result
unfolding try_pull_loop
consumer_try_pull m expected replies =
    try_pull_loop m expected (record { count = 0; sum = 0 }) replies

-- The elements among the replies of `try_pull()`.
abbrev pub elements : List (Option ℕ) → List ℕ
elements [] = []
elements (some x ∷ os) = x ∷ elements os
elements (none ∷ os) = elements os

done_lem :
    (m expected : ℕ) (r : Result) (xs : List ℕ)
    → ltb r.count expected ≡ false
    → pull_loop m expected r xs ≡ some r
unfolding pull_loop
done_lem m expected r [] h = rw h refl
done_lem m expected r (x ∷ xs) h = rw h refl

try_pull_loop_lem :
    (m expected : ℕ) (r : Result) (os : List (Option ℕ))
    → try_pull_loop m expected r os ≡ pull_loop m expected r (elements os)
unfolding pull_loop try_pull_loop
try_pull_loop_lem m expected r [] = refl
try_pull_loop_lem m expected r (some x ∷ os) =
    rw (try_pull_loop_lem m expected (count_one m r x) os) refl
try_pull_loop_lem m expected r (none ∷ os) = elim (Bool-cases (ltb r.count expected)) [
  | inl more ↦ rw more (try_pull_loop_lem m expected r os)
  | inr full ↦ rw full (sym (done_lem m expected r (elements os) full))
]

-- A consumer that is owed just what is still to come returns with all of it.
pull_loop_lem :
    (m expected : ℕ) (r : Result) (xs : List ℕ)
    → r.count + length xs ≡ expected
    → expected < m
    → pull_loop m expected r xs ≡ some (consume m r xs)
unfolding pull_loop consume count_one
pull_loop_lem m expected r [] e h = ground arith
pull_loop_lem m expected r (x ∷ xs) e h =
    let small = mod-eq_of_lt {n = r.count + 1} {m = m} (omega arith) in
    rw (lt→ltb r.count expected (omega arith))
      (pull_loop_lem m expected (count_one m r x) xs (rw small (omega arith)) h)

-- The consumer that polls with try_pull agrees with the one that waits in pull, whatever replies
-- it gets in between: it waits for more, or returns the same count and the same sum.
pub consumer_try_pull-pull_consumer :
    (m expected : ℕ) (replies : List (Option ℕ))
    → consumer_try_pull m expected replies ≡ pull_consumer m expected (elements replies)
unfolding consumer_try_pull pull_consumer
consumer_try_pull-pull_consumer m expected replies = try_pull_loop_lem m expected _ replies

-- A consumer that is told the number of the elements returns when it has pulled all.
pub pull_consumer_lem :
    (m elems producers : ℕ) (xs : List ℕ)
    → 0 < producers
    → elems < m
    → Perm xs (pushed m (shares m elems producers))
    → pull_consumer m elems xs ≡ some (consumer m xs)
unfolding pull_consumer consumer
pull_consumer_lem m elems producers xs h fits delivered =
    let all : Perm xs (iota 0 elems) = rw (pushed-shares m elems producers h fits) at delivered in
    let number : 0 + length xs ≡ elems =
      omega (arith, length-Perm all ∙ length-tabulate_from 0 elems (λ x. x)) in
    pull_loop_lem m elems (record { count = 0; sum = 0 }) xs number fits

-- When the elements among the replies of try_pull are what the producers push, in any order, the
-- single consumer that is told their number returns, and then no `FAIL` line is printed.
pub consumer_try_pull-fails :
    (m elems producers : ℕ) (replies : List (Option ℕ))
    → 0 < producers
    → elems < m
    → Perm (elements replies) (pushed m (shares m elems producers))
    → (r : Result) × (consumer_try_pull m elems replies ≡ some r) × (fails m elems (r ∷ []) ≡ false)
consumer_try_pull-fails m elems producers replies h fits delivered = (
  consumer m (elements replies),
  consumer_try_pull-pull_consumer m elems replies
      ∙ pull_consumer_lem m elems producers (elements replies) h fits delivered,
  fails-shares m elems producers (elements replies ∷ []) h fits
      (rw (append-nil (elements replies)) delivered),
)
