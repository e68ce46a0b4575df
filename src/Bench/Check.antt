-- ===== src/Bench/Check.antt =====
-- About the check at the end of a benchmark.
use native.Mathlib.Nat.{mod-eq_of_lt, mod-mod}
use tmc_examples.Base.{
  ℕ, ◌+◌, ◌%◌, ◌<◌, ◌≡◌, refl, sym, ap, ◌∙◌, arith, false, List, [], ◌∷◌, ◌++◌, map, Perm, flatten,
  sum, sum-append, length, length-append, sum_words, sum_words-zero, add-mod_congr, sum-Perm,
  length-Perm, length-tabulate_from, ==_iff,
}
use tmc_examples.Bench.{
  Result, count_one, add_result, consume, consumer, totals, expected_sum, fails, shares,
}
use tmc_examples.Bench.Shares.{pushed, iota, pushed-shares}

abbrev ones : List ℕ → List ℕ
ones = map (λ _. 1)

sum-ones : (xs : List ℕ) → sum (ones xs) ≡ length xs
sum-ones [] = refl
sum-ones (x ∷ xs) = omega (arith, sum-ones xs)

consume-count :
    (m : ℕ) (r : Result) (xs : List ℕ) → (consume m r xs).count ≡ sum_words m r.count (ones xs)
unfolding consume sum_words
consume-count m r [] = refl
consume-count m r (x ∷ xs) = consume-count m (count_one m r x) xs

consume-sum : (m : ℕ) (r : Result) (xs : List ℕ) → (consume m r xs).sum ≡ sum_words m r.sum xs
unfolding consume sum_words
consume-sum m r [] = refl
consume-sum m r (x ∷ xs) = consume-sum m (count_one m r x) xs

totals-count :
    (m : ℕ) (t : Result) (rs : List Result)
    → (totals m t rs).count ≡ sum_words m t.count (map (λ r. r.count) rs)
unfolding totals sum_words
totals-count m t [] = refl
totals-count m t (r ∷ rs) = totals-count m (add_result m t r) rs

totals-sum :
    (m : ℕ) (t : Result) (rs : List Result)
    → (totals m t rs).sum ≡ sum_words m t.sum (map (λ r. r.sum) rs)
unfolding totals sum_words
totals-sum m t [] = refl
totals-sum m t (r ∷ rs) = totals-sum m (add_result m t r) rs

consumer-count : (m : ℕ) (xs : List ℕ) → 0 < m → (consumer m xs).count ≡ length xs % m
unfolding consumer
consumer-count m xs h =
    consume-count m _ xs ∙ sum_words-zero m (ones xs) h ∙ ap (λ t. t % m) (sum-ones xs)

consumer-sum : (m : ℕ) (xs : List ℕ) → 0 < m → (consumer m xs).sum ≡ sum xs % m
unfolding consumer
consumer-sum m xs h = consume-sum m _ xs ∙ sum_words-zero m xs h

-- The wrapped results of the consumers add up to the wrapped measure of all that they pulled.
nested :
    (m : ℕ) (field : Result → ℕ) (measure : List ℕ → ℕ) (xss : List (List ℕ))
    → ((xs : List ℕ) → field (consumer m xs) ≡ measure xs % m)
    → measure [] ≡ 0
    → ((xs ys : List ℕ) → measure (xs ++ ys) ≡ measure xs + measure ys)
    → sum (map field (map (consumer m) xss)) % m ≡ measure (flatten xss) % m
nested m field measure [] h z a = ap (λ t. t % m) (sym z)
nested m field measure (xs ∷ xss) h z a =
    add-mod_congr (field (consumer m xs)) _ (measure xs) _ m
      (ap (λ t. t % m) (h xs) ∙ mod-mod (measure xs) m) (nested m field measure xss h z a)
    ∙ ap (λ t. t % m) (sym (a xs (flatten xss)))

module _ (m : ℕ) (pulls : List (List ℕ)) (pos : 0 < m) where
  abbrev total : Result
  total = totals m (record { count = 0; sum = 0 }) (map (consumer m) pulls)

  totals_count : total.count ≡ length (flatten pulls) % m
  totals_count =
      totals-count m _ (map (consumer m) pulls)
      ∙ sum_words-zero m _ pos
      ∙ nested m (λ r. r.count) length pulls (λ xs. consumer-count m xs pos) refl length-append

  totals_sum : total.sum ≡ sum (flatten pulls) % m
  totals_sum =
      totals-sum m _ (map (consumer m) pulls)
      ∙ sum_words-zero m _ pos
      ∙ nested m (λ r. r.sum) sum pulls (λ xs. consumer-sum m xs pos) refl sum-append

-- If the consumers together pull what the producers push, in any order and in any division, the
-- counts and the sums agree with the expected ones, also where the sums wrap, and no `FAIL` line
-- is printed.
pub fails-shares :
    (m elems producers : ℕ) (pulls : List (List ℕ))
    → 0 < producers
    → elems < m
    → Perm (flatten pulls) (pushed m (shares m elems producers))
    → fails m elems (map (consumer m) pulls) ≡ false
unfolding fails expected_sum
fails-shares m elems producers pulls h fits delivered =
    rw ((==_iff _ elems).1 counts, (==_iff _ (sum_words m 0 (iota 0 elems))).1 sums)
  where
    all : Perm (flatten pulls) (iota 0 elems)
    all = rw (pushed-shares m elems producers h fits) at delivered

    counts : (totals m (record { count = 0; sum = 0 }) (map (consumer m) pulls)).count ≡ elems
    counts =
        totals_count m pulls (omega arith)
        ∙ ap (λ t. t % m) (length-Perm all ∙ length-tabulate_from 0 elems (λ x. x))
        ∙ mod-eq_of_lt fits

    sums :
        (totals m (record { count = 0; sum = 0 }) (map (consumer m) pulls)).sum
        ≡ sum_words m 0 (iota 0 elems)
    sums =
        totals_sum m pulls (omega arith)
        ∙ ap (λ t. t % m) (sum-Perm all)
        ∙ sym (sum_words-zero m (iota 0 elems) (omega arith))
