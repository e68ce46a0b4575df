-- ===== src/Servers/Prefork.antt =====
-- A script and a process that starts all workers itself, in general.
use tmc_examples.Base.{
  ℕ, zero, suc, ◌+◌, ◌≤◌, ◌<◌, ◌≡◌, refl, false, some, List, [], ◌∷◌, arith, tabulate_from, length,
}
use tmc_examples.Base.Digits.{to_string, AreDigits, to_string-AreDigits, length-to_string}
use tmc_examples.Servers.{Outcome, prints, serves, same_text, query, start_processes, prefork}

not_query : (s : List ℕ) → AreDigits s → 0 < length s → same_text s query ≡ false
unfolding same_text query
not_query [] d h = absurd (omega (arith, h))
not_query (c ∷ s) d h = ground arith

-- The decimal of an index is no query.
pub same_text-to_string : (i : ℕ) → same_text (to_string i) query ≡ false
same_text-to_string i = not_query (to_string i) (to_string-AreDigits i) (length-to_string i)

module _ {Worker : Type 0} (main : List (List ℕ) → Outcome Worker) (worker : ℕ → Worker) where
  pub start_processes-tabulate_from :
      (i left : ℕ)
      → ((j : ℕ) → i ≤ j → j < i + left → main (to_string j ∷ []) ≡ serves (worker j ∷ []))
      → start_processes main i left ≡ some (tabulate_from i left worker)
  unfolding start_processes
  start_processes-tabulate_from i zero h = refl
  start_processes-tabulate_from i (suc left) h =
      rw
        (
          h i (omega arith) (omega arith),
          start_processes-tabulate_from (i + 1) left
              (λ j a b. h j (omega (arith, a)) (omega (arith, b))),
        )
        refl

  pub prefork-tabulate :
      (n : ℕ)
      → main (query ∷ []) ≡ prints n
      → ((j : ℕ) → j < n → main (to_string j ∷ []) ≡ serves (worker j ∷ []))
      → prefork main ≡ some (tabulate_from 0 n worker)
  unfolding prefork
  prefork-tabulate n q h =
      rw q (start_processes-tabulate_from 0 n (λ j a b. h j (omega (arith, b))))
