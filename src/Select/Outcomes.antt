-- ===== src/Select/Outcomes.antt =====
-- The exit code of `Select`.
use tmc_examples.Base.{ℕ, ◌≡◌, refl, ◌∙◌, List, [], ◌∷◌}
use tmc_examples.Select.{
  Selected, slot_0, slot_1, valueless, Library, Line, on_result, race, print_all, select_each,
}

module _ (lib : Library) where
  goes_on :
      (selected : Selected) (rest : List Line × ℕ)
      → (selected ≡ valueless → ⊥)
      → (print_all lib (on_result lib selected) rest).1 ≡ rest.1
  unfolding print_all on_result
  goes_on (slot_0 ec) rest h = refl
  goes_on (slot_1 ec) rest h = refl
  goes_on valueless rest h = absurd (h refl)

  -- The program exits with 0 unless some result holds no value, whatever the codes are.
  pub exit_code :
      (t : ℕ)
      → ((d : ℕ)
          → lib.select
              (lib.cancellable_by (lib.async_wait d))
              (lib.cancellable_object (lib.async_wait t))
            ≡ valueless
          → ⊥)
      → (ds : List ℕ) → (select_each lib t ds).1 ≡ 0
  unfolding select_each race
  exit_code t h [] = refl
  exit_code t h (d ∷ ds) = goes_on _ (select_each lib t ds) (h d) ∙ exit_code t h ds
