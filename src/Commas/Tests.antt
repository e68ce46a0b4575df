-- ===== src/Commas/Tests.antt =====
-- Strings that the benchmarks print, and the theorems of `Commas` at one of them.
use tmc_examples.Base.{ℕ, List, [], ◌∷◌, ◌≡◌, refl}
use tmc_examples.Base.Digits.{to_string, AreDigits, value}
use tmc_examples.Commas.{format_with_commas, insert_commas, insert_at}
use tmc_examples.Commas.Grouping.{Grouped, strip, format_with_commas_lem}

abbrev ten_million : List ℕ
ten_million = b'1' ∷ b'0' ∷ b',' ∷ b'0' ∷ b'0' ∷ b'0' ∷ b',' ∷ b'0' ∷ b'0' ∷ b'0' ∷ []

format_million : format_with_commas 10000000 ≡ ten_million
unfolding format_with_commas insert_commas insert_at to_string
format_million = refl

format_small : format_with_commas 999 ≡ b'9' ∷ b'9' ∷ b'9' ∷ []
unfolding format_with_commas insert_commas insert_at to_string
format_small = refl

format_with_commas_lem_example :
    Grouped (to_string 4096) (format_with_commas 4096)
    × AreDigits (to_string 4096)
    × (value 0 (strip (format_with_commas 4096)) ≡ 4096)
format_with_commas_lem_example = format_with_commas_lem 4096
