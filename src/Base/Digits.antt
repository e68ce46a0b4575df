-- ===== src/Base/Digits.antt =====
-- `std::to_string` of an unsigned number: its decimal digits, the first not 0 unless the number is.
use mathlib.Core.WellFounded.{Acc, WellFounded}
use mathlib.Core.Logic.{dite, dif_pos, dif_neg}
use native.Mathlib.Bridge.{le_prop}
use tmc_examples.Base.{
  ℕ, zero, suc, ◌+◌, ◌-◌, ◌*◌, ◌/◌, ◌%◌, ◌≤◌, ◌<◌, ◌≡◌, refl, ◌∙◌, List, [], ◌∷◌, ◌++◌, arith,
  dec_lt, length, length-append,
}

Acc-below : (k n : ℕ) → n < k → Acc ◌<◌ n
Acc-below zero n h = elim h [ ]
Acc-below (suc k) n h = Acc.intro n (λ m hm. Acc-below k m (omega arith))

lt_wf : WellFounded ◌<◌
unfolding Acc-below
lt_wf = record { apply = λ n. Acc-below (suc n) n (omega arith) }

pub tenth-lt : (n : ℕ) → 9 < n → n / 10 < n
tenth-lt n h = omega arith

digits : (n : ℕ) → Acc ◌<◌ n → List ℕ
digits n (Acc.intro _ smaller) =
    dite (dec_lt 9 n)
      (λ h. digits (n / 10) (smaller (n / 10) (tenth-lt n h)) ++ (b'0' + n % 10) ∷ [])
      (λ h. (b'0' + n) ∷ [])

unfoldable pub to_string : ℕ → List ℕ
unfolding digits lt_wf dec_lt
to_string n = digits n (lt_wf.apply n)

-- The number that a string of digits stands for.
unfoldable pub value : ℕ → List ℕ → ℕ
value acc [] = acc
value acc (d ∷ ds) = value (acc * 10 + (d - b'0')) ds

value-append :
    (acc : ℕ) (xs : List ℕ) (d : ℕ) → value acc (xs ++ d ∷ []) ≡ value acc xs * 10 + (d - b'0')
unfolding value
value-append acc [] d = refl
value-append acc (x ∷ xs) d = value-append (acc * 10 + (x - b'0')) xs d

value-digits : (n : ℕ) (w : Acc ◌<◌ n) → value 0 (digits n w) ≡ n
unfolding digits value
value-digits n (Acc.intro _ smaller) = elim (dec_lt 9 n) [
  | yes h ↦ rw (dif_pos _ le_prop h) (
      value-append 0 (digits (n / 10) (smaller (n / 10) (tenth-lt n h))) (b'0' + n % 10)
      ∙ omega (arith, value-digits (n / 10) (smaller (n / 10) (tenth-lt n h))))
  | no h ↦ rw (dif_neg _ h) (omega arith)
]

length-digits : (n : ℕ) (w : Acc ◌<◌ n) → 0 < length (digits n w)
unfolding digits
length-digits n (Acc.intro _ smaller) = elim (dec_lt 9 n) [
  | yes h ↦ rw (dif_pos _ le_prop h) (
      omega (
        arith,
        length-append (digits (n / 10) (smaller (n / 10) (tenth-lt n h))) ((b'0' + n % 10) ∷ []),
      ))
  | no h ↦ rw (dif_neg _ h) (omega arith)
]

abbrev pub AreDigits : List ℕ → Type 0
AreDigits [] = Unit {0}
AreDigits (d ∷ ds) = (b'0' ≤ d) × (d ≤ b'9') × AreDigits ds

AreDigits-append : (xs ys : List ℕ) → AreDigits xs → AreDigits ys → AreDigits (xs ++ ys)
AreDigits-append [] ys h k = k
AreDigits-append (x ∷ xs) ys h k = (h.0, h.1, AreDigits-append xs ys h.2 k)

digits-AreDigits : (n : ℕ) (w : Acc ◌<◌ n) → AreDigits (digits n w)
unfolding digits
digits-AreDigits n (Acc.intro _ smaller) = elim (dec_lt 9 n) [
  | yes h ↦ rw (dif_pos _ le_prop h) (
      AreDigits-append (digits (n / 10) (smaller (n / 10) (tenth-lt n h))) ((b'0' + n % 10) ∷ [])
        (digits-AreDigits (n / 10) (smaller (n / 10) (tenth-lt n h))) (omega arith))
  | no h ↦ rw (dif_neg _ h) (omega arith)
]

-- Printing a number and reading the string gives the number back.
pub value-to_string : (n : ℕ) → value 0 (to_string n) ≡ n
unfolding to_string
value-to_string n = value-digits n (lt_wf.apply n)

pub to_string-AreDigits : (n : ℕ) → AreDigits (to_string n)
unfolding to_string
to_string-AreDigits n = digits-AreDigits n (lt_wf.apply n)

pub length-to_string : (n : ℕ) → 0 < length (to_string n)
unfolding to_string
length-to_string n = length-digits n (lt_wf.apply n)
