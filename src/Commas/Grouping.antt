-- ===== src/Commas/Grouping.antt =====
-- Where the commas stand, and that nothing else changes.
use tmc_examples.Base.{
  ℕ, zero, suc, ◌+◌, ◌-◌, ◌≤◌, ◌<◌, ◌≡◌, refl, sym, ap, ◌∙◌, List, [], ◌∷◌, ◌++◌, arith, length,
  append-nil, append_assoc, ◌==◌, if◌then◌else◌,
}
use tmc_examples.Base.Digits.{
  to_string, length-to_string, AreDigits, to_string-AreDigits, value, value-to_string,
}
use tmc_examples.Commas.{comma, insert_at, insert_commas, format_with_commas}

-- The first group and the groups behind it, with a comma before each of those, and without.
abbrev pub with_commas : List (List ℕ) → List ℕ
with_commas [] = []
with_commas (g ∷ gs) = comma ∷ (g ++ with_commas gs)

abbrev pub without : List (List ℕ) → List ℕ
without [] = []
without (g ∷ gs) = g ++ without gs

-- Every group has three digits.
abbrev pub OfThree : List (List ℕ) → Type 0
OfThree [] = Unit {0}
OfThree (g ∷ gs) = (length g ≡ 3) × OfThree gs

-- `out` is `s` cut into groups of three from the right, the first of one to three digits.
pub record Grouped (s out : List ℕ) : Type 0 where
  pub first : List ℕ
  pub groups : List (List ℕ)
  pub digits : s ≡ first ++ without groups
  pub printed : out ≡ first ++ with_commas groups
  pub small : (0 < length first) × (length first ≤ 3)
  pub three : OfThree groups

insert_at-append : (i c : ℕ) (p q : List ℕ) → length p ≡ i → insert_at i c (p ++ q) ≡ p ++ c ∷ q
unfolding insert_at
insert_at-append zero c [] q e = refl
insert_at-append zero c (x ∷ p) q e = absurd (omega arith)
insert_at-append (suc i) c [] q e = absurd (omega arith)
insert_at-append (suc i) c (x ∷ p) q e = ap (λ t. x ∷ t) (insert_at-append i c p q (omega arith))

-- The last three of a list, and what stands before them.
abbrev Split : List ℕ → ℕ → Type 0
Split p i = (a : List ℕ) × (g : List ℕ) × (p ≡ a ++ g) × (length a ≡ i) × (length g ≡ 3)

cut_last : (p : List ℕ) (i : ℕ) → length p ≡ i + 3 → Split p i
cut_last p zero e = ([], p, refl, refl, omega arith)
cut_last [] (suc i) e = absurd (omega arith)
cut_last (x ∷ p) (suc i) e =
    let (a, g, parts, la, lg) = cut_last p i (omega arith) in
    (x ∷ a, g, ap (λ t. x ∷ t) parts, omega arith, lg)

-- The last round: one to three digits are left before the group `g`.
last_Grouped :
    (i : ℕ) (p g : List ℕ) (gs : List (List ℕ))
    → length p ≡ i
    → 0 < i
    → i ≤ 3
    → length g ≡ 3
    → OfThree gs
    → Grouped (p ++ (g ++ without gs)) (insert_at i comma (p ++ (g ++ with_commas gs)))
last_Grouped i p g gs e pos small lg t = record {
  first = p;
  groups = g ∷ gs;
  digits = refl;
  printed = insert_at-append i comma p (g ++ with_commas gs) e;
  small = omega arith;
  three = (lg, t);
}

-- The loop at index `i`, with `i` digits before the group `g` and the groups that have their comma.
loop_Grouped :
    (i : ℕ) (p g : List ℕ) (gs : List (List ℕ))
    → length p ≡ i
    → 0 < i
    → length g ≡ 3
    → OfThree gs
    → Grouped (p ++ (g ++ without gs)) (insert_commas i (p ++ (g ++ with_commas gs)))
unfolding insert_commas
loop_Grouped zero p g gs e h lg t = absurd (omega arith)
loop_Grouped (suc zero) p g gs e h lg t = last_Grouped 1 p g gs e h (omega arith) lg t
loop_Grouped (suc (suc zero)) p g gs e h lg t = last_Grouped 2 p g gs e h (omega arith) lg t
loop_Grouped (suc (suc (suc zero))) p g gs e h lg t = last_Grouped 3 p g gs e h (omega arith) lg t
loop_Grouped (suc (suc (suc (suc k)))) p g gs e h lg t =
    let (a, g', parts, la, lg') = cut_last p (suc k) (omega arith) in
    rw (insert_at-append _ comma p _ e, parts, append_assoc, append_assoc)
      (loop_Grouped (suc k) a g' (g ∷ gs) la (omega arith) lg' (lg, t))

insert_commas-Grouped :
    (s : List ℕ) (i : ℕ) → i ≡ length s - 3 → 0 < length s → Grouped s (insert_commas i s)
unfolding insert_commas
insert_commas-Grouped s zero e h = record {
  first = s;
  groups = [];
  digits = sym (append-nil s);
  printed = sym (append-nil s);
  small = omega arith;
  three = tt;
}
insert_commas-Grouped s (suc i) e h =
    let (a, g, parts, la, lg) = cut_last s (suc i) (omega arith) in
    rw (parts, ← append-nil g) (loop_Grouped (suc i) a g [] la (omega arith) lg tt)

-- The printed string is the decimal digits of the number cut into groups.
format_with_commas-Grouped : (n : ℕ) → Grouped (to_string n) (format_with_commas n)
unfolding format_with_commas
format_with_commas-Grouped n = insert_commas-Grouped (to_string n) _ refl (length-to_string n)

-- The string with its commas taken out.
pub strip : List ℕ → List ℕ
strip [] = []
strip (c ∷ cs) = if c == comma then strip cs else c ∷ strip cs

strip-append : (xs ys : List ℕ) → strip (xs ++ ys) ≡ strip xs ++ strip ys
unfolding strip
strip-append [] ys = refl
strip-append (x ∷ xs) ys = ground (arith, strip-append xs ys)

strip-AreDigits : (xs : List ℕ) → AreDigits xs → strip xs ≡ xs
unfolding strip
strip-AreDigits [] h = refl
strip-AreDigits (x ∷ xs) h = ground (arith, strip-AreDigits xs h.2)

AreDigits-parts : (xs ys : List ℕ) → AreDigits (xs ++ ys) → AreDigits xs × AreDigits ys
AreDigits-parts [] ys h = (tt, h)
AreDigits-parts (x ∷ xs) ys h = let (a, b) = AreDigits-parts xs ys h.2 in ((h.0, h.1, a), b)

strip-with_commas :
    (gs : List (List ℕ)) → AreDigits (without gs) → strip (with_commas gs) ≡ without gs
unfolding strip
strip-with_commas [] h = refl
strip-with_commas (g ∷ gs) h =
    let (a, b) = AreDigits-parts g (without gs) h in
    rw (strip-append g (with_commas gs), strip-AreDigits g a, strip-with_commas gs b)

-- Without its commas, the string reads as the number.
value-format_with_commas : (n : ℕ) → value 0 (strip (format_with_commas n)) ≡ n
value-format_with_commas n =
    ap (value 0) (ap strip v.printed ∙ stripped ∙ sym v.digits) ∙ value-to_string n
  where
    v : Grouped (to_string n) (format_with_commas n)
    v = format_with_commas-Grouped n

    digits : AreDigits (v.first ++ without v.groups)
    digits = rw (← v.digits) (to_string-AreDigits n)

    parts : AreDigits v.first × AreDigits (without v.groups)
    parts = AreDigits-parts v.first (without v.groups) digits

    stripped : strip (v.first ++ with_commas v.groups) ≡ v.first ++ without v.groups
    stripped = rw (
      strip-append v.first (with_commas v.groups),
      strip-AreDigits v.first parts.0,
      strip-with_commas v.groups parts.1,
    )

-- What is printed of a number is a first group of one to three digits and then, each after a comma,
-- groups of just three digits, with no other comma; the digits are those of the number in the decimal
-- system, so that without its commas the string reads as the number.
pub format_with_commas_lem :
    (n : ℕ)
    → Grouped (to_string n) (format_with_commas n)
      × AreDigits (to_string n)
      × (value 0 (strip (format_with_commas n)) ≡ n)
format_with_commas_lem n =
    (format_with_commas-Grouped n, to_string-AreDigits n, value-format_with_commas n)
