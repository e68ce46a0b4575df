-- ===== src/Http/Reply.antt =====
-- About the text of a response, as a client reads it.
use tmc_examples.Base.{
  ℕ, ◌+◌, ◌-◌, ◌*◌, ◌≡◌, refl, ◌&&◌, Option, none, some, List, [], ◌∷◌, ◌++◌, arith, leb, ◌==◌,
  if◌then◌else◌, length, ==_iff,
}
use mathlib.Core.Option
use tmc_examples.Base.Digits.{to_string, value, value-to_string, AreDigits, to_string-AreDigits}
use tmc_examples.Http.{codes, response, static_response, skynet_text, skynet_page}
use tmc_examples.Runtime.{Tasks}
use tmc_examples.Skynet.{expected_result}
use tmc_examples.Skynet.Result.{skynet_total}

-- The text behind a prefix.
behind : List ℕ → List ℕ → Option (List ℕ)
behind [] s = some s
behind (c ∷ cs) [] = none
behind (c ∷ cs) (d ∷ s) = let rest = behind cs s in if c == d then rest else none

-- The number at the head of a text, and what follows it.
read_number : ℕ → List ℕ → ℕ × List ℕ
read_number acc [] = (acc, [])
read_number acc (c ∷ s) =
    let rest = read_number (acc * 10 + (c - b'0')) s in
    if leb b'0' c && leb c b'9' then rest else (acc, c ∷ s)

abbrev line_feed : ℕ
line_feed = 10

-- The text behind the first empty line.
body_of : List ℕ → Option (List ℕ)
body_of [] = none
body_of (c ∷ []) = none
body_of (c ∷ d ∷ s) =
    let rest = body_of (d ∷ s) in if (c == line_feed) && (d == line_feed) then some s else rest

exactly : ℕ → List ℕ → Option (List ℕ)
exactly n body = if length body == n then some body else none

-- A client: the status line, the number of `Content-Length`, the end of the headers, and as many
-- characters as that number says.
pub read_response : List ℕ → Option (List ℕ)
unfolding behind read_number body_of exactly
read_response s =
    Option.bind (behind (codes "HTTP/1.1 200 OK\nContent-Length: ") s)
      (λ rest. let (n, more) = read_number 0 rest in Option.bind (body_of more) (exactly n))

read_number-digits :
    (acc : ℕ) (ds s : List ℕ)
    → AreDigits ds
    → read_number acc (ds ++ line_feed ∷ s) ≡ (value acc ds, line_feed ∷ s)
unfolding read_number value
read_number-digits acc [] s h = refl
read_number-digits acc (d ∷ ds) s h =
    ground (arith, read_number-digits (acc * 10 + (d - b'0')) ds s h.2)

-- A client reads from a response of http_skynet.cpp the text that was put into it.
pub read_response-response : (result : List ℕ) → read_response (response result) ≡ some result
unfolding read_response response behind body_of exactly Option.bind
read_response-response result =
    rw
      (
        read_number-digits 0 (to_string (length result)) _ (to_string-AreDigits (length result)),
        value-to_string (length result),
        (==_iff (length result) (length result)).1 refl,
      )
      refl

-- A client reads from the static response the text `Hello World!`.
pub read_response-static : read_response static_response ≡ some (codes "Hello World!")
unfolding read_response static_response behind read_number body_of exactly Option.bind
read_response-static = refl

-- Whatever runtime runs the tree of tasks, a client of http_skynet.cpp reads that the benchmark was
-- executed, with its time, and no complaint about the result.
pub read_response-skynet_page :
    (tasks : Tasks) (elapsed : ℕ)
    → Option.bind (skynet_page tasks 7 elapsed) (λ text. read_response (response text))
      ≡ some (codes "executed skynet in " ++ (to_string elapsed ++ codes " us\n"))
unfolding skynet_page skynet_text Option.bind
read_response-skynet_page tasks elapsed =
    rw (skynet_total tasks, (==_iff (expected_result 8) (expected_result 8)).1 refl)
      (read_response-response (codes "executed skynet in " ++ (to_string elapsed ++ codes " us\n")))
