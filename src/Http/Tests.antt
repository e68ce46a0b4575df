-- ===== src/Http/Tests.antt =====
-- A connection with an error on its second write, and the theorems of `Http` there.
use tmc_examples.Base.{ℕ, ◌≡◌, true, false, some, List, [], ◌∷◌, ◌++◌, if◌then◌else◌}
use tmc_examples.Base.Digits.{to_string}
use mathlib.Core.Option
use tmc_examples.Runtime.{run_inline}
use tmc_examples.Http.{codes, Round, handler, Event, accepted, accept_error, response, skynet_page}
use tmc_examples.Http.Protocol.{any_error, idle, closed, follow, follow-handler}
use tmc_examples.Http.Reply.{read_response, read_response-response, read_response-skynet_page}

abbrev reply : ℕ → List ℕ
reply elapsed = codes "ok"

abbrev served : Round
served = record { is_open = true; read_error = false; write_error = false; elapsed = 0 }

abbrev broken : Round
broken = record { is_open = true; read_error = false; write_error = true; elapsed = 0 }

follow-handler_example :
    (follow (some idle) (handler reply (served ∷ broken ∷ [])).calls
      ≡ some (if (handler reply (served ∷ broken ∷ [])).returned then closed else idle))
    × (any_error (served ∷ broken ∷ []) ≡ true
        → (handler reply (served ∷ broken ∷ [])).returned ≡ true)
follow-handler_example = follow-handler reply (served ∷ broken ∷ [])

abbrev events : List Event
events = accepted (served ∷ broken ∷ []) ∷ accept_error ∷ []

read_response-response_example : read_response (response (codes "hello")) ≡ some (codes "hello")
read_response-response_example = read_response-response (codes "hello")

read_response-skynet_page_example :
    Option.bind (skynet_page run_inline 7 12) (λ text. read_response (response text))
    ≡ some (codes "executed skynet in " ++ (to_string 12 ++ codes " us\n"))
read_response-skynet_page_example = read_response-skynet_page run_inline 12
