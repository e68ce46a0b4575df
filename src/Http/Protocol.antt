-- ===== src/Http/Protocol.antt =====
-- About the calls of a handler on its socket, errors included.
use tmc_examples.Base.{
  ℕ, ◌≡◌, refl, Bool, true, false, ◌||◌, Option, none, some, List, [], ◌∷◌, arith, if◌then◌else◌,
}
use tmc_examples.Http.{
  Call, read, write, shutdown, close, Round, Session, preceded, closed_by_error, respond, serve,
  handler,
}

-- A connection as the two sides see it: no request is pending, one is, the socket is shut down, or
-- closed. There is one response for each request, and no call on a closed socket.
pub data Connection : Type 0 where
  idle requested shut closed : Connection

abbrev pub use_socket : Connection → Call → Option Connection
use_socket idle read = some requested
use_socket idle shutdown = some shut
use_socket idle close = some closed
use_socket idle (write text) = none
use_socket requested (write text) = some idle
use_socket requested close = some closed
use_socket requested read = none
use_socket requested shutdown = none
use_socket shut close = some closed
use_socket shut read = none
use_socket shut shutdown = none
use_socket shut (write text) = none
use_socket closed c = none

abbrev pub follow : Option Connection → List Call → Option Connection
follow none cs = none
follow (some s) [] = some s
follow (some s) (c ∷ cs) = follow (use_socket s c) cs

keeps_protocol :
    (reply : ℕ → List ℕ) (rounds : List Round)
    → follow (some idle) (handler reply rounds).calls
      ≡ some (if (handler reply rounds).returned then closed else idle)
unfolding handler serve respond preceded closed_by_error
keeps_protocol reply [] = refl
keeps_protocol reply (r ∷ rs) = ground (arith, keeps_protocol reply rs)

-- Does the socket give an error in some round?
abbrev pub any_error : List Round → Bool
any_error [] = false
any_error (r ∷ rs) = (r.read_error || r.write_error) || any_error rs

returns_on_error :
    (reply : ℕ → List ℕ) (rounds : List Round)
    → any_error rounds ≡ true
    → (handler reply rounds).returned ≡ true
unfolding handler serve respond preceded closed_by_error
returns_on_error reply [] h = cc
returns_on_error reply (r ∷ rs) h = ground (arith, returns_on_error reply rs)

-- A handler keeps to the protocol whatever errors the socket gives: when it has returned, the socket
-- was closed, once and as its last call; until then it waits for a request; and it has returned if
-- some read or write gave an error.
pub follow-handler :
    (reply : ℕ → List ℕ) (rounds : List Round)
    → (follow (some idle) (handler reply rounds).calls
        ≡ some (if (handler reply rounds).returned then closed else idle))
      × (any_error rounds ≡ true → (handler reply rounds).returned ≡ true)
follow-handler reply rounds = (keeps_protocol reply rounds, returns_on_error reply rounds)

abbrev pub AllClosed : List Session → Type 0
AllClosed [] = Unit
AllClosed (s ∷ ss) = (follow (some idle) s.calls ≡ some closed) × AllClosed ss
