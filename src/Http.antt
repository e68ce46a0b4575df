-- ===== src/Http.antt =====
-- The HTTP sessions of examples/asio/http_server.cpp, examples/asio/http_skynet.cpp,
-- examples/hwloc/asio_server_per_cache.cpp and asio_thread_per_core.cpp: the handler of a connection,
-- the accept loop, and the text of a response. A text is the list of its character codes.
pub mod Protocol
pub mod Reply
mod Tests
use Prim.Native.Char.{code}
use Prim.Native.String.{String}
use tmc_examples.Base.{
  ℕ, ◌+◌, ◌^◌, Bool, true, false, ◌&&◌, Option, some, none, List, [], ◌∷◌, ◌++◌, ◌==◌,
  if◌then◌else◌, length,
}
use mathlib.Core.Option
use tmc_examples.Runtime.{Tasks}
use tmc_examples.Skynet.{skynet_one, expected_result}
use tmc_examples.Base.Digits.{to_string}

abbrev pub codes : String → List ℕ
codes String.[] = []
codes (String.◌∷◌ c s) = code c ∷ codes s

-- What a handler does to its socket. `write` holds the response.
pub data Call : Type 0 where
  read shutdown close : Call
  write : List ℕ → Call

-- What the socket answers in one round of the loop: whether it is open, and whether the read and the
-- write give an error. `elapsed` is the time that the work between them took.
pub record Round : Type 0 where
  pub is_open : Bool
  pub read_error : Bool
  pub write_error : Bool
  pub elapsed : ℕ

-- The calls of a handler, and whether it has returned.
pub record Session : Type 0 where
  pub calls : List Call
  pub returned : Bool

-- A call that comes before the rest of a session.
preceded : Call → Session → Session
preceded c s = record s { calls = c ∷ s.calls }

-- `Socket.close(); co_return;`
closed_by_error : Session
closed_by_error = record { calls = close ∷ []; returned = true }

-- The write and the test of its error.
respond : List ℕ → Bool → Session → Session
unfolding preceded closed_by_error
respond text write_error rest =
    preceded (write text) (if write_error then closed_by_error else rest)

-- The loop's body from the read on.
serve : (ℕ → List ℕ) → Round → Session → Session
unfolding preceded closed_by_error respond
serve reply r rest =
    preceded read
      (if r.read_error then closed_by_error else respond (reply r.elapsed) r.write_error rest)

-- `handler`, with the rounds that the connection goes through; past the last one it waits for more.
-- `reply` is the text of the response.
pub handler : (ℕ → List ℕ) → List Round → Session
unfolding serve
handler reply [] = record { calls = []; returned = false }
handler reply (r ∷ rs) =
    let rest = handler reply rs in
    if r.is_open
    then serve reply r rest
    else record { calls = shutdown ∷ close ∷ []; returned = true }

pub static_response : List ℕ
static_response =
    codes
      "HTTP/1.1 200 OK\nContent-Length: 12\nContent-Type: text/plain; charset=utf-8\n\nHello World!"

-- The handler of the three servers with a static response.
pub static_handler : List Round → Session
unfolding static_response
static_handler rounds = handler (λ elapsed. static_response) rounds

-- The text that `skynet` of http_skynet.cpp returns.
pub skynet_text : (expected count elapsed : ℕ) → List ℕ
skynet_text expected count elapsed =
    let wrong = codes "got wrong result: " ++ (to_string count ++ codes "\n") in
    (if count == expected then [] else wrong)
    ++ (codes "executed skynet in " ++ (to_string elapsed ++ codes " us\n"))

-- `skynet<6>` of http_skynet.cpp on a 64-bit word, with fuel for the tree.
pub skynet_page : Tasks → (fuel elapsed : ℕ) → Option (List ℕ)
skynet_page tasks fuel elapsed =
    Option.map (λ count. skynet_text (expected_result 8) count elapsed)
      (skynet_one tasks (2 ^ 64) 6 fuel 0 0)

-- The response of http_skynet.cpp with the text `result`.
pub response : List ℕ → List ℕ
response result =
    codes "HTTP/1.1 200 OK\nContent-Length: "
    ++ (to_string (length result)
        ++ (codes "\nContent-Type: text/plain; charset=utf-8\n\n" ++ result))

-- The handler of http_skynet.cpp, whose tree of tasks adds up to `count`.
pub skynet_handler : (expected count : ℕ) → List Round → Session
unfolding skynet_text response
skynet_handler expected count rounds =
    handler (λ elapsed. response (skynet_text expected count elapsed)) rounds

-- What the acceptor gives: a socket, by the rounds of its connection, or an error.
pub data Event : Type 0 where
  accepted : List Round → Event
  accept_error : Event

-- The handlers that were forked, and whether the loop has ended.
pub record Server : Type 0 where
  pub sessions : List Session
  pub ended : Bool

-- `accept`: it forks a handler for each socket until an error, and then waits for all of them.
pub accept : (List Round → Session) → List Event → Server
accept handle [] = record { sessions = []; ended = false }
accept handle (accepted rounds ∷ events) =
    let rest = accept handle events in record rest { sessions = handle rounds ∷ rest.sessions }
accept handle (accept_error ∷ events) = record { sessions = []; ended = true }

all_returned : List Session → Bool
all_returned [] = true
all_returned (s ∷ ss) = s.returned && all_returned ss

-- Whether `accept` has returned.
pub accept_returned : Server → Bool
unfolding all_returned
accept_returned server = server.ended && all_returned server.sessions
