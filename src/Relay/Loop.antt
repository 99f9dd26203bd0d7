-- ===== src/Relay/Loop.antt =====
-- The main loop of croutonwebsocket: `main` of src/websocket.c. What `ppoll` and `accept` return is an
-- argument.
pub mod Ending
use chroagh.Base.{
  ℕ, zero, suc, ◌-◌, ltb, if◌then◌else◌, Bool, true, false, Option, none, some, List, ◌∷◌, [], text,
  Outcome, M, done, exited, aborted, fault, out_of_fuel, ◌>>=◌, ◌>>◌,
}
use chroagh.WebSocket.State.{World}
use chroagh.WebSocket.Accept.{Hub, socket_server_accept, socket_server_init}
use chroagh.Relay.State.{Relay}
use chroagh.Relay.Unrequested.{socket_client_read, client_close}
use chroagh.Relay.Request.{pipein_read}
use chroagh.Relay.Setup.{Disk, pipe_init}

-- A return of `ppoll`: how many descriptors are ready, or -1; the POLLIN bits; and then what
-- `accept` would return, what the uninitialised buffers hold, and whether a signal has come.
pub record Event : Type 0 where
  pub ready : Option ℕ
  pub on_server : Bool
  pub on_pipein : Bool
  pub on_client : Bool
  pub accepted : Option ℕ
  pub memory : List ℕ
  pub terminate : Bool

-- The parameters: `sscanf`, and the fuel of the handlers.
pub record Limits : Type 0 where
  pub scan : List ℕ → Option ℕ
  pub lines : ℕ
  pub bytes : ℕ
  pub fuel : ℕ

-- VERSION and PORT
abbrev pub version : List ℕ
version = text "V2"

abbrev pub port : ℕ
port = 30001

abbrev pub from_hub : {A : Type 0} → Relay → Outcome (A × Hub) → Outcome (A × Relay)
from_hub s (done (a, h)) = done (a, record s { world = h.world; children = h.children })
from_hub s (exited n) = exited n
from_hub s aborted = aborted
from_hub s fault = fault
from_hub s out_of_fuel = out_of_fuel

unfoldable pub accept_client : Limits → Event → M Relay (Option ℕ)
accept_client l e s = from_hub s (
    socket_server_accept l.scan e.memory l.lines l.bytes l.fuel port version e.accepted
      (record { world = s.world; children = s.children }))

abbrev pub when : Bool → M Relay (Unit {0}) → M Relay (Unit {0})
when b m s = if b then m s else done (tt, s)

abbrev pub server_event : Limits → Event → M Relay (Unit {0})
server_event l e = accept_client l e >>= λ _ s. done (tt, s)

-- `n` after the handlers. If it is 0 already, `n--` makes it negative, which is not positive either.
abbrev pub less : ℕ → Bool → ℕ
less n b = if b then n - 1 else n

abbrev pub unhandled : ℕ → Event → ℕ
unhandled n e = less (less (less n e.on_server) e.on_pipein) e.on_client

-- The handlers, in their order.
unfoldable pub handle_events : Limits → Event → M Relay (Unit {0})
handle_events l e = when e.on_server (server_event l e) >>= λ _.
    when e.on_pipein (pipein_read l.fuel e.memory) >>= λ _.
    when e.on_client (socket_client_read l.fuel e.memory)

abbrev pub after_events : M Relay (Unit {0}) → ℕ → Event → M Relay (Unit {0})
after_events again n e s =
    let rest = again s in
    if ltb 0 (unhandled n e) then done (tt, s) else if e.terminate then done (tt, s) else rest

-- The loop. A script that ends is a `ppoll` that never returns.
unfoldable pub main_loop : Limits → List Event → M Relay (Unit {0})
main_loop l [] s = out_of_fuel
main_loop l (e ∷ es) s = elim e.ready [
  | none ↦ done (tt, s)
  | some n ↦ (handle_events l e >>= λ _. after_events (main_loop l es) n e) s
]

-- `if (client_fd)` is false for the descriptor 0 and true for -1, for which `socket_client_close`
-- does nothing.
abbrev pub close_last : Option ℕ → M Relay (Unit {0})
close_last (some zero) s = done (tt, s)
close_last (some (suc n)) s = client_close true s
close_last none s = client_close true s

abbrev pub last_close : M Relay (Unit {0})
last_close s = close_last s.world.client_fd s

abbrev pub after_init : Limits → Disk → List Event → Outcome ℕ → M Relay Disk
after_init l d es (done server_fd) =
    pipe_init l.fuel d >>= λ d1. main_loop l es >>= λ _. last_close >>= λ _ s. done (d1, s)
after_init l d es _ = λ s. exited 1

-- From the start of the server on: what `socket`, `bind` and `listen` return, the files, and the
-- events. The result is the files left.
unfoldable pub serve : Limits → Option ℕ → Bool → Bool → Disk → List Event → M Relay Disk
serve l server_fd bound listens d es =
    after_init l d es (socket_server_init server_fd bound listens)
