-- ===== src/Relay/Unrequested.antt =====
-- Commands that the extension sends on its own: `socket_client_handle_unrequested` and
-- `socket_client_read` of src/websocket.c.
pub mod Replies
pub mod Apart
use chroagh.Base.{
  ℕ, zero, suc, ◌+◌, ◌-◌, ◌==◌, leb, if◌then◌else◌, Bool, true, false, Option, none, some, List, [],
  ◌∷◌, ◌++◌, length, take, drop, get_or, replicate, Outcome, M, done, exited, fault, out_of_fuel,
  ◌>>=◌, aborted,
}
use chroagh.WebSocket.State.{World, close_client}
use chroagh.WebSocket.Constants.{buffersize, framemaxheadersize, opcode_text}
use chroagh.WebSocket.Send.{socket_client_write_frame, socket_client_close}
use chroagh.WebSocket.Message.{c_string, socket_client_read_frame}
use chroagh.Popen.{Child, Act, Answer, output, minus, popen2}
use chroagh.Relay.State.{Relay, lift}

abbrev pub after_reply : Option ℕ → M Relay Bool
after_reply none s = done (false, record s { world = close_client s.world })
after_reply (some _) s = done (true, s)

-- The reply is one text frame; the Boolean is the test of the result for 0 here and below.
unfoldable pub send_reply : List ℕ → M Relay Bool
send_reply reply =
    lift (
      socket_client_write_frame (replicate framemaxheadersize 0 ++ reply) (length reply) opcode_text
        true)
    >>= after_reply

abbrev pub list_reply : Relay → Outcome (Answer × List Act) → Outcome (Bool × Relay)
list_reply s (done (output bytes, acts)) = send_reply (b'C' ∷ bytes) s
list_reply s (done (minus n, acts)) = done (false, record s { world = close_client s.world })
list_reply s (exited n) = exited n
list_reply s aborted = aborted
list_reply s fault = fault
list_reply s out_of_fuel = out_of_fuel

-- A command that lists: its output is the reply. `popen2` takes the next child of the script.
unfoldable pub list_command : M Relay Bool
list_command s = elim s.children [
  | [] ↦ out_of_fuel
  | child ∷ rest ↦
      list_reply (record s { children = rest })
        (popen2 child [] (buffersize - framemaxheadersize - 1))
]

-- Any other command is started in the background, by two forks; an empty script means success.
abbrev pub launch_with : List ℕ → Relay → List Bool → Outcome (Bool × Relay)
launch_with param s [] = send_reply (b'C' ∷ []) (record s { launched = param ∷ s.launched })
launch_with param s (false ∷ rest) = exited 1
launch_with param s (true ∷ rest) =
    send_reply (b'C' ∷ []) (record s { forks = rest; launched = param ∷ s.launched })

unfoldable pub launch : List ℕ → M Relay Bool
launch param s = launch_with param s s.forks

-- `param[0]` is that of a C string: 0 if it is empty.
unfoldable pub cycle_command : List ℕ → M Relay Bool
cycle_command param =
    let c = get_or param 0 0 in
    if c == b'l' then list_command else if c == b'O' then (λ s. done (true, s)) else launch param

-- The first `size` bytes of `buffer` are the command. For none at all the size of the copy wraps
-- round if the byte in the buffer happens to be C.
unfoldable pub socket_client_handle_unrequested : List ℕ → ℕ → M Relay Bool
socket_client_handle_unrequested buffer size =
    if get_or buffer 0 0 == b'C'
    then (if size == 0
        then (λ s. fault)
        else cycle_command (c_string (take (size - 1) (drop 1 buffer))))
    else (λ s. done (false, record s { world = close_client s.world }))

unfoldable pub client_close : Bool → M Relay (Unit {0})
client_close sendclose = lift (socket_client_close sendclose)

-- What follows the `socket_client_read_frame`; whether the command succeeds is ignored.
abbrev pub handle_message : Option ℕ × List ℕ → M Relay (Unit {0})
handle_message (none, buffer) = client_close true
handle_message (some size, buffer) =
    if leb buffersize size
    then client_close true
    else socket_client_handle_unrequested buffer size >>= λ _ s. done (tt, s)

-- `memory` is what the uninitialised buffer holds.
unfoldable pub socket_client_read : ℕ → List ℕ → M Relay (Unit {0})
socket_client_read fuel memory =
    lift (socket_client_read_frame fuel memory buffersize) >>= handle_message
