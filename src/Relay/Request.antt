-- ===== src/Relay/Request.antt =====
-- `pipein_read` of src/websocket.c: a request from the pipe goes to the extension, and the answer back
-- to the other pipe.
pub mod Closed
use chroagh.Base.{
  ℕ, zero, suc, ◌+◌, ◌-◌, ◌==◌, leb, ltb, not, ◌&&◌, ◌||◌, if◌then◌else◌, Bool, true, false, Option,
  none, some, List, [], ◌∷◌, ◌++◌, length, min, take, drop, get_or, replicate, Outcome, M, done,
  exited, fault, out_of_fuel, ◌>>=◌,
}
use chroagh.Io.{read}
use chroagh.WebSocket.State.{World, update}
use chroagh.WebSocket.Constants.{buffersize, framemaxheadersize, opcode_text, opcode_cont}
use chroagh.WebSocket.Send.{socket_client_write_frame}
use chroagh.WebSocket.Receive.{
  Header, socket_client_read_frame_header, socket_client_read_frame_data,
}
use chroagh.WebSocket.Message.{socket_client_read_frame}
use chroagh.Relay.State.{Relay, lift}
use chroagh.Relay.Pipe.{pipeout_open, pipeout_close, pipeout_write, pipeout_error, pipein_reopen}
use chroagh.Relay.Unrequested.{socket_client_handle_unrequested, client_close}

-- "EError: not connected." and "EError: socket write error", which once ends with a dot.
abbrev pub not_connected : List ℕ
not_connected =
    b'E' ∷ b'E' ∷ b'r' ∷ b'r' ∷ b'o' ∷ b'r' ∷ b':' ∷ b' ' ∷ b'n' ∷ b'o' ∷ b't' ∷ b' ' ∷ b'c' ∷ b'o'
    ∷ b'n' ∷ b'n' ∷ b'e' ∷ b'c' ∷ b't' ∷ b'e' ∷ b'd' ∷ b'.' ∷ []

abbrev pub write_error : List ℕ
write_error =
    b'E' ∷ b'E' ∷ b'r' ∷ b'r' ∷ b'o' ∷ b'r' ∷ b':' ∷ b' ' ∷ b's' ∷ b'o' ∷ b'c' ∷ b'k' ∷ b'e' ∷ b't'
    ∷ b' ' ∷ b'w' ∷ b'r' ∷ b'i' ∷ b't' ∷ b'e' ∷ b' ' ∷ b'e' ∷ b'r' ∷ b'r' ∷ b'o' ∷ b'r' ∷ []

-- Where the request stands: whether no packet has gone out yet, and the first byte of all.
pub record Progress : Type 0 where
  pub first : Bool
  pub firstchar : ℕ

abbrev pub frame_opcode : Progress → ℕ
frame_opcode p = if p.first then opcode_text else opcode_cont

-- `socket_client_write_frame` with the payload behind the space for the header.
abbrev pub send_packet : Progress → List ℕ → Bool → M Relay (Option ℕ)
send_packet p payload fin = lift (
    socket_client_write_frame (replicate framemaxheadersize 0 ++ payload) (length payload)
      (frame_opcode p) fin)

-- `read(pipein_fd, _, BUFFERSIZE)`
unfoldable pub read_pipe : M Relay (Option (List ℕ))
read_pipe s = elim s.pipein_fd [
  | none ↦ done (none, s)
  | some n ↦
      let (r, rest) = read buffersize (s.world.incoming n) in
      done (r, record s { world = record s.world { incoming = update s.world.incoming n rest } })
]

-- After the write of a packet failed.
unfoldable pub give_up : ℕ → List ℕ → M Relay (Option Progress)
give_up fuel str = pipein_reopen fuel >>= λ _. pipeout_error str >>= λ _ s. done (none, s)

abbrev pub started : Progress → ℕ → Progress
started p x = record { first = false; firstchar = if p.first then x else p.firstchar }

abbrev pub after_packet :
    (Progress → M Relay (Option Progress)) → ℕ → Progress → ℕ → Option ℕ → M Relay (Option Progress)
after_packet again fuel p x none = give_up fuel (write_error ++ (b'.' ∷ []))
after_packet again fuel p x (some _) = again (started p x)

abbrev pub after_read :
    (Progress → M Relay (Option Progress))
    → ℕ
    → Progress
    → Option (List ℕ)
    → M Relay (Option Progress)
after_read again fuel p none = λ s. exited 1
after_read again fuel p (some []) = λ s. done (some p, s)
after_read again fuel p (some (x ∷ xs)) =
    send_packet p (x ∷ xs) false >>= after_packet again fuel p x

-- The first loop: the request is forwarded in frames without FIN. `none` is the return from the
-- middle of it.
unfoldable pub forward_loop : ℕ → Progress → M Relay (Option Progress)
forward_loop zero p s = out_of_fuel
forward_loop (suc fuel) p s = (read_pipe >>= after_read (forward_loop fuel) (suc fuel) p) s

-- How the reading of a frame ends: with `fin`, `first` and the buffer for the next one, or at the
-- label `exit`.
pub data Step : Type 0 where
  next_frame : Bool → Bool → List ℕ → Step
  leave : Step

-- The `len` bytes at the start of `buffer` are a command: it is handled, and the answer is awaited
-- again.
unfoldable pub handle_command : List ℕ → ℕ → M Relay Step
handle_command buffer len =
    if leb buffersize len
    then (client_close true >>= λ _ s. done (leave, s))
    else (socket_client_handle_unrequested buffer len >>= λ ok s.
        done ((if ok then next_frame false true buffer else leave), s))

-- The rest of the packet follows its start in the buffer.
abbrev pub after_rest : List ℕ → ℕ → Option ℕ × List ℕ → M Relay Step
after_rest buffer len (none, out) s = done (leave, s)
after_rest buffer len (some rlen, out) s = handle_command (take len buffer ++ out) (len + rlen) s

-- A packet that does not answer the request; if it goes on in other frames, these are read first.
unfoldable pub unrequested : ℕ → List ℕ → ℕ → Bool → M Relay Step
unrequested fuel buffer len fin =
    if not fin && ltb len buffersize
    then (lift (socket_client_read_frame fuel (drop len buffer) (length buffer - len))
        >>= after_rest buffer len)
    else handle_command buffer len

-- The first byte is neither that of the request nor E.
abbrev pub is_command : Bool → ℕ → List ℕ → Bool
is_command first firstchar buffer =
    first && not (get_or buffer 0 0 == firstchar) && not (get_or buffer 0 0 == b'E')

-- One piece of data, with the loop for what follows it.
abbrev pub use_data :
    (ℕ → List ℕ → M Relay Step) → ℕ → ℕ → ℕ → Bool → ℕ → Bool → Option ℕ × List ℕ → M Relay Step
use_data again fuel len rlen fin firstchar first (none, buffer) = λ s. done (leave, s)
use_data again fuel len rlen fin firstchar first (some _, buffer) =
    if is_command first firstchar buffer
    then unrequested fuel buffer len fin
    else (pipeout_write (take rlen buffer) >>= λ _. again (len - rlen) buffer)

-- `while (len > 0)`, with so many rounds allowed; each takes at least a byte off `len`.
unfoldable pub data_loop : ℕ → ℕ → Bool → ℕ → ℕ → ℕ → Bool → List ℕ → M Relay Step
data_loop rounds fuel fin maskkey firstchar zero first buffer s =
    done (next_frame fin first buffer, s)
data_loop zero fuel fin maskkey firstchar (suc len) first buffer s = out_of_fuel
data_loop (suc rounds) fuel fin maskkey firstchar (suc len) first buffer s =
    let again = λ (l : ℕ). data_loop rounds fuel fin maskkey firstchar l false in
    let rlen = min (suc len) buffersize in
    (lift (socket_client_read_frame_data buffer rlen maskkey)
        >>= use_data again fuel (suc len) rlen fin firstchar first)
      s

-- `while (fin != 1)`; `again` is the loop.
abbrev pub after_frame : (Bool → List ℕ → M Relay (Unit {0})) → Step → M Relay (Unit {0})
after_frame again leave s = done (tt, s)
after_frame again (next_frame fin first buffer) s =
    if fin then done (tt, s) else again first buffer s

abbrev pub after_answer_header :
    (Bool → List ℕ → M Relay (Unit {0})) → ℕ → ℕ → Bool → List ℕ → Header → M Relay (Unit {0})
after_answer_header again fuel firstchar first buffer h =
    if h.retry then again first buffer else elim h.len [
      | none ↦ λ s. done (tt, s)
      | some len ↦
          data_loop len fuel h.fin h.maskkey firstchar len first buffer >>= after_frame again
    ]

unfoldable pub answer_loop : ℕ → ℕ → Bool → List ℕ → M Relay (Unit {0})
answer_loop zero firstchar first buffer s = out_of_fuel
answer_loop (suc fuel) firstchar first buffer s =
    (lift socket_client_read_frame_header
        >>= after_answer_header (answer_loop fuel firstchar) fuel firstchar first buffer)
      s

-- From the empty frame with FIN on.
abbrev pub after_fin : ℕ → List ℕ → Progress → Option ℕ → M Relay (Unit {0})
after_fin fuel memory p none = pipeout_error write_error
after_fin fuel memory p (some _) =
    pipeout_open >>= λ _. answer_loop fuel p.firstchar true memory >>= λ _. pipeout_close

unfoldable pub finish_request : ℕ → List ℕ → Progress → M Relay (Unit {0})
finish_request fuel memory p =
    pipein_reopen fuel >>= λ _. send_packet p [] true >>= after_fin fuel memory p

abbrev pub after_request : ℕ → List ℕ → Option Progress → M Relay (Unit {0})
after_request fuel memory none = λ s. done (tt, s)
after_request fuel memory (some p) = finish_request fuel memory p

-- `memory` is what the uninitialised buffer holds.
unfoldable pub pipein_read : ℕ → List ℕ → M Relay (Unit {0})
pipein_read fuel memory s = elim s.world.client_fd [
  | none ↦ (pipein_reopen fuel >>= λ _. pipeout_error not_connected) s
  | some _ ↦
      (forward_loop fuel (record { first = true; firstchar = 0 }) >>= after_request fuel memory) s
]
