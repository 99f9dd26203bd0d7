-- ===== src/WebSocket/Accept.antt =====
-- A new client: `socket_server_accept` and `socket_server_init` of src/websocket.h.
pub mod Switching
use chroagh.Base.{
  ℕ, zero, suc, ◌+◌, ◌%◌, ◌==◌, ltb, not, ◌&&◌, ◌||◌, if◌then◌else◌, Bool, true, false, Option,
  none, some, List, [], ◌∷◌, ◌++◌, length, take, drop, get_or, text, Outcome, M, done, exited,
  aborted, fault, out_of_fuel, ◌>>=◌,
}
use chroagh.WebSocket.State.{World, block_write}
use chroagh.WebSocket.Constants.{buffersize}
use chroagh.WebSocket.Send.{is_all, socket_client_close}
use chroagh.WebSocket.Message.{c_string, socket_client_sendversion}
use chroagh.WebSocket.Handshake.{socket_server_read_header}
use chroagh.WebSocket.Header.{close_new}
use chroagh.Popen.{Child, Act, Answer, output, minus, popen2}

-- The globals, with the coming runs of `popen2`.
pub record Hub : Type 0 where
  pub world : World
  pub children : List Child

abbrev pub on_hub : {A : Type 0} → List Child → Outcome (A × World) → Outcome (A × Hub)
on_hub cs (done (a, w)) = done (a, record { world = w; children = cs })
on_hub cs (exited n) = exited n
on_hub cs aborted = aborted
on_hub cs fault = fault
on_hub cs out_of_fuel = out_of_fuel

abbrev pub in_world : {A : Type 0} → M World A → M Hub A
in_world m s = on_hub s.children (m s.world)

abbrev pub ran : Hub → Outcome (Answer × List Act) → Outcome (Answer × Hub)
ran s (done (a, acts)) = done (a, s)
ran s (exited n) = exited n
ran s aborted = aborted
ran s fault = fault
ran s out_of_fuel = out_of_fuel

abbrev pub run_next : List ℕ → ℕ → List Child → M Hub Answer
run_next input outlen [] s = out_of_fuel
run_next input outlen (child ∷ rest) s =
    ran (record s { children = rest }) (popen2 child input outlen)

-- `popen2` with the next child of the script.
unfoldable pub run_command : List ℕ → ℕ → M Hub Answer
run_command input outlen s = run_next input outlen s.children s

abbrev pub guid : List ℕ
guid = text "258EAFA5-E914-47DA-95CA-C5AB0DC85B11"

abbrev pub sha1_len : ℕ
sha1_len = 20

abbrev pub sha1_base64_len : ℕ
sha1_base64_len = 28

abbrev pub prepend : ℕ → Option (List ℕ) → Option (List ℕ)
prepend b none = none
prepend b (some bs) = some (b ∷ bs)

-- The loop of `sscanf(_, "%02x", &value)`, which is `scan`; so many bytes are to come.
abbrev pub hex_loop : (List ℕ → Option ℕ) → ℕ → List ℕ → Option (List ℕ)
hex_loop scan zero buffer = some []
hex_loop scan (suc n) buffer =
    let rest = hex_loop scan n (drop 2 buffer) in
    elim (scan (c_string buffer)) [ none ↦ none | some value ↦ prepend (value % 256) rest ]

-- The digest in the output of sha1sum, if there is one; `memory` is what the buffer held.
abbrev pub sha1_of : (List ℕ → Option ℕ) → List ℕ → Answer → Option (List ℕ)
sha1_of scan memory (minus n) = none
sha1_of scan memory (output bytes) =
    if ltb (length bytes) 40
    then none
    else hex_loop scan sha1_len (take 41 (bytes ++ drop (length bytes) memory))

-- The string in the output of base64.
abbrev pub base64_of : Answer → Option (List ℕ)
base64_of (minus n) = none
base64_of (output bytes) =
    let c = get_or bytes sha1_base64_len 0 in
    if ltb (length bytes) sha1_base64_len
      || (not (length bytes == sha1_base64_len) && not (c == b'\r') && not (c == b'\n'))
    then none
    else some (c_string (take sha1_base64_len bytes))

abbrev pub response : List ℕ → List ℕ
response b64 =
    text
      "HTTP/1.1 101 Switching Protocols\r\nUpgrade: websocket\r\nConnection: Upgrade\r\nSec-WebSocket-Accept: "
    ++ (b64 ++ text "\r\n\r\n")

abbrev pub close_if : Option ℕ → M World (Unit {0})
close_if none w = done (tt, w)
close_if (some _) w = socket_client_close true w

unfoldable pub close_existing : M World (Unit {0})
close_existing w = close_if w.client_fd w

-- From `/* Close existing connection, if any. */` on.
unfoldable pub change_client : ℕ → ℕ → List ℕ → M World (Option ℕ)
change_client fuel fd version = close_existing >>= λ _ w.
    socket_client_sendversion fuel version (record w { client_fd = some fd })

abbrev pub after_response : ℕ → ℕ → List ℕ → ℕ → Option ℕ × World → Outcome (Option ℕ × World)
after_response fuel fd version len (n, w) =
    if is_all n len then change_client fuel fd version w else done (none, close_new fd w)

unfoldable pub respond : ℕ → ℕ → List ℕ → List ℕ → M World (Option ℕ)
respond fuel fd version b64 w =
    if length (response b64) == buffersize
    then exited 1
    else after_response fuel fd version (length (response b64))
        (block_write (some fd) (response b64) w)

-- `lines` and `bytes` bound the header, and `fuel` the frames of the reply to the version.
module _ (scan : List ℕ → Option ℕ) (memory : List ℕ) (lines bytes fuel port : ℕ)
    (version : List ℕ) where
  abbrev pub after_base64 : ℕ → Option (List ℕ) → M Hub (Option ℕ)
  after_base64 fd none = λ s. exited 1
  after_base64 fd (some b64) = in_world (respond fuel fd version b64)

  abbrev pub after_sha1 : ℕ → Option (List ℕ) → M Hub (Option ℕ)
  after_sha1 fd none = λ s. exited 1
  after_sha1 fd (some sha1) =
      run_command sha1 (sha1_base64_len + 4) >>= λ a. after_base64 fd (base64_of a)

  abbrev pub after_key : ℕ → Option (List ℕ) → M Hub (Option ℕ)
  after_key fd none = λ s. done (none, s)
  after_key fd (some key) =
      run_command (key ++ guid) buffersize >>= λ a. after_sha1 fd (sha1_of scan memory a)

  -- The argument is what `accept` returns; `none` in the result is a negative number.
  unfoldable pub socket_server_accept : Option ℕ → M Hub (Option ℕ)
  socket_server_accept none s = done (none, s)
  socket_server_accept (some fd) s =
      (in_world (socket_server_read_header lines bytes port fd) >>= after_key fd) s

-- What `socket`, `bind` and `listen` return; the result is `server_fd`.
unfoldable pub socket_server_init : Option ℕ → Bool → Bool → Outcome ℕ
socket_server_init none bound listens = exited 1
socket_server_init (some server_fd) bound listens =
    if not bound then exited 1 else if not listens then exited 1 else done server_fd
