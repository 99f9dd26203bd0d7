-- ===== src/Examples/Header.antt =====
-- The header of a new client of src/websocket.h at concrete inputs.
use chroagh.Base.{
  ℕ, ◌+◌, ◌-◌, ◌*◌, leb, if◌then◌else◌, true, false, Option, ◌≡◌, refl, none, some, List, [], ◌∷◌,
  ◌++◌, arith, text, done, fault, Ensures,
}
use chroagh.Io.{bytes, took}
use chroagh.WebSocket.State.{World}
use chroagh.WebSocket.Frame.{client_frame}
use chroagh.Popen.{Child, exited}
use chroagh.WebSocket.Accept.{Hub, socket_server_accept}
use chroagh.WebSocket.Accept.Switching.{Accepts, accept-Accepts}
use chroagh.WebSocket.Handshake.{read_new, header_loop, read_line, refill, take_byte, use_line}
use chroagh.WebSocket.Header.{header_field, socket_server_error}
use chroagh.WebSocket.Accept.{run_command, respond, change_client, close_existing}
use chroagh.Popen.{popen2, turn, feed, drain, poll_loop}
use chroagh.Io.{read, write, read_loop, write_loop}
use chroagh.WebSocket.State.{block_read, block_write, close_client}
use chroagh.WebSocket.Mask.{unmask_words}
use chroagh.WebSocket.Send.{socket_client_close, socket_client_write_frame, assemble, store_length}
use chroagh.WebSocket.Receive.{
  socket_client_read_frame_header, client_bytes, check_header, read_length, read_maskkey,
  check_frame, control_packet, answer_control, unmask, extended_length,
  socket_client_read_frame_data, refuse,
}
use chroagh.WebSocket.Message.{
  socket_client_sendversion, socket_client_read_frame, read_frame_loop, after_header, after_data,
}
use chroagh.WebSocket.Handshake.{socket_server_read_header}
use chroagh.WebSocket.Handshake.Meaning.{Field, IsField}
use chroagh.WebSocket.Handshake.Settled.{IsSettled, read_header-IsSettled}
use chroagh.WebSocket.Handshake.Accepting.{header_text, AreFields, read_header_lem}
use chroagh.WebSocket.Handshake.Complete.{IsComplete, complete_accepted}
use chroagh.WebSocket.Handshake.Underrun.{header_underrun}

abbrev browser_key : List ℕ
browser_key = text "dGhlIHNhbXBsZSBub25jZQ=="

-- The fields that a browser sends, and one that is not looked at.
abbrev host : Field
host = record { name = text "Host"; value = text "localhost:30001" }

abbrev upgrade : Field
upgrade = record { name = text "Upgrade"; value = text "websocket" }

abbrev connection : Field
connection = record { name = text "Connection"; value = text "Upgrade" }

abbrev key : Field
key = record { name = text "Sec-WebSocket-Key"; value = browser_key }

abbrev origin : Field
origin = record {
  name = text "Origin";
  value = text "chrome-extension://gcpneefbbnfalgjniomfjknbcgkbijom";
}

abbrev version : Field
version = record { name = text "Sec-WebSocket-Version"; value = text "13" }

abbrev fields : List Field
fields = host ∷ upgrade ∷ connection ∷ key ∷ origin ∷ version ∷ []

host-IsField : IsField host
host-IsField = record { name_text = refl; value_text = refl; fits = omega arith }

upgrade-IsField : IsField upgrade
upgrade-IsField = record { name_text = refl; value_text = refl; fits = omega arith }

connection-IsField : IsField connection
connection-IsField = record { name_text = refl; value_text = refl; fits = omega arith }

key-IsField : IsField key
key-IsField = record { name_text = refl; value_text = refl; fits = omega arith }

origin-IsField : IsField origin
origin-IsField = record { name_text = refl; value_text = refl; fits = omega arith }

version-IsField : IsField version
version-IsField = record { name_text = refl; value_text = refl; fits = omega arith }

fields-AreFields : AreFields fields
fields-AreFields = (
  host-IsField,
  (upgrade-IsField, (connection-IsField, (key-IsField, (origin-IsField, (version-IsField, tt))))),
)

-- The first segment of the header is its first byte.
abbrev asking : World
asking = record {
  client_fd = some 5;
  incoming = λ fd.
      bytes (b'G' ∷ [])
      ∷ bytes (text "ET / HTTP/1.1" ++ (b'\r' ∷ b'\n' ∷ header_text fields []))
      ∷ [];
  accepts = λ fd. took 1 ∷ [];
  trace = [];
}

read_header_lem_example :
    (w' : World) × (socket_server_read_header 10 4096 30001 6 asking ≡ done (some browser_key, w'))
    × (w'.client_fd ≡ some 5)
    × (w'.trace ≡ [])
    × (w'.accepts ≡ asking.accepts)
read_header_lem_example =
    read_header_lem 9 4096 30001 6 fields [] asking fields-AreFields (omega arith) (omega arith)
      refl

fields-IsComplete : IsComplete 30001 fields
fields-IsComplete = record {
  upgrade = refl;
  connection = refl;
  version = refl;
  key = refl;
  host = refl;
}

complete_accepted_example :
    (w' : World) × (socket_server_read_header 10 4096 30001 6 asking ≡ done (some browser_key, w'))
    × (w'.client_fd ≡ some 5)
    × (w'.trace ≡ [])
complete_accepted_example =
    complete_accepted 9 4096 30001 6 fields [] asking fields-AreFields fields-IsComplete
      (omega arith) (omega arith) refl

read_header-IsSettled_example :
    Ensures (IsSettled 6 (some 5) []) (socket_server_read_header 10 4096 30001 6 asking)
read_header-IsSettled_example = read_header-IsSettled 10 4096 30001 6 asking

abbrev blank : World
blank = record {
  client_fd = none;
  incoming = λ fd. bytes (b'\n' ∷ []) ∷ [];
  accepts = λ fd. [];
  trace = [];
}

header_underrun_example : socket_server_read_header 1 1 30001 6 blank ≡ fault
header_underrun_example = header_underrun 0 0 30001 6 [] blank refl

abbrev digit : ℕ → ℕ
digit c = if leb c b'9' then c - b'0' else c - 87

-- Two hexadecimal digits.
abbrev two_digits : List ℕ → Option ℕ
two_digits [] = none
two_digits (a ∷ []) = some (digit a)
two_digits (a ∷ b ∷ cs) = some (16 * digit a + digit b)

abbrev prints : List ℕ → Child
prints out = record {
  piped = true;
  forked = true;
  polls =
      some (record {
        pollout = true;
        out_other = false;
        taken = some 60;
        pollin = true;
        pollhup = true;
        in_other = false;
        got = some out;
      })
      ∷ [];
  status = exited 0;
}

-- sha1sum and base64 for the key of RFC 6455, and then the reply to the version.
abbrev hub : Hub
hub = record {
  world = record asking {
    incoming = λ fd.
        bytes (text "GET / HTTP/1.1" ++ (b'\r' ∷ b'\n' ∷ header_text fields []))
        ∷ bytes (client_frame 1 true (record { k0 = 1; k1 = 2; k2 = 3; k3 = 4 }) (text "VOK"))
        ∷ [];
  };
  children =
      prints (text "b37a4f2cc0624f1690f64606cf385945b2bec4ea  -\n")
      ∷ prints (text "s3pPLMBiTxaQ9kYGzzhZRbK+xOo=\n")
      ∷ [];
}

accept-Accepts_example :
    Ensures
      (λ r s'. Accepts 2 6 (text "V2") (some 5) [] r s'.world)
      (socket_server_accept two_digits [] 10 4096 2 30001 (text "V2") (some 6) hub)
accept-Accepts_example = accept-Accepts two_digits [] 10 4096 2 30001 (text "V2") 6 hub

-- The client after the call, if the versions were exchanged.
client_after : Hub → Option ℕ
unfolding socket_server_accept socket_server_read_header read_new header_loop read_line refill
    take_byte header_field use_line run_command popen2 turn feed drain poll_loop respond
    change_client close_existing socket_client_sendversion socket_client_read_frame read_frame_loop
    after_header after_data socket_client_read_frame_header client_bytes check_header read_length
    read_maskkey check_frame control_packet answer_control unmask extended_length
    socket_client_read_frame_data refuse socket_client_close socket_client_write_frame assemble
    store_length block_read block_write close_client read_loop write_loop read write unmask_words
    socket_server_error
client_after s = elim (socket_server_accept two_digits [] 10 4096 2 30001 (text "V2") (some 6) s) [
  | done (some n, s') ↦ s'.world.client_fd
  | _ ↦ none
]

accepts_browser : client_after hub ≡ some 6
unfolding client_after chroagh.WebSocket.Message.check_reply
accepts_browser = refl
