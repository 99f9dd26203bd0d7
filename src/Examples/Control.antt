-- ===== src/Examples/Control.antt =====
-- Control packets of src/websocket.h at concrete inputs.
use chroagh.Base.{ℕ, ◌≡◌, refl, none, some, [], ◌∷◌, ◌++◌, arith, done, fault}
use chroagh.Io.{bytes, took}
use chroagh.WebSocket.State.{World, wrote, closed}
use chroagh.WebSocket.Frame.{Key, client_frame}
use chroagh.WebSocket.Send.Closing.{close_frame}
use chroagh.WebSocket.Receive.{failed, socket_client_read_frame_header}
use chroagh.WebSocket.Receive.Control.{ping_overrun, close_answered}
use chroagh.Base.{true}

abbrev key : Key
key = record { k0 = 1; k1 = 2; k2 = 3; k3 = 4 }

-- A control packet and the start of another frame.
abbrev control : ℕ → World
control opcode = record {
  client_fd = some 5;
  incoming = λ fd. bytes (client_frame opcode true key (b'h' ∷ b'i' ∷ []) ++ (0x81 ∷ [])) ∷ [];
  accepts = λ fd. took 1 ∷ [];
  trace = [];
}

ping_overrun_example : socket_client_read_frame_header (control 9) ≡ fault
ping_overrun_example =
    ping_overrun 5 key (b'h' ∷ b'i' ∷ []) (0x81 ∷ []) (control 9)
      (record { q0 = omega arith; q1 = omega arith; q2 = omega arith; q3 = omega arith })
      (omega arith) (omega arith) refl refl

close_answered_example :
    (w' : World) × (socket_client_read_frame_header (control 8) ≡ done (failed, w'))
    × (w'.client_fd ≡ none)
    × (w'.trace ≡ closed 5 ∷ wrote 5 close_frame ∷ [])
close_answered_example =
    close_answered 5 key (b'h' ∷ b'i' ∷ []) (0x81 ∷ []) (control 8)
      (record { q0 = omega arith; q1 = omega arith; q2 = omega arith; q3 = omega arith })
      (omega arith) (omega arith) refl refl (omega arith, tt)
