-- ===== src/Examples/Version.antt =====
-- The exchange of versions of src/websocket.h at a concrete input.
use chroagh.Base.{◌≡◌, refl, true, some, [], ◌∷◌, ◌++◌, arith, done}
use chroagh.Io.{bytes, took}
use chroagh.Io.Read.{available}
use chroagh.WebSocket.State.{World, wrote}
use chroagh.WebSocket.Frame.{Key, client_frame, server_frame}
use chroagh.WebSocket.Message.{socket_client_sendversion}
use chroagh.WebSocket.Message.Round.{Fragment, IsFragment}
use chroagh.WebSocket.Message.Version.{sendversion_accepted}

abbrev key : Key
key = record { k0 = 1; k1 = 2; k2 = 3; k3 = 4 }

abbrev reply : Fragment
reply = record { opcode = 1; key = key; payload = b'V' ∷ b'O' ∷ b'K' ∷ [] }

reply-IsFragment : IsFragment reply
reply-IsFragment = record {
  data_opcode = omega arith;
  key = record { q0 = omega arith; q1 = omega arith; q2 = omega arith; q3 = omega arith };
  bytes = omega arith;
  small = omega arith;
}

-- The first write takes one byte, and the others take all.
abbrev connected : World
connected = record {
  client_fd = some 5;
  incoming = λ fd. bytes (client_frame 1 true key (b'V' ∷ b'O' ∷ b'K' ∷ []) ++ (0x82 ∷ [])) ∷ [];
  accepts = λ fd. took 1 ∷ [];
  trace = [];
}

sendversion_accepted_example :
    (w' : World) × (socket_client_sendversion 2 (b'V' ∷ b'2' ∷ []) connected ≡ done (some 0, w'))
    × (w'.client_fd ≡ some 5)
    × (w'.trace ≡ wrote 5 (server_frame 1 true (b'V' ∷ b'2' ∷ [])) ∷ [])
    × (available (w'.incoming 5) ≡ 0x82 ∷ [])
sendversion_accepted_example =
    sendversion_accepted 5 (b'V' ∷ b'2' ∷ []) (0x82 ∷ []) [] reply 2 connected refl (omega arith) tt
      reply-IsFragment refl (omega arith) (omega arith) refl
