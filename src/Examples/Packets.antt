-- ===== src/Examples/Packets.antt =====
-- Packets of src/fbserver.c at concrete inputs.
use chroagh.Base.{◌≡◌, refl, true, false, some, List, [], ◌∷◌, ◌++◌, arith, M, done}
use chroagh.Io.{took}
use chroagh.WebSocket.State.{World}
use chroagh.FbServer.Keys.History.{empty, Holds}
use chroagh.FbServer.Packets.{Session, input_case}
use chroagh.FbServer.Packets.Decoding.{Packet, key, click, move, encode, meaning, input_case_lem}
use chroagh.FbServer.Packets.Typing.{handle_all, operations, handle_all-Holds}

abbrev connected : World
connected = record {
  client_fd = some 5;
  incoming = λ fd. [];
  accepts = λ fd. took 1 ∷ [];
  trace = [];
}

abbrev session : Session
session = record { world = connected; keys = empty; input = [] }

-- Key 38 goes down, the mouse moves and clicks, and the key goes up again.
abbrev typing : List Packet
typing = key false 0 38 ∷ click true 0 1 ∷ move 300 7 ∷ key true 5 38 ∷ []

input_case_lem_example :
    (m : M Session (Unit {0})) × (input_case (encode (move 300 7) ++ (9 ∷ [])) 5 ≡ some m)
    × (m session ≡ meaning (move 300 7) session)
input_case_lem_example = input_case_lem (move 300 7) (9 ∷ []) session

handle_all-Holds_example :
    (s : Session) × (handle_all [] typing session ≡ done (tt, s)) × Holds (operations typing) s.keys
handle_all-Holds_example = handle_all-Holds [] session typing refl (omega arith)
