-- ===== src/Examples/Frames.antt =====
-- Frames of src/websocket.h at concrete inputs.
use chroagh.Base.{
  ℕ, ◌≡◌, refl, ◌==◌, ◌&&◌, Bool, true, false, none, some, List, [], ◌∷◌, ◌++◌, arith, length, take,
  drop, replicate, done, fault,
}
use chroagh.Io.{bytes, Accept, took, refused, read, write, read_loop, write_loop}
use chroagh.WebSocket.State.{World, block_read, block_write, close_client}
use chroagh.WebSocket.State.Channels.{Read, Written}
use chroagh.WebSocket.Frame.{Key, IsKey, masked, server_frame, client_frame}
use chroagh.WebSocket.Mask.{word, mask, IsBytes, unmask_words, unmask_words_lem}
use chroagh.WebSocket.Send.{store_length, assemble, socket_client_write_frame, socket_client_close}
use chroagh.WebSocket.Send.Encoding.{Sends, write_frame-Sends, write_frame_willing}
use chroagh.WebSocket.Send.Closing.{socket_client_close-client}
use chroagh.WebSocket.Receive.{
  accepted, refuse, client_bytes, extended_length, unmask, socket_client_read_frame_data,
  answer_control, control_packet, check_frame, read_maskkey, read_length, check_header,
  socket_client_read_frame_header,
}
use chroagh.WebSocket.Receive.Decoding.{read_frame_header_lem}
use chroagh.WebSocket.Receive.Data.{Stores, key_word, read_frame_data_lem}
use chroagh.WebSocket.Message.{
  after_data, after_header, read_frame_loop, socket_client_read_frame, strings_eq, vok,
}
use chroagh.WebSocket.Message.Round.{Fragment, IsFragment}
use chroagh.WebSocket.Message.Reassembly.{wire, read_frame-Receives, read_frame_overrun}

abbrev key : Key
key = record { k0 = 0x37; k1 = 0xfa; k2 = 0x21; k3 = 0x3d }

key-IsKey : IsKey key
key-IsKey = omega arith

-- "VOK" in two fragments.
abbrev vo : Fragment
vo = record { opcode = 1; key = key; payload = b'V' ∷ b'O' ∷ [] }

abbrev k : Fragment
k = record { opcode = 0; key = key; payload = b'K' ∷ [] }

vo-IsFragment : IsFragment vo
vo-IsFragment = record {
  data_opcode = omega arith;
  key = key-IsKey;
  bytes = omega arith;
  small = omega arith;
}

k-IsFragment : IsFragment k
k-IsFragment = record {
  data_opcode = omega arith;
  key = key-IsKey;
  bytes = omega arith;
  small = omega arith;
}

-- The client is descriptor 5; its frames come in two segments.
abbrev connected : List ℕ → List Accept → World
connected sent script = record {
  client_fd = some 5;
  incoming = λ _. bytes (take 3 sent) ∷ bytes (drop 3 sent) ∷ [];
  accepts = λ _. script;
  trace = [];
}

abbrev reply : World
reply = connected (wire (vo ∷ []) k) []

run : World → Bool
unfolding socket_client_read_frame read_frame_loop after_header after_data
    socket_client_read_frame_header client_bytes check_header read_length read_maskkey check_frame
    control_packet answer_control unmask extended_length socket_client_read_frame_data refuse
    socket_client_close socket_client_write_frame assemble store_length block_read block_write
    close_client read_loop write_loop read write unmask_words
run w = elim (socket_client_read_frame 9 (replicate 256 0) 256 w) [
  | done ((some n, out), w') ↦ n == 3 && strings_eq (take n out) vok
  | _ ↦ false
]

reads_vok : run reply ≡ true
unfolding run
reads_vok = refl

read_frame-Receives_example :
    (out : List ℕ) × (w' : World) × (socket_client_read_frame 9 (replicate 8 0) 8 reply
      ≡ done ((some 3, out), w'))
    × (take 3 out ≡ b'V' ∷ b'O' ∷ b'K' ∷ [])
    × Read 5 reply [] w'
read_frame-Receives_example =
    read_frame-Receives 5 8 [] (vo ∷ []) k 9 (replicate 8 0) reply (vo-IsFragment, tt) k-IsFragment
      (omega arith) (omega arith) refl (omega arith) refl refl

-- Six bytes after five: they fit a buffer of eight, and the second word of the two does not.
abbrev five : Fragment
five = record { opcode = 1; key = key; payload = 1 ∷ 2 ∷ 3 ∷ 4 ∷ 5 ∷ [] }

abbrev three : Fragment
three = record { opcode = 0; key = key; payload = 6 ∷ 7 ∷ 8 ∷ [] }

five-IsFragment : IsFragment five
five-IsFragment = record {
  data_opcode = omega arith;
  key = key-IsKey;
  bytes = omega arith;
  small = omega arith;
}

three-IsFragment : IsFragment three
three-IsFragment = record {
  data_opcode = omega arith;
  key = key-IsKey;
  bytes = omega arith;
  small = omega arith;
}

read_frame_overrun_example :
    socket_client_read_frame 9 (replicate 8 0) 8 (connected (wire (five ∷ []) three) []) ≡ fault
read_frame_overrun_example =
    read_frame_overrun 5 8 [] five three 7 (replicate 8 0) (connected (wire (five ∷ []) three) [])
      five-IsFragment three-IsFragment (omega arith) refl (omega arith) (omega arith) (omega arith)
      (omega arith) refl refl

read_frame_header_lem_example :
    (w' : World) × (socket_client_read_frame_header
        (connected (client_frame 2 true key (replicate 200 7)) [])
      ≡ done (accepted 200 true (word 0x37 0xfa 0x21 0x3d), w'))
    × Read 5
        (connected (client_frame 2 true key (replicate 200 7)) [])
        (masked key (replicate 200 7))
        w'
read_frame_header_lem_example =
    read_frame_header_lem 5 2 200 true key
      (connected (client_frame 2 true key (replicate 200 7)) []) (masked key (replicate 200 7))
      (omega arith) (omega arith) refl refl

read_frame_data_lem_example :
    let w = connected (masked key (1 ∷ 2 ∷ 3 ∷ [])) [] in
    (w' : World) × Stores
      (replicate 4 0)
      (1 ∷ 2 ∷ 3 ∷ [])
      (socket_client_read_frame_data (replicate 4 0) 3 (key_word key) w)
      w'
    × Read 5 w [] w'
read_frame_data_lem_example =
    read_frame_data_lem key key-IsKey (replicate 4 0) (1 ∷ 2 ∷ 3 ∷ []) (omega arith) (omega arith)
      (omega arith) 5 [] (connected (masked key (1 ∷ 2 ∷ 3 ∷ [])) []) refl refl

write_frame-Sends_example :
    Sends 5 (connected [] (took 1 ∷ refused ∷ [])) (server_frame 1 true (b'V' ∷ b'2' ∷ [])) 2 (
      socket_client_write_frame
        (replicate 16 0 ++ (b'V' ∷ b'2' ∷ []) ++ [])
        2
        1
        true
        (connected [] (took 1 ∷ refused ∷ [])))
write_frame-Sends_example =
    write_frame-Sends 5 1 true (replicate 16 0) (b'V' ∷ b'2' ∷ []) []
      (connected [] (took 1 ∷ refused ∷ [])) refl refl

write_frame_willing_example :
    let w = connected [] (took 1 ∷ took 9 ∷ []) in
    (w' : World) × (socket_client_write_frame
        (replicate 16 0 ++ (b'V' ∷ b'2' ∷ []) ++ [])
        2
        1
        true
        w
      ≡ done (some 2, w'))
    × Written 5 w (0x81 ∷ 2 ∷ b'V' ∷ b'2' ∷ []) w'
write_frame_willing_example =
    write_frame_willing 5 1 true (replicate 16 0) (b'V' ∷ b'2' ∷ []) []
      (connected [] (took 1 ∷ took 9 ∷ [])) refl refl (omega arith)

unmask_words_lem_example :
    (out : List ℕ) × (unmask_words 1 (word 0x37 0xfa 0x21 0x3d) (1 ∷ 2 ∷ 3 ∷ 4 ∷ []) ≡ some out)
    × (take 3 out ≡ mask 0x37 0xfa 0x21 0x3d (1 ∷ 2 ∷ 3 ∷ []))
    × (length out ≡ 4)
    × IsBytes out
unmask_words_lem_example =
    unmask_words_lem 0x37 0xfa 0x21 0x3d 3 (1 ∷ 2 ∷ 3 ∷ 4 ∷ []) (omega arith) (omega arith)
      (omega arith) (omega arith) (omega arith) (omega arith)

socket_client_close-client_example :
    (w' : World) × (socket_client_close true reply ≡ done (tt, w')) × (w'.client_fd ≡ none)
socket_client_close-client_example = socket_client_close-client true reply
