-- ===== src/WebSocket/Receive/Control.antt =====
-- Control packets of `socket_client_read_frame_header`.
use chroagh.Base.{
  ℕ, ◌+◌, ◌≤◌, ◌<◌, ◌≡◌, refl, ap, ◌∙◌, true, ltb, lt→ltb, none, some, List, ◌∷◌, ◌++◌, arith,
  length, replicate, length-replicate, append_assoc, done, fault, ◌>>=◌,
}
use chroagh.Io.Read.{available}
use chroagh.WebSocket.State.{World, wrote, closed}
use chroagh.WebSocket.State.Channels.{Read, Read_trans}
use chroagh.WebSocket.Constants.{maxframesize}
use chroagh.WebSocket.Frame.{Key, IsKey, client_frame, client_header, masked}
use chroagh.WebSocket.Mask.{replicate-IsBytes, IsBytes}
use chroagh.WebSocket.Send.{socket_client_write_frame}
use chroagh.WebSocket.Send.Closing.{close_frame, socket_client_close_willing}
use chroagh.Io.Write.{IsWilling}
use chroagh.WebSocket.Receive.{
  drop_client, again, failed, refuse, answer_control, control_packet, check_frame,
  socket_client_read_frame_data, socket_client_read_frame_header,
}
use chroagh.WebSocket.Receive.Decoding.{Continues, read_fields_lem}
use chroagh.WebSocket.Receive.Data.{in_words, key_word, read_frame_data_lem}

control_frame :
    (opcode size maskkey : ℕ) (w : World)
    → 2 < opcode
    → size ≤ maxframesize
    → check_frame opcode true size maskkey w
      ≡ (socket_client_read_frame_data (replicate (size + 3) 0) size maskkey >>= λ (n, buffer).
            elim n [ none ↦ drop_client | some _ ↦ answer_control opcode size maskkey buffer ])
          w
unfolding check_frame control_packet
control_frame opcode size maskkey w h k = ground arith

-- A whole control packet comes down to the answer to it.
module _ (fd opcode : ℕ) (k : Key) (payload rest : List ℕ) (w : World) (kq : IsKey k)
    (bytes : IsBytes payload) (control : 2 < opcode) (nibble : opcode < 16)
    (small : length payload ≤ maxframesize) (open_fd : w.client_fd ≡ some fd)
    (arrives : available (w.incoming fd) ≡ client_frame opcode true k payload ++ rest) where
  answered :
      (buffer : List ℕ) × (length buffer ≡ length payload + 3)
      × Continues fd w rest
          (answer_control opcode (length payload) (key_word k) buffer)
          (socket_client_read_frame_header w)
  answered =
      let size = length payload in
      let (w1, run1, r1) =
        read_fields_lem fd opcode size true k w (masked k payload ++ rest) nibble small open_fd
          (arrives ∙ append_assoc (client_header opcode true k size) (masked k payload) rest) in
      let room : in_words size ≤ length (replicate (size + 3) 0) =
        omega (arith, length-replicate {A = ℕ} (size + 3) 0) in
      let (w2, stores, r2) =
        read_frame_data_lem k kq (replicate (size + 3) 0) payload (replicate-IsBytes (size + 3))
          bytes room fd rest w1 (r1.client ∙ open_fd) r1.left in
      (
        stores.out,
        stores.room ∙ length-replicate {A = ℕ} (size + 3) 0,
        (
          w2,
          run1
              ∙ control_frame opcode size (key_word k) w1 control small
              ∙ rw (stores.returns, ◌>>=◌) refl,
          Read_trans r1 r2,
        ),
      )

-- The answer to a Ping needs 16 bytes before the payload and gets none.
ping_answer :
    (size maskkey : ℕ) (buffer : List ℕ) (w : World)
    → length buffer ≡ size + 3
    → answer_control 9 size maskkey buffer w ≡ fault
unfolding answer_control socket_client_write_frame
ping_answer size maskkey buffer w len =
    let short : ltb (length buffer) (16 + size) ≡ true = lt→ltb _ _ (omega arith) in
    rw (short, ◌>>=◌) refl

-- Every Ping within the size limit, masked and in one frame, makes the call access memory outside
-- of the buffer with its payload.
pub ping_overrun :
    (fd : ℕ) (k : Key) (payload rest : List ℕ) (w : World)
    → IsKey k
    → IsBytes payload
    → length payload ≤ maxframesize
    → w.client_fd ≡ some fd
    → available (w.incoming fd) ≡ client_frame 9 true k payload ++ rest
    → socket_client_read_frame_header w ≡ fault
ping_overrun fd k payload rest w kq bytes small open_fd arrives =
    let (buffer, len, (w', run, r)) =
      answered fd 9 k payload rest w kq bytes (omega arith) (omega arith) small open_fd arrives in
    run ∙ ping_answer (length payload) (key_word k) buffer w' len

-- A Pong within the size limit, masked and in one frame, is taken off the connection whole, nothing
-- is sent, and the caller is told to call again.
pub pong_skipped :
    (fd : ℕ) (k : Key) (payload rest : List ℕ) (w : World)
    → IsKey k
    → IsBytes payload
    → length payload ≤ maxframesize
    → w.client_fd ≡ some fd
    → available (w.incoming fd) ≡ client_frame 10 true k payload ++ rest
    → (w' : World) × (socket_client_read_frame_header w ≡ done (again (key_word k), w'))
      × Read fd w rest w'
unfolding answer_control
pong_skipped fd k payload rest w kq bytes small open_fd arrives =
    let (buffer, len, (w', run, r)) =
      answered fd 10 k payload rest w kq bytes (omega arith) (omega arith) small open_fd arrives in
    (w', run, r)

-- After a Close frame within the size limit, masked and in one frame, on a connection that takes at
-- least a byte with each write, the call sends a whole Close frame without a payload and nothing
-- else, then closes the descriptor, and returns -1.
pub close_answered :
    (fd : ℕ) (k : Key) (payload rest : List ℕ) (w : World)
    → IsKey k
    → IsBytes payload
    → length payload ≤ maxframesize
    → w.client_fd ≡ some fd
    → available (w.incoming fd) ≡ client_frame 8 true k payload ++ rest
    → IsWilling (w.accepts fd)
    → (w' : World) × (socket_client_read_frame_header w ≡ done (failed, w'))
      × (w'.client_fd ≡ none)
      × (w'.trace ≡ closed fd ∷ wrote fd close_frame ∷ w.trace)
unfolding answer_control refuse
close_answered fd k payload rest w kq bytes small open_fd arrives willing =
    let (buffer, len, (w1, run, r)) =
      answered fd 8 k payload rest w kq bytes (omega arith) (omega arith) small open_fd arrives in
    let ready : IsWilling (w1.accepts fd) = rw r.accepts willing in
    let (w2, closing, c) = socket_client_close_willing fd w1 (r.client ∙ open_fd) ready in
    (
      w2,
      run ∙ rw (closing, ◌>>=◌) refl,
      c.client,
      c.trace ∙ ap (λ t. closed fd ∷ wrote fd close_frame ∷ t) r.trace,
    )
