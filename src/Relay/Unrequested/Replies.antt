-- ===== src/Relay/Unrequested/Replies.antt =====
-- What comes of the extension's commands.
use chroagh.Base.{
  ℕ, suc, ◌-◌, ◌≡◌, ◌≢◌, ◌==◌, refl, ap, ◌∙◌, inl, inr, Bool-cases, if◌then◌else◌, true, false,
  some, List, [], ◌∷◌, ◌++◌, arith, length, take, get_or, take_prefix, done, fault, ◌>>=◌, ltb,
  ltb_not, append-nil,
}
use chroagh.Io.Read.{available}
use chroagh.Io.Write.{IsWilling}
use chroagh.WebSocket.State.{World, wrote, block_read}
use chroagh.WebSocket.State.Channels.{block_read_full}
use chroagh.WebSocket.Constants.{buffersize}
use chroagh.WebSocket.Frame.{Key, client_frame, client_header, server_frame}
use chroagh.WebSocket.Send.Encoding.{packet_sent}
use chroagh.WebSocket.Receive.{socket_client_read_frame_data, unmask}
use chroagh.WebSocket.Receive.Data.{key_word}
use chroagh.WebSocket.Mask.{unmask_words}
use chroagh.WebSocket.Receive.Decoding.{IsData, read_frame_header_lem}
use chroagh.WebSocket.Message.{
  c_string, after_header, after_data, read_frame_loop, socket_client_read_frame,
}
use chroagh.Relay.State.{Relay}
use chroagh.Relay.Unrequested.{
  send_reply, launch_with, launch, cycle_command, socket_client_handle_unrequested,
  socket_client_read,
}

reply_sent :
    (fd : ℕ) (reply : List ℕ) (s : Relay)
    → s.world.client_fd ≡ some fd
    → IsWilling (s.world.accepts fd)
    → (w' : World) × (send_reply reply s ≡ done (true, record s { world = w' }))
      × (w'.client_fd ≡ some fd)
      × (w'.trace ≡ wrote fd (server_frame 1 true reply) ∷ s.world.trace)
unfolding send_reply
reply_sent fd reply s open_fd willing =
    let (w', run, written) = packet_sent fd 1 true reply s.world open_fd willing in
    (w', rw (run, ◌>>=◌) refl, written.client ∙ open_fd, written.trace)

launched_run :
    (param : List ℕ) (s : Relay)
    → s.forks ≡ []
    → launch param s ≡ send_reply (b'C' ∷ []) (record s { launched = param ∷ s.launched })
unfolding launch
launched_run param s e = ap (launch_with param s) e

-- A command other than l and O, with a client, a connection that takes at least a byte with each
-- write, and forks that succeed, is launched with its parameter, and the frame C is the reply.
pub launch_replies :
    (fd : ℕ) (param rest : List ℕ) (s : Relay)
    → get_or (c_string param) 0 0 ≢ b'l'
    → get_or (c_string param) 0 0 ≢ b'O'
    → s.forks ≡ []
    → s.world.client_fd ≡ some fd
    → IsWilling (s.world.accepts fd)
    → (s' : Relay) × (socket_client_handle_unrequested
          (b'C' ∷ (param ++ rest))
          (suc (length param))
          s
        ≡ done (true, s'))
      × (s'.launched ≡ c_string param ∷ s.launched)
      × (s'.world.client_fd ≡ some fd)
      × (s'.world.trace ≡ wrote fd (server_frame 1 true (b'C' ∷ [])) ∷ s.world.trace)
unfolding socket_client_handle_unrequested cycle_command launch
launch_replies fd param rest s not_l not_o forks open_fd willing =
    let s1 : Relay = record s { launched = c_string param ∷ s.launched } in
    let (w', run, kept, traced) = reply_sent fd (b'C' ∷ []) s1 open_fd willing in
    let whole : suc (length param) - 1 ≡ length param = omega arith in
    let text : take (suc (length param) - 1) (param ++ rest) ≡ param =
      ap (λ n. take n (param ++ rest)) whole ∙ take_prefix param rest in
    let t0 : (suc (length param) == 0) ≡ false = ground arith in
    let t1 : (get_or (c_string param) 0 0 == b'l') ≡ false = ground arith in
    let t2 : (get_or (c_string param) 0 0 == b'O') ≡ false = ground arith in
    (
      record s1 { world = w' },
      rw (t0, text, t1, t2) (launched_run (c_string param) s forks ∙ run),
      refl,
      kept,
      traced,
    )

unmask_nothing :
    (key : ℕ) (buffer : List ℕ) (w : World)
    → unmask buffer 0 key (some [], w) ≡ done ((some 0, buffer), w)
unfolding unmask unmask_words
unmask_nothing key buffer w = elim (Bool-cases (key == 0)) [ inl z ↦ rw z refl | inr z ↦ rw z refl ]

-- No data leaves the buffer as it is.
empty_data :
    (fd key : ℕ) (buffer : List ℕ) (w : World)
    → w.client_fd ≡ some fd
    → (w' : World) × (socket_client_read_frame_data buffer 0 key w ≡ done ((some 0, buffer), w'))
unfolding socket_client_read_frame_data
empty_data fd key buffer w open_fd =
    let (w', run, r) = block_read_full fd w [] (available (w.incoming fd)) refl in
    let fits : ltb (length buffer) 0 ≡ false = ltb_not (length buffer) 0 (omega arith) in
    (
      w',
      ap (λ b. if b then fault else unmask buffer 0 key (block_read w.client_fd 0 w)) fits
          ∙ ap (λ o. unmask buffer 0 key (block_read o 0 w)) open_fd
          ∙ ap (unmask buffer 0 key) run
          ∙ unmask_nothing key buffer w',
    )

empty_round :
    (fd opcode fuel : ℕ) (k : Key) (rest memory : List ℕ) (w : World)
    → IsData opcode
    → w.client_fd ≡ some fd
    → available (w.incoming fd) ≡ client_frame opcode true k [] ++ rest
    → (w' : World) × (socket_client_read_frame (suc fuel) memory buffersize w
        ≡ done ((some 0, memory), w'))
unfolding socket_client_read_frame read_frame_loop after_header after_data
empty_round fd opcode fuel k rest memory w d open_fd arrives =
    let (w1, header, r) =
      read_frame_header_lem fd opcode 0 true k w rest d (omega arith) open_fd
        (arrives ∙ ap (λ t. t ++ rest) (append-nil (client_header opcode true k 0))) in
    let (w2, data') = empty_data fd (key_word k) memory w1 (r.client ∙ open_fd) in
    (w2, rw (header, ◌>>=◌) (rw (data', ◌>>=◌) refl))

-- An empty message, when the uninitialised buffer happens to start with C, is taken for a command of
-- which a negative number of bytes is copied.
pub empty_message_overrun :
    (fd opcode fuel : ℕ) (k : Key) (rest memory : List ℕ) (s : Relay)
    → IsData opcode
    → s.world.client_fd ≡ some fd
    → available (s.world.incoming fd) ≡ client_frame opcode true k [] ++ rest
    → socket_client_read (suc fuel) (b'C' ∷ memory) s ≡ fault
unfolding socket_client_read socket_client_handle_unrequested
empty_message_overrun fd opcode fuel k rest memory s d open_fd arrives =
    let (w', run) = empty_round fd opcode fuel k rest (b'C' ∷ memory) s.world d open_fd arrives in
    rw (run, ◌>>=◌) refl
