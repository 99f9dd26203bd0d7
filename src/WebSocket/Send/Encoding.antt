-- ===== src/WebSocket/Send/Encoding.antt =====
-- What `socket_client_write_frame` puts on the wire is the frame of RFC 6455.
use chroagh.Base.{
  ℕ, ◌+◌, ◌/◌, ◌%◌, ◌<◌, bit_and, ◌≡◌, refl, ap, ap₂, ◌∙◌, inl, inr, Bool, true, false, Bool-cases,
  ltb, if◌then◌else◌, Option, none, some, List, [], ◌∷◌, ◌++◌, arith, length, take, take_onto,
  Outcome, done, ltb_not, length-append, replicate, length-replicate, append-nil, sym,
}
use chroagh.Base.Bits.{bit_and_byte, bit_and_nibble, bit_or_top}
use chroagh.WebSocket.Frame.{fin_bit, big_endian, server_frame}
use chroagh.WebSocket.State.{World, wrote, closed, block_write, close_client}
use chroagh.WebSocket.State.Channels.{
  Written, block_write-cases, block_write_willing, close_client-client, close_client-trace,
}
use chroagh.Io.Write.{IsWilling}
use chroagh.WebSocket.Send.{
  store_length, header0, assemble, length_field, is_all, socket_client_write_frame,
}

header0_lem : (opcode : ℕ) (fin : Bool) → header0 opcode fin ≡ fin_bit fin + opcode % 16
header0_lem opcode true = ground (arith, bit_and_nibble opcode, bit_or_top (opcode % 16))
header0_lem opcode false = ground (arith, bit_and_nibble opcode)

-- What the loop stores for two bytes and for eight.
two_bytes : (n : ℕ) → ◌≡◌ {A = List ℕ} (bit_and (n / 256) 255 ∷ bit_and n 255 ∷ []) (big_endian 2 n)
two_bytes n = ground (arith, bit_and_byte (n / 256), bit_and_byte n)

abbrev shifted : ℕ → List ℕ
shifted n =
    bit_and (n / 256 / 256 / 256 / 256 / 256 / 256 / 256) 255
    ∷ bit_and (n / 256 / 256 / 256 / 256 / 256 / 256) 255
    ∷ bit_and (n / 256 / 256 / 256 / 256 / 256) 255
    ∷ bit_and (n / 256 / 256 / 256 / 256) 255
    ∷ bit_and (n / 256 / 256 / 256) 255
    ∷ bit_and (n / 256 / 256) 255
    ∷ bit_and (n / 256) 255
    ∷ bit_and n 255
    ∷ []

eight_bytes : (n : ℕ) → shifted n ≡ big_endian 8 n
eight_bytes n = simp bit_and_byte (ground arith)

-- The free space before the payload.
sixteen :
    (pad : List ℕ)
    → length pad ≡ 16
    → (b0 b1 b2 b3 b4 b5 b6 b7 b8 b9 b10 b11 b12 b13 b14 b15 : ℕ) × (pad
        ≡ b0 ∷ b1 ∷ b2 ∷ b3 ∷ b4 ∷ b5 ∷ b6 ∷ b7 ∷ b8 ∷ b9 ∷ b10 ∷ b11 ∷ b12 ∷ b13 ∷ b14 ∷ b15 ∷ [])
sixteen (b0 ∷ b1 ∷ b2 ∷ b3 ∷ b4 ∷ b5 ∷ b6 ∷ b7 ∷ b8 ∷ b9 ∷ b10 ∷ b11 ∷ b12 ∷ b13 ∷ b14 ∷ b15 ∷ [])
      e =
    (b0, b1, b2, b3, b4, b5, b6, b7, b8, b9, b10, b11, b12, b13, b14, b15, refl)
sixteen _ e = absurd (omega arith)

module _ (opcode : ℕ) (fin : Bool) (pad payload extra : List ℕ) (h : length pad ≡ 16) where
  -- The bytes sent are the RFC's encoding of the payload, at every length.
  pub assemble_lem :
      assemble (pad ++ payload ++ extra) (length payload) opcode fin
      ≡ server_frame (opcode % 16) fin payload
  unfolding assemble store_length
  assemble_lem =
      let (b0, b1, b2, b3, b4, b5, b6, b7, b8, b9, b10, b11, b12, b13, b14, b15, e) =
        sixteen pad h in
      elim (Bool-cases (ltb 125 (length payload))) [
        | inr short ↦
            rw (e, short)
              (take_onto (header0 opcode fin ∷ length payload ∷ []) payload extra
                ∙ ap (λ t. t ∷ length payload ∷ payload) (header0_lem opcode fin))
        | inl long ↦ elim (Bool-cases (ltb (length payload) 65536)) [
          | inl two ↦
              rw (e, long, two)
                (take_onto
                    (header0 opcode fin
                      ∷ 126
                      ∷ bit_and (length payload / 256) 255
                      ∷ bit_and (length payload) 255
                      ∷ [])
                    payload extra
                  ∙ ap₂ (λ t u. t ∷ 126 ∷ (u ++ payload)) (header0_lem opcode fin)
                      (two_bytes (length payload)))
          | inr eight ↦
              rw (e, long, eight)
                (take_onto (header0 opcode fin ∷ 127 ∷ shifted (length payload)) payload extra
                  ∙ ap₂ (λ t u. t ∷ 127 ∷ (u ++ payload)) (header0_lem opcode fin)
                      (eight_bytes (length payload)))
        ]
      ]

length-server_frame :
    (opcode : ℕ) (fin : Bool) (payload : List ℕ)
    → length (server_frame opcode fin payload)
      ≡ 2 + (length_field (length payload)).1 + length payload
length-server_frame opcode fin payload = elim (Bool-cases (ltb 125 (length payload))) [
  | inr short ↦ rw short (omega arith)
  | inl long ↦ elim (Bool-cases (ltb (length payload) 65536)) [
    | inl two ↦ rw (long, two) (omega arith)
    | inr eight ↦ rw (long, eight) (omega arith)
  ]
]

-- How a frame goes out: whole, or in part, and then the client is closed and -1 returned.
pub data Sends (fd : ℕ) (w : World) (frame : List ℕ) (size : ℕ) (r : Outcome (Option ℕ × World))
    : Type 0 where
  sent : (w' : World) → r ≡ done (some size, w') → Written fd w frame w' → Sends fd w frame size r
  broken :
      (tot : ℕ) (w' : World)
      → tot < length frame
      → r ≡ done (none, w')
      → w'.client_fd ≡ none
      → w'.trace ≡ closed fd ∷ wrote fd (take tot frame) ∷ w.trace
      → Sends fd w frame size r

module _ (fd opcode : ℕ) (fin : Bool) (pad payload extra : List ℕ) (w : World) where
  abbrev frame : List ℕ
  frame = server_frame (opcode % 16) fin payload

  abbrev run : Outcome (Option ℕ × World)
  run = socket_client_write_frame (pad ++ payload ++ extra) (length payload) opcode fin w

  -- The call comes down to one `block_write` of the frame.
  run_writes :
      length pad ≡ 16
      → w.client_fd ≡ some fd
      → let (n, w') = block_write (some fd) frame w in
        run ≡ (
          if is_all n (length frame)
          then done (some (length payload), w')
          else done (none, close_client w'))
  unfolding socket_client_write_frame
  run_writes h open_fd =
      let fits : ltb (length (pad ++ payload ++ extra)) (16 + length payload) ≡ false =
        ltb_not _ _
          (omega (arith, h, length-append (pad ++ payload) extra, length-append pad payload)) in
      rw (
        fits,
        assemble_lem opcode fin pad payload extra h,
        open_fd,
        length-server_frame (opcode % 16) fin payload,
      )

  -- With 16 bytes before the payload and a client, the RFC's frame goes out whole and its size is
  -- returned, or a proper prefix goes out, the client is closed and -1 is returned.
  pub write_frame-Sends :
      length pad ≡ 16 → w.client_fd ≡ some fd → Sends fd w frame (length payload) run
  write_frame-Sends h open_fd = elim (block_write-cases fd frame w) [
    | inl (n, written) ↦
        sent (block_write (some fd) frame w).1 (run_writes h open_fd ∙ ground arith) written
    | inr (tot, n, short, written) ↦
        broken tot (close_client (block_write (some fd) frame w).1) short
          (run_writes h open_fd ∙ ground arith) (close_client-client _)
          (close_client-trace fd _ (written.client ∙ open_fd)
            ∙ ap (λ t. closed fd ∷ t) written.trace)
  ]

  -- With 16 bytes before the payload, a client, and a connection that takes at least a byte with each
  -- write, the RFC's frame goes out whole and its size is returned.
  pub write_frame_willing :
      length pad ≡ 16
      → w.client_fd ≡ some fd
      → IsWilling (w.accepts fd)
      → (w' : World) × (run ≡ done (some (length payload), w')) × Written fd w frame w'
  write_frame_willing h open_fd willing =
      let ok = block_write_willing fd frame w willing in
      ((block_write (some fd) frame w).1, run_writes h open_fd ∙ ground arith, ok.1)

-- A payload behind 16 free bytes, as the callers store it.
pub packet_sent :
    (fd opcode : ℕ) (fin : Bool) (payload : List ℕ) (w : World)
    → w.client_fd ≡ some fd
    → IsWilling (w.accepts fd)
    → (w' : World) × (socket_client_write_frame
          (replicate 16 0 ++ payload)
          (length payload)
          opcode
          fin
          w
        ≡ done (some (length payload), w'))
      × Written fd w (server_frame (opcode % 16) fin payload) w'
packet_sent fd opcode fin payload w open_fd willing =
    let (w', run, written) =
      write_frame_willing fd opcode fin (replicate 16 0) payload [] w
        (length-replicate {A = ℕ} 16 0) open_fd willing in
    (
      w',
      ap (λ b. socket_client_write_frame b (length payload) opcode fin w)
            (sym (append-nil (replicate 16 0 ++ payload)))
          ∙ run,
      written,
    )
