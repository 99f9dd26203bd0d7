-- ===== src/WebSocket/Receive/Decoding.antt =====
-- `socket_client_read_frame_header` reads back the header of every data frame of RFC 6455.
use chroagh.Base.{
  ℕ, ◌+◌, ◌^◌, ◌≤◌, ◌<◌, bit_and, ◌≡◌, refl, ap, ◌∙◌, inl, inr, Bool, true, false, Bool-cases, ltb,
  ltb→lt, ◌==◌, some, List, [], ◌∷◌, ◌++◌, arith, length, append_assoc, Outcome, done, M,
}
use chroagh.Base.Bits.{byte_masks}
use chroagh.Io.Read.{available}
use chroagh.WebSocket.State.{World, block_read}
use chroagh.WebSocket.State.Channels.{Read, Read_trans, block_read_full}
use chroagh.WebSocket.Constants.{maxframesize}
use chroagh.WebSocket.Frame.{fin_bit, length7, extended, big_endian, Key, key_bytes, client_header}
use chroagh.WebSocket.Mask.{word}
use chroagh.WebSocket.Receive.{
  Header, accepted, byte_at, after_read, client_bytes, read_maskkey, read_length, check_frame,
  check_header, extended_length, socket_client_read_frame_header,
}
use chroagh.WebSocket.Receive.Length.{extended_length-big_endian}

-- The two header bytes are taken apart into the fields that were put together.
check_header_lem :
    (opcode size7 : ℕ) (fin : Bool)
    → opcode < 16
    → size7 < 128
    → check_header (fin_bit fin + opcode) (128 + size7) ≡ read_length opcode fin true size7
unfolding check_header
check_header_lem opcode size7 true h k =
    let a = byte_masks (128 + opcode) (omega arith) in
    let b = byte_masks (128 + size7) (omega arith) in
    let a0 : bit_and (128 + opcode) 0x0f ≡ opcode = omega (arith, a.0) in
    let a1 : bit_and (128 + opcode) 0x70 ≡ 0 = omega (arith, a.2) in
    let a2 : bit_and (128 + opcode) 0x80 ≡ 128 = omega (arith, a.3) in
    let b0 : bit_and (128 + size7) 0x7f ≡ size7 = omega (arith, b.1) in
    let b1 : bit_and (128 + size7) 0x80 ≡ 128 = omega (arith, b.3) in rw (a0, a1, a2, b0, b1)
check_header_lem opcode size7 false h k =
    let a = byte_masks (0 + opcode) (omega arith) in
    let b = byte_masks (128 + size7) (omega arith) in
    let a0 : bit_and (0 + opcode) 0x0f ≡ opcode = omega (arith, a.0) in
    let a1 : bit_and (0 + opcode) 0x70 ≡ 0 = omega (arith, a.2) in
    let a2 : bit_and (0 + opcode) 0x80 ≡ 0 = omega (arith, a.3) in
    let b0 : bit_and (128 + size7) 0x7f ≡ size7 = omega (arith, b.1) in
    let b1 : bit_and (128 + size7) 0x80 ≡ 128 = omega (arith, b.3) in rw (a0, a1, a2, b0, b1)

-- Bytes that are on the way are handed on.
client_bytes_full :
    (fd : ℕ) (w : World) (p rest : List ℕ) (next : List ℕ → M World Header)
    → w.client_fd ≡ some fd
    → available (w.incoming fd) ≡ p ++ rest
    → (w' : World) × (client_bytes (length p) next w ≡ next p w') × Read fd w rest w'
unfolding client_bytes
client_bytes_full fd w p rest next open_fd e =
    let r = block_read_full fd w p rest e in
    (
      r.0,
      ap (λ o. after_read next (block_read o (length p) w)) open_fd ∙ ap (after_read next) r.1,
      r.2,
    )

-- `w` continued by `w'`, with `rest` left on the way, ends as `next` does.
abbrev pub Continues : ℕ → World → List ℕ → M World Header → Outcome (Header × World) → Type 0
Continues fd w rest next r = (w' : World) × (r ≡ next w') × Read fd w rest w'

read_maskkey_lem :
    (fd opcode size : ℕ) (fin : Bool) (k : Key) (w : World) (rest : List ℕ)
    → w.client_fd ≡ some fd
    → available (w.incoming fd) ≡ key_bytes k ++ rest
    → Continues fd w rest
        (check_frame opcode fin size (word k.k0 k.k1 k.k2 k.k3))
        (read_maskkey opcode fin true size w)
unfolding read_maskkey
read_maskkey_lem fd opcode size fin k w rest open_fd e =
    client_bytes_full fd w (key_bytes k) rest _ open_fd e

module _ (fd opcode : ℕ) (fin : Bool) (w : World) (rest : List ℕ) where
  -- The bytes of an extended length.
  extended_lem :
      (bytes size : ℕ)
      → size < 2 ^ 64
      → size < 256 ^ bytes
      → w.client_fd ≡ some fd
      → available (w.incoming fd) ≡ big_endian bytes size ++ rest
      → Continues fd w rest (read_maskkey opcode fin true size) (
          client_bytes
            (length (big_endian bytes size))
            (λ e. read_maskkey opcode fin true (extended_length 0 e))
            w)
  extended_lem bytes size h fits open_fd e =
      let r =
        client_bytes_full fd w (big_endian bytes size) rest
          (λ b. read_maskkey opcode fin true (extended_length 0 b)) open_fd e in
      (
        r.0,
        r.1
            ∙ ap (λ n. read_maskkey opcode fin true n r.0)
                (extended_length-big_endian bytes size h fits),
        r.2,
      )

  read_length_lem :
      (size : ℕ)
      → size < 2 ^ 64
      → w.client_fd ≡ some fd
      → available (w.incoming fd) ≡ extended size ++ rest
      → Continues fd w rest
          (read_maskkey opcode fin true size)
          (read_length opcode fin true (length7 size) w)
  unfolding read_length
  read_length_lem size fits open_fd e = elim (Bool-cases (ltb 125 size)) [
    | inr short ↦
        let n1 : (size == 126) ≡ false = ground arith in
        let n2 : (size == 127) ≡ false = ground arith in
        let start : read_length opcode fin true (length7 size) w
            ≡ read_maskkey opcode fin true size w =
          rw (short, n1, n2) in
        (w, start, record { client = refl; trace = refl; accepts = refl; left = rw short at e })
    | inl long ↦ elim (Bool-cases (ltb size 65536)) [
      | inl two ↦
          let small : size < 65536 = ltb→lt size 65536 two in
          let r = extended_lem 2 size fits small open_fd (rw (long, two) at e) in
          let start : read_length opcode fin true (length7 size) w
              ≡ client_bytes 2 (λ b. read_maskkey opcode fin true (extended_length 0 b)) w =
            rw (long, two) in
          (r.0, start ∙ r.1, r.2)
      | inr eight ↦
          let r = extended_lem 8 size fits fits open_fd (rw (long, eight) at e) in
          let start : read_length opcode fin true (length7 size) w
              ≡ client_bytes 8 (λ b. read_maskkey opcode fin true (extended_length 0 b)) w =
            rw (long, eight) in
          (r.0, start ∙ r.1, r.2)
    ]
  ]

-- A data frame: continuation, text or binary.
abbrev pub IsData : ℕ → Type 0
IsData opcode = opcode ≤ 2

check_frame_lem :
    (opcode size maskkey : ℕ) (fin : Bool) (w : World)
    → IsData opcode
    → size ≤ maxframesize
    → check_frame opcode fin size maskkey w ≡ done (accepted size fin maskkey, w)
unfolding check_frame
check_frame_lem opcode size maskkey fin w d h = ground arith

-- Whatever the opcode, the header of a masked frame leads to the last checks.
pub read_fields_lem :
    (fd opcode size : ℕ) (fin : Bool) (k : Key) (w : World) (rest : List ℕ)
    → opcode < 16
    → size ≤ maxframesize
    → w.client_fd ≡ some fd
    → available (w.incoming fd) ≡ client_header opcode fin k size ++ rest
    → Continues fd w rest
        (check_frame opcode fin size (word k.k0 k.k1 k.k2 k.k3))
        (socket_client_read_frame_header w)
unfolding socket_client_read_frame_header
read_fields_lem fd opcode size fin k w rest d h open_fd e =
    let size7-lt : length7 size < 128 = ground arith in
    let r1 =
      client_bytes_full fd w ((fin_bit fin + opcode) ∷ (128 + length7 size) ∷ [])
        ((extended size ++ key_bytes k) ++ rest) (λ h. check_header (byte_at h 0) (byte_at h 1))
        open_fd e in
    let w1 = r1.0 in
    let r2 =
      read_length_lem fd opcode fin w1 (key_bytes k ++ rest) size (omega arith)
        (r1.2.client ∙ open_fd) (r1.2.left ∙ append_assoc (extended size) (key_bytes k) rest) in
    let r3 =
      read_maskkey_lem fd opcode size fin k r2.0 rest (r2.2.client ∙ r1.2.client ∙ open_fd)
        r2.2.left in
    (
      r3.0,
      r1.1 ∙ ap (λ f. f w1) (check_header_lem opcode (length7 size) fin d size7-lt) ∙ r2.1 ∙ r3.1,
      Read_trans (Read_trans r1.2 r2.2) r3.2,
    )

-- The header of a data frame within the size limit, on the way from the client in whatever
-- segments, yields its length, its FIN flag and its key; exactly the header is taken off the
-- connection, and nothing is sent.
pub read_frame_header_lem :
    (fd opcode size : ℕ) (fin : Bool) (k : Key) (w : World) (rest : List ℕ)
    → IsData opcode
    → size ≤ maxframesize
    → w.client_fd ≡ some fd
    → available (w.incoming fd) ≡ client_header opcode fin k size ++ rest
    → (w' : World) × (socket_client_read_frame_header w
        ≡ done (accepted size fin (word k.k0 k.k1 k.k2 k.k3), w'))
      × Read fd w rest w'
read_frame_header_lem fd opcode size fin k w rest d h open_fd e =
    let (w', run, r) = read_fields_lem fd opcode size fin k w rest (omega arith) h open_fd e in
    (w', run ∙ check_frame_lem opcode size (word k.k0 k.k1 k.k2 k.k3) fin w' d h, r)
