-- ===== src/WebSocket/Receive.antt =====
-- `socket_client_read_frame_header` and `socket_client_read_frame_data` of src/websocket.h. Both
-- return -1 (`none`) only after they have closed the client.
pub mod Length
pub mod Decoding
pub mod Data
pub mod Control
use chroagh.Base.{
  ℕ, zero, suc, ◌+◌, ◌*◌, ◌/◌, ◌%◌, ◌^◌, bit_and, bit_or, ltb, ◌==◌, if◌then◌else◌, Bool, true,
  false, not, ◌&&◌, Option, none, some, List, [], ◌∷◌, ◌++◌, length, drop, replicate, Outcome, M,
  done, fault, ◌>>=◌,
}
use chroagh.WebSocket.State.{World, block_read, close_client}
use chroagh.WebSocket.Constants.{
  maxframesize, header0_fin, header0_rsv, header0_opcode_mask, header1_mask, header1_len_mask,
  opcode_cont, opcode_text, opcode_binary, opcode_close, opcode_ping, opcode_pong,
}
use chroagh.WebSocket.Send.{socket_client_write_frame, socket_client_close}
use chroagh.WebSocket.Mask.{word, unmask_words}

-- The result, with `*fin`, `*maskkey` and `*retry`; the first two mean nothing after an error.
pub record Header : Type 0 where
  pub len : Option ℕ
  pub fin : Bool
  pub maskkey : ℕ
  pub retry : Bool

abbrev pub failed : Header
failed = record { len = none; fin = false; maskkey = 0; retry = false }

abbrev pub accepted : ℕ → Bool → ℕ → Header
accepted size fin maskkey = record { len = some size; fin = fin; maskkey = maskkey; retry = false }

-- A control packet was handled: the caller must call again.
abbrev pub again : ℕ → Header
again maskkey = record { len = some 0; fin = false; maskkey = maskkey; retry = true }

-- Close without a Close frame, or with one, and return -1.
abbrev pub drop_client : M World Header
drop_client w = done (failed, close_client w)

unfoldable pub refuse : M World Header
refuse = socket_client_close true >>= λ _ w. done (failed, w)

abbrev pub after_read :
    (List ℕ → M World Header) → Option (List ℕ) × World → Outcome (Header × World)
after_read next (none, w) = drop_client w
after_read next (some bytes, w) = next bytes w

-- `n = block_read(client_fd, …, size); if (n != size) { socket_client_close(0); return -1; }`
unfoldable pub client_bytes : ℕ → (List ℕ → M World Header) → M World Header
client_bytes size next w = after_read next (block_read w.client_fd size w)

-- Byte `i` of a small array.
abbrev pub byte_at : List ℕ → ℕ → ℕ
byte_at [] i = 0
byte_at (b ∷ bs) zero = b
byte_at (b ∷ bs) (suc i) = byte_at bs i

-- `length = length << 8 | (uint8_t)extlen[i]` over the extended length.
unfoldable pub extended_length : ℕ → List ℕ → ℕ
extended_length acc [] = acc
extended_length acc (b ∷ bs) = extended_length (bit_or (acc * 2 ^ 8 % 2 ^ 64) b) bs

-- What follows the `block_read`: nothing arrived in full, or the data is unmasked if there is a key.
unfoldable pub unmask :
    List ℕ → ℕ → ℕ → Option (List ℕ) × World → Outcome ((Option ℕ × List ℕ) × World)
unmask buffer size maskkey (none, w) = done ((none, buffer), close_client w)
unmask buffer size maskkey (some bytes, w) =
    let filled = bytes ++ drop size buffer in
    if maskkey == 0
    then done ((some size, filled), w)
    else elim (unmask_words ((size + 3) / 4) maskkey filled) [
      | none ↦ fault
      | some unmasked ↦ done ((some size, unmasked), w)
    ]

-- `socket_client_read_frame_data` into the memory from `buffer` on: the size or -1, and the memory
-- after it. The buffer must hold the data, and whole words of it if there is a key.
unfoldable pub socket_client_read_frame_data : List ℕ → ℕ → ℕ → M World (Option ℕ × List ℕ)
socket_client_read_frame_data buffer size maskkey w =
    if ltb (length buffer) size
    then fault
    else unmask buffer size maskkey (block_read w.client_fd size w)

-- What follows the data of a control packet.
unfoldable pub answer_control : ℕ → ℕ → ℕ → List ℕ → M World Header
answer_control opcode size maskkey buffer =
    if opcode == opcode_close
    then refuse
    else if opcode == opcode_ping
    then (socket_client_write_frame buffer size opcode_pong true >>= λ _ w. done (again maskkey, w))
    else if opcode == opcode_pong
    then (λ w. done (again maskkey, w))
    else refuse

-- A packet that is neither continuation, text nor binary. The source allocates `length + 3` bytes.
unfoldable pub control_packet : ℕ → Bool → ℕ → ℕ → M World Header
control_packet opcode fin size maskkey =
    if not fin
    then refuse
    else (socket_client_read_frame_data (replicate (size + 3) 0) size maskkey >>= λ (n, buffer).
        elim n [ none ↦ drop_client | some _ ↦ answer_control opcode size maskkey buffer ])

-- With the whole header at hand: the size limit and the opcode.
unfoldable pub check_frame : ℕ → Bool → ℕ → ℕ → M World Header
check_frame opcode fin size maskkey =
    if ltb maxframesize size
    then refuse
    else if not (opcode == opcode_cont)
        && not (opcode == opcode_text)
        && not (opcode == opcode_binary)
    then control_packet opcode fin size maskkey
    else (λ w. done (accepted size fin maskkey, w))

-- The masking key; a frame that is not masked closes the connection.
unfoldable pub read_maskkey : ℕ → Bool → Bool → ℕ → M World Header
read_maskkey opcode fin masked size =
    if masked
    then (client_bytes 4 λ k.
        check_frame opcode fin size (word (byte_at k 0) (byte_at k 1) (byte_at k 2) (byte_at k 3)))
    else refuse

-- The extended length, of `extlensize` bytes.
abbrev pub extlensize_of : ℕ → ℕ
extlensize_of size = if size == 126 then 2 else if size == 127 then 8 else 0

unfoldable pub read_length : ℕ → Bool → Bool → ℕ → M World Header
read_length opcode fin masked size =
    let extlensize = extlensize_of size in
    if ltb 0 extlensize
    then (client_bytes extlensize λ e. read_maskkey opcode fin masked (extended_length 0 e))
    else read_maskkey opcode fin masked size

-- The first two bytes.
unfoldable pub check_header : ℕ → ℕ → M World Header
check_header h0 h1 =
    if not (bit_and h0 header0_rsv == 0)
    then refuse
    else read_length (bit_and h0 header0_opcode_mask) (not (bit_and h0 header0_fin == 0))
        (not (bit_and h1 header1_mask == 0)) (bit_and h1 header1_len_mask)

unfoldable pub socket_client_read_frame_header : M World Header
socket_client_read_frame_header = client_bytes 2 λ h. check_header (byte_at h 0) (byte_at h 1)
