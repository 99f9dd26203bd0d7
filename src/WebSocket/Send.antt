-- ===== src/WebSocket/Send.antt =====
-- `socket_client_write_frame` and `socket_client_close` of src/websocket.h.
pub mod Encoding
pub mod Closing
use chroagh.Base.{
  ℕ, zero, suc, ◌+◌, ◌-◌, ◌/◌, ◌%◌, bit_and, bit_or, ltb, ◌==◌, if◌then◌else◌, Bool, true, false,
  Option, none, some, List, length, set, take, drop, replicate, M, done, fault, ◌>>=◌,
}
use chroagh.WebSocket.State.{World, block_write, close_client}
use chroagh.WebSocket.Constants.{framemaxheadersize, header0_opcode_mask, header0_fin, opcode_close}

-- `payloadlen` and `extlensize` for a payload of `size` bytes.
abbrev pub length_field : ℕ → ℕ × ℕ
length_field size =
    if ltb 125 size then (if ltb size 65536 then (126, 2) else (127, 8)) else (size, 0)

-- The loop that stores the extended length from its last byte, `i + 1` bytes to go; the field
-- starts at `p`.
unfoldable pub store_length : ℕ → ℕ → ℕ → List ℕ → List ℕ
store_length zero tmpsize p buffer = buffer
store_length (suc i) tmpsize p buffer =
    store_length i (tmpsize / 256) p (set buffer (p + i) (bit_and tmpsize 0xff))

-- The first header byte.
abbrev pub header0 : ℕ → Bool → ℕ
header0 opcode fin =
    let op = bit_and opcode header0_opcode_mask in if fin then bit_or op header0_fin else op

-- The bytes from `pbuffer` on that go out: the header is put together in the free space before the
-- payload, which starts at `buffer[framemaxheadersize]`.
unfoldable pub assemble : List ℕ → ℕ → ℕ → Bool → List ℕ
assemble buffer size opcode fin =
    let (payloadlen, extlensize) = length_field size in
    let p = framemaxheadersize - 2 - extlensize in
    let extended = store_length extlensize size (p + 2) buffer in
    let stored = set (set extended p (header0 opcode fin)) (p + 1) payloadlen in
    take (2 + extlensize + size) (drop p stored)

-- `n != wlen`
abbrev pub is_all : Option ℕ → ℕ → Bool
is_all none size = false
is_all (some n) size = n == size

-- `none` is -1. A buffer too short for the header and the payload is accessed out of bounds.
unfoldable pub socket_client_write_frame : List ℕ → ℕ → ℕ → Bool → M World (Option ℕ)
socket_client_write_frame buffer size opcode fin w =
    if ltb (length buffer) (framemaxheadersize + size)
    then fault
    else (let (n, w') = block_write w.client_fd (assemble buffer size opcode fin) w in
        if is_all n (2 + (length_field size).1 + size)
        then done (some size, w')
        else done (none, close_client w'))

-- Before the descriptor is closed a Close frame goes out, if one is asked for.
unfoldable pub socket_client_close : Bool → M World (Unit {0})
socket_client_close sendclose w = elim w.client_fd [
  | none ↦ done (tt, w)
  | some _ ↦
      if sendclose
      then (socket_client_write_frame (replicate framemaxheadersize 0) 0 opcode_close true
            >>= λ _ w'. done (tt, close_client w'))
          w
      else done (tt, close_client w)
]
