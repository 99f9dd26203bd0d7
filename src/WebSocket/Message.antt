-- ===== src/WebSocket/Message.antt =====
-- `socket_client_read_frame` and `socket_client_sendversion` of src/websocket.h.
pub mod Round
pub mod Reassembly
pub mod Version
use chroagh.Base.{
  ℕ, zero, suc, ◌+◌, ltb, ◌==◌, if◌then◌else◌, Bool, true, false, not, ◌&&◌, ◌||◌, Option, none,
  some, List, [], ◌∷◌, ◌++◌, length, set, take, drop, replicate, M, done, fault, out_of_fuel, ◌>>=◌,
}
use chroagh.WebSocket.State.{World, close_client}
use chroagh.WebSocket.Constants.{framemaxheadersize, opcode_text}
use chroagh.WebSocket.Send.{socket_client_write_frame, socket_client_close}
use chroagh.WebSocket.Receive.{
  Header, socket_client_read_frame_header, socket_client_read_frame_data,
}

-- One round of the loop after the header; `next` is the loop for the rounds that follow. `buffer` is
-- the memory from the pointer on, of which the caller says that it holds `size` bytes.
unfoldable pub after_data :
    (ℕ → List ℕ → M World (Option ℕ × List ℕ))
    → ℕ
    → List ℕ
    → ℕ
    → Bool
    → Option ℕ × List ℕ
    → M World (Option ℕ × List ℕ)
after_data next buflen buffer len fin (none, out) w =
    done ((none, take buflen buffer ++ out), close_client w)
after_data next buflen buffer len fin (some _, out) w =
    let filled = take buflen buffer ++ out in
    if fin then done ((some (buflen + len), filled), w) else next (buflen + len) filled w

unfoldable pub after_header :
    (ℕ → List ℕ → M World (Option ℕ × List ℕ))
    → ℕ
    → ℕ
    → List ℕ
    → Header
    → M World (Option ℕ × List ℕ)
after_header next size buflen buffer h = if h.retry then next buflen buffer else elim h.len [
  | none ↦ λ w. done ((none, buffer), w)
  | some len ↦
      if ltb size (len + buflen)
      then (socket_client_close true >>= λ _ w. done ((none, buffer), w))
      else (socket_client_read_frame_data (drop buflen buffer) len h.maskkey
          >>= after_data next buflen buffer len h.fin)
]

-- The loop of `socket_client_read_frame`, with `fuel` rounds allowed.
unfoldable pub read_frame_loop : ℕ → ℕ → ℕ → List ℕ → M World (Option ℕ × List ℕ)
read_frame_loop zero size buflen buffer w = out_of_fuel
read_frame_loop (suc fuel) size buflen buffer w =
    (socket_client_read_frame_header
        >>= after_header (read_frame_loop fuel size) size buflen buffer)
      w

unfoldable pub socket_client_read_frame : ℕ → List ℕ → ℕ → M World (Option ℕ × List ℕ)
socket_client_read_frame fuel buffer size = read_frame_loop fuel size 0 buffer

-- A C string ends before its first NUL.
abbrev pub c_string : List ℕ → List ℕ
c_string [] = []
c_string (zero ∷ bs) = []
c_string (suc b ∷ bs) = suc b ∷ c_string bs

-- `strcmp(a, b) == 0`
abbrev pub strings_eq : List ℕ → List ℕ → Bool
strings_eq [] [] = true
strings_eq [] (b ∷ bs) = false
strings_eq (a ∷ as') [] = false
strings_eq (a ∷ as') (b ∷ bs) = a == b && strings_eq as' bs

abbrev pub vok : List ℕ
vok = b'V' ∷ b'O' ∷ b'K' ∷ []

-- The reply is a string of at most 255 bytes in `buffer[256]`. With `buflen` -1 the byte before the
-- buffer is written.
unfoldable pub check_reply : Option ℕ → List ℕ → M World (Option ℕ)
check_reply none buffer = λ w. fault
check_reply (some buflen) buffer =
    let ended = set buffer (if buflen == 256 then 255 else buflen) 0 in
    if not (buflen == 3) || not (strings_eq (c_string ended) vok)
    then (socket_client_close true >>= λ _ w. done (none, w))
    else (λ w. done (some 0, w))

unfoldable pub socket_client_sendversion : ℕ → List ℕ → M World (Option ℕ)
socket_client_sendversion fuel version =
    socket_client_write_frame (replicate framemaxheadersize 0 ++ version) (length version)
      opcode_text true
    >>= λ n. elim n [
      | none ↦ λ w. done (none, close_client w)
      | some _ ↦ socket_client_read_frame fuel (replicate 256 0) 256 >>= λ (buflen, buffer).
          check_reply buflen buffer
    ]
