-- ===== src/Kiwi/Socket.antt =====
-- The connection with the framebuffer server: `SocketConnect` to `OnSocketReceiveCompletion` of
-- host-ext/nacl_src/kiwi.cc.
pub mod Replies
pub mod Attempts
pub mod Shrinking
pub mod Flow
pub mod Agreement
use chroagh.Base.{
  ℕ, zero, suc, ◌+◌, ◌*◌, ◌/◌, ◌%◌, ◌^◌, ◌==◌, ltb, not, ◌&&◌, ◌||◌, if◌then◌else◌, Bool, true,
  false, Option, none, some, List, [], ◌∷◌, ◌++◌, length, get_or, text,
}
use chroagh.Kiwi.Painting.{
  Scales, ask_again, blank_if, blank_word, new_image, next_address, on_flush, paint, rest_of,
}
use chroagh.Kiwi.Cursors.{
  cursor_of, reads_beyond, find_scale, from, joined, pixel_of, scale_of, scaled_cursor, shrink,
  source_index, word32,
}
use chroagh.WebSocket.Message.{c_string, strings_eq}
use chroagh.FbServer.Packets.{word16}
use chroagh.Kiwi.State.{
  Kiwi, Image, Cursor, says, status, warning, error, control, resize_message, connects, receives,
  closes, calls_after, socket_connect, socket_receive, request_screen_again, flushes, cursor_set,
  overrun, emit,
}
use chroagh.Kiwi.Sending.{socket_send, request_screen, change_resolution}

-- A message of the server, and the memory after it. The text of a text message ends with a 0 there.
pub record Frame : Type 0 where
  pub bytes : List ℕ
  pub behind : List ℕ

pub data Received : Type 0 where
  in_progress : Received
  failed : Received
  frame : Frame → Received

abbrev pub port_base : ℕ
port_base = 30010

abbrev pub connect_to : Option ℕ → Kiwi → Kiwi
connect_to none s = emit (says error) s
connect_to (some display) s = emit (says status) (emit (connects (port_base + display)) s)

unfoldable pub socket_connect_to : Kiwi → Kiwi
socket_connect_to s = connect_to s.display s

abbrev pub max_retry : ℕ
max_retry = 3

unfoldable pub on_socket_connect_completion : Bool → Kiwi → Kiwi
on_socket_connect_completion true s =
    emit (says status) (emit receives (record s { cursor_cache = [] }))
on_socket_connect_completion false s =
    let t : Kiwi = record s { retry = s.retry + 1 } in
    if ltb t.retry max_retry
    then emit (calls_after 1000 socket_connect) (emit (says status) t)
    else emit (control (text "disconnected") (text "Connection failed")) (emit (says error) t)

abbrev pub socket_close : List ℕ → Kiwi → Kiwi
socket_close reason s = emit (closes reason) s

unfoldable pub on_socket_closed : Kiwi → Kiwi
on_socket_closed s =
    let t = emit (control (text "disconnected") (text "Socket closed")) (emit (says status) s) in
    paint true (record t { connected = false; screen_flying = false })

-- The functions below give whether the message is right.
unfoldable pub check_size : ℕ → ℕ → Kiwi → Bool × Kiwi
check_size size target s = if size == target then (true, s) else (false, emit (says error) s)

abbrev pub when_right : (Kiwi → Kiwi) → Bool × Kiwi → Bool × Kiwi
when_right f (true, s) = (true, f s)
when_right f (false, s) = (false, s)

abbrev pub data_of : Frame → List ℕ
data_of f = f.bytes ++ f.behind

abbrev pub check_version : List ℕ → Kiwi → Bool × Kiwi
check_version version s =
    if strings_eq version (text "VF3")
    then (true, s)
    else if strings_eq version (text "VF1")
    then (true, emit (says warning) s)
    else (false, emit (says error) s)

abbrev pub welcome : Scales → Kiwi → Kiwi
welcome scales s =
    let t = socket_send (text "VOK") false (record s { connected = true }) in
    let t' = emit (control (text "connected") (text "Version received")) t in
    on_flush scales (change_resolution scales.unscaled t'.size_width t'.size_height t')

-- The Boolean is whether there is a connection.
abbrev pub version_for : Bool → Scales → Frame → Kiwi → Bool × Kiwi
version_for true scales f s = (false, emit (says error) s)
version_for false scales f s =
    let version = c_string (data_of f) in
    when_right (welcome scales) (check_version version (record s { server_version = version }))

unfoldable pub socket_parse_version : Scales → Frame → Kiwi → Bool × Kiwi
socket_parse_version scales f s = version_for s.connected scales f s

abbrev pub flag : ℕ → List ℕ → Bool
flag n bytes = get_or bytes 1 0 / 2 ^ n % 2 == 1

abbrev pub wait_for_frame : ℕ → Kiwi → Kiwi
wait_for_frame zero s = s
wait_for_frame (suc fps) s =
    emit (calls_after (1000 / suc fps) (request_screen_again s.request_token)) s

-- Whether there is a frame, and whether the memory was not found.
abbrev pub frame_part : Bool → Bool → Kiwi → Kiwi
frame_part true false s = paint false s
frame_part true true s = record (paint true s) { force_refresh = true }
frame_part false shmfailed s = wait_for_frame s.target_fps (record s { screen_flying = false })

abbrev pub find_cursor : ℕ → List Cursor → Option Cursor
find_cursor serial [] = none
find_cursor serial (c ∷ cs) = if c.serial == serial then some c else find_cursor serial cs

abbrev pub use_cursor : Option Cursor → Kiwi → Kiwi
use_cursor none s = socket_send (text "P") false s
use_cursor (some c) s = emit (cursor_set c.serial) s

abbrev pub cursor_part : Bool → ℕ → Kiwi → Kiwi
cursor_part false serial s = s
cursor_part true serial s = use_cursor (find_cursor serial s.cursor_cache) s

abbrev pub show_reply : List ℕ → Kiwi → Kiwi
show_reply bytes s =
    cursor_part (flag 3 bytes) (word32 bytes 6) (frame_part (flag 2 bytes) (flag 1 bytes) s)

unfoldable pub socket_parse_screen : Frame → Kiwi → Bool × Kiwi
socket_parse_screen f s = when_right (show_reply f.bytes) (check_size (length f.bytes) 10 s)

-- The newest entry of the cache for a serial number counts.
abbrev pub keep_cursor : Cursor → Kiwi → Kiwi
keep_cursor c s = emit (cursor_set c.serial) (record s { cursor_cache = c ∷ s.cursor_cache })

abbrev pub take_cursor : List ℕ → Kiwi → Kiwi
take_cursor bytes s = if reads_beyond bytes then emit overrun s else keep_cursor (cursor_of bytes) s

unfoldable pub socket_parse_cursor : Frame → Kiwi → Bool × Kiwi
socket_parse_cursor f s =
    if ltb (length f.bytes) 13
    then (false, emit (says error) s)
    else when_right (take_cursor f.bytes)
        (check_size (length f.bytes) ((13 + 4 * word16 f.bytes 1 * word16 f.bytes 3) % 2 ^ 32) s)

abbrev pub show_resolution : Scales → List ℕ → Kiwi → Kiwi
show_resolution scales bytes s =
    record (emit
      (resize_message (scales.unscaled (word16 bytes 1)) (scales.unscaled (word16 bytes 3))) s) {
        force_refresh = true;
      }

unfoldable pub socket_parse_resolution : Scales → Frame → Kiwi → Bool × Kiwi
socket_parse_resolution scales f s =
    when_right (show_resolution scales f.bytes) (check_size (length f.bytes) 5 s)

abbrev pub close_unless : List ℕ → Bool × Kiwi → Kiwi
close_unless reason (true, s) = s
close_unless reason (false, s) = socket_close reason s

-- The switch on the first byte.
abbrev pub parse_reply : ℕ → Scales → Frame → Kiwi → Bool × Kiwi
parse_reply type scales f s =
    if type == b'S'
    then socket_parse_screen f s
    else if type == b'P'
    then socket_parse_cursor f s
    else if type == b'R'
    then socket_parse_resolution scales f s
    else (false, emit (says error) s)

-- The Boolean is whether there is a connection.
abbrev pub parse_for : Bool → ℕ → Scales → Frame → Kiwi → Bool × Kiwi
parse_for false type scales f s = (false, emit (says error) s)
parse_for true type scales f s = parse_reply type scales f s

abbrev pub handle_frame : Scales → Frame → Kiwi → Kiwi
handle_frame scales f s =
    let type = get_or (data_of f) 0 0 in
    if type == b'V'
    then close_unless (text "Incorrect version.") (socket_parse_version scales f s)
    else close_unless (text "Invalid payload.") (parse_for s.connected type scales f s)

unfoldable pub on_socket_receive_completion : Scales → Received → Kiwi → Kiwi
on_socket_receive_completion scales in_progress s = s
on_socket_receive_completion scales failed s = socket_close (text "Receive error.") s
on_socket_receive_completion scales (frame f) s =
    handle_frame scales f (emit (calls_after 0 socket_receive) s)
