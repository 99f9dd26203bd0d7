-- ===== src/Examples/Client.antt =====
-- The client of host-ext/nacl_src/kiwi.cc at concrete inputs.
use chroagh.Base.{
  ℕ, ◌≤◌, ◌<◌, ◌≡◌, refl, true, false, none, some, List, [], ◌∷◌, map, get_or, arith, replicate,
  text, if◌then◌else◌, ◌+◌, ◌*◌,
}
use chroagh.FbServer.Keys.History.{empty}
use chroagh.FbServer.Packets
use chroagh.FbServer.Packets.{word16}
use chroagh.FbServer.Packets.Decoding.{Packet, encode}
use chroagh.FbServer.Replies.{write_init, not_there, send_binary}
use chroagh.FbServer.Screen.{Turn, Screen, CursorImage, screen_reply, cursor_reply}
use chroagh.WebSocket.State.{World}
use chroagh.Kiwi.State.{plus, inactive, Kiwi}
use chroagh.Kiwi.Sending.{bit}
use chroagh.Kiwi.Input.{keyboard, handle_input_event}
use chroagh.Kiwi.Packets.{input_packets, screen_requests}
use chroagh.Kiwi.Search.{holds}
use chroagh.Kiwi.Search.Shared.{opened, event, received, Leaves, search_key_shared}
use chroagh.Kiwi.Painting.{Scales}
use chroagh.Kiwi.Cursors.{find_scale, cursor_of, scale_of, source_index, pixel_of}
use chroagh.Kiwi.Socket.{
  Frame, frame, on_socket_receive_completion, socket_parse_cursor, keep_cursor,
}
use chroagh.Kiwi.Socket.Replies.{closings, is_accepted, on_socket_receive_completion-closings}
use chroagh.Kiwi.Socket.Attempts.{failures, attempts, endings, failures_lem}
use chroagh.Kiwi.Socket.Shrinking.{socket_parse_cursor-inside, socket_parse_cursor-nearest}
use chroagh.Kiwi.Socket.Agreement.{message, replies_accepted, write_init-refused}

abbrev ready : Kiwi
ready = record {
  has_context = true;
  size_width = 800;
  size_height = 600;
  image = record { width = 800; height = 600; address = 4096; first_word = 0 };
  retry = 0;
  connected = true;
  server_version = text "VF3";
  screen_flying = false;
  target_fps = 30;
  request_token = 1;
  force_refresh = false;
  pending_mouse_move = false;
  mouse_x = 0;
  mouse_y = 0;
  wheel_x = plus 0;
  wheel_y = plus 0;
  search_state = inactive;
  touch_count = 0;
  touch_id = 0;
  cursor_cache = [];
  display = some 1;
  hidpi = false;
  signatures = 7 ∷ 8 ∷ [];
  images = [];
  effects = [];
}

abbrev scales : Scales
scales = record { unscaled = λ n. n; delay = λ fps. some 33 }

abbrev world : World
world = record { client_fd = some 5; incoming = λ fd. []; accepts = λ fd. []; trace = [] }

-- The Search key and a letter go down.
abbrev search_pressed : Kiwi
search_pressed = handle_input_event (keyboard true 91 (text "OSLeft")) ready

abbrev letter_pressed : Kiwi
letter_pressed = handle_input_event (keyboard true 65 (text "KeyA")) search_pressed

abbrev server : Packets.Session
server = record { world = world; keys = empty; input = [] }

-- A screen reply without its last byte.
abbrev short_reply : Frame
short_reply = record { bytes = b'S' ∷ 0 ∷ 32 ∷ 3 ∷ 88 ∷ 2 ∷ 0 ∷ 0 ∷ 0 ∷ []; behind = 0 ∷ [] }

on_socket_receive_completion-closings_example :
    closings (on_socket_receive_completion scales (frame short_reply) ready).effects
    ≡ closings [] + (if is_accepted true short_reply then 0 else 1)
on_socket_receive_completion-closings_example =
    on_socket_receive_completion-closings scales short_reply ready (λ e. absurd (omega (arith, e)))

failures_lem_example :
    (attempts (failures 4 ready).effects ≡ 2) × (endings (failures 4 ready).effects ≡ 2)
failures_lem_example = failures_lem 4 ready refl refl

-- A cursor of 34 by 2 pixels, which becomes one of 17 by 1.
abbrev wide_cursor : List ℕ
wide_cursor = b'P' ∷ 34 ∷ 0 ∷ 2 ∷ 0 ∷ 0 ∷ 0 ∷ 0 ∷ 0 ∷ 9 ∷ 0 ∷ 0 ∷ 0 ∷ replicate 272 5

halved : scale_of 34 2 ≡ 2
unfolding find_scale
halved = refl

short : 0 < (cursor_of wide_cursor).height
short = rw halved (omega arith)

wide : 16 < (cursor_of wide_cursor).width
wide = rw halved (omega arith)

socket_parse_cursor-inside_example :
    (socket_parse_cursor (record { bytes = wide_cursor; behind = 1 ∷ [] }) ready
      ≡ (true, keep_cursor (cursor_of wide_cursor) ready))
    × ((cursor_of wide_cursor).width ≤ 32)
    × ((cursor_of wide_cursor).height ≤ 32)
    × (source_index (scale_of 34 2) (cursor_of wide_cursor).width 0 16 < 68)
    × (get_or (cursor_of wide_cursor).pixels (0 * (cursor_of wide_cursor).width + 16) 0
        ≡ pixel_of wide_cursor (source_index (scale_of 34 2) (cursor_of wide_cursor).width 0 16))
socket_parse_cursor-inside_example =
    socket_parse_cursor-inside wide_cursor (1 ∷ []) ready 0 16 refl (omega arith) (omega arith)
      (omega arith) short wide

socket_parse_cursor-nearest_example :
    get_or (cursor_of wide_cursor).pixels (0 * (cursor_of wide_cursor).width + 16) 0
    ≡ pixel_of wide_cursor (scale_of 34 2 * 0 * 34 + scale_of 34 2 * 16)
socket_parse_cursor-nearest_example =
    socket_parse_cursor-nearest wide_cursor [] ready 0 16 refl (omega arith) (omega arith)
      (omega arith) short wide (rw halved refl)

abbrev turn : Turn
turn = record {
  allocates = true;
  bytes_per_line = λ n. 4 * n;
  mapped = [];
  damaged = true;
  cursors = 9 ∷ [];
  cursor = none;
  system = record {
    reply = λ calls paddr sig. [];
    is_pid = λ name. true;
    open_file = λ calls file. none;
    mmap = λ calls size fd. none;
    first_word = λ calls m. none;
  };
  strtol = λ digits. none;
}

abbrev screen : Screen
screen = record { shm = true; refresh = false; width = 800; height = 600; paddr = 4096; sig = 7 }

abbrev arrow : CursorImage
arrow = record { width = 2; height = 1; xhot = 0; yhot = 0; serial = 9; pixels = 3 ∷ 4 ∷ [] }

replies_accepted_example :
    (closings
        (on_socket_receive_completion scales
          (frame (message (screen_reply turn screen true false)))
          ready).effects
      ≡ 0)
    × (closings
          (on_socket_receive_completion scales (frame (message (cursor_reply arrow))) ready).effects
        ≡ 0)
replies_accepted_example =
    replies_accepted scales ready refl turn screen true false arrow refl (omega arith) (omega arith)
      (omega arith)

write_init-refused_example :
    (m : List ℕ) × (write_init not_there world ≡ send_binary m world)
    × (closings (on_socket_receive_completion scales (frame (message m)) ready).effects ≡ 1)
write_init-refused_example = write_init-refused true world scales ready refl

-- Then there is a reply for the screen without an update.
abbrev answered : Kiwi
answered =
    on_socket_receive_completion scales (frame (message (screen_reply turn screen false false)))
      letter_pressed

search_key_shared_example :
    (ps : List Packet) × (input_packets answered.effects ≡ map encode ps)
    × Leaves [] server ps (holds answered.search_state)
    × (screen_requests answered.effects ≤ 1 + bit answered.screen_flying)
search_key_shared_example =
    search_key_shared [] server 1 0 ready answered refl refl refl refl refl (
      received 0 0 scales (frame (message (screen_reply turn screen false false))) letter_pressed (
        event 0 0 (keyboard true 65 (text "KeyA")) search_pressed (λ e. absurd (ground (arith, e)))
          (event 0 0 (keyboard true 91 (text "OSLeft")) ready (λ e. refl) opened)))
