-- ===== src/Kiwi/Sending.antt =====
-- Sending packets: `SocketSend`, `RequestScreen`, `SetTargetFPS` and the `Send` functions of
-- host-ext/nacl_src/kiwi.cc.
use chroagh.Base.{
  ℕ, ◌+◌, ◌*◌, ◌%◌, ◌==◌, ltb, not, ◌&&◌, ◌||◌, if◌then◌else◌, Bool, true, false, List, [], ◌∷◌,
  ◌++◌, text, little_endian,
}
use chroagh.WebSocket.Message.{strings_eq}
use chroagh.Kiwi.State.{
  SearchState, inactive, up_first, up, down, Kiwi, Image, sent, emit, resize_message,
}
use chroagh.Kiwi.Keycodes.{get_code}

abbrev pub bit : Bool → ℕ
bit b = if b then 1 else 0

-- struct mousemove, key, key_vf1, mouseclick, resolution and screen
abbrev pub mousemove : ℕ → ℕ → List ℕ
mousemove x y = b'M' ∷ (little_endian 2 x ++ little_endian 2 y)

abbrev pub key_packet : Bool → ℕ → List ℕ
key_packet d code = b'K' ∷ bit d ∷ code % 256 ∷ []

abbrev pub keysym_packet : Bool → ℕ → List ℕ
keysym_packet d keysym = b'K' ∷ bit d ∷ little_endian 4 keysym

abbrev pub click_packet : Bool → ℕ → List ℕ
click_packet d button = b'C' ∷ bit d ∷ button % 256 ∷ []

abbrev pub resolution_packet : ℕ → ℕ → List ℕ
resolution_packet width height = b'R' ∷ (little_endian 2 width ++ little_endian 2 height)

abbrev pub screen_packet : Bool → Image → List ℕ
screen_packet refresh image =
    b'S'
    ∷ (1 + 2 * bit refresh)
    ∷ (little_endian 2 image.width
        ++ (little_endian 2 image.height
            ++ (little_endian 8 image.address ++ little_endian 8 image.first_word)))

abbrev pub flush_move : Kiwi → Kiwi
flush_move s = record (emit (sent (mousemove s.mouse_x s.mouse_y)) s) { pending_mouse_move = false }

abbrev pub flush_if : Bool → Kiwi → Kiwi
flush_if flush s = if flush then flush_move s else s

-- The Boolean is whether there is a connection, here and below.
abbrev pub send_if : Bool → List ℕ → Bool → Kiwi → Kiwi
send_if false packet flushmouse s = s
send_if true packet flushmouse s =
    emit (sent packet) (flush_if (s.pending_mouse_move && flushmouse) s)

unfoldable pub socket_send : List ℕ → Bool → Kiwi → Kiwi
socket_send packet flushmouse s = send_if s.connected packet flushmouse s

abbrev pub next_signature : List ℕ → ℕ
next_signature [] = 0
next_signature (x ∷ xs) = x

abbrev pub tail : List ℕ → List ℕ
tail [] = []
tail (x ∷ xs) = xs

-- The first word of the image becomes the signature.
abbrev pub sign_image : Kiwi → Kiwi
sign_image s = record s {
  screen_flying = true;
  request_token = s.request_token + 1;
  force_refresh = false;
  image = record s.image { first_word = next_signature s.signatures };
  signatures = tail s.signatures;
}

abbrev pub send_request : Kiwi → Kiwi
send_request s =
    let s1 = sign_image s in socket_send (screen_packet s.force_refresh s1.image) true s1

-- The second Boolean is whether the token is old or a request is flying.
abbrev pub request_if : Bool → Bool → Kiwi → Kiwi
request_if false refused s = s
request_if true true s = s
request_if true false s = send_request s

unfoldable pub request_screen : ℕ → Kiwi → Kiwi
request_screen token s =
    request_if s.connected (not (token == s.request_token) || s.screen_flying) s

-- A frame is asked for at once when the rate increases.
abbrev pub raise_if : Bool → Kiwi → Kiwi
raise_if false s = s
raise_if true s = request_screen s.request_token (record s { force_refresh = true })

unfoldable pub set_target_fps : ℕ → Kiwi → Kiwi
set_target_fps fps s = record (raise_if (ltb s.target_fps fps) s) { target_fps = fps }

abbrev pub full_fps : ℕ
full_fps = 30

abbrev pub is_vf1 : Kiwi → Bool
is_vf1 s = strings_eq s.server_version (text "VF1")

unfoldable pub send_key_sym : ℕ → Bool → Kiwi → Kiwi
send_key_sym keysym d s = set_target_fps full_fps (socket_send (keysym_packet d keysym) true s)

unfoldable pub send_key_code : ℕ → Bool → Kiwi → Kiwi
send_key_code code d s = set_target_fps full_fps (socket_send (key_packet d code) true s)

-- The first Boolean is whether the server has the first version.
abbrev pub search_key_for : Bool → Bool → Kiwi → Kiwi
search_key_for true d s = send_key_sym 0xffeb d s
search_key_for false d s = send_key_code (get_code (text "OSLeft") false) d s

unfoldable pub send_search_key : Bool → Kiwi → Kiwi
send_search_key d s = search_key_for (is_vf1 s) d s

abbrev pub is_raised : SearchState → Bool
is_raised up_first = true
is_raised up = true
is_raised inactive = false
is_raised down = false

-- The Search key is pressed first if it is waiting for that.
abbrev pub press_if : Bool → Kiwi → Kiwi
press_if false s = s
press_if true s = record (send_search_key true s) { search_state = down }

abbrev pub press_search : Bool → Kiwi → Kiwi
press_search d s = press_if (d && is_raised s.search_state) s

unfoldable pub send_click : ℕ → Bool → Kiwi → Kiwi
send_click button d s =
    set_target_fps full_fps (socket_send (click_packet d button) true (press_search d s))

unfoldable pub change_resolution : (ℕ → ℕ) → ℕ → ℕ → Kiwi → Kiwi
change_resolution unscaled width height s =
    if s.connected
    then socket_send (resolution_packet width height) false s
    else emit (resize_message (unscaled width) (unscaled height)) s
