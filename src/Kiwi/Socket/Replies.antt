-- ===== src/Kiwi/Socket/Replies.antt =====
-- Which messages of the server end the connection.
use chroagh.Base.{
  ℕ, zero, suc, ◌+◌, ◌*◌, ◌%◌, ◌^◌, ◌≡◌, ◌==◌, ==_iff, ◌<◌, refl, ap, ◌∙◌, inl, inr, Bool-cases,
  ltb, not, ◌&&◌, ◌||◌, if◌then◌else◌, Bool, true, false, Option, none, some, List, [], ◌∷◌, length,
  get_or, text, arith,
}
use chroagh.WebSocket.Message.{c_string, strings_eq}
use chroagh.FbServer.Packets.{word16}
use chroagh.Kiwi.State.{
  Kiwi, Cursor, Effect, control, resize_message, closes, calls_after, flushes, socket_receive,
  overrun, emit,
}
use chroagh.Kiwi.Sending.{
  flush_if, send_if, socket_send, resolution_packet, sign_image, request_if, request_screen,
  change_resolution,
}
use chroagh.Kiwi.Painting.{Scales, paint, ask_again, new_image, on_flush}
use chroagh.Kiwi.Cursors.{word32, cursor_of, reads_beyond}
use chroagh.Kiwi.Socket.{
  Frame, frame, check_size, when_right, data_of, check_version, welcome, version_for,
  socket_parse_version, flag, wait_for_frame, frame_part, find_cursor, use_cursor, cursor_part,
  show_reply, socket_parse_screen, keep_cursor, take_cursor, socket_parse_cursor, show_resolution,
  socket_parse_resolution, close_unless, parse_reply, parse_for, on_socket_receive_completion,
}

-- The calls that close the connection.
abbrev pub closings : List Effect → ℕ
closings [] = 0
closings (closes reason ∷ es) = suc (closings es)
closings (_ ∷ es) = closings es

-- A message is accepted: the version, in a new connection; then the three replies with their sizes.
abbrev pub is_cursor_reply : List ℕ → Bool
is_cursor_reply bytes =
    not (ltb (length bytes) 13) && (length bytes == 13 + 4 * word16 bytes 1 * word16 bytes 3)

abbrev pub is_reply : ℕ → List ℕ → Bool
is_reply type bytes =
    if type == b'S'
    then length bytes == 10
    else if type == b'P'
    then is_cursor_reply bytes
    else if type == b'R'
    then length bytes == 5
    else false

abbrev pub is_version : List ℕ → Bool
is_version version = strings_eq version (text "VF3") || strings_eq version (text "VF1")

abbrev pub is_accepted : Bool → Frame → Bool
is_accepted connected f =
    let type = get_or (data_of f) 0 0 in
    if type == b'V'
    then not connected && is_version (c_string (data_of f))
    else connected && is_reply type f.bytes

-- Nothing else closes the connection.
abbrev Stays : Kiwi → Kiwi → Type 0
Stays s t = closings t.effects ≡ closings s.effects

if-Stays : (b : Bool) (s t u : Kiwi) → Stays s t → Stays s u → Stays s (if b then t else u)
if-Stays true s t u h h' = h
if-Stays false s t u h h' = h'

flush-Stays : (b : Bool) (s : Kiwi) → Stays s (flush_if b s)
flush-Stays true s = refl
flush-Stays false s = refl

send_if-Stays : (c : Bool) (packet : List ℕ) (f : Bool) (s : Kiwi) → Stays s (send_if c packet f s)
send_if-Stays false packet f s = refl
send_if-Stays true packet f s = flush-Stays (s.pending_mouse_move && f) s

socket_send-Stays : (packet : List ℕ) (f : Bool) (s : Kiwi) → Stays s (socket_send packet f s)
unfolding socket_send
socket_send-Stays packet f s = send_if-Stays s.connected packet f s

request_if-Stays : (c r : Bool) (s : Kiwi) → Stays s (request_if c r s)
request_if-Stays false r s = refl
request_if-Stays true true s = refl
request_if-Stays true false s = socket_send-Stays _ true (sign_image s)

request_screen-Stays : (token : ℕ) (s : Kiwi) → Stays s (request_screen token s)
unfolding request_screen
request_screen-Stays token s = request_if-Stays s.connected _ s

paint-Stays : (blank : Bool) (s : Kiwi) → Stays s (paint blank s)
unfolding paint
paint-Stays blank s = if-Stays s.has_context s (emit (flushes blank) _) s refl refl

ask_again-Stays : (fps : ℕ) (delay : Option ℕ) (s : Kiwi) → Stays s (ask_again fps delay s)
ask_again-Stays zero delay s = refl
ask_again-Stays (suc fps) (some ms) s = refl
ask_again-Stays (suc fps) none s = request_screen-Stays s.request_token s

on_flush-Stays : (scales : Scales) (s : Kiwi) → Stays s (on_flush scales s)
unfolding on_flush
on_flush-Stays scales s = ask_again-Stays s.target_fps (scales.delay s.target_fps) (new_image s)

change_resolution-Stays : (u : ℕ → ℕ) (w h : ℕ) (s : Kiwi) → Stays s (change_resolution u w h s)
unfolding change_resolution
change_resolution-Stays u w h s =
    if-Stays s.connected s (socket_send (resolution_packet w h) false s)
      (emit (resize_message (u w) (u h)) s) (socket_send-Stays (resolution_packet w h) false s) refl

welcome-Stays : (scales : Scales) (s : Kiwi) → Stays s (welcome scales s)
welcome-Stays scales s =
    let t = socket_send (text "VOK") false (record s { connected = true }) in
    let t' = emit (control (text "connected") (text "Version received")) t in
    on_flush-Stays scales (change_resolution scales.unscaled t'.size_width t'.size_height t')
    ∙ change_resolution-Stays scales.unscaled t'.size_width t'.size_height t'
    ∙ socket_send-Stays (text "VOK") false (record s { connected = true })

wait_for_frame-Stays : (fps : ℕ) (s : Kiwi) → Stays s (wait_for_frame fps s)
wait_for_frame-Stays zero s = refl
wait_for_frame-Stays (suc fps) s = refl

frame_part-Stays : (updated missing : Bool) (s : Kiwi) → Stays s (frame_part updated missing s)
frame_part-Stays true false s = paint-Stays false s
frame_part-Stays true true s = paint-Stays true s
frame_part-Stays false missing s =
    wait_for_frame-Stays s.target_fps (record s { screen_flying = false })

use_cursor-Stays : (c : Option Cursor) (s : Kiwi) → Stays s (use_cursor c s)
use_cursor-Stays none s = socket_send-Stays (text "P") false s
use_cursor-Stays (some c) s = refl

cursor_part-Stays :
    (updated : Bool) (serial : ℕ) (s : Kiwi) → Stays s (cursor_part updated serial s)
cursor_part-Stays false serial s = refl
cursor_part-Stays true serial s = use_cursor-Stays (find_cursor serial s.cursor_cache) s

show_reply-Stays : (bytes : List ℕ) (s : Kiwi) → Stays s (show_reply bytes s)
show_reply-Stays bytes s =
    let t = frame_part (flag 2 bytes) (flag 1 bytes) s in
    cursor_part-Stays (flag 3 bytes) (word32 bytes 6) t
    ∙ frame_part-Stays (flag 2 bytes) (flag 1 bytes) s

-- The verdict on a message.
abbrev Judged : Kiwi → Bool → Bool × Kiwi → Type 0
Judged s ok r = (r.0 ≡ ok) × Stays s r.1

when_right-Judged :
    (f : Kiwi → Kiwi) (s : Kiwi) (ok : Bool) (r : Bool × Kiwi)
    → ((t : Kiwi) → Stays t (f t))
    → Judged s ok r
    → Judged s ok (when_right f r)
when_right-Judged f s ok (true, t) stays (e, h) = (e, stays t ∙ h)
when_right-Judged f s ok (false, t) stays (e, h) = (e, h)

if-Judged :
    (b c d : Bool) (s : Kiwi) (q r : Bool × Kiwi)
    → Judged s c q
    → Judged s d r
    → Judged s (if b then c else d) (if b then q else r)
if-Judged true c d s q r h h' = h
if-Judged false c d s q r h h' = h'

when-Judged :
    (b c d : Bool) (s : Kiwi) (q r : Bool × Kiwi)
    → (b ≡ true → Judged s c q)
    → Judged s d r
    → Judged s (if b then c else d) (if b then q else r)
when-Judged true c d s q r h h' = h refl
when-Judged false c d s q r h h' = h'

check_size-Judged :
    (size target : ℕ) (s : Kiwi) → Judged s (size == target) (check_size size target s)
unfolding check_size
check_size-Judged size target s = elim (Bool-cases (size == target)) [
  | inl e ↦ rw e (refl, refl)
  | inr e ↦ rw e (refl, refl)
]

check_version-Judged :
    (version : List ℕ) (s : Kiwi) → Judged s (is_version version) (check_version version s)
check_version-Judged version s = elim (Bool-cases (strings_eq version (text "VF3"))) [
  | inl e ↦ rw e (refl, refl)
  | inr e ↦ elim (Bool-cases (strings_eq version (text "VF1"))) [
    | inl e' ↦ rw (e, e') (refl, refl)
    | inr e' ↦ rw (e, e') (refl, refl)
  ]
]

version_for-Judged :
    (c : Bool) (scales : Scales) (f : Frame) (s : Kiwi)
    → Judged s (not c && is_version (c_string (data_of f))) (version_for c scales f s)
version_for-Judged true scales f s = (refl, refl)
version_for-Judged false scales f s =
    let version = c_string (data_of f) in
    let t : Kiwi = record s { server_version = version } in
    when_right-Judged (welcome scales) s (is_version version) (check_version version t)
      (welcome-Stays scales) (check_version-Judged version t)

parse_screen-Judged :
    (f : Frame) (s : Kiwi) → Judged s (length f.bytes == 10) (socket_parse_screen f s)
unfolding socket_parse_screen
parse_screen-Judged f s =
    when_right-Judged (show_reply f.bytes) s (length f.bytes == 10)
      (check_size (length f.bytes) 10 s) (show_reply-Stays f.bytes)
      (check_size-Judged (length f.bytes) 10 s)

parse_cursor-Judged :
    (f : Frame) (s : Kiwi)
    → 13 + 4 * word16 f.bytes 1 * word16 f.bytes 3 < 2 ^ 32
    → Judged s (is_cursor_reply f.bytes) (socket_parse_cursor f s)
unfolding socket_parse_cursor
parse_cursor-Judged f s small =
    let target = 13 + 4 * word16 f.bytes 1 * word16 f.bytes 3 in
    let whole : target % 2 ^ 32 ≡ target = omega (arith, small) in
    let taken : (t : Kiwi) → Stays t (take_cursor f.bytes t) = λ t.
      if-Stays (reads_beyond f.bytes) t (emit overrun t) (keep_cursor (cursor_of f.bytes) t) refl
        refl in
    elim (Bool-cases (ltb (length f.bytes) 13)) [
      | inl e ↦ rw e (refl, refl)
      | inr e ↦
          rw (e, whole)
            (when_right-Judged (take_cursor f.bytes) s (length f.bytes == target)
              (check_size (length f.bytes) target s) taken
              (check_size-Judged (length f.bytes) target s))
    ]

parse_resolution-Judged :
    (scales : Scales) (f : Frame) (s : Kiwi)
    → Judged s (length f.bytes == 5) (socket_parse_resolution scales f s)
unfolding socket_parse_resolution
parse_resolution-Judged scales f s =
    when_right-Judged (show_resolution scales f.bytes) s (length f.bytes == 5)
      (check_size (length f.bytes) 5 s) (λ t. refl) (check_size-Judged (length f.bytes) 5 s)

parse_reply-Judged :
    (type : ℕ) (scales : Scales) (f : Frame) (s : Kiwi)
    → (type ≡ b'P' → 13 + 4 * word16 f.bytes 1 * word16 f.bytes 3 < 2 ^ 32)
    → Judged s (is_reply type f.bytes) (parse_reply type scales f s)
parse_reply-Judged type scales f s small =
    if-Judged (type == b'S') _ _ s _ _ (parse_screen-Judged f s) (
      when-Judged (type == b'P') _ _ s _ _
        (λ e. parse_cursor-Judged f s (small ((==_iff type b'P').0 e)))
        (if-Judged (type == b'R') _ _ s _ _ (parse_resolution-Judged scales f s) (refl, refl)))

parse_for-Judged :
    (c : Bool) (type : ℕ) (scales : Scales) (f : Frame) (s : Kiwi)
    → (type ≡ b'P' → 13 + 4 * word16 f.bytes 1 * word16 f.bytes 3 < 2 ^ 32)
    → Judged s (c && is_reply type f.bytes) (parse_for c type scales f s)
parse_for-Judged true type scales f s small = parse_reply-Judged type scales f s small
parse_for-Judged false type scales f s small = (refl, refl)

close_unless_lem :
    (reason : List ℕ) (s : Kiwi) (ok : Bool) (r : Bool × Kiwi)
    → Judged s ok r
    → closings (close_unless reason r).effects ≡ closings s.effects + (if ok then 0 else 1)
close_unless_lem reason s ok (true, t) (e, h) = rw⁻¹ e (h ∙ omega arith)
close_unless_lem reason s ok (false, t) (e, h) = rw⁻¹ e (ap suc h ∙ omega arith)

-- A message closes the connection once, unless it is accepted: the version VF3 or VF1 while there
-- is no connection, or else, with one, a reply for the screen, a cursor or a resolution of the right
-- length. An accepted one closes nothing. A cursor message is one whose size, with 4 bytes for each
-- pixel, is below 2 ^ 32 bytes.
pub on_socket_receive_completion-closings :
    (scales : Scales) (f : Frame) (s : Kiwi)
    → (get_or (data_of f) 0 0 ≡ b'P' → 13 + 4 * word16 f.bytes 1 * word16 f.bytes 3 < 2 ^ 32)
    → closings (on_socket_receive_completion scales (frame f) s).effects
      ≡ closings s.effects + (if is_accepted s.connected f then 0 else 1)
unfolding on_socket_receive_completion socket_parse_version
on_socket_receive_completion-closings scales f s small =
    let t = emit (calls_after 0 socket_receive) s in
    let type = get_or (data_of f) 0 0 in
    elim (Bool-cases (type == b'V')) [
      | inl e ↦ rw e (
          close_unless_lem (text "Incorrect version.") t
            (not s.connected && is_version (c_string (data_of f)))
            (version_for s.connected scales f t) (version_for-Judged s.connected scales f t))
      | inr e ↦ rw e (
          close_unless_lem (text "Invalid payload.") t (s.connected && is_reply type f.bytes)
            (parse_for s.connected type scales f t)
            (parse_for-Judged s.connected type scales f t small))
    ]
