-- ===== src/FbServer/Packets.antt =====
-- Packets of the extension to src/fbserver.c: `check_size`, and the cases of `main` for keys, clicks,
-- moves of the mouse, and the release of all keys.
pub mod Decoding
pub mod Refusing
pub mod Typing
use chroagh.Base.{
  ℕ, ◌+◌, ◌*◌, ◌%◌, ◌==◌, not, ◌||◌, if◌then◌else◌, Bool, true, false, Option, none, some, List, [],
  ◌∷◌, get_or, Outcome, M, done, exited, aborted, fault, out_of_fuel, ◌>>=◌,
}
use chroagh.WebSocket.State.{World}
use chroagh.WebSocket.Send.{socket_client_close}
use chroagh.FbServer.Keys.{
  KeyButtonType, mouse, keyboard, KeyButton, Keys, kb_add, kb_remove, kb_release_all,
}

-- The events faked with XTest.
pub data Input : Type 0 where
  fake_key : ℕ → Bool → Input
  fake_button : ℕ → Bool → Input
  fake_motion : ℕ → ℕ → Input

-- The globals of src/websocket.h, the pressed keys, and the faked events, the newest first.
pub record Session : Type 0 where
  pub world : World
  pub keys : Keys
  pub input : List Input

abbrev pub with_world : {A : Type 0} → Session → Outcome (A × World) → Outcome (A × Session)
with_world s (done (a, w)) = done (a, record s { world = w })
with_world s (exited n) = exited n
with_world s aborted = aborted
with_world s fault = fault
with_world s out_of_fuel = out_of_fuel

abbrev pub with_keys : {A : Type 0} → Session → Outcome (A × Keys) → Outcome (A × Session)
with_keys s (done (a, k)) = done (a, record s { keys = k })
with_keys s (exited n) = exited n
with_keys s aborted = aborted
with_keys s fault = fault
with_keys s out_of_fuel = out_of_fuel

abbrev pub on_keys : M Keys (Unit {0}) → M Session (Unit {0})
on_keys m s = with_keys s (m s.keys)

unfoldable pub check_size : ℕ → ℕ → M Session Bool
check_size length target =
    if not (length == target)
    then ((λ s. with_world s (socket_client_close false s.world)) >>= λ _ s. done (false, s))
    else (λ s. done (true, s))

abbrev pub fake : Input → M Session (Unit {0})
fake i s = done (tt, record s { input = i ∷ s.input })

abbrev pub add_or_remove : Bool → KeyButton → M Session (Unit {0})
add_or_remove down k = if down then on_keys (kb_add k) else on_keys (kb_remove k)

-- The lowest bit of the second byte.
abbrev pub down_bit : List ℕ → Bool
down_bit buffer = get_or buffer 1 0 % 2 == 1

-- A little-endian `uint16_t` at an offset.
abbrev pub word16 : List ℕ → ℕ → ℕ
word16 buffer at = get_or buffer at 0 + 256 * get_or buffer (at + 1) 0

abbrev pub if_size : M Session (Unit {0}) → Bool → M Session (Unit {0})
if_size m ok = if ok then m else (λ s. done (tt, s))

abbrev pub key_case : List ℕ → ℕ → M Session (Unit {0})
key_case buffer length =
    let code = get_or buffer 2 0 in
    let down = down_bit buffer in
    check_size length 3
    >>= if_size (
        fake (fake_key code down) >>= λ _.
        add_or_remove down (record { type = keyboard; code = code }))

abbrev pub click_case : List ℕ → ℕ → M Session (Unit {0})
click_case buffer length =
    let code = get_or buffer 2 0 in
    let down = down_bit buffer in
    check_size length 3
    >>= if_size (
        fake (fake_button code down) >>= λ _.
        add_or_remove down (record { type = mouse; code = code }))

abbrev pub move_case : List ℕ → ℕ → M Session (Unit {0})
move_case buffer length =
    check_size length 5 >>= if_size (fake (fake_motion (word16 buffer 1) (word16 buffer 3)))

abbrev pub invalid_case : M Session (Unit {0})
invalid_case s = with_world s (socket_client_close false s.world)

-- The switch on the first byte; `none` stands for the cases of images, cursors and resolutions.
unfoldable pub input_case : List ℕ → ℕ → Option (M Session (Unit {0}))
input_case buffer length =
    let c = get_or buffer 0 0 in
    if c == b'S' || c == b'P' || c == b'R'
    then none
    else if c == b'K'
    then some (key_case buffer length)
    else if c == b'C'
    then some (click_case buffer length)
    else if c == b'M'
    then some (move_case buffer length)
    else if c == b'Q'
    then some (on_keys kb_release_all)
    else some invalid_case
