-- ===== src/Kiwi/State.antt =====
-- The state of the instance in host-ext/nacl_src/kiwi.cc, and what it does to the outside.
use chroagh.Base.{ℕ, Bool, Option, List, ◌∷◌}

-- An `int` or an unsigned number is its value modulo 2 ^ 32; the accumulators of the wheel have a
-- sign of their own.
pub data Signed : Type 0 where
  minus : ℕ → Signed
  plus : ℕ → Signed

pub data SearchState : Type 0 where
  inactive : SearchState
  up_first : SearchState
  up : SearchState
  down : SearchState

-- Messages for people: their kind.
pub data Level : Type 0 where
  status : Level
  warning : Level
  error : Level

-- A callback that is set up with `CallOnMainThread`.
pub data Callback : Type 0 where
  socket_connect : Callback
  socket_receive : Callback
  request_screen_again : ℕ → Callback

-- What is done, but for logging: messages for Javascript, with type and text; packets; the other
-- calls of the WebSocket; callbacks after so many milliseconds; the contents of the canvas replaced,
-- blank or not, with a call of `OnFlush` to come; the cursor set by its serial number; a
-- read outside of the message, after which nothing is defined.
pub data Effect : Type 0 where
  says : Level → Effect
  control : List ℕ → List ℕ → Effect
  resize_message : ℕ → ℕ → Effect
  sent : List ℕ → Effect
  connects : ℕ → Effect
  receives : Effect
  closes : List ℕ → Effect
  calls_after : ℕ → Callback → Effect
  flushes : Bool → Effect
  cursor_set : ℕ → Effect
  overrun : Effect

-- The image that the next frame is written to: its size, where it is, and its first 8 bytes.
pub record Image : Type 0 where
  pub width : ℕ
  pub height : ℕ
  pub address : ℕ
  pub first_word : ℕ

-- A cursor in the cache, scaled down, by its serial number.
pub record Cursor : Type 0 where
  pub serial : ℕ
  pub width : ℕ
  pub height : ℕ
  pub pixels : List ℕ
  pub hot_x : ℕ
  pub hot_y : ℕ

-- `display` is `none` for -1. `signatures` are the coming values of `(rand() << 32) ^ rand()`, and
-- `images` the addresses of the coming images. The newest effect is first.
pub record Kiwi : Type 0 where
  pub has_context : Bool
  pub size_width : ℕ
  pub size_height : ℕ
  pub image : Image
  pub retry : ℕ
  pub connected : Bool
  pub server_version : List ℕ
  pub screen_flying : Bool
  pub target_fps : ℕ
  pub request_token : ℕ
  pub force_refresh : Bool
  pub pending_mouse_move : Bool
  pub mouse_x : ℕ
  pub mouse_y : ℕ
  pub wheel_x : Signed
  pub wheel_y : Signed
  pub search_state : SearchState
  pub touch_count : ℕ
  pub touch_id : ℕ
  pub cursor_cache : List Cursor
  pub display : Option ℕ
  pub hidpi : Bool
  pub signatures : List ℕ
  pub images : List ℕ
  pub effects : List Effect

abbrev pub emit : Effect → Kiwi → Kiwi
emit e s = record s { effects = e ∷ s.effects }
