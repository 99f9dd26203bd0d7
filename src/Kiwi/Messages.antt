-- ===== src/Kiwi/Messages.antt =====
-- Messages of Javascript, and the size of the canvas: `HandleMessage` and `InitContext` of
-- host-ext/nacl_src/kiwi.cc.
pub mod Keeping
use chroagh.Base.{ℕ, ◌==◌, not, if◌then◌else◌, Bool, true, false, Option, none, some, List, text}
use chroagh.WebSocket.Message.{strings_eq}
use chroagh.FbServer.Cache.{split_colon}
use chroagh.FbServer.Replies.{cut_at}
use chroagh.Kiwi.State.{Kiwi}
use chroagh.Kiwi.Sending.{socket_send, set_target_fps, full_fps, change_resolution}
use chroagh.Kiwi.Painting.{Scales}
use chroagh.Kiwi.Socket.{socket_connect_to}

-- The view and its scales. `stoi` gives `none` for an exception, which ends the program; `display`
-- and a number below 0 are `none` inside. `scaled` is a length times `scale_*view_css_scale_`,
-- rounded, and no number is below -1; `is_bound` is whether the canvas could be bound.
pub record View : Type 0 where
  pub stoi : List ℕ → Option (Option ℕ)
  pub scaled : Option ℕ → ℕ
  pub is_empty : Bool
  pub is_bound : Bool
  pub width : Bool → ℕ
  pub height : Bool → ℕ

abbrev pub blur_fps : ℕ
blur_fps = 5

abbrev pub hidden_fps : ℕ
hidden_fps = 0

unfoldable pub init_context : View → Kiwi → Kiwi
init_context view s =
    if view.is_empty
    then s
    else if view.is_bound
    then record s {
      has_context = true;
      size_width = view.width s.hidpi;
      size_height = view.height s.hidpi;
      force_refresh = true;
    }
    else record s { has_context = false }

abbrev pub same_display : Option ℕ → Option ℕ → Bool
same_display none none = true
same_display (some a) (some b) = a == b
same_display none (some b) = false
same_display (some a) none = false

-- The width and the height.
abbrev pub resize_to : Scales → View → Option (Option ℕ) → Option (Option ℕ) → Kiwi → Option Kiwi
resize_to scales view none height s = none
resize_to scales view (some width) none s = none
resize_to scales view (some width) (some height) s =
    some (change_resolution scales.unscaled (view.scaled width) (view.scaled height) s)

abbrev pub resize_parts : Scales → View → List ℕ → Option (List ℕ) → Kiwi → Option Kiwi
resize_parts scales view width none s = some s
resize_parts scales view width (some height) s =
    resize_to scales view (view.stoi width) (view.stoi height) s

abbrev pub resize : Scales → View → List ℕ → Kiwi → Option Kiwi
resize scales view rest s =
    let (width, height) = cut_at b'/' rest in resize_parts scales view width height s

abbrev pub show_display : Option (Option ℕ) → Kiwi → Option Kiwi
show_display none s = none
show_display (some display) s = some (
    if same_display display s.display
    then s
    else socket_connect_to (record s { display = display }))

abbrev pub hide : ℕ → Kiwi → Kiwi
hide fps s = set_target_fps fps (socket_send (text "Q") false s)

-- The number is -1, or another; 0 is false.
abbrev pub is_true : Option ℕ → Bool
is_true none = true
is_true (some n) = not (n == 0)

abbrev pub bool_eq : Bool → Bool → Bool
bool_eq true b = b
bool_eq false b = not b

abbrev pub set_hidpi : View → Option (Option ℕ) → Kiwi → Option Kiwi
set_hidpi view none s = none
set_hidpi view (some n) s =
    some (
      if bool_eq (is_true n) s.hidpi then s else init_context view (record s { hidpi = is_true n }))

abbrev pub set_debug : Option (Option ℕ) → Kiwi → Option Kiwi
set_debug none s = none
set_debug (some n) s = some s

-- A message with its type, and what follows the colon.
abbrev pub typed_message : Scales → View → List ℕ → List ℕ → Kiwi → Option Kiwi
typed_message scales view type rest s =
    if strings_eq type (text "resize")
    then resize scales view rest s
    else if strings_eq type (text "display")
    then show_display (view.stoi rest) s
    else if strings_eq type (text "blur")
    then some (hide blur_fps s)
    else if strings_eq type (text "hide")
    then some (hide hidden_fps s)
    else if strings_eq type (text "focus")
    then some (set_target_fps full_fps s)
    else if strings_eq type (text "debug")
    then set_debug (view.stoi rest) s
    else if strings_eq type (text "hidpi")
    then set_hidpi view (view.stoi rest) s
    else some s

-- `none` for an exception.
unfoldable pub handle_message : Scales → View → List ℕ → Kiwi → Option Kiwi
handle_message scales view message s = elim (split_colon message) [
  | none ↦ some s
  | some (type, rest) ↦ typed_message scales view type rest s
]
