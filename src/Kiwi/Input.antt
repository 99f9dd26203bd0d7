-- ===== src/Kiwi/Input.antt =====
-- Input events: `HandleInputEvent` of host-ext/nacl_src/kiwi.cc.
use chroagh.Base.{
  ℕ, zero, suc, ◌+◌, ◌-◌, ◌%◌, ◌^◌, ◌==◌, leb, not, ◌&&◌, ◌||◌, if◌then◌else◌, Bool, true, false,
  Option, none, some, List, [], ◌∷◌, length, text,
}
use chroagh.WebSocket.Message.{strings_eq}
use chroagh.Kiwi.Keycodes.{get_code}
use chroagh.Kiwi.Keysyms.{key_code_to_key_sym, is_between}
use chroagh.Kiwi.State.{
  Signed, minus, plus, SearchState, inactive, up_first, up, down, Kiwi, control, emit,
}
use chroagh.Kiwi.Sending.{
  is_vf1, send_key_sym, send_key_code, send_search_key, press_search, send_click,
}

pub data TouchKind : Type 0 where
  touch_start : TouchKind
  touch_move : TouchKind
  touch_end : TouchKind

pub record Touch : Type 0 where
  pub id : ℕ
  pub x : ℕ
  pub y : ℕ

-- Positions have been multiplied by `scale_`. The movement of the wheel is what the addition of a
-- `float` makes of each accumulator.
pub data InputEvent : Type 0 where
  keyboard : Bool → ℕ → List ℕ → InputEvent
  mouse_moved : ℕ → ℕ → InputEvent
  mouse_button : Bool → ℕ → ℕ → ℕ → InputEvent
  wheel : (Signed → Signed) → (Signed → Signed) → InputEvent
  touch : TouchKind → List Touch → InputEvent
  ime_text : InputEvent

-- The Search key, whose press is delayed.
abbrev pub search_key_at : Bool → SearchState → Kiwi → Kiwi
search_key_at true q s = record s { search_state = up_first }
search_key_at false up_first s = record (send_search_key false (send_search_key true s)) {
  search_state = inactive;
}
search_key_at false down s = record (send_search_key false s) { search_state = inactive }
search_key_at false up s = record s { search_state = inactive }
search_key_at false inactive s = record s { search_state = inactive }

unfoldable pub search_key : Bool → Kiwi → Kiwi
search_key d s = search_key_at d s.search_state s

-- Another key than a letter: the Search key is released.
abbrev pub release_search_at : SearchState → Kiwi → Kiwi
release_search_at down s = record (send_search_key false s) { search_state = up }
release_search_at up_first s = record s { search_state = up }
release_search_at up s = s
release_search_at inactive s = s

unfoldable pub release_search : Kiwi → Kiwi
release_search s = release_search_at s.search_state s

abbrev pub before_key : Bool → ℕ → Kiwi → Kiwi
before_key d jskeycode s = if is_between 65 90 jskeycode then press_search d s else release_search s

-- The first Boolean is whether the server has the first version.
abbrev pub send_key_for : Bool → Bool → ℕ → ℕ → Kiwi → Kiwi
send_key_for true d keycode keysym s = send_key_sym keysym d s
send_key_for false d keycode keysym s = send_key_code keycode d s

abbrev pub send_key : Bool → ℕ → ℕ → Kiwi → Kiwi
send_key d keycode keysym s = send_key_for (is_vf1 s) d keycode keysym s

-- A key with its codes: an unknown one, the Search key, or another.
abbrev pub use_key : Bool → Bool → Bool → ℕ → ℕ → ℕ → Kiwi → Kiwi
use_key true search d jskeycode keycode keysym s = s
use_key false true d jskeycode keycode keysym s = search_key d s
use_key false false d jskeycode keycode keysym s =
    send_key d keycode keysym (before_key d jskeycode s)

abbrev pub coded_key : Bool → ℕ → List ℕ → ℕ → ℕ → Kiwi → Kiwi
coded_key d jskeycode name keycode keysym s =
    use_key (keycode == 0 && keysym == 0) (strings_eq name (text "OSLeft")) d jskeycode keycode
      keysym s

abbrev pub keysym_for : Bool → ℕ → List ℕ → ℕ
keysym_for vf1 jskeycode name = if vf1 then key_code_to_key_sym jskeycode name else 0

abbrev pub when_released : Bool → List ℕ → Kiwi → Kiwi
when_released d state s = if d then s else emit (control (text "state") state) s

-- Fullscreen and the page flipper are for Javascript, when they are released.
unfoldable pub key_event : Bool → ℕ → List ℕ → Kiwi → Kiwi
key_event d jskeycode name s =
    if jskeycode == 183
    then when_released d (text "fullscreen") s
    else if jskeycode == 182
    then when_released d (text "hide") s
    else coded_key d jskeycode name (get_code name false) (keysym_for (is_vf1 s) jskeycode name) s

-- The position is sent later.
abbrev pub move_if : Bool → ℕ → ℕ → Kiwi → Kiwi
move_if moved x y s =
    if moved then record s { pending_mouse_move = true; mouse_x = x; mouse_y = y } else s

abbrev pub move_to : ℕ → ℕ → Kiwi → Kiwi
move_to x y s = move_if (not (s.mouse_x == x) || not (s.mouse_y == y)) x y s

abbrev pub click : ℕ → Kiwi → Kiwi
click button s = send_click button false (send_click button true s)

-- The loops for one sign of an accumulator, whose magnitude bounds the rounds: what is left of it,
-- and the state.
unfoldable pub scroll : ℕ → ℕ → ℕ → Kiwi → ℕ × Kiwi
scroll zero button m s = (m, s)
scroll (suc rounds) button m s =
    let rest = scroll rounds button (m - 16) (click button s) in if leb 16 m then rest else (m, s)

abbrev pub scroll_axis : ℕ → ℕ → Signed → Kiwi → Signed × Kiwi
scroll_axis back forth (minus m) s = let (left, t) = scroll m back m s in (minus left, t)
scroll_axis back forth (plus m) s = let (left, t) = scroll m forth m s in (plus left, t)

abbrev pub scroll_x : Kiwi → Kiwi
scroll_x s = let (left, t) = scroll_axis 6 7 s.wheel_x s in record t { wheel_x = left }

abbrev pub scroll_y : Kiwi → Kiwi
scroll_y s = let (left, t) = scroll_axis 5 4 s.wheel_y s in record t { wheel_y = left }

-- The first touch of a list, and the one with an id.
abbrev pub first_id : List Touch → ℕ → ℕ
first_id [] d = d
first_id (t ∷ ts) d = t.id

abbrev pub touch_by_id : ℕ → List Touch → Option Touch
touch_by_id id [] = none
touch_by_id id (t ∷ ts) = if t.id == id then some t else touch_by_id id ts

-- How many touches there are, and which is followed.
abbrev pub count_touches : TouchKind → List Touch → Kiwi → Kiwi
count_touches touch_start ts s = record s {
  touch_id = if s.touch_count == 0 && (length ts == 1) then first_id ts s.touch_id else s.touch_id;
  touch_count = (s.touch_count + length ts) % 2 ^ 32;
}
count_touches touch_move ts s = s
count_touches touch_end ts s = record s {
  touch_count = (s.touch_count + 2 ^ 32 - length ts) % 2 ^ 32;
}

abbrev pub touch_click : TouchKind → Kiwi → Kiwi
touch_click touch_start s = send_click 1 true s
touch_click touch_move s = s
touch_click touch_end s = send_click 1 false s

abbrev pub follow : TouchKind → Option Touch → Kiwi → Kiwi
follow kind none s = s
follow kind (some t) s = touch_click kind (move_to t.x t.y s)

unfoldable pub touch_event : TouchKind → List Touch → Kiwi → Kiwi
touch_event kind ts s =
    let s1 = count_touches kind ts s in follow kind (touch_by_id s1.touch_id ts) s1

unfoldable pub handle_input_event : InputEvent → Kiwi → Kiwi
handle_input_event (keyboard d jskeycode name) s = key_event d jskeycode name s
handle_input_event (mouse_moved x y) s = move_to x y s
handle_input_event (mouse_button d x y button) s = send_click (button + 1) d (move_to x y s)
handle_input_event (wheel add_x add_y) s =
    scroll_y (scroll_x (record s { wheel_x = add_x s.wheel_x; wheel_y = add_y s.wheel_y }))
handle_input_event (touch kind ts) s = touch_event kind ts s
handle_input_event ime_text s = s
