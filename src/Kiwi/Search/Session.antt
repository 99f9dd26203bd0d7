-- ===== src/Kiwi/Search/Session.antt =====
-- Input events of a whole session with a server.
use chroagh.Base.{
  ℕ, zero, suc, ◌+◌, ◌-◌, ◌%◌, ◌≡◌, ◌==◌, refl, sym, ap, ◌∙◌, inl, inr, Bool-cases, not, ◌&&◌, ◌||◌,
  leb, Bool, true, false, Option, none, some, List, text,
}
use chroagh.WebSocket.Message.{strings_eq}
use chroagh.Kiwi.State.{Signed, minus, plus, Kiwi}
use chroagh.Kiwi.Sending.{is_vf1, is_raised, send_click}
use chroagh.Kiwi.Input.{
  TouchKind, touch_start, touch_move, touch_end, Touch, InputEvent, keyboard, mouse_moved,
  mouse_button, wheel, touch, ime_text, search_key_at, search_key, release_search_at,
  release_search, before_key, send_key_for, send_key, coded_key, keysym_for, when_released,
  key_event, move_if, move_to, click, scroll, scroll_axis, scroll_x, scroll_y, count_touches,
  touch_by_id, touch_click, follow, touch_event, handle_input_event,
}
use chroagh.Kiwi.Keysyms.{is_between}
use chroagh.Kiwi.Keycodes.{get_code}
use chroagh.Kiwi.Keycodes.Table.{super_code, get_code-other}
use chroagh.Kiwi.Packets.{rebuilt}
use chroagh.Kiwi.Search.{
  holds, Held, other-Steps, send_key_code-Inv, press_if-Held, send_click-Held, search_key_at-Held,
  release_search_at-Held,
}

-- A press of the Search key that the server does not know of yet. It fails when a key that is held
-- down repeats after a letter.
abbrev pub is_search_press : InputEvent → Bool
is_search_press (keyboard d jskeycode name) = d && strings_eq name (text "OSLeft")
is_search_press (mouse_moved x y) = false
is_search_press (mouse_button d x y button) = false
is_search_press (wheel add_x add_y) = false
is_search_press (touch kind ts) = false
is_search_press ime_text = false

abbrev pub IsFresh : InputEvent → Kiwi → Type 0
IsFresh e s = is_search_press e ≡ true → holds s.search_state ≡ 0

-- Changes of other fields.
module _ (n : ℕ) (s t : Kiwi) (h : Held n s) where
  kept :
      t.connected ≡ s.connected
      → t.server_version ≡ s.server_version
      → t.search_state ≡ s.search_state
      → t.effects ≡ s.effects
      → t.screen_flying ≡ s.screen_flying
      → Held n t
  kept on version state same flying =
      let (q, g) = h in (q, rebuilt n q q (holds q) s t g on version (state ∙ g.search) same flying)

when_released-Held :
    (n : ℕ) (d : Bool) (state : List ℕ) (s : Kiwi) → Held n s → Held n (when_released d state s)
when_released-Held n true state s h = h
when_released-Held n false state s (q, h) = (
  q,
  record {
    connected = h.connected;
    current = h.current;
    search = h.search;
    packets = h.packets;
    sends = h.sends;
    held = h.held;
    flow = h.flow;
  },
)

module _ (n : ℕ) (s : Kiwi) (h : Held n s) where
  search_key-Held : (d : Bool) → (d ≡ true → holds s.search_state ≡ 0) → Held n (search_key d s)
  unfolding search_key
  search_key-Held d new =
      let (q, g) = h in
      let same : search_key_at d s.search_state s ≡ search_key_at d q s =
        ap (λ p. search_key_at d p s) g.search in
      rw same (search_key_at-Held n d q s (λ e. sym (ap holds g.search) ∙ new e) g)

  release_search-Held : Held n (release_search s)
  unfolding release_search
  release_search-Held =
      let (q, g) = h in
      let same : release_search_at s.search_state s ≡ release_search_at q s =
        ap (λ p. release_search_at p s) g.search in
      rw same (release_search_at-Held n q s g)

  before_key-Held : (d : Bool) (jskeycode : ℕ) → Held n (before_key d jskeycode s)
  before_key-Held d jskeycode = elim (Bool-cases (is_between 65 90 jskeycode)) [
    | inl e ↦ rw e (press_if-Held n (d && is_raised s.search_state) s h)
    | inr e ↦ rw e release_search-Held
  ]

  send_key-Held :
      (d : Bool) (code keysym : ℕ)
      → (code % 256 == super_code) ≡ false
      → Held n (send_key d code keysym s)
  send_key-Held d code keysym other =
      let (q, g) = h in
      let same : send_key_for (is_vf1 s) d code keysym s ≡ send_key_for false d code keysym s =
        ap (λ b. send_key_for b d code keysym s) g.current in
      rw same (
        q,
        send_key_code-Inv n q (holds q) (holds q) s g code d
            (other-Steps (holds q) d (code % 256) other),
      )

other_key-Held :
    (n : ℕ) (d : Bool) (jskeycode : ℕ) (name : List ℕ) (keysym : ℕ) (s : Kiwi)
    → Held n s
    → strings_eq name (text "OSLeft") ≡ false
    → Held n (send_key d (get_code name false) keysym (before_key d jskeycode s))
other_key-Held n d jskeycode name keysym s h e =
    send_key-Held n (before_key d jskeycode s) (before_key-Held n s h d jskeycode) d
      (get_code name false) keysym (get_code-other name e)

coded_key-Held :
    (n : ℕ) (d : Bool) (jskeycode : ℕ) (name : List ℕ) (keysym : ℕ) (s : Kiwi)
    → IsFresh (keyboard d jskeycode name) s
    → Held n s
    → Held n (coded_key d jskeycode name (get_code name false) keysym s)
coded_key-Held n d jskeycode name keysym s fresh h =
    elim (Bool-cases (get_code name false == 0 && keysym == 0)) [
      | inl unknown ↦ rw unknown h
      | inr known ↦ elim (Bool-cases (strings_eq name (text "OSLeft"))) [
        | inl e ↦ rw (known, e) (search_key-Held n s h d (λ pressed. fresh (rw (pressed, e) refl)))
        | inr e ↦ rw (known, e) (other_key-Held n d jskeycode name keysym s h e)
      ]
    ]

key_event-Held :
    (n : ℕ) (d : Bool) (jskeycode : ℕ) (name : List ℕ) (s : Kiwi)
    → IsFresh (keyboard d jskeycode name) s
    → Held n s
    → Held n (key_event d jskeycode name s)
unfolding key_event
key_event-Held n d jskeycode name s fresh h = elim (Bool-cases (jskeycode == 183)) [
  | inl e ↦ rw e (when_released-Held n d (text "fullscreen") s h)
  | inr e ↦ elim (Bool-cases (jskeycode == 182)) [
    | inl e' ↦ rw (e, e') (when_released-Held n d (text "hide") s h)
    | inr e' ↦
        rw (e, e')
          (coded_key-Held n d jskeycode name (keysym_for (is_vf1 s) jskeycode name) s fresh h)
  ]
]

move_if-Held : (n : ℕ) (moved : Bool) (x y : ℕ) (s : Kiwi) → Held n s → Held n (move_if moved x y s)
move_if-Held n false x y s h = h
move_if-Held n true x y s h =
    kept n s (record s { pending_mouse_move = true; mouse_x = x; mouse_y = y }) h refl refl refl
      refl refl

move_to-Held : (n : ℕ) (x y : ℕ) (s : Kiwi) → Held n s → Held n (move_to x y s)
move_to-Held n x y s h = move_if-Held n (not (s.mouse_x == x) || not (s.mouse_y == y)) x y s h

click-Held : (n : ℕ) (button : ℕ) (s : Kiwi) → Held n s → Held n (click button s)
click-Held n button s h =
    send_click-Held n button false (send_click button true s) (send_click-Held n button true s h)

scroll-Held :
    (n : ℕ) (rounds button m : ℕ) (s : Kiwi) → Held n s → Held n ((scroll rounds button m s).1)
unfolding scroll
scroll-Held n zero button m s h = h
scroll-Held n (suc rounds) button m s h = elim (Bool-cases (leb 16 m)) [
  | inl e ↦ rw e (scroll-Held n rounds button (m - 16) (click button s) (click-Held n button s h))
  | inr e ↦ rw e h
]

scroll_axis-Held :
    (n : ℕ) (back forth : ℕ) (a : Signed) (s : Kiwi)
    → Held n s
    → Held n ((scroll_axis back forth a s).1)
scroll_axis-Held n back forth (minus m) s h = scroll-Held n m back m s h
scroll_axis-Held n back forth (plus m) s h = scroll-Held n m forth m s h

scroll_x-Held : (n : ℕ) (s : Kiwi) → Held n s → Held n (scroll_x s)
scroll_x-Held n s h =
    let t = scroll_axis 6 7 s.wheel_x s in
    kept n t.1 (record t.1 { wheel_x = t.0 }) (scroll_axis-Held n 6 7 s.wheel_x s h) refl refl refl
      refl refl

scroll_y-Held : (n : ℕ) (s : Kiwi) → Held n s → Held n (scroll_y s)
scroll_y-Held n s h =
    let t = scroll_axis 5 4 s.wheel_y s in
    kept n t.1 (record t.1 { wheel_y = t.0 }) (scroll_axis-Held n 5 4 s.wheel_y s h) refl refl refl
      refl refl

count_touches-Held :
    (n : ℕ) (kind : TouchKind) (ts : List Touch) (s : Kiwi)
    → Held n s
    → Held n (count_touches kind ts s)
count_touches-Held n touch_start ts s h =
    kept n s (count_touches touch_start ts s) h refl refl refl refl refl
count_touches-Held n touch_move ts s h = h
count_touches-Held n touch_end ts s h =
    kept n s (count_touches touch_end ts s) h refl refl refl refl refl

touch_click-Held : (n : ℕ) (kind : TouchKind) (s : Kiwi) → Held n s → Held n (touch_click kind s)
touch_click-Held n touch_start s h = send_click-Held n 1 true s h
touch_click-Held n touch_move s h = h
touch_click-Held n touch_end s h = send_click-Held n 1 false s h

follow-Held :
    (n : ℕ) (kind : TouchKind) (t : Option Touch) (s : Kiwi) → Held n s → Held n (follow kind t s)
follow-Held n kind none s h = h
follow-Held n kind (some t) s h =
    touch_click-Held n kind (move_to t.x t.y s) (move_to-Held n t.x t.y s h)

pub handle_input_event-Held :
    (n : ℕ) (e : InputEvent) (s : Kiwi) → IsFresh e s → Held n s → Held n (handle_input_event e s)
unfolding handle_input_event touch_event
handle_input_event-Held n (keyboard d jskeycode name) s fresh h =
    key_event-Held n d jskeycode name s fresh h
handle_input_event-Held n (mouse_moved x y) s fresh h = move_to-Held n x y s h
handle_input_event-Held n (mouse_button d x y button) s fresh h =
    send_click-Held n (button + 1) d (move_to x y s) (move_to-Held n x y s h)
handle_input_event-Held n (wheel add_x add_y) s fresh h =
    let t : Kiwi = record s { wheel_x = add_x s.wheel_x; wheel_y = add_y s.wheel_y } in
    scroll_y-Held n (scroll_x t) (scroll_x-Held n t (kept n s t h refl refl refl refl refl))
handle_input_event-Held n (touch kind ts) s fresh h =
    let t = count_touches kind ts s in
    follow-Held n kind (touch_by_id t.touch_id ts) t (count_touches-Held n kind ts s h)
handle_input_event-Held n ime_text s fresh h = h
