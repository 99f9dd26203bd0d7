-- ===== src/Kiwi/Search.antt =====
-- The delayed Search key, event by event.
pub mod Session
pub mod Shared
use chroagh.Base.{
  ℕ, zero, suc, ◌+◌, ◌-◌, ◌*◌, ◌%◌, ◌≤◌, ◌≡◌, ◌==◌, refl, sym, ap, ◌∙◌, inl, inr, Bool-cases, not,
  ◌&&◌, ◌||◌, if◌then◌else◌, leb, Bool, true, false, Option, none, some, List, [], ◌∷◌, text, arith,
}
use chroagh.WebSocket.Message.{strings_eq}
use chroagh.FbServer.Packets.Decoding.{Packet, key, click, move, quit, encode}
use chroagh.Kiwi.State.{
  Signed, minus, plus, SearchState, inactive, up_first, up, down, Kiwi, control, emit,
}
use chroagh.Kiwi.Sending.{
  bit, key_packet, click_packet, socket_send, set_target_fps, full_fps, is_vf1, send_key_sym,
  send_key_code, search_key_for, send_search_key, is_raised, press_if, press_search, send_click,
}
use chroagh.Kiwi.Input.{
  TouchKind, touch_start, touch_move, touch_end, Touch, InputEvent, keyboard, mouse_moved,
  mouse_button, wheel, touch, ime_text, search_key_at, search_key, release_search_at,
  release_search, before_key, send_key_for, send_key, use_key, coded_key, keysym_for, when_released,
  key_event, move_if, move_to, scroll, scroll_axis, scroll_x, scroll_y, count_touches, touch_by_id,
  touch_click, follow, touch_event, handle_input_event,
}
use chroagh.Kiwi.Input
use chroagh.Kiwi.Keycodes.{get_code}
use chroagh.Kiwi.Keycodes.Table.{super_code, get_code-super, get_code-other}
use chroagh.Kiwi.Packets.{
  Inv, Steps, key_encoded, click_encoded, socket_send-Inv, rebuilt, set_target_fps-Inv,
}

-- How often Super_L is down on the server.
abbrev pub holds : SearchState → ℕ
holds down = 1
holds inactive = 0
holds up_first = 0
holds up = 0

abbrev pub Held : ℕ → Kiwi → Type 0
Held n s = (q : SearchState) × Inv n q (holds q) s

super-Steps : (k : ℕ) (d : Bool) → Steps k (bit d) (key d 0 super_code)
super-Steps k true ps h = omega arith
super-Steps k false ps h = omega arith

other-Steps :
    (k : ℕ) (d : Bool) (code : ℕ) → (code == super_code) ≡ false → Steps k k (key d 0 code)
other-Steps k true code e ps h = rw e h
other-Steps k false code e ps h = rw e h

click-Steps : (k : ℕ) (d : Bool) (button : ℕ) → Steps k k (click d 0 button)
click-Steps k true button ps h = h
click-Steps k false button ps h = h

module _ (n : ℕ) (q : SearchState) (k k' : ℕ) (s : Kiwi) (h : Inv n q k s) where
  send_key_code-Inv :
      (code : ℕ) (d : Bool)
      → Steps k k' (key d 0 (code % 256))
      → Inv n q k' (send_key_code code d s)
  unfolding send_key_code
  send_key_code-Inv code d steps =
      set_target_fps-Inv n q k' full_fps (socket_send (key_packet d code) true s)
        (rw (key_encoded d code) (socket_send-Inv n q k k' (key d 0 (code % 256)) true s steps h))

module _ (n : ℕ) (q : SearchState) (k : ℕ) (s : Kiwi) (h : Inv n q k s) where
  send_search_key-Inv : (d : Bool) → Inv n q (bit d) (send_search_key d s)
  unfolding send_search_key
  send_search_key-Inv d =
      let current : search_key_for (is_vf1 s) d s ≡ search_key_for false d s =
        ap (λ b. search_key_for b d s) h.current in
      rw (current, get_code-super)
        (send_key_code-Inv n q k (bit d) s h super_code d (super-Steps k d))

  click_sent-Inv :
      (button : ℕ) (d : Bool)
      → Inv n q k (set_target_fps full_fps (socket_send (click_packet d button) true s))
  click_sent-Inv button d =
      set_target_fps-Inv n q k full_fps (socket_send (click_packet d button) true s) (
        rw (click_encoded d button) (
          socket_send-Inv n q k k (click d 0 (button % 256)) true s (click-Steps k d (button % 256))
            h))

  turned : (q' : SearchState) → Inv n q' k (record s { search_state = q' })
  turned q' = rebuilt n q q' k s (record s { search_state = q' }) h refl refl refl refl refl

press_if-Held : (n : ℕ) (b : Bool) (s : Kiwi) → Held n s → Held n (press_if b s)
press_if-Held n false s h = h
press_if-Held n true s (q, h) =
    (down, turned n q 1 (send_search_key true s) (send_search_key-Inv n q (holds q) s h true) down)

send_click-Held :
    (n : ℕ) (button : ℕ) (d : Bool) (s : Kiwi) → Held n s → Held n (send_click button d s)
unfolding send_click
send_click-Held n button d s h =
    let t = press_search d s in
    let (q, g) = press_if-Held n (d && is_raised s.search_state) s h in
    (q, click_sent-Inv n q (holds q) t g button d)

search_key_at-Held :
    (n : ℕ) (d : Bool) (q : SearchState) (s : Kiwi)
    → (d ≡ true → holds q ≡ 0)
    → Inv n q (holds q) s
    → Held n (search_key_at d q s)
search_key_at-Held n true q s new h =
    let g : Inv n q 0 s = rw⁻¹ (new refl) h in (up_first, turned n q 0 s g up_first)
search_key_at-Held n false up_first s new h =
    let pressed = send_search_key-Inv n up_first 0 s h true in
    let released = send_search_key-Inv n up_first 1 (send_search_key true s) pressed false in
    (
      inactive,
      turned n up_first 0 (send_search_key false (send_search_key true s)) released inactive,
    )
search_key_at-Held n false down s new h = (
  inactive,
  turned n down 0 (send_search_key false s) (send_search_key-Inv n down 1 s h false) inactive,
)
search_key_at-Held n false up s new h = (inactive, turned n up 0 s h inactive)
search_key_at-Held n false inactive s new h = (inactive, turned n inactive 0 s h inactive)

release_search_at-Held :
    (n : ℕ) (q : SearchState) (s : Kiwi) → Inv n q (holds q) s → Held n (release_search_at q s)
release_search_at-Held n down s h =
    (up, turned n down 0 (send_search_key false s) (send_search_key-Inv n down 1 s h false) up)
release_search_at-Held n up_first s h = (up, turned n up_first 0 s h up)
release_search_at-Held n up s h = (up, h)
release_search_at-Held n inactive s h = (inactive, h)
