-- ===== src/Kiwi/Packets.antt =====
-- The invariant of what the client sends.
use chroagh.Base.{
  ℕ, ◌+◌, ◌/◌, ◌%◌, ◌≤◌, ◌≡◌, ◌==◌, refl, ap, ap₂, ◌∙◌, not, ◌&&◌, ◌||◌, if◌then◌else◌, ltb, Bool,
  true, false, List, [], ◌∷◌, map, get_or, text, arith,
}
use chroagh.WebSocket.Message.{strings_eq}
use chroagh.FbServer.Keys.{KeyButton, keyboard}
use chroagh.FbServer.Keys.History
use chroagh.FbServer.Packets.Decoding.{Packet, key, click, move, quit, encode}
use chroagh.FbServer.Packets.Typing.{operations}
use chroagh.Kiwi.State.{SearchState, Kiwi, Effect, sent, emit}
use chroagh.Kiwi.Sending.{
  bit, mousemove, key_packet, click_packet, screen_packet, flush_if, send_if, socket_send,
  sign_image, send_request, request_if, raise_if, request_screen, set_target_fps, is_vf1,
}
use chroagh.Kiwi.Keycodes.Table.{super_code}

abbrev is_screen : List ℕ → Bool
is_screen packet = get_or packet 0 0 == b'S'

-- The first byte of a packet that is not input: screen, cursor, resolution or version.
abbrev is_request : List ℕ → Bool
is_request packet =
    is_screen packet
    || (get_or packet 0 0 == b'P')
    || (get_or packet 0 0 == b'R')
    || (get_or packet 0 0 == b'V')

-- The packets with input, and the number of requests of the screen.
abbrev pub input_packets : List Effect → List (List ℕ)
input_packets [] = []
input_packets (sent packet ∷ es) =
    if is_request packet then input_packets es else packet ∷ input_packets es
input_packets (_ ∷ es) = input_packets es

abbrev pub screen_requests : List Effect → ℕ
screen_requests [] = 0
screen_requests (sent packet ∷ es) = (if is_screen packet then 1 else 0) + screen_requests es
screen_requests (_ ∷ es) = screen_requests es

abbrev pub super_key : KeyButton
super_key = record { type = keyboard; code = super_code }

-- What holds while the state of the Search key is `q` and Super_L is down at most `k` times: the
-- packets are packets of input, and but for `n` requests of the screen there is none that is not in
-- flight.
pub record Inv (n : ℕ) (q : SearchState) (k : ℕ) (s : Kiwi) : Type 0 where
  pub connected : s.connected ≡ true
  pub current : is_vf1 s ≡ false
  pub search : s.search_state ≡ q
  pub packets : List Packet
  pub sends : input_packets s.effects ≡ map encode packets
  pub held : History.down (operations packets) super_key ≤ k
  pub flow : screen_requests s.effects ≤ n + bit s.screen_flying

move_encoded : (x y : ℕ) → mousemove x y ≡ encode (move (x % 65536) (y % 65536))
move_encoded x y =
    let low = λ (n : ℕ) (e : n % 65536 % 256 ≡ n % 256). e in
    let x0 : x % 65536 % 256 ≡ x % 256 = omega arith in
    let x1 : x % 65536 / 256 ≡ x / 256 % 256 = omega arith in
    let y0 : y % 65536 % 256 ≡ y % 256 = omega arith in
    let y1 : y % 65536 / 256 ≡ y / 256 % 256 = omega arith in rw (x0, x1, y0, y1) refl

pub key_encoded : (d : Bool) (code : ℕ) → key_packet d code ≡ encode (key d 0 (code % 256))
key_encoded true code = refl
key_encoded false code = refl

pub click_encoded :
    (d : Bool) (button : ℕ) → click_packet d button ≡ encode (click d 0 (button % 256))
click_encoded true button = refl
click_encoded false button = refl

not_screen : (p : Packet) → is_screen (encode p) ≡ false
not_screen (key d unused code) = refl
not_screen (click d unused code) = refl
not_screen (move x y) = refl
not_screen quit = refl

not_request : (p : Packet) → is_request (encode p) ≡ false
not_request (key d unused code) = refl
not_request (click d unused code) = refl
not_request (move x y) = refl
not_request quit = refl

-- How a packet may change whether Super_L is down.
abbrev pub Steps : ℕ → ℕ → Packet → Type 0
Steps k k' p =
    (ps : List Packet)
    → History.down (operations ps) super_key ≤ k
    → History.down (operations (p ∷ ps)) super_key ≤ k'

module _ (n : ℕ) (q : SearchState) (k : ℕ) (s : Kiwi) (h : Inv n q k s) where
  -- A packet on top of the others.
  emitted : (k' : ℕ) (p : Packet) → Steps k k' p → Inv n q k' (emit (sent (encode p)) s)
  emitted k' p steps = record {
    connected = h.connected;
    current = h.current;
    search = h.search;
    packets = p ∷ h.packets;
    sends = rw (not_request p) (ap (λ t. encode p ∷ t) h.sends);
    held = steps h.packets h.held;
    flow = rw (not_screen p) (omega (arith, h.flow));
  }

  flushed : (b : Bool) → Inv n q k (flush_if b s)
  flushed false = h
  flushed true =
      let p = move (s.mouse_x % 65536) (s.mouse_y % 65536) in
      let same = move_encoded s.mouse_x s.mouse_y in
      record {
        connected = h.connected;
        current = h.current;
        search = h.search;
        packets = p ∷ h.packets;
        sends = ap₂ (λ a t. a ∷ t) same h.sends;
        held = h.held;
        flow = omega (arith, h.flow);
      }

-- One field is not looked at.
module _ (P : Kiwi → Type 0) (packet : List ℕ) (f : Bool) (s : Kiwi) (on : s.connected ≡ true) where
  when_connected :
      P (emit (sent packet) (flush_if (s.pending_mouse_move && f) s)) → P (socket_send packet f s)
  unfolding socket_send
  when_connected h =
      let e : send_if s.connected packet f s ≡ send_if true packet f s =
        ap (λ b. send_if b packet f s) on in
      rw e h

pub socket_send-Inv :
    (n : ℕ) (q : SearchState) (k k' : ℕ) (p : Packet) (f : Bool) (s : Kiwi)
    → Steps k k' p
    → Inv n q k s
    → Inv n q k' (socket_send (encode p) f s)
socket_send-Inv n q k k' p f s steps h = when_connected (Inv n q k') (encode p) f s h.connected (
    emitted n q k (flush_if (s.pending_mouse_move && f) s)
      (flushed n q k s h (s.pending_mouse_move && f)) k' p steps)

-- A request of the screen when there is none in flight.
module _ (n : ℕ) (q : SearchState) (k : ℕ) (s : Kiwi) (packet : List ℕ)
    (screen : is_screen packet ≡ true) (h : Inv n q k s) where
  requested :
      screen_requests s.effects ≤ n → s.screen_flying ≡ true → Inv n q k (emit (sent packet) s)
  requested idle flying = record {
    connected = h.connected;
    current = h.current;
    search = h.search;
    packets = h.packets;
    sends = rw screen h.sends;
    held = h.held;
    flow = rw (screen, flying) (omega (arith, idle));
  }

-- A request of something else.
pub ask-Inv :
    (n : ℕ) (q : SearchState) (k : ℕ) (packet : List ℕ) (s : Kiwi)
    → is_request packet ≡ true
    → is_screen packet ≡ false
    → Inv n q k s
    → Inv n q k (socket_send packet false s)
ask-Inv n q k packet s request other h = when_connected (Inv n q k) packet false s h.connected (
    asked (flush_if (s.pending_mouse_move && false) s)
      (flushed n q k s h (s.pending_mouse_move && false)))
  where
    asked : (t : Kiwi) → Inv n q k t → Inv n q k (emit (sent packet) t)
    asked t g = record {
      connected = g.connected;
      current = g.current;
      search = g.search;
      packets = g.packets;
      sends = rw request g.sends;
      held = g.held;
      flow = rw other (omega (arith, g.flow));
    }

-- The fields that the invariant looks at, and packets that do not matter to it.
pub carried :
    (n n' : ℕ) (q q' : SearchState) (k : ℕ) (s t : Kiwi)
    → Inv n q k s
    → t.connected ≡ s.connected
    → t.server_version ≡ s.server_version
    → t.search_state ≡ q'
    → input_packets t.effects ≡ input_packets s.effects
    → screen_requests t.effects ≤ n' + bit t.screen_flying
    → Inv n' q' k t
carried n n' q q' k s t h on version state same few = record {
  connected = on ∙ h.connected;
  current = ap (λ v. strings_eq v (text "VF1")) version ∙ h.current;
  search = state;
  packets = h.packets;
  sends = same ∙ h.sends;
  held = h.held;
  flow = few;
}

pub rebuilt :
    (n : ℕ) (q q' : SearchState) (k : ℕ) (s t : Kiwi)
    → Inv n q k s
    → t.connected ≡ s.connected
    → t.server_version ≡ s.server_version
    → t.search_state ≡ q'
    → t.effects ≡ s.effects
    → t.screen_flying ≡ s.screen_flying
    → Inv n q' k t
rebuilt n q q' k s t h on version state same flying =
    carried n n q q' k s t h on version state (ap input_packets same) (rw (same, flying) h.flow)

flush_requests :
    (b : Bool) (s : Kiwi) → screen_requests (flush_if b s).effects ≡ screen_requests s.effects
flush_requests true s = omega arith
flush_requests false s = refl

flush_flying : (b : Bool) (s : Kiwi) → (flush_if b s).screen_flying ≡ s.screen_flying
flush_flying true s = refl
flush_flying false s = refl

module _ (n : ℕ) (q : SearchState) (k : ℕ) where
  signed : (s : Kiwi) → Inv n q k s → screen_requests s.effects ≤ n → Inv n q k (sign_image s)
  signed s h few = record {
    connected = h.connected;
    current = h.current;
    search = h.search;
    packets = h.packets;
    sends = h.sends;
    held = h.held;
    flow = omega (arith, few);
  }

  send_request-Inv : (s : Kiwi) → Inv n q k s → s.screen_flying ≡ false → Inv n q k (send_request s)
  send_request-Inv s h idle =
      let few : screen_requests s.effects ≤ n = omega (arith, h.flow, ap bit idle) in
      let t = sign_image s in
      let g = signed s h few in
      let b = t.pending_mouse_move && true in
      when_connected (Inv n q k) (screen_packet s.force_refresh t.image) true t g.connected (
        requested n q k (flush_if b t) (screen_packet s.force_refresh t.image) refl
          (flushed n q k t g b) (omega (arith, flush_requests b t, few)) (flush_flying b t))

  request_if-Inv :
      (c r : Bool) (s : Kiwi)
      → (r ≡ false → s.screen_flying ≡ false)
      → Inv n q k s
      → Inv n q k (request_if c r s)
  request_if-Inv false r s idle h = h
  request_if-Inv true true s idle h = h
  request_if-Inv true false s idle h = send_request-Inv s h (idle refl)

  second_false : (a b : Bool) → (a || b) ≡ false → b ≡ false
  second_false true b e = absurd (ground (arith, e))
  second_false false b e = e

  pub request_screen-Inv : (token : ℕ) (s : Kiwi) → Inv n q k s → Inv n q k (request_screen token s)
  unfolding request_screen
  request_screen-Inv token s h =
      request_if-Inv s.connected (not (token == s.request_token) || s.screen_flying) s
        (second_false (not (token == s.request_token)) s.screen_flying) h

  raise_if-Inv : (b : Bool) (s : Kiwi) → Inv n q k s → Inv n q k (raise_if b s)
  raise_if-Inv false s h = h
  raise_if-Inv true s h =
      let t : Kiwi = record s { force_refresh = true } in
      request_screen-Inv s.request_token t (rebuilt n q q k s t h refl refl h.search refl refl)

  pub set_target_fps-Inv : (fps : ℕ) (s : Kiwi) → Inv n q k s → Inv n q k (set_target_fps fps s)
  unfolding set_target_fps
  set_target_fps-Inv fps s h =
      let t = raise_if (ltb s.target_fps fps) s in
      let g = raise_if-Inv (ltb s.target_fps fps) s h in
      rebuilt n q q k t (record t { target_fps = fps }) g refl refl g.search refl refl
