-- ===== src/Kiwi/Socket/Agreement.antt =====
-- What the server sends, and what the client makes of it.
use chroagh.Base.{
  ℕ, suc, ◌+◌, ◌*◌, ◌^◌, ◌<◌, ◌≡◌, ◌==◌, refl, ap, ◌∙◌, if◌then◌else◌, Bool, true, false, List, [],
  ◌∷◌, map, length, get_or, little_endian, arith,
}
use chroagh.FbServer.Packets.{word16}
use chroagh.FbServer.Screen
use chroagh.FbServer.Screen.{Turn, Screen, CursorImage, screen_reply, cursor_reply}
use chroagh.Kiwi.State.{Kiwi}
use chroagh.Kiwi.Socket
use chroagh.WebSocket.State.{World}
use chroagh.FbServer.Replies.{Access, there, not_there, send_binary, write_init}
use chroagh.Kiwi.Painting.{Scales}
use chroagh.Kiwi.Socket.{Frame, frame, on_socket_receive_completion}
use chroagh.Kiwi.Socket.Replies.{
  closings, is_reply, is_cursor_reply, is_accepted, on_socket_receive_completion-closings,
}

-- The frame as it is in memory.
abbrev pub message : List ℕ → Frame
message bytes = record { bytes = bytes; behind = [] }

pixels_length : (xs : List ℕ) → length (Screen.joined (map (little_endian 4) xs)) ≡ 4 * length xs
pixels_length [] = refl
pixels_length (x ∷ xs) = omega (arith, pixels_length xs)

module _ (c : CursorImage) (fits : length c.pixels ≡ c.width * c.height) (narrow : c.width < 65536)
    (low : c.height < 65536) (small : 13 + 4 * length c.pixels < 2 ^ 32) where
  cursor_accepted : is_cursor_reply (cursor_reply c) ≡ true
  cursor_accepted =
      let w : word16 (cursor_reply c) 1 ≡ c.width = omega (arith, narrow) in
      let h : word16 (cursor_reply c) 3 ≡ c.height = omega (arith, low) in
      let size : length (cursor_reply c) ≡ 13 + 4 * c.width * c.height =
        omega (arith, pixels_length c.pixels, fits) in
      let exact : 13 + 4 * c.width * c.height < 2 ^ 32 = omega (arith, fits, small) in
      rw (w, h, size) (ground (arith, exact))

  cursor_bounded : 13 + 4 * word16 (cursor_reply c) 1 * word16 (cursor_reply c) 3 < 2 ^ 32
  cursor_bounded =
      let w : word16 (cursor_reply c) 1 ≡ c.width = omega (arith, narrow) in
      let h : word16 (cursor_reply c) 3 ≡ c.height = omega (arith, low) in
      rw (w, h) (omega (arith, fits, small))

module _ (scales : Scales) (s : Kiwi) (on : s.connected ≡ true) where
  accepted :
      (f : Frame)
      → (get_or (Socket.data_of f) 0 0 == b'V') ≡ false
      → is_reply (get_or (Socket.data_of f) 0 0) f.bytes ≡ true
      → (get_or (Socket.data_of f) 0 0 ≡ b'P'
          → 13 + 4 * word16 f.bytes 1 * word16 f.bytes 3 < 2 ^ 32)
      → closings (on_socket_receive_completion scales (frame f) s).effects ≡ closings s.effects
  accepted f other right bound =
      let e : is_accepted s.connected f ≡ true = rw (other, on, right) refl in
      on_socket_receive_completion-closings scales f s bound
      ∙ ap (λ b. closings s.effects + (if b then 0 else 1)) e
      ∙ omega arith

  -- With a connection, no reply of write_image, and no reply of write_cursor with as many pixels as
  -- its size says, below 2 ^ 32 bytes, makes the client close it.
  pub replies_accepted :
      (t : Turn) (screen : Screen) (updated missing : Bool) (c : CursorImage)
      → length c.pixels ≡ c.width * c.height
      → c.width < 65536
      → c.height < 65536
      → 13 + 4 * length c.pixels < 2 ^ 32
      → (closings
            (on_socket_receive_completion scales
              (frame (message (screen_reply t screen updated missing)))
              s).effects
          ≡ closings s.effects)
        × (closings
              (on_socket_receive_completion scales (frame (message (cursor_reply c))) s).effects
            ≡ closings s.effects)
  replies_accepted t screen updated missing c fits narrow low small = (
    accepted (message (screen_reply t screen updated missing)) refl refl
        (λ e. absurd (omega (arith, e))),
    accepted (message (cursor_reply c)) refl (cursor_accepted c fits narrow low small)
        (λ e. cursor_bounded c fits narrow low small),
  )

-- What `access` finds, with and without Freon.
abbrev pub terminal : Bool → Access
terminal true = not_there
terminal false = there

-- With or without Freon, the one message of write_init makes a client with a connection close it.
pub write_init-refused :
    (freon : Bool) (w : World) (scales : Scales) (s : Kiwi)
    → s.connected ≡ true
    → (m : List ℕ) × (write_init (terminal freon) w ≡ send_binary m w)
      × (closings (on_socket_receive_completion scales (frame (message m)) s).effects
          ≡ suc (closings s.effects))
unfolding write_init
write_init-refused freon w scales s on =
    let m = b'I' ∷ Screen.bit freon ∷ [] in
    let e : is_accepted s.connected (message m) ≡ false = rw on refl in
    (
      m,
      sent_init freon,
      on_socket_receive_completion-closings scales (message m) s (λ e. absurd (omega (arith, e)))
          ∙ ap (λ b. closings s.effects + (if b then 0 else 1)) e
          ∙ omega arith,
    )
  where
    sent_init : (b : Bool) → write_init (terminal b) w ≡ send_binary (b'I' ∷ Screen.bit b ∷ []) w
    sent_init true = refl
    sent_init false = refl
