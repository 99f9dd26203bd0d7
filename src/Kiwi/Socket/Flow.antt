-- ===== src/Kiwi/Socket/Flow.antt =====
-- What messages of the server keep of the invariant of Kiwi.Packets.
use chroagh.Base.{
  ℕ, zero, suc, ◌≤◌, ◌≡◌, ◌==◌, refl, ap, ◌∙◌, if◌then◌else◌, ltb, not, ◌&&◌, inl, inr, Bool-cases,
  Bool, true, false, Option, none, some, List, ◌∷◌, length, get_or, text, arith,
}
use chroagh.Kiwi.State.{
  SearchState, Kiwi, Cursor, Effect, says, error, closes, flushes, cursor_set, calls_after,
  socket_receive, overrun, emit,
}
use chroagh.Kiwi.Sending.{bit}
use chroagh.Kiwi.Painting.{Scales, blank_if, paint, new_image, ask_again, on_flush}
use chroagh.Kiwi.Cursors.{word32, cursor_of, reads_beyond}
use chroagh.Kiwi.Socket.{
  Frame, Received, in_progress, failed, frame, check_size, when_right, data_of, version_for,
  socket_parse_version, flag, wait_for_frame, frame_part, find_cursor, use_cursor, cursor_part,
  show_reply, socket_parse_screen, keep_cursor, take_cursor, socket_parse_cursor, show_resolution,
  socket_parse_resolution, close_unless, parse_reply, parse_for, handle_frame,
  on_socket_receive_completion,
}
use chroagh.Kiwi.Packets.{
  Inv, carried, rebuilt, ask-Inv, input_packets, screen_requests, request_screen-Inv,
}

-- A reply for the screen, with its size, and whether it has a new frame.
abbrev is_screen_reply : Received → Bool
is_screen_reply (frame f) = get_or (data_of f) 0 0 == b'S' && length f.bytes == 10
is_screen_reply in_progress = false
is_screen_reply failed = false

abbrev is_updated : Received → Bool
is_updated (frame f) = flag 2 f.bytes
is_updated in_progress = false
is_updated failed = false

-- A reply without a new frame ends its request; one with a new frame is shown first.
abbrev pub lands : Received → Bool
lands r = is_screen_reply r && not (is_updated r)

abbrev pub paints : Received → Bool
paints r = is_screen_reply r && is_updated r

abbrev pub count_if : Bool → ℕ → ℕ
count_if true n = suc n
count_if false n = n

module _ (q : SearchState) (k : ℕ) where
  -- Effects that send nothing.
  pub silent :
      (n : ℕ) (e : Effect) (s : Kiwi)
      → input_packets (e ∷ s.effects) ≡ input_packets s.effects
      → screen_requests (e ∷ s.effects) ≡ screen_requests s.effects
      → Inv n q k s
      → Inv n q k (emit e s)
  silent n e s same quiet h =
      carried n n q q k s (emit e s) h refl refl h.search same (omega (arith, quiet, h.flow))

  pub if-Inv :
      (n : ℕ) (b : Bool) (s t : Kiwi) → Inv n q k s → Inv n q k t → Inv n q k (if b then s else t)
  if-Inv n true s t h h' = h
  if-Inv n false s t h h' = h'

  bit_le : (b : Bool) → bit b ≤ 1
  bit_le true = omega arith
  bit_le false = omega arith

  -- The request in flight is answered.
  landed :
      (n : ℕ) (s t : Kiwi)
      → Inv n q k s
      → t.connected ≡ s.connected
      → t.server_version ≡ s.server_version
      → t.search_state ≡ s.search_state
      → t.effects ≡ s.effects
      → Inv (suc n) q k t
  landed n s t h on version state same =
      carried n (suc n) q q k s t h on version (state ∙ h.search) (ap input_packets same)
        (omega (arith, h.flow, bit_le s.screen_flying, ap screen_requests same))

  paint-Inv : (n : ℕ) (blank : Bool) (s : Kiwi) → Inv n q k s → Inv n q k (paint blank s)
  unfolding paint
  paint-Inv n blank s h =
      let t : Kiwi = record s { image = blank_if blank s.image } in
      if-Inv n s.has_context (emit (flushes blank) t) s
        (silent n (flushes blank) t refl refl (rebuilt n q q k s t h refl refl h.search refl refl))
        h

  ask_again-Inv :
      (n fps : ℕ) (delay : Option ℕ) (s : Kiwi) → Inv n q k s → Inv n q k (ask_again fps delay s)
  ask_again-Inv n zero delay s h = h
  ask_again-Inv n (suc fps) (some ms) s h = silent n _ s refl refl h
  ask_again-Inv n (suc fps) none s h = request_screen-Inv n q k s.request_token s h

  pub on_flush-Inv :
      (n : ℕ) (scales : Scales) (s : Kiwi) → Inv n q k s → Inv (suc n) q k (on_flush scales s)
  unfolding on_flush
  on_flush-Inv n scales s h =
      ask_again-Inv (suc n) s.target_fps (scales.delay s.target_fps) (new_image s)
        (landed n s (new_image s) h refl refl refl refl)

  wait_for_frame-Inv : (n fps : ℕ) (s : Kiwi) → Inv n q k s → Inv n q k (wait_for_frame fps s)
  wait_for_frame-Inv n zero s h = h
  wait_for_frame-Inv n (suc fps) s h = silent n _ s refl refl h

  frame_part-Inv :
      (n : ℕ) (updated missing : Bool) (s : Kiwi)
      → Inv n q k s
      → Inv (count_if (not updated) n) q k (frame_part updated missing s)
  frame_part-Inv n true false s h = paint-Inv n false s h
  frame_part-Inv n true true s h =
      let g = paint-Inv n true s h in
      rebuilt n q q k (paint true s) (record (paint true s) { force_refresh = true }) g refl refl
        g.search refl refl
  frame_part-Inv n false missing s h =
      let t : Kiwi = record s { screen_flying = false } in
      wait_for_frame-Inv (suc n) s.target_fps t (landed n s t h refl refl refl refl)

  cursor_part-Inv :
      (n : ℕ) (updated : Bool) (serial : ℕ) (s : Kiwi)
      → Inv n q k s
      → Inv n q k (cursor_part updated serial s)
  cursor_part-Inv n false serial s h = h
  cursor_part-Inv n true serial s h = used (find_cursor serial s.cursor_cache)
    where
      used : (c : Option Cursor) → Inv n q k (use_cursor c s)
      used none = ask-Inv n q k (text "P") s refl refl h
      used (some c) = silent n (cursor_set c.serial) s refl refl h

  show_reply-Inv :
      (n : ℕ) (bytes : List ℕ) (s : Kiwi)
      → Inv n q k s
      → Inv (count_if (not (flag 2 bytes)) n) q k (show_reply bytes s)
  show_reply-Inv n bytes s h =
      cursor_part-Inv (count_if (not (flag 2 bytes)) n) (flag 3 bytes) (word32 bytes 6)
        (frame_part (flag 2 bytes) (flag 1 bytes) s)
        (frame_part-Inv n (flag 2 bytes) (flag 1 bytes) s h)

  -- A verdict, whose state is the one after an answer.
  abbrev Judged : ℕ → Bool × Kiwi → Type 0
  Judged n r = Inv n q k r.1

  if-Judged :
      (n : ℕ) (b : Bool) (r r' : Bool × Kiwi)
      → Judged n r
      → Judged n r'
      → Judged n (if b then r else r')
  if-Judged n true r r' h h' = h
  if-Judged n false r r' h h' = h'

  right-Judged :
      (n : ℕ) (f : Kiwi → Kiwi) (r : Bool × Kiwi)
      → ((t : Kiwi) → Inv n q k t → Inv n q k (f t))
      → Judged n r
      → Judged n (when_right f r)
  right-Judged n f (true, t) keeps h = keeps t h
  right-Judged n f (false, t) keeps h = h

  refused : (n : ℕ) (s : Kiwi) → Inv n q k s → Judged n (false, emit (says error) s)
  refused n s h = silent n (says error) s refl refl h

  check_size-Judged :
      (n size target : ℕ) (s : Kiwi) → Inv n q k s → Judged n (check_size size target s)
  unfolding check_size
  check_size-Judged n size target s h =
      if-Judged n (size == target) (true, s) (false, emit (says error) s) h (refused n s h)

  parse_cursor-Judged :
      (n : ℕ) (f : Frame) (s : Kiwi) → Inv n q k s → Judged n (socket_parse_cursor f s)
  unfolding socket_parse_cursor
  parse_cursor-Judged n f s h =
      if-Judged n (ltb (length f.bytes) 13) _ _ (refused n s h)
        (right-Judged n (take_cursor f.bytes) _ kept (check_size-Judged n (length f.bytes) _ s h))
    where
      added : (t : Kiwi) → Inv n q k t → Inv n q k (keep_cursor (cursor_of f.bytes) t)
      added t g =
          let c = cursor_of f.bytes in
          let u : Kiwi = record t { cursor_cache = c ∷ t.cursor_cache } in
          silent n (cursor_set c.serial) u refl refl
            (rebuilt n q q k t u g refl refl g.search refl refl)

      kept : (t : Kiwi) → Inv n q k t → Inv n q k (take_cursor f.bytes t)
      kept t g =
          if-Inv n (reads_beyond f.bytes) (emit overrun t) (keep_cursor (cursor_of f.bytes) t)
            (silent n overrun t refl refl g) (added t g)

  parse_resolution-Judged :
      (n : ℕ) (scales : Scales) (f : Frame) (s : Kiwi)
      → Inv n q k s
      → Judged n (socket_parse_resolution scales f s)
  unfolding socket_parse_resolution
  parse_resolution-Judged n scales f s h =
      right-Judged n (show_resolution scales f.bytes) _ shown
        (check_size-Judged n (length f.bytes) 5 s h)
    where
      shown : (t : Kiwi) → Inv n q k t → Inv n q k (show_resolution scales f.bytes t)
      shown t g = carried n n q q k t _ g refl refl g.search refl g.flow

  parse_screen-Judged :
      (n : ℕ) (f : Frame) (s : Kiwi)
      → Inv n q k s
      → Judged (count_if (length f.bytes == 10 && not (flag 2 f.bytes)) n) (socket_parse_screen f s)
  unfolding socket_parse_screen check_size
  parse_screen-Judged n f s h = elim (Bool-cases (length f.bytes == 10)) [
    | inl e ↦ rw e (show_reply-Inv n f.bytes s h)
    | inr e ↦ rw e (refused n s h)
  ]

  parse_reply-Judged :
      (n type : ℕ) (scales : Scales) (f : Frame) (s : Kiwi)
      → Inv n q k s
      → Judged
          (count_if ((type == b'S' && length f.bytes == 10) && not (flag 2 f.bytes)) n)
          (parse_reply type scales f s)
  parse_reply-Judged n type scales f s h = elim (Bool-cases (type == b'S')) [
    | inl e ↦ rw e (parse_screen-Judged n f s h)
    | inr e ↦ rw e (
        if-Judged n (type == b'P') _ _ (parse_cursor-Judged n f s h)
          (if-Judged n (type == b'R') _ _ (parse_resolution-Judged n scales f s h) (refused n s h)))
  ]

  close-Inv :
      (n : ℕ) (reason : List ℕ) (r : Bool × Kiwi) → Judged n r → Inv n q k (close_unless reason r)
  close-Inv n reason (true, t) h = h
  close-Inv n reason (false, t) h = silent n (closes reason) t refl refl h

  handle_frame-Inv :
      (n : ℕ) (scales : Scales) (f : Frame) (s : Kiwi)
      → Inv n q k s
      → Inv (count_if (lands (frame f)) n) q k (handle_frame scales f s)
  unfolding socket_parse_version
  handle_frame-Inv n scales f s h =
      let type = get_or (data_of f) 0 0 in
      let version : version_for s.connected scales f s ≡ version_for true scales f s =
        ap (λ c. version_for c scales f s) h.connected in
      let reply : parse_for s.connected type scales f s ≡ parse_for true type scales f s =
        ap (λ c. parse_for c type scales f s) h.connected in
      elim (Bool-cases (type == b'V')) [
        | inl e ↦
            let other : (type == b'S') ≡ false = ground (arith, e) in
            rw (e, other)
              (close-Inv n (text "Incorrect version.") (socket_parse_version scales f s)
                (rw version (refused n s h)))
        | inr e ↦ rw e (
            close-Inv (count_if (lands (frame f)) n) (text "Invalid payload.")
              (parse_for s.connected type scales f s)
              (rw reply (parse_reply-Judged n type scales f s h)))
      ]

  pub on_socket_receive_completion-Inv :
      (n : ℕ) (scales : Scales) (r : Received) (s : Kiwi)
      → Inv n q k s
      → Inv (count_if (lands r) n) q k (on_socket_receive_completion scales r s)
  unfolding on_socket_receive_completion
  on_socket_receive_completion-Inv n scales in_progress s h = h
  on_socket_receive_completion-Inv n scales failed s h =
      silent n (closes (text "Receive error.")) s refl refl h
  on_socket_receive_completion-Inv n scales (frame f) s h =
      handle_frame-Inv n scales f (emit (calls_after 0 socket_receive) s) (silent n _ s refl refl h)
