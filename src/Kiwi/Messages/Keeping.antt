-- ===== src/Kiwi/Messages/Keeping.antt =====
-- What messages of the page keep of the invariant of Kiwi.Packets.
use chroagh.Base.{
  ℕ, ◌≡◌, refl, if◌then◌else◌, Bool, true, false, Option, none, some, List, text, arith,
}
use mathlib.Core.Path.{subst}
use chroagh.WebSocket.Message.{strings_eq}
use chroagh.FbServer.Cache.{split_colon}
use chroagh.FbServer.Replies.{cut_at}
use chroagh.FbServer.Packets.Decoding.{quit, encode}
use chroagh.Kiwi.State.{SearchState, Kiwi, says, error, connects, resize_message, emit}
use chroagh.Kiwi.Sending.{socket_send, resolution_packet, change_resolution, full_fps}
use chroagh.Kiwi.Painting.{Scales}
use chroagh.Kiwi.Socket.{connect_to, socket_connect_to}
use chroagh.Kiwi.Messages.{
  View, init_context, resize_to, resize_parts, show_display, same_display, hide, set_hidpi, is_true,
  bool_eq, set_debug, typed_message, handle_message, blur_fps, hidden_fps,
}
use chroagh.Kiwi.Packets.{Inv, Steps, carried, ask-Inv, socket_send-Inv, set_target_fps-Inv}
use chroagh.Kiwi.Socket.Flow.{silent, if-Inv}

quit-Steps : (k : ℕ) → Steps k k quit
quit-Steps k ps h = omega arith

module _ (q : SearchState) (k : ℕ) where
  change_resolution-Inv :
      (n : ℕ) (u : ℕ → ℕ) (w h : ℕ) (s : Kiwi) → Inv n q k s → Inv n q k (change_resolution u w h s)
  unfolding change_resolution
  change_resolution-Inv n u w h s g =
      if-Inv q k n s.connected (socket_send (resolution_packet w h) false s)
        (emit (resize_message (u w) (u h)) s) (ask-Inv n q k (resolution_packet w h) s refl refl g)
        (silent q k n (resize_message (u w) (u h)) s refl refl g)

  connect-Inv : (n : ℕ) (s : Kiwi) → Inv n q k s → Inv n q k (socket_connect_to s)
  unfolding socket_connect_to
  connect-Inv n s h = to s.display
    where
      to : (d : Option ℕ) → Inv n q k (connect_to d s)
      to none = silent q k n (says error) s refl refl h
      to (some d) =
          silent q k n _ (emit (connects _) s) refl refl (silent q k n (connects _) s refl refl h)

  init_context-Inv :
      (n : ℕ) (view : View) (s : Kiwi) → Inv n q k s → Inv n q k (init_context view s)
  unfolding init_context
  init_context-Inv n view s h = if-Inv q k n view.is_empty s _ h (
      if-Inv q k n view.is_bound _ _ (carried n n q q k s _ h refl refl h.search refl h.flow)
        (carried n n q q k s _ h refl refl h.search refl h.flow))

  -- What holds unless there was an exception.
  abbrev Given : ℕ → Option Kiwi → Type 0
  Given n none = Unit
  Given n (some s) = Inv n q k s

  if-Given :
      (n : ℕ) (b : Bool) (o o' : Option Kiwi)
      → Given n o
      → Given n o'
      → Given n (if b then o else o')
  if-Given n true o o' h h' = h
  if-Given n false o o' h h' = h'

  module _ (n : ℕ) (scales : Scales) (view : View) (s : Kiwi) (h : Inv n q k s) where
    resize_to-Given : (w v : Option (Option ℕ)) → Given n (resize_to scales view w v s)
    resize_to-Given none v = tt
    resize_to-Given (some w) none = tt
    resize_to-Given (some w) (some v) =
        change_resolution-Inv n scales.unscaled (view.scaled w) (view.scaled v) s h

    resize_parts-Given :
        (w : List ℕ) (v : Option (List ℕ)) → Given n (resize_parts scales view w v s)
    resize_parts-Given w none = h
    resize_parts-Given w (some v) = resize_to-Given (view.stoi w) (view.stoi v)

    display-Given : (d : Option (Option ℕ)) → Given n (show_display d s)
    display-Given none = tt
    display-Given (some d) =
        if-Inv q k n (same_display d s.display) s _ h
          (connect-Inv n _ (carried n n q q k s _ h refl refl h.search refl h.flow))

    hidpi-Given : (d : Option (Option ℕ)) → Given n (set_hidpi view d s)
    hidpi-Given none = tt
    hidpi-Given (some d) =
        if-Inv q k n (bool_eq (is_true d) s.hidpi) s _ h
          (init_context-Inv n view _ (carried n n q q k s _ h refl refl h.search refl h.flow))

    debug-Given : (d : Option (Option ℕ)) → Given n (set_debug d s)
    debug-Given none = tt
    debug-Given (some d) = h

    hide-Inv : (fps : ℕ) → Inv n q k (hide fps s)
    hide-Inv fps =
        set_target_fps-Inv n q k fps (socket_send (encode quit) false s)
          (socket_send-Inv n q k k quit false s (quit-Steps k) h)

    typed_message-Given : (type rest : List ℕ) → Given n (typed_message scales view type rest s)
    typed_message-Given type rest =
        let cut = cut_at b'/' rest in
        if-Given n (strings_eq type (text "resize")) _ _ (resize_parts-Given cut.0 cut.1) (
          if-Given n (strings_eq type (text "display")) _ _ (display-Given (view.stoi rest)) (
            if-Given n (strings_eq type (text "blur")) _ _ (hide-Inv blur_fps) (
              if-Given n (strings_eq type (text "hide")) _ _ (hide-Inv hidden_fps) (
                if-Given n (strings_eq type (text "focus")) _ _
                  (set_target_fps-Inv n q k full_fps s h)
                  (if-Given n (strings_eq type (text "debug")) _ _ (debug-Given (view.stoi rest)) (
                    if-Given n (strings_eq type (text "hidpi")) _ _ (hidpi-Given (view.stoi rest))
                      h))))))

    handled : (m : List ℕ) → Given n (handle_message scales view m s)
    unfolding handle_message
    handled m = split (split_colon m)
      where
        split :
            (o : Option (List ℕ × List ℕ))
            → Given n (elim o [
              | none ↦ some s
              | some (type, rest) ↦ typed_message scales view type rest s
            ])
        split none = h
        split (some (type, rest)) = typed_message-Given type rest

    pub handle_message-Inv :
        (m : List ℕ) (t : Kiwi) → handle_message scales view m s ≡ some t → Inv n q k t
    handle_message-Inv m t e = subst (Given n) e (handled m)
