-- ===== src/Kiwi/Search/Shared.antt =====
-- The Search key from the events of the client to the keys that the server holds down.
use chroagh.Base.{
  ℕ, suc, ◌+◌, some, ◌≤◌, ◌<◌, ◌≡◌, ap, ◌⊎◌, inl, inr, Bool-cases, true, false, ltb, List, [], map,
  done, arith, ltb→lt,
}
use chroagh.FbServer.Keys.{capacity}
use chroagh.FbServer.Keys.Set.{count}
use chroagh.FbServer.Keys.History
use chroagh.FbServer.Keys.History.{presses, empty, Holds}
use chroagh.FbServer.Packets
use chroagh.FbServer.Packets.Decoding.{Packet, encode}
use chroagh.FbServer.Packets.Typing.{operations, handle_all, handle_all-Holds}
use chroagh.Kiwi.State.{inactive, Kiwi}
use chroagh.Kiwi.Sending.{bit, is_vf1, request_screen}
use chroagh.Kiwi.Input.{InputEvent, handle_input_event}
use chroagh.Kiwi.Packets.{super_key, input_packets, screen_requests, request_screen-Inv}
use chroagh.Kiwi.Painting.{Scales, on_flush}
use chroagh.Kiwi.Socket.{Received, on_socket_receive_completion}
use chroagh.Kiwi.Socket.Flow.{
  lands, paints, count_if, on_flush-Inv, on_socket_receive_completion-Inv,
}
use chroagh.Kiwi.Messages.Keeping.{handle_message-Inv}
use chroagh.Kiwi.Messages.{View, handle_message}
use chroagh.Kiwi.Search.{holds, Held}
use chroagh.Kiwi.Search.Session.{IsFresh, handle_input_event-Held}

-- What happens to a client with a connection: input, callbacks for a frame, messages of the page, and
-- of the server, and frames that were shown. The first number counts the replies for the screen
-- without a new frame and the new frames that were shown; the second one the replies with a new frame
-- that is not shown yet.
pub data Runs (s0 : Kiwi) : ℕ → ℕ → Kiwi → Type 0 where
  opened : Runs s0 0 0 s0
  event :
      (n p : ℕ) (e : InputEvent) (s : Kiwi)
      → IsFresh e s
      → Runs s0 n p s
      → Runs s0 n p (handle_input_event e s)
  frame_due : (n p token : ℕ) (s : Kiwi) → Runs s0 n p s → Runs s0 n p (request_screen token s)
  told :
      (n p : ℕ) (scales : Scales) (view : View) (message : List ℕ) (s t : Kiwi)
      → handle_message scales view message s ≡ some t
      → Runs s0 n p s
      → Runs s0 n p t
  received :
      (n p : ℕ) (scales : Scales) (r : Received) (s : Kiwi)
      → Runs s0 n p s
      → Runs s0
          (count_if (lands r) n)
          (count_if (paints r) p)
          (on_socket_receive_completion scales r s)
  shown :
      (n p : ℕ) (scales : Scales) (s : Kiwi)
      → Runs s0 n (suc p) s
      → Runs s0 (suc n) p (on_flush scales s)

module _ (s0 : Kiwi) (start : Held 0 s0) where
  session-Held : (n p : ℕ) (s : Kiwi) → Runs s0 n p s → Held n s
  session-Held m l t opened = start
  session-Held m l t (event n p e s fresh r) =
      handle_input_event-Held n e s fresh (session-Held n p s r)
  session-Held m l t (frame_due n p token s r) =
      let (q, h) = session-Held n p s r in (q, request_screen-Inv n q (holds q) token s h)
  session-Held m l t (told n p scales view message s t' e r) =
      let (q, h) = session-Held n p s r in
      (q, handle_message-Inv q (holds q) n scales view s h message t' e)
  session-Held m l t (received n p scales r s run) =
      let (q, h) = session-Held n p s run in
      (q, on_socket_receive_completion-Inv q (holds q) n scales r s h)
  session-Held m l t (shown n p scales s r) =
      let (q, h) = session-Held n (suc p) s r in (q, on_flush-Inv q (holds q) n scales s h)

-- The server after the packets, unless there were more than 256 presses.
abbrev pub Leaves : List ℕ → Packets.Session → List Packet → ℕ → Type 0
Leaves stale server ps bound =
    (capacity < presses (operations ps))
    ⊎ ((after : Packets.Session) × (handle_all stale ps server ≡ done (tt, after))
        × (count super_key after.keys.pressed ≤ bound))

leaves_lem :
    (stale : List ℕ) (server : Packets.Session) (ps : List Packet) (bound : ℕ)
    → server.keys ≡ empty
    → History.down (operations ps) super_key ≤ bound
    → Leaves stale server ps bound
leaves_lem stale server ps bound none_down few =
    elim (Bool-cases (ltb capacity (presses (operations ps)))) [
      | inl many ↦ inl (ltb→lt capacity (presses (operations ps)) many)
      | inr fits ↦
          let (after, run, keys) =
            handle_all-Holds stale server ps none_down (ground (arith, fits)) in
          inr (after, run, rw (keys.set super_key) few)
    ]

-- From a connection to a server of the current version, with the Search key idle and nothing sent
-- yet, over any session of input, callbacks, messages of the page and of the server, and frames
-- shown, in which the Search key is not pressed again while Super_L is down, and each frame shown
-- is one of an earlier reply: the packets sent but for requests are well-formed packets of input; a
-- server that had no key down either gets more than 256 presses, or handles them all and then holds
-- Super_L down at most once, and only in the state `down`; and the requests of the screen are at
-- most one more than those that are done, each with a reply without a new frame or with a reply
-- whose new frame was shown, and no more than these if none is in flight.
pub search_key_shared :
    (stale : List ℕ) (server : Packets.Session) (n p : ℕ) (s t : Kiwi)
    → server.keys ≡ empty
    → s.connected ≡ true
    → is_vf1 s ≡ false
    → s.search_state ≡ inactive
    → s.effects ≡ []
    → Runs s n p t
    → (ps : List Packet) × (input_packets t.effects ≡ map encode ps)
      × Leaves stale server ps (holds t.search_state)
      × (screen_requests t.effects ≤ n + bit t.screen_flying)
search_key_shared stale server n p s t none_down on current idle new runs =
    let (q, h) =
      session-Held s
        (
          inactive,
          record {
            connected = on;
            current = current;
            search = idle;
            packets = [];
            sends = ap input_packets new;
            held = omega arith;
            flow = rw new (omega arith);
          },
        )
        n p t runs in
    (
      h.packets,
      h.sends,
      leaves_lem stale server h.packets (holds t.search_state) none_down (rw h.search h.held),
      h.flow,
    )
