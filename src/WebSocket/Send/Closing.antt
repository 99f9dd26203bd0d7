-- ===== src/WebSocket/Send/Closing.antt =====
-- `socket_client_close` leaves no client, whatever the connection does.
use chroagh.Base.{
  ℕ, ◌≡◌, refl, ap, ◌∙◌, inl, inr, Bool, true, false, none, some, Option-cases, List, [], ◌∷◌,
  arith, take, replicate, done, ◌>>=◌,
}
use chroagh.WebSocket.State.{World, wrote, closed, close_client}
use chroagh.WebSocket.State.Channels.{close_client-client, close_client-trace, close_client-closed}
use chroagh.WebSocket.Constants.{opcode_close}
use chroagh.WebSocket.Send.{socket_client_close}
use chroagh.WebSocket.Send.Encoding.{sent, broken, write_frame-Sends, write_frame_willing}
use chroagh.Io.Write.{IsWilling}

-- A Close frame with no payload.
abbrev pub close_frame : List ℕ
close_frame = 0x88 ∷ 0 ∷ []

-- The client is closed in the end, and the last thing done to its descriptor is `close`, after the
-- bytes `out` of a Close frame.
pub record Closes (fd : ℕ) (out : List ℕ) (w w' : World) : Type 0 where
  pub client : w'.client_fd ≡ none
  pub trace : w'.trace ≡ closed fd ∷ wrote fd out ∷ w.trace

-- With a client, `socket_client_close(1)` sends the Close frame, or as much of it as goes out, and
-- then closes the descriptor.
pub socket_client_close_frame :
    (fd : ℕ) (w : World)
    → w.client_fd ≡ some fd
    → (tot : ℕ) × (w' : World) × (socket_client_close true w ≡ done (tt, w'))
      × Closes fd (take tot close_frame) w w'
unfolding socket_client_close
socket_client_close_frame fd w open_fd =
    elim (write_frame-Sends fd opcode_close true (replicate 16 0) [] [] w refl open_fd) [
      | sent w' r written ↦ (
        2,
        close_client w',
        rw (open_fd, socket_client_close) (rw (r, ◌>>=◌)),
        record {
          client = close_client-client w';
          trace =
              close_client-trace fd w' (written.client ∙ open_fd)
              ∙ ap (λ t. closed fd ∷ t) written.trace;
        },
      )
      | broken tot w' short r gone trace ↦ (
        tot,
        close_client w',
        rw (open_fd, socket_client_close) (rw (r, ◌>>=◌)),
        record {
          client = close_client-client w';
          trace = ap (λ v. v.trace) (close_client-closed w' gone) ∙ trace;
        },
      )
    ]

-- If the connection takes at least a byte with each write, the whole Close frame is sent.
pub socket_client_close_willing :
    (fd : ℕ) (w : World)
    → w.client_fd ≡ some fd
    → IsWilling (w.accepts fd)
    → (w' : World) × (socket_client_close true w ≡ done (tt, w')) × Closes fd close_frame w w'
unfolding socket_client_close
socket_client_close_willing fd w open_fd willing =
    let (w', r, written) =
      write_frame_willing fd opcode_close true (replicate 16 0) [] [] w refl open_fd willing in
    (
      close_client w',
      rw (open_fd, socket_client_close) (rw (r, ◌>>=◌)),
      record {
        client = close_client-client w';
        trace =
            close_client-trace fd w' (written.client ∙ open_fd)
            ∙ ap (λ t. closed fd ∷ t) written.trace;
      },
    )

close_open :
    (fd : ℕ) (sendclose : Bool) (w : World)
    → w.client_fd ≡ some fd
    → (w' : World) × (socket_client_close sendclose w ≡ done (tt, w')) × (w'.client_fd ≡ none)
unfolding socket_client_close
close_open fd true w open_fd =
    let r = socket_client_close_frame fd w open_fd in (r.1, r.2, r.3.client)
close_open fd false w open_fd = (close_client w, ground arith, close_client-client w)

-- With or without a Close frame, and whatever the connection does, the call returns, and then there
-- is no client.
pub socket_client_close-client :
    (sendclose : Bool) (w : World)
    → (w' : World) × (socket_client_close sendclose w ≡ done (tt, w')) × (w'.client_fd ≡ none)
unfolding socket_client_close
socket_client_close-client sendclose w = elim (Option-cases w.client_fd) [
  | inl gone ↦ (w, ground arith, gone)
  | inr (fd, open_fd) ↦ close_open fd sendclose w open_fd
]
