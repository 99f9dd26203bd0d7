-- ===== src/FbServer/Replies/Sending.antt =====
-- The frames that the replies are.
use chroagh.Base.{ℕ, ◌≡◌, refl, ◌∙◌, Bool, true, false, if◌then◌else◌, some, [], ◌∷◌, done, ◌>>=◌}
use chroagh.Io.Write.{IsWilling}
use chroagh.WebSocket.State.{World, wrote}
use chroagh.WebSocket.Frame.{server_frame}
use chroagh.WebSocket.Send.Encoding.{packet_sent}
use chroagh.FbServer.Replies.{send_binary, Access, there, not_there, write_init}

abbrev pub freon_flag : Bool → ℕ
freon_flag freon = if freon then 1 else 0

abbrev pub found : Bool → Access
found freon = if freon then not_there else there

-- On a connection that takes at least a byte with each write, the extension is told in one binary
-- frame whether Freon is used, which is when the file of the active terminal is missing.
pub write_init_lem :
    (fd : ℕ) (freon : Bool) (w : World)
    → w.client_fd ≡ some fd
    → IsWilling (w.accepts fd)
    → (w' : World) × (write_init (found freon) w ≡ done (tt, w'))
      × (w'.client_fd ≡ some fd)
      × (w'.trace ≡ wrote fd (server_frame 2 true (b'I' ∷ freon_flag freon ∷ [])) ∷ w.trace)
unfolding write_init send_binary
write_init_lem fd true w open_fd willing =
    let (w', run, r) = packet_sent fd 2 true (b'I' ∷ 1 ∷ []) w open_fd willing in
    (w', rw (run, ◌>>=◌) refl, r.client ∙ open_fd, r.trace)
write_init_lem fd false w open_fd willing =
    let (w', run, r) = packet_sent fd 2 true (b'I' ∷ 0 ∷ []) w open_fd willing in
    (w', rw (run, ◌>>=◌) refl, r.client ∙ open_fd, r.trace)
