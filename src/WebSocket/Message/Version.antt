-- ===== src/WebSocket/Message/Version.antt =====
-- `socket_client_sendversion`: the version goes out and the reply VOK is accepted.
use chroagh.Base.{
  ℕ, ◌<◌, ◌≡◌, refl, sym, ap, ◌∙◌, true, some, List, [], ◌∷◌, ◌++◌, length, take, drop, replicate,
  length-replicate, take-append-drop, done, ◌>>=◌,
}
use chroagh.Io.Read.{available}
use chroagh.Io.Write.{IsWilling}
use chroagh.WebSocket.State.{World, wrote}
use chroagh.WebSocket.State.Channels.{Read}
use chroagh.WebSocket.Frame.{server_frame}
use chroagh.WebSocket.Mask.{replicate-IsBytes}
use chroagh.WebSocket.Send.Encoding.{packet_sent}
use chroagh.WebSocket.Message.{
  socket_client_read_frame, vok, check_reply, socket_client_sendversion,
}
use chroagh.WebSocket.Message.Round.{Fragment, IsFragment}
use chroagh.WebSocket.Message.Reassembly.{AreFragments, wire, message, Fits, read_frame-Receives}

check_vok : (rest : List ℕ) (w : World) → check_reply (some 3) (vok ++ rest) w ≡ done (some 0, w)
unfolding check_reply
check_vok [] w = refl
check_vok (x ∷ rest) w = refl

module _ (fd : ℕ) (rest : List ℕ) (fs : List Fragment) (l : Fragment) (fuel : ℕ) (w : World) where
  reply_accepted :
      AreFragments fs
      → IsFragment l
      → message fs l ≡ vok
      → length fs < fuel
      → Fits 256 0 fs l
      → w.client_fd ≡ some fd
      → available (w.incoming fd) ≡ wire fs l ++ rest
      → (w' : World) × ((socket_client_read_frame fuel (replicate 256 0) 256 >>= λ (buflen, buffer).
              check_reply buflen buffer)
            w
          ≡ done (some 0, w'))
        × Read fd w rest w'
  reply_accepted frags last is_vok enough fits open_fd arrives =
      let (out, w', run, stored, r) =
        read_frame-Receives fd 256 rest fs l fuel (replicate 256 0) w frags last enough
          (replicate-IsBytes 256) (length-replicate {A = ℕ} 256 0) fits open_fd arrives in
      let len : length (message fs l) ≡ 3 = ap length is_vok in
      let front : take 3 out ≡ vok = ap (λ t. take t out) (sym len) ∙ stored ∙ is_vok in
      let whole : out ≡ vok ++ drop 3 out =
        sym (take-append-drop 3 out) ∙ ap (λ t. t ++ drop 3 out) front in
      (
        w',
        rw (run, ◌>>=◌)
            (ap (λ n. check_reply (some n) out w') len
              ∙ ap (λ o. check_reply (some 3) o w') whole
              ∙ check_vok (drop 3 out) w'),
        r,
      )

-- With a client, a connection that takes at least a byte with each write, and a reply VOK, in any
-- number of fragments that fit the buffer in whole words and fewer than the fuel, the call returns 0:
-- the version has gone out in one frame, nothing else has, exactly the reply was taken off the
-- connection, and the client stays.
pub sendversion_accepted :
    (fd : ℕ) (version rest : List ℕ) (fs : List Fragment) (l : Fragment) (fuel : ℕ) (w : World)
    → w.client_fd ≡ some fd
    → IsWilling (w.accepts fd)
    → AreFragments fs
    → IsFragment l
    → message fs l ≡ vok
    → length fs < fuel
    → Fits 256 0 fs l
    → available (w.incoming fd) ≡ wire fs l ++ rest
    → (w' : World) × (socket_client_sendversion fuel version w ≡ done (some 0, w'))
      × (w'.client_fd ≡ some fd)
      × (w'.trace ≡ wrote fd (server_frame 1 true version) ∷ w.trace)
      × (available (w'.incoming fd) ≡ rest)
unfolding socket_client_sendversion
sendversion_accepted fd version rest fs l fuel w open_fd willing frags last is_vok enough fits
      arrives =
    let (w1, sent, written) = packet_sent fd 1 true version w open_fd willing in
    let (w2, replied, r) =
      reply_accepted fd rest fs l fuel w1 frags last is_vok enough fits (written.client ∙ open_fd)
        (ap (λ f. available (f fd)) written.incoming ∙ arrives) in
    (
      w2,
      rw (sent, ◌>>=◌) replied,
      r.client ∙ written.client ∙ open_fd,
      r.trace ∙ written.trace,
      r.left,
    )
