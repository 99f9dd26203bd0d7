-- ===== src/WebSocket/Message/Reassembly.antt =====
-- `socket_client_read_frame` puts a fragmented message together.
use chroagh.Base.{
  ℕ, zero, suc, ◌+◌, ◌≤◌, ◌<◌, ◌≡◌, ◌≢◌, sym, ap, ◌∙◌, Bool, true, false, ltb, ltb_not, Option,
  some, List, [], ◌∷◌, ◌++◌, arith, length, take, drop, length-append, length-drop, append_assoc,
  Outcome, done, fault, ◌>>=◌,
}
use chroagh.Io.Read.{available}
use chroagh.WebSocket.State.{World}
use chroagh.WebSocket.State.Channels.{Read, Read_trans}
use chroagh.WebSocket.Frame.{masked, client_frame, client_header}
use chroagh.WebSocket.Mask.{IsBytes, length-mask}
use chroagh.WebSocket.Receive.{
  accepted, socket_client_read_frame_header, socket_client_read_frame_data,
}
use chroagh.WebSocket.Receive.Decoding.{read_frame_header_lem}
use chroagh.WebSocket.Receive.Data.{in_words, key_word, read_frame_data_overrun}
use chroagh.WebSocket.Message.{after_data, after_header, read_frame_loop, socket_client_read_frame}
use chroagh.WebSocket.Message.Round.{Fragment, IsFragment, Round-runs}

abbrev pub AreFragments : List Fragment → Type 0
AreFragments [] = Unit
AreFragments (f ∷ fs) = IsFragment f × AreFragments fs

-- The fragments on the wire: all but the last without FIN.
abbrev pub wire : List Fragment → Fragment → List ℕ
wire [] l = client_frame l.opcode true l.key l.payload
wire (f ∷ fs) l = client_frame f.opcode false f.key f.payload ++ wire fs l

-- The message.
abbrev pub message : List Fragment → Fragment → List ℕ
message [] l = l.payload
message (f ∷ fs) l = f.payload ++ message fs l

-- Every fragment, stored from `buflen` on, can be unmasked in whole words within `size` bytes.
abbrev pub Fits : ℕ → ℕ → List Fragment → Fragment → Type 0
Fits size buflen [] l = buflen + in_words (length l.payload) ≤ size
Fits size buflen (f ∷ fs) l =
    (buflen + in_words (length f.payload) ≤ size) × Fits size (buflen + length f.payload) fs l

-- The call has stored `text` behind the first `buflen` bytes of `buffer`.
pub record Receives (buflen : ℕ) (buffer text : List ℕ) (r : Outcome ((Option ℕ × List ℕ) × World))
    (w : World) : Type 0 where
  pub out : List ℕ
  pub returns : r ≡ done ((some (buflen + length text), out), w)
  pub stored : take (buflen + length text) out ≡ take buflen buffer ++ text

round_overrun :
    (fuel size buflen len key : ℕ) (fin : Bool) (buffer : List ℕ) (w w1 : World)
    → ltb size (len + buflen) ≡ false
    → socket_client_read_frame_header w ≡ done (accepted len fin key, w1)
    → socket_client_read_frame_data (drop buflen buffer) len key w1 ≡ fault
    → read_frame_loop (suc fuel) size buflen buffer w ≡ fault
unfolding read_frame_loop after_header
round_overrun fuel size buflen len key fin buffer w w1 fits header over =
    rw (header, ◌>>=◌) (rw fits (rw (over, ◌>>=◌)))

module _ (fd size : ℕ) (rest : List ℕ) where
  read_frame_loop-Receives :
      (fs : List Fragment) (l : Fragment) (fuel buflen : ℕ) (buffer : List ℕ) (w : World)
      → AreFragments fs
      → IsFragment l
      → length fs < fuel
      → IsBytes buffer
      → length buffer ≡ size
      → Fits size buflen fs l
      → w.client_fd ≡ some fd
      → available (w.incoming fd) ≡ wire fs l ++ rest
      → (w' : World) × Receives buflen buffer
          (message fs l)
          (read_frame_loop fuel size buflen buffer w)
          w'
        × Read fd w rest w'
  unfolding after_data
  read_frame_loop-Receives fs l zero buflen buffer w vs v more bs room fits open_fd e =
      absurd (omega arith)
  read_frame_loop-Receives [] l (suc fuel) buflen buffer w vs v more bs room fits open_fd e =
      let r = Round-runs fd size fuel buflen buffer l true rest w v bs room fits open_fd e in
      (
        r.w',
        record { out = take buflen buffer ++ r.out; returns = r.runs; stored = r.stored.front },
        r.read,
      )
  read_frame_loop-Receives (f ∷ fs) l (suc fuel) buflen buffer w vs v more bs room fits open_fd e =
      let r =
        Round-runs fd size fuel buflen buffer f false (wire fs l ++ rest) w vs.0 bs room fits.0
          open_fd
          (e ∙ append_assoc (client_frame f.opcode false f.key f.payload) (wire fs l) rest) in
      let filled = take buflen buffer ++ r.out in
      let s =
        read_frame_loop-Receives fs l fuel (buflen + length f.payload) filled r.w' vs.1 v
          (omega arith) r.stored.bytes (r.stored.room ∙ room) fits.1 (r.read.client ∙ open_fd)
          r.read.left in
      let total : buflen + length f.payload + length (message fs l)
          ≡ buflen + length (f.payload ++ message fs l) =
        omega (arith, length-append f.payload (message fs l)) in
      (
        s.0,
        record {
          out = s.1.out;
          returns = r.runs ∙ s.1.returns ∙ ap (λ n. done ((some n, s.1.out), s.0)) total;
          stored =
              ap (λ n. take n s.1.out) (sym total)
              ∙ s.1.stored
              ∙ ap (λ t. t ++ message fs l) r.stored.front
              ∙ append_assoc (take buflen buffer) f.payload (message fs l);
        },
        Read_trans r.read s.2,
      )

  -- A message in any number of fragments, each with a key of its own, arrives whole: the call returns
  -- its length with the message at the start of the buffer, takes exactly its frames off the
  -- connection, and sends nothing. The buffer has the size that the caller says, each fragment fits
  -- it in whole words, and the fuel is above the number of fragments before the last.
  pub read_frame-Receives :
      (fs : List Fragment) (l : Fragment) (fuel : ℕ) (buffer : List ℕ) (w : World)
      → AreFragments fs
      → IsFragment l
      → length fs < fuel
      → IsBytes buffer
      → length buffer ≡ size
      → Fits size 0 fs l
      → w.client_fd ≡ some fd
      → available (w.incoming fd) ≡ wire fs l ++ rest
      → (out : List ℕ) × (w' : World) × (socket_client_read_frame fuel buffer size w
          ≡ done ((some (length (message fs l)), out), w'))
        × (take (length (message fs l)) out ≡ message fs l)
        × Read fd w rest w'
  unfolding socket_client_read_frame
  read_frame-Receives fs l fuel buffer w vs v more bs room fits open_fd e =
      let r = read_frame_loop-Receives fs l fuel 0 buffer w vs v more bs room fits open_fd e in
      let zero_add : 0 + length (message fs l) ≡ length (message fs l) = omega arith in
      (
        r.1.out,
        r.0,
        r.1.returns ∙ ap (λ n. done ((some n, r.1.out), r.0)) zero_add,
        ap (λ n. take n r.1.out) (sym zero_add) ∙ r.1.stored,
        r.2,
      )

  -- If two fragments fit the buffer together, the first also in whole words, and the second, with a
  -- key other than 0, in whole words does not, the second is unmasked beyond the end of the buffer.
  pub read_frame_overrun :
      (f l : Fragment) (fuel : ℕ) (buffer : List ℕ) (w : World)
      → IsFragment f
      → IsFragment l
      → IsBytes buffer
      → length buffer ≡ size
      → in_words (length f.payload) ≤ size
      → length f.payload + length l.payload ≤ size
      → size < length f.payload + in_words (length l.payload)
      → key_word l.key ≢ 0
      → w.client_fd ≡ some fd
      → available (w.incoming fd) ≡ wire (f ∷ []) l ++ rest
      → socket_client_read_frame (suc (suc fuel)) buffer size w ≡ fault
  unfolding socket_client_read_frame after_data
  read_frame_overrun f l fuel buffer w vf v bs room fits_f fits_data short keyed open_fd e =
      let r =
        Round-runs fd size (suc fuel) 0 buffer f false (wire [] l ++ rest) w vf bs room
          (omega (arith, fits_f)) open_fd
          (e ∙ append_assoc (client_frame f.opcode false f.key f.payload) (wire [] l) rest) in
      let filled = take 0 buffer ++ r.out in
      let at = 0 + length f.payload in
      let header =
        read_frame_header_lem fd l.opcode (length l.payload) true l.key r.w'
          (masked l.key l.payload ++ rest) v.data_opcode v.small (r.read.client ∙ open_fd)
          (r.read.left
            ∙ append_assoc (client_header l.opcode true l.key (length l.payload))
                (masked l.key l.payload) rest) in
      let len = length-mask l.key.k0 l.key.k1 l.key.k2 l.key.k3 l.payload in
      let over =
        read_frame_data_overrun fd (key_word l.key) (drop at filled) (masked l.key l.payload) rest
          header.0 keyed (omega (arith, len, r.stored.room, room, length-drop at filled, fits_data))
          (omega (arith, len, r.stored.room, room, length-drop at filled, short))
          (header.2.client ∙ r.read.client ∙ open_fd) header.2.left in
      r.runs
      ∙ round_overrun fuel size at (length l.payload) (key_word l.key) true filled r.w' header.0
          (ltb_not size (length l.payload + at) (omega (arith, fits_data))) header.1
          (ap (λ n. socket_client_read_frame_data (drop at filled) n (key_word l.key) header.0)
              (sym len)
            ∙ over)
