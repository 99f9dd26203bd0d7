-- ===== src/WebSocket/Message/Round.antt =====
-- One round of the loop of `socket_client_read_frame` on a data fragment.
use chroagh.Base.{
  ℕ, suc, ◌+◌, ◌≤◌, ◌≡◌, ap, ◌∙◌, Bool, false, ltb, ltb_not, some, List, ◌++◌, arith, length, take,
  drop, length-append, length-take, length-drop, append_assoc, take-append_ge, done, ◌>>=◌,
}
use chroagh.Io.Read.{available}
use chroagh.WebSocket.State.{World}
use chroagh.WebSocket.State.Channels.{Read, Read_trans}
use chroagh.WebSocket.Constants.{maxframesize}
use chroagh.WebSocket.Frame.{Key, IsKey, masked, client_frame, client_header}
use chroagh.WebSocket.Mask.{IsBytes, IsBytes-append, IsBytes-take, IsBytes-drop}
use chroagh.WebSocket.Receive.{
  accepted, socket_client_read_frame_header, socket_client_read_frame_data,
}
use chroagh.WebSocket.Receive.Decoding.{IsData, read_frame_header_lem}
use chroagh.WebSocket.Receive.Data.{in_words, key_word, read_frame_data_lem}
use chroagh.WebSocket.Message.{after_data, after_header, read_frame_loop}

-- One fragment of a message, as the client sends it.
pub record Fragment : Type 0 where
  pub opcode : ℕ
  pub key : Key
  pub payload : List ℕ

pub record IsFragment (f : Fragment) : Type 0 where
  pub data_opcode : IsData f.opcode
  pub key : IsKey f.key
  pub bytes : IsBytes f.payload
  pub small : length f.payload ≤ maxframesize

-- A data fragment that fits is handed to the second half of the round.
round_lem :
    (fuel size buflen len key : ℕ) (fin : Bool) (buffer out : List ℕ) (w w1 w2 : World)
    → ltb size (len + buflen) ≡ false
    → socket_client_read_frame_header w ≡ done (accepted len fin key, w1)
    → socket_client_read_frame_data (drop buflen buffer) len key w1 ≡ done ((some len, out), w2)
    → read_frame_loop (suc fuel) size buflen buffer w
      ≡ after_data (read_frame_loop fuel size) buflen buffer len fin (some len, out) w2
unfolding read_frame_loop after_header
round_lem fuel size buflen len key fin buffer out w w1 w2 fits header stored =
    rw (header, ◌>>=◌) (rw fits (rw (stored, ◌>>=◌)))

-- The memory after a fragment was stored from `buflen` on.
pub record Stored (buflen : ℕ) (buffer payload filled : List ℕ) : Type 0 where
  pub room : length filled ≡ length buffer
  pub bytes : IsBytes filled
  pub front : take (buflen + length payload) filled ≡ take buflen buffer ++ payload

-- What one round does with a fragment that fits.
pub record Round (fuel size buflen : ℕ) (buffer : List ℕ) (f : Fragment) (fin : Bool)
    (rest : List ℕ) (fd : ℕ) (w : World) : Type 0 where
  pub out : List ℕ
  pub w' : World
  pub runs :
      read_frame_loop (suc fuel) size buflen buffer w
      ≡ after_data
          (read_frame_loop fuel size)
          buflen
          buffer
          (length f.payload)
          fin
          (some (length f.payload), out)
          w'
  pub stored : Stored buflen buffer f.payload (take buflen buffer ++ out)
  pub read : Read fd w rest w'

module _ (fd size : ℕ) where
  Stored-behind :
      (buflen : ℕ) (buffer payload out : List ℕ)
      → IsBytes buffer
      → buflen ≤ length buffer
      → take (length payload) out ≡ payload
      → length out ≡ length (drop buflen buffer)
      → IsBytes out
      → Stored buflen buffer payload (take buflen buffer ++ out)
  Stored-behind buflen buffer payload out bs h front room bytes =
      let len : length (take buflen buffer) ≡ buflen = omega (arith, length-take buflen buffer) in
      record {
        room =
            omega
              (arith, len, room, length-append (take buflen buffer) out, length-drop buflen buffer);
        bytes = IsBytes-append (take buflen buffer) out (IsBytes-take buflen buffer bs) bytes;
        front =
            take-append_ge (buflen + length payload) (take buflen buffer) out (omega (arith, len))
            ∙ ap (λ n. take buflen buffer ++ take n out) (omega (arith, len))
            ∙ ap (λ t. take buflen buffer ++ t) front;
      }

  pub Round-runs :
      (fuel buflen : ℕ) (buffer : List ℕ) (f : Fragment) (fin : Bool) (rest : List ℕ) (w : World)
      → IsFragment f
      → IsBytes buffer
      → length buffer ≡ size
      → buflen + in_words (length f.payload) ≤ size
      → w.client_fd ≡ some fd
      → available (w.incoming fd) ≡ client_frame f.opcode fin f.key f.payload ++ rest
      → Round fuel size buflen buffer f fin rest fd w
  Round-runs fuel buflen buffer f fin rest w v bs room fits open_fd e =
      let header =
        read_frame_header_lem fd f.opcode (length f.payload) fin f.key w
          (masked f.key f.payload ++ rest) v.data_opcode v.small open_fd
          (e
            ∙ append_assoc (client_header f.opcode fin f.key (length f.payload))
                (masked f.key f.payload) rest) in
      let stored =
        read_frame_data_lem f.key v.key (drop buflen buffer) f.payload
          (IsBytes-drop buflen buffer bs) v.bytes
          (omega (arith, fits, room, length-drop buflen buffer)) fd rest header.0
          (header.2.client ∙ open_fd) header.2.left in
      record {
        out = stored.1.out;
        w' = stored.0;
        runs =
            round_lem fuel size buflen (length f.payload) (key_word f.key) fin buffer stored.1.out w
              header.0 stored.0 (ltb_not size (length f.payload + buflen) (omega (arith, fits)))
              header.1 stored.1.returns;
        stored =
            Stored-behind buflen buffer f.payload stored.1.out bs (omega (arith, fits, room))
              stored.1.stored stored.1.room stored.1.bytes;
        read = Read_trans header.2 stored.2;
      }
