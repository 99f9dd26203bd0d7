-- ===== src/WebSocket/Receive/Data.antt =====
-- `socket_client_read_frame_data` stores the unmasked payload.
use chroagh.Base.{
  ℕ, ◌+◌, ◌*◌, ◌/◌, ◌≤◌, ◌<◌, ◌≡◌, ◌≢◌, sym, ap, ◌∙◌, inl, inr, false, Bool-cases, ltb_not, ◌==◌,
  ==_iff, Option, none, some, List, ◌++◌, arith, length, take, drop, length-append, length-drop,
  take_prefix, Outcome, done, fault,
}
use chroagh.Io.Read.{available}
use chroagh.WebSocket.State.{World, block_read}
use chroagh.WebSocket.State.Channels.{Read, block_read_full}
use chroagh.WebSocket.Frame.{Key, IsKey, masked}
use chroagh.WebSocket.Mask.{
  word, mask, IsBytes, IsBytes-append, IsBytes-drop, IsBytes-mask, length-mask, mask-mask,
  mask_zero, unmask_words, unmask_words_lem, unmask_words_short,
}
use chroagh.WebSocket.Receive.{socket_client_read_frame_data, unmask}

-- The memory that data of `size` bytes is unmasked in, in whole words.
abbrev pub in_words : ℕ → ℕ
in_words size = 4 * ((size + 3) / 4)

abbrev pub key_word : Key → ℕ
key_word k = word k.k0 k.k1 k.k2 k.k3

-- The call has stored `payload` at the start of `buffer` and returned its size.
pub record Stores (buffer payload : List ℕ) (r : Outcome ((Option ℕ × List ℕ) × World)) (w : World)
    : Type 0 where
  pub out : List ℕ
  pub returns : r ≡ done ((some (length payload), out), w)
  pub stored : take (length payload) out ≡ payload
  pub room : length out ≡ length buffer
  pub bytes : IsBytes out

-- Data that is on the way is read in one piece.
data_read :
    (fd maskkey : ℕ) (buffer bytes rest : List ℕ) (w : World)
    → length bytes ≤ length buffer
    → w.client_fd ≡ some fd
    → available (w.incoming fd) ≡ bytes ++ rest
    → (w' : World) × (socket_client_read_frame_data buffer (length bytes) maskkey w
        ≡ unmask buffer (length bytes) maskkey (some bytes, w'))
      × Read fd w rest w'
unfolding socket_client_read_frame_data
data_read fd maskkey buffer bytes rest w fits open_fd e =
    let r = block_read_full fd w bytes rest e in
    let step = λ (o : Option (List ℕ) × World). unmask buffer (length bytes) maskkey o in
    (
      r.0,
      rw (ltb_not (length buffer) (length bytes) fits)
          (ap (λ o. step (block_read o (length bytes) w)) open_fd ∙ ap step r.1),
      r.2,
    )

unmask_keyed :
    (buffer bytes out : List ℕ) (size maskkey : ℕ) (w : World)
    → (maskkey == 0) ≡ false
    → unmask_words ((size + 3) / 4) maskkey (bytes ++ drop size buffer) ≡ some out
    → unmask buffer size maskkey (some bytes, w) ≡ done ((some size, out), w)
unfolding unmask
unmask_keyed buffer bytes out size maskkey w keyed e = rw keyed (rw e)

unmask_overrun :
    (bytes buffer : List ℕ) (size maskkey : ℕ) (w : World)
    → (maskkey == 0) ≡ false
    → unmask_words ((size + 3) / 4) maskkey (bytes ++ drop size buffer) ≡ none
    → unmask buffer size maskkey (some bytes, w) ≡ fault
unfolding unmask
unmask_overrun bytes buffer size maskkey w keyed e = rw keyed (rw e)

module _ (k : Key) (q : IsKey k) (buffer payload : List ℕ) (bs : IsBytes buffer)
    (ps : IsBytes payload) (fits : in_words (length payload) ≤ length buffer) where
  abbrev size : ℕ
  size = length payload

  abbrev filled : List ℕ
  filled = masked k payload ++ drop size buffer

  filled-length : length filled ≡ length buffer
  filled-length = omega (
    arith,
    length-append (masked k payload) (drop size buffer),
    length-mask k.k0 k.k1 k.k2 k.k3 payload,
    length-drop size buffer,
  )

  filled-IsBytes : IsBytes filled
  filled-IsBytes =
      IsBytes-append (masked k payload) (drop size buffer)
        (IsBytes-mask k.k0 k.k1 k.k2 k.k3 payload q.q0 q.q1 q.q2 q.q3 ps)
        (IsBytes-drop size buffer bs)

  filled_prefix : take size filled ≡ masked k payload
  filled_prefix =
      ap (λ n. take n filled) (sym (length-mask k.k0 k.k1 k.k2 k.k3 payload))
      ∙ take_prefix (masked k payload) (drop size buffer)

  unmasked_zero : key_word k ≡ 0 → masked k payload ≡ payload
  unmasked_zero e =
      let e0 : k.k0 ≡ 0 = omega arith in
      let e1 : k.k1 ≡ 0 = omega arith in
      let e2 : k.k2 ≡ 0 = omega arith in
      let e3 : k.k3 ≡ 0 = omega arith in
      ap (λ t. mask t k.k1 k.k2 k.k3 payload) e0
      ∙ ap (λ t. mask 0 t k.k2 k.k3 payload) e1
      ∙ ap (λ t. mask 0 0 t k.k3 payload) e2
      ∙ ap (λ t. mask 0 0 0 t payload) e3
      ∙ mask_zero payload

  unmask-Stores :
      (w : World)
      → Stores buffer payload (unmask buffer size (key_word k) (some (masked k payload), w)) w
  unfolding unmask
  unmask-Stores w = elim (Bool-cases (key_word k == 0)) [
    | inl zero_key ↦ record {
      out = filled;
      returns = rw zero_key;
      stored = filled_prefix ∙ unmasked_zero ((==_iff (key_word k) 0).0 zero_key);
      room = filled-length;
      bytes = filled-IsBytes;
    }
    | inr keyed ↦
        let r =
          unmask_words_lem k.k0 k.k1 k.k2 k.k3 size filled q.q0 q.q1 q.q2 q.q3 filled-IsBytes
            (omega (arith, filled-length, fits)) in
        record {
          out = r.0;
          returns = unmask_keyed buffer (masked k payload) r.0 size (key_word k) w keyed r.1;
          stored =
              r.2
              ∙ ap (mask k.k0 k.k1 k.k2 k.k3) filled_prefix
              ∙ mask-mask k.k0 k.k1 k.k2 k.k3 payload q.q0 q.q1 q.q2 q.q3 ps;
          room = r.3 ∙ filled-length;
          bytes = r.4;
        }
  ]

  -- If the buffer has room for the data in whole words, and the payload, masked with the key, is on
  -- the way, the payload is stored unmasked, its size is returned, and exactly its bytes are taken
  -- off the connection.
  pub read_frame_data_lem :
      (fd : ℕ) (rest : List ℕ) (w : World)
      → w.client_fd ≡ some fd
      → available (w.incoming fd) ≡ masked k payload ++ rest
      → (w' : World) × Stores buffer payload
          (socket_client_read_frame_data buffer size (key_word k) w)
          w'
        × Read fd w rest w'
  read_frame_data_lem fd rest w open_fd e =
      let len = length-mask k.k0 k.k1 k.k2 k.k3 payload in
      let r =
        data_read fd (key_word k) buffer (masked k payload) rest w (omega (arith, fits, len))
          open_fd e in
      let s = unmask-Stores r.0 in
      let at_size =
        ap (λ n. socket_client_read_frame_data buffer n (key_word k) w) (sym len)
        ∙ r.1
        ∙ ap (λ n. unmask buffer n (key_word k) (some (masked k payload), r.0)) len in
      (
        r.0,
        record {
          out = s.out;
          returns = at_size ∙ s.returns;
          stored = s.stored;
          room = s.room;
          bytes = s.bytes;
        },
        r.2,
      )

-- With less room the unmasking runs out of the buffer, although the data itself fits.
pub read_frame_data_overrun :
    (fd maskkey : ℕ) (buffer arrived rest : List ℕ) (w : World)
    → maskkey ≢ 0
    → length arrived ≤ length buffer
    → length buffer < in_words (length arrived)
    → w.client_fd ≡ some fd
    → available (w.incoming fd) ≡ arrived ++ rest
    → socket_client_read_frame_data buffer (length arrived) maskkey w ≡ fault
read_frame_data_overrun fd maskkey buffer arrived rest w keyed fits short open_fd e =
    let r = data_read fd maskkey buffer arrived rest w fits open_fd e in
    let keyed' : (maskkey == 0) ≡ false = ground arith in
    let overrun =
      unmask_words_short ((length arrived + 3) / 4) maskkey
        (arrived ++ drop (length arrived) buffer)
        (omega (
          arith,
          length-append arrived (drop (length arrived) buffer),
          length-drop (length arrived) buffer,
          short,
          fits,
        )) in
    r.1 ∙ unmask_overrun arrived buffer (length arrived) maskkey r.0 keyed' overrun
