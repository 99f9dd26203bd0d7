-- ===== src/WebSocket/Frame.antt =====
-- Frames as RFC 6455, 5.2 describes them, independently of src/websocket.h.
use chroagh.Base.{
  ◌<◌, ℕ, zero, suc, ◌+◌, ◌/◌, ◌%◌, ◌^◌, ltb, if◌then◌else◌, Bool, List, [], ◌∷◌, ◌++◌, length,
}
use chroagh.WebSocket.Mask.{mask}

-- The `n` low bytes of a number, the highest first.
abbrev pub big_endian : ℕ → ℕ → List ℕ
big_endian zero x = []
big_endian (suc n) x = x / 256 ^ n % 256 ∷ big_endian n x

abbrev pub fin_bit : Bool → ℕ
fin_bit fin = if fin then 128 else 0

-- The 7 bits of the payload length, and the extended length.
abbrev pub length7 : ℕ → ℕ
length7 size = if ltb 125 size then (if ltb size 65536 then 126 else 127) else size

abbrev pub extended : ℕ → List ℕ
extended size =
    if ltb 125 size then (if ltb size 65536 then big_endian 2 size else big_endian 8 size) else []

-- From the server frames go unmasked.
abbrev pub server_frame : ℕ → Bool → List ℕ → List ℕ
server_frame opcode fin payload =
    (fin_bit fin + opcode) ∷ length7 (length payload) ∷ (extended (length payload) ++ payload)

-- The masking key of a client's frame.
pub record Key : Type 0 where
  pub k0 : ℕ
  pub k1 : ℕ
  pub k2 : ℕ
  pub k3 : ℕ

pub record IsKey (k : Key) : Type 0 where
  pub q0 : k.k0 < 256
  pub q1 : k.k1 < 256
  pub q2 : k.k2 < 256
  pub q3 : k.k3 < 256

abbrev pub key_bytes : Key → List ℕ
key_bytes k = k.k0 ∷ k.k1 ∷ k.k2 ∷ k.k3 ∷ []

abbrev pub masked : Key → List ℕ → List ℕ
masked k payload = mask k.k0 k.k1 k.k2 k.k3 payload

-- The header of a client's frame, with the key, for a payload of `size` bytes.
abbrev pub client_header : ℕ → Bool → Key → ℕ → List ℕ
client_header opcode fin k size =
    (fin_bit fin + opcode) ∷ (128 + length7 size) ∷ (extended size ++ key_bytes k)

abbrev pub client_frame : ℕ → Bool → Key → List ℕ → List ℕ
client_frame opcode fin k payload = client_header opcode fin k (length payload) ++ masked k payload
