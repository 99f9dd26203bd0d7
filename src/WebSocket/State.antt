-- ===== src/WebSocket/State.antt =====
-- The global state of src/websocket.h, `block_read` and `block_write` on a descriptor, and the
-- part of `socket_client_close` that closes the descriptor.
pub mod Channels
use chroagh.Base.{ℕ, suc, ◌==◌, if◌then◌else◌, Option, none, some, List, [], ◌∷◌, length, take}
use chroagh.Io.{Segment, Accept, read_loop, write_loop}

-- What the program has done to a descriptor.
pub data Effect : Type 0 where
  wrote : ℕ → List ℕ → Effect
  closed : ℕ → Effect

-- `client_fd` is `none` where the source has -1. The trace has the newest effect first.
pub record World : Type 0 where
  pub client_fd : Option ℕ
  pub incoming : ℕ → List Segment
  pub accepts : ℕ → List Accept
  pub trace : List Effect

abbrev pub update {ℓ} : {A : Type ℓ} → (ℕ → A) → ℕ → A → ℕ → A
update f k v j = if k == j then v else f j

-- `block_read(fd, buffer, size)`: the bytes stored, or `none` for a negative result. Reading from
-- the descriptor -1 fails.
unfoldable pub block_read : Option ℕ → ℕ → World → Option (List ℕ) × World
block_read none size w = (none, w)
block_read (some fd) size w =
    let (n, s) = read_loop (suc size) size [] (w.incoming fd) in
    (n, record w { incoming = update w.incoming fd s })

-- `block_write(fd, buffer, size)`: the size, or `none` for a negative result.
unfoldable pub block_write : Option ℕ → List ℕ → World → Option ℕ × World
block_write none buffer w = (none, w)
block_write (some fd) buffer w =
    let (n, tot, a) = write_loop (suc (length buffer)) buffer 0 (w.accepts fd) in
    (n, record w { accepts = update w.accepts fd a; trace = wrote fd (take tot buffer) ∷ w.trace })

-- `close(client_fd); client_fd = -1;`
unfoldable pub close_client : World → World
close_client w = elim w.client_fd [
  | none ↦ w
  | some fd ↦ record w { client_fd = none; trace = closed fd ∷ w.trace }
]
