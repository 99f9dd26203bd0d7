-- ===== src/WebSocket/State/Channels.antt =====
-- `block_read` and `block_write` on a descriptor.
use chroagh.Base.{
  ℕ, suc, ◌≤◌, ◌<◌, ◌≡◌, refl, ap, ◌∙◌, Option, none, some, List, ◌∷◌, ◌++◌, ◌⊎◌, inl, inr, arith,
  length, take, drop, take_prefix, drop_prefix, length-append, take_all, ==_refl,
}
use chroagh.Io.{write_loop}
use chroagh.Io.Read.{available, read_loop_full, read_loop-none}
use chroagh.Io.Write.{IsWilling, write_loop-cases, write_loop_willing}
use chroagh.WebSocket.State.{World, wrote, closed, close_client, block_read, block_write}

-- `w'` is `w` after reads from `fd` that leave the bytes `rest` on the way.
pub record Read (fd : ℕ) (w : World) (rest : List ℕ) (w' : World) : Type 0 where
  pub client : w'.client_fd ≡ w.client_fd
  pub trace : w'.trace ≡ w.trace
  pub accepts : w'.accepts ≡ w.accepts
  pub left : available (w'.incoming fd) ≡ rest

pub Read_trans :
    {fd : ℕ} {w w' w'' : World} {a b : List ℕ} → Read fd w a w' → Read fd w' b w'' → Read fd w b w''
Read_trans r s = record {
  client = s.client ∙ r.client;
  trace = s.trace ∙ r.trace;
  accepts = s.accepts ∙ r.accepts;
  left = s.left;
}

-- The next bytes that are on the way, in whatever segments up to the first failure or end of file,
-- are read in one piece, and exactly they are taken off the connection.
pub block_read_full :
    (fd : ℕ) (w : World) (p rest : List ℕ)
    → available (w.incoming fd) ≡ p ++ rest
    → (w' : World) × (block_read (some fd) (length p) w ≡ (some p, w')) × Read fd w rest w'
unfolding block_read
block_read_full fd w p rest e =
    let enough : length p ≤ length (available (w.incoming fd)) =
      rw e (omega (arith, length-append p rest)) in
    let full = read_loop_full (length p) (w.incoming fd) enough in
    (
      (block_read (some fd) (length p) w).1,
      ap (λ r. (r, (block_read (some fd) (length p) w).1))
          (full.0 ∙ ap (λ t. some (take (length p) t)) e ∙ ap some (take_prefix p rest)),
      record {
        client = refl;
        trace = refl;
        accepts = refl;
        left = rw (==_refl fd) (full.1 ∙ ap (λ t. drop (length p) t) e ∙ drop_prefix p rest);
      },
    )

-- With fewer bytes on the way than asked for, the read fails.
pub block_read-none :
    (fd size : ℕ) (w : World)
    → length (available (w.incoming fd)) < size
    → (block_read (some fd) size w).0 ≡ none
unfolding block_read
block_read-none fd size w h = read_loop-none size (w.incoming fd) h

-- A read changes what is on the way, and nothing else.
pub block_read_same :
    (fd : Option ℕ) (size : ℕ) (w : World)
    → let w' = (block_read fd size w).1 in
      (w'.client_fd ≡ w.client_fd) × (w'.trace ≡ w.trace) × (w'.accepts ≡ w.accepts)
unfolding block_read
block_read_same none size w = (refl, refl, refl)
block_read_same (some fd) size w = (refl, refl, refl)

-- `w'` is `w` after the bytes `out` went out on `fd`.
pub record Written (fd : ℕ) (w : World) (out : List ℕ) (w' : World) : Type 0 where
  pub client : w'.client_fd ≡ w.client_fd
  pub trace : w'.trace ≡ wrote fd out ∷ w.trace
  pub incoming : w'.incoming ≡ w.incoming

-- All bytes go out and their number is returned, or a proper prefix goes out and the write fails.
pub block_write-cases :
    (fd : ℕ) (buffer : List ℕ) (w : World)
    → let (n, w') = block_write (some fd) buffer w in
      ((n ≡ some (length buffer)) × Written fd w buffer w')
      ⊎ ((tot : ℕ) × (n ≡ none) × (tot < length buffer) × Written fd w (take tot buffer) w')
unfolding block_write
block_write-cases fd buffer w =
    elim (write_loop-cases (suc (length buffer)) buffer 0 (w.accepts fd) (omega arith)
      (omega arith)) [
        | inl whole ↦ inl (
          whole.0,
          record {
            client = refl;
            trace = ap (λ t. wrote fd t ∷ w.trace) (take_all _ buffer (omega (arith, whole.1)));
            incoming = refl;
          },
        )
        | inr short ↦ inr (
          (write_loop (suc (length buffer)) buffer 0 (w.accepts fd)).1,
          short.0,
          short.1,
          record { client = refl; trace = refl; incoming = refl },
        )
      ]

pub block_write_willing :
    (fd : ℕ) (buffer : List ℕ) (w : World)
    → IsWilling (w.accepts fd)
    → let (n, w') = block_write (some fd) buffer w in
      (n ≡ some (length buffer)) × Written fd w buffer w'
unfolding block_write
block_write_willing fd buffer w h =
    let whole =
      write_loop_willing (suc (length buffer)) buffer 0 (w.accepts fd) (omega arith) (omega arith)
        h in
    (
      whole.0,
      record {
        client = refl;
        trace = ap (λ t. wrote fd t ∷ w.trace) (take_all _ buffer (omega (arith, whole.1)));
        incoming = refl;
      },
    )

-- After a close there is no client.
pub close_client-client : (w : World) → (close_client w).client_fd ≡ none
unfolding close_client
close_client-client w = ground arith

pub close_client-trace :
    (fd : ℕ) (w : World) → w.client_fd ≡ some fd → (close_client w).trace ≡ closed fd ∷ w.trace
unfolding close_client
close_client-trace fd w e = ground arith

pub close_client-closed : (w : World) → w.client_fd ≡ none → close_client w ≡ w
unfolding close_client
close_client-closed w e = ground arith
