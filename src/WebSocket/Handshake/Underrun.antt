-- ===== src/WebSocket/Handshake/Underrun.antt =====
-- An empty line at the start of the buffer.
use chroagh.Base.{ℕ, suc, ◌≡◌, refl, sym, ap, ◌∙◌, inl, inr, List, ◌∷◌, ◌++◌, fault, arith}
use chroagh.Io.Read.{available, read-cases}
use chroagh.WebSocket.State.{World, update}
use chroagh.WebSocket.Handshake.{
  initial, after_first_read, header_loop, read_line, refill, take_byte, socket_server_read_header,
  read_new,
}

first_underrun :
    (fuel bytes port fd : ℕ) (xs : List ℕ) (w : World)
    → header_loop (suc fuel) (suc bytes) port fd (initial (b'\n' ∷ xs)) w ≡ fault
unfolding header_loop read_line refill take_byte
first_underrun fuel bytes port fd xs w = refl

-- A header that starts with a line feed makes the parser look at the byte before its buffer.
pub header_underrun :
    (fuel bytes port fd : ℕ) (more : List ℕ) (w : World)
    → available (w.incoming fd) ≡ b'\n' ∷ more
    → socket_server_read_header (suc fuel) (suc bytes) port fd w ≡ fault
unfolding socket_server_read_header read_new
header_underrun fuel bytes port fd more w arrives = elim (read-cases 4095 (w.incoming fd)) [
  | inr blocked ↦ absurd (ground (arith, sym arrives ∙ blocked.0))
  | inl b ↦
      let split : (b.x ∷ b.xs) ++ available b.rest ≡ b'\n' ∷ more = sym b.split ∙ arrives in
      let same : b.x ≡ b'\n' = cc split in
      let now : World = record w { incoming = update w.incoming fd b.rest } in
      ap
        (λ r.
          after_first_read (suc fuel) (suc bytes) port fd
            (r.0, record w { incoming = update w.incoming fd r.1 }))
        b.result
      ∙ ap (λ x. header_loop (suc fuel) (suc bytes) port fd (initial (x ∷ b.xs)) now) same
      ∙ first_underrun fuel bytes port fd b.xs now
]
