-- ===== src/WebSocket/Handshake/Settled.antt =====
-- What becomes of a new client while its header is read: a key, or a closed descriptor.
use chroagh.Base.{
  ℕ, zero, suc, ◌-◌, List-cases, ◌≡◌, refl, ◌∙◌, inl, inr, Bool-cases, Option, none, some, List, [],
  ◌∷◌, arith, length, Outcome, done, exited, aborted, fault, out_of_fuel, Ensures,
}
use chroagh.WebSocket.State.{World, Effect, closed, block_write}
use chroagh.WebSocket.State.Channels.{block_write-cases}
use chroagh.WebSocket.Constants.{buffersize}
use chroagh.WebSocket.Handshake.{
  Byte, goes_on, line_ends, outside, refilled, read_new, refill, next_byte, after_refill,
  after_byte, after_verdict, read_line, Verdict, next_line, header_ends, invalid, unended, use_line,
  accept_all, after_line, header_loop, initial, after_first_read, socket_server_read_header,
}
use chroagh.WebSocket.Header.{
  Seen, nothing_seen, all_seen, error_answer, close_new, socket_server_error, Parser,
}
use chroagh.WebSocket.Handshake.Key.{
  HasKey, ByteHasKey, VerdictHasKey, next_byte-HasKey, use_line-HasKey, all_seen-key,
}

module _ (fd : ℕ) (client : Option ℕ) (trace : List Effect) where
  -- Either the new descriptor is the last thing closed, or nothing was done and a key is there.
  unfoldable pub IsSettled : Option (List ℕ) → World → Type 0
  IsSettled none w = (w.client_fd ≡ client) × (t : List Effect) × (w.trace ≡ closed fd ∷ t)
  IsSettled (some key) w = (w.client_fd ≡ client) × (w.trace ≡ trace) × (length key ≡ 24)

  Untouched : World → Type 0
  Untouched w = (w.client_fd ≡ client) × (w.trace ≡ trace)

  IsLine : Option Parser → World → Type 0
  IsLine none w = (w.client_fd ≡ client) × (t : List Effect) × (w.trace ≡ closed fd ∷ t)
  IsLine (some p) w = HasKey p × Untouched w

  closes : (w : World) → w.client_fd ≡ client → IsSettled none (close_new fd w)
  unfolding IsSettled
  closes w e = (e, w.trace, refl)

  error-closes :
      (ok : Seen) (w : World) → w.client_fd ≡ client → IsSettled none (socket_server_error fd ok w)
  unfolding socket_server_error
  error-closes ok w e = elim (block_write-cases fd (error_answer ok) w) [
    | inl whole ↦ closes (block_write (some fd) (error_answer ok) w).1 (whole.1.client ∙ e)
    | inr short ↦ closes (block_write (some fd) (error_answer ok) w).1 (short.3.client ∙ e)
  ]

  -- A refill that fails closes the descriptor.
  refilled-IsLine :
      (p : Parser) (r : Option (List ℕ)) (w : World)
      → HasKey p
      → Untouched w
      → let (o, w') = refilled fd p (r, w) in IsLine o w'
  unfolding IsLine HasKey Untouched
  refilled-IsLine p none w h u = (u.0, w.trace, refl)
  refilled-IsLine p (some []) w h u = (u.0, w.trace, refl)
  refilled-IsLine p (some (x ∷ xs)) w h u = (h, u)

  refill-IsLine :
      (p : Parser) (w : World) → HasKey p → Untouched w → let (o, w') = refill fd p w in IsLine o w'
  unfolding refill read_new Untouched
  refill-IsLine p w h u = elim (List-cases p.rest) [
    | inl e ↦
        let (r, w') = read_new fd (buffersize - length p.line) w in
        rw (e, refill) (refilled-IsLine p r w' h u)
    | inr (c, cs, e) ↦ rw (e, refill) (unfold IsLine in (h, u))
  ]

  after_byte-IsLine :
      (again : Parser → World → Outcome (Option Parser × World))
      → ((q : Parser) (v : World) → HasKey q → Untouched v → Ensures IsLine (again q v))
      → (b : Byte) (w : World) → ByteHasKey b
      → Untouched w
      → Ensures IsLine (after_byte again w b)
  unfolding ByteHasKey IsLine
  after_byte-IsLine again rest (goes_on q) w h u = rest q w h u
  after_byte-IsLine again rest (line_ends q) w h u = (h, u)
  after_byte-IsLine again rest outside w h u = tt

  after_refill-IsLine :
      (again : Parser → World → Outcome (Option Parser × World))
      → ((q : Parser) (v : World) → HasKey q → Untouched v → Ensures IsLine (again q v))
      → (o : Option Parser) (w : World) → IsLine o w
      → Ensures IsLine (after_refill again (o, w))
  unfolding IsLine
  after_refill-IsLine again rest none w h = h
  after_refill-IsLine again rest (some p) w h =
      after_byte-IsLine again rest (next_byte p) w (next_byte-HasKey p h.0) h.1

  read_line-IsLine :
      (fuel : ℕ) (p : Parser) (w : World)
      → HasKey p
      → Untouched w
      → Ensures IsLine (read_line fuel fd p w)
  unfolding read_line
  read_line-IsLine zero p w h u = tt
  read_line-IsLine (suc fuel) p w h u =
      let (o, w') = refill fd p w in
      after_refill-IsLine (read_line fuel fd) (read_line-IsLine fuel) o w' (refill-IsLine p w h u)

  accept_all-IsSettled :
      (p : Parser) (w : World) → HasKey p → Untouched w → Ensures IsSettled (accept_all fd p w)
  unfolding HasKey Untouched
  accept_all-IsSettled p w h u = elim (Bool-cases (all_seen p.ok)) [
    | inl e ↦ rw e (unfold IsSettled in (u.0, u.1, h (all_seen-key p.ok e)))
    | inr e ↦ rw e (error-closes p.ok w u.0)
  ]

  verdict-IsSettled :
      (again : Parser → World → Outcome (Option (List ℕ) × World))
      → ((q : Parser) (v : World) → HasKey q → Untouched v → Ensures IsSettled (again q v))
      → (p : Parser) (v : Verdict) (w : World) → HasKey p
      → VerdictHasKey v
      → Untouched w
      → Ensures IsSettled (after_verdict again fd p w v)
  unfolding VerdictHasKey Untouched
  verdict-IsSettled again rest p (next_line q) w h hv u = rest q w hv u
  verdict-IsSettled again rest p header_ends w h hv u = accept_all-IsSettled p w h u
  verdict-IsSettled again rest p invalid w h hv u = error-closes nothing_seen w u.0
  verdict-IsSettled again rest p unended w h hv u = tt

  after_line-IsSettled :
      (again : Parser → World → Outcome (Option (List ℕ) × World))
      → ((q : Parser) (v : World) → HasKey q → Untouched v → Ensures IsSettled (again q v))
      → (port : ℕ) (r : Outcome (Option Parser × World)) → Ensures IsLine r
      → Ensures IsSettled (after_line again port fd r)
  unfolding IsLine
  after_line-IsSettled again rest port (done (none, w)) h = unfold IsSettled in h
  after_line-IsSettled again rest port (done (some p, w)) h =
      verdict-IsSettled again rest p (use_line port p) w h.0 (use_line-HasKey port p h.0) h.1
  after_line-IsSettled again rest port (exited n) h = tt
  after_line-IsSettled again rest port aborted h = tt
  after_line-IsSettled again rest port fault h = tt
  after_line-IsSettled again rest port out_of_fuel h = tt

  header_loop-IsSettled :
      (fuel bytes port : ℕ) (p : Parser) (w : World)
      → HasKey p
      → Untouched w
      → Ensures IsSettled (header_loop fuel bytes port fd p w)
  unfolding header_loop
  header_loop-IsSettled zero bytes port p w h u = tt
  header_loop-IsSettled (suc fuel) bytes port p w h u =
      after_line-IsSettled (header_loop fuel bytes port fd)
        (λ q v. header_loop-IsSettled fuel bytes port q v) port (read_line bytes fd p w)
        (read_line-IsLine bytes p w h u)

  first-IsSettled :
      (fuel bytes port : ℕ) (r : Option (List ℕ)) (w : World)
      → Untouched w
      → Ensures IsSettled (after_first_read fuel bytes port fd (r, w))
  unfolding Untouched
  first-IsSettled fuel bytes port none w u = closes w u.0
  first-IsSettled fuel bytes port (some []) w u = closes w u.0
  first-IsSettled fuel bytes port (some (x ∷ xs)) w u =
      header_loop-IsSettled fuel bytes port (initial (x ∷ xs)) w
        (unfold HasKey in λ s. ground arith) u

-- Whatever arrives: when `socket_server_read_header` returns an error, the new descriptor is closed
-- and nothing after that; when it succeeds, nothing was written or closed and 24 bytes of key are
-- there. The old client stays in both cases.
pub read_header-IsSettled :
    (fuel bytes port fd : ℕ) (w : World)
    → Ensures (IsSettled fd w.client_fd w.trace) (socket_server_read_header fuel bytes port fd w)
unfolding socket_server_read_header read_new
read_header-IsSettled fuel bytes port fd w =
    let (r, w') = read_new fd buffersize w in
    first-IsSettled fd w.client_fd w.trace fuel bytes port r w' (unfold Untouched in (refl, refl))
