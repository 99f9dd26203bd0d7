-- ===== src/WebSocket/Handshake.antt =====
-- The HTTP header of a new client: the loops of `socket_server_read_header` of src/websocket.h.
pub mod Key
pub mod Settled
pub mod Lines
pub mod Split
pub mod Meaning
pub mod Accepting
pub mod Underrun
pub mod Complete
use chroagh.Base.{
  ℕ, zero, suc, ◌+◌, ◌-◌, ◌==◌, not, ◌&&◌, ◌||◌, if◌then◌else◌, Bool, true, false, Option, none,
  some, List, [], ◌∷◌, ◌++◌, length, take, drop, text, decimal, Outcome, M, done, fault,
  out_of_fuel, ◌>>=◌,
}
use chroagh.Io.{read}
use chroagh.WebSocket.State.{World, closed, update, block_write}
use chroagh.WebSocket.Constants.{buffersize}
use chroagh.WebSocket.Message.{c_string, strings_eq}
use chroagh.WebSocket.Header.{
  Parser, Seen, all_seen, bad_request, close_new, error_answer, header_field, next_words, not_found,
  nothing_seen, other_version, request_line, same_text, seckey_len, set_if, set_key,
  socket_server_error, some_websocket, with_ok, word_is, words, wrong_version,
}

-- The C string at the start of the bytes, if it ends in them.
abbrev pub ended_string : List ℕ → Option (List ℕ)
ended_string [] = none
ended_string (zero ∷ bs) = some []
ended_string (suc b ∷ bs) = elim (ended_string bs) [ none ↦ none | some s ↦ some (suc b ∷ s) ]

-- One byte of a line. The end of the line becomes a NUL, of which the string that starts at `key`
-- always has one; before the first byte of the buffer there is none to look at.
pub data Byte : Type 0 where
  goes_on : Parser → Byte
  line_ends : Parser → Byte
  outside : Byte

abbrev pub ends_in_cr : List ℕ → Bool
ends_in_cr [] = false
ends_in_cr (b ∷ []) = b == b'\r'
ends_in_cr (b ∷ c ∷ bs) = ends_in_cr (c ∷ bs)

-- At `\n`, with the bytes that follow: what stands in memory from `key` on.
abbrev pub end_line : Parser → List ℕ → Byte
end_line p rest =
    if (length p.line == 0) && (p.key_at == 0)
    then outside
    else line_ends (record p {
      line =
          if ends_in_cr p.line
          then take (length p.line - 1) p.line ++ (0 ∷ b'\n' ∷ [])
          else p.line ++ (0 ∷ []);
      rest = rest;
    })

abbrev pub is_none : Option ℕ → Bool
is_none none = true
is_none (some n) = false

unfoldable pub take_byte : Parser → ℕ → List ℕ → Byte
take_byte p c rest =
    if c == b'\n'
    then end_line p rest
    else if not p.first && is_none p.value && (c == b':')
    then goes_on
        (record p { value = some (length p.line + 2); line = p.line ++ (0 ∷ []); rest = rest })
    else goes_on (record p { line = p.line ++ (c ∷ []); rest = rest })

-- `none` is a return of -1 after the descriptor was closed.
abbrev pub refilled : ℕ → Parser → Option (List ℕ) × World → Option Parser × World
refilled fd p (none, w) = (none, close_new fd w)
refilled fd p (some [], w) = (none, close_new fd w)
refilled fd p (some (x ∷ xs), w) = (some (record p { key_at = 0; rest = x ∷ xs }), w)

-- `read(newclient_fd, _, count)`
unfoldable pub read_new : ℕ → ℕ → World → Option (List ℕ) × World
read_new fd count w =
    let (r, segments) = read count (w.incoming fd) in
    (r, record w { incoming = update w.incoming fd segments })

-- With nothing left the buffer is shifted, so that the line starts it, and read into again.
unfoldable pub refill : ℕ → Parser → World → Option Parser × World
refill fd p w = elim p.rest [
  | [] ↦ refilled fd p (read_new fd (buffersize - length p.line) w)
  | b ∷ bs ↦ (some p, w)
]

abbrev pub next_byte : Parser → Byte
next_byte p = elim p.rest [ [] ↦ outside | c ∷ cs ↦ take_byte p c cs ]

-- The inner loop: a line, one byte for each round.
abbrev pub after_byte :
    (Parser → World → Outcome (Option Parser × World))
    → World
    → Byte
    → Outcome (Option Parser × World)
after_byte again w (goes_on q) = again q w
after_byte again w (line_ends q) = done (some q, w)
after_byte again w outside = fault

abbrev pub after_refill :
    (Parser → World → Outcome (Option Parser × World))
    → Option Parser × World
    → Outcome (Option Parser × World)
after_refill again (none, w) = done (none, w)
after_refill again (some p, w) = after_byte again w (next_byte p)

unfoldable pub read_line : ℕ → ℕ → Parser → World → Outcome (Option Parser × World)
read_line zero fd p w = out_of_fuel
read_line (suc fuel) fd p w = after_refill (read_line fuel fd) (refill fd p w)

-- What follows a line.
pub data Verdict : Type 0 where
  next_line : Parser → Verdict
  header_ends : Verdict
  invalid : Verdict
  unended : Verdict

abbrev pub start_line : Parser → Parser
start_line p = record p { key_at = p.key_at + length p.line; line = []; value = none }

abbrev pub checked_field : Option Parser → Verdict
checked_field none = unended
checked_field (some p) = next_line (start_line p)

unfoldable pub use_line : ℕ → Parser → Verdict
use_line port p =
    let key = c_string p.line in
    if (length key == 0) && is_none p.value
    then header_ends
    else if p.first
    then next_line (start_line (record p { first = false; ok = request_line key p.ok }))
    else elim p.value [
      | none ↦ invalid
      | some at ↦
          checked_field (header_field port key (ended_string (drop at (p.line ++ p.rest))) p)
    ]

abbrev pub accept_all : ℕ → Parser → World → Outcome (Option (List ℕ) × World)
accept_all fd p w =
    if all_seen p.ok
    then done (some p.websocket_key, w)
    else done (none, socket_server_error fd p.ok w)

abbrev pub after_verdict :
    (Parser → World → Outcome (Option (List ℕ) × World))
    → ℕ
    → Parser
    → World
    → Verdict
    → Outcome (Option (List ℕ) × World)
after_verdict again fd p w (next_line q) = again q w
after_verdict again fd p w header_ends = accept_all fd p w
after_verdict again fd p w invalid = done (none, socket_server_error fd nothing_seen w)
after_verdict again fd p w unended = fault

-- The outer loop; `fuel` bounds the lines and `bytes` those of one line.
abbrev pub after_line :
    (Parser → World → Outcome (Option (List ℕ) × World))
    → ℕ
    → ℕ
    → Outcome (Option Parser × World)
    → Outcome (Option (List ℕ) × World)
after_line again port fd (done (none, w)) = done (none, w)
after_line again port fd (done (some p, w)) = after_verdict again fd p w (use_line port p)
after_line again port fd fault = fault
after_line again port fd _ = out_of_fuel

unfoldable pub header_loop : ℕ → ℕ → ℕ → ℕ → Parser → World → Outcome (Option (List ℕ) × World)
header_loop zero bytes port fd p w = out_of_fuel
header_loop (suc fuel) bytes port fd p w =
    after_line (header_loop fuel bytes port fd) port fd (read_line bytes fd p w)

abbrev pub initial : List ℕ → Parser
initial rest = record {
  ok = nothing_seen;
  first = true;
  key_at = 0;
  line = [];
  value = none;
  rest = rest;
  websocket_key = [];
}

abbrev pub after_first_read :
    ℕ → ℕ → ℕ → ℕ → Option (List ℕ) × World → Outcome (Option (List ℕ) × World)
after_first_read fuel bytes port fd (none, w) = done (none, close_new fd w)
after_first_read fuel bytes port fd (some [], w) = done (none, close_new fd w)
after_first_read fuel bytes port fd (some (x ∷ xs), w) =
    header_loop fuel bytes port fd (initial (x ∷ xs)) w

-- The key of the client, or `none` for -1.
unfoldable pub socket_server_read_header : ℕ → ℕ → ℕ → ℕ → World → Outcome (Option (List ℕ) × World)
socket_server_read_header fuel bytes port fd w =
    after_first_read fuel bytes port fd (read_new fd buffersize w)
