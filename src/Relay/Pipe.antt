-- ===== src/Relay/Pipe.antt =====
-- Opening, writing and closing the pipes: `pipe_open_block`, `pipeout_open`, `pipeout_close`,
-- `pipeout_write`, `pipeout_error` and `pipein_reopen` of src/websocket.c.
pub mod Balanced
use chroagh.Base.{
  ℕ, zero, suc, if◌then◌else◌, Bool, true, false, Option, none, some, List, [], ◌∷◌, length, M,
  done, exited, out_of_fuel, ◌>>=◌,
}
use chroagh.Io.{Segment, read}
use chroagh.WebSocket.State.{World, update, block_write}
use chroagh.WebSocket.Constants.{buffersize}
use chroagh.WebSocket.Send.{is_all}
use chroagh.Relay.State.{
  PipeName, pipe_in, pipe_out, Opening, absent, stuck, opens_as, Relay, open_fd, close_fd,
  next_openings,
}

-- A descriptor, -1 or -2.
pub data Opened : Type 0 where
  fd : ℕ → Opened
  cannot_open : Opened
  cannot_clear : Opened

abbrev pub used : PipeName → List Opening → Relay → Relay
used name rest s = record s { openings = next_openings name rest s.openings }

-- An attempt after the last of the script fails.
abbrev pub attempt : PipeName → List Opening → Relay → Opened × Relay
attempt name [] s = (cannot_open, s)
attempt name (absent ∷ rest) s = (cannot_open, used name rest s)
attempt name (stuck n ∷ rest) s =
    (cannot_clear, close_fd name n (open_fd name n (used name rest s)))
attempt name (opens_as n ∷ rest) s = (fd n, open_fd name n (used name rest s))

unfoldable pub pipe_open_block : PipeName → Relay → Opened × Relay
pipe_open_block name s = attempt name (s.openings name) s

-- PIPEOUT_WRITE_TIMEOUT/10
abbrev pub pipeout_tries : ℕ
pipeout_tries = 300

-- The loop with so many tries to go; the Boolean is the test of the result for 0.
unfoldable pub open_loop : ℕ → M Relay Bool
open_loop zero s = done (false, s)
open_loop (suc tries) s =
    let retry = open_loop tries in
    let (o, s1) = pipe_open_block pipe_out s in
    elim o [
      | fd n ↦ done (true, record s1 { pipeout_fd = some n })
      | cannot_clear ↦ exited 1
      | cannot_open ↦ retry (record s1 { pipeout_fd = none })
    ]

unfoldable pub pipeout_open : M Relay Bool
pipeout_open = open_loop pipeout_tries

unfoldable pub pipeout_close : M Relay (Unit {0})
pipeout_close s = elim s.pipeout_fd [
  | none ↦ done (tt, s)
  | some n ↦ done (tt, record (close_fd pipe_out n s) { pipeout_fd = none })
]

-- `block_write` on the pipe, which is closed if not all bytes go out.
abbrev pub after_write : List ℕ → Relay → Option ℕ × World → Relay
after_write buffer s (n, w) =
    let s1 : Relay = record s { world = w } in
    if is_all n (length buffer) then s1 else elim s1.pipeout_fd [
      | none ↦ s1
      | some p ↦ record (close_fd pipe_out p s1) { pipeout_fd = none }
    ]

unfoldable pub pipeout_write : List ℕ → M Relay (Option ℕ)
pipeout_write buffer s = elim s.pipeout_fd [
  | none ↦ done (none, s)
  | some n ↦ let r = block_write (some n) buffer s.world in done (r.0, after_write buffer s r)
]

-- The result of `pipeout_open` is ignored.
unfoldable pub pipeout_error : List ℕ → M Relay (Unit {0})
pipeout_error str = pipeout_open >>= λ _. pipeout_write str >>= λ _. pipeout_close

-- `while (read(pipein_fd, buffer, BUFFERSIZE) > 0);`
unfoldable pub flush_loop : ℕ → List Segment → Option (List Segment)
flush_loop zero s = none
flush_loop (suc fuel) s =
    let (n, s1) = read buffersize s in
    let rest = flush_loop fuel s1 in
    elim n [ none ↦ some s1 | some [] ↦ some s1 | some (x ∷ xs) ↦ rest ]

-- The part of `pipein_reopen` for an open pipe.
unfoldable pub flush_close : ℕ → M Relay (Unit {0})
flush_close fuel s = elim s.pipein_fd [
  | none ↦ done (tt, s)
  | some n ↦ elim (flush_loop fuel (s.world.incoming n)) [
    | none ↦ out_of_fuel
    | some rest ↦ done (
      tt,
      close_fd pipe_in n
          (record s { world = record s.world { incoming = update s.world.incoming n rest } }),
    )
  ]
]

abbrev pub use_opened : Opened → M Relay (Unit {0})
use_opened (fd n) s = done (tt, record s { pipein_fd = some n })
use_opened cannot_open s = exited 1
use_opened cannot_clear s = exited 1

unfoldable pub open_pipein : M Relay (Unit {0})
open_pipein s = let (o, s1) = pipe_open_block pipe_in s in use_opened o s1

unfoldable pub pipein_reopen : ℕ → M Relay (Unit {0})
pipein_reopen fuel = flush_close fuel >>= λ _. open_pipein
