-- ===== src/Relay/Setup.antt =====
-- The files of croutonwebsocket: `checkfifo` and `pipe_init` of src/websocket.c. What the system calls
-- answer is an argument.
pub mod Ready
use chroagh.Base.{
  ℕ, ◌≡◌, refl, ap, ◌∙◌, inl, inr, Bool-cases, Option-cases, if◌then◌else◌, not, ◌||◌, Bool, true,
  false, Option, none, some, List, ◌∷◌, [], text, Outcome, M, done, exited, ◌>>=◌, ◌>>◌, Ensures,
  Ensures-bind, Ensures-last,
}
use chroagh.Relay.State.{PipeName, pipe_in, pipe_out, Relay}
use chroagh.Relay.Pipe.{
  fd, cannot_open, cannot_clear, Opened, pipe_open_block, open_pipein, flush_close, pipein_reopen,
}

pub data Kind : Type 0 where
  fifo : Kind
  directory : Kind
  other_kind : Kind

-- What a path names. The Boolean is whether it can be read and written.
pub data Node : Type 0 where
  missing : Node
  node : Kind → Bool → Node

abbrev pub is_fifo : Kind → Bool
is_fifo fifo = true
is_fifo directory = false
is_fifo other_kind = false

abbrev pub is_directory : Kind → Bool
is_directory fifo = false
is_directory directory = true
is_directory other_kind = false

-- `makes` and `stats` are whether mkdir, mkfifo and stat succeed, `writes` whether the version can be
-- written. New pipes can be read and written by their owner.
pub record Disk : Type 0 where
  pub pipe_dir : Node
  pub pipes : PipeName → Node
  pub version : Option (List ℕ)
  pub makes : Bool
  pub stats : Bool
  pub writes : Bool

abbrev pub set_pipe : PipeName → Node → (PipeName → Node) → PipeName → Node
set_pipe pipe_in n f pipe_in = n
set_pipe pipe_in n f pipe_out = f pipe_out
set_pipe pipe_out n f pipe_in = f pipe_in
set_pipe pipe_out n f pipe_out = n

-- The result is the test of the returned number for 0.
abbrev pub check_node : PipeName → Node → Disk → Bool × Disk
check_node name missing d =
    if d.makes
    then (true, record d { pipes = set_pipe name (node fifo true) d.pipes })
    else (false, d)
check_node name (node kind allowed) d =
    if not allowed then (false, d) else if not d.stats then (false, d) else (is_fifo kind, d)

unfoldable pub checkfifo : PipeName → Disk → Bool × Disk
checkfifo name d = check_node name (d.pipes name) d

abbrev pub check_dir : Node → M Disk (Unit {0})
check_dir missing d =
    if d.makes then done (tt, record d { pipe_dir = node directory true }) else exited 1
check_dir (node kind allowed) d =
    if not d.stats then exited 1 else if is_directory kind then done (tt, d) else exited 1

abbrev pub required : Bool × Disk → Outcome (Unit {0} × Disk)
required (ok, d) = if ok then done (tt, d) else exited 1

abbrev pub need_fifo : PipeName → M Disk (Unit {0})
need_fifo name d = required (checkfifo name d)

-- VERSION "\n"
abbrev pub version_text : List ℕ
version_text = text "V2\n"

abbrev pub write_version : M Disk (Unit {0})
write_version d = if d.writes then done (tt, record d { version = some version_text }) else exited 1

unfoldable pub make_files : M Disk (Unit {0})
make_files d =
    (check_dir d.pipe_dir >>= λ _.
    need_fifo pipe_in >>= λ _. need_fifo pipe_out >>= λ _. write_version)
      d

-- The files, then the pipe in.
abbrev pub after_files : ℕ → Outcome (Unit {0} × Disk) → M Relay Disk
after_files fuel (done (_, d)) = pipein_reopen fuel >>= λ _ s. done (d, s)
after_files fuel _ = λ s. exited 1

unfoldable pub pipe_init : ℕ → Disk → M Relay Disk
pipe_init fuel d = after_files fuel (make_files d)
