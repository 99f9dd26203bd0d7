-- ===== src/Relay/Setup/Ready.antt =====
-- What is there when `pipe_init` returns.
use chroagh.Base.{
  ℕ, ◌≡◌, refl, ◌∙◌, inl, inr, Bool-cases, if◌then◌else◌, not, Bool, true, false, some, arith,
  Outcome, done, exited, aborted, fault, out_of_fuel, ◌>>=◌, Ensures, Ensures-bind, Ensures-last,
}
use chroagh.Relay.State.{PipeName, pipe_in, pipe_out, Relay}
use chroagh.Relay.Pipe.{
  Opened, fd, cannot_open, cannot_clear, pipe_open_block, use_opened, open_pipein, flush_close,
  pipein_reopen,
}
use chroagh.Relay.Setup.{
  Kind, fifo, directory, other_kind, Node, missing, node, Disk, set_pipe, check_node, checkfifo,
  check_dir, required, need_fifo, version_text, write_version, make_files, after_files, pipe_init,
}

abbrev IsDir : Disk → Type 0
IsDir d = (b : Bool) × (d.pipe_dir ≡ node directory b)

abbrev IsFifo : PipeName → Disk → Type 0
IsFifo name d = d.pipes name ≡ node fifo true

-- All files are there: a directory, two pipes that can be read and written, and the version.
pub record IsReady (d : Disk) : Type 0 where
  pub dir : (b : Bool) × (d.pipe_dir ≡ node directory b)
  pub pipes : (name : PipeName) → d.pipes name ≡ node fifo true
  pub version : d.version ≡ some version_text

-- A pipe is there after its check, and other pipes stay.
record Checked (name : PipeName) (d d' : Disk) : Type 0 where
  dir : d'.pipe_dir ≡ d.pipe_dir
  pipe : IsFifo name d'
  others : (o : PipeName) → IsFifo o d → IsFifo o d'

made :
    (name : PipeName) (d : Disk)
    → Checked name d (record d { pipes = set_pipe name (node fifo true) d.pipes })
made pipe_in d = record { dir = refl; pipe = refl; others = kept }
  where
    kept :
        (o : PipeName) → IsFifo o d → set_pipe pipe_in (node fifo true) d.pipes o ≡ node fifo true
    kept pipe_in h = refl
    kept pipe_out h = h
made pipe_out d = record { dir = refl; pipe = refl; others = kept }
  where
    kept :
        (o : PipeName) → IsFifo o d → set_pipe pipe_out (node fifo true) d.pipes o ≡ node fifo true
    kept pipe_in h = h
    kept pipe_out h = refl

stays : (name : PipeName) (d : Disk) → IsFifo name d → Checked name d d
stays name d e = record { dir = refl; pipe = e; others = λ o h. h }

module _ (Q : Disk → Type 0) (d : Disk) where
  if_made :
      (b : Bool) (d' : Disk)
      → Q d'
      → Ensures (λ _ e. Q e) (required (if b then (true, d') else (false, d)))
  if_made true d' h = h
  if_made false d' h = tt

  if_known :
      (b ok : Bool)
      → (ok ≡ true → Q d)
      → Ensures (λ _ e. Q e) (required (if not b then (false, d) else (ok, d)))
  if_known true true h = h refl
  if_known true false h = tt
  if_known false ok h = tt

there :
    (name : PipeName) (kind : Kind) (d : Disk)
    → d.pipes name ≡ node kind true
    → Ensures (λ _ d'. Checked name d d') (required (check_node name (node kind true) d))
there name fifo d e = if_known (Checked name d) d d.stats true (λ _. stays name d e)
there name directory d e = if_known (Checked name d) d d.stats false (λ h. ground arith)
there name other_kind d e = if_known (Checked name d) d d.stats false (λ h. ground arith)

check_node-Checked :
    (name : PipeName) (n : Node) (d : Disk)
    → d.pipes name ≡ n
    → Ensures (λ _ d'. Checked name d d') (required (check_node name n d))
check_node-Checked name missing d e =
    if_made (Checked name d) d d.makes (record d { pipes = set_pipe name (node fifo true) d.pipes })
      (made name d)
check_node-Checked name (node kind true) d e = there name kind d e
check_node-Checked name (node kind false) d e = tt

need_fifo-Checked :
    (name : PipeName) (d : Disk) → Ensures (λ _ d'. Checked name d d') (need_fifo name d)
unfolding checkfifo
need_fifo-Checked name d = check_node-Checked name (d.pipes name) d refl

check_dir_lem : (n : Node) (d : Disk) → d.pipe_dir ≡ n → Ensures (λ _ d'. IsDir d') (check_dir n d)
check_dir_lem missing d e = elim (Bool-cases d.makes) [
  | inl ok ↦ rw ok (true, refl)
  | inr bad ↦ rw bad tt
]
check_dir_lem (node fifo b) d e = elim (Bool-cases d.stats) [
  | inl ok ↦ rw ok tt
  | inr bad ↦ rw bad tt
]
check_dir_lem (node directory b) d e = elim (Bool-cases d.stats) [
  | inl ok ↦ rw ok (b, e)
  | inr bad ↦ rw bad tt
]
check_dir_lem (node other_kind b) d e = elim (Bool-cases d.stats) [
  | inl ok ↦ rw ok tt
  | inr bad ↦ rw bad tt
]

all_pipes : (d : Disk) → IsFifo pipe_in d → IsFifo pipe_out d → (name : PipeName) → IsFifo name d
all_pipes d i o pipe_in = i
all_pipes d i o pipe_out = o

write_version_lem :
    (d : Disk)
    → IsDir d
    → ((name : PipeName) → IsFifo name d)
    → Ensures (λ _ d'. IsReady d') (write_version d)
write_version_lem d dir pipes = elim (Bool-cases d.writes) [
  | inl ok ↦ rw ok (record { dir = dir; pipes = pipes; version = refl })
  | inr bad ↦ rw bad tt
]

-- A part of `make_files` for which the directory is there.
moved : (name : PipeName) (d d' : Disk) → Checked name d d' → IsDir d → IsDir d'
moved name d d' c (b, e) = (b, c.dir ∙ e)

make_files-IsReady : (d : Disk) → Ensures (λ _ d'. IsReady d') (make_files d)
unfolding make_files
make_files-IsReady d =
    Ensures-bind (λ _ d1. IsDir d1) (λ _ d'. IsReady d')
      (λ _. need_fifo pipe_in >>= λ _. need_fifo pipe_out >>= λ _. write_version)
      (check_dir d.pipe_dir) d (check_dir_lem d.pipe_dir d refl)
      λ _ d1 dir1.
        Ensures-bind (λ _ d2. Checked pipe_in d1 d2) (λ _ d'. IsReady d')
          (λ _. need_fifo pipe_out >>= λ _. write_version) (need_fifo pipe_in) d1
          (need_fifo-Checked pipe_in d1)
          λ _ d2 c2.
            Ensures-bind (λ _ d3. Checked pipe_out d2 d3) (λ _ d'. IsReady d') (λ _. write_version)
              (need_fifo pipe_out) d2 (need_fifo-Checked pipe_out d2)
              λ _ d3 c3.
                write_version_lem d3 (moved pipe_out d2 d3 c3 (moved pipe_in d1 d2 c2 dir1))
                  (all_pipes d3 (c3.others pipe_in c2.pipe) c3.pipe)

abbrev pub IsOpen : Disk → Relay → Type 0
IsOpen d s = IsReady d × ((n : ℕ) × (s.pipein_fd ≡ some n))

open_pipein_lem :
    (o : Opened) (s : Relay) → Ensures (λ _ t. (n : ℕ) × (t.pipein_fd ≡ some n)) (use_opened o s)
open_pipein_lem (fd n) s = (n, refl)
open_pipein_lem cannot_open s = tt
open_pipein_lem cannot_clear s = tt

reopened :
    (fuel : ℕ) (s : Relay)
    → Ensures (λ _ t. (n : ℕ) × (t.pipein_fd ≡ some n)) (pipein_reopen fuel s)
unfolding pipein_reopen open_pipein
reopened fuel s =
    Ensures-last (λ _ t. (n : ℕ) × (t.pipein_fd ≡ some n)) (λ _. open_pipein) (flush_close fuel) s
      λ _ s1. let (o, s2) = pipe_open_block pipe_in s1 in open_pipein_lem o s2

after_files-IsOpen :
    (fuel : ℕ) (r : Outcome (Unit {0} × Disk)) (s : Relay)
    → Ensures (λ _ d. IsReady d) r
    → Ensures IsOpen (after_files fuel r s)
after_files-IsOpen fuel (done (_, d)) s h =
    Ensures-bind (λ _ t. (n : ℕ) × (t.pipein_fd ≡ some n)) IsOpen (λ _ t. done (d, t))
      (pipein_reopen fuel) s (reopened fuel s) λ _ t o. (h, o)
after_files-IsOpen fuel (exited n) s h = tt
after_files-IsOpen fuel aborted s h = tt
after_files-IsOpen fuel fault s h = tt
after_files-IsOpen fuel out_of_fuel s h = tt

-- Whatever the paths named and the system answers: when `pipe_init` returns, the directory is there,
-- both pipes are FIFOs that can be read and written, the version file holds V2 and a line feed, and
-- the pipe in is open.
pub pipe_init-IsOpen : (fuel : ℕ) (d : Disk) (s : Relay) → Ensures IsOpen (pipe_init fuel d s)
unfolding pipe_init
pipe_init-IsOpen fuel d s = after_files-IsOpen fuel (make_files d) s (make_files-IsReady d)
